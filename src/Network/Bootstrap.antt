-- ===== src/Network/Bootstrap.antt =====
-- src/manager_lib/network/network_sock/ftb_bootstrap_udp.c: the requests to the bootstrap server. A
-- datagram passes through a world `W`, which holds whatever is at the other end; memory that is not
-- initialised is the packet `garbage`. FTBU_ERR_ABORT ends the process.
use ftb.Prelude.{
  ℕ, zero, suc, Bool, ◌*◌, ◌%◌, ◌^◌, not, List, [], ◌∷◌, Option, none, some, ◌==◌, if◌then◌else◌,
}
use ftb.Text.{Str}
use ftb.Defs.{Code, success, err_general, err_not_supported, err_network_no_route}
use ftb.Database.{
  AddrSock, PktType, addr_req, addr_rep, reg_req, reg_rep, dereg_req, dereg_rep, conn_fail, Pkt,
  reply, no_addr,
}

-- A call that returns, or the end of the process.
pub data Exit (A : Type 0) : Type 0 where
  returned : A → Exit A
  aborted : Exit A

-- What comes of a packet within the time of `select`: `select` is interrupted, nothing arrives, a packet
-- arrives, or a call fails for another reason.
pub data Round : Type 0 where
  interrupted silent broken : Round
  arrived : Pkt → Round

-- FTBNI_bootstrap_config, FTBNI_bootstrap_config_location.leaf, and the address that
-- FTBN_Get_my_network_address finds, if it finds one.
pub record Config : Type 0 where
  pub agent_port : ℕ
  pub leaf : ℕ
  pub my_address : Option Str

abbrev pub backoff_init_timeout : ℕ
backoff_init_timeout = 100

abbrev pub backoff_ratio : ℕ
backoff_ratio = 4

abbrev pub backoff_retry_count : ℕ
backoff_retry_count = 5

-- The address of this process in a packet that was cleared, or holds `before`.
abbrev pub own_addr : Config → AddrSock → AddrSock
own_addr cfg before = record {
  name = elim cfg.my_address [ none ↦ before.name | some name ↦ name ];
  port = cfg.agent_port;
}

abbrev pub request_pkt : Config → ℕ → AddrSock → Pkt
request_pkt cfg my_level parent_addr = record {
  bootstrap_msg_type = addr_req;
  addr = own_addr cfg no_addr;
  parent_addr = parent_addr;
  level = my_level;
}

abbrev pub register_pkt : Config → ℕ → Pkt
register_pkt cfg my_level = record (reply reg_req) { addr = own_addr cfg no_addr; level = my_level }

abbrev pub deregister_pkt : Config → Pkt → Pkt
deregister_pkt cfg garbage = record garbage {
  bootstrap_msg_type = dereg_req;
  addr = own_addr cfg garbage.addr;
}

-- Only the type and `addr` are written.
abbrev pub failure_pkt : AddrSock → Pkt → Pkt
failure_pkt addr garbage = record garbage { bootstrap_msg_type = conn_fail; addr = addr }

-- The types of the answers.
abbrev pub is_addr_rep : PktType → Bool
is_addr_rep addr_rep = Bool.true
is_addr_rep _ = Bool.false

abbrev pub is_reg_rep : PktType → Bool
is_reg_rep reg_rep = Bool.true
is_reg_rep _ = Bool.false

abbrev pub is_dereg_rep : PktType → Bool
is_dereg_rep dereg_rep = Bool.true
is_dereg_rep _ = Bool.false

-- The packet that was received, how long each `select` waited at most, and the world afterwards.
pub record Exchanged (W : Type 0) : Type 0 where
  pub pkt_recv : Option Pkt
  pub waits : List ℕ
  pub world : W

unfoldable pub add_wait : {W : Type 0} → ℕ → Exit (Exchanged W) → Exit (Exchanged W)
add_wait timeout aborted = aborted
add_wait timeout (returned x) = returned (record x { waits = timeout ∷ x.waits })

-- What follows one round of the loop: the end, or the next round with its time to wait.
unfoldable pub after_round :
    {W : Type 0} → ℕ → Round × W → (ℕ → W → Exit (Exchanged W)) → Exit (Exchanged W)
unfolding add_wait
after_round timeout (interrupted, left) next = add_wait timeout (next timeout left)
after_round timeout (silent, left) next =
    add_wait timeout (next (timeout * backoff_ratio % 2 ^ 32) left)
after_round timeout (broken, left) next = aborted
after_round timeout (arrived p, left) next =
    returned (record { pkt_recv = some p; waits = timeout ∷ []; world = left })

module _ {W : Type 0} (deliver : Pkt → W → Round × W) where
  -- The loop of FTBNI_util_exchange_bootstrap_msg, for the rounds that are left.
  unfoldable pub exchange_rounds : ℕ → ℕ → Pkt → W → Exit (Exchanged W)
  unfolding after_round
  exchange_rounds zero timeout pkt w = returned (record { pkt_recv = none; waits = []; world = w })
  exchange_rounds (suc n) timeout pkt w =
      after_round timeout (deliver pkt w) (λ next left. exchange_rounds n next pkt left)

  unfoldable pub exchange_bootstrap_msg : Pkt → W → Exit (Exchanged W)
  unfolding exchange_rounds
  exchange_bootstrap_msg = exchange_rounds backoff_retry_count backoff_init_timeout

  -- What FTBNI_Bootstrap_get_parent_addr makes of the exchange: the code, and the address and the level
  -- of the parent.
  unfoldable pub parent_of : Exchanged W → Code × Option (AddrSock × ℕ)
  parent_of x = elim x.pkt_recv [
    | none ↦ (err_network_no_route, none)
    | some p ↦
        if is_addr_rep p.bootstrap_msg_type
        then (success, some (p.parent_addr, p.level))
        else (err_general, none)
  ]

  unfoldable pub get_parent_addr :
      Config → ℕ → AddrSock → W → Exit ((Code × Option (AddrSock × ℕ)) × W)
  unfolding exchange_bootstrap_msg parent_of
  get_parent_addr cfg my_level parent_addr w =
      elim (exchange_bootstrap_msg (request_pkt cfg my_level parent_addr) w) [
        | aborted ↦ aborted
        | returned x ↦ returned (parent_of x, x.world)
      ]

  -- FTBNI_util_send_bootstrap_msg: no answer is waited for; a send that fails ends the process.
  unfoldable pub report_conn_failure : AddrSock → Pkt → W → Exit W
  report_conn_failure addr garbage w =
      let left = (deliver (failure_pkt addr garbage) w).1 in
      elim (deliver (failure_pkt addr garbage) w).0 [ broken ↦ aborted | _ ↦ returned left ]

  -- The code of an exchange whose answer must be of one type.
  unfoldable pub confirmed : (PktType → Bool) → Exchanged W → Code
  confirmed is_reply x = elim x.pkt_recv [
    | none ↦ err_network_no_route
    | some p ↦ if is_reply p.bootstrap_msg_type then success else err_general
  ]

  unfoldable pub register_addr : Config → ℕ → W → Exit (Code × W)
  unfolding exchange_bootstrap_msg confirmed
  register_addr cfg my_level w =
      if not (cfg.leaf == 0)
      then returned (err_not_supported, w)
      else elim (exchange_bootstrap_msg (register_pkt cfg my_level) w) [
        | aborted ↦ aborted
        | returned x ↦ returned (confirmed is_reg_rep x, x.world)
      ]

  -- FTBNI_Bootstrap_finalize
  unfoldable pub finalize : Config → Pkt → W → Exit (Code × W)
  unfolding exchange_bootstrap_msg confirmed
  finalize cfg garbage w =
      if not (cfg.leaf == 0)
      then returned (err_not_supported, w)
      else elim (exchange_bootstrap_msg (deregister_pkt cfg garbage) w) [
        | aborted ↦ aborted
        | returned x ↦ returned (confirmed is_dereg_rep x, x.world)
      ]

  -- FTBNI_Bootstrap_abort
  unfoldable pub abort : Config → Pkt → W → Exit (Code × W)
  abort cfg garbage w =
      let left = (deliver (deregister_pkt cfg garbage) w).1 in
      if not (cfg.leaf == 0)
      then returned (err_not_supported, w)
      else elim (deliver (deregister_pkt cfg garbage) w).0 [
        | broken ↦ aborted
        | _ ↦ returned (success, left)
      ]
