-- ===== src/Network/Connect.antt =====
-- FTBN_Connect of src/manager_lib/network/network_sock/ftb_network_tcp.c: the search for a parent. The
-- naps between the turns are left out. The world holds the bootstrap server and the hosts to connect to.
use ftb.Prelude.{ℕ, zero, suc, ◌+◌, ◌%◌, Bool, not, Option, none, some, ◌==◌, ltb, if◌then◌else◌}
use ftb.Text.{codes}
use ftb.Defs.{Code, success, err_network_general, err_network_no_route, is_success, LocationId}
use ftb.Database.{AddrSock, Pkt}
use ftb.Network.Bootstrap.{
  Exit, returned, aborted, Round, Config, get_parent_addr, register_addr, report_conn_failure,
}

-- FTBN_my_level and FTBN_parent_addr, the location of the parent that the caller gets, and the world.
pub record Search (W : Type 0) : Type 0 where
  pub my_level : ℕ
  pub parent_addr : AddrSock
  pub parent_location_id : LocationId
  pub world : W

-- How a turn of the loop ends: at the loop's condition, with `ret` and `retry`; by a return with success;
-- or with the end of the process.
pub data Turn (W : Type 0) : Type 0 where
  next : Code → ℕ → Search W → Turn W
  done : Search W → Turn W
  stop : Turn W

abbrev pub retry_count : ℕ
retry_count = 1

-- `0 - 1` as a `uint16_t`
abbrev pub no_level : ℕ
no_level = 65535

abbrev pub set_port : ℕ → {W : Type 0} → Search W → Search W
set_port n st = record st { parent_addr = record (st.parent_addr) { port = n } }

-- The end of a turn: the loop's condition, and what follows the loop.
unfoldable pub after_turn :
    {W : Type 0}
    → Turn W
    → (ℕ → Search W → Option (Exit (Code × Search W)))
    → Option (Exit (Code × Search W))
after_turn stop again = some aborted
after_turn (done left) again = some (returned (success, left))
after_turn (next ret count left) again =
    let rest = again (count + 1) left in
    if is_success ret
    then some (returned (success, left))
    else if ltb count retry_count
    then rest
    else some (returned (ret, left))

module _ {W : Type 0} (deliver : Pkt → W → Round × W)
    (link : AddrSock → W → (Code × LocationId) × W) (cfg : Config) (garbage : Pkt) where
  -- The part of a turn for a process that the server names no parent.
  unfoldable pub be_root : ℕ → ℕ → Search W → Turn W
  be_root retry parent_level st =
      let alone : Search W = record st {
        parent_location_id = record (st.parent_location_id) { pid = 0 };
        my_level = (parent_level + 1) % 65536;
      } in
      elim (register_addr deliver cfg alone.my_level alone.world) [
        | aborted ↦ stop
        | returned r ↦
            if is_success r.0
            then next success retry (record alone { world = r.1 })
            else next r.0 0 (record alone { my_level = no_level; world = r.1 })
      ]

  -- After the connection to the parent.
  unfoldable pub after_link : ℕ → ℕ → Search W → Code × LocationId → Turn W
  after_link retry parent_level st (success, l) =
      let joined : Search W = record st { parent_location_id = l } in
      let placed : Search W = record joined { my_level = (parent_level + 1) % 65536 } in
      if not (cfg.leaf == 0)
      then next success retry joined
      else elim (register_addr deliver cfg placed.my_level placed.world) [
        | aborted ↦ stop
        | returned r ↦
            if is_success r.0
            then next success retry (record placed { world = r.1 })
            else done (record placed { world = r.1 })
      ]
  after_link retry parent_level st (err_network_no_route, l) =
      elim (report_conn_failure deliver st.parent_addr garbage st.world) [
        | aborted ↦ stop
        | returned w ↦ next err_network_no_route 0 (set_port 2 (record st { world = w }))
      ]
  after_link retry parent_level st (ret, l) = next ret retry st

  -- A turn of the loop.
  unfoldable pub turn : ℕ → Search W → Turn W
  unfolding be_root after_link
  turn retry st = elim (get_parent_addr deliver cfg st.my_level st.parent_addr st.world) [
    | aborted ↦ stop
    | returned ((ret, none), w) ↦
        if ltb retry retry_count
        then next ret retry (set_port 0 (record st { world = w }))
        else stop
    | returned ((ret, some (addr, parent_level)), w) ↦
        let told : Search W = record st { parent_addr = addr; world = w } in
        if addr.port == 0
        then be_root retry parent_level told
        else after_link retry parent_level (record told { world = (link addr w).1 }) (link addr w).0
  ]

  -- The loop, for so many turns at most; `none` is a loop that still runs then.
  unfoldable pub connect_loop : ℕ → ℕ → Search W → Option (Exit (Code × Search W))
  unfolding turn after_turn
  connect_loop zero retry st = none
  connect_loop (suc fuel) retry st =
      after_turn (turn retry st) (λ count left. connect_loop fuel count left)

  -- `listens` tells whether an agent has its listening port.
  unfoldable pub connect : ℕ → Bool → Search W → Option (Exit (Code × Search W))
  unfolding connect_loop
  connect fuel listens st =
      if cfg.leaf == 0
      then (if listens then connect_loop fuel 0 st else some aborted)
      else let local = link (record { name = codes "localhost"; port = cfg.agent_port }) st.world in
        let tried : Search W = record st { world = local.1 } in
        elim (local.0.0) [
          | err_network_general ↦ some (returned (err_network_general, tried))
          | success ↦ some (returned (success, record tried { parent_location_id = local.0.1 }))
          | _ ↦ connect_loop fuel 0 (set_port 0 tried)
        ]
