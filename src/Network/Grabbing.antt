-- ===== src/Network/Grabbing.antt =====
-- FTBN_Grab_messages and FTBNI_util_connect_to of src/manager_lib/network/network_sock/ftb_network_tcp.c: a
-- process that connects is accepted and entered into the table of connections, or its host is
-- connected to, and every connection that is ready is read once. A call that waits for ever gives `none`.
use ftb.Prelude.{ℕ, Bool, true, false, not, List, [], ◌∷◌, Option, none, some, ◌==◌, if◌then◌else◌}
use ftb.Defs.{Code, success, err_network_general, err_network_no_route, LocationId, Msg}
use ftb.Network.Stream.{Segment, Call}
use ftb.Network.Table.{
  Connection, Layout, util_read, util_write, Select, select_interrupted, select_failed, ready,
}

-- A socket with what it has for `read` and how it answers `write`.
pub record Socket : Type 0 where
  pub fd : ℕ
  pub input : List Segment
  pub output : List Call

-- FTB_system_id with its bytes, the number that four bytes stand for, FTBN_my_location_id, and what
-- memory holds that is not initialised.
pub record Local : Type 0 where
  pub system_id : ℕ
  pub id_bytes : List ℕ
  pub id_of : List ℕ → ℕ
  pub my_location_id : LocationId
  pub garbage_id : ℕ
  pub garbage_location : LocationId

unfoldable pub new_entry : Local → Socket → Connection
new_entry here s = record {
  err_flag = false;
  fd = s.fd;
  dst = here.garbage_location;
  ref_count = 0;
  input = s.input;
  output = s.output;
  sent = [];
}

-- What comes of a new connection: it has another system id, it breaks off, or it is entered.
pub data Arrival : Type 0 where
  stranger broken_off : Arrival
  joined : Connection → Msg → Arrival

-- The code, the messages with their sources in their order, the location that was lost, and the table.
pub record Grabbed : Type 0 where
  pub code : Code
  pub messages : List (Msg × LocationId)
  pub problem_location : Option LocationId
  pub table : List Connection

-- What a round of the loop meets: the result of `select`, and the connection that is accepted, if the
-- listening socket is ready; the process ends where `accept` fails.
pub record Poll : Type 0 where
  pub select : Select
  pub accepted : Option Socket

-- The steps of FTBNI_util_connect_to before it writes: the call that fails, or the connected socket.
pub data Dialled : Type 0 where
  no_socket no_host no_option no_answer : Dialled
  connected : Socket → Dialled

abbrev pub put_first : Msg × LocationId → Option Grabbed → Option Grabbed
put_first m none = none
put_first m (some g) = some (record g { messages = m ∷ g.messages })

module _ (layout : Layout) where
  -- The loop over the table: it stops at the first connection that is lost.
  unfoldable pub collect : (ℕ → Bool) → List Connection → Option Grabbed
  unfolding util_read
  collect fds [] =
      some (record { code = success; messages = []; problem_location = none; table = [] })
  collect fds (c ∷ cs) =
      let rest = collect fds cs in
      let keep : Connection → Option Grabbed =
        λ d. elim rest [ none ↦ none | some g ↦ some (record g { table = d ∷ g.table }) ] in
      if not (fds c.fd) then keep c else elim (util_read layout.msg_size c) [
        | none ↦ none
        | some (none, d) ↦ some (record {
          code = err_network_general;
          messages = [];
          problem_location = some c.dst;
          table = cs;
        })
        | some (some bs, d) ↦ put_first (layout.msg_of bs, c.dst) (keep d)
      ]

module _ (layout : Layout) (here : Local) where
  unfoldable pub read_location : Connection → Option (Option (List ℕ) × Connection)
  unfolding util_read
  read_location c = elim (util_read layout.location_size c) [
    | none ↦ none
    | some (none, d) ↦ some (none, d)
    | some (some bs, d) ↦ some (some bs, record d { dst = layout.location_of bs })
  ]

  -- After the location: the message is read, and the own location is written.
  unfoldable pub admit : Connection → Option Arrival
  unfolding util_read util_write
  admit c = elim (util_read layout.msg_size c) [
    | none ↦ none
    | some (none, d) ↦ some broken_off
    | some (some bs, d) ↦ elim (util_write (layout.location_bytes here.my_location_id) d) [
      | none ↦ none
      | some e ↦ some (joined e (layout.msg_of bs))
    ]
  ]

  unfoldable pub accept : Socket → Option Arrival
  unfolding new_entry read_location admit util_read
  accept s = elim (util_read 4 (new_entry here s)) [
    | none ↦ none
    | some (o, c) ↦
        let id : ℕ = elim o [ none ↦ here.garbage_id | some bs ↦ here.id_of bs ] in
        let entered : Option Arrival = elim (read_location c) [
          | none ↦ none
          | some (got, d) ↦ admit d
        ] in
        if id == here.system_id then entered else some stranger
  ]

  -- After `select`: the new connection, then the loop over the table.
  unfoldable pub after_select :
      (ℕ → Bool) → Option Socket → List Connection → Option Grabbed → Option Grabbed
  unfolding accept collect
  after_select fds none table again = collect layout fds table
  after_select fds (some s) table again = elim (accept s) [
    | none ↦ none
    | some stranger ↦ again
    | some broken_off ↦ collect layout fds table
    | some (joined c m) ↦ put_first (m, c.dst) (collect layout fds (c ∷ table))
  ]

  -- A `select` that fails leaves the set as it was filled, with every descriptor in it.
  unfoldable pub grab_messages : List Poll → List Connection → Option Grabbed
  unfolding after_select
  grab_messages [] table = none
  grab_messages (p ∷ polls) table =
      let again = grab_messages polls table in
      elim p.select [
        | select_interrupted ↦ again
        | select_failed ↦ after_select (λ fd. true) p.accepted table again
        | ready fds ↦ after_select fds p.accepted table again
      ]

  -- The handshake of FTBNI_util_connect_to on a connected socket: the three writes, and the answer.
  unfoldable pub handshake : Msg → Connection → Option Connection
  unfolding util_write read_location
  handshake reg_msg c = elim (util_write here.id_bytes c) [
    | none ↦ none
    | some c1 ↦ elim (util_write (layout.location_bytes here.my_location_id) c1) [
      | none ↦ none
      | some c2 ↦ elim (util_write (layout.msg_bytes reg_msg) c2) [
        | none ↦ none
        | some c3 ↦ elim (read_location c3) [ none ↦ none | some r ↦ some r.1 ]
      ]
    ]
  ]

  -- FTBNI_util_connect_to: the code, the location of the other process, and the table.
  unfoldable pub connect_to :
      Msg → Dialled → List Connection → Option (Code × Option LocationId × List Connection)
  unfolding handshake new_entry
  connect_to reg_msg no_socket table = some (err_network_general, none, table)
  connect_to reg_msg no_host table = some (err_network_no_route, none, table)
  connect_to reg_msg no_option table = some (err_network_general, none, table)
  connect_to reg_msg no_answer table = some (err_network_no_route, none, table)
  connect_to reg_msg (connected s) table = elim (handshake reg_msg (new_entry here s)) [
    | none ↦ none
    | some c ↦
        if c.err_flag
        then some (err_network_general, none, table)
        else some (success, some c.dst, c ∷ table)
  ]
