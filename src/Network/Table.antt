-- ===== src/Network/Table.antt =====
-- The table of connections of src/manager_lib/network/network_sock/ftb_network_tcp.c: FTBN_Disconnect_peer,
-- FTBN_Send_msg, FTBN_Recv_msg, FTBN_Grab_messages and FTBNI_util_connect_to. A call that waits for
-- ever gives `none`.
use ftb.Prelude.{
  ℕ, ◌+◌, ◌-◌, Bool, true, not, List, [], ◌∷◌, ◌++◌, Option, none, some, ◌==◌, if◌then◌else◌,
}
use ftb.Defs.{
  Code, success, err_null_pointer, err_invalid_parameter, err_network_general, err_network_no_route,
  no_msg, LocationId, Msg,
}
use ftb.Match.{is_equal_location_id}
use ftb.Network.Stream.{
  Segment, full, lost, waits, read_loop, Call, all_sent, failed, blocked, write_loop,
}

-- FTB_connection_entry_t, with what its socket has for `read`, how it answers `write`, and the bytes
-- that were sent.
pub record Connection : Type 0 where
  pub err_flag : Bool
  pub fd : ℕ
  pub dst : LocationId
  pub ref_count : ℕ
  pub input : List Segment
  pub output : List Call
  pub sent : List ℕ

-- How a location and a message stand in memory: the number of their bytes, the bytes and what bytes
-- are read as.
pub record Layout : Type 0 where
  pub location_size : ℕ
  pub msg_size : ℕ
  pub location_bytes : LocationId → List ℕ
  pub msg_bytes : Msg → List ℕ
  pub location_of : List ℕ → LocationId
  pub msg_of : List ℕ → Msg

-- FTBNI_UTIL_READ: the bytes, or none with `err_flag` set; `none` for a call that waits.
unfoldable pub util_read : ℕ → Connection → Option (Option (List ℕ) × Connection)
util_read n c = if c.err_flag then some (none, c) else elim (read_loop n c.input) [
  | full bs left ↦ some (some bs, record c { input = left })
  | lost ↦ some (none, record c { err_flag = true })
  | waits ↦ none
]

-- FTBNI_UTIL_WRITE
unfoldable pub util_write : List ℕ → Connection → Option Connection
util_write bs c =
    let w = write_loop bs c.output in
    let left : Connection = record c { output = w.calls; sent = c.sent ++ w.sent } in
    if c.err_flag then some c else elim w.ending [
      | all_sent ↦ some left
      | failed ↦ some (record left { err_flag = true })
      | blocked ↦ none
    ]

unfoldable pub find_connection_to_location : LocationId → List Connection → Option Connection
find_connection_to_location location_id [] = none
find_connection_to_location location_id (c ∷ cs) =
    if is_equal_location_id c.dst location_id
    then some c
    else find_connection_to_location location_id cs

-- The node that the lookup finds gets another entry, or is removed.
unfoldable pub put_connection : LocationId → Option Connection → List Connection → List Connection
put_connection location_id left [] = []
put_connection location_id left (c ∷ cs) =
    if is_equal_location_id c.dst location_id
    then elim left [ none ↦ cs | some d ↦ d ∷ cs ]
    else c ∷ put_connection location_id left cs

-- The loop on `ref_count` runs for ever if the count is not zero, as nothing else changes it meanwhile.
unfoldable pub disconnect_peer : LocationId → List Connection → Option (Code × List Connection)
disconnect_peer peer_location_id table = elim (find_connection_to_location peer_location_id table) [
  | none ↦ some (err_invalid_parameter, table)
  | some c ↦
      if c.ref_count == 0 then some (success, put_connection peer_location_id none table) else none
]

-- Of a connection after a message was written to it.
unfoldable pub after_send : LocationId → List Connection → Connection → Code × List Connection
after_send location_id table c =
    let left : Connection = record c { ref_count = c.ref_count - 1 } in
    if c.err_flag
    then (
      err_network_general,
      put_connection location_id (if left.ref_count == 0 then none else some left) table,
    )
    else (success, put_connection location_id (some left) table)

-- What comes of `select`: an interruption, a failure, or the descriptors that are ready.
pub data Select : Type 0 where
  select_interrupted select_failed : Select
  ready : (ℕ → Bool) → Select

-- The message that was read, if one was, from where, and whether a connection was lost.
abbrev pub Received : Type 0
Received = Option (Msg × LocationId)

module _ (layout : Layout) where
  unfoldable pub send_msg : Msg → List Connection → Option (Code × List Connection)
  unfolding after_send
  send_msg msg table = elim (find_connection_to_location msg.dst.location_id table) [
    | none ↦ some (err_network_no_route, table)
    | some c ↦ elim (util_write (layout.msg_bytes msg) (record c { ref_count = c.ref_count + 1 })) [
      | none ↦ none
      | some d ↦ some (after_send msg.dst.location_id table d)
    ]
  ]

  -- The second loop of FTBN_Recv_msg: the first connection that is ready is read, and removed if it is
  -- lost; `some none` says that none is ready.
  unfoldable pub scan : (ℕ → Bool) → List Connection → Option (Option (Received × List Connection))
  unfolding util_read
  scan fds [] = some none
  scan fds (c ∷ cs) =
      let rest : Option (Option (Received × List Connection)) = elim (scan fds cs) [
        | none ↦ none
        | some none ↦ some none
        | some (some (m, left)) ↦ some (some (m, c ∷ left))
      ] in
      if not (fds c.fd) then rest else elim (util_read layout.msg_size c) [
        | none ↦ none
        | some (none, d) ↦ some (some (none, cs))
        | some (some bs, d) ↦ some (some (some (layout.msg_of bs, c.dst), d ∷ cs))
      ]

  -- The code, the message with its source, and the table, for what each `select` brings.
  unfoldable pub recv_rounds :
      Bool → List Select → List Connection → Option (Code × Received × List Connection)
  unfolding scan
  recv_rounds blocking [] table = none
  recv_rounds blocking (select_interrupted ∷ more) table = recv_rounds blocking more table
  recv_rounds blocking (select_failed ∷ more) table = some (err_network_general, none, table)
  recv_rounds blocking (ready fds ∷ more) table =
      let again = recv_rounds blocking more table in
      elim (scan fds table) [
        | none ↦ none
        | some none ↦ if blocking then again else some (no_msg, none, table)
        | some (some (none, left)) ↦ some (err_network_general, none, left)
        | some (some (some m, left)) ↦ some (success, some m, left)
      ]

  -- FTBN_Recv_msg; `given` tells whether there is a place for the message.
  unfoldable pub recv_msg :
      Bool → Bool → List Select → List Connection → Option (Code × Received × List Connection)
  unfolding recv_rounds
  recv_msg given blocking selects table =
      if given then recv_rounds blocking selects table else some (err_null_pointer, none, table)
