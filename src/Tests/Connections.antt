-- ===== src/Tests/Connections.antt =====
-- The theorems on the table of connections at two connections and messages of two bytes.
use ftb.Prelude.{
  ℕ, ◌≡◌, ◌⊎◌, refl, ap, sym, ◌∙◌, Bool, true, false, List, [], ◌∷◌, ◌++◌, none, some, ◌==◌,
}
use ftb.Text.{strcasecmp, strncasecmp, to_lower}
use ftb.Defs.{success, err_invalid_parameter, LocationId, Msg}
use ftb.Match.{is_equal_location_id}
use ftb.Network.Stream.{
  Segment, chunk, interrupted, read_loop, after_read, wrote, stopped, write_loop,
}
use ftb.Network.Framing.{Reads, bytes_of, read_loop-Reads}
use ftb.Network.Table.{
  Connection, Layout, find_connection_to_location, put_connection, disconnect_peer, send_msg,
  recv_msg, ready, util_read, util_write, after_send,
}
use ftb.Network.Grabbing.{
  Local, Socket, connected, collect, connect_to, handshake, new_entry, read_location,
}
use ftb.Network.Channels.{IsLayout, Feeds, Collected, stream, collect-Collected}
use ftb.Network.Sending.{Sent, send_msg-Sent, send_msg-Feeds}
use ftb.Network.Taking.{Taken, recv_msg-Taken}
use ftb.Network.Running.{connecting, Reachable, start, step, disconnect_peer-returns}
use ftb.Tests.{here, there, client, boom, notice_of}

-- Messages that differ in their sequence number, to the process at `there`.
abbrev numbered : ℕ → Msg
numbered n = notice_of (record boom { seqnum = n }) (client there)

abbrev layout : Layout
layout = record {
  location_size = 1;
  msg_size = 2;
  location_bytes = λ l. l.pid ∷ [];
  msg_bytes = λ m. m.event.seqnum ∷ 0 ∷ [];
  location_of = λ bs. there;
  msg_of = λ bs. elim bs [ [] ↦ numbered 0 | n ∷ ns ↦ numbered n ];
}

abbrev IsNumbered : Msg → Type 0
IsNumbered m = (n : ℕ) × (m ≡ numbered n)

layout-IsLayout : IsLayout IsNumbered layout
layout-IsLayout = record {
  size = λ m f. refl;
  again = λ m f. ap (λ x. numbered x.event.seqnum) f.1 ∙ sym f.1;
}

-- A connection with these pieces to read.
abbrev connection : ℕ → LocationId → List Segment → Connection
connection fd l input = record {
  err_flag = false;
  fd = fd;
  dst = l;
  ref_count = 0;
  input = input;
  output = stopped ∷ wrote 1 ∷ wrote 5 ∷ [];
  sent = 9 ∷ [];
}

-- The messages 3 and 4, cut within both.
abbrev pieces : List Segment
pieces = chunk 3 [] ∷ interrupted ∷ chunk 0 (4 ∷ []) ∷ chunk 0 [] ∷ []

abbrev table : List Connection
table = connection 5 here [] ∷ connection 6 there pieces ∷ []

abbrev sixth : ℕ → Bool
sixth fd = fd == 6

read_loop-Reads_example : Reads 2 pieces (read_loop 2 pieces)
read_loop-Reads_example = read_loop-Reads 2 pieces

abbrev queues : List (Connection × List Msg)
queues = (connection 5 here [], []) ∷ (connection 6 there pieces, numbered 3 ∷ numbered 4 ∷ []) ∷ []

collect-Collected_example : Collected layout sixth queues (collect layout sixth table)
unfolding bytes_of stream
collect-Collected_example =
    collect-Collected layout IsNumbered layout-IsLayout sixth queues
      (record { healthy = refl; bytes = refl }, (record { healthy = refl; bytes = refl }, tt))
      (refl, (tt, tt)) (tt, (((3, refl), ((4, refl), tt)), tt))

send_msg-Sent_example : Sent layout (numbered 7) table (send_msg layout (numbered 7) table)
send_msg-Sent_example = send_msg-Sent layout (numbered 7) table (refl, (refl, tt))

-- The other end of the connection to `there`, before and after the bytes of the message 7 arrive.
abbrev far : List Segment → Connection
far input = connection 8 here input

abbrev sent_to_there : Connection
sent_to_there = record (connection 6 there pieces) { output = []; sent = 9 ∷ 7 ∷ 0 ∷ [] }

send_msg-Feeds_example :
    Feeds layout (far (pieces ++ chunk 7 (0 ∷ []) ∷ [])) (numbered 3 ∷ numbered 4 ∷ numbered 7 ∷ [])
unfolding send_msg after_send util_write write_loop find_connection_to_location put_connection
    bytes_of stream is_equal_location_id strcasecmp strncasecmp to_lower
send_msg-Feeds_example =
    send_msg-Feeds layout (numbered 7) table (connection 5 here [] ∷ sent_to_there ∷ [])
      (connection 6 there pieces) sent_to_there (far pieces) (far (pieces ++ chunk 7 (0 ∷ []) ∷ []))
      (numbered 3 ∷ numbered 4 ∷ []) (refl, (refl, tt)) refl refl refl
      (record { healthy = refl; bytes = refl }) refl refl

recv_msg-Taken_example :
    Taken layout sixth false [] table (recv_msg layout true false (ready sixth ∷ []) table)
recv_msg-Taken_example = recv_msg-Taken layout sixth false [] table

abbrev own : Local
own = record {
  system_id = 1;
  id_bytes = 1 ∷ 0 ∷ 0 ∷ 0 ∷ [];
  id_of = λ bs. 1;
  my_location_id = here;
  garbage_id = 0;
  garbage_location = here;
}

-- A host that answers with its location; the three writes are not interrupted.
abbrev host : Socket
host = record { fd = 4; input = chunk 12 [] ∷ []; output = wrote 4 ∷ wrote 1 ∷ wrote 2 ∷ [] }

abbrev joined_host : Connection
joined_host = record {
  err_flag = false;
  fd = 4;
  dst = there;
  ref_count = 0;
  input = [];
  output = [];
  sent = 1 ∷ 0 ∷ 0 ∷ 0 ∷ 11 ∷ 1 ∷ 0 ∷ [];
}

connected_to_host : Reachable layout own (joined_host ∷ [])
unfolding connect_to handshake new_entry read_location util_read util_write read_loop after_read
    write_loop
connected_to_host =
    step [] (joined_host ∷ []) start
      (connecting (numbered 1) (connected host) success (some there) [] (joined_host ∷ []) refl)

disconnect_peer-returns_example :
    ((find_connection_to_location there (joined_host ∷ []) ≡ none)
      × (disconnect_peer there (joined_host ∷ []) ≡ some (err_invalid_parameter, joined_host ∷ [])))
    ⊎ ((c : Connection) × (find_connection_to_location there (joined_host ∷ []) ≡ some c)
        × (disconnect_peer there (joined_host ∷ [])
            ≡ some (success, put_connection there none (joined_host ∷ []))))
disconnect_peer-returns_example =
    disconnect_peer-returns layout own there (joined_host ∷ []) connected_to_host
