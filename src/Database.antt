-- ===== src/Database.antt =====
-- src/manager_lib/network/network_sock/ftb_database_server_udp.c, the bootstrap server: which agents
-- are registered, on which level of the tree, and how each request is answered. The socket is left
-- out: a handler takes a packet, and gives the packet that is sent back, if one is. A port is the
-- 32-bit pattern of its `int`.
pub mod Tree
pub mod Parents
pub mod Requests
use ftb.Prelude.{
  ℕ, zero, suc, ◌+◌, ◌-◌, ◌%◌, Bool, true, false, not, ◌&&◌, ◌||◌, List, [], ◌∷◌, Option, none,
  some, ◌==◌, ltb, if◌then◌else◌, is_some,
}
use ftb.Text.{Str, strncmp}
use ftb.Defs.{Run, ok, crash, max_host_addr}
use ftb.Map

-- FTBN_addr_sock_t
pub record AddrSock : Type 0 where
  pub name : Str
  pub port : ℕ

-- FTBNI_BOOTSTRAP_MSG_TYPE_ADDR_REQ and its fellows; `unknown` is any other value.
pub data PktType : Type 0 where
  addr_req addr_rep reg_req reg_rep dereg_req dereg_rep conn_fail reg_invalid : PktType
  unknown : ℕ → PktType

-- FTBNI_bootstrap_pkt_t; `level` has 16 bits.
pub record Pkt : Type 0 where
  pub bootstrap_msg_type : PktType
  pub addr : AddrSock
  pub parent_addr : AddrSock
  pub level : ℕ

-- FTBNI_bootstrap_entry_t; `level` has 32 bits.
pub record Entry : Type 0 where
  pub addr : AddrSock
  pub level : ℕ

-- FTBNI_bootstrap_addr_map and FTBNI_addr_count
pub record Server : Type 0 where
  pub addr_map : List Entry
  pub addr_count : ℕ

-- `-1` as a `uint32_t`
abbrev pub no_level : ℕ
no_level = 4294967295

abbrev pub entry_addr : Entry → AddrSock
entry_addr e = e.addr

-- A structure cleared by `memset`.
abbrev pub no_addr : AddrSock
no_addr = record { name = []; port = 0 }

abbrev pub reply : PktType → Pkt
reply kind = record { bootstrap_msg_type = kind; addr = no_addr; parent_addr = no_addr; level = 0 }

unfoldable pub is_equal_addr_sock : AddrSock → AddrSock → Bool
is_equal_addr_sock lhs rhs = lhs.port == rhs.port && strncmp max_host_addr lhs.name rhs.name

unfoldable pub find_root_entry : List Entry → Option Entry
find_root_entry [] = none
find_root_entry (e ∷ es) = if e.level == 1 then some e else find_root_entry es

-- The entry, if there is one, and the map with its level crossed out.
unfoldable pub cross_out_parent_entry : Pkt → Server → Option Entry × Server
cross_out_parent_entry pkt_req s =
    elim (Map.find_key entry_addr is_equal_addr_sock pkt_req.parent_addr s.addr_map) [
      | none ↦ (none, s)
      | some e ↦ (
        some (record e { level = no_level }),
        record s {
          addr_map =
              Map.update entry_addr is_equal_addr_sock pkt_req.parent_addr
                (λ x. record x { level = no_level }) s.addr_map;
        },
      )
    ]

-- The test of both loops of FTBNI_util_find_parent_addr.
unfoldable pub suitable : Pkt → Entry → Bool
suitable pkt_req temp =
    ltb temp.level pkt_req.level
    && not (temp.level == no_level)
    && (not (pkt_req.addr.port == temp.addr.port)
        || not (strncmp max_host_addr pkt_req.addr.name temp.addr.name))

-- The first loop, for so many rounds: the last suitable entry, and where the iterator stands. At
-- the end of the map there is no entry to read.
unfoldable pub scan_random : Pkt → ℕ → Option Entry → List Entry → Run (Option Entry × List Entry)
unfolding suitable
scan_random pkt_req zero entry iter = ok (entry, iter)
scan_random pkt_req (suc n) entry [] = crash
scan_random pkt_req (suc n) entry (temp ∷ iter) =
    scan_random pkt_req n (if suitable pkt_req temp then some temp else entry) iter

-- The second loop, over the rest.
unfoldable pub scan_rest : Pkt → List Entry → Option Entry
unfolding suitable
scan_rest pkt_req [] = none
scan_rest pkt_req (temp ∷ iter) =
    let rest = scan_rest pkt_req iter in if suitable pkt_req temp then some temp else rest

unfoldable pub after_random : Pkt → Run (Option Entry × List Entry) → Run (Option Entry)
unfolding scan_rest
after_random pkt_req crash = crash
after_random pkt_req (ok (some e, iter)) = ok (some e)
after_random pkt_req (ok (none, iter)) = ok (scan_rest pkt_req iter)

-- `rand` is what `rand()` returns.
unfoldable pub find_parent_addr : ℕ → Pkt → Server → Run (Option Entry)
unfolding scan_random after_random
find_parent_addr rand pkt_req s =
    if s.addr_count == 0
    then ok none
    else after_random pkt_req (scan_random pkt_req (suc (rand % s.addr_count)) none s.addr_map)

-- The answer to a request for a parent: its address and its level, which is cut to 16 bits.
unfoldable pub answer : Option Entry → Pkt
answer none = reply addr_rep
answer (some e) = record (reply addr_rep) { parent_addr = e.addr; level = e.level % 65536 }

unfoldable pub answered : Server → Run (Option Entry) → Run (Option Pkt × Server)
unfolding answer
answered s crash = crash
answered s (ok entry) = ok (some (answer entry), s)

unfoldable pub request_parent : ℕ → Pkt → Server → Run (Option Pkt × Server)
unfolding cross_out_parent_entry find_parent_addr answered
request_parent rand pkt s =
    let crossed = (cross_out_parent_entry pkt s).1 in
    answered crossed (find_parent_addr rand pkt crossed)

-- The entry of an address that registers: a new one, or a new level for an old one.
unfoldable pub enter : Pkt → Server → Server
enter pkt s = elim (Map.find_key entry_addr is_equal_addr_sock pkt.addr s.addr_map) [
  | none ↦
      let entry : Entry = record { addr = pkt.addr; level = pkt.level } in
      record {
        addr_map = (Map.insert entry_addr is_equal_addr_sock entry s.addr_map).1;
        addr_count = s.addr_count + 1;
      }
  | some _ ↦ record s {
    addr_map =
        Map.update entry_addr is_equal_addr_sock pkt.addr (λ x. record x { level = pkt.level })
          s.addr_map;
  }
]

unfoldable pub register_addr : Pkt → Server → Option Pkt × Server
unfolding find_root_entry enter
register_addr pkt s =
    if pkt.addr.port == 0
    then (none, s)
    else if pkt.level == 1 && is_some (find_root_entry s.addr_map)
    then (some (reply reg_invalid), s)
    else (some (reply reg_rep), enter pkt s)

-- An address leaves the map, if it is there.
unfoldable pub strike : AddrSock → Server → Server
strike addr s = elim (Map.find_key entry_addr is_equal_addr_sock addr s.addr_map) [
  | none ↦ s
  | some _ ↦ record {
    addr_map = Map.remove_node entry_addr is_equal_addr_sock addr s.addr_map;
    addr_count = s.addr_count - 1;
  }
]

unfoldable pub deregister_addr : Pkt → Server → Option Pkt × Server
unfolding strike
deregister_addr pkt s =
    if pkt.addr.port == 0 then (none, s) else (some (reply dereg_rep), strike pkt.addr s)

-- One round of the server's loop, for a packet of the right size.
unfoldable pub serve : ℕ → Pkt → Server → Run (Option Pkt × Server)
unfolding request_parent register_addr deregister_addr strike
serve rand pkt s = elim pkt.bootstrap_msg_type [
  | addr_req ↦ request_parent rand pkt s
  | reg_req ↦ ok (register_addr pkt s)
  | dereg_req ↦ ok (deregister_addr pkt s)
  | conn_fail ↦ ok (none, strike pkt.parent_addr s)
  | _ ↦ ok (none, s)
]

-- FTBU_map_init and the reset of the count.
abbrev pub no_entries : Server
no_entries = record { addr_map = []; addr_count = 0 }

unfoldable pub then_serve : Run (Option Pkt × Server) → (Server → Run Server) → Run Server
then_serve crash f = crash
then_serve (ok r) f = f r.1

-- The server's loop, for the packets that arrive, the first one first, each with the number that
-- `rand()` returns for it.
unfoldable pub serve_loop : List (ℕ × Pkt) → Server → Run Server
unfolding serve then_serve
serve_loop [] s = ok s
serve_loop (p ∷ ps) s = then_serve (serve p.0 p.1 s) (λ t. serve_loop ps t)
