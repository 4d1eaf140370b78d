-- ===== src/Database/Requests.antt =====
-- Registration and deregistration at the bootstrap server, and the server's loop.
use ftb.Prelude.{
  ℕ, ◌<◌, ◌≡◌, refl, sym, ◌∙◌, true, false, ◌&&◌, List, [], ◌∷◌, Option, none, some, arith, ◌==◌,
  if◌then◌else◌, is_some, inl, inr, Bool-cases, Option-cases, length-append, All,
}
use ftb.Defs.{ok}
use ftb.Map
use ftb.Map.Laws
use ftb.Database.{
  AddrSock, Pkt, PktType, Entry, Server, entry_addr, is_equal_addr_sock, find_root_entry, reply,
  reg_rep, reg_invalid, dereg_rep, addr_req, addr_rep, reg_req, dereg_req, conn_fail, unknown,
  enter, register_addr, strike, deregister_addr, serve, serve_loop, then_serve, no_entries,
}
use ftb.Database.Tree.{
  same_addr, addr_eq, find_addr, count_roots, IsTree, find_root_entry-none, count_roots-append,
  length-update, count_roots-update, count_roots-remove_node, length-remove_node,
}
use ftb.Database.Parents.{request_parent-IsAnswer}

-- The level on which an address is registered.
unfoldable pub level_of : AddrSock → Server → Option ℕ
level_of a s = elim (find_addr a s.addr_map) [ none ↦ none | some e ↦ some e.level ]

-- The address `a` has the level `n` now, and every other address has the level that it had.
pub record Levels (a : AddrSock) (n : Option ℕ) (s t : Server) : Type 0 where
  pub tree : IsTree t
  pub levels : (b : AddrSock) → level_of b t ≡ (if same_addr a b then n else level_of b s)

-- An address that registers on a level other than 1, or where there is no root.
enter-Levels :
    (pkt : Pkt) (s : Server)
    → IsTree s
    → (pkt.level == 1 && is_some (find_root_entry s.addr_map)) ≡ false
    → Levels pkt.addr (some pkt.level) s (enter pkt s)
unfolding enter level_of Map.find_key
enter-Levels pkt s k free = elim (Option-cases (find_addr pkt.addr s.addr_map)) [
  | inl missing ↦
      let e : Entry = record { addr = pkt.addr; level = pkt.level } in
      let added =
        Laws.insert_of_not_has entry_addr is_equal_addr_sock e s.addr_map (ground arith) in
      rw (missing, enter, added)
        (record {
          tree = record {
            count = omega (arith, k.count, length-append {0} s.addr_map (e ∷ []));
            distinct =
                Laws.Distinct-append entry_addr is_equal_addr_sock addr_eq s.addr_map e k.distinct
                  (ground arith);
            root =
                ground
                  (arith, k.root, count_roots-append s.addr_map e, find_root_entry-none s.addr_map);
          };
          levels = λ b. ground (
            arith,
            Laws.find_key-append entry_addr is_equal_addr_sock addr_eq b s.addr_map (e ∷ []),
            Laws.find_key_cong entry_addr is_equal_addr_sock addr_eq pkt.addr b s.addr_map,
          );
        })
  | inr (e, found) ↦
      let f : Entry → Entry = λ x. record x { level = pkt.level } in
      rw (found, enter)
        (record {
          tree = record {
            count = k.count ∙ sym (length-update pkt.addr f s.addr_map);
            distinct =
                Laws.update-Distinct entry_addr is_equal_addr_sock addr_eq pkt.addr f s.addr_map
                  (λ n. refl) k.distinct;
            root = ground (
              arith,
              k.root,
              count_roots-update pkt.addr pkt.level s.addr_map,
              find_root_entry-none s.addr_map,
            );
          };
          levels = λ b. ground (
            arith,
            Laws.find_key-update entry_addr is_equal_addr_sock addr_eq b pkt.addr f s.addr_map
                (λ n. refl) k.distinct,
            Laws.find_key_cong entry_addr is_equal_addr_sock addr_eq pkt.addr b s.addr_map,
          );
        })
]

-- An address goes, if it is there.
pub strike-Levels : (a : AddrSock) (s : Server) → IsTree s → Levels a none s (strike a s)
unfolding strike level_of
strike-Levels a s k = elim (Option-cases (find_addr a s.addr_map)) [
  | inl missing ↦
      rw (missing, strike)
        (record {
          tree = k;
          levels = λ b.
              ground
                (arith, Laws.find_key_cong entry_addr is_equal_addr_sock addr_eq a b s.addr_map);
        })
  | inr (e, found) ↦
      rw (found, strike)
        (record {
          tree = record {
            count = omega (arith, k.count, length-remove_node a s.addr_map (ground arith));
            distinct =
                Laws.remove_node-Distinct entry_addr is_equal_addr_sock addr_eq a s.addr_map
                  k.distinct;
            root = ground (arith, k.root, count_roots-remove_node a s.addr_map);
          };
          levels = λ b. ground (
            arith,
            Laws.find_key-remove_node entry_addr is_equal_addr_sock addr_eq b a s.addr_map
                k.distinct,
          );
        })
]

-- How a registration is answered, and what it does: a port of 0 gets no answer, a second root is
-- refused, and neither changes anything; every other registration puts the address on the level
-- that it asks for, whether it was registered before or not.
pub data IsRegistered (pkt : Pkt) (s : Server) (r : Option Pkt × Server) : Type 0 where
  ignored : pkt.addr.port ≡ 0 → r ≡ (none, s) → IsRegistered pkt s r
  refused :
      pkt.level ≡ 1
      → is_some (find_root_entry s.addr_map) ≡ true
      → r ≡ (some (reply reg_invalid), s)
      → IsRegistered pkt s r
  taken :
      (pkt.addr.port == 0) ≡ false
      → (pkt.level == 1 && is_some (find_root_entry s.addr_map)) ≡ false
      → r.0 ≡ some (reply reg_rep)
      → Levels pkt.addr (some pkt.level) s r.1
      → IsRegistered pkt s r

pub register_addr-IsRegistered :
    (pkt : Pkt) (s : Server)
    → IsTree s
    → IsTree (register_addr pkt s).1 × IsRegistered pkt s (register_addr pkt s)
unfolding register_addr
register_addr-IsRegistered pkt s k = elim (Bool-cases (pkt.addr.port == 0)) [
  | inl no_port ↦ rw (no_port) (k, ignored (ground arith) refl)
  | inr port ↦ elim (Bool-cases (pkt.level == 1 && is_some (find_root_entry s.addr_map))) [
    | inl second ↦ rw (port, second) (k, refused (ground arith) (ground arith) refl)
    | inr free ↦
        let l = enter-Levels pkt s k free in rw (port, free) (l.tree, taken port free refl l)
  ]
]

-- A packet of the requests that the server serves.
serve_as :
    (kind : PktType) (rand : ℕ) (pkt : Pkt) (s : Server)
    → pkt.bootstrap_msg_type ≡ kind
    → IsTree s
    → pkt.level < 65536
    → (r : Option Pkt × Server) × (serve rand pkt s ≡ ok r) × IsTree r.1
unfolding serve deregister_addr
serve_as addr_req rand pkt s e k small =
    let (sent, t, runs, q, a) = request_parent-IsAnswer rand pkt s k small in
    ((some sent, t), ground (arith, runs), q)
serve_as reg_req rand pkt s e k small =
    (register_addr pkt s, ground arith, (register_addr-IsRegistered pkt s k).0)
serve_as dereg_req rand pkt s e k small = (
  deregister_addr pkt s,
  ground arith,
  (elim (Bool-cases (pkt.addr.port == 0)) [
    | inl no_port ↦ rw no_port k
    | inr port ↦ rw port (strike-Levels pkt.addr s k).tree
  ]),
)
serve_as conn_fail rand pkt s e k small =
    ((none, strike pkt.parent_addr s), ground arith, (strike-Levels pkt.parent_addr s k).tree)
serve_as addr_rep rand pkt s e k small = ((none, s), ground arith, k)
serve_as reg_rep rand pkt s e k small = ((none, s), ground arith, k)
serve_as dereg_rep rand pkt s e k small = ((none, s), ground arith, k)
serve_as reg_invalid rand pkt s e k small = ((none, s), ground arith, k)
serve_as (unknown n) rand pkt s e k small = ((none, s), ground arith, k)

-- The packets that arrive; the level is a 16-bit field.
abbrev pub AllSmall : List (ℕ × Pkt) → Type 0
AllSmall = All (λ p. p.1.level < 65536)

loop-IsTree :
    (ps : List (ℕ × Pkt)) (s : Server)
    → IsTree s
    → AllSmall ps
    → (t : Server) × (serve_loop ps s ≡ ok t) × IsTree t
unfolding serve_loop then_serve
loop-IsTree [] s k small = (s, refl, k)
loop-IsTree (p ∷ ps) s k small =
    let (r, e, q) = serve_as p.1.bootstrap_msg_type p.0 p.1 s refl k small.0 in
    let (t, f, last) = loop-IsTree ps r.1 q small.1 in (t, rw (e, f) refl, last)

-- From its start on the server handles any sequence of packets, whatever numbers it draws, without
-- reading past its map, and always knows a tree with one root at most, each address once and the
-- right count.
pub serve_loop-IsTree :
    (ps : List (ℕ × Pkt))
    → AllSmall ps
    → (t : Server) × (serve_loop ps no_entries ≡ ok t) × IsTree t
unfolding count_roots
serve_loop-IsTree ps small =
    loop-IsTree ps no_entries (record { count = refl; distinct = tt; root = omega arith }) small

-- A deregistration with a port is answered, and takes the address from the map, if it was there;
-- every other address stays as it was.
pub deregister_addr-Levels :
    (pkt : Pkt) (s : Server)
    → IsTree s
    → (pkt.addr.port == 0) ≡ false
    → ((deregister_addr pkt s).0 ≡ some (reply dereg_rep))
      × Levels pkt.addr none s (deregister_addr pkt s).1
unfolding deregister_addr
deregister_addr-Levels pkt s k port = rw port (refl, strike-Levels pkt.addr s k)
