-- ===== src/Database/Tree.antt =====
-- What the bootstrap server knows of the tree: the invariant of its map, and how each change of the
-- map shows in it.
use ftb.Prelude.{
  ℕ, suc, ◌+◌, ◌≤◌, ◌≡◌, refl, Bool, true, false, List, [], ◌∷◌, ◌++◌, Option, arith, ◌==◌,
  if◌then◌else◌, is_some, length, IsEquality, IsEquality-and, IsEquality-on, IsEquality-nat,
}
use ftb.Text.Laws.{strncmp-IsEquality}
use ftb.Defs.{max_host_addr}
use ftb.Map
use ftb.Map.Laws.{Distinct}
use ftb.Database.{AddrSock, Entry, Server, entry_addr, is_equal_addr_sock, find_root_entry}

abbrev pub same_addr : AddrSock → AddrSock → Bool
same_addr = is_equal_addr_sock

pub addr_eq : IsEquality is_equal_addr_sock
unfolding is_equal_addr_sock
addr_eq =
    IsEquality-and (IsEquality-on IsEquality-nat (λ a. a.port))
      (IsEquality-on (strncmp-IsEquality max_host_addr) (λ a. a.name))

abbrev pub find_addr : AddrSock → List Entry → Option Entry
find_addr = Map.find_key entry_addr is_equal_addr_sock

abbrev pub is_root : Entry → Bool
is_root e = e.level == 1

-- How many entries are on level 1.
unfoldable pub count_roots : List Entry → ℕ
count_roots [] = 0
count_roots (e ∷ es) = if is_root e then suc (count_roots es) else count_roots es

-- The count is right, no address stands twice, and the tree has one root at most.
pub record IsTree (s : Server) : Type 0 where
  pub count : s.addr_count ≡ length s.addr_map
  pub distinct : Distinct entry_addr is_equal_addr_sock s.addr_map
  pub root : count_roots s.addr_map ≤ 1

pub find_root_entry-none :
    (es : List Entry) → is_some (find_root_entry es) ≡ false → count_roots es ≡ 0
unfolding find_root_entry count_roots
find_root_entry-none [] h = refl
find_root_entry-none (e ∷ es) h = ground (arith, find_root_entry-none es)

pub count_roots-append :
    (es : List Entry) (e : Entry)
    → count_roots (es ++ e ∷ []) ≡ count_roots es + (if is_root e then 1 else 0)
unfolding count_roots
count_roots-append [] e = ground arith
count_roots-append (x ∷ es) e = ground (arith, count_roots-append es e)

pub length-update :
    (a : AddrSock) (f : Entry → Entry) (es : List Entry)
    → length (Map.update entry_addr is_equal_addr_sock a f es) ≡ length es
unfolding Map.update
length-update a f [] = refl
length-update a f (e ∷ es) = ground (arith, length-update a f es)

-- An entry that is given a level other than 1 makes no root.
pub count_roots-update :
    (a : AddrSock) (n : ℕ) (es : List Entry)
    → count_roots (Map.update entry_addr is_equal_addr_sock a (λ e. record e { level = n }) es)
      ≤ count_roots es + (if n == 1 then 1 else 0)
unfolding count_roots Map.update
count_roots-update a n [] = ground arith
count_roots-update a n (e ∷ es) = ground (arith, count_roots-update a n es)

pub count_roots-remove_node :
    (a : AddrSock) (es : List Entry)
    → count_roots (Map.remove_node entry_addr is_equal_addr_sock a es) ≤ count_roots es
unfolding count_roots Map.remove_node
count_roots-remove_node a [] = ground arith
count_roots-remove_node a (e ∷ es) = ground (arith, count_roots-remove_node a es)

pub length-remove_node :
    (a : AddrSock) (es : List Entry)
    → is_some (find_addr a es) ≡ true
    → suc (length (Map.remove_node entry_addr is_equal_addr_sock a es)) ≡ length es
unfolding Map.find_key Map.remove_node
length-remove_node a [] h = absurd (ground arith)
length-remove_node a (e ∷ es) h = ground (arith, length-remove_node a es)
