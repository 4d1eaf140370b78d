-- ===== src/Dll.antt =====
-- src/util/ftb_util.c, the doubly linked nodes under the maps and the lists. A node is an address;
-- `next`, `prev` and the key of a node are looked up by it. The head node holds no key.
pub mod Links
pub mod Maps
use ftb.Prelude.{
  ℕ, zero, suc, Bool, true, false, List, [], ◌∷◌, Option, none, some, ◌==◌, if◌then◌else◌,
}
use ftb.Defs.{Run, ok, crash}
use ftb.Map.{Status, done, exist, not_exist}

-- FTBU_map_node_t and FTBU_list_node_t
pub record Store {ℓ} (K : Type ℓ) : Type ℓ where
  pub next : ℕ → ℕ
  pub prev : ℕ → ℕ
  pub key : ℕ → K

abbrev pub write {ℓ} : {A : Type ℓ} → ℕ → A → (ℕ → A) → ℕ → A
write a v f b = if a == b then v else f b

module _ {ℓ} {K : Type ℓ} where
  -- FTBU_list_init, and FTBU_map_init past its allocation.
  unfoldable pub list_init : ℕ → Store K → Store K
  list_init list s = record s { next = write list list s.next; prev = write list list s.prev }

  -- FTBU_list_add_front, the four assignments in their order.
  unfoldable pub list_add_front : ℕ → ℕ → Store K → Store K
  list_add_front list node s =
      let a : Store K = record s { prev = write (s.next list) node s.prev } in
      let b : Store K = record a { next = write node (a.next list) a.next } in
      let c : Store K = record b { prev = write node list b.prev } in
      record c { next = write list node c.next }

  -- FTBU_list_add_back, the four assignments in their order.
  unfoldable pub list_add_back : ℕ → ℕ → Store K → Store K
  list_add_back list node s =
      let a : Store K = record s { next = write (s.prev list) node s.next } in
      let b : Store K = record a { next = write node list a.next } in
      let c : Store K = record b { prev = write node (b.prev list) b.prev } in
      record c { prev = write list node c.prev }

  -- FTBU_list_remove_node, and FTBU_map_remove_node before the node is freed.
  unfoldable pub list_remove_node : ℕ → Store K → Store K
  list_remove_node node s =
      let a : Store K = record s { prev = write (s.next node) (s.prev node) s.prev } in
      record a { next = write (a.prev node) (a.next node) a.next }

  unfoldable pub map_is_empty : ℕ → Store K → Bool
  map_is_empty head s = s.next head == head

  module _ (is_equal : K → K → Bool) where
    -- The loop of FTBU_map_find_key: the node with the key, or the head. It must end before the fuel.
    unfoldable pub find_from : ℕ → ℕ → ℕ → K → Store K → Run ℕ
    find_from zero head pos k s = crash
    find_from (suc fuel) head pos k s =
        let later = find_from fuel head (s.next pos) k s in
        if pos == head then ok head else if is_equal (s.key pos) k then ok pos else later

    unfoldable pub map_find_key : ℕ → ℕ → K → Store K → Run ℕ
    unfolding find_from
    map_find_key fuel head k s = find_from fuel head (s.next head) k s

    -- What follows the loop of FTBU_map_insert, for a new node at `node`.
    unfoldable pub insert_at : ℕ → ℕ → K → Store K → Run ℕ → Run (Status × Store K)
    unfolding list_add_back
    insert_at head node k s crash = crash
    insert_at head node k s (ok pos) =
        if pos == head
        then ok (done, list_add_back head node (record s { key = write node k s.key }))
        else ok (exist, s)

    unfoldable pub map_insert : ℕ → ℕ → ℕ → K → Store K → Run (Status × Store K)
    unfolding map_find_key insert_at
    map_insert fuel head node k s = insert_at head node k s (map_find_key fuel head k s)

    unfoldable pub remove_at : ℕ → Store K → Run ℕ → Run (Status × Store K)
    unfolding list_remove_node
    remove_at head s crash = crash
    remove_at head s (ok pos) =
        if pos == head then ok (not_exist, s) else ok (done, list_remove_node pos s)

    unfoldable pub map_remove_key : ℕ → ℕ → K → Store K → Run (Status × Store K)
    unfolding map_find_key remove_at
    map_remove_key fuel head k s = remove_at head s (map_find_key fuel head k s)
