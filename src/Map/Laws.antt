-- ===== src/Map/Laws.antt =====
-- The maps hold each key once, and what a lookup sees after each operation.
use ftb.Prelude.{
  ◌≡◌, refl, Bool, true, false, not, ◌&&◌, ◌||◌, List, [], ◌∷◌, ◌++◌, none, some, arith,
  if◌then◌else◌, IsEquality,
}
use ftb.Map.{
  done, exist, not_exist, find_key, has, insert, remove_node, remove_key, update, is_empty,
}

module _ {ℓ κ} {K : Type ℓ} {N : Type κ} (key : N → K) (is_equal : K → K → Bool) where
  -- No two nodes have equal keys.
  abbrev pub Distinct : List N → Type 0
  Distinct [] = Unit {0}
  Distinct (n ∷ ns) = (has key is_equal (key n) ns ≡ false) × Distinct ns

  pub find_key_of_is_empty :
      (k : K) (ns : List N) → is_empty ns ≡ true → find_key key is_equal k ns ≡ none
  unfolding find_key is_empty
  find_key_of_is_empty k [] h = refl
  find_key_of_is_empty k (n ∷ ns) h = ground arith

  pub is_empty-append : (ns : List N) (n : N) → is_empty (ns ++ n ∷ []) ≡ false
  unfolding is_empty
  is_empty-append [] n = refl
  is_empty-append (m ∷ ns) n = refl

  pub remove_key_of_has :
      (k : K) (ns : List N)
      → has key is_equal k ns ≡ true
      → remove_key key is_equal k ns ≡ (done, remove_node key is_equal k ns)
  unfolding remove_key
  remove_key_of_has k ns h = rw h

  pub remove_key_of_not_has :
      (k : K) (ns : List N)
      → has key is_equal k ns ≡ false
      → remove_key key is_equal k ns ≡ (not_exist, ns)
  unfolding remove_key
  remove_key_of_not_has k ns h = rw h

  pub insert_of_has :
      (n : N) (ns : List N)
      → has key is_equal (key n) ns ≡ true
      → insert key is_equal n ns ≡ (exist, ns)
  unfolding insert
  insert_of_has n ns h = rw h

  pub insert_of_not_has :
      (n : N) (ns : List N)
      → has key is_equal (key n) ns ≡ false
      → insert key is_equal n ns ≡ (done, ns ++ n ∷ [])
  unfolding insert
  insert_of_not_has n ns h = rw h

  module _ (eq : IsEquality is_equal) where
    open eq use {is_refl, is_sym, is_cong}

    -- Equal keys find the same node.
    pub find_key_cong :
        (j k : K) (ns : List N)
        → is_equal j k ≡ true
        → find_key key is_equal j ns ≡ find_key key is_equal k ns
    unfolding find_key
    find_key_cong j k [] h = refl
    find_key_cong j k (n ∷ ns) h =
        ground
          (arith, is_sym (key n) j, is_sym (key n) k, is_cong j k (key n) h, find_key_cong j k ns h)

    -- The node that is found has the key.
    pub find_key_sound :
        (k : K) (ns : List N) (n : N)
        → find_key key is_equal k ns ≡ some n
        → is_equal (key n) k ≡ true
    unfolding find_key
    find_key_sound k [] n h = ground arith
    find_key_sound k (m ∷ ns) n h = ground (arith, find_key_sound k ns n)

    pub find_key-append :
        (k : K) (ns ms : List N)
        → find_key key is_equal k (ns ++ ms) ≡ (
            if has key is_equal k ns
            then find_key key is_equal k ns
            else find_key key is_equal k ms)
    unfolding find_key
    find_key-append k [] ms = refl
    find_key-append k (n ∷ ns) ms = ground (arith, find_key-append k ns ms)

    pub has-insert :
        (k : K) (n : N) (ns : List N)
        → has key is_equal k (insert key is_equal n ns).1
          ≡ (has key is_equal k ns || is_equal (key n) k)
    unfolding insert find_key
    has-insert k n ns = ground (arith, find_key-append k ns (n ∷ []), find_key_cong (key n) k ns)

    -- A lookup after an insertion.
    pub find_key-insert :
        (k : K) (n : N) (ns : List N)
        → find_key key is_equal k (insert key is_equal n ns).1 ≡ (
            if has key is_equal k ns
            then find_key key is_equal k ns
            else (if is_equal (key n) k && not (has key is_equal (key n) ns) then some n else none))
    unfolding insert find_key
    find_key-insert k n ns =
        ground (arith, find_key-append k ns (n ∷ []), find_key_cong (key n) k ns)

    pub Distinct-append :
        (ns : List N) (n : N)
        → Distinct ns
        → has key is_equal (key n) ns ≡ false
        → Distinct (ns ++ n ∷ [])
    unfolding find_key
    Distinct-append [] n d h = (refl, tt)
    Distinct-append (m ∷ ns) n d h = (
      ground (arith, find_key-append (key m) ns (n ∷ []), is_sym (key m) (key n)),
      Distinct-append ns n d.1 (ground arith),
    )

    pub insert-Distinct :
        (n : N) (ns : List N) → Distinct ns → Distinct (insert key is_equal n ns).1
    unfolding insert
    insert-Distinct n ns d = ground (arith, Distinct-append ns n d)

    -- A lookup after a removal.
    pub find_key-remove_node :
        (j k : K) (ns : List N)
        → Distinct ns
        → find_key key is_equal j (remove_node key is_equal k ns)
          ≡ (if is_equal k j then none else find_key key is_equal j ns)
    unfolding find_key remove_node
    find_key-remove_node j k [] d = ground arith
    find_key-remove_node j k (n ∷ ns) d = ground (
      arith,
      find_key-remove_node j k ns d.1,
      is_cong (key n) k j,
      is_cong k j (key n),
      is_sym k (key n),
      is_sym j (key n),
      find_key_cong (key n) j ns,
    )

    pub remove_node-Distinct :
        (k : K) (ns : List N) → Distinct ns → Distinct (remove_node key is_equal k ns)
    unfolding find_key remove_node
    remove_node-Distinct k [] d = tt
    remove_node-Distinct k (n ∷ ns) d =
        ground (arith, remove_node-Distinct k ns d.1, find_key-remove_node (key n) k ns d.1)

    -- A lookup after a write through a node that keeps the keys.
    pub find_key-update :
        (j k : K) (f : N → N) (ns : List N)
        → ((n : N) → key (f n) ≡ key n)
        → Distinct ns
        → find_key key is_equal j (update key is_equal k f ns) ≡ (
            if is_equal k j
            then (elim (find_key key is_equal j ns) [ none ↦ none | some n ↦ some (f n) ])
            else find_key key is_equal j ns)
    unfolding find_key update
    find_key-update j k f [] same d = ground arith
    find_key-update j k f (n ∷ ns) same d = ground (
      arith,
      same n,
      find_key-update j k f ns same d.1,
      is_cong (key n) k j,
      is_cong k j (key n),
      is_sym k (key n),
      is_sym j (key n),
    )

    pub update-Distinct :
        (k : K) (f : N → N) (ns : List N)
        → ((n : N) → key (f n) ≡ key n)
        → Distinct ns
        → Distinct (update key is_equal k f ns)
    unfolding find_key update
    update-Distinct k f [] same d = tt
    update-Distinct k f (n ∷ ns) same d =
        ground
          (arith, same n, update-Distinct k f ns same d.1, find_key-update (key n) k f ns same d.1)

    -- The node that stands behind `before` is found by its key, and removed by it.
    pub Distinct-middle :
        (before : List N) (n : N) (ns : List N)
        → Distinct (before ++ n ∷ ns)
        → (find_key key is_equal (key n) (before ++ n ∷ ns) ≡ some n)
          × (remove_node key is_equal (key n) (before ++ n ∷ ns) ≡ before ++ ns)
    unfolding find_key remove_node
    Distinct-middle [] n ns d = ground (arith, is_refl (key n))
    Distinct-middle (m ∷ before) n ns d =
        let (found, removed) = Distinct-middle before n ns d.1 in
        ground (arith, find_key_cong (key m) (key n) (before ++ n ∷ ns))
