-- ===== src/Dll/Maps.antt =====
-- The linked maps of src/util/ftb_util.c implement the maps as lists of their nodes.
use ftb.Prelude.{
  ℕ, zero, suc, ◌<◌, ◌≡◌, refl, ap, ◌∙◌, Bool, false, List, [], ◌∷◌, ◌++◌, Option, none, some,
  arith, ◌==◌, length, inl, inr, Bool-cases, Option-cases,
}
use ftb.Defs.{Run, ok}
use ftb.Map
use ftb.Map.{Status, done, exist, not_exist}
use ftb.Inbox.Chain.{Apart}
use ftb.Dll.{
  Store, write, map_is_empty, list_init, list_add_back, list_remove_node, find_from, map_find_key,
  insert_at, map_insert, remove_at, map_remove_key,
}
use ftb.Dll.Links.{Links, IsRing, list_add_back-IsRing, list_remove_node-IsRing}

module _ {ℓ} {K : Type ℓ} where
  -- The nodes with their keys.
  abbrev pub entries : (ℕ → K) → List ℕ → List (ℕ × K)
  entries key [] = []
  entries key (x ∷ xs) = (x, key x) ∷ entries key xs

  abbrev pub entry_key : ℕ × K → K
  entry_key e = e.1

  -- The ring at `head` holds the map `es`.
  pub record Implements (head : ℕ) (es : List (ℕ × K)) (s : Store K) : Type ℓ where
    pub nodes : List ℕ
    pub ring : IsRing head nodes s
    pub same : entries s.key nodes ≡ es

  -- A new ring holds the empty map.
  pub list_init-Implements : (head : ℕ) (s : Store K) → Implements head [] (list_init head s)
  unfolding list_init
  list_init-Implements head s = record {
    nodes = [];
    ring = record { links = (ground arith, ground arith); once = (tt, tt) };
    same = refl;
  }

  is_empty-nodes :
      (head : ℕ) (xs : List ℕ) (s : Store K)
      → IsRing head xs s
      → map_is_empty head s ≡ Map.is_empty (entries s.key xs)
  unfolding map_is_empty Map.is_empty
  is_empty-nodes head [] s k = ground (arith, k.links.0)
  is_empty-nodes head (x ∷ xs) s k = ground (arith, k.links.0.0, k.once.0.0)

  -- The test for an empty ring tells whether the map that the ring holds is empty.
  pub map_is_empty-is_empty :
      (head : ℕ) (es : List (ℕ × K)) (s : Store K)
      → Implements head es s
      → map_is_empty head s ≡ Map.is_empty es
  map_is_empty-is_empty head es s h = is_empty-nodes head h.nodes s h.ring ∙ ap Map.is_empty h.same

  entries-append :
      (key : ℕ → K) (xs ys : List ℕ) → entries key (xs ++ ys) ≡ entries key xs ++ entries key ys
  entries-append key [] ys = refl
  entries-append key (x ∷ xs) ys = ap (λ r. (x, key x) ∷ r) (entries-append key xs ys)

  entries-write :
      (key : ℕ → K) (n : ℕ) (k : K) (xs : List ℕ)
      → Apart n xs
      → entries (write n k key) xs ≡ entries key xs
  entries-write key n k [] p = refl
  entries-write key n k (x ∷ xs) p =
      let e : write n k key x ≡ key x = rw p.0 refl in rw (e, entries-write key n k xs p.1) refl

  entries-snoc :
      (key : ℕ → K) (n : ℕ) (k : K) (xs : List ℕ)
      → Apart n xs
      → entries (write n k key) (xs ++ n ∷ []) ≡ entries key xs ++ (n, k) ∷ []
  entries-snoc key n k xs p =
      let self : write n k key n ≡ k = ground arith in
      entries-append (write n k key) xs (n ∷ []) ∙ rw (entries-write key n k xs p, self) refl

  length-entries : (key : ℕ → K) (xs : List ℕ) → length xs ≡ length (entries key xs)
  length-entries key [] = refl
  length-entries key (x ∷ xs) = ap suc (length-entries key xs)

  -- The node that a lookup gives, or the head.
  abbrev pub node_or : ℕ → Option (ℕ × K) → ℕ
  node_or head none = head
  node_or head (some e) = e.0

  module _ (is_equal : K → K → Bool) where
    find_from-find_key :
        (fuel head a : ℕ) (xs : List ℕ) (k : K) (s : Store K)
        → Links s.next s.prev a xs head
        → Apart head xs
        → length xs < fuel
        → find_from is_equal fuel head (s.next a) k s
          ≡ ok (node_or head (Map.find_key entry_key is_equal k (entries s.key xs)))
    unfolding find_from Map.find_key
    find_from-find_key zero head a xs k s l p le = absurd (ground arith)
    find_from-find_key (suc fuel) head a [] k s l p le = ground (arith, l.0)
    find_from-find_key (suc fuel) head a (x ∷ xs) k s l p le =
        let later = find_from-find_key fuel head x xs k s l.1 p.1 (ground arith) in
        elim (Bool-cases (is_equal (s.key x) k)) [
          | inl hit ↦ ground (arith, l.0.0, p.0)
          | inr miss ↦ ground (arith, l.0.0, p.0, later)
        ]

    -- With more fuel than the map has nodes the linked lookup ends, at the node that the lookup in the
    -- list of the nodes gives, or at the head.
    pub map_find_key-find_key :
        (fuel head : ℕ) (es : List (ℕ × K)) (k : K) (s : Store K)
        → Implements head es s
        → length es < fuel
        → map_find_key is_equal fuel head k s
          ≡ ok (node_or head (Map.find_key entry_key is_equal k es))
    unfolding map_find_key
    map_find_key-find_key fuel head es k s h le =
        let count = length-entries s.key h.nodes ∙ ap length h.same in
        find_from-find_key fuel head head h.nodes k s h.ring.links h.ring.once.0
          (omega (arith, count, le))
        ∙ ap (λ x. ok (node_or head (Map.find_key entry_key is_equal k x))) h.same

    -- The entry that is found is not the head's.
    find_key-Apart :
        (head : ℕ) (key : ℕ → K) (xs : List ℕ) (k : K) (e : ℕ × K)
        → Apart head xs
        → Map.find_key entry_key is_equal k (entries key xs) ≡ some e
        → (e.0 == head) ≡ false
    unfolding Map.find_key
    find_key-Apart head key [] k e p h = absurd (ground arith)
    find_key-Apart head key (x ∷ xs) k e p h = elim (Bool-cases (is_equal (key x) k)) [
      | inl hit ↦ ground (arith, p.0)
      | inr miss ↦ find_key-Apart head key xs k e p.1 (ground arith)
    ]

    -- What an operation leaves: its answer, and a ring that holds the map that it should.
    pub record Gives (head : ℕ) (r : Status × List (ℕ × K)) (c : Run (Status × Store K))
        : Type ℓ where
      pub left : Store K
      pub runs : c ≡ ok (r.0, left)
      pub holds : Implements head r.1 left

    -- An insertion in the linked nodes answers as the insertion in the list of the nodes does, and leaves
    -- a ring that holds what that one leaves: for a new node, and more fuel than nodes.
    pub map_insert-insert :
        (fuel head n : ℕ) (es : List (ℕ × K)) (k : K) (s : Store K)
        → (h : Implements head es s) → Apart n (head ∷ h.nodes)
        → length es < fuel
        → Gives head (Map.insert entry_key is_equal (n, k) es) (map_insert is_equal fuel head n k s)
    unfolding map_insert insert_at Map.insert list_add_back
    map_insert-insert fuel head n es k s h new le =
        let found = map_find_key-find_key fuel head es k s h le in
        elim (Option-cases (Map.find_key entry_key is_equal k es)) [
          | inr (e, there) ↦
              let other =
                find_key-Apart head s.key h.nodes k e h.ring.once.0
                  (ap (Map.find_key entry_key is_equal k) h.same ∙ there) in
              rw there (record { left = s; runs = ground (arith, found, there, other); holds = h })
          | inl missing ↦
              let t : Store K = record s { key = write n k s.key } in
              let ring =
                list_add_back-IsRing head n h.nodes t
                  (record { links = h.ring.links; once = h.ring.once }) new in
              rw missing (record {
                left = list_add_back head n t;
                runs = ground (arith, found, missing);
                holds = record {
                  nodes = h.nodes ++ n ∷ [];
                  ring = ring;
                  same = entries-snoc s.key n k h.nodes new.1 ∙ ap (λ r. r ++ (n, k) ∷ []) h.same;
                };
              })
        ]

    -- Where the entry that is found stands, and what is left without it.
    record Standing (key : ℕ → K) (xs : List ℕ) (k : K) (e : ℕ × K) : Type ℓ where
      before : List ℕ
      after : List ℕ
      parts : xs ≡ before ++ e.0 ∷ after
      rest : entries key (before ++ after) ≡ Map.remove_node entry_key is_equal k (entries key xs)

    find_key-Standing :
        (key : ℕ → K) (xs : List ℕ) (k : K) (e : ℕ × K)
        → Map.find_key entry_key is_equal k (entries key xs) ≡ some e
        → Standing key xs k e
    unfolding Map.find_key Map.remove_node
    find_key-Standing key [] k e h = absurd (ground arith)
    find_key-Standing key (x ∷ xs) k e h = elim (Bool-cases (is_equal (key x) k)) [
      | inl hit ↦
          let same : x ≡ e.0 = ground arith in
          record { before = []; after = xs; parts = ap (λ y. y ∷ xs) same; rest = rw hit refl }
      | inr miss ↦
          let q = find_key-Standing key xs k e (ground arith) in
          record {
            before = x ∷ q.before;
            after = q.after;
            parts = ap (◌∷◌ x) q.parts;
            rest = rw miss (ap (λ r. (x, key x) ∷ r) q.rest);
          }
    ]

    -- A removal by key in the linked nodes answers as the removal in the list of the nodes does, and
    -- leaves a ring that holds what that one leaves, for more fuel than nodes.
    pub map_remove_key-remove_key :
        (fuel head : ℕ) (es : List (ℕ × K)) (k : K) (s : Store K)
        → Implements head es s
        → length es < fuel
        → Gives head
            (Map.remove_key entry_key is_equal k es)
            (map_remove_key is_equal fuel head k s)
    unfolding map_remove_key remove_at Map.remove_key list_remove_node
    map_remove_key-remove_key fuel head es k s h le =
        let found = map_find_key-find_key fuel head es k s h le in
        elim (Option-cases (Map.find_key entry_key is_equal k es)) [
          | inl missing ↦
              rw missing (record { left = s; runs = ground (arith, found, missing); holds = h })
          | inr (e, there) ↦
              let here = ap (Map.find_key entry_key is_equal k) h.same ∙ there in
              let other = find_key-Apart head s.key h.nodes k e h.ring.once.0 here in
              let q = find_key-Standing s.key h.nodes k e here in
              let ring =
                list_remove_node-IsRing head e.0 q.before q.after s (rw q.parts at h.ring) in
              rw there (record {
                left = list_remove_node e.0 s;
                runs = ground (arith, found, there, other);
                holds = record {
                  nodes = q.before ++ q.after;
                  ring = ring;
                  same = q.rest ∙ ap (Map.remove_node entry_key is_equal k) h.same;
                };
              })
        ]
