-- ===== src/Map/Every.antt =====
-- A property of every node of a map, through each operation.
use ftb.Prelude.{◌≡◌, Bool, List, [], ◌∷◌, some, arith, All, All-append, Bool-cases, inl, inr}
use ftb.Map.{find_key, has, insert, remove_node, update}

module _ {ℓ κ μ} {K : Type ℓ} {N : Type κ} (key : N → K) (is_equal : K → K → Bool)
    (P : N → Type μ) where
  pub All-find_key :
      (k : K) (ns : List N) (n : N) → All P ns → find_key key is_equal k ns ≡ some n → P n
  unfolding find_key
  All-find_key k [] n a h = absurd (ground arith)
  All-find_key k (m ∷ ns) n a h = elim (Bool-cases (is_equal (key m) k)) [
    | inl hit ↦ ground (arith, a.0)
    | inr miss ↦ All-find_key k ns n a.1 (ground arith)
  ]

  pub insert-All : (n : N) (ns : List N) → P n → All P ns → All P (insert key is_equal n ns).1
  unfolding insert
  insert-All n ns p a = elim (Bool-cases (has key is_equal (key n) ns)) [
    | inl old ↦ rw old a
    | inr new ↦ rw new (All-append P ns (n ∷ []) a (p, tt))
  ]

  pub remove_node-All : (k : K) (ns : List N) → All P ns → All P (remove_node key is_equal k ns)
  unfolding remove_node
  remove_node-All k [] a = tt
  remove_node-All k (n ∷ ns) a = elim (Bool-cases (is_equal (key n) k)) [
    | inl hit ↦ rw hit a.1
    | inr miss ↦ rw miss (a.0, remove_node-All k ns a.1)
  ]

  pub update-All :
      (k : K) (f : N → N) (ns : List N)
      → ((n : N) → P (f n))
      → All P ns
      → All P (update key is_equal k f ns)
  unfolding update
  update-All k f [] q a = tt
  update-All k f (n ∷ ns) q a = elim (Bool-cases (is_equal (key n) k)) [
    | inl hit ↦ rw hit (q n, a.1)
    | inr miss ↦ rw miss (a.0, update-All k f ns q a.1)
  ]
