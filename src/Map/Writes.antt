-- ===== src/Map/Writes.antt =====
-- A write through the node that a lookup gave, where only that node's own key is known to stay.
use ftb.Prelude.{
  ◌≡◌, refl, ap, sym, ◌∙◌, Bool, List, [], ◌∷◌, some, arith, map, All, inl, inr, Bool-cases,
  IsEquality, if◌then◌else◌,
}
use ftb.Map.{find_key, has, update}
use ftb.Map.Laws.{Distinct}

module _ {ℓ κ} {K : Type ℓ} {N : Type κ} (key : N → K) (is_equal : K → K → Bool) where
  pub update-All_at {μ} :
      (P : N → Type μ) (k : K) (f : N → N) (ns : List N) (n : N)
      → find_key key is_equal k ns ≡ some n
      → P (f n)
      → All P ns
      → All P (update key is_equal k f ns)
  unfolding update find_key
  update-All_at P k f [] n found p a = tt
  update-All_at P k f (m ∷ ns) n found p a = elim (Bool-cases (is_equal (key m) k)) [
    | inl hit ↦ let same : m ≡ n = ground arith in rw hit (rw same p, a.1)
    | inr miss ↦ rw miss (a.0, update-All_at P k f ns n (ground arith) p a.1)
  ]

  -- The keys, in their order, are the same.
  pub keys-update :
      (k : K) (f : N → N) (ns : List N) (n : N)
      → find_key key is_equal k ns ≡ some n
      → key (f n) ≡ key n
      → map key (update key is_equal k f ns) ≡ map key ns
  unfolding update find_key
  keys-update k f [] n found same = refl
  keys-update k f (m ∷ ns) n found same = elim (Bool-cases (is_equal (key m) k)) [
    | inl hit ↦
        let this : m ≡ n = ground arith in
        rw hit (ap (λ x. x ∷ map key ns) (ap (λ x. key (f x)) this ∙ same ∙ ap key (sym this)))
    | inr miss ↦ rw miss (ap (λ xs. key m ∷ xs) (keys-update k f ns n (ground arith) same))
  ]

  has-keys :
      (k : K) (ns ms : List N)
      → map key ns ≡ map key ms
      → has key is_equal k ns ≡ has key is_equal k ms
  unfolding find_key
  has-keys k [] [] h = refl
  has-keys k [] (m ∷ ms) h = absurd (cc)
  has-keys k (n ∷ ns) [] h = absurd (cc)
  has-keys k (n ∷ ns) (m ∷ ms) h = ground (arith, has-keys k ns ms)

  pub Distinct-keys :
      (ns ms : List N)
      → map key ns ≡ map key ms
      → Distinct key is_equal ns
      → Distinct key is_equal ms
  Distinct-keys [] [] h d = tt
  Distinct-keys [] (m ∷ ms) h d = absurd (cc)
  Distinct-keys (n ∷ ns) [] h d = absurd (cc)
  Distinct-keys (n ∷ ns) (m ∷ ms) h d = ground (arith, has-keys (key n) ns ms, Distinct-keys ns ms)

  pub find_key-update_at :
      IsEquality is_equal
      → (j k : K) (f : N → N) (ns : List N) (n : N) → find_key key is_equal k ns ≡ some n
      → key (f n) ≡ key n
      → find_key key is_equal j (update key is_equal k f ns)
        ≡ (if is_equal k j then some (f n) else find_key key is_equal j ns)
  unfolding update find_key
  find_key-update_at eq j k f [] n found same = absurd (ground arith)
  find_key-update_at eq j k f (m ∷ ns) n found same = ground (
    arith,
    find_key-update_at eq j k f ns n,
    eq.is_cong (key m) k j,
    eq.is_cong (key m) j k,
    eq.is_sym (key m) j,
    eq.is_sym k j,
  )

  -- A write that is safe for every node.
  pub update-All_each {μ} :
      (P : N → Type μ) (k : K) (f : N → N) (ns : List N)
      → ((n : N) → P n → P (f n))
      → All P ns
      → All P (update key is_equal k f ns)
  unfolding update
  update-All_each P k f [] p a = tt
  update-All_each P k f (m ∷ ns) p a = elim (Bool-cases (is_equal (key m) k)) [
    | inl hit ↦ rw hit (p m a.0, a.1)
    | inr miss ↦ rw miss (a.0, update-All_each P k f ns p a.1)
  ]

  pub keys-update_each :
      (k : K) (f : N → N) (ns : List N)
      → ((n : N) → key (f n) ≡ key n)
      → map key (update key is_equal k f ns) ≡ map key ns
  unfolding update
  keys-update_each k f [] same = refl
  keys-update_each k f (m ∷ ns) same = elim (Bool-cases (is_equal (key m) k)) [
    | inl hit ↦ rw hit (ap (λ x. x ∷ map key ns) (same m))
    | inr miss ↦ rw miss (ap (λ xs. key m ∷ xs) (keys-update_each k f ns same))
  ]
