-- ===== src/Inbox/Chain.antt =====
-- Chains of nodes, and what a write to a `next` pointer does to them.
use ftb.Prelude.{ℕ, ◌≡◌, false, List, [], ◌∷◌, ◌++◌, Option, none, some, arith, ◌==◌, All}
use ftb.Inbox.{update}

-- From `p` the pointers lead through the nodes `xs` to null.
abbrev pub Walk : (ℕ → Option ℕ) → Option ℕ → List ℕ → Type 0
Walk next p [] = p ≡ none
Walk next p (a ∷ xs) = (p ≡ some a) × Walk next (next a) xs

abbrev pub Apart : ℕ → List ℕ → Type 0
Apart a = All (λ b. (a == b) ≡ false)

-- No node twice.
abbrev pub Once : List ℕ → Type 0
Once [] = Unit {0}
Once (a ∷ xs) = Apart a xs × Once xs

abbrev pub last : List ℕ → Option ℕ
last [] = none
last (a ∷ []) = some a
last (a ∷ b ∷ xs) = last (b ∷ xs)

-- A write elsewhere leaves a chain alone.
pub Walk-update :
    (next : ℕ → Option ℕ) (a : ℕ) (v p : Option ℕ) (xs : List ℕ)
    → Apart a xs
    → Walk next p xs
    → Walk (update next a v) p xs
Walk-update next a v p [] out w = w
Walk-update next a v p (b ∷ xs) out w =
    let e : update next a v b ≡ next b = rw out.0 in
    (w.0, rw e (Walk-update next a v (next b) xs out.1 w.1))

-- A node that is apart from a chain is not its last one.
pub last-Apart : (a t : ℕ) (xs : List ℕ) → Apart a xs → last xs ≡ some t → (t == a) ≡ false
last-Apart a t [] o l = absurd (ground arith)
last-Apart a t (b ∷ []) o l = ground arith
last-Apart a t (b ∷ c ∷ xs) o l = last-Apart a t (c ∷ xs) o.1 l

-- A chain goes on where its last node is made to point.
pub Walk-link :
    (next : ℕ → Option ℕ) (t first : ℕ) (p : Option ℕ) (xs ys : List ℕ)
    → Walk next p xs
    → Once xs
    → last xs ≡ some t
    → Walk (update next t (some first)) (some first) ys
    → Walk (update next t (some first)) p (xs ++ ys)
Walk-link next t first p [] ys w o l v = absurd (ground arith)
Walk-link next t first p (a ∷ []) ys w o l v =
    let e : update next t (some first) a ≡ some first = ground arith in (w.0, rw e v)
Walk-link next t first p (a ∷ b ∷ xs) ys w o l v =
    let q = Walk-link next t first (next a) (b ∷ xs) ys w.1 o.1 l v in
    let e : update next t (some first) a ≡ next a = ground (arith, last-Apart a t (b ∷ xs) o.0 l) in
    (w.0, rw e q)
