-- ===== src/Auxil/Trim.antt =====
-- What soft_trim cuts off, and what it leaves.
use mathlib.Core.List.{append-nil, append_assoc}
use ftb.Prelude.{
  ℕ, zero, suc, ◌≤◌, ◌≡◌, refl, ap, sym, subst, ◌∙◌, ◌⊎◌, Bool, true, false, [], ◌∷◌, ◌++◌, some,
  arith, if◌then◌else◌, inl, inr, Bool-cases, All, length, get_elem?, take,
}
use ftb.Text.{Str}
use ftb.Defs.{ok, crash}
use ftb.Auxil.{is_blank, skip_blanks, blank_before, trim_end, soft_trim, trim_string}

abbrev pub Blank : Str → Type 0
Blank = All (λ c. is_blank c ≡ true)

-- The first and the last character are no blanks, if there are any.
abbrev pub first_is_blank : Str → Bool
first_is_blank [] = false
first_is_blank (c ∷ s) = is_blank c

abbrev pub last_is_blank : Str → Bool
last_is_blank [] = false
last_is_blank (c ∷ []) = is_blank c
last_is_blank (c ∷ d ∷ s) = last_is_blank (d ∷ s)

-- `t` is `s` without blanks around it.
pub record IsTrimmed (s t : Str) : Type 0 where
  pub before : Str
  pub after : Str
  pub parts : s ≡ before ++ (t ++ after)
  pub before-Blank : Blank before
  pub after-Blank : Blank after
  pub first : first_is_blank t ≡ false
  pub last : last_is_blank t ≡ false

skip_blanks-parts :
    (s : Str)
    → (before : Str) × (s ≡ before ++ skip_blanks s)
      × Blank before
      × (first_is_blank (skip_blanks s) ≡ false)
unfolding skip_blanks
skip_blanks-parts [] = ([], refl, tt, refl)
skip_blanks-parts (c ∷ s) = elim (Bool-cases (is_blank c)) [
  | inl blank ↦
      let (b, p, k, f) = skip_blanks-parts s in
      (c ∷ b, rw blank (ap (◌∷◌ c) p), (blank, k), rw blank f)
  | inr solid ↦ ([], rw solid refl, tt, rw solid solid)
]

get_elem?-inside : (s : Str) (j : ℕ) → suc j ≤ length s → (c : ℕ) × (get_elem? s j ≡ some c)
get_elem?-inside [] j le = absurd (ground arith)
get_elem?-inside (c ∷ s) zero le = (c, refl)
get_elem?-inside (c ∷ s) (suc j) le = get_elem?-inside s j (ground arith)

take-suc : (s : Str) (j c : ℕ) → get_elem? s j ≡ some c → take (suc j) s ≡ take j s ++ c ∷ []
take-suc [] j c h = absurd (ground arith)
take-suc (d ∷ s) zero c h = ground arith
take-suc (d ∷ s) (suc j) c h = ap (◌∷◌ d) (take-suc s j c h)

last_is_blank-append : (s : Str) (c : ℕ) → last_is_blank (s ++ c ∷ []) ≡ is_blank c
last_is_blank-append [] c = refl
last_is_blank-append (d ∷ []) c = refl
last_is_blank-append (d ∷ e ∷ s) c = last_is_blank-append (e ∷ s) c

take-length : (s : Str) → take (length s) s ≡ s
take-length [] = refl
take-length (c ∷ s) = ap (◌∷◌ c) (take-length s)

Blank-append : (s : Str) (c : ℕ) → Blank s → is_blank c ≡ true → Blank (s ++ c ∷ [])
Blank-append [] c k h = (h, tt)
Blank-append (d ∷ s) c k h = (k.0, Blank-append s c k.1 h)

trim_end-zero : (s : Str) → trim_end s zero ≡ zero
unfolding trim_end
trim_end-zero s = refl

trim_end-suc :
    (s : Str) (j c : ℕ)
    → get_elem? s j ≡ some c
    → trim_end s (suc j) ≡ (if is_blank c then trim_end s j else suc j)
unfolding trim_end blank_before
trim_end-suc s j c h = ground arith

-- The blanks at the end of the first `j` characters are cut.
trim_end-parts :
    (s : Str) (j : ℕ)
    → j ≤ length s
    → (after : Str) × (take j s ≡ take (trim_end s j) s ++ after)
      × Blank after
      × (last_is_blank (take (trim_end s j) s) ≡ false)
trim_end-parts s zero le = (
  [],
  sym (append-nil (take (trim_end s zero) s) ∙ ap (λ n. take n s) (trim_end-zero s)),
  tt,
  ap (λ n. last_is_blank (take n s)) (trim_end-zero s),
)
trim_end-parts s (suc j) le =
    let (c, at) = get_elem?-inside s j le in
    let cut = take-suc s j c at in
    let step = trim_end-suc s j c at in
    elim (Bool-cases (is_blank c)) [
      | inl blank ↦
          let (a, p, k, l) = trim_end-parts s j (ground arith) in
          (
            a ++ c ∷ [],
            rw (step, blank)
                (cut ∙ ap (λ r. r ++ c ∷ []) p ∙ append_assoc (take (trim_end s j) s) a (c ∷ [])),
            Blank-append a c k blank,
            rw (step, blank) l,
          )
      | inr solid ↦ (
        [],
        rw (step, solid) (sym (append-nil (take (suc j) s))),
        tt,
        rw (step, solid) (ap last_is_blank cut ∙ last_is_blank-append (take j s) c ∙ solid),
      )
    ]

first-take : (s after : Str) (n : ℕ) → first_is_blank s ≡ false → first_is_blank (take n s) ≡ false
first-take [] after zero h = refl
first-take [] after (suc n) h = refl
first-take (c ∷ s) after zero h = refl
first-take (c ∷ s) after (suc n) h = h

-- soft_trim leaves a string without the blanks around it, and cuts nothing but blanks.
pub soft_trim-IsTrimmed : (s : Str) → IsTrimmed s (soft_trim s)
unfolding soft_trim
soft_trim-IsTrimmed s =
    let (b, p, k, f) = skip_blanks-parts s in
    let rest = skip_blanks s in
    let (a, q, m, l) = trim_end-parts rest (length rest) (ground arith) in
    record {
      before = b;
      after = a;
      parts = p ∙ ap (λ r. b ++ r) (sym (take-length rest) ∙ q);
      before-Blank = k;
      after-Blank = m;
      first = first-take rest a (trim_end rest (length rest)) f;
      last = l;
    }

-- trim_string gives what soft_trim leaves, unless the string is blank: then it reads before its copy.
trim_string-soft_trim :
    (s : Str) → (Blank s × (trim_string s ≡ crash)) ⊎ (trim_string s ≡ ok (soft_trim s))
unfolding trim_string soft_trim
trim_string-soft_trim s = by_rest (skip_blanks s) refl
  where
    by_rest :
        (rest : Str)
        → skip_blanks s ≡ rest
        → (Blank s × (trim_string s ≡ crash)) ⊎ (trim_string s ≡ ok (soft_trim s))
    by_rest [] e =
        let (b, p, k, _) = skip_blanks-parts s in
        let all : s ≡ b = p ∙ ap (λ r. b ++ r) e ∙ append-nil b in
        inl (subst Blank (sym all) k, ground (arith, e))
    by_rest (c ∷ rest) e = inr (ground (arith, e))
