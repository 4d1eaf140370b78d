-- ===== src/Text/Laws.antt =====
-- The string comparisons are equality tests: each compares normal forms.
use ftb.Prelude.{
  ℕ, zero, suc, ◌≡◌, refl, ap, ◌↔◌, true, [], ◌∷◌, map, take, arith, IsEquality, IsEquality-norm,
}
use ftb.Text.{Str, to_lower, strcasecmp, strncasecmp, strcmp, strncmp}

-- Two strings match without case exactly when they are equal in lower case.
pub strcasecmp_iff : (s t : Str) → (strcasecmp s t ≡ true) ↔ (map to_lower s ≡ map to_lower t)
unfolding strcasecmp
strcasecmp_iff [] [] = (λ e. refl, λ e. refl)
strcasecmp_iff [] (d ∷ t) = ground arith
strcasecmp_iff (c ∷ s) [] = ground arith
strcasecmp_iff (c ∷ s) (d ∷ t) = ground (arith, strcasecmp_iff s t)

pub strncasecmp_iff :
    (n : ℕ) (s t : Str)
    → (strncasecmp n s t ≡ true) ↔ (take n (map to_lower s) ≡ take n (map to_lower t))
unfolding strncasecmp
strncasecmp_iff zero s t = (λ e. refl, λ e. refl)
strncasecmp_iff (suc n) [] [] = (λ e. refl, λ e. refl)
strncasecmp_iff (suc n) [] (d ∷ t) = ground arith
strncasecmp_iff (suc n) (c ∷ s) [] = ground arith
strncasecmp_iff (suc n) (c ∷ s) (d ∷ t) = ground (arith, strncasecmp_iff n s t)

pub strncmp_iff : (n : ℕ) (s t : Str) → (strncmp n s t ≡ true) ↔ (take n s ≡ take n t)
unfolding strncmp
strncmp_iff zero s t = (λ e. refl, λ e. refl)
strncmp_iff (suc n) [] [] = (λ e. refl, λ e. refl)
strncmp_iff (suc n) [] (d ∷ t) = ground arith
strncmp_iff (suc n) (c ∷ s) [] = ground arith
strncmp_iff (suc n) (c ∷ s) (d ∷ t) = ground (arith, strncmp_iff n s t)

pub strcmp_iff : (s t : Str) → (strcmp s t ≡ true) ↔ (s ≡ t)
unfolding strcmp
strcmp_iff [] [] = (λ e. refl, λ e. refl)
strcmp_iff [] (d ∷ t) = ground arith
strcmp_iff (c ∷ s) [] = ground arith
strcmp_iff (c ∷ s) (d ∷ t) = ground (arith, strcmp_iff s t)

pub strcasecmp-IsEquality : IsEquality strcasecmp
strcasecmp-IsEquality = IsEquality-norm strcasecmp (map to_lower) strcasecmp_iff

pub strncasecmp-IsEquality : (n : ℕ) → IsEquality (strncasecmp n)
strncasecmp-IsEquality n =
    IsEquality-norm (strncasecmp n) (λ s. take n (map to_lower s)) (strncasecmp_iff n)

pub strncmp-IsEquality : (n : ℕ) → IsEquality (strncmp n)
strncmp-IsEquality n = IsEquality-norm (strncmp n) (take n) (strncmp_iff n)

-- Strings that match exactly match without case.
pub strcmp→strcasecmp : (s t : Str) → strcmp s t ≡ true → strcasecmp s t ≡ true
strcmp→strcasecmp s t h = (strcasecmp_iff s t).1 (ap (map to_lower) ((strcmp_iff s t).0 h))
