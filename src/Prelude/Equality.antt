-- ===== src/Prelude/Equality.antt =====
-- Boolean equality tests that are equivalences, and how they combine.
use mathlib.Core.Path.{◌≡◌, refl, sym, ◌∙◌}
use mathlib.Core.Bool.{Bool, true, ◌&&◌}
use mathlib.Core.Logic.{◌↔◌}
use native.Mathlib.Omega.{arith}
use ftb.Prelude.Tests.{◌==◌, Bool-ext}

-- The test `eq` is an equivalence: the symmetry, and that equal keys test alike against any third.
pub record IsEquality {ℓ} {K : Type ℓ} (eq : K → K → Bool) : Type ℓ where
  pub is_refl : (a : K) → eq a a ≡ true
  pub is_sym : (a b : K) → eq a b ≡ eq b a
  pub is_cong : (a b c : K) → eq a b ≡ true → eq a c ≡ eq b c

-- A test that compares normal forms is an equality.
pub IsEquality-norm {ℓ κ} :
    {K : Type ℓ} {C : Type κ} (eq : K → K → Bool) (norm : K → C)
    → ((a b : K) → (eq a b ≡ true) ↔ (norm a ≡ norm b))
    → IsEquality eq
IsEquality-norm eq norm h = record {
  is_refl = λ a. (h a a).1 refl;
  is_sym =
      λ a b. Bool-ext _ _ (λ e. (h b a).1 (sym ((h a b).0 e))) (λ e. (h a b).1 (sym ((h b a).0 e)));
  is_cong = λ a b c e.
      Bool-ext _ _ (λ x. (h b c).1 (sym ((h a b).0 e) ∙ (h a c).0 x))
        (λ x. (h a c).1 ((h a b).0 e ∙ (h b c).0 x));
}

pub IsEquality-nat : IsEquality ◌==◌
IsEquality-nat = record {
  is_refl = λ a. ground arith;
  is_sym = λ a b. ground arith;
  is_cong = λ a b c e. ground arith;
}

-- The test on a field of the keys.
pub IsEquality-on {ℓ κ} :
    {K : Type ℓ} {C : Type κ} {eq : C → C → Bool}
    → IsEquality eq
    → (g : K → C) → IsEquality (λ a b. eq (g a) (g b))
IsEquality-on h g = record {
  is_refl = λ a. h.is_refl (g a);
  is_sym = λ a b. h.is_sym (g a) (g b);
  is_cong = λ a b c e. h.is_cong (g a) (g b) (g c) e;
}

-- Both tests.
pub IsEquality-and {ℓ} :
    {K : Type ℓ} {eq same : K → K → Bool}
    → IsEquality eq
    → IsEquality same
    → IsEquality (λ a b. eq a b && same a b)
IsEquality-and {eq} {same} h k = record {
  is_refl = λ a. ground (arith, h.is_refl a, k.is_refl a);
  is_sym = λ a b. ground (arith, h.is_sym a b, k.is_sym a b);
  is_cong = λ a b c e. ground (arith, h.is_cong a b c, k.is_cong a b c);
}
