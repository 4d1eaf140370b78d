-- ===== src/Client/Splitting.antt =====
-- What FTBCI_split_namespace accepts, and where it follows a null pointer.
use ftb.Prelude.{
  ◌<◌, ◌≡◌, refl, ap, sym, subst, ◌∙◌, Bool, true, false, not, ◌&&◌, ◌||◌, [], ◌∷◌, ◌++◌, Option,
  none, some, arith, inl, inr, Bool-cases, ◌==◌, leb, length,
}
use ftb.Text.{Str, strcmp}
use ftb.Defs.{Code, success, err_eventspace_format, Run, ok, crash}
use ftb.Auxil.{is_word, check_alphanumeric_underscore_format}
use ftb.Client.Namespace.{
  dot, Split, strsep, split_component, split_category, split_region, split_namespace,
}

-- No dot in the string.
abbrev pub dotless : Str → Bool
dotless [] = true
dotless (c ∷ s) = not (c == dot) && dotless s

strsep-last : (s : Str) → dotless s ≡ true → strsep s ≡ (s, none)
unfolding strsep
strsep-last [] h = refl
strsep-last (c ∷ s) h = ground (arith, strsep-last s)

strsep-more : (a t : Str) → dotless a ≡ true → strsep (a ++ dot ∷ t) ≡ (a, some t)
unfolding strsep
strsep-more [] t h = refl
strsep-more (c ∷ a) t h = ground (arith, strsep-more a t)

-- A string is cut at its first dot, or has none.
data Cut (s : Str) : Type 0 where
  whole : dotless s ≡ true → strsep s ≡ (s, none) → Cut s
  pieces : (a t : Str) → dotless a ≡ true → s ≡ a ++ dot ∷ t → strsep s ≡ (a, some t) → Cut s

cut : (s : Str) → Cut s
unfolding strsep
cut [] = whole refl refl
cut (c ∷ s) = elim (Bool-cases (c == dot)) [
  | inl at ↦ pieces [] s refl (ground arith) (rw at refl)
  | inr other ↦ elim (cut s) [
    | whole h e ↦ whole (rw (other) h) (rw (other, e) refl)
    | pieces a t h p e ↦ pieces (c ∷ a) t (rw (other) h) (ap (◌∷◌ c) p) (rw (other, e) refl)
  ]
]

-- A name of an event space.
abbrev pub is_name : Str → Bool
is_name a = not (strcmp a []) && check_alphanumeric_underscore_format a

word-dotless : (a : Str) → check_alphanumeric_underscore_format a ≡ true → dotless a ≡ true
unfolding check_alphanumeric_underscore_format is_word
word-dotless [] h = refl
word-dotless (c ∷ a) h = ground (arith, word-dotless a)

-- Three names, each without a dot, with dots between them.
pub record IsNamespace (s r c n : Str) : Type 0 where
  pub parts : s ≡ r ++ dot ∷ (c ++ dot ∷ n)
  pub fits : length s < 64
  pub region : is_name r ≡ true
  pub category : is_name c ≡ true
  pub component : is_name n ≡ true

abbrev pub split_as : Str → Str → Str → Split
split_as r c n = record {
  code = success;
  region_name = some r;
  category_name = some c;
  component_name = some n;
}

is_nil_dot : (a t : Str) → strcmp (a ++ dot ∷ t) [] ≡ false
unfolding strcmp
is_nil_dot [] t = refl
is_nil_dot (c ∷ a) t = refl

-- An event space of three names is split into them.
pub split_namespace-IsNamespace :
    (s r c n : Str) → IsNamespace s r c n → split_namespace s ≡ ok (split_as r c n)
unfolding split_namespace split_region split_category split_component
split_namespace-IsNamespace s r c n k =
    let dr = word-dotless r (ground (arith, k.region)) in
    let dc = word-dotless c (ground (arith, k.category)) in
    let dn = word-dotless n (ground (arith, k.component)) in
    let e1 : strsep s ≡ (r, some (c ++ dot ∷ n)) =
      ap strsep k.parts ∙ strsep-more r (c ++ dot ∷ n) dr in
    let e2 = strsep-more c n dc in
    let e3 = strsep-last n dn in
    ground (arith, e1, e2, e3, k.fits, k.region, k.category, k.component, is_nil_dot c n)

-- One name without a dot, or two names with a dot between them: the strings with too few pieces.
pub data Stray (s : Str) : Type 0 where
  one : dotless s ≡ true → strcmp s [] ≡ false → Stray s
  two :
      (a t : Str)
      → s ≡ a ++ dot ∷ t
      → (dotless a && dotless t) ≡ true
      → (strcmp a [] || strcmp t []) ≡ false
      → Stray s

-- The code that is returned, if the call returns.
unfoldable pub code_of : Run Split → Option Code
code_of (ok p) = some p.code
code_of crash = none

-- What splitting comes to.
pub data Outcome (s : Str) (r : Run Split) : Type 0 where
  refused : code_of r ≡ some err_eventspace_format → Outcome s r
  split : (x y z : Str) → IsNamespace s x y z → r ≡ ok (split_as x y z) → Outcome s r
  stray : length s < 64 → Stray s → r ≡ crash → Outcome s r

split_component-Outcome :
    (s a b t : Str)
    → s ≡ a ++ dot ∷ (b ++ dot ∷ t)
    → length s < 64
    → (strcmp a [] || strcmp b []) ≡ false
    → Outcome s (split_component a b (strsep t))
unfolding split_component code_of
split_component-Outcome s a b t p fits solid = elim (cut t) [
  | pieces c u h q e ↦ refused (ground arith)
  | whole h e ↦ elim (Bool-cases (is_name a && is_name b && is_name t)) [
    | inl good ↦
        split a b t
          (record {
            parts = p;
            fits = fits;
            region = ground arith;
            category = ground arith;
            component = ground arith;
          })
          (ground arith)
    | inr bad ↦ refused (ground arith)
  ]
]

split_category-Outcome :
    (s a t : Str)
    → s ≡ a ++ dot ∷ t
    → dotless a ≡ true
    → length s < 64
    → strcmp a [] ≡ false
    → Outcome s (split_category a (strsep t))
unfolding split_category code_of
split_category-Outcome s a t p no_dot fits solid = elim (Bool-cases (strcmp (strsep t).0 [])) [
  | inl empty ↦ refused (ground arith)
  | inr more ↦ elim (cut t) [
    | whole h e ↦ stray fits (two a t p (ground arith) (ground arith)) (ground arith)
    | pieces b u h q e ↦ elim (Bool-cases (strcmp u [])) [
      | inl last ↦ refused (ground arith)
      | inr on ↦
          let same : split_category a (strsep t) ≡ split_component a b (strsep u) = ground arith in
          subst (Outcome s) (sym same)
            (split_component-Outcome s a b u (p ∙ ap (λ r. a ++ dot ∷ r) q) fits (ground arith))
    ]
  ]
]

pub split_namespace-Outcome : (s : Str) → Outcome s (split_namespace s)
unfolding split_namespace split_region code_of
split_namespace-Outcome s = elim (Bool-cases (leb 64 (length s) || strcmp (strsep s).0 [])) [
  | inl bad ↦ refused (ground arith)
  | inr fits ↦ elim (cut s) [
    | whole h e ↦ stray (ground arith) (one h (ground arith)) (ground arith)
    | pieces a t h p e ↦ elim (Bool-cases (strcmp t [])) [
      | inl last ↦ refused (ground arith)
      | inr on ↦
          let same : split_namespace s ≡ split_category a (strsep t) = ground arith in
          subst (Outcome s) (sym same)
            (split_category-Outcome s a t p h (ground arith) (ground arith))
    ]
  ]
]
