-- ===== src/Client/Fitting.antt =====
-- What FTBCI_parse_subscription_string writes fits into the fields of the event.
use ftb.Prelude.{
  ℕ, suc, ◌<◌, ◌≤◌, ◌≡◌, refl, ap, sym, subst, ◌∙◌, true, ◌||◌, List, [], ◌∷◌, ◌++◌, some, arith,
  inl, inr, Bool-cases, Option-cases, ◌==◌, leb, ltb, length, length-append,
}
use ftb.Text.{Str, codes, strcasecmp}
use ftb.Defs.{
  Code, success, err_eventspace_format, err_subscription_str, err_filter_attr, err_filter_value,
  is_success, Event, Run, ok, crash,
}
use ftb.Auxil.{soft_trim}
use ftb.Client.Namespace.{dot, Split, split_namespace}
use ftb.Client.Splitting.{
  refused, split, stray, Stray, IsNamespace, code_of, split_namespace-Outcome,
}
use ftb.Client.Filter.{
  Filter, reset, has_bit, set_bit, is_severity, put_space, put_attribute, bit_of, put_pair,
  check_subscription_value_pair, cut_at, any_blank, parse_pair, parse_field, then_parse,
  parse_fields, fields, parse_subscription_string,
}

-- Each string with its terminating zero fits into its array.
pub record Fits (e : Event) : Type 0 where
  pub severity : length e.severity < 16
  pub region : length e.region < 64
  pub comp_cat : length e.comp_cat < 64
  pub comp : length e.comp < 64
  pub event_name : length e.event_name < 32
  pub client_jobid : length e.client_jobid < 16
  pub hostname : length e.hostname < 64
  pub client_name : length e.client_name < 16

-- A call returns, with an event that fits, or one of the event spaces `P` with too few pieces has
-- stopped it.
pub data Result (P : Str → Type 0) (r : Run (Code × Filter)) : Type 0 where
  returned : (q : Code × Filter) → r ≡ ok q → Fits q.1.event → Result P r
  stopped : (t : Str) → P t → Stray t → length t < 64 → r ≡ crash → Result P r

-- The field gives the event space, with the value `t`.
pub record IsSpace (field t : Str) : Type 0 where
  pub right : Str
  pub cut : (cut_at b'=' field).1 ≡ some right
  pub attribute : bit_of (soft_trim (cut_at b'=' field).0) ≡ some 4
  pub value : t ≡ soft_trim (cut_at b'=' right).0

-- One of the fields gives the event space, with the value `t`.
pub data HasSpace (t : Str) : List Str → Type 0 where
  here : (s : Str) (ss : List Str) → IsSpace s t → HasSpace t (s ∷ ss)
  further : (s : Str) (ss : List Str) → HasSpace t ss → HasSpace t (s ∷ ss)

widen :
    (P Q : Str → Type 0) (r : Run (Code × Filter))
    → ((t : Str) → P t → Q t)
    → Result P r
    → Result Q r
widen P Q r k (returned q e fits) = returned q e fits
widen P Q r k (stopped t p w fits e) = stopped t (k t p) w fits e

strcasecmp-length : (s t : Str) → strcasecmp s t ≡ true → length s ≡ length t
unfolding strcasecmp
strcasecmp-length [] [] h = refl
strcasecmp-length [] (d ∷ t) h = absurd (ground arith)
strcasecmp-length (c ∷ s) [] h = absurd (ground arith)
strcasecmp-length (c ∷ s) (d ∷ t) h = ap suc (strcasecmp-length s t (ground arith))

severity_short : (s : Str) → is_severity s ≡ true → length s < 16
unfolding is_severity
severity_short s h = ground (
  arith,
  strcasecmp-length s (codes "fatal"),
  strcasecmp-length s (codes "info"),
  strcasecmp-length s (codes "warning"),
  strcasecmp-length s (codes "error"),
  strcasecmp-length s (codes "all"),
)

put_attribute-Fits :
    (bit : ℕ) (lhs rhs : Str) (f : Filter)
    → Fits f.event
    → Fits (put_attribute bit lhs rhs f).1.event
unfolding put_attribute
put_attribute-Fits bit lhs rhs f k =
    let short = severity_short rhs in
    record {
      severity = ground (arith, k.severity, short);
      region = ground (arith, k.region);
      comp_cat = ground (arith, k.comp_cat);
      comp = ground (arith, k.comp);
      event_name = ground (arith, k.event_name);
      client_jobid = ground (arith, k.client_jobid);
      hostname = ground (arith, k.hostname);
      client_name = ground (arith, k.client_name);
    }

namespace_short :
    (s r c n : Str) → IsNamespace s r c n → (length r < 64) × (length c < 64) × (length n < 64)
namespace_short s r c n k =
    let e = ap length k.parts in
    let a = length-append {0} r (dot ∷ (c ++ dot ∷ n)) in
    let b = length-append {0} c (dot ∷ n) in
    (omega (arith, e, a, b, k.fits), omega (arith, e, a, b, k.fits), omega (arith, e, a, b, k.fits))

put_space-Result :
    (s : Str) (f : Filter) → Fits f.event → Result (λ t. t ≡ s) (put_space f (split_namespace s))
unfolding put_space code_of
put_space-Result s f k = elim (split_namespace-Outcome s) [
  | stray fits t e ↦ stopped s refl t fits (ap (put_space f) e)
  | split x y z n e ↦
      let (a, b, c) = namespace_short s x y z n in
      returned _ (ap (put_space f) e) (record {
        severity = k.severity;
        region = a;
        comp_cat = b;
        comp = c;
        event_name = k.event_name;
        client_jobid = k.client_jobid;
        hostname = k.hostname;
        client_name = k.client_name;
      })
  | refused e ↦ returned (err_eventspace_format, f) (refuse (split_namespace s) f e) k
]
  where
    refuse :
        (r : Run Split) (f : Filter)
        → code_of r ≡ some err_eventspace_format
        → put_space f r ≡ ok (err_eventspace_format, f)
    refuse crash f e = absurd (ground arith)
    refuse (ok p) f e = ground arith

put_pair-Result :
    (bit : ℕ) (lhs rhs : Str) (f : Filter)
    → Fits f.event
    → Result (λ t. (bit ≡ 4) × (t ≡ rhs)) (put_pair bit lhs rhs f)
unfolding put_pair
put_pair-Result bit lhs rhs f k = elim (Bool-cases (bit == 4)) [
  | inr other ↦
      returned (put_attribute bit lhs rhs f) (rw other refl) (put_attribute-Fits bit lhs rhs f k)
  | inl space ↦ elim (Bool-cases (leb 64 (length rhs))) [
    | inl long ↦ returned (err_eventspace_format, f) (ground arith) k
    | inr short ↦
        let same : put_pair bit lhs rhs f ≡ put_space f (split_namespace rhs) = ground arith in
        let four : bit ≡ 4 = ground arith in
        subst (Result _) (sym same) (
          widen (λ t. t ≡ rhs) (λ t. (bit ≡ 4) × (t ≡ rhs)) _ (λ t e. (four, e))
            (put_space-Result rhs f k))
  ]
]

check-Result :
    (lhs rhs : Str) (f : Filter)
    → Fits f.event
    → Result (λ t. (bit_of lhs ≡ some 4) × (t ≡ rhs)) (check_subscription_value_pair lhs rhs f)
unfolding check_subscription_value_pair
check-Result lhs rhs f k = elim (Option-cases (bit_of lhs)) [
  | inl missing ↦ returned (err_filter_attr, f) (ground arith) k
  | inr (bit, known) ↦ elim (Bool-cases (has_bit bit f.track)) [
    | inl twice ↦ returned (err_subscription_str, f) (ground arith) k
    | inr once ↦
        let g : Filter = record f { track = set_bit bit f.track } in
        let same : check_subscription_value_pair lhs rhs f ≡ put_pair bit lhs rhs g =
          ground arith in
        subst (Result _) (sym same) (
          widen (λ t. (bit ≡ 4) × (t ≡ rhs)) (λ t. (bit_of lhs ≡ some 4) × (t ≡ rhs)) _
            (λ t e. (known ∙ ap some e.0, e.1)) (put_pair-Result bit lhs rhs g k))
  ]
]

parse_pair-Result :
    (lhs rhs : Str) (f : Filter)
    → Fits f.event
    → Result (λ t. (bit_of lhs ≡ some 4) × (t ≡ rhs)) (parse_pair lhs rhs f)
unfolding parse_pair
parse_pair-Result lhs rhs f k = elim (Bool-cases (length lhs == 0 || length rhs == 0)) [
  | inl empty ↦ returned (err_subscription_str, f) (ground arith) k
  | inr full ↦ elim (Bool-cases (any_blank lhs)) [
    | inl left ↦ returned (err_filter_attr, f) (ground arith) k
    | inr clean ↦ elim (Bool-cases (any_blank rhs)) [
      | inl right ↦ returned (err_filter_value, f) (ground arith) k
      | inr tidy ↦
          let same : parse_pair lhs rhs f ≡ check_subscription_value_pair lhs rhs f =
            ground arith in
          subst (Result _) (sym same) (check-Result lhs rhs f k)
    ]
  ]
]

parse_field-Result : (s : Str) (f : Filter) → Fits f.event → Result (IsSpace s) (parse_field s f)
unfolding parse_field
parse_field-Result s f k = elim (Option-cases (cut_at b'=' s).1) [
  | inl missing ↦ returned (err_subscription_str, f) (ground arith) k
  | inr (t, rest) ↦
      let lhs = soft_trim (cut_at b'=' s).0 in
      let rhs = soft_trim (cut_at b'=' t).0 in
      let same : parse_field s f ≡ parse_pair lhs rhs f = ground arith in
      subst (Result _) (sym same) (
        widen (λ v. (bit_of lhs ≡ some 4) × (v ≡ rhs)) (IsSpace s) _
          (λ v p. record { right = t; cut = rest; attribute = p.0; value = p.1 })
          (parse_pair-Result lhs rhs f k))
]

parse_fields-Result :
    (ss : List Str) (f : Filter) → Fits f.event → Result (λ t. HasSpace t ss) (parse_fields ss f)
unfolding parse_fields then_parse
parse_fields-Result [] f k = returned (success, f) refl k
parse_fields-Result (s ∷ ss) f k = elim (parse_field-Result s f k) [
  | stopped t p w fits e ↦ stopped t (here s ss p) w fits (rw e refl)
  | returned q e fits ↦ elim (Bool-cases (is_success q.0)) [
    | inl good ↦
        let same : parse_fields (s ∷ ss) f ≡ parse_fields ss q.1 = rw (e, good) refl in
        subst (Result _) (sym same) (
          widen (λ t. HasSpace t ss) (λ t. HasSpace t (s ∷ ss)) _ (λ t p. further s ss p)
            (parse_fields-Result ss q.1 fits))
    | inr bad ↦ returned q (rw (e, bad) refl) fits
  ]
]

reset-Fits : (e : Event) → Fits (reset e).event
unfolding reset
reset-Fits e = record {
  severity = omega arith;
  region = omega arith;
  comp_cat = omega arith;
  comp = omega arith;
  event_name = omega arith;
  client_jobid = omega arith;
  hostname = omega arith;
  client_name = omega arith;
}

one_field : (s : Str) → length s ≡ 0 → length (fields s) ≤ 10
unfolding fields
one_field [] h = omega arith
one_field (c ∷ s) h = absurd (ground arith)

-- What parsing a subscription string comes to.
pub data IsParsed (s : Str) (r : Run (Code × Filter)) : Type 0 where
  overflow : 10 < length (fields s) → r ≡ crash → IsParsed s r
  within : length (fields s) ≤ 10 → Result (λ t. HasSpace t (fields s)) r → IsParsed s r

-- A subscription string with at most ten fields is parsed or refused, and every string that is written
-- to the event fits into its array with its terminating zero, unless one of its fields gives an event
-- space with too few pieces, which stops the call; with more fields than ten the call writes past the array of the fields.
pub parse_subscription_string-IsParsed :
    (s : Str) (e : Event) → IsParsed s (parse_subscription_string s e)
unfolding parse_subscription_string
parse_subscription_string-IsParsed s e = elim (Bool-cases (length s == 0)) [
  | inl empty ↦
      within (one_field s (ground arith))
        (returned (success, reset e) (ground arith) (reset-Fits e))
  | inr full ↦ elim (Bool-cases (ltb 10 (length (fields s)))) [
    | inl many ↦ overflow (ground arith) (ground arith)
    | inr few ↦
        let same : parse_subscription_string s e ≡ parse_fields (fields s) (reset e) =
          ground arith in
        within (ground arith)
          (subst (Result _) (sym same) (parse_fields-Result (fields s) (reset e) (reset-Fits e)))
  ]
]
