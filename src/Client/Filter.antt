-- ===== src/Client/Filter.antt =====
-- FTBCI_check_subscription_value_pair and FTBCI_parse_subscription_string of
-- src/client_lib/ftb_client_lib.c: the mask that a subscription string asks for. The static variable
-- `track` is a part of the state; a string that is no null pointer is parsed.
use ftb.Prelude.{
  ℕ, ◌+◌, ◌/◌, ◌%◌, Bool, false, not, ◌||◌, List, [], ◌∷◌, Option, none, some, ◌==◌, leb, ltb,
  if◌then◌else◌, length,
}
use ftb.Text.{Str, codes, strcasecmp}
use ftb.Defs.{
  Code, success, err_subscription_str, err_filter_attr, err_filter_value, err_eventspace_format,
  is_success, Event, Run, ok, crash, max_eventspace, max_client_jobid, max_host_addr,
  max_event_name, max_client_name,
}
use ftb.Auxil.{check_alphanumeric_underscore_format, is_blank, soft_trim}
use ftb.Client.Namespace.{Split, split_namespace}

pub record Filter : Type 0 where
  pub track : ℕ
  pub event : Event

-- `track & bit` and `track | bit`, for a power of two.
abbrev pub has_bit : ℕ → ℕ → Bool
has_bit bit track = track / bit % 2 == 1

abbrev pub set_bit : ℕ → ℕ → ℕ
set_bit bit track = if has_bit bit track then track else track + bit

abbrev pub all_lower : Str
all_lower = codes "all"

-- The call with two empty strings.
unfoldable pub reset : Event → Filter
reset event = record {
  track = 1;
  event = record event {
    severity = all_lower;
    region = all_lower;
    comp_cat = all_lower;
    comp = all_lower;
    event_name = all_lower;
    client_jobid = all_lower;
    hostname = all_lower;
    client_name = all_lower;
  };
}

unfoldable pub is_severity : Str → Bool
is_severity rhs =
    strcasecmp rhs (codes "fatal")
    || strcasecmp rhs (codes "info")
    || strcasecmp rhs (codes "warning")
    || strcasecmp rhs (codes "error")
    || strcasecmp rhs (codes "all")

-- An attribute whose value is refused, or written to its field.
abbrev pub put_value : Bool → Code → Event → Filter → Code × Filter
put_value bad code event f = if bad then (code, f) else (success, record f { event = event })

abbrev pub or_empty : Option Str → Str
or_empty none = []
or_empty (some s) = s

-- The three parts of an event space.
unfoldable pub put_space : Filter → Run Split → Run (Code × Filter)
put_space f crash = crash
put_space f (ok p) =
    if is_success p.code
    then ok (
      success,
      record f {
        event = record (f.event) {
          region = or_empty p.region_name;
          comp_cat = or_empty p.category_name;
          comp = or_empty p.component_name;
        };
      },
    )
    else ok (err_eventspace_format, f)

-- The attributes that are not an event space, once the bit is set.
unfoldable pub put_attribute : ℕ → Str → Str → Filter → Code × Filter
unfolding is_severity
put_attribute bit lhs rhs f =
    if bit == 2
    then put_value (not (is_severity rhs)) err_filter_value (record (f.event) { severity = rhs }) f
    else if bit == 8
    then put_value (leb max_client_jobid (length rhs)) err_filter_value
        (record (f.event) { client_jobid = rhs }) f
    else if bit == 16
    then put_value (leb max_host_addr (length rhs)) err_filter_value
        (record (f.event) { hostname = rhs }) f
    else if bit == 32
    then put_value
        (leb max_event_name (length rhs) || not (check_alphanumeric_underscore_format lhs))
        err_filter_value (record (f.event) { event_name = rhs }) f
    else put_value
        (leb max_client_name (length rhs) || not (check_alphanumeric_underscore_format lhs))
        err_filter_value (record (f.event) { client_name = rhs }) f

-- The bit of an attribute.
unfoldable pub bit_of : Str → Option ℕ
bit_of lhs =
    if strcasecmp lhs (codes "severity")
    then some 2
    else if strcasecmp lhs (codes "event_space")
    then some 4
    else if strcasecmp lhs (codes "jobid")
    then some 8
    else if strcasecmp lhs (codes "host_name")
    then some 16
    else if strcasecmp lhs (codes "event_name")
    then some 32
    else if strcasecmp lhs (codes "client_name")
    then some 64
    else none

unfoldable pub put_pair : ℕ → Str → Str → Filter → Run (Code × Filter)
unfolding put_space put_attribute
put_pair bit lhs rhs f =
    if bit == 4
    then (if leb max_eventspace (length rhs)
        then ok (err_eventspace_format, f)
        else put_space f (split_namespace rhs))
    else ok (put_attribute bit lhs rhs f)

-- For a pair that is not empty.
unfoldable pub check_subscription_value_pair : Str → Str → Filter → Run (Code × Filter)
unfolding bit_of put_pair
check_subscription_value_pair lhs rhs f = elim (bit_of lhs) [
  | none ↦ ok (err_filter_attr, f)
  | some bit ↦
      if has_bit bit f.track
      then ok (err_subscription_str, f)
      else put_pair bit lhs rhs (record f { track = set_bit bit f.track })
]

-- `strsep` at another character: the string before the first one, and the rest.
unfoldable pub cut_at : ℕ → Str → Str × Option Str
cut_at d [] = ([], none)
cut_at d (c ∷ s) = let (str, rest) = cut_at d s in if c == d then ([], some s) else (c ∷ str, rest)

unfoldable pub push_front : ℕ → List Str → List Str
push_front c [] = []
push_front c (s ∷ ss) = (c ∷ s) ∷ ss

-- What the loop over `strsep(&tempstr, ",")` puts into `pair`.
unfoldable pub fields : Str → List Str
unfolding push_front
fields [] = [] ∷ []
fields (c ∷ s) = let rest = fields s in if c == b',' then [] ∷ rest else push_front c rest

unfoldable pub any_blank : Str → Bool
any_blank [] = false
any_blank (c ∷ s) = is_blank c || any_blank s

-- The two sides of a field, once they are trimmed.
unfoldable pub parse_pair : Str → Str → Filter → Run (Code × Filter)
unfolding check_subscription_value_pair any_blank
parse_pair lhs rhs f =
    if length lhs == 0 || length rhs == 0
    then ok (err_subscription_str, f)
    else if any_blank lhs
    then ok (err_filter_attr, f)
    else if any_blank rhs
    then ok (err_filter_value, f)
    else check_subscription_value_pair lhs rhs f

-- One round of the loop over the fields.
unfoldable pub parse_field : Str → Filter → Run (Code × Filter)
unfolding cut_at parse_pair
parse_field pair f =
    let (lhs, rest) = cut_at b'=' pair in
    elim rest [
      | none ↦ ok (err_subscription_str, f)
      | some t ↦ parse_pair (soft_trim lhs) (soft_trim (cut_at b'=' t).0) f
    ]

-- The loop stops at the first error.
unfoldable pub then_parse :
    Run (Code × Filter) → (Filter → Run (Code × Filter)) → Run (Code × Filter)
then_parse crash next = crash
then_parse (ok r) next = if is_success r.0 then next r.1 else ok r

unfoldable pub parse_fields : List Str → Filter → Run (Code × Filter)
unfolding parse_field then_parse
parse_fields [] f = ok (success, f)
parse_fields (s ∷ ss) f = then_parse (parse_field s f) (λ g. parse_fields ss g)

-- `pair` has 10 cells, and more fields than that are written before they are counted.
unfoldable pub parse_subscription_string : Str → Event → Run (Code × Filter)
unfolding reset fields parse_fields
parse_subscription_string subscription_str event =
    if length subscription_str == 0
    then ok (success, reset event)
    else if ltb 10 (length (fields subscription_str))
    then crash
    else parse_fields (fields subscription_str) (reset event)
