-- ===== src/Match/Laws.antt =====
-- The comparisons of src/util/ftb_util.c are equality tests, and masks that compare equal match
-- the same events.
use ftb.Prelude.{
  ◌≡◌, ◌∙◌, ◌↔◌, ◌⊎◌, Bool, true, false, ◌&&◌, arith, ◌==◌, IsEquality, IsEquality-and,
  IsEquality-on, IsEquality-nat,
}
use ftb.Text.{Str, strcasecmp}
use ftb.Text.Laws.{strcasecmp-IsEquality, strncasecmp-IsEquality}
use ftb.Defs.{Event, LocationId, FtbId, ClientHandle, max_host_addr, max_pid_time}
use ftb.Match.{
  all, match_mask, is_equal_location_id, is_equal_clienthandle, is_equal_ftb_id, is_equal_event,
  is_equal_event_mask,
}

-- The test on a string field is an equality.
module _ {ℓ} {K : Type ℓ} where
  field-IsEquality : (g : K → Str) → IsEquality (λ a b. strcasecmp (g a) (g b))
  field-IsEquality g = IsEquality-on strcasecmp-IsEquality g

  -- A test that agrees with an equality is one.
  IsEquality-same :
      {eq same : K → K → Bool} → IsEquality same → ((a b : K) → eq a b ≡ same a b) → IsEquality eq
  IsEquality-same h e = record {
    is_refl = λ a. ground (arith, e a a, h.is_refl a);
    is_sym = λ a b. ground (arith, e a b, e b a, h.is_sym a b);
    is_cong = λ a b c p. ground (arith, e a b, e a c, e b c, h.is_cong a b c);
  }

pub is_equal_location_id-IsEquality : IsEquality is_equal_location_id
unfolding is_equal_location_id
is_equal_location_id-IsEquality =
    IsEquality-same
      (IsEquality-and (IsEquality-on IsEquality-nat (λ (l : LocationId). l.pid)) (
        IsEquality-and
          (IsEquality-on (strncasecmp-IsEquality max_host_addr) (λ (l : LocationId). l.hostname))
          (IsEquality-on (strncasecmp-IsEquality max_pid_time)
            (λ (l : LocationId). l.pid_starttime))))
      (λ a b. ground arith)

client_id-IsEquality : IsEquality (λ (a : FtbId) b.
    strcasecmp a.client_id.comp_cat b.client_id.comp_cat
    && strcasecmp a.client_id.comp b.client_id.comp
    && strcasecmp a.client_id.client_name b.client_id.client_name
    && a.client_id.ext == b.client_id.ext)
client_id-IsEquality =
    IsEquality-and
      (IsEquality-and
        (IsEquality-and (field-IsEquality (λ (a : FtbId). a.client_id.comp_cat))
          (field-IsEquality (λ a. a.client_id.comp)))
        (field-IsEquality (λ a. a.client_id.client_name)))
      (IsEquality-on IsEquality-nat (λ a. a.client_id.ext))

pub is_equal_ftb_id-IsEquality : IsEquality is_equal_ftb_id
unfolding is_equal_ftb_id
is_equal_ftb_id-IsEquality =
    IsEquality-same
      (IsEquality-and client_id-IsEquality
        (IsEquality-on is_equal_location_id-IsEquality (λ (a : FtbId). a.location_id)))
      (λ a b. ground arith)

pub is_equal_clienthandle-IsEquality : IsEquality is_equal_clienthandle
unfolding is_equal_clienthandle
is_equal_clienthandle-IsEquality =
    IsEquality-same
      (IsEquality-and
        (IsEquality-and
          (IsEquality-and (field-IsEquality (λ (a : ClientHandle). a.client_id.comp_cat))
            (field-IsEquality (λ a. a.client_id.comp)))
          (field-IsEquality (λ a. a.client_id.client_name)))
        (IsEquality-on IsEquality-nat (λ a. a.client_id.ext)))
      (λ a b. ground arith)

pub is_equal_event-IsEquality : IsEquality is_equal_event
unfolding is_equal_event
is_equal_event-IsEquality =
    IsEquality-same
      (IsEquality-and
        (IsEquality-and
          (IsEquality-and (field-IsEquality (λ (a : Event). a.severity))
            (field-IsEquality (λ a. a.comp_cat)))
          (field-IsEquality (λ a. a.comp)))
        (field-IsEquality (λ a. a.event_name)))
      (λ a b. ground arith)

-- The eight fields that a mask is compared by.
pub record SameMask (m n : Event) : Type 0 where
  pub severity : strcasecmp m.severity n.severity ≡ true
  pub comp_cat : strcasecmp m.comp_cat n.comp_cat ≡ true
  pub comp : strcasecmp m.comp n.comp ≡ true
  pub client_name : strcasecmp m.client_name n.client_name ≡ true
  pub client_jobid : strcasecmp m.client_jobid n.client_jobid ≡ true
  pub hostname : strcasecmp m.hostname n.hostname ≡ true
  pub region : strcasecmp m.region n.region ≡ true
  pub event_name : strcasecmp m.event_name n.event_name ≡ true

pub SameMask-of : (m n : Event) → is_equal_event_mask m n ≡ true → SameMask m n
unfolding is_equal_event_mask
SameMask-of m n h = ground arith

pub is_equal_event_mask-IsEquality : IsEquality is_equal_event_mask
unfolding is_equal_event_mask
is_equal_event_mask-IsEquality =
    IsEquality-same
      (IsEquality-and
        (IsEquality-and
          (IsEquality-and
            (IsEquality-and
              (IsEquality-and
                (IsEquality-and
                  (IsEquality-and (field-IsEquality (λ (a : Event). a.severity))
                    (field-IsEquality (λ a. a.comp_cat)))
                  (field-IsEquality (λ a. a.comp)))
                (field-IsEquality (λ a. a.client_name)))
              (field-IsEquality (λ a. a.client_jobid)))
            (field-IsEquality (λ a. a.hostname)))
          (field-IsEquality (λ a. a.region)))
        (field-IsEquality (λ a. a.event_name)))
      (λ a b. ground arith)

open strcasecmp-IsEquality use {is_sym as case_sym, is_cong as case_cong}

-- Equal fields of two masks accept the same field of an event.
same_test : (x m n : Str) → strcasecmp m n ≡ true → strcasecmp x m ≡ strcasecmp x n
same_test x m n h = ground (arith, case_sym x m, case_sym x n, case_cong m n x)

-- Masks that compare equal match the same events.
pub match_mask_mask :
    (e m n : Event) → is_equal_event_mask m n ≡ true → match_mask e m ≡ match_mask e n
unfolding match_mask
match_mask_mask e m n h =
    let s = SameMask-of m n h in
    rw (
      same_test e.region m.region n.region s.region,
      case_cong m.region n.region all s.region,
      same_test e.client_jobid m.client_jobid n.client_jobid s.client_jobid,
      case_cong m.client_jobid n.client_jobid all s.client_jobid,
      same_test e.client_name m.client_name n.client_name s.client_name,
      case_cong m.client_name n.client_name all s.client_name,
      same_test e.hostname m.hostname n.hostname s.hostname,
      case_cong m.hostname n.hostname all s.hostname,
      same_test e.event_name m.event_name n.event_name s.event_name,
      case_cong m.event_name n.event_name all s.event_name,
      same_test e.severity m.severity n.severity s.severity,
      case_cong m.severity n.severity all s.severity,
      same_test e.comp_cat m.comp_cat n.comp_cat s.comp_cat,
      case_cong m.comp_cat n.comp_cat all s.comp_cat,
      same_test e.comp m.comp n.comp s.comp,
      case_cong m.comp n.comp all s.comp,
    )

-- Events that agree in every field of a mask are matched by the same masks.
match_mask_event :
    (e f m : Event) → is_equal_event_mask e f ≡ true → match_mask e m ≡ match_mask f m
unfolding match_mask
match_mask_event e f m h =
    let s = SameMask-of e f h in
    rw (
      case_cong e.region f.region m.region s.region,
      case_cong e.client_jobid f.client_jobid m.client_jobid s.client_jobid,
      case_cong e.client_name f.client_name m.client_name s.client_name,
      case_cong e.hostname f.hostname m.hostname s.hostname,
      case_cong e.event_name f.event_name m.event_name s.event_name,
      case_cong e.severity f.severity m.severity s.severity,
      case_cong e.comp_cat f.comp_cat m.comp_cat s.comp_cat,
      case_cong e.comp f.comp m.comp s.comp,
    )

-- Whether an event matches a mask depends only on the eight compared fields of both, without case:
-- equal events and equal masks match alike.
pub match_mask_cong :
    (e f m n : Event)
    → is_equal_event_mask e f ≡ true
    → is_equal_event_mask m n ≡ true
    → match_mask e m ≡ match_mask f n
match_mask_cong e f m n h k = match_mask_event e f m h ∙ match_mask_mask f m n k

-- A field of the event is the wanted one, or any will do.
abbrev pub Accepts : Str → Str → Type 0
Accepts field wanted = (strcasecmp field wanted ≡ true) ⊎ (strcasecmp wanted all ≡ true)

-- The rule of the source's comments: a mask that names an event decides by the name alone, and
-- severity and component count only where the name is the wildcard.
pub record Matches (e m : Event) : Type 0 where
  pub region : Accepts e.region m.region
  pub client_jobid : Accepts e.client_jobid m.client_jobid
  pub client_name : Accepts e.client_name m.client_name
  pub hostname : Accepts e.hostname m.hostname
  pub event :
      ((strcasecmp m.event_name all ≡ false) × (strcasecmp e.event_name m.event_name ≡ true))
      ⊎ ((strcasecmp m.event_name all ≡ true)
          × Accepts e.severity m.severity
          × Accepts e.comp_cat m.comp_cat
          × Accepts e.comp m.comp)

-- `FTBU_match_mask` accepts exactly the events that the rule `Matches` describes.
pub match_mask-Matches_iff : (e m : Event) → (match_mask e m ≡ true) ↔ Matches e m
unfolding match_mask
match_mask-Matches_iff e m = (λ h. ground arith, λ h. ground arith)
