-- ===== src/Client/Declaring.antt =====
-- What a client has declared after FTBCI_store_declared_events.
use mathlib.Core.List.{append-nil, append_assoc}
use ftb.Prelude.{
  ◌≤◌, ◌≡◌, refl, ap, sym, subst, ◌∙◌, true, false, not, ◌||◌, List, [], ◌∷◌, ◌++◌, arith, inl, inr,
  Bool-cases, leb, length, length-append, All, All-append,
}
use ftb.Text.{strcasecmp}
use ftb.Text.Laws.{strcasecmp-IsEquality}
use ftb.Defs.{Code, success, err_general, err_invalid_field}
use ftb.Map.Laws
use ftb.Map.Laws.{Distinct}
use ftb.Client.Declared.{
  EventInfo, Declared, event_index, is_declared, check_severity_values, is_bad_name, declare,
  store_loop, store_declared_events,
}

-- An event that may be declared.
abbrev pub IsFit : EventInfo → Type 0
IsFit e = (is_bad_name e.event_name ≡ false) × (check_severity_values e.severity ≡ true)

-- The count is right and at most 100, no name stands twice, and every entry is fit.
pub record IsTable (s : Declared) : Type 0 where
  pub count : s.total_publish_events ≡ length s.declared_events_map
  pub bound : s.total_publish_events ≤ 100
  pub distinct : Distinct event_index strcasecmp s.declared_events_map
  pub fit : All IsFit s.declared_events_map

-- Why the loop ended before the entry `e`.
pub data Stop (s : Declared) (e : EventInfo) (code : Code) : Type 0 where
  full : s.total_publish_events ≡ 100 → code ≡ err_general → Stop s e code
  unfit :
      (is_bad_name e.event_name || not (check_severity_values e.severity)) ≡ true
      → code ≡ err_invalid_field
      → Stop s e code
  again : is_declared e.event_name s.declared_events_map ≡ true → code ≡ success → Stop s e code

-- The table is declared as a whole, or up to an entry at which the loop ends.
pub data IsStored (table : List EventInfo) (s t : Declared) (code : Code) : Type 0 where
  whole :
      t.declared_events_map ≡ s.declared_events_map ++ table
      → code ≡ success
      → IsStored table s t code
  part :
      (front rest : List EventInfo) (e : EventInfo)
      → table ≡ front ++ e ∷ rest
      → t.declared_events_map ≡ s.declared_events_map ++ front
      → Stop t e code
      → IsStored table s t code

declared-IsTable :
    (e : EventInfo) (s : Declared)
    → IsTable s
    → leb 100 s.total_publish_events ≡ false
    → IsFit e
    → is_declared e.event_name s.declared_events_map ≡ false
    → IsTable (declare e s) × ((declare e s).declared_events_map ≡ s.declared_events_map ++ e ∷ [])
declared-IsTable e s k room fit new =
    let added = Laws.insert_of_not_has event_index strcasecmp e s.declared_events_map new in
    rw added (
      record {
        count = omega (arith, k.count, length-append {0} s.declared_events_map (e ∷ []));
        bound = ground arith;
        distinct =
            Laws.Distinct-append event_index strcasecmp strcasecmp-IsEquality s.declared_events_map
              e k.distinct new;
        fit = All-append IsFit s.declared_events_map (e ∷ []) k.fit (fit, tt);
      },
      refl,
    )

abbrev Stored : List EventInfo → Declared → Code × Declared → Type 0
Stored table s r = IsTable r.1 × IsStored table s r.1 r.0

Stored-Stop :
    (e : EventInfo) (es : List EventInfo) (s : Declared) (code : Code) (r : Code × Declared)
    → r ≡ (code, s)
    → IsTable s
    → Stop s e code
    → Stored (e ∷ es) s r
Stored-Stop e es s code r same k stop =
    subst (Stored (e ∷ es) s) (sym same)
      (k, part [] es e refl (sym (append-nil s.declared_events_map)) stop)

-- What is stored after one more entry is stored after the whole.
IsStored-next :
    (e : EventInfo) (es : List EventInfo) (s u t : Declared) (code : Code)
    → u.declared_events_map ≡ s.declared_events_map ++ e ∷ []
    → IsStored es u t code
    → IsStored (e ∷ es) s t code
IsStored-next e es s u t code next (whole h c) =
    whole (h ∙ ap (λ r. r ++ es) next ∙ append_assoc s.declared_events_map (e ∷ []) es) c
IsStored-next e es s u t code next (part front rest x p h stop) =
    part (e ∷ front) rest x (ap (◌∷◌ e) p)
      (h ∙ ap (λ r. r ++ front) next ∙ append_assoc s.declared_events_map (e ∷ []) front) stop

loop-IsStored :
    (table : List EventInfo) (s : Declared) → IsTable s → Stored table s (store_loop table s)
unfolding store_loop
loop-IsStored [] s k = (k, whole (sym (append-nil s.declared_events_map)) refl)
loop-IsStored (e ∷ es) s k = elim (Bool-cases (leb 100 s.total_publish_events)) [
  | inl no_room ↦
      Stored-Stop e es s err_general (store_loop (e ∷ es) s) (ground arith) k
        (full (ground (arith, k.bound)) refl)
  | inr room ↦
      elim (Bool-cases (is_bad_name e.event_name || not (check_severity_values e.severity))) [
        | inl bad ↦
            Stored-Stop e es s err_invalid_field (store_loop (e ∷ es) s) (ground arith) k
              (unfit bad refl)
        | inr fit ↦ elim (Bool-cases (is_declared e.event_name s.declared_events_map)) [
          | inl old ↦
              Stored-Stop e es s success (store_loop (e ∷ es) s) (ground arith) k (again old refl)
          | inr new ↦
              let (u, next) = declared-IsTable e s k room (ground arith, ground arith) new in
              let (t, stored) = loop-IsStored es (declare e s) u in
              let same : store_loop (e ∷ es) s ≡ store_loop es (declare e s) = ground arith in
              subst (Stored (e ∷ es) s) (sym same)
                (t, IsStored-next e es s (declare e s) _ _ next stored)
        ]
      ]
]

-- A client's declared events stay at most 100, with no name twice, each with a name of at most 31 word
-- characters and one of the four severities. A table is added as a whole with success, or up to its
-- first entry that finds no room, is unfit, or has a name that is declared already; the code is an
-- error in the first two cases, and success in the third, though the rest of the table is dropped.
pub store_declared_events-IsStored :
    (table : List EventInfo) (s : Declared)
    → IsTable s
    → IsTable (store_declared_events table s).1
      × IsStored table s (store_declared_events table s).1 (store_declared_events table s).0
unfolding store_declared_events
store_declared_events-IsStored [] s k = (k, whole (sym (append-nil s.declared_events_map)) refl)
store_declared_events-IsStored (e ∷ es) s k =
    let same : store_declared_events (e ∷ es) s ≡ store_loop (e ∷ es) s = ground arith in
    subst (Stored (e ∷ es) s) (sym same) (loop-IsStored (e ∷ es) s k)
