-- ===== src/Client/Declared.antt =====
-- FTBCI_check_severity_values and FTBCI_store_declared_events of src/client_lib/ftb_client_lib.c: the
-- events that a client says it will publish. `total_publish_events` is a count that never passes 100.
use ftb.Prelude.{ℕ, ◌+◌, Bool, not, ◌||◌, List, [], ◌∷◌, ◌==◌, leb, if◌then◌else◌, length}
use ftb.Text.{Str, codes, strcasecmp}
use ftb.Defs.{Code, success, err_general, err_invalid_field, max_event_name}
use ftb.Auxil.{check_alphanumeric_underscore_format}
use ftb.Map

abbrev pub max_events_per_client : ℕ
max_events_per_client = 100

-- FTB_event_info_t, and a node of the map of declared events: the name is the key.
pub record EventInfo : Type 0 where
  pub event_name : Str
  pub severity : Str

-- The two fields of FTBCI_client_info_t.
pub record Declared : Type 0 where
  pub declared_events_map : List EventInfo
  pub total_publish_events : ℕ

abbrev pub event_index : EventInfo → Str
event_index e = e.event_name

abbrev pub is_declared : Str → List EventInfo → Bool
is_declared = Map.has event_index strcasecmp

unfoldable pub check_severity_values : Str → Bool
check_severity_values severity =
    strcasecmp severity (codes "fatal")
    || strcasecmp severity (codes "info")
    || strcasecmp severity (codes "warning")
    || strcasecmp severity (codes "error")

unfoldable pub is_bad_name : Str → Bool
is_bad_name name =
    leb max_event_name (length name) || not (check_alphanumeric_underscore_format name)

abbrev pub declare : EventInfo → Declared → Declared
declare e s = record {
  declared_events_map = (Map.insert event_index strcasecmp e s.declared_events_map).1;
  total_publish_events = s.total_publish_events + 1;
}

-- The loop over the table. A name that is declared already ends it with success.
unfoldable pub store_loop : List EventInfo → Declared → Code × Declared
unfolding check_severity_values is_bad_name
store_loop [] s = (success, s)
store_loop (e ∷ es) s =
    let rest = store_loop es (declare e s) in
    if leb max_events_per_client s.total_publish_events
    then (err_general, s)
    else if is_bad_name e.event_name
    then (err_invalid_field, s)
    else if not (check_severity_values e.severity)
    then (err_invalid_field, s)
    else if is_declared e.event_name s.declared_events_map
    then (success, s)
    else rest

-- A table of `num_events` entries.
unfoldable pub store_declared_events : List EventInfo → Declared → Code × Declared
unfolding store_loop
store_declared_events event_table s =
    if length event_table == 0 then (success, s) else store_loop event_table s
