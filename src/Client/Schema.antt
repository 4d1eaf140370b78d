-- ===== src/Client/Schema.antt =====
-- FTBCI_check_schema_file and FTBC_Declare_publishable_events of src/client_lib/ftb_client_lib.c. A
-- schema file is the list of the words that `fscanf` reads from it before it meets the end of the
-- file; `sed` has taken the comments out.
use ftb.Prelude.{
  Bool, not, ◌&&◌, List, [], ◌∷◌, Option, none, some, ◌==◌, leb, if◌then◌else◌, length,
}
use ftb.Text.{Str, codes, strcmp, strcasecmp}
use ftb.Defs.{
  Code, success, err_invalid_schema_file, err_invalid_field, err_invalid_handle, is_success,
  ClientHandle, Run, ok, crash, ◌>>=◌, max_eventspace, max_event_name,
}
use ftb.Manager.State.{Env}
use ftb.Client.Namespace.{Split, split_namespace}
use ftb.Client.Filter.{or_empty}
use ftb.Client.Declared.{EventInfo, check_severity_values, store_declared_events}
use ftb.Client.Library.{Library, Feed, lookup_client_info, change_client, check_progress}
use ftb.Client.Publishing.{declare_table}

-- state_t: `found_eventname` holds the name that einfo has.
pub data SchemaState : Type 0 where
  init in_struct found_eventspace empty : SchemaState
  found_eventname : Str → SchemaState

-- A word that ends the call with a code, or the state after it.
pub data Reading : Type 0 where
  refuse : Code → Library → Reading
  read : SchemaState → Library → Reading

abbrev pub start_word : Str
start_word = codes "start"

abbrev pub end_word : Str
end_word = codes "end"

-- The event space of the file is that of the client.
unfoldable pub is_own_space : ClientHandle → Split → Bool
is_own_space handle p =
    strcasecmp handle.client_id.region (or_empty p.region_name)
    && strcasecmp handle.client_id.comp_cat (or_empty p.category_name)
    && strcasecmp handle.client_id.comp (or_empty p.component_name)

unfoldable pub read_eventspace : ClientHandle → Str → Library → Run Reading
unfolding is_own_space
read_eventspace handle str lib =
    if leb max_eventspace (length str)
    then ok (refuse err_invalid_schema_file lib)
    else split_namespace str >>= λ p.
        if is_success p.code && is_own_space handle p
        then ok (read found_eventspace lib)
        else ok (refuse err_invalid_schema_file lib)

-- FTBCI_store_declared_events with a table of one event.
unfoldable pub read_severity : ClientHandle → Str → Str → Library → Run Reading
read_severity handle name str lib =
    if not (check_severity_values str)
    then ok (refuse err_invalid_field lib)
    else lookup_client_info handle lib (λ ret. refuse ret lib)
        (λ c.
          let r =
            store_declared_events (record { event_name = name; severity = str } ∷ []) c.declared in
          let stored = change_client handle (λ x. record x { declared = r.1 }) lib in
          ok (if is_success r.0 then read found_eventspace stored else refuse r.0 stored))

-- A word inside the structure; a name that is too long is written past its array.
unfoldable pub read_inside : ClientHandle → SchemaState → Str → Library → Run Reading
unfolding read_eventspace read_severity
read_inside handle in_struct str lib = read_eventspace handle str lib
read_inside handle found_eventspace str lib =
    if leb max_event_name (length str) then crash else ok (read (found_eventname str) lib)
read_inside handle (found_eventname name) str lib = read_severity handle name str lib
read_inside handle state str lib = ok (read state lib)

abbrev pub is_outside : SchemaState → Bool
is_outside init = Bool.true
is_outside empty = Bool.true
is_outside _ = Bool.false

unfoldable pub read_word : ClientHandle → SchemaState → Str → Library → Run Reading
unfolding read_inside
read_word handle state str lib =
    if is_outside state
    then ok (read (if strcmp str start_word then in_struct else state) lib)
    else if strcmp str end_word
    then ok (read init lib)
    else read_inside handle state str lib

-- The code at the end of the file.
abbrev pub end_of_file : SchemaState → Code
end_of_file init = success
end_of_file _ = err_invalid_schema_file

abbrev pub go_on :
    Run Reading → (SchemaState → Library → Run (Code × Library)) → Run (Code × Library)
go_on crash next = crash
go_on (ok (refuse ret lib)) next = ok (ret, lib)
go_on (ok (read state lib)) next = next state lib

unfoldable pub read_words : ClientHandle → SchemaState → List Str → Library → Run (Code × Library)
unfolding read_word
read_words handle state [] lib = ok (end_of_file state, lib)
read_words handle state (str ∷ words) lib =
    go_on (read_word handle state str lib) (λ next left. read_words handle next words left)

unfoldable pub check_schema_file : ClientHandle → List Str → Library → Run (Code × Library)
unfolding read_words
check_schema_file handle words lib = read_words handle empty words lib

module _ (env : Env) where
  unfoldable pub declare_publishable_events :
      ClientHandle → Option (List Str) → List EventInfo → Feed → Library → Run (Code × Library)
  unfolding check_schema_file
  declare_publishable_events handle schema_file einfo feed lib =
      if not (handle.valid == 1) then ok (err_invalid_handle, lib) else elim schema_file [
        | none ↦ declare_table handle einfo lib
        | some words ↦ check_schema_file handle words lib >>= λ r.
            if is_success r.0
            then (check_progress env feed r.1 >>= λ q. ok (success, q.1))
            else ok r
      ]
