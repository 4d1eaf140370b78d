-- ===== src/Client/Namespace.antt =====
-- FTBCI_split_namespace of src/client_lib/ftb_client_lib.c: an event space, cut at its dots.
use ftb.Prelude.{
  ℕ, not, ◌||◌, [], ◌∷◌, Option, none, some, ◌==◌, leb, if◌then◌else◌, is_some, length,
}
use ftb.Text.{Str, strcmp}
use ftb.Defs.{Code, success, err_eventspace_format, Run, ok, crash, max_eventspace}
use ftb.Auxil.{check_alphanumeric_underscore_format}

abbrev pub dot : ℕ
dot = b'.'

-- The code, and what is written to each of the three arguments.
pub record Split : Type 0 where
  pub code : Code
  pub region_name : Option Str
  pub category_name : Option Str
  pub component_name : Option Str

-- `strsep(&s, ".")`: the string before the first dot, and what `s` points to then.
unfoldable pub strsep : Str → Str × Option Str
strsep [] = ([], none)
strsep (c ∷ s) = let (str, rest) = strsep s in if c == dot then ([], some s) else (c ∷ str, rest)

-- From the third piece on.
unfoldable pub split_component : Str → Str → Str × Option Str → Run Split
split_component region category (str, rest) =
    if strcmp str []
    then ok (record {
      code = err_eventspace_format;
      region_name = some region;
      category_name = some category;
      component_name = none;
    })
    else ok (record {
      code =
          if is_some rest
            || not (check_alphanumeric_underscore_format region)
            || not (check_alphanumeric_underscore_format category)
            || not (check_alphanumeric_underscore_format str)
          then err_eventspace_format
          else success;
      region_name = some region;
      category_name = some category;
      component_name = some str;
    })

-- From the second piece on: `strcmp` follows the rest, which is a null pointer after the last dot.
unfoldable pub split_category : Str → Str × Option Str → Run Split
unfolding strsep split_component
split_category region (str, rest) =
    let bad : Split = record {
      code = err_eventspace_format;
      region_name = some region;
      category_name = none;
      component_name = none;
    } in
    if strcmp str [] then ok bad else elim rest [
      | none ↦ crash
      | some tempstr ↦
          if strcmp tempstr [] then ok bad else split_component region str (strsep tempstr)
    ]

unfoldable pub split_region : Str × Option Str → Run Split
unfolding strsep split_category
split_region (str, rest) =
    let bad : Split = record {
      code = err_eventspace_format;
      region_name = none;
      category_name = none;
      component_name = none;
    } in
    if strcmp str [] then ok bad else elim rest [
      | none ↦ crash
      | some tempstr ↦ if strcmp tempstr [] then ok bad else split_category str (strsep tempstr)
    ]

unfoldable pub split_namespace : Str → Run Split
unfolding strsep split_region
split_namespace event_space =
    if leb max_eventspace (length event_space)
    then ok (record {
      code = err_eventspace_format;
      region_name = none;
      category_name = none;
      component_name = none;
    })
    else split_region (strsep event_space)
