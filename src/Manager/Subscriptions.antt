-- ===== src/Manager/Subscriptions.antt =====
-- FTBM_Register_subscription, FTBM_Cancel_subscription, the two operations on publishable events
-- and FTBM_Get_catcher_comp_list of src/manager_lib/ftb_manager_lib.c.
use ftb.Prelude.{
  ℕ, ◌+◌, ◌-◌, not, List, [], ◌∷◌, Option, none, some, ◌==◌, if◌then◌else◌, set, replicate,
}
use ftb.Defs.{
  Code, success, err_general, err_not_supported, err_invalid_parameter, FtbId, Event,
  reg_subscription,
}
use ftb.Match.{match_mask, is_equal_ftb_id, is_equal_event_mask}
use ftb.Map
use ftb.Map.{Status, done, exist, not_exist}
use ftb.Manager.State.{
  Comp, CatchEntry, Manager, Env, Run, ok, crash, comp_id, entry_mask, self_id, self_mask,
  find_entry, has_id, lookup_component,
}
use ftb.Manager.Propagation.{reg_propagation, remove_com_from_catch_map}

-- The component that the table of peers holds for `comp` has the set `masks` now.
abbrev pub put_masks : Comp → List Event → Manager → Manager
put_masks comp masks s = record s {
  peers =
      Map.update comp_id is_equal_ftb_id comp.id (λ c. record c { catch_event_set = masks })
        s.peers;
}

module _ (env : Env) where
  -- The second half of FTBM_Register_subscription: `key` is what the mask that was inserted in the
  -- component's set reads as.
  unfoldable pub enter_catch_map : Comp → FtbId → Event → Event → Manager → Manager
  enter_catch_map comp id event key s = elim (find_entry key s.catch_event_map) [
    | none ↦
        let entry : CatchEntry = record { mask = event; comps = comp.id ∷ [] } in
        reg_propagation env reg_subscription event id.location_id (record s {
          catch_event_map = (Map.insert entry_mask is_equal_event_mask entry s.catch_event_map).1;
        })
    | some entry ↦
        let inserted = Map.insert self_id is_equal_ftb_id comp.id entry.comps in
        elim inserted.0 [
          | exist ↦ s
          | _ ↦ reg_propagation env reg_subscription event id.location_id (record s {
            catch_event_map =
                Map.update entry_mask is_equal_event_mask key (λ e. record e { comps = inserted.1 })
                  s.catch_event_map;
          })
        ]
  ]

  -- A mask that the component has already is freed, and read after that.
  unfoldable pub subscribe : Comp → FtbId → Event → Manager → Manager
  unfolding enter_catch_map
  subscribe comp id event s =
      let inserted = Map.insert self_mask is_equal_event_mask event comp.catch_event_set in
      elim inserted.0 [
        | exist ↦ enter_catch_map comp id event (env.freed event) s
        | _ ↦ enter_catch_map comp id event event (put_masks comp inserted.1 s)
      ]

  unfoldable pub register_subscription : FtbId → Event → Manager → Code × Manager
  unfolding subscribe
  register_subscription id event s =
      if not s.initialized
      then (err_general, s)
      else if not (s.leaf == 0)
      then (err_not_supported, s)
      else elim (lookup_component id s) [
        | none ↦ (err_invalid_parameter, s)
        | some comp ↦ (success, subscribe comp id event s)
      ]

  -- FTBM_Cancel_subscription, once the component is found.
  unfoldable pub unsubscribe : Comp → Event → Manager → Manager
  unsubscribe comp event s =
      elim (Map.find_key self_mask is_equal_event_mask event comp.catch_event_set) [
        | none ↦ s
        | some mask ↦
            let rest = Map.remove_node self_mask is_equal_event_mask event comp.catch_event_set in
            remove_com_from_catch_map env comp mask (put_masks comp rest s)
      ]

  unfoldable pub cancel_subscription : FtbId → Event → Manager → Code × Manager
  unfolding unsubscribe
  cancel_subscription id event s =
      if not s.initialized
      then (err_general, s)
      else if not (s.leaf == 0)
      then (err_not_supported, s)
      else elim (lookup_component id s) [
        | none ↦ (err_invalid_parameter, s)
        | some comp ↦ (success, unsubscribe comp event s)
      ]

unfoldable pub register_publishable_event : FtbId → Event → Manager → Code × Manager
register_publishable_event id event s =
    if not s.initialized
    then (err_general, s)
    else if not (s.leaf == 0)
    then (err_not_supported, s)
    else elim (lookup_component id s) [ none ↦ (err_invalid_parameter, s) | some _ ↦ (success, s) ]

unfoldable pub publishable_event_registration_cancel : FtbId → Event → Manager → Code × Manager
publishable_event_registration_cancel id event s =
    if not s.initialized
    then (err_general, s)
    else if not (s.leaf == 0)
    then (err_not_supported, s)
    else elim (lookup_component id s) [ none ↦ (err_invalid_parameter, s) | some _ ↦ (success, s) ]

-- The deliver set and its count, `temp_len`.
pub record Catchers : Type 0 where
  pub catcher_set : List FtbId
  pub temp_len : ℕ

-- The body of the inner loop of FTBM_Get_catcher_comp_list.
unfoldable pub add_catcher : FtbId → Catchers → Catchers
add_catcher id r = if has_id id r.catcher_set then r else record {
  catcher_set = (Map.insert self_id is_equal_ftb_id id r.catcher_set).1;
  temp_len = r.temp_len + 1;
}

-- The inner loop, over the components of one mask.
unfoldable pub collect_comps : List FtbId → Catchers → Catchers
unfolding add_catcher
collect_comps [] r = r
collect_comps (id ∷ ids) r = collect_comps ids (add_catcher id r)

-- The outer loop, over the masks.
unfoldable pub collect_masks : Event → List CatchEntry → Catchers → Catchers
unfolding collect_comps
collect_masks event [] r = r
collect_masks event (e ∷ es) r =
    collect_masks event es (if match_mask event e.mask then collect_comps e.comps r else r)

-- The copy loop: each id goes to the index below the last one. `none` is memory not yet written.
unfoldable pub copy_ids : List FtbId → ℕ → List (Option FtbId) → List (Option FtbId)
copy_ids [] temp_len list = list
copy_ids (id ∷ ids) temp_len list = copy_ids ids (temp_len - 1) (set list (temp_len - 1) (some id))

abbrev pub no_catchers : Catchers
no_catchers = record { catcher_set = []; temp_len = 0 }

-- The code, the allocated list and its length. A leaf has no catch map to walk.
unfoldable pub get_catcher_comp_list : Event → Manager → Run (Code × List (Option FtbId) × ℕ)
unfolding collect_masks copy_ids
get_catcher_comp_list event s =
    if not s.initialized
    then ok (err_general, [], 0)
    else if not (s.leaf == 0)
    then crash
    else let r = collect_masks event s.catch_event_map no_catchers in
      ok (success, copy_ids r.catcher_set r.temp_len (replicate r.temp_len none), r.temp_len)
