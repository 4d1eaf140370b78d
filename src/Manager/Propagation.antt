-- ===== src/Manager/Propagation.antt =====
-- FTBMI_util_reg_propagation, FTBMI_util_remove_com_from_catch_map and FTBMI_util_clean_component
-- of src/manager_lib/ftb_manager_lib.c.
use ftb.Prelude.{not, ◌||◌, List, [], ◌∷◌, none, some, if◌then◌else◌}
use ftb.Defs.{Code, LocationId, FtbId, Event, Msg, MsgType, subscription_cancel}
use ftb.Match.{is_equal_location_id, is_equal_ftb_id, is_equal_event_mask}
use ftb.Map
use ftb.Map.{Status, done, exist, not_exist}
use ftb.Manager.State.{
  Comp, CatchEntry, send, Manager, Env, entry_mask, self_id, find_entry, is_agent,
}

module _ (env : Env) where
  -- `FTBN_Send_msg`: the answer, and the call noted.
  unfoldable pub send_msg : Msg → Manager → Code × Manager
  send_msg msg s = (env.send_result s.log msg, record s { log = send msg ∷ s.log })

  -- The message of a registration to the peer `id`.
  unfoldable pub reg_msg : MsgType → Event → FtbId → Manager → Msg
  reg_msg msg_type event id s = record {
    msg_type = msg_type;
    src = s.self;
    dst = id;
    event = event;
  }

  unfoldable pub propagate_to : List Comp → MsgType → Event → LocationId → Manager → Manager
  unfolding send_msg reg_msg
  propagate_to [] msg_type event incoming s = s
  propagate_to (c ∷ cs) msg_type event incoming s = propagate_to cs msg_type event incoming (
      if not (is_agent c.id) || is_equal_location_id c.id.location_id incoming
      then s
      else (send_msg (reg_msg msg_type event c.id s) s).1)

  unfoldable pub reg_propagation : MsgType → Event → LocationId → Manager → Manager
  unfolding propagate_to
  reg_propagation msg_type event incoming s = propagate_to s.peers msg_type event incoming s

  -- What follows once the component is out of the entry's map, whose nodes are now `rest`.
  unfoldable pub shrink_entry : Comp → Event → CatchEntry → List FtbId → Manager → Manager
  shrink_entry comp mask entry rest s =
      if Map.is_empty rest
      then reg_propagation subscription_cancel entry.mask comp.id.location_id (record s {
        catch_event_map = Map.remove_node entry_mask is_equal_event_mask mask s.catch_event_map;
      })
      else record s {
        catch_event_map =
            Map.update entry_mask is_equal_event_mask mask (λ e. record e { comps = rest })
              s.catch_event_map;
      }

  unfoldable pub remove_com_from_catch_map : Comp → Event → Manager → Manager
  unfolding shrink_entry
  remove_com_from_catch_map comp mask s = elim (find_entry mask s.catch_event_map) [
    | none ↦ s
    | some entry ↦
        let removed = Map.remove_key self_id is_equal_ftb_id comp.id entry.comps in
        elim removed.0 [ not_exist ↦ s | _ ↦ shrink_entry comp mask entry removed.1 s ]
  ]

  -- The loop over the masks of the component.
  unfoldable pub clean_masks : Comp → List Event → Manager → Manager
  clean_masks comp [] s = s
  clean_masks comp (mask ∷ masks) s = clean_masks comp masks (remove_com_from_catch_map comp mask s)

  unfoldable pub clean_component : Comp → Manager → Manager
  unfolding clean_masks
  clean_component comp s = clean_masks comp comp.catch_event_set s
