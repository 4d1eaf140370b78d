-- ===== src/Manager/Lifecycle.antt =====
-- FTBM_Init, FTBMI_util_reconnect, FTBM_Finalize, FTBM_Abort, and the two getters of
-- src/manager_lib/ftb_manager_lib.c.
use ftb.Prelude.{
  ℕ, ◌%◌, Bool, true, false, not, ◌&&◌, ◌||◌, List, [], ◌∷◌, Option, none, some, ◌==◌,
  if◌then◌else◌,
}
use ftb.Defs.{
  Code, success, err_general, LocationId, FtbId, Event, Msg, Run, ok, crash, ◌>>=◌, client_reg,
  client_dereg, reg_subscription, comp_cat_backplane, comp_manager,
}
use ftb.Match.{is_equal_ftb_id}
use ftb.Map
use ftb.Map.{Status, done, exist, not_exist}
use ftb.Manager.State.{
  Comp, CatchEntry, net_init, connect, net_finalize, net_abort, Manager, Env, comp_id, self_id,
  is_agent, find_entry, has_id, err_handle_none, err_handle_recover,
}
use ftb.Manager.Propagation.{send_msg, remove_com_from_catch_map, clean_component}

-- The entry of an agent's parent in the table of peers: a cleared structure with the parent's
-- location and the names of an agent.
unfoldable pub parent_comp : LocationId → Comp
parent_comp parent = record {
  id = record {
    location_id = parent;
    client_id = record {
      region = [];
      comp_cat = comp_cat_backplane;
      comp = comp_manager;
      client_name = [];
      ext = 0;
    };
  };
  catch_event_set = [];
}

module _ (env : Env) where
  -- `FTBN_Connect`, which writes the parent's location.
  unfoldable pub connect_parent : Manager → Manager
  connect_parent s =
      let msg : Msg = record env.garbage { msg_type = client_reg; src = s.self } in
      record s { parent = env.parent_found s.log msg s.parent; log = connect msg ∷ s.log }

  -- Every mask of the catch map, sent to the peer `id`.
  unfoldable pub send_masks : FtbId → List CatchEntry → Manager → Manager
  unfolding send_msg
  send_masks id [] s = s
  send_masks id (e ∷ es) s =
      send_masks id es
        (send_msg env
          (record { msg_type = reg_subscription; src = s.self; dst = id; event = e.mask }) s).1

  -- The parent joins the peers of an agent that reconnects, and is sent every mask.
  unfoldable pub readopt : Comp → Manager → Manager
  unfolding send_masks
  readopt comp s =
      let inserted = Map.insert comp_id is_equal_ftb_id comp s.peers in
      elim inserted.0 [
        | exist ↦ s
        | _ ↦ send_masks comp.id s.catch_event_map (record s { peers = inserted.1 })
      ]

  -- The second half of FTBMI_util_reconnect, once the network has answered.
  unfoldable pub rejoin : Manager → Manager
  unfolding readopt parent_comp
  rejoin s =
      if not (s.leaf == 0) && s.parent.pid == 0
      then record s { initialized = false }
      else if s.leaf == 0 && not (s.parent.pid == 0)
      then readopt (parent_comp s.parent) s
      else s

  unfoldable pub reconnect : Manager → Manager
  unfolding connect_parent rejoin
  reconnect s = rejoin (connect_parent s)

  -- FTBM_Init up to the call of `FTBN_Connect`.
  unfoldable pub prepare : ℕ → Manager → Manager
  prepare leaf s = record s {
    leaf = leaf;
    peers = [];
    catch_event_map = [];
    err_handling = if leaf == 0 then err_handle_recover else err_handle_none;
    self = record {
      location_id = env.my_location;
      client_id = record (s.self.client_id) {
        comp = comp_manager;
        comp_cat = comp_cat_backplane;
        ext = leaf % 256;
      };
    };
    log = net_init env.my_location ∷ s.log;
  }

  -- The parent joins the peers of an agent that starts.
  unfoldable pub adopt : Comp → Manager → Code × Manager
  adopt comp s =
      let inserted = Map.insert comp_id is_equal_ftb_id comp s.peers in
      elim inserted.0 [
        | exist ↦ (err_general, s)
        | _ ↦ (success, record s { peers = inserted.1; waiting = 0; initialized = true })
      ]

  -- FTBM_Init after the call of `FTBN_Connect`.
  unfoldable pub start : Manager → Code × Manager
  unfolding adopt parent_comp
  start s =
      if not (s.leaf == 0) && s.parent.pid == 0
      then (err_general, s)
      else if s.leaf == 0 && not (s.parent.pid == 0)
      then adopt (parent_comp s.parent) s
      else (success, record s { waiting = 0; initialized = true })

  unfoldable pub init : ℕ → Manager → Code × Manager
  unfolding prepare connect_parent start
  init leaf s = start (connect_parent (prepare leaf s))

  -- Whether the walk over the keys of an entry, up to the key of `id`, meets one of a component that
  -- was freed.
  unfoldable pub meets_freed : List Comp → FtbId → List FtbId → Bool
  meets_freed gone id [] = false
  meets_freed gone id (i ∷ is) =
      let rest = meets_freed gone id is in
      Map.has comp_id is_equal_ftb_id i gone || (if is_equal_ftb_id i id then false else rest)

  -- Whether FTBMI_util_remove_com_from_catch_map reads the components `gone`, which were freed while
  -- their nodes stay among the peers: in the walk over the entry's keys, or in the propagation over
  -- all peers, if the entry becomes empty.
  unfoldable pub reads_freed : List Comp → Comp → Event → Manager → Bool
  unfolding meets_freed
  reads_freed gone comp mask s = elim (find_entry mask s.catch_event_map) [
    | none ↦ false
    | some e ↦
        meets_freed gone comp.id e.comps
        || (not (Map.is_empty gone)
            && has_id comp.id e.comps
            && Map.is_empty (Map.remove_node self_id is_equal_ftb_id comp.id e.comps))
  ]

  -- The same for FTBMI_util_clean_component.
  unfoldable pub cleans_freed : List Comp → Comp → List Event → Manager → Bool
  unfolding reads_freed
  cleans_freed gone comp [] s = false
  cleans_freed gone comp (mask ∷ masks) s =
      let rest = cleans_freed gone comp masks (remove_com_from_catch_map env comp mask s) in
      reads_freed gone comp mask s || rest

  -- A round of the loop of FTBM_Finalize, up to the call of `free`.
  unfoldable pub say_farewell : Comp → Manager → Manager
  unfolding clean_component send_msg
  say_farewell c s =
      let cleaned = clean_component env c s in
      if is_agent c.id
      then (send_msg env
          (record env.garbage { msg_type = client_dereg; src = cleaned.self; dst = c.id })
          cleaned).1
      else cleaned

  -- The loop of FTBM_Finalize over the peers. A component that it has freed stands among the peers
  -- until the loop is over, and so does its id, the key of its node.
  unfoldable pub dismiss : List Comp → List Comp → Manager → Run Manager
  unfolding cleans_freed say_farewell
  dismiss gone [] s = ok s
  dismiss gone (c ∷ cs) s =
      let rest = dismiss (c ∷ gone) cs (say_farewell c s) in
      if cleans_freed gone c c.catch_event_set s then crash else rest

  -- The message by which a leaf leaves its parent: only the location of `dst` is written.
  unfoldable pub leave_msg : Manager → Msg
  leave_msg s = record env.garbage {
    msg_type = client_dereg;
    src = s.self;
    dst = record (env.garbage.dst) { location_id = s.parent };
  }

  -- The call of `FTBN_Finalize`, and the return.
  abbrev pub finalized : Manager → Code × Manager
  finalized left = (success, record left { log = net_finalize ∷ left.log })

  unfoldable pub finalize : Manager → Run (Code × Manager)
  unfolding dismiss leave_msg send_msg
  finalize s =
      if not s.initialized
      then ok (success, s)
      else let stopped : Manager = record s { initialized = false } in
        if stopped.leaf == 0
        then (dismiss [] stopped.peers stopped >>= λ left.
            ok (finalized (record left { peers = []; catch_event_map = [] })))
        else ok (finalized (send_msg env (leave_msg stopped) stopped).1)

unfoldable pub abort : Manager → Code × Manager
abort s =
    if not s.initialized
    then (success, s)
    else let stopped : Manager = record s { initialized = false } in
      let freed : Manager =
        if stopped.leaf == 0
        then record stopped { peers = []; catch_event_map = [] }
        else stopped in
      (success, record freed { log = net_abort ∷ freed.log })

-- The code, and what is written to the caller's variable.
unfoldable pub get_location_id : Manager → Code × Option LocationId
get_location_id s =
    if not s.initialized then (err_general, none) else (success, some s.self.location_id)

unfoldable pub get_parent_location_id : Manager → Code × Option LocationId
get_parent_location_id s =
    if not s.initialized then (err_general, none) else (success, some s.parent)
