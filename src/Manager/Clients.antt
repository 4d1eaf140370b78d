-- ===== src/Manager/Clients.antt =====
-- FTBM_Client_register, FTBM_Client_deregister, FTBM_Send, FTBM_Cleanup_connection and FTBM_Get of
-- src/manager_lib/ftb_manager_lib.c: the peers that come and go.
use ftb.Prelude.{
  ℕ, suc, ◌/◌, ◌%◌, Bool, not, ◌&&◌, List, [], ◌∷◌, none, some, ◌==◌, ltb, if◌then◌else◌,
}
use ftb.Text.{strcmp, strcasecmp}
use ftb.Defs.{
  Code, success, err_general, err_not_supported, err_invalid_parameter, err_network_general,
  is_success, LocationId, FtbId, Msg, comp_cat_backplane, comp_manager,
}
use ftb.Match.{is_equal_ftb_id, is_equal_location_id}
use ftb.Map
use ftb.Map.{Status, done, exist, not_exist}
use ftb.Manager.State.{
  Comp, disconnect_peer, Manager, Env, Run, ok, crash, comp_id, lookup_component, is_agent,
}
use ftb.Manager.Propagation.{send_msg, clean_component}
use ftb.Manager.Lifecycle.{send_masks, reconnect}

-- The peer's node leaves the table.
abbrev pub forget : Comp → Manager → Manager
forget comp s = record s { peers = Map.remove_node comp_id is_equal_ftb_id comp.id s.peers }

-- The exact names of an agent, whatever its extension.
unfoldable pub is_manager_exact : FtbId → Bool
is_manager_exact id =
    strcmp id.client_id.comp_cat comp_cat_backplane && strcmp id.client_id.comp comp_manager

-- The names of an agent without case, whatever its extension.
unfoldable pub is_manager : FtbId → Bool
is_manager id =
    strcasecmp id.client_id.comp_cat comp_cat_backplane && strcasecmp id.client_id.comp comp_manager

-- `err_handling & FTB_ERR_HANDLE_RECOVER`
abbrev pub recovers : Manager → Bool
recovers s = s.err_handling / 2 % 2 == 1

abbrev pub hang_up : Comp → Manager → Manager
hang_up comp s = record s { log = disconnect_peer comp.id.location_id ∷ s.log }

module _ (env : Env) where
  -- A new peer, which is sent every mask if it is an agent.
  unfoldable pub welcome : FtbId → Manager → Manager
  welcome id s = if is_agent id then send_masks env id s.catch_event_map s else s

  -- FTBM_Client_register past its first two tests.
  unfoldable pub join_client : FtbId → Manager → Code × Manager
  unfolding welcome
  join_client id s =
      let comp : Comp = record { id = id; catch_event_set = [] } in
      let inserted = Map.insert comp_id is_equal_ftb_id comp s.peers in
      elim inserted.0 [
        | exist ↦ (err_invalid_parameter, s)
        | _ ↦ (success, welcome id (record s { peers = inserted.1 }))
      ]

  unfoldable pub client_register : FtbId → Manager → Code × Manager
  unfolding join_client
  client_register id s =
      if not s.initialized
      then (err_general, s)
      else if not (s.leaf == 0)
      then (err_not_supported, s)
      else join_client id s

  -- FTBM_Client_deregister, once the component is found.
  unfoldable pub drop_client : Comp → Manager → Manager
  drop_client comp s =
      let cleaned = clean_component env comp s in
      let is_parent =
        is_manager_exact comp.id && is_equal_location_id s.parent comp.id.location_id in
      let quiet = if is_manager_exact comp.id then hang_up comp cleaned else cleaned in
      let gone = forget comp quiet in
      if is_parent && recovers gone then reconnect env gone else gone

  unfoldable pub client_deregister : FtbId → Manager → Code × Manager
  unfolding drop_client
  client_deregister id s =
      if not s.initialized
      then (err_general, s)
      else if not (s.leaf == 0)
      then (err_not_supported, s)
      else elim (lookup_component id s) [
        | none ↦ (err_invalid_parameter, s)
        | some comp ↦ (success, drop_client comp s)
      ]

  -- An agent drops the peer that a message did not reach. The lookup is not checked.
  unfoldable pub drop_dead : FtbId → Manager → Run Manager
  drop_dead id s = elim (lookup_component id s) [
    | none ↦ crash
    | some comp ↦
        let cleaned = clean_component env comp s in
        ok (forget comp (if is_manager comp.id then hang_up comp cleaned else cleaned))
  ]

  -- FTBM_Send after the message to `dst` was lost and an agent has dropped the peer.
  unfoldable pub after_loss : Code → FtbId → Run Manager → Run (Code × Manager)
  after_loss ret dst crash = crash
  after_loss ret dst (ok s) =
      ok (ret, if is_equal_location_id s.parent dst.location_id then reconnect env s else s)

  unfoldable pub send : Msg → Manager → Run (Code × Manager)
  unfolding send_msg drop_dead after_loss
  send msg s =
      if not s.initialized
      then ok (err_general, s)
      else let (ret, sent) = send_msg env msg s in
        if is_success ret
        then ok (ret, sent)
        else after_loss ret msg.dst (if sent.leaf == 0 then drop_dead msg.dst sent else ok sent)

  -- The loop of FTBM_Cleanup_connection over the peers, with its count.
  unfoldable pub cleanup_loop : LocationId → List Comp → ℕ → Manager → ℕ × Manager
  cleanup_loop location [] count s = (count, s)
  cleanup_loop location (c ∷ cs) count s =
      let hit = is_equal_location_id location c.id.location_id in
      cleanup_loop location cs (if hit then suc count else count)
        (if hit then forget c (clean_component env c s) else s)

  -- A leaf has no table of peers to walk.
  unfoldable pub cleanup_connection : LocationId → Manager → Run (Code × Manager)
  unfolding cleanup_loop
  cleanup_connection location s =
      if not s.initialized
      then ok (err_general, s)
      else if not (s.leaf == 0)
      then crash
      else let (count, left) = cleanup_loop location s.peers 0 s in
        ok (
          if ltb 0 count then success else err_general,
          if is_equal_location_id left.parent location then reconnect env left else left,
        )

  -- `ret` is what `FTBN_Recv_msg` returns.
  unfoldable pub get : Code → Manager → Code × Manager
  get ret s =
      if not s.initialized
      then (err_general, s)
      else (ret, elim ret [ err_network_general ↦ reconnect env s | _ ↦ s ])
