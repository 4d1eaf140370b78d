-- ===== src/Agent/Running.antt =====
-- What keeps a manager running as an agent: no operation but FTBM_Finalize and FTBM_Abort stops it,
-- or makes it a leaf.
use ftb.Prelude.{
  ◌≡◌, ◌∙◌, Bool, true, false, List, [], ◌∷◌, arith, if◌then◌else◌, inl, inr, Bool-cases,
  Option-cases, ℕ, ltb,
}
use ftb.Defs.{Code, success, err_general, LocationId, FtbId, Event}
use ftb.Match.{is_equal_location_id}
use ftb.Map
use ftb.Map.{Status, exist, done, not_exist}
use ftb.Map.Laws
use ftb.Manager.State.{
  Comp, CatchEntry, Manager, Env, ok, comp_id, lookup_component, is_agent, find_entry, self_mask,
  self_id, has_id, has_mask,
}
use ftb.Manager.Routes.{same_id, same_mask}
use ftb.Manager.Propagation.{clean_component}
use ftb.Manager.Frame.{
  Rerouted, clean_component-Rerouted, send_masks-Called, reg_propagation-Called,
  remove_com-Rerouted,
}
use ftb.Manager.Lifecycle.{connect_parent, readopt, rejoin, reconnect, parent_comp}
use ftb.Manager.Clients.{
  forget, hang_up, is_manager_exact, client_register, join_client, welcome, drop_client,
  client_deregister, cleanup_loop, cleanup_connection,
}
use ftb.Manager.Subscriptions.{
  enter_catch_map, subscribe, register_subscription, unsubscribe, cancel_subscription,
}

-- The manager is up, and serves as an agent.
pub record IsUp (s : Manager) : Type 0 where
  pub up : s.initialized ≡ true
  pub agent : s.leaf ≡ 0

pub IsUp-Rerouted : {es : List CatchEntry} (s t : Manager) → Rerouted es s t → IsUp s → IsUp t
IsUp-Rerouted s t r k = record { up = r.initialized ∙ k.up; agent = r.leaf ∙ k.agent }

pub IsUp-same : (s t : Manager) → t.initialized ≡ s.initialized → t.leaf ≡ s.leaf → IsUp s → IsUp t
IsUp-same s t p q k = record { up = p ∙ k.up; agent = q ∙ k.agent }

pub IsUp-if : (b : Bool) (s t : Manager) → IsUp s → IsUp t → IsUp (if b then s else t)
IsUp-if true s t h k = h
IsUp-if false s t h k = k

module _ (env : Env) where
  readopt-IsUp : (c : Comp) (s : Manager) → IsUp s → IsUp (readopt env c s)
  unfolding readopt
  readopt-IsUp c s k = elim (Bool-cases (Map.has comp_id same_id c.id s.peers)) [
    | inl old ↦ rw (Laws.insert_of_has comp_id same_id c s.peers old, readopt) k
    | inr new ↦
        rw (Laws.insert_of_not_has comp_id same_id c s.peers new, readopt)
          (IsUp-Rerouted _ _ (send_masks-Called env c.id s.catch_event_map _)
            (record { up = k.up; agent = k.agent }))
  ]

  rejoin-IsUp : (s : Manager) → IsUp s → IsUp (rejoin env s)
  unfolding rejoin
  rejoin-IsUp s k =
      let r = readopt-IsUp (parent_comp s.parent) s k in
      record {
        up = ground (arith, k.up, k.agent, r.up);
        agent = ground (arith, k.up, k.agent, r.agent);
      }

  pub reconnect-IsUp : (s : Manager) → IsUp s → IsUp (reconnect env s)
  unfolding reconnect connect_parent
  reconnect-IsUp s k = rejoin-IsUp (connect_parent env s) (record { up = k.up; agent = k.agent })

  pub forget-IsUp :
      (b : Bool) (c : Comp) (s : Manager)
      → IsUp s
      → IsUp (forget c (if b then hang_up c (clean_component env c s) else clean_component env c s))
  forget-IsUp true c s k =
      let r = IsUp-Rerouted s _ (clean_component-Rerouted env c s) k in
      record { up = r.up; agent = r.agent }
  forget-IsUp false c s k =
      let r = IsUp-Rerouted s _ (clean_component-Rerouted env c s) k in
      record { up = r.up; agent = r.agent }

  drop_client-IsUp : (c : Comp) (s : Manager) → IsUp s → IsUp (drop_client env c s)
  unfolding drop_client
  drop_client-IsUp c s k =
      let gone = forget-IsUp (is_manager_exact c.id) c s k in
      IsUp-if _ _ _ (reconnect-IsUp _ gone) gone

  pub client_deregister-IsUp :
      (id : FtbId) (s : Manager) → IsUp s → IsUp (client_deregister env id s).1
  unfolding client_deregister
  client_deregister-IsUp id s k = elim (Option-cases (lookup_component id s)) [
    | inl missing ↦ rw (k.up, k.agent, missing, client_deregister) k
    | inr (c, found) ↦
        let r = drop_client-IsUp c s k in rw (k.up, k.agent, found, client_deregister) r
  ]

  welcome-IsUp : (id : FtbId) (s : Manager) → IsUp s → IsUp (welcome env id s)
  unfolding welcome
  welcome-IsUp id s k =
      IsUp-if (is_agent id) _ s (IsUp-Rerouted s _ (send_masks-Called env id s.catch_event_map s) k)
        k

  join_client-IsUp : (id : FtbId) (s : Manager) → IsUp s → IsUp (join_client env id s).1
  unfolding join_client
  join_client-IsUp id s k =
      let c : Comp = record { id = id; catch_event_set = [] } in
      elim (Bool-cases (Map.has comp_id same_id id s.peers)) [
        | inl old ↦ rw (Laws.insert_of_has comp_id same_id c s.peers old, join_client) k
        | inr new ↦
            rw (Laws.insert_of_not_has comp_id same_id c s.peers new, join_client)
              (welcome-IsUp id _ (record { up = k.up; agent = k.agent }))
      ]

  pub client_register-IsUp : (id : FtbId) (s : Manager) → IsUp s → IsUp (client_register env id s).1
  unfolding client_register
  client_register-IsUp id s k =
      let r = join_client-IsUp id s k in
      record { up = ground (arith, k.up, r.up); agent = ground (arith, k.agent, r.agent) }

  enter_catch_map-IsUp :
      (c : Comp) (id : FtbId) (m n : Event) (s : Manager)
      → IsUp s
      → IsUp (enter_catch_map env c id m n s)
  unfolding enter_catch_map
  enter_catch_map-IsUp c id m n s k = elim (Option-cases (find_entry n s.catch_event_map)) [
    | inl missing ↦
        rw (missing, enter_catch_map)
          (IsUp-Rerouted _ _ (reg_propagation-Called env _ _ _ _)
            (record { up = k.up; agent = k.agent }))
    | inr (e, found) ↦ elim (Bool-cases (has_id c.id e.comps)) [
      | inl old ↦ rw (found, enter_catch_map, Laws.insert_of_has self_id same_id c.id e.comps old) k
      | inr new ↦
          rw (found, enter_catch_map, Laws.insert_of_not_has self_id same_id c.id e.comps new)
            (IsUp-Rerouted _ _ (reg_propagation-Called env _ _ _ _)
              (record { up = k.up; agent = k.agent }))
    ]
  ]

  subscribe-IsUp :
      (c : Comp) (id : FtbId) (m : Event) (s : Manager) → IsUp s → IsUp (subscribe env c id m s)
  unfolding subscribe
  subscribe-IsUp c id m s k = elim (Bool-cases (has_mask m c.catch_event_set)) [
    | inl old ↦
        rw (Laws.insert_of_has self_mask same_mask m c.catch_event_set old, subscribe)
          (enter_catch_map-IsUp c id m (env.freed m) s k)
    | inr new ↦
        rw (Laws.insert_of_not_has self_mask same_mask m c.catch_event_set new, subscribe)
          (enter_catch_map-IsUp c id m m _ (record { up = k.up; agent = k.agent }))
  ]

  pub register_subscription-IsUp :
      (id : FtbId) (m : Event) (s : Manager) → IsUp s → IsUp (register_subscription env id m s).1
  unfolding register_subscription
  register_subscription-IsUp id m s k = elim (Option-cases (lookup_component id s)) [
    | inl missing ↦ rw (k.up, k.agent, missing, register_subscription) k
    | inr (c, found) ↦
        let r = subscribe-IsUp c id m s k in rw (k.up, k.agent, found, register_subscription) r
  ]

  unsubscribe-IsUp : (c : Comp) (m : Event) (s : Manager) → IsUp s → IsUp (unsubscribe env c m s)
  unfolding unsubscribe
  unsubscribe-IsUp c m s k =
      elim (Option-cases (Map.find_key self_mask same_mask m c.catch_event_set)) [
        | inl missing ↦ rw (missing, unsubscribe) k
        | inr (mask, there) ↦
            rw (there, unsubscribe)
              (IsUp-Rerouted _ _ (remove_com-Rerouted env c mask _)
                (record { up = k.up; agent = k.agent }))
      ]

  pub cancel_subscription-IsUp :
      (id : FtbId) (m : Event) (s : Manager) → IsUp s → IsUp (cancel_subscription env id m s).1
  unfolding cancel_subscription
  cancel_subscription-IsUp id m s k = elim (Option-cases (lookup_component id s)) [
    | inl missing ↦ rw (k.up, k.agent, missing, cancel_subscription) k
    | inr (c, found) ↦
        let r = unsubscribe-IsUp c m s k in rw (k.up, k.agent, found, cancel_subscription) r
  ]

  cleanup_loop-IsUp :
      (l : LocationId) (cs : List Comp) (n : ℕ) (s : Manager)
      → IsUp s
      → IsUp (cleanup_loop env l cs n s).1
  unfolding cleanup_loop
  cleanup_loop-IsUp l [] n s k = k
  cleanup_loop-IsUp l (c ∷ cs) n s k =
      cleanup_loop-IsUp l cs _ _
        (IsUp-if (is_equal_location_id l c.id.location_id) _ s (forget-IsUp false c s k) k)

  -- A running agent cleans up after any location, and runs on.
  pub cleanup_connection-IsUp :
      (l : LocationId) (s : Manager)
      → IsUp s
      → (r : Code × Manager) × (cleanup_connection env l s ≡ ok r) × IsUp r.1
  unfolding cleanup_connection
  cleanup_connection-IsUp l s k =
      let q = cleanup_loop env l s.peers 0 s in
      let u = cleanup_loop-IsUp l s.peers 0 s k in
      (
        (
          if ltb 0 q.0 then success else err_general,
          if is_equal_location_id q.1.parent l then reconnect env q.1 else q.1,
        ),
        ground (arith, k.up, k.agent),
        IsUp-if (is_equal_location_id q.1.parent l) _ _ (reconnect-IsUp q.1 u) u,
      )
