-- ===== src/Manager/Departure.antt =====
-- FTBM_Client_register and FTBM_Client_deregister keep the tables coherent, and a client that leaves takes all its routes with it.
use ftb.Prelude.{
  ◌≡◌, refl, ap, Bool, true, false, not, ◌&&◌, [], none, some, arith, if◌then◌else◌, inl, inr,
  Bool-cases, Option-cases,
}
use ftb.Defs.{success, FtbId, Event}
use ftb.Match.{is_equal_location_id}
use ftb.Map
use ftb.Map.{Status, exist, done, not_exist}
use ftb.Map.Laws
use ftb.Manager.State.{Comp, Manager, Env, comp_id, find_comp, lookup_component, is_agent}
use ftb.Manager.Propagation.{clean_component}
use ftb.Manager.Frame.{drop_routes, clean_component-Rerouted, send_masks-Called}
use ftb.Manager.Clients.{
  forget, hang_up, is_manager_exact, client_register, welcome, join_client, drop_client,
  client_deregister,
}
use ftb.Manager.Routes.{routed, same_id, id_eq}
use ftb.Manager.Tables.{find_comp_sound, holds-forget}
use ftb.Manager.Coherence.{
  IsSound, IsSound-Called, leave-IsCoherent, join-IsCoherent, reconnect-IsSound,
}

-- `t` is `s` without the client `id`: in the table of peers and in the relation of components and
-- masks all others are as they were.
pub record Departed (id : FtbId) (s t : Manager) : Type 0 where
  pub sound : IsSound t
  pub peers :
      (j : FtbId) → find_comp j t.peers ≡ (if same_id id j then none else find_comp j s.peers)
  pub routes :
      (j : FtbId) (n : Event)
      → routed t.catch_event_map j n ≡ (routed s.catch_event_map j n && not (same_id id j))

pub IsSound-if : (b : Bool) (s t : Manager) → IsSound s → IsSound t → IsSound (if b then s else t)
IsSound-if true s t h k = h
IsSound-if false s t h k = k

module _ (env : Env) where
  module _ (s : Manager) (h : IsSound s) (id : FtbId) (c : Comp)
      (found : find_comp id s.peers ≡ some c) where
    abbrev cleaned : Manager
    cleaned = clean_component env c s

    Departed-tables :
        (t : Manager)
        → t.peers ≡ Map.remove_node comp_id same_id c.id s.peers
        → t.catch_event_map ≡ drop_routes c.id c.catch_event_set s.catch_event_map
        → Departed id s t
    Departed-tables t p q =
        let left : IsSound t =
          rw (p, q) (leave-IsCoherent s.peers s.catch_event_map h id c found) in
        record {
          sound = left;
          peers = λ j. ground (
            arith,
            p,
            Laws.find_key-remove_node comp_id same_id id_eq j c.id s.peers h.table.ids,
            id_eq.is_cong c.id id j (find_comp_sound s.peers h.table id c found),
          );
          routes = λ j n. ground (
            arith,
            p,
            left.agree j n,
            h.agree j n,
            holds-forget s.peers h.table c.id j n,
            id_eq.is_cong c.id id j (find_comp_sound s.peers h.table id c found),
          );
        }

    -- The client leaves, and the network is told or not.
    pub forget-Departed :
        (b : Bool) → Departed id s (forget c (if b then hang_up c cleaned else cleaned))
    forget-Departed true =
        let r = clean_component-Rerouted env c s in
        Departed-tables _ (ap (Map.remove_node comp_id same_id c.id) r.peers) r.catch_event_map
    forget-Departed false =
        let r = clean_component-Rerouted env c s in
        Departed-tables _ (ap (Map.remove_node comp_id same_id c.id) r.peers) r.catch_event_map

    drop_client-IsSound : IsSound (drop_client env c s)
    unfolding drop_client
    drop_client-IsSound =
        let gone = (forget-Departed (is_manager_exact c.id)).sound in
        IsSound-if _ _ _ (reconnect-IsSound env _ gone) gone

    -- A client that is not the parent leaves, and nothing else changes.
    drop_client-Departed :
        (is_manager_exact c.id && is_equal_location_id s.parent c.id.location_id) ≡ false
        → Departed id s (drop_client env c s)
    unfolding drop_client
    drop_client-Departed e = rw e (forget-Departed (is_manager_exact c.id))

  client_deregister_runs :
      (id : FtbId) (s : Manager) (c : Comp)
      → s.initialized ≡ true
      → s.leaf ≡ 0
      → lookup_component id s ≡ some c
      → client_deregister env id s ≡ (success, drop_client env c s)
  unfolding client_deregister
  client_deregister_runs id s c up agent found = ground arith

  -- Deregistering a client keeps the tables coherent, on every branch: errors, a plain client, an
  -- agent, and the parent, which is replaced by a new one.
  pub client_deregister-IsSound :
      (id : FtbId) (s : Manager) → IsSound s → IsSound (client_deregister env id s).1
  unfolding client_deregister
  client_deregister-IsSound id s h = elim (Option-cases (lookup_component id s)) [
    | inl missing ↦ rw (missing, client_deregister) (ground arith)
    | inr (c, found) ↦
        let left = drop_client-IsSound s h id c found in
        rw (found, client_deregister) (ground arith)
  ]

  -- A registered client that is not the parent and is told to leave goes alone: the call
  -- succeeds, the client is no longer a peer, no mask leads to it, and every other peer and route
  -- is as before.
  pub client_deregister-Departed :
      (id : FtbId) (s : Manager) (c : Comp)
      → IsSound s
      → s.initialized ≡ true
      → s.leaf ≡ 0
      → lookup_component id s ≡ some c
      → (is_manager_exact c.id && is_equal_location_id s.parent c.id.location_id) ≡ false
      → ((client_deregister env id s).0 ≡ success) × Departed id s (client_deregister env id s).1
  client_deregister-Departed id s c h up agent found other =
      rw (client_deregister_runs id s c up agent found)
        (refl, drop_client-Departed s h id c found other)

  welcome-IsSound : (id : FtbId) (s : Manager) → IsSound s → IsSound (welcome env id s)
  unfolding welcome
  welcome-IsSound id s h =
      IsSound-if (is_agent id) _ s
        (IsSound-Called s _ (send_masks-Called env id s.catch_event_map s) h) h

  join_client-IsSound : (id : FtbId) (s : Manager) → IsSound s → IsSound (join_client env id s).1
  unfolding join_client
  join_client-IsSound id s h =
      let c : Comp = record { id = id; catch_event_set = [] } in
      elim (Bool-cases (Map.has comp_id same_id id s.peers)) [
        | inl old ↦ rw (Laws.insert_of_has comp_id same_id c s.peers old, join_client) h
        | inr new ↦
            let joined = join-IsCoherent s.peers s.catch_event_map h c refl in
            let kept = Laws.insert_of_not_has comp_id same_id c s.peers new in
            rw (kept, join_client) (welcome-IsSound id _ joined)
      ]

  -- Registering a client keeps the tables coherent, also when it is refused and when the client is
  -- an agent, which is sent every mask.
  pub client_register-IsSound :
      (id : FtbId) (s : Manager) → IsSound s → IsSound (client_register env id s).1
  unfolding client_register
  client_register-IsSound id s h = let joined = join_client-IsSound id s h in ground arith
