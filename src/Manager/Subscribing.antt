-- ===== src/Manager/Subscribing.antt =====
-- FTBM_Register_subscription and FTBM_Cancel_subscription as a whole, and what reading a freed mask
-- does.
use ftb.Prelude.{◌≡◌, refl, ap, ◌∙◌, true, false, List, some, arith, inl, inr, Option-cases}
use ftb.Defs.{success, reg_subscription, FtbId, Event}
use ftb.Map.Laws
use ftb.Manager.State.{
  Comp, CatchEntry, Manager, Env, self_id, self_mask, find_entry, has_id, has_mask,
  lookup_component,
}
use ftb.Manager.Frame.{Rerouted-Called, reg_propagation-Called}
use ftb.Manager.Subscriptions.{
  enter_catch_map, subscribe, register_subscription, unsubscribe, cancel_subscription,
}
use ftb.Manager.Routes.{routed, holds, same_id, same_mask, id_eq, mask_eq}
use ftb.Manager.Tables.{holds-find}
use ftb.Manager.Registration.{extended, routed-extended}
use ftb.Manager.Coherence.{IsSound}
use ftb.Manager.Subscription.{
  Subscribed, Unsubscribed, subscribe-Subscribed, unsubscribe-Unsubscribed,
}

routed_entry :
    (es : List CatchEntry) (id : FtbId) (m : Event) (e : CatchEntry)
    → find_entry m es ≡ some e
    → routed es id m ≡ has_id id e.comps
unfolding routed
routed_entry es id m e h = rw (h, routed)

-- The peer `id` does not have the mask, or there is no such peer.
abbrev pub IsFresh : FtbId → Event → Manager → Type 0
IsFresh id m s = (c : Comp) → lookup_component id s ≡ some c → has_mask m c.catch_event_set ≡ false

module _ (env : Env) where
  -- A registered client of a running agent subscribes to a mask that it does not have yet: the call
  -- succeeds, both tables stay coherent, and the client is related to the mask; no other pair changes.
  pub register_subscription-Subscribed :
      (id : FtbId) (m : Event) (s : Manager) (c : Comp)
      → IsSound s
      → s.initialized ≡ true
      → s.leaf ≡ 0
      → lookup_component id s ≡ some c
      → has_mask m c.catch_event_set ≡ false
      → ((register_subscription env id m s).0 ≡ success)
        × Subscribed id m s (register_subscription env id m s).1
  unfolding register_subscription
  register_subscription-Subscribed id m s c h up agent found fresh =
      rw (runs id m s c up agent found) (refl, subscribe-Subscribed env s h id c m found fresh)
    where
      runs :
          (id : FtbId) (m : Event) (s : Manager) (c : Comp)
          → s.initialized ≡ true
          → s.leaf ≡ 0
          → lookup_component id s ≡ some c
          → register_subscription env id m s ≡ (success, subscribe env c id m s)
      runs id m s c up agent found = ground arith

  -- On every branch, refusals included, registering a subscription keeps the tables coherent, if the
  -- peer, where there is one, does not have the mask yet.
  pub register_subscription-IsSound :
      (id : FtbId) (m : Event) (s : Manager)
      → IsFresh id m s
      → IsSound s
      → IsSound (register_subscription env id m s).1
  unfolding register_subscription
  register_subscription-IsSound id m s fresh h = elim (Option-cases (lookup_component id s)) [
    | inl missing ↦ rw (missing, register_subscription) (ground arith)
    | inr (c, found) ↦
        let k = (subscribe-Subscribed env s h id c m found (fresh c found)).sound in
        rw (found, register_subscription) (ground arith)
  ]

  -- A registered client cancels: the call succeeds, both tables stay coherent, and the client is no
  -- longer related to the mask; no other pair changes. It need not have subscribed.
  pub cancel_subscription-Unsubscribed :
      (id : FtbId) (m : Event) (s : Manager) (c : Comp)
      → IsSound s
      → s.initialized ≡ true
      → s.leaf ≡ 0
      → lookup_component id s ≡ some c
      → ((cancel_subscription env id m s).0 ≡ success)
        × Unsubscribed id m s (cancel_subscription env id m s).1
  unfolding cancel_subscription
  cancel_subscription-Unsubscribed id m s c h up agent found =
      rw (runs id m s c up agent found) (refl, unsubscribe-Unsubscribed env s h id c m found)
    where
      runs :
          (id : FtbId) (m : Event) (s : Manager) (c : Comp)
          → s.initialized ≡ true
          → s.leaf ≡ 0
          → lookup_component id s ≡ some c
          → cancel_subscription env id m s ≡ (success, unsubscribe env c m s)
      runs id m s c up agent found = ground arith

  -- On every branch cancelling a subscription keeps the tables coherent.
  pub cancel_subscription-IsSound :
      (id : FtbId) (m : Event) (s : Manager)
      → IsSound s
      → IsSound (cancel_subscription env id m s).1
  unfolding cancel_subscription
  cancel_subscription-IsSound id m s h = elim (Option-cases (lookup_component id s)) [
    | inl missing ↦ rw (missing, cancel_subscription) (ground arith)
    | inr (c, found) ↦
        let k = (unsubscribe-Unsubscribed env s h id c m found).sound in
        rw (found, cancel_subscription) (ground arith)
  ]

  -- A second registration of a mask, step by step.
  register_again :
      (id : FtbId) (m : Event) (s : Manager) (c : Comp)
      → s.initialized ≡ true
      → s.leaf ≡ 0
      → lookup_component id s ≡ some c
      → has_mask m c.catch_event_set ≡ true
      → register_subscription env id m s ≡ (success, enter_catch_map env c id m (env.freed m) s)
  unfolding register_subscription
  register_again id m s c up agent found old =
      ground (arith, Laws.insert_of_has self_mask same_mask m c.catch_event_set old)

  -- The client is entered for the mask `k` that is read instead.
  enter_catch_map-stale :
      (c : Comp) (id : FtbId) (m k : Event) (s : Manager) (e : CatchEntry)
      → IsSound s
      → find_entry k s.catch_event_map ≡ some e
      → has_id c.id e.comps ≡ false
      → let t = enter_catch_map env c id m k s in
        (t.peers ≡ s.peers) × (routed t.catch_event_map c.id k ≡ true)
  unfolding enter_catch_map
  enter_catch_map-stale c id m k s e h found new =
      let kept = Laws.insert_of_not_has self_id same_id c.id e.comps new in
      let r =
        Rerouted-Called (extended s.catch_event_map h.catch c.id k e found) s _
          (reg_propagation-Called env reg_subscription m id.location_id _) in
      rw (found, enter_catch_map, kept)
        (
          r.peers,
          ap (λ (es : List CatchEntry). routed es c.id k) r.catch_event_map
              ∙ ground (
                arith,
                routed-extended s.catch_event_map h.catch c.id k e found c.id k,
                id_eq.is_refl c.id,
                mask_eq.is_refl k,
              ),
        )

  -- The defect: a client that registers a mask a second time is entered for whatever mask the freed
  -- copy reads as, when others have subscribed to that one and the client has not. From then on the
  -- catch map and the client's own set disagree.
  pub register_subscription_stale :
      (id : FtbId) (m : Event) (s : Manager) (c : Comp) (e : CatchEntry)
      → IsSound s
      → s.initialized ≡ true
      → s.leaf ≡ 0
      → lookup_component id s ≡ some c
      → has_mask m c.catch_event_set ≡ true
      → find_entry (env.freed m) s.catch_event_map ≡ some e
      → has_mask (env.freed m) c.catch_event_set ≡ false
      → ¬ IsSound (register_subscription env id m s).1
  unfolding register_subscription
  register_subscription_stale id m s c e h up agent found old entry unknown bad =
      let k = env.freed m in
      let none_held = holds-find id c.id k s.peers c found (id_eq.is_refl c.id) in
      let (peers, leads) = enter_catch_map-stale c id m k s e h entry (
        ground (arith, h.agree c.id k, none_held, routed_entry s.catch_event_map c.id k e entry)) in
      let t = enter_catch_map env c id m k s in
      let after = rw (register_again id m s c up agent found old) at bad in
      cc (leads, after.agree c.id k, ap (λ ps. holds ps c.id k) peers, none_held, unknown)
