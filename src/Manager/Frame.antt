-- ===== src/Manager/Frame.antt =====
-- What the propagation of a registration leaves alone: everything but the calls of the network.
use ftb.Prelude.{
  ◌≡◌, refl, ◌∙◌, subst, Bool, not, ◌||◌, List, [], ◌∷◌, none, some, if◌then◌else◌, true, false,
  inl, inr, Bool-cases, Option-cases,
}
use ftb.Defs.{LocationId, FtbId, Event, Msg, MsgType}
use ftb.Map
use ftb.Manager.State.{
  Comp, CatchEntry, Action, Manager, Env, is_agent, find_entry, has_id, self_id, entry_mask,
}
use ftb.Manager.Propagation.{
  send_msg, reg_msg, propagate_to, reg_propagation, remove_com_from_catch_map, shrink_entry,
  clean_masks, clean_component,
}
use ftb.Manager.Lifecycle.{send_masks}
use ftb.Match.{is_equal_location_id, is_equal_ftb_id, is_equal_event_mask}

-- `t` is `s` with the catch map `es`, after some calls of the network.
pub record Rerouted (es : List CatchEntry) (s t : Manager) : Type 0 where
  pub parent : t.parent ≡ s.parent
  pub self : t.self ≡ s.self
  pub err_handling : t.err_handling ≡ s.err_handling
  pub leaf : t.leaf ≡ s.leaf
  pub waiting : t.waiting ≡ s.waiting
  pub peers : t.peers ≡ s.peers
  pub catch_event_map : t.catch_event_map ≡ es
  pub initialized : t.initialized ≡ s.initialized

-- `t` is `s` after some calls of the network.
abbrev pub Called : Manager → Manager → Type 0
Called s t = Rerouted s.catch_event_map s t

abbrev rerouted :
    (es : List CatchEntry) (s : Manager) (log : List Action)
    → Rerouted es s (record s { catch_event_map = es; log = log })
rerouted es s log = record {
  parent = refl;
  self = refl;
  err_handling = refl;
  leaf = refl;
  waiting = refl;
  peers = refl;
  catch_event_map = refl;
  initialized = refl;
}

pub Rerouted-trans :
    {es fs : List CatchEntry} {s t u : Manager}
    → Rerouted es s t
    → Rerouted fs t u
    → Rerouted fs s u
Rerouted-trans h k = record {
  parent = k.parent ∙ h.parent;
  self = k.self ∙ h.self;
  err_handling = k.err_handling ∙ h.err_handling;
  leaf = k.leaf ∙ h.leaf;
  waiting = k.waiting ∙ h.waiting;
  peers = k.peers ∙ h.peers;
  catch_event_map = k.catch_event_map;
  initialized = k.initialized ∙ h.initialized;
}

-- A step that only calls, then another one.
Called-trans : {s t u : Manager} → Called s t → Called t u → Called s u
Called-trans {s} {t} {u} h k = subst (λ es. Rerouted es s u) h.catch_event_map (Rerouted-trans h k)

Called-if : (b : Bool) {s t : Manager} → Called s t → Called s (if b then s else t)
Called-if true {s} h = rerouted s.catch_event_map s s.log
Called-if false h = h

-- The catch map is replaced, then the network is called.
pub Rerouted-Called :
    (es : List CatchEntry) (s t : Manager)
    → Called (record s { catch_event_map = es }) t
    → Rerouted es s t
Rerouted-Called es s t h = record {
  parent = h.parent;
  self = h.self;
  err_handling = h.err_handling;
  leaf = h.leaf;
  waiting = h.waiting;
  peers = h.peers;
  catch_event_map = h.catch_event_map;
  initialized = h.initialized;
}

module _ (env : Env) where
  pub send_msg-Called : (m : Msg) (s : Manager) → Called s (send_msg env m s).1
  unfolding send_msg
  send_msg-Called m s = rerouted s.catch_event_map s _

  pub propagate_to-Called :
      (cs : List Comp) (t : MsgType) (e : Event) (l : LocationId) (s : Manager)
      → Called s (propagate_to env cs t e l s)
  unfolding propagate_to
  propagate_to-Called [] t e l s = rerouted s.catch_event_map s s.log
  propagate_to-Called (c ∷ cs) t e l s =
      Called-trans
        (Called-if (not (is_agent c.id) || is_equal_location_id c.id.location_id l)
          (send_msg-Called (reg_msg env t e c.id s) s))
        (propagate_to-Called cs t e l _)

  pub reg_propagation-Called :
      (t : MsgType) (e : Event) (l : LocationId) (s : Manager)
      → Called s (reg_propagation env t e l s)
  unfolding reg_propagation
  reg_propagation-Called t e l s = propagate_to-Called s.peers t e l s

  pub send_masks-Called :
      (id : FtbId) (es : List CatchEntry) (s : Manager) → Called s (send_masks env id es s)
  unfolding send_masks
  send_masks-Called id [] s = rerouted s.catch_event_map s s.log
  send_masks-Called id (e ∷ es) s = Called-trans (send_msg-Called _ s) (send_masks-Called id es _)

-- The catch map without the route from the mask to the component.
unfoldable pub drop_route : FtbId → Event → List CatchEntry → List CatchEntry
drop_route id mask es = elim (find_entry mask es) [
  | none ↦ es
  | some e ↦
      let rest = Map.remove_node self_id is_equal_ftb_id id e.comps in
      if has_id id e.comps
      then (if Map.is_empty rest
          then Map.remove_node entry_mask is_equal_event_mask mask es
          else Map.update entry_mask is_equal_event_mask mask (λ x. record x { comps = rest }) es)
      else es
]

unfoldable pub drop_routes : FtbId → List Event → List CatchEntry → List CatchEntry
unfolding drop_route
drop_routes id [] es = es
drop_routes id (m ∷ ms) es = drop_routes id ms (drop_route id m es)

module _ (env : Env) where
  shrink_entry-Rerouted :
      (c : Comp) (m : Event) (e : CatchEntry) (rest : List FtbId) (s : Manager)
      → Rerouted
          (if Map.is_empty rest
            then Map.remove_node entry_mask is_equal_event_mask m s.catch_event_map
            else Map.update entry_mask is_equal_event_mask m
                (λ x. record x { comps = rest })
                s.catch_event_map)
          s
          (shrink_entry env c m e rest s)
  unfolding shrink_entry
  shrink_entry-Rerouted c m e rest s = elim (Bool-cases (Map.is_empty rest)) [
    | inl last ↦
        rw (last, shrink_entry) (Rerouted-Called _ s _ (reg_propagation-Called env _ _ _ _))
    | inr more ↦ rw (more, shrink_entry) (rerouted _ s s.log)
  ]

  pub remove_com-Rerouted :
      (c : Comp) (m : Event) (s : Manager)
      → Rerouted (drop_route c.id m s.catch_event_map) s (remove_com_from_catch_map env c m s)
  unfolding remove_com_from_catch_map drop_route
  remove_com-Rerouted c m s = elim (Option-cases (find_entry m s.catch_event_map)) [
    | inl missing ↦ rw (missing, remove_com_from_catch_map, drop_route) (rerouted _ s s.log)
    | inr (e, found) ↦ elim (Bool-cases (has_id c.id e.comps)) [
      | inl there ↦
          let kept = Map.Laws.remove_key_of_has self_id is_equal_ftb_id c.id e.comps there in
          rw (found, there, kept, remove_com_from_catch_map, drop_route)
            (rw kept (shrink_entry-Rerouted c m e _ s))
      | inr gone ↦
          let kept = Map.Laws.remove_key_of_not_has self_id is_equal_ftb_id c.id e.comps gone in
          rw (found, gone, kept, remove_com_from_catch_map, drop_route) (rerouted _ s s.log)
    ]
  ]

  clean_masks-Rerouted :
      (c : Comp) (ms : List Event) (s : Manager)
      → Rerouted (drop_routes c.id ms s.catch_event_map) s (clean_masks env c ms s)
  unfolding clean_masks drop_routes
  clean_masks-Rerouted c [] s = rerouted _ s s.log
  clean_masks-Rerouted c (m ∷ ms) s =
      let one = remove_com-Rerouted c m s in
      rw (← one.catch_event_map) (Rerouted-trans one (clean_masks-Rerouted c ms _))

  pub clean_component-Rerouted :
      (c : Comp) (s : Manager)
      → Rerouted (drop_routes c.id c.catch_event_set s.catch_event_map) s (clean_component env c s)
  unfolding clean_component
  clean_component-Rerouted c s = clean_masks-Rerouted c c.catch_event_set s
