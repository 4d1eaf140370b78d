-- ===== src/Manager/Shutdown.antt =====
-- FTBM_Finalize of src/manager_lib/ftb_manager_lib.c: whom a manager tells that it leaves.
use ftb.Prelude.{
  ◌≡◌, refl, ap, ◌∙◌, Bool, true, false, not, ◌||◌, List, [], ◌∷◌, arith, if◌then◌else◌, inl, inr,
  Bool-cases, Option-cases, ◌==◌,
}
use ftb.Defs.{
  Code, success, LocationId, FtbId, Event, MsgType, client_dereg, subscription_cancel, Run, ok,
  crash,
}
use ftb.Match.{is_equal_location_id, is_equal_ftb_id}
use ftb.Map
use ftb.Map.Laws
use ftb.Manager.State.{
  Comp, CatchEntry, Action, send, Manager, Env, is_agent, find_entry, has_id, self_id,
}
use ftb.Manager.Propagation.{
  send_msg, reg_msg, propagate_to, reg_propagation, remove_com_from_catch_map, shrink_entry,
  clean_masks, clean_component,
}
use ftb.Manager.Lifecycle.{say_farewell, leave_msg, finalized, finalize}
use ftb.Manager.Coherence.{IsSound}
use ftb.Manager.Freed.{any_later_masks, all_farewells, dismiss_first, dismiss_later}
use ftb.Manager.Frame.{clean_component-Rerouted}

-- A deregistration is put in front of the senders and the receivers of the others.
unfoldable note : MsgType → FtbId × FtbId → List (FtbId × FtbId) → List (FtbId × FtbId)
note client_dereg p ps = p ∷ ps
note _ p ps = ps

-- The sender and the receiver of each deregistration that was sent, the newest first.
unfoldable pub farewells : List Action → List (FtbId × FtbId)
unfolding note
farewells [] = []
farewells (send m ∷ calls) = note m.msg_type (m.src, m.dst) (farewells calls)
farewells (_ ∷ calls) = farewells calls

-- A pair for each agent among the peers, in their order, in front of the others.
unfoldable pub to_agents : FtbId → List Comp → List (FtbId × FtbId) → List (FtbId × FtbId)
to_agents self [] ps = ps
to_agents self (c ∷ cs) ps = to_agents self cs (if is_agent c.id then (self, c.id) ∷ ps else ps)

-- What the loop over the peers leaves: who was told, and the fields that stay.
record Dismissed (cs : List Comp) (s t : Manager) : Type 0 where
  told : farewells t.log ≡ to_agents s.self cs (farewells s.log)
  self : t.self ≡ s.self
  initialized : t.initialized ≡ s.initialized

-- What FTBM_Finalize leaves.
pub data Finalized (s : Manager) (r : Run (Code × Manager)) : Type 0 where
  idle : s.initialized ≡ false → r ≡ ok (success, s) → Finalized s r
  agent_left :
      (left : Manager)
      → s.initialized ≡ true
      → s.leaf ≡ 0
      → any_later_masks s.peers ≡ false
      → r ≡ ok (success, left)
      → left.initialized ≡ false
      → left.peers ≡ []
      → left.catch_event_map ≡ []
      → farewells left.log ≡ to_agents s.self s.peers (farewells s.log)
      → Finalized s r
  reads_peer :
      s.initialized ≡ true → s.leaf ≡ 0 → any_later_masks s.peers ≡ true → r ≡ crash → Finalized s r
  leaf_left :
      (dst : FtbId) (left : Manager)
      → s.initialized ≡ true
      → (s.leaf == 0) ≡ false
      → r ≡ ok (success, left)
      → left.initialized ≡ false
      → dst.location_id ≡ s.parent
      → farewells left.log ≡ (s.self, dst) ∷ farewells s.log
      → Finalized s r

module _ (env : Env) where
  sent_quiet :
      (skip : Bool) (e : Event) (id : FtbId) (s : Manager)
      → farewells
          (if skip then s else (send_msg env (reg_msg env subscription_cancel e id s) s).1).log
        ≡ farewells s.log
  unfolding send_msg reg_msg farewells note
  sent_quiet true e id s = refl
  sent_quiet false e id s = refl

  propagate_to_quiet :
      (cs : List Comp) (e : Event) (l : LocationId) (s : Manager)
      → farewells (propagate_to env cs subscription_cancel e l s).log ≡ farewells s.log
  unfolding propagate_to
  propagate_to_quiet [] e l s = refl
  propagate_to_quiet (c ∷ cs) e l s =
      propagate_to_quiet cs e l _
      ∙ sent_quiet (not (is_agent c.id) || is_equal_location_id c.id.location_id l) e c.id s

  shrink_entry_quiet :
      (c : Comp) (m : Event) (e : CatchEntry) (rest : List FtbId) (s : Manager)
      → farewells (shrink_entry env c m e rest s).log ≡ farewells s.log
  unfolding shrink_entry reg_propagation farewells Map.is_empty
  shrink_entry_quiet c m e [] s = propagate_to_quiet s.peers e.mask c.id.location_id _
  shrink_entry_quiet c m e (i ∷ rest) s = refl

  remove_com_quiet :
      (c : Comp) (m : Event) (s : Manager)
      → farewells (remove_com_from_catch_map env c m s).log ≡ farewells s.log
  unfolding remove_com_from_catch_map
  remove_com_quiet c m s = elim (Option-cases (find_entry m s.catch_event_map)) [
    | inl missing ↦
        let same : remove_com_from_catch_map env c m s ≡ s = ground (arith, missing) in
        ap (λ t. farewells t.log) same
    | inr (e, found) ↦ elim (Bool-cases (has_id c.id e.comps)) [
      | inl there ↦
          let kept = Map.Laws.remove_key_of_has self_id is_equal_ftb_id c.id e.comps there in
          let rest = Map.remove_node self_id is_equal_ftb_id c.id e.comps in
          let same : remove_com_from_catch_map env c m s ≡ shrink_entry env c m e rest s =
            ground (arith, found, kept) in
          ap (λ t. farewells t.log) same ∙ shrink_entry_quiet c m e rest s
      | inr gone ↦
          let kept = Map.Laws.remove_key_of_not_has self_id is_equal_ftb_id c.id e.comps gone in
          let same : remove_com_from_catch_map env c m s ≡ s = ground (arith, found, kept) in
          ap (λ t. farewells t.log) same
    ]
  ]

  clean_masks_quiet :
      (c : Comp) (ms : List Event) (s : Manager)
      → farewells (clean_masks env c ms s).log ≡ farewells s.log
  unfolding clean_masks
  clean_masks_quiet c [] s = refl
  clean_masks_quiet c (m ∷ ms) s = clean_masks_quiet c ms _ ∙ remove_com_quiet c m s

  clean_component_quiet :
      (c : Comp) (s : Manager) → farewells (clean_component env c s).log ≡ farewells s.log
  unfolding clean_component
  clean_component_quiet c s = clean_masks_quiet c c.catch_event_set s

  farewell-Dismissed :
      (c : Comp) (s : Manager)
      → (farewells (say_farewell env c s).log
          ≡ (if is_agent c.id then (s.self, c.id) ∷ farewells s.log else farewells s.log))
        × ((say_farewell env c s).self ≡ s.self)
        × ((say_farewell env c s).initialized ≡ s.initialized)
  unfolding say_farewell send_msg farewells note
  farewell-Dismissed c s =
      let frame = clean_component-Rerouted env c s in
      elim (Bool-cases (is_agent c.id)) [
        | inl agent ↦ rw agent (
          ap (λ x. (x, c.id) ∷ farewells (clean_component env c s).log) frame.self
              ∙ ap (λ ps. (s.self, c.id) ∷ ps) (clean_component_quiet c s),
          frame.self,
          frame.initialized,
        )
        | inr client ↦ rw client (clean_component_quiet c s, frame.self, frame.initialized)
      ]

  all_farewells-Dismissed : (cs : List Comp) (s : Manager) → Dismissed cs s (all_farewells env cs s)
  unfolding all_farewells to_agents
  all_farewells-Dismissed [] s = record { told = refl; self = refl; initialized = refl }
  all_farewells-Dismissed (c ∷ cs) s =
      let next = say_farewell env c s in
      let (told, self, initialized) = farewell-Dismissed c s in
      let h = all_farewells-Dismissed cs next in
      record {
        told =
            h.told
            ∙ ap (λ x. to_agents x cs (farewells next.log)) self
            ∙ ap (to_agents s.self cs) told;
        self = h.self ∙ self;
        initialized = h.initialized ∙ initialized;
      }

  -- FTBM_Finalize of a manager whose tables agree. One that is not initialised is left as it is, with
  -- success. A leaf sends a deregistration to the location of its parent, and no other one. An agent
  -- with a peer, other than the first of its table, that has subscribed to a mask reads a peer that it
  -- has freed; every other agent sends a deregistration to each agent among its peers, in their order,
  -- and no other one, and its tables are empty. The manager is not initialised then.
  pub finalize-Finalized : (s : Manager) → IsSound s → Finalized s (finalize env s)
  unfolding finalize leave_msg send_msg farewells note
  finalize-Finalized s k = elim (Bool-cases s.initialized) [
    | inr off ↦ idle off (ground arith)
    | inl on ↦
        let stopped : Manager = record s { initialized = false } in
        elim (Bool-cases (s.leaf == 0)) [
          | inl inner ↦ elim (Bool-cases (any_later_masks s.peers)) [
            | inl later ↦
                reads_peer on (ground arith) later
                  (rw (on, inner, dismiss_later env s.peers stopped k later) refl)
            | inr quiet ↦
                let h = all_farewells-Dismissed s.peers stopped in
                let cleared : Manager = record (all_farewells env s.peers stopped) {
                  peers = [];
                  catch_event_map = [];
                } in
                agent_left (finalized env cleared).1 on (ground arith) quiet
                  (rw (on, inner, dismiss_first env s.peers stopped quiet) refl) h.initialized refl
                  refl h.told
          ]
          | inr outer ↦
              leaf_left (leave_msg env s).dst
                (finalized env (send_msg env (leave_msg env stopped) stopped).1).1 on outer
                (rw (on, outer) refl) refl refl refl
        ]
  ]
