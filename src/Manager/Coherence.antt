-- ===== src/Manager/Coherence.antt =====
-- The operations on clients keep the table of peers and the catch map coherent.
use ftb.Prelude.{◌≡◌, refl, sym, ◌∙◌, not, ◌&&◌, List, [], some, arith, inl, inr, Bool-cases, ◌==◌}
use ftb.Defs.{FtbId}
use ftb.Map
use ftb.Map.{Status, exist, done, not_exist}
use ftb.Map.Laws
use ftb.Manager.State.{Comp, CatchEntry, Manager, Env, comp_id, find_comp}
use ftb.Manager.Frame.{Called, drop_routes, send_masks-Called}
use ftb.Manager.Lifecycle.{connect_parent, readopt, rejoin, reconnect, parent_comp}
use ftb.Manager.Routes.{IsCoherent, same_id}
use ftb.Manager.Tables.{
  drop_routes-IsCatchMap, routed-drop_routes, forget-IsPeerTable, holds-forget, join-IsPeerTable,
  holds-join, holds-find,
}

-- The tables of a running agent agree.
abbrev pub IsSound : Manager → Type 0
IsSound s = IsCoherent s.peers s.catch_event_map

-- A state with the same tables is as sound.
pub IsSound-same :
    (s t : Manager)
    → t.peers ≡ s.peers
    → t.catch_event_map ≡ s.catch_event_map
    → IsSound s
    → IsSound t
IsSound-same s t p c h = rw (p, c) h

pub IsSound-Called : (s t : Manager) → Called s t → IsSound s → IsSound t
IsSound-Called s t r = IsSound-same s t r.peers r.catch_event_map

module _ (ps : List Comp) (es : List CatchEntry) (k : IsCoherent ps es) where
  -- A peer leaves with all its routes.
  pub leave-IsCoherent :
      (id : FtbId) (c : Comp)
      → find_comp id ps ≡ some c
      → IsCoherent (Map.remove_node comp_id same_id c.id ps) (drop_routes c.id c.catch_event_set es)
  leave-IsCoherent id c h = record {
    table = forget-IsPeerTable ps k.table c.id;
    catch = drop_routes-IsCatchMap c.id c.catch_event_set es k.catch;
    agree = λ j n. ground (
      arith,
      routed-drop_routes c.id j c.catch_event_set n es k.catch,
      holds-forget ps k.table c.id j n,
      holds-find id j n ps c h,
      k.agree j n,
    );
  }

  -- A peer with no masks joins.
  pub join-IsCoherent :
      (c : Comp) → c.catch_event_set ≡ [] → IsCoherent (Map.insert comp_id same_id c ps).1 es
  join-IsCoherent c e = record {
    table = join-IsPeerTable ps k.table c e;
    catch = k.catch;
    agree = λ j n. k.agree j n ∙ sym (holds-join ps k.table c j n e);
  }

module _ (env : Env) where
  readopt-IsSound :
      (c : Comp) (s : Manager) → c.catch_event_set ≡ [] → IsSound s → IsSound (readopt env c s)
  unfolding readopt
  readopt-IsSound c s e h = elim (Bool-cases (Map.has comp_id same_id c.id s.peers)) [
    | inl old ↦ let kept = Laws.insert_of_has comp_id same_id c s.peers old in rw (kept, readopt) h
    | inr new ↦
        let kept = Laws.insert_of_not_has comp_id same_id c s.peers new in
        rw (kept, readopt)
          (IsSound-Called _ _ (send_masks-Called env c.id s.catch_event_map _)
            (join-IsCoherent s.peers s.catch_event_map h c e))
  ]

  rejoin-IsSound : (s : Manager) → IsSound s → IsSound (rejoin env s)
  unfolding rejoin
  rejoin-IsSound s h = elim (Bool-cases (not (s.leaf == 0) && s.parent.pid == 0)) [
    | inl alone ↦ rw (alone, rejoin) h
    | inr other ↦ elim (Bool-cases (s.leaf == 0 && not (s.parent.pid == 0))) [
      | inl found ↦ rw (other, found, rejoin) (readopt-IsSound (parent_comp s.parent) s refl h)
      | inr root ↦ rw (other, root, rejoin) h
    ]
  ]

  pub reconnect-IsSound : (s : Manager) → IsSound s → IsSound (reconnect env s)
  unfolding reconnect connect_parent
  reconnect-IsSound s h = rejoin-IsSound (connect_parent env s) h
