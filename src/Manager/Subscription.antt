-- ===== src/Manager/Subscription.antt =====
-- FTBM_Register_subscription and FTBM_Cancel_subscription: what they add to and take from the
-- relation of components and masks, in both tables alike.
use ftb.Prelude.{◌≡◌, refl, sym, subst, false, not, ◌&&◌, ◌||◌, some, arith, inl, inr, Option-cases}
use ftb.Defs.{FtbId, Event}
use ftb.Map
use ftb.Map.{Status, exist, done, not_exist}
use ftb.Map.Laws
use ftb.Manager.State.{Comp, Manager, Env, self_mask, find_comp, has_mask}
use ftb.Manager.Frame.{remove_com-Rerouted}
use ftb.Manager.Subscriptions.{put_masks, subscribe, unsubscribe}
use ftb.Manager.Routes.{
  holds, IsCatchMap, IsPeerTable, same_id, same_mask, id_eq, mask_eq, drop_route-IsCatchMap,
  routed-drop_route,
}
use ftb.Manager.Tables.{find_comp_sound, find_comp-HasSet, holds-put, put-IsPeerTable, holds-find}
use ftb.Manager.Coherence.{IsSound}
use ftb.Manager.Registration.{Entered, enter_catch_map-Entered}

-- `t` is sound, and relates the components to the masks as `s` does, and `id` to `mask` too.
pub record Subscribed (id : FtbId) (mask : Event) (s t : Manager) : Type 0 where
  pub sound : IsSound t
  pub relation :
      (j : FtbId) (n : Event)
      → holds t.peers j n ≡ (holds s.peers j n || (same_mask mask n && same_id id j))

-- `t` is sound, and relates the components to the masks as `s` does, but not `id` to `mask`.
pub record Unsubscribed (id : FtbId) (mask : Event) (s t : Manager) : Type 0 where
  pub sound : IsSound t
  pub relation :
      (j : FtbId) (n : Event)
      → holds t.peers j n ≡ (holds s.peers j n && not (same_mask mask n && same_id id j))

module _ (env : Env) (s : Manager) (h : IsSound s) (id : FtbId) (c : Comp) (m : Event)
    (found : find_comp id s.peers ≡ some c) where
  -- The pair of a component found by `id` is the pair of `id`.
  same_found : (j : FtbId) → same_id c.id j ≡ same_id id j
  same_found j = id_eq.is_cong c.id id j (find_comp_sound s.peers h.table id c found)

  -- The catch map takes in the pair after the table of peers has done so.
  Entered-Subscribed :
      (u t : Manager)
      → u.catch_event_map ≡ s.catch_event_map
      → IsPeerTable u.peers
      → ((j : FtbId) (n : Event)
          → holds u.peers j n ≡ (holds s.peers j n || (same_mask m n && same_id id j)))
      → Entered c.id m u t
      → Subscribed id m s t
  Entered-Subscribed u t same table new e = record {
    sound = record {
      table = subst IsPeerTable (sym e.peers) table;
      catch = e.catch;
      agree =
          λ j n. ground (arith, e.peers, same, e.routes j n, h.agree j n, new j n, same_found j);
    };
    relation = λ j n. ground (arith, e.peers, new j n);
  }

  abbrev with_mask : Manager
  with_mask = put_masks c (Map.insert self_mask same_mask m c.catch_event_set).1 s

  new_pair :
      (j : FtbId) (n : Event)
      → holds with_mask.peers j n ≡ (holds s.peers j n || (same_mask m n && same_id id j))
  new_pair j n = ground (
    arith,
    holds-put s.peers h.table c (Map.insert self_mask same_mask m c.catch_event_set).1 id j n found,
    Laws.has-insert self_mask same_mask mask_eq n m c.catch_event_set,
    holds-find id j n s.peers c found,
    same_found j,
  )

  with_mask-IsPeerTable : IsPeerTable with_mask.peers
  with_mask-IsPeerTable = put-IsPeerTable s.peers h.table c _ (
      Laws.insert-Distinct self_mask same_mask mask_eq m c.catch_event_set
        (find_comp-HasSet s.peers h.table id c found))

  -- A mask that the component does not have yet.
  pub subscribe-Subscribed :
      has_mask m c.catch_event_set ≡ false → Subscribed id m s (subscribe env c id m s)
  unfolding subscribe
  subscribe-Subscribed new =
      let kept = Laws.insert_of_not_has self_mask same_mask m c.catch_event_set new in
      rw (kept, subscribe)
        (Entered-Subscribed with_mask _ refl with_mask-IsPeerTable new_pair
          (enter_catch_map-Entered env c id m with_mask h.catch))

  abbrev without_mask : Manager
  without_mask = put_masks c (Map.remove_node self_mask same_mask m c.catch_event_set) s

  gone_pair :
      (j : FtbId) (n : Event)
      → holds without_mask.peers j n ≡ (holds s.peers j n && not (same_mask m n && same_id id j))
  gone_pair j n = ground (
    arith,
    holds-put s.peers h.table c (Map.remove_node self_mask same_mask m c.catch_event_set) id j n
        found,
    Laws.find_key-remove_node self_mask same_mask mask_eq n m c.catch_event_set
        (find_comp-HasSet s.peers h.table id c found),
    holds-find id j n s.peers c found,
    same_found j,
  )

  without_mask-IsPeerTable : IsPeerTable without_mask.peers
  without_mask-IsPeerTable = put-IsPeerTable s.peers h.table c _ (
      Laws.remove_node-Distinct self_mask same_mask mask_eq m c.catch_event_set
        (find_comp-HasSet s.peers h.table id c found))

  -- A mask that the component does not have: nothing goes.
  no_pair :
      has_mask m c.catch_event_set ≡ false
      → (j : FtbId) (n : Event)
      → holds s.peers j n ≡ (holds s.peers j n && not (same_mask m n && same_id id j))
  no_pair none_such j n = ground (
    arith,
    holds-find id j n s.peers c found,
    Laws.find_key_cong self_mask same_mask mask_eq m n c.catch_event_set,
    same_found j,
  )

  pub unsubscribe-Unsubscribed : Unsubscribed id m s (unsubscribe env c m s)
  unfolding unsubscribe
  unsubscribe-Unsubscribed =
      elim (Option-cases (Map.find_key self_mask same_mask m c.catch_event_set)) [
        | inl missing ↦
            rw (missing, unsubscribe) (record { sound = h; relation = no_pair (ground arith) })
        | inr (mask, there) ↦
            let r = remove_com-Rerouted env c mask without_mask in
            let k =
              Laws.find_key_sound self_mask same_mask mask_eq m c.catch_event_set mask there in
            rw (there, unsubscribe)
              (record {
                sound = record {
                  table = subst IsPeerTable (sym r.peers) without_mask-IsPeerTable;
                  catch =
                      subst IsCatchMap (sym r.catch_event_map)
                        (drop_route-IsCatchMap s.catch_event_map h.catch c.id mask);
                  agree = λ j n. ground (
                    arith,
                    r.peers,
                    r.catch_event_map,
                    routed-drop_route s.catch_event_map h.catch c.id j mask n,
                    h.agree j n,
                    gone_pair j n,
                    mask_eq.is_cong mask m n k,
                    same_found j,
                  );
                };
                relation = λ j n. ground (arith, r.peers, gone_pair j n);
              })
      ]
