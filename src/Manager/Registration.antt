-- ===== src/Manager/Registration.antt =====
-- The second half of FTBM_Register_subscription: what it adds to the catch map.
use ftb.Prelude.{
  ◌≡◌, refl, sym, ap, subst, ◌∙◌, true, false, ◌&&◌, ◌||◌, List, [], ◌∷◌, none, some, arith, inl,
  inr, Bool-cases, Option-cases,
}
use ftb.Defs.{FtbId, Event}
use ftb.Map
use ftb.Map.{Status, exist, done, not_exist}
use ftb.Map.Laws
use ftb.Map.Every
use ftb.Manager.State.{Comp, CatchEntry, Manager, Env, entry_mask, self_id, find_entry, has_id}
use ftb.Manager.Frame.{Rerouted, Rerouted-Called, reg_propagation-Called}
use ftb.Manager.Subscriptions.{enter_catch_map}
use ftb.Manager.Routes.{
  routed, IsEntry, IsCatchMap, same_id, same_mask, id_eq, mask_eq, find_entry_cong, has_id_cong,
  find_entry-IsEntry,
}

-- `t` has the peers of `s`, and a catch map with one more pair.
pub record Entered (id : FtbId) (mask : Event) (s t : Manager) : Type 0 where
  pub peers : t.peers ≡ s.peers
  pub catch : IsCatchMap t.catch_event_map
  pub routes :
      (j : FtbId) (n : Event)
      → routed t.catch_event_map j n
        ≡ (routed s.catch_event_map j n || (same_mask mask n && same_id id j))

Rerouted-Entered :
    (id : FtbId) (m : Event) (es : List CatchEntry) (s t : Manager)
    → Rerouted es s t
    → IsCatchMap es
    → ((j : FtbId) (n : Event)
        → routed es j n ≡ (routed s.catch_event_map j n || (same_mask m n && same_id id j)))
    → Entered id m s t
Rerouted-Entered id m es s t r k h = record {
  peers = r.peers;
  catch = subst IsCatchMap (sym r.catch_event_map) k;
  routes = λ j n. ap (λ (x : List CatchEntry). routed x j n) r.catch_event_map ∙ h j n;
}

module _ (es : List CatchEntry) (k : IsCatchMap es) (id : FtbId) (m : Event) where
  -- A mask that is new, with its first component.
  abbrev fresh : CatchEntry
  fresh = record { mask = m; comps = id ∷ [] }

  fresh-IsEntry : IsEntry fresh
  unfolding Map.find_key Map.is_empty
  fresh-IsEntry = record { distinct = (refl, tt); inhabited = refl }

  fresh-IsCatchMap : IsCatchMap (Map.insert entry_mask same_mask fresh es).1
  fresh-IsCatchMap = record {
    masks = Laws.insert-Distinct entry_mask same_mask mask_eq fresh es k.masks;
    entries = Every.insert-All entry_mask same_mask IsEntry fresh es fresh-IsEntry k.entries;
  }

  routed-fresh :
      find_entry m es ≡ none
      → (j : FtbId) (n : Event)
      → routed (Map.insert entry_mask same_mask fresh es).1 j n
        ≡ (routed es j n || (same_mask m n && same_id id j))
  unfolding routed Map.find_key
  routed-fresh missing j n =
      ground (
        arith,
        Laws.find_key-insert entry_mask same_mask mask_eq n fresh es,
        find_entry_cong m n es,
      )

  module _ (e : CatchEntry) (found : find_entry m es ≡ some e) where
    abbrev pub more : List FtbId
    more = (Map.insert self_id same_id id e.comps).1

    abbrev pub extended : List CatchEntry
    extended = Map.update entry_mask same_mask m (λ x. record x { comps = more }) es

    more-IsEntry :
        (x : CatchEntry) → has_id id e.comps ≡ false → IsEntry (record x { comps = more })
    more-IsEntry x new = record {
      distinct =
          Laws.insert-Distinct self_id same_id id_eq id e.comps
            (find_entry-IsEntry es k m e found).distinct;
      inhabited =
          ap (λ (r : Status × List FtbId). Map.is_empty r.1)
            (Laws.insert_of_not_has self_id same_id id e.comps new)
          ∙ Laws.is_empty-append self_id same_id e.comps id;
    }

    extended-IsCatchMap : has_id id e.comps ≡ false → IsCatchMap extended
    extended-IsCatchMap new = record {
      masks = Laws.update-Distinct entry_mask same_mask mask_eq m _ es (λ x. refl) k.masks;
      entries =
          Every.update-All entry_mask same_mask IsEntry m _ es (λ x. more-IsEntry x new) k.entries;
    }

    pub routed-extended :
        (j : FtbId) (n : Event)
        → routed extended j n ≡ (routed es j n || (same_mask m n && same_id id j))
    unfolding routed
    routed-extended j n = ground (
      arith,
      Laws.has-insert self_id same_id id_eq j id e.comps,
      Laws.find_key-update entry_mask same_mask mask_eq n m (λ x. record x { comps = more }) es
          (λ x. refl) k.masks,
      find_entry_cong m n es,
    )

    routed_again :
        has_id id e.comps ≡ true
        → (j : FtbId) (n : Event)
        → routed es j n ≡ (routed es j n || (same_mask m n && same_id id j))
    unfolding routed
    routed_again old j n = ground (arith, find_entry_cong m n es, has_id_cong id j e.comps)

module _ (env : Env) where
  pub enter_catch_map-Entered :
      (c : Comp) (id : FtbId) (m : Event) (s : Manager)
      → IsCatchMap s.catch_event_map
      → Entered c.id m s (enter_catch_map env c id m m s)
  unfolding enter_catch_map
  enter_catch_map-Entered c id m s k = elim (Option-cases (find_entry m s.catch_event_map)) [
    | inl missing ↦
        rw (missing, enter_catch_map)
          (Rerouted-Entered c.id m _ s _
            (Rerouted-Called _ s _ (reg_propagation-Called env _ _ _ _))
            (fresh-IsCatchMap s.catch_event_map k c.id m)
            (routed-fresh s.catch_event_map k c.id m missing))
    | inr (e, found) ↦ elim (Bool-cases (has_id c.id e.comps)) [
      | inl old ↦
          let kept = Laws.insert_of_has self_id same_id c.id e.comps old in
          rw (found, enter_catch_map, kept)
            (record {
              peers = refl;
              catch = k;
              routes = routed_again s.catch_event_map k c.id m e found old;
            })
      | inr new ↦
          let kept = Laws.insert_of_not_has self_id same_id c.id e.comps new in
          rw (found, enter_catch_map, kept)
            (Rerouted-Entered c.id m _ s _
              (Rerouted-Called _ s _ (reg_propagation-Called env _ _ _ _))
              (extended-IsCatchMap s.catch_event_map k c.id m e found new)
              (routed-extended s.catch_event_map k c.id m e found))
    ]
  ]
