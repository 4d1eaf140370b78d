-- ===== src/Manager/Tables.antt =====
-- How each change of the table of peers and of the catch map shows in the relation that the two
-- tables describe.
use ftb.Prelude.{◌≡◌, refl, true, not, ◌&&◌, List, [], ◌∷◌, some, arith, if◌then◌else◌}
use ftb.Defs.{FtbId, Event}
use ftb.Map
use ftb.Map.{exist, done}
use ftb.Map.Laws
use ftb.Map.Laws.{Distinct}
use ftb.Map.Every
use ftb.Manager.State.{Comp, CatchEntry, comp_id, self_mask, find_comp, has_mask}
use ftb.Manager.Frame.{drop_route, drop_routes}
use ftb.Manager.Routes.{
  holds, routed, HasSet, IsCatchMap, IsPeerTable, same_id, same_mask, id_eq, drop_route-IsCatchMap,
  routed-drop_route,
}

pub drop_routes-IsCatchMap :
    (id : FtbId) (ms : List Event) (es : List CatchEntry)
    → IsCatchMap es
    → IsCatchMap (drop_routes id ms es)
unfolding drop_routes
drop_routes-IsCatchMap id [] es k = k
drop_routes-IsCatchMap id (m ∷ ms) es k =
    drop_routes-IsCatchMap id ms (drop_route id m es) (drop_route-IsCatchMap es k id m)

-- Only the pairs of this component and one of these masks go.
pub routed-drop_routes :
    (id j : FtbId) (ms : List Event) (n : Event) (es : List CatchEntry)
    → IsCatchMap es
    → routed (drop_routes id ms es) j n ≡ (routed es j n && not (has_mask n ms && same_id id j))
unfolding drop_routes Map.find_key
routed-drop_routes id j [] n es k = ground arith
routed-drop_routes id j (m ∷ ms) n es k = ground (
  arith,
  routed-drop_routes id j ms n (drop_route id m es) (drop_route-IsCatchMap es k id m),
  routed-drop_route es k id j m n,
)

pub find_comp_cong :
    (i j : FtbId) (ps : List Comp) → same_id i j ≡ true → find_comp i ps ≡ find_comp j ps
find_comp_cong = Laws.find_key_cong comp_id same_id id_eq

module _ (ps : List Comp) (t : IsPeerTable ps) where
  pub find_comp-HasSet : (id : FtbId) (c : Comp) → find_comp id ps ≡ some c → HasSet c
  find_comp-HasSet id c h = Every.All-find_key comp_id same_id HasSet id ps c t.sets h

  pub find_comp_sound : (id : FtbId) (c : Comp) → find_comp id ps ≡ some c → same_id c.id id ≡ true
  find_comp_sound id c h = Laws.find_key_sound comp_id same_id id_eq id ps c h

  pub forget-IsPeerTable : (id : FtbId) → IsPeerTable (Map.remove_node comp_id same_id id ps)
  forget-IsPeerTable id = record {
    ids = Laws.remove_node-Distinct comp_id same_id id_eq id ps t.ids;
    sets = Every.remove_node-All comp_id same_id HasSet id ps t.sets;
  }

  pub holds-forget :
      (id j : FtbId) (n : Event)
      → holds (Map.remove_node comp_id same_id id ps) j n ≡ (holds ps j n && not (same_id id j))
  unfolding holds
  holds-forget id j n =
      ground (arith, Laws.find_key-remove_node comp_id same_id id_eq j id ps t.ids)

  -- A component that has no masks changes nothing.
  pub join-IsPeerTable :
      (c : Comp) → c.catch_event_set ≡ [] → IsPeerTable (Map.insert comp_id same_id c ps).1
  join-IsPeerTable c e = record {
    ids = Laws.insert-Distinct comp_id same_id id_eq c ps t.ids;
    sets = Every.insert-All comp_id same_id HasSet c ps (rw e tt) t.sets;
  }

  pub holds-join :
      (c : Comp) (j : FtbId) (n : Event)
      → c.catch_event_set ≡ []
      → holds (Map.insert comp_id same_id c ps).1 j n ≡ holds ps j n
  unfolding holds Map.find_key
  holds-join c j n e = ground (arith, Laws.find_key-insert comp_id same_id id_eq j c ps)

  module _ (c : Comp) (ms : List Event) where
    abbrev put : List Comp
    put = Map.update comp_id same_id c.id (λ x. record x { catch_event_set = ms }) ps

    pub put-IsPeerTable : Distinct self_mask same_mask ms → IsPeerTable put
    put-IsPeerTable d = record {
      ids = Laws.update-Distinct comp_id same_id id_eq c.id _ ps (λ x. refl) t.ids;
      sets = Every.update-All comp_id same_id HasSet c.id _ ps (λ x. d) t.sets;
    }

    pub holds-put :
        (id j : FtbId) (n : Event)
        → find_comp id ps ≡ some c
        → holds put j n ≡ (if same_id c.id j then has_mask n ms else holds ps j n)
    unfolding holds
    holds-put id j n h = ground (
      arith,
      find_comp_sound id c h,
      find_comp_cong c.id id ps,
      find_comp_cong c.id j ps,
      Laws.find_key-update comp_id same_id id_eq j c.id (λ x. record x { catch_event_set = ms }) ps
          (λ x. refl) t.ids,
    )

-- The peer that is found holds the masks of its set.
pub holds-find :
    (id j : FtbId) (n : Event) (ps : List Comp) (c : Comp)
    → find_comp id ps ≡ some c
    → same_id c.id j ≡ true
    → holds ps j n ≡ has_mask n c.catch_event_set
unfolding holds
holds-find id j n ps c h e = ground (
  arith,
  Laws.find_key_sound comp_id same_id id_eq id ps c h,
  find_comp_cong c.id id ps,
  find_comp_cong c.id j ps,
)
