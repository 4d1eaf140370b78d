-- ===== src/Manager/Routes.antt =====
-- The two tables as one relation between components and masks, and how dropping a route changes
-- each of them.
use ftb.Prelude.{
  ◌≡◌, refl, ap, IsEquality, Bool, true, false, not, ◌&&◌, List, none, some, arith, is_some, inl,
  inr, Bool-cases, Option-cases, All,
}
use ftb.Defs.{FtbId, Event}
use ftb.Match.{is_equal_ftb_id, is_equal_event_mask}
use ftb.Match.Laws.{is_equal_ftb_id-IsEquality, is_equal_event_mask-IsEquality}
use ftb.Map
use ftb.Map.Laws
use ftb.Map.Laws.{Distinct}
use ftb.Map.Every
use ftb.Manager.State.{
  Comp, CatchEntry, comp_id, entry_mask, self_id, self_mask, find_comp, find_entry, has_id,
  has_mask,
}
use ftb.Manager.Frame.{drop_route}

-- The peer `id` has the mask in its own set.
unfoldable pub holds : List Comp → FtbId → Event → Bool
holds ps id mask = elim (find_comp id ps) [
  | none ↦ false
  | some c ↦ has_mask mask c.catch_event_set
]

-- The catch map leads from the mask to the component `id`.
unfoldable pub routed : List CatchEntry → FtbId → Event → Bool
routed es id mask = elim (find_entry mask es) [ none ↦ false | some e ↦ has_id id e.comps ]

-- Every entry lists at least one component, and none twice.
pub record IsEntry (e : CatchEntry) : Type 0 where
  pub distinct : Distinct self_id is_equal_ftb_id e.comps
  pub inhabited : Map.is_empty e.comps ≡ false

abbrev pub HasSet : Comp → Type 0
HasSet c = Distinct self_mask is_equal_event_mask c.catch_event_set

-- The shape of a catch map.
pub record IsCatchMap (es : List CatchEntry) : Type 0 where
  pub masks : Distinct entry_mask is_equal_event_mask es
  pub entries : All IsEntry es

-- The shape of the table of peers.
pub record IsPeerTable (ps : List Comp) : Type 0 where
  pub ids : Distinct comp_id is_equal_ftb_id ps
  pub sets : All HasSet ps

-- Both tables have their shape and describe the same relation.
pub record IsCoherent (ps : List Comp) (es : List CatchEntry) : Type 0 where
  pub table : IsPeerTable ps
  pub catch : IsCatchMap es
  pub agree : (id : FtbId) (mask : Event) → routed es id mask ≡ holds ps id mask

abbrev pub same_id : FtbId → FtbId → Bool
same_id = is_equal_ftb_id

abbrev pub same_mask : Event → Event → Bool
same_mask = is_equal_event_mask

abbrev pub id_eq : IsEquality is_equal_ftb_id
id_eq = is_equal_ftb_id-IsEquality

abbrev pub mask_eq : IsEquality is_equal_event_mask
mask_eq = is_equal_event_mask-IsEquality

pub find_entry_cong :
    (m n : Event) (es : List CatchEntry) → same_mask m n ≡ true → find_entry m es ≡ find_entry n es
find_entry_cong = Laws.find_key_cong entry_mask same_mask mask_eq

pub has_id_cong :
    (i j : FtbId) (ids : List FtbId) → same_id i j ≡ true → has_id i ids ≡ has_id j ids
has_id_cong i j ids h = ap is_some (Laws.find_key_cong self_id same_id id_eq i j ids h)

pub has_id-remove_node :
    (j id : FtbId) (ids : List FtbId)
    → Distinct self_id same_id ids
    → has_id j (Map.remove_node self_id same_id id ids) ≡ (has_id j ids && not (same_id id j))
has_id-remove_node j id ids d =
    ground (arith, Laws.find_key-remove_node self_id same_id id_eq j id ids d)

module _ (es : List CatchEntry) (k : IsCatchMap es) where
  pub find_entry-IsEntry : (m : Event) (e : CatchEntry) → find_entry m es ≡ some e → IsEntry e
  find_entry-IsEntry m e h = Every.All-find_key entry_mask same_mask IsEntry m es e k.entries h

  pub drop_route-IsCatchMap : (id : FtbId) (m : Event) → IsCatchMap (drop_route id m es)
  unfolding drop_route
  drop_route-IsCatchMap id m = elim (Option-cases (find_entry m es)) [
    | inl missing ↦ rw (missing, drop_route) k
    | inr (e, found) ↦ elim (Bool-cases (has_id id e.comps)) [
      | inr gone ↦ rw (found, gone, drop_route) k
      | inl there ↦
          let rest = Map.remove_node self_id same_id id e.comps in
          elim (Bool-cases (Map.is_empty rest)) [
            | inl last ↦
                rw (found, there, last, drop_route)
                  (record {
                    masks =
                        Laws.remove_node-Distinct entry_mask same_mask
                          is_equal_event_mask-IsEquality m es k.masks;
                    entries = Every.remove_node-All entry_mask same_mask IsEntry m es k.entries;
                  })
            | inr more ↦
                rw (found, there, more, drop_route)
                  (record {
                    masks =
                        Laws.update-Distinct entry_mask same_mask is_equal_event_mask-IsEquality m _
                          es (λ n. refl) k.masks;
                    entries =
                        Every.update-All entry_mask same_mask IsEntry m _ es
                          (λ n. record {
                            distinct =
                                Laws.remove_node-Distinct self_id same_id is_equal_ftb_id-IsEquality
                                  id e.comps (find_entry-IsEntry m e found).distinct;
                            inhabited = more;
                          })
                          k.entries;
                  })
          ]
    ]
  ]

  -- Only the pairs of this component and this mask go.
  pub routed-drop_route :
      (id j : FtbId) (m n : Event)
      → routed (drop_route id m es) j n ≡ (routed es j n && not (same_mask m n && same_id id j))
  unfolding routed drop_route
  routed-drop_route id j m n = elim (Option-cases (find_entry m es)) [
    | inl missing ↦ rw (missing, drop_route) (ground (arith, find_entry_cong m n es))
    | inr (e, found) ↦ elim (Bool-cases (has_id id e.comps)) [
      | inr gone ↦
          rw (found, gone, drop_route)
            (ground (arith, find_entry_cong m n es, has_id_cong id j e.comps))
      | inl there ↦
          let rest = Map.remove_node self_id same_id id e.comps in
          let left = has_id-remove_node j id e.comps (find_entry-IsEntry m e found).distinct in
          elim (Bool-cases (Map.is_empty rest)) [
            | inl last ↦
                rw (found, there, last, drop_route)
                  (ground (
                    arith,
                    left,
                    find_entry_cong m n es,
                    Laws.find_key_of_is_empty self_id same_id j rest last,
                    Laws.find_key-remove_node entry_mask same_mask mask_eq n m es k.masks,
                  ))
            | inr more ↦
                rw (found, there, more, drop_route)
                  (ground (
                    arith,
                    left,
                    find_entry_cong m n es,
                    Laws.find_key-update entry_mask same_mask mask_eq n m
                        (λ x. record x { comps = rest }) es (λ x. refl) k.masks,
                  ))
          ]
    ]
  ]
