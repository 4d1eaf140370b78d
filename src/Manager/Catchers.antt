-- ===== src/Manager/Catchers.antt =====
-- The loops of FTBM_Get_catcher_comp_list over the catch map: the deliver set holds each peer that
-- wants the event once, and no other.
use ftb.Prelude.{
  ◌≡◌, ◌∙◌, Bool, true, false, ◌&&◌, ◌||◌, List, [], ◌∷◌, none, some, arith, inl, inr, Bool-cases,
  Option-cases, length, length-append, Bool-ext,
}
use ftb.Defs.{FtbId, Event}
use ftb.Match.{match_mask}
use ftb.Match.Laws.{match_mask_mask}
use ftb.Map
use ftb.Map.Laws
use ftb.Map.Laws.{Distinct}
use ftb.Manager.State.{Comp, CatchEntry, entry_mask, self_id, find_comp, has_id, has_mask}
use ftb.Manager.Subscriptions.{Catchers, add_catcher, collect_comps, collect_masks}
use ftb.Manager.Routes.{
  routed, holds, IsCoherent, same_id, same_mask, id_eq, mask_eq, find_entry_cong,
}

-- One of the masks matches the event.
unfoldable pub any_match : Event → List Event → Bool
any_match event [] = false
any_match event (m ∷ ms) = match_mask event m || any_match event ms

-- The peer `id` has subscribed to a mask that matches the event.
unfoldable pub interested : List Comp → Event → FtbId → Bool
unfolding any_match
interested ps event id = elim (find_comp id ps) [
  | none ↦ false
  | some c ↦ any_match event c.catch_event_set
]

-- The catch map leads from a mask that matches the event to `id`.
pub wanted : List CatchEntry → Event → FtbId → Bool
wanted [] event id = false
wanted (e ∷ es) event id = match_mask event e.mask && has_id id e.comps || wanted es event id

pub record IsCounted (r : Catchers) : Type 0 where
  pub distinct : Distinct self_id same_id r.catcher_set
  pub count : r.temp_len ≡ length r.catcher_set

add_catcher-IsCounted : (id : FtbId) (r : Catchers) → IsCounted r → IsCounted (add_catcher id r)
unfolding add_catcher
add_catcher-IsCounted id r k = elim (Bool-cases (has_id id r.catcher_set)) [
  | inl old ↦ rw (old, add_catcher) k
  | inr new ↦
      rw (new, add_catcher)
        (record {
          distinct = Laws.insert-Distinct self_id same_id id_eq id r.catcher_set k.distinct;
          count =
              rw (Laws.insert_of_not_has self_id same_id id r.catcher_set new)
                (omega (arith, k.count, length-append {0} r.catcher_set (id ∷ [])));
        })
]

has-add_catcher :
    (j id : FtbId) (r : Catchers)
    → has_id j (add_catcher id r).catcher_set ≡ (has_id j r.catcher_set || same_id id j)
unfolding add_catcher
has-add_catcher j id r = ground (
  arith,
  Laws.find_key_cong self_id same_id id_eq id j r.catcher_set,
  Laws.has-insert self_id same_id id_eq j id r.catcher_set,
)

collect_comps-IsCounted :
    (ids : List FtbId) (r : Catchers) → IsCounted r → IsCounted (collect_comps ids r)
unfolding collect_comps
collect_comps-IsCounted [] r k = k
collect_comps-IsCounted (id ∷ ids) r k =
    collect_comps-IsCounted ids (add_catcher id r) (add_catcher-IsCounted id r k)

has-collect_comps :
    (j : FtbId) (ids : List FtbId) (r : Catchers)
    → has_id j (collect_comps ids r).catcher_set ≡ (has_id j r.catcher_set || has_id j ids)
unfolding collect_comps Map.find_key
has-collect_comps j [] r = ground arith
has-collect_comps j (id ∷ ids) r =
    has-collect_comps j ids (add_catcher id r) ∙ ground (arith, has-add_catcher j id r)

pub collect_masks-IsCounted :
    (event : Event) (es : List CatchEntry) (r : Catchers)
    → IsCounted r
    → IsCounted (collect_masks event es r)
unfolding collect_masks
collect_masks-IsCounted event [] r k = k
collect_masks-IsCounted event (e ∷ es) r k = elim (Bool-cases (match_mask event e.mask)) [
  | inl hit ↦ rw hit (collect_masks-IsCounted event es _ (collect_comps-IsCounted e.comps r k))
  | inr miss ↦ rw miss (collect_masks-IsCounted event es r k)
]

pub has-collect_masks :
    (j : FtbId) (event : Event) (es : List CatchEntry) (r : Catchers)
    → has_id j (collect_masks event es r).catcher_set
      ≡ (has_id j r.catcher_set || wanted es event j)
unfolding collect_masks wanted
has-collect_masks j event [] r = ground arith
has-collect_masks j event (e ∷ es) r = ground (
  arith,
  has-collect_masks j event es r,
  has-collect_masks j event es (collect_comps e.comps r),
  has-collect_comps j e.comps r,
)

-- The pair of a mask in the catch map that wants the event for `id`.
wanted-routed :
    (es : List CatchEntry) (event : Event) (id : FtbId)
    → Distinct entry_mask same_mask es
    → wanted es event id ≡ true
    → (m : Event) × (routed es id m ≡ true) × (match_mask event m ≡ true)
unfolding wanted routed Map.find_key
wanted-routed [] event id d h = absurd (ground arith)
wanted-routed (e ∷ es) event id d h =
    elim (Bool-cases (match_mask event e.mask && has_id id e.comps)) [
      | inl here ↦ (e.mask, ground (arith, mask_eq.is_refl e.mask), ground arith)
      | inr later ↦
          let (m, r, t) = wanted-routed es event id d.1 (ground arith) in
          (m, ground (arith, find_entry_cong e.mask m es), t)
    ]

routed-wanted :
    (es : List CatchEntry) (event : Event) (id : FtbId) (m : Event)
    → routed es id m ≡ true
    → match_mask event m ≡ true
    → wanted es event id ≡ true
unfolding wanted routed Map.find_key
routed-wanted [] event id m h t = absurd (ground arith)
routed-wanted (e ∷ es) event id m h t =
    ground (arith, match_mask_mask event e.mask m, routed-wanted es event id m)

any_match-has :
    (event : Event) (ms : List Event)
    → any_match event ms ≡ true
    → (m : Event) × (has_mask m ms ≡ true) × (match_mask event m ≡ true)
unfolding any_match Map.find_key
any_match-has event [] h = absurd (ground arith)
any_match-has event (x ∷ ms) h = elim (Bool-cases (match_mask event x)) [
  | inl here ↦ (x, ground (arith, mask_eq.is_refl x), here)
  | inr later ↦ let (m, r, t) = any_match-has event ms (ground arith) in (m, ground arith, t)
]

has-any_match :
    (event : Event) (ms : List Event) (m : Event)
    → has_mask m ms ≡ true
    → match_mask event m ≡ true
    → any_match event ms ≡ true
unfolding any_match Map.find_key
has-any_match event [] m h t = absurd (ground arith)
has-any_match event (x ∷ ms) m h t =
    ground (arith, match_mask_mask event x m, has-any_match event ms m)

-- The catch map and the peers' own sets name the same components.
pub wanted-interested :
    (ps : List Comp) (es : List CatchEntry) (event : Event) (id : FtbId)
    → IsCoherent ps es
    → wanted es event id ≡ interested ps event id
unfolding interested holds
wanted-interested ps es event id k = elim (Option-cases (find_comp id ps)) [
  | inl missing ↦
      Bool-ext _ _
        (λ w.
          let (m, r, t) = wanted-routed es event id k.catch.masks w in
          absurd (ground (arith, k.agree id m)))
        (λ w. absurd (ground arith))
  | inr (c, found) ↦
      Bool-ext _ _
        (λ w.
          let (m, r, t) = wanted-routed es event id k.catch.masks w in
          ground (arith, k.agree id m, has-any_match event c.catch_event_set m))
        (λ w.
          let (m, r, t) = any_match-has event c.catch_event_set (ground arith) in
          routed-wanted es event id m (ground (arith, k.agree id m)) t)
]
