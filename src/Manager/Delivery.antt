-- ===== src/Manager/Delivery.antt =====
-- FTBM_Get_catcher_comp_list as a whole: the list that it returns holds each peer that wants the event once, and no other.
use mathlib.Core.List.{reverse, reverse-cons, append-nil, append_assoc, map-append}
use ftb.Prelude.{
  ℕ, zero, suc, ◌-◌, ◌≡◌, refl, sym, ap, ◌∙◌, true, List, [], ◌∷◌, ◌++◌, map, Option, none, some,
  arith, length, length-append, set, replicate,
}
use ftb.Defs.{success, FtbId, Event}
use ftb.Map
use ftb.Map.Laws
use ftb.Map.Laws.{Distinct}
use ftb.Manager.State.{Manager, ok, self_id, has_id}
use ftb.Manager.Subscriptions.{collect_masks, copy_ids, no_catchers, get_catcher_comp_list}
use ftb.Manager.Routes.{same_id, id_eq}
use ftb.Manager.Catchers.{interested, collect_masks-IsCounted, has-collect_masks, wanted-interested}
use ftb.Manager.Coherence.{IsSound}

-- The copy loop fills the list from its end.
set_last :
    (n : ℕ) (v : Option FtbId) (xs : List (Option FtbId))
    → set (replicate (suc n) none ++ xs) n v ≡ replicate n none ++ v ∷ xs
set_last zero v xs = refl
set_last (suc n) v xs = ap (◌∷◌ none) (set_last n v xs)

copy_ids-reverse :
    (ids : List FtbId) (xs : List (Option FtbId))
    → copy_ids ids (length ids) (replicate (length ids) none ++ xs) ≡ map some (reverse ids) ++ xs
unfolding copy_ids
copy_ids-reverse [] xs = refl
copy_ids-reverse (id ∷ ids) xs =
    let n = length ids in
    let less : suc n - 1 ≡ n = omega arith in
    rw
      (
        less,
        set_last n (some id) xs,
        copy_ids-reverse ids (some id ∷ xs),
        reverse-cons id ids,
        map-append,
      )
      (sym (append_assoc (map some (reverse ids)) (some id ∷ []) xs))

copy_ids_all :
    (ids : List FtbId) (n : ℕ)
    → n ≡ length ids
    → copy_ids ids n (replicate n none) ≡ map some (reverse ids)
copy_ids_all ids n e = rw e (simp append-nil at (copy_ids-reverse ids []))

has-reverse : (j : FtbId) (ids : List FtbId) → has_id j (reverse ids) ≡ has_id j ids
unfolding Map.find_key
has-reverse j [] = refl
has-reverse j (id ∷ ids) = rw (reverse-cons id ids) (
    ground (
      arith,
      Laws.find_key-append self_id same_id id_eq j (reverse ids) (id ∷ []),
      has-reverse j ids,
    ))

Distinct-reverse :
    (ids : List FtbId) → Distinct self_id same_id ids → Distinct self_id same_id (reverse ids)
Distinct-reverse [] d = tt
Distinct-reverse (id ∷ ids) d = rw (reverse-cons id ids) (
    Laws.Distinct-append self_id same_id id_eq (reverse ids) id (Distinct-reverse ids d.1)
      (has-reverse id ids ∙ d.0))

-- What a running agent answers: every cell of the list is written, `len` is its length, no id
-- stands there twice, and it holds exactly the peers that are interested.
pub record Delivers (s : Manager) (event : Event) (ids : List FtbId) : Type 0 where
  pub answer : get_catcher_comp_list event s ≡ ok (success, map some ids, length ids)
  pub distinct : Distinct self_id same_id ids
  pub exact : (j : FtbId) → has_id j ids ≡ interested s.peers event j

length-reverse : (ids : List FtbId) → length (reverse ids) ≡ length ids
length-reverse [] = refl
length-reverse (id ∷ ids) =
    rw (reverse-cons id ids)
      (omega (arith, length-append {0} (reverse ids) (id ∷ []), length-reverse ids))

-- In a sound state of a running agent, the catcher list of an event holds exactly the peers that
-- have subscribed to a mask that matches it, each once; the list is allocated at its true length and
-- every cell of it is written.
pub get_catcher_comp_list-Delivers :
    (event : Event) (s : Manager)
    → IsSound s
    → s.initialized ≡ true
    → s.leaf ≡ 0
    → (ids : List FtbId) × Delivers s event ids
unfolding get_catcher_comp_list interested Map.find_key
get_catcher_comp_list-Delivers event s h up agent =
    let r = collect_masks event s.catch_event_map no_catchers in
    let k =
      collect_masks-IsCounted event s.catch_event_map no_catchers
        (record { distinct = tt; count = refl }) in
    let e : copy_ids r.catcher_set r.temp_len (replicate r.temp_len none)
        ≡ map some (reverse r.catcher_set) =
      copy_ids_all r.catcher_set r.temp_len k.count in
    (
      reverse r.catcher_set,
      record {
        answer = ground (arith, e, k.count, length-reverse r.catcher_set);
        distinct = Distinct-reverse r.catcher_set k.distinct;
        exact = λ j.
            has-reverse j r.catcher_set
            ∙ has-collect_masks j event s.catch_event_map no_catchers
            ∙ wanted-interested s.peers s.catch_event_map event j h;
      },
    )
