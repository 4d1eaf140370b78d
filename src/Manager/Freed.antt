-- ===== src/Manager/Freed.antt =====
-- The loop of FTBM_Finalize of src/manager_lib/ftb_manager_lib.c over the peers: when it reads a
-- component that it has freed.
use ftb.Prelude.{
  ◌≡◌, refl, ap, sym, subst, ◌∙◌, Bool, true, false, not, ◌||◌, List, [], ◌∷◌, some, arith, inl,
  inr, ◌⊎◌, Bool-cases, Option-cases,
}
use ftb.Defs.{FtbId, Event, ok, crash}
use ftb.Map
use ftb.Manager.State.{
  Comp, CatchEntry, Manager, Env, is_agent, comp_id, self_id, find_entry, has_id,
}
use ftb.Manager.Propagation.{send_msg, remove_com_from_catch_map}
use ftb.Manager.Lifecycle.{meets_freed, reads_freed, cleans_freed, say_farewell, dismiss}
use ftb.Manager.Frame.{drop_routes, clean_component-Rerouted}
use ftb.Manager.Routes.{
  holds, routed, IsCoherent, same_id, id_eq, mask_eq, find_entry-IsEntry, has_id-remove_node,
}
use ftb.Manager.Coherence.{leave-IsCoherent}

-- Some of the components has subscribed.
unfoldable pub any_masks : List Comp → Bool
any_masks [] = false
any_masks (c ∷ cs) = not (Map.is_empty c.catch_event_set) || any_masks cs

-- Some peer other than the first has subscribed.
unfoldable pub any_later_masks : List Comp → Bool
unfolding any_masks
any_later_masks [] = false
any_later_masks (c ∷ cs) = any_masks cs

is_empty-nil {κ} : {N : Type κ} (ns : List N) → Map.is_empty ns ≡ true → ns ≡ []
unfolding Map.is_empty
is_empty-nil [] e = refl
is_empty-nil (n ∷ ns) e = absurd (ground arith)

-- A list of ids is empty, or has a first one.
first_id : (ids : List FtbId) → (Map.is_empty ids ≡ true) ⊎ (j : FtbId) × (has_id j ids ≡ true)
unfolding Map.is_empty Map.find_key
first_id [] = inl refl
first_id (j ∷ ids) = inr (j, rw (id_eq.is_refl j) refl)

unmasked_holds :
    (cs : List Comp) (j : FtbId) (m : Event) → any_masks cs ≡ false → holds cs j m ≡ false
unfolding any_masks holds Map.find_key
unmasked_holds [] j m h = refl
unmasked_holds (c ∷ cs) j m h =
    let rest = unmasked_holds cs j m (ground (arith, h)) in
    let none_here : c.catch_event_set ≡ [] = is_empty-nil c.catch_event_set (ground (arith, h)) in
    elim (Bool-cases (same_id c.id j)) [
      | inl hit ↦ rw (hit, holds, none_here) refl
      | inr miss ↦ rw (miss, holds) rest
    ]

-- The pairs of a component that is not the first one.
holds_further :
    (c : Comp) (cs : List Comp) (j : FtbId) (m : Event)
    → same_id c.id j ≡ false
    → holds (c ∷ cs) j m ≡ holds cs j m
unfolding holds Map.find_key
holds_further c cs j m miss = rw (miss, holds) refl

holds_first :
    (c : Comp) (cs : List Comp) (m : Event) (ms : List Event)
    → c.catch_event_set ≡ m ∷ ms
    → holds (c ∷ cs) c.id m ≡ true
unfolding holds Map.find_key
holds_first c cs m ms e = rw (id_eq.is_refl c.id, holds, e, mask_eq.is_refl m) refl

routed_there :
    (es : List CatchEntry) (id : FtbId) (m : Event)
    → routed es id m ≡ true
    → (e : CatchEntry) × (find_entry m es ≡ some e) × (has_id id e.comps ≡ true)
unfolding routed
routed_there es id m h = elim (Option-cases (find_entry m es)) [
  | inl missing ↦ absurd (ground (arith, h, missing))
  | inr (e, found) ↦ (e, found, ground (arith, h, found))
]

routed_by :
    (es : List CatchEntry) (id : FtbId) (m : Event) (e : CatchEntry)
    → find_entry m es ≡ some e
    → has_id id e.comps ≡ true
    → routed es id m ≡ true
unfolding routed
routed_by es id m e found there = ground (arith, found, there)

-- The last component that has subscribed is the only one in the entry of its mask.
only_one :
    (c : Comp) (cs : List Comp) (es : List CatchEntry) (m : Event) (e : CatchEntry)
    → IsCoherent (c ∷ cs) es
    → any_masks cs ≡ false
    → find_entry m es ≡ some e
    → Map.is_empty (Map.remove_node self_id same_id c.id e.comps) ≡ true
only_one c cs es m e k rest found = elim (first_id (Map.remove_node self_id same_id c.id e.comps)) [
  | inl empty ↦ empty
  | inr (j, there) ↦
      let d = (find_entry-IsEntry es k.catch m e found).distinct in
      let both = has_id-remove_node j c.id e.comps d in
      let other : same_id c.id j ≡ false = ground (arith, both, there) in
      let listed : has_id j e.comps ≡ true = ground (arith, both, there) in
      let held =
        sym (k.agree j m ∙ holds_further c cs j m other ∙ unmasked_holds cs j m rest)
        ∙ routed_by es j m e found listed in
      absurd (ground (arith, held))
]

module _ (env : Env) where
  -- The loop over the peers, when it reads no freed memory.
  unfoldable pub all_farewells : List Comp → Manager → Manager
  all_farewells [] s = s
  all_farewells (c ∷ cs) s = all_farewells cs (say_farewell env c s)

  none_met : (id : FtbId) (ids : List FtbId) → meets_freed env [] id ids ≡ false
  unfolding meets_freed Map.find_key
  none_met id [] = refl
  none_met id (i ∷ ids) = let rest = none_met id ids in ground (arith, rest)

  none_read_now : (c : Comp) (m : Event) (s : Manager) → reads_freed env [] c m s ≡ false
  unfolding reads_freed Map.is_empty
  none_read_now c m s = elim (Option-cases (find_entry m s.catch_event_map)) [
    | inl missing ↦ ground (arith, missing)
    | inr (e, found) ↦ ground (arith, found, none_met c.id e.comps)
  ]

  -- Nothing was freed before the first component.
  none_read : (c : Comp) (ms : List Event) (s : Manager) → cleans_freed env [] c ms s ≡ false
  unfolding cleans_freed
  none_read c [] s = refl
  none_read c (m ∷ ms) s =
      let rest = none_read c ms (remove_com_from_catch_map env c m s) in
      let now = none_read_now c m s in ground (arith, rest, now)

  pub dismiss_unmasked :
      (gone cs : List Comp) (s : Manager)
      → any_masks cs ≡ false
      → dismiss env gone cs s ≡ ok (all_farewells cs s)
  unfolding dismiss any_masks cleans_freed all_farewells
  dismiss_unmasked gone [] s h = refl
  dismiss_unmasked gone (c ∷ cs) s h =
      let rest = dismiss_unmasked (c ∷ gone) cs (say_farewell env c s) (ground (arith, h)) in
      let none_here : c.catch_event_set ≡ [] = is_empty-nil c.catch_event_set (ground (arith, h)) in
      let quiet : cleans_freed env gone c c.catch_event_set s ≡ false =
        ap (λ ms. cleans_freed env gone c ms s) none_here in
      rw quiet rest

  -- Whatever the first component has subscribed to, if no later one has subscribed.
  pub dismiss_first :
      (cs : List Comp) (s : Manager)
      → any_later_masks cs ≡ false
      → dismiss env [] cs s ≡ ok (all_farewells cs s)
  unfolding dismiss any_later_masks all_farewells
  dismiss_first [] s h = refl
  dismiss_first (c ∷ cs) s h =
      rw (none_read c c.catch_event_set s) (dismiss_unmasked (c ∷ []) cs (say_farewell env c s) h)

  farewell_routes :
      (c : Comp) (s : Manager)
      → (say_farewell env c s).catch_event_map
        ≡ drop_routes c.id c.catch_event_set s.catch_event_map
  unfolding say_farewell send_msg
  farewell_routes c s =
      let r = clean_component-Rerouted env c s in
      elim (Bool-cases (is_agent c.id)) [
        | inl agent ↦ rw agent r.catch_event_map
        | inr client ↦ rw client r.catch_event_map
      ]

  -- The tables without the first component.
  farewell-IsCoherent :
      (c : Comp) (cs : List Comp) (s : Manager)
      → IsCoherent (c ∷ cs) s.catch_event_map
      → IsCoherent cs (say_farewell env c s).catch_event_map
  unfolding Map.remove_node Map.find_key
  farewell-IsCoherent c cs s k =
      let same = id_eq.is_refl c.id in
      let left = leave-IsCoherent (c ∷ cs) s.catch_event_map k c.id c (rw same refl) in
      let first : Map.remove_node comp_id same_id c.id (c ∷ cs) ≡ cs = rw same refl in
      subst (IsCoherent cs) (sym (farewell_routes c s)) (
        subst (λ ps. IsCoherent ps (drop_routes c.id c.catch_event_set s.catch_event_map)) first
          left)

  -- The last component that has subscribed empties an entry.
  last_reads :
      (g c : Comp) (gone cs : List Comp) (s : Manager)
      → IsCoherent (c ∷ cs) s.catch_event_map
      → any_masks cs ≡ false
      → (ms : List Event) → c.catch_event_set ≡ ms
      → Map.is_empty ms ≡ false
      → cleans_freed env (g ∷ gone) c ms s ≡ true
  unfolding cleans_freed reads_freed Map.is_empty
  last_reads g c gone cs s k rest [] here some_there = absurd (ground arith)
  last_reads g c gone cs s k rest (m ∷ ms) here some_there =
      let (e, found, there) =
        routed_there s.catch_event_map c.id m (k.agree c.id m ∙ holds_first c cs m ms here) in
      let empty = only_one c cs s.catch_event_map m e k rest found in
      ground (arith, found, there, empty)

  pub dismiss_masked :
      (g : Comp) (gone cs : List Comp) (s : Manager)
      → IsCoherent cs s.catch_event_map
      → any_masks cs ≡ true
      → dismiss env (g ∷ gone) cs s ≡ crash
  unfolding dismiss any_masks
  dismiss_masked g gone [] s k h = absurd (ground arith)
  dismiss_masked g gone (c ∷ cs) s k h =
      elim (Bool-cases (cleans_freed env (g ∷ gone) c c.catch_event_set s)) [
        | inl reads ↦ rw reads refl
        | inr quiet ↦ elim (Bool-cases (any_masks cs)) [
          | inl more ↦ rw quiet (
              dismiss_masked c (g ∷ gone) cs (say_farewell env c s) (farewell-IsCoherent c cs s k)
                more)
          | inr rest ↦
              let reads =
                last_reads g c gone cs s k rest c.catch_event_set refl (ground (arith, h, rest)) in
              absurd (ground (arith, reads, quiet))
        ]
      ]

  -- After the first component a later one that has subscribed makes the loop read freed memory.
  pub dismiss_later :
      (cs : List Comp) (s : Manager)
      → IsCoherent cs s.catch_event_map
      → any_later_masks cs ≡ true
      → dismiss env [] cs s ≡ crash
  unfolding dismiss any_later_masks
  dismiss_later [] s k h = absurd (ground arith)
  dismiss_later (c ∷ cs) s k h =
      rw (none_read c c.catch_event_set s)
        (dismiss_masked c [] cs (say_farewell env c s) (farewell-IsCoherent c cs s k) h)
