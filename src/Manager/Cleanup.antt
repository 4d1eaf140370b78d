-- ===== src/Manager/Cleanup.antt =====
-- FTBM_Cleanup_connection: every peer at the lost location goes, with its routes.
use mathlib.Core.List.{append_assoc}
use ftb.Prelude.{
  ℕ, suc, ◌+◌, ◌≡◌, refl, sym, ap, ◌∙◌, true, false, List, [], ◌∷◌, ◌++◌, arith, if◌then◌else◌, ltb,
  inl, inr, Bool-cases,
}
use ftb.Defs.{Code, success, err_general, LocationId}
use ftb.Match.{is_equal_location_id}
use ftb.Map
use ftb.Map.Laws
use ftb.Manager.State.{Comp, Manager, Env, ok, comp_id}
use ftb.Manager.Propagation.{clean_component}
use ftb.Manager.Frame.{drop_routes, clean_component-Rerouted}
use ftb.Manager.Lifecycle.{reconnect}
use ftb.Manager.Clients.{forget, cleanup_loop, cleanup_connection}
use ftb.Manager.Routes.{same_id, id_eq}
use ftb.Manager.Coherence.{IsSound, IsSound-same, leave-IsCoherent, reconnect-IsSound}
use ftb.Manager.Departure.{IsSound-if}

-- The peers that are not at the location, in order.
unfoldable pub elsewhere : LocationId → List Comp → List Comp
elsewhere l [] = []
elsewhere l (c ∷ cs) =
    if is_equal_location_id l c.id.location_id then elsewhere l cs else c ∷ elsewhere l cs

-- How many peers are at the location.
unfoldable pub count_at : LocationId → List Comp → ℕ
count_at l [] = 0
count_at l (c ∷ cs) =
    if is_equal_location_id l c.id.location_id then suc (count_at l cs) else count_at l cs

record IsCleaned (l : LocationId) (before cs : List Comp) (n : ℕ) (s : Manager) (r : ℕ × Manager)
    : Type 0 where
  parent : r.1.parent ≡ s.parent
  sound : IsSound r.1
  peers : r.1.peers ≡ before ++ elsewhere l cs
  count : r.0 ≡ n + count_at l cs

module _ (env : Env) (l : LocationId) where
  forget_one :
      (before cs : List Comp) (c : Comp) (s : Manager)
      → IsSound s
      → s.peers ≡ before ++ c ∷ cs
      → IsSound (forget c (clean_component env c s))
        × ((forget c (clean_component env c s)).peers ≡ before ++ cs)
  forget_one before cs c s h e =
      let r = clean_component-Rerouted env c s in
      let (found, removed) =
        Laws.Distinct-middle comp_id same_id id_eq before c cs (rw e at h.table.ids) in
      let gone = ap (Map.remove_node comp_id same_id c.id) (r.peers ∙ e) ∙ removed in
      (
        IsSound-same
            (record s {
              peers = Map.remove_node comp_id same_id c.id s.peers;
              catch_event_map = drop_routes c.id c.catch_event_set s.catch_event_map;
            })
            (forget c (clean_component env c s)) (ap (Map.remove_node comp_id same_id c.id) r.peers)
            r.catch_event_map (leave-IsCoherent s.peers s.catch_event_map h c.id c (rw e found)),
        gone,
      )

  -- One round of the loop, at a peer that goes and at one that stays.
  round_hit :
      (c : Comp) (cs : List Comp) (n : ℕ) (s : Manager)
      → is_equal_location_id l c.id.location_id ≡ true
      → (cleanup_loop env l (c ∷ cs) n s
          ≡ cleanup_loop env l cs (suc n) (forget c (clean_component env c s)))
        × (elsewhere l (c ∷ cs) ≡ elsewhere l cs)
        × (count_at l (c ∷ cs) ≡ suc (count_at l cs))
  unfolding cleanup_loop elsewhere count_at
  round_hit c cs n s hit = (rw hit, rw hit, rw hit)

  round_miss :
      (c : Comp) (cs : List Comp) (n : ℕ) (s : Manager)
      → is_equal_location_id l c.id.location_id ≡ false
      → (cleanup_loop env l (c ∷ cs) n s ≡ cleanup_loop env l cs n s)
        × (elsewhere l (c ∷ cs) ≡ c ∷ elsewhere l cs)
        × (count_at l (c ∷ cs) ≡ count_at l cs)
  unfolding cleanup_loop elsewhere count_at
  round_miss c cs n s miss = (rw miss, rw miss, rw miss)

  cleanup_loop-IsCleaned :
      (before cs : List Comp) (n : ℕ) (s : Manager)
      → IsSound s
      → s.peers ≡ before ++ cs
      → IsCleaned l before cs n s (cleanup_loop env l cs n s)
  unfolding cleanup_loop elsewhere count_at
  cleanup_loop-IsCleaned before [] n s h e = record {
    parent = refl;
    sound = h;
    peers = e;
    count = omega arith;
  }
  cleanup_loop-IsCleaned before (c ∷ cs) n s h e =
      elim (Bool-cases (is_equal_location_id l c.id.location_id)) [
        | inl hit ↦
            let (k, f) = forget_one before cs c s h e in
            let r =
              cleanup_loop-IsCleaned before cs (suc n) (forget c (clean_component env c s)) k f in
            let (step, kept, counted) = round_hit c cs n s hit in
            rw (step) (record {
              parent = r.parent ∙ (clean_component-Rerouted env c s).parent;
              sound = r.sound;
              peers = rw kept r.peers;
              count = omega (arith, r.count, counted);
            })
        | inr miss ↦
            let r =
              cleanup_loop-IsCleaned (before ++ c ∷ []) cs n s h
                (e ∙ sym (append_assoc before (c ∷ []) cs)) in
            let (step, kept, counted) = round_miss c cs n s miss in
            rw (step) (record {
              parent = r.parent;
              sound = r.sound;
              peers = rw kept (r.peers ∙ append_assoc before (c ∷ []) (elsewhere l cs));
              count = omega (arith, r.count, counted);
            })
      ]

  -- What a running agent has done after a location is lost, apart from looking for a new parent.
  pub record CleanedUp (s t : Manager) (code : Code) : Type 0 where
    pub sound : IsSound t
    pub peers : t.peers ≡ elsewhere l s.peers
    pub code_lem : code ≡ (if ltb 0 (count_at l s.peers) then success else err_general)

  -- In a sound state of a running agent whose parent is not at the lost location, exactly the peers
  -- at that location go, in both tables; the code tells whether there was any.
  pub cleanup_connection-CleanedUp :
      (s : Manager)
      → IsSound s
      → s.initialized ≡ true
      → s.leaf ≡ 0
      → is_equal_location_id s.parent l ≡ false
      → (t : Manager) × (code : Code) × (cleanup_connection env l s ≡ ok (code, t))
        × CleanedUp s t code
  unfolding cleanup_connection
  cleanup_connection-CleanedUp s h up agent other =
      let r = cleanup_loop-IsCleaned [] s.peers 0 s h refl in
      (
        (cleanup_loop env l s.peers 0 s).1,
        if ltb 0 (count_at l s.peers) then success else err_general,
        ground (arith, r.count, r.parent),
        record { sound = r.sound; peers = r.peers; code_lem = refl },
      )

  -- On every branch the tables stay coherent, also when the agent has lost its parent and reconnects.
  pub cleanup_connection-IsSound :
      (s : Manager) (r : Code × Manager)
      → IsSound s
      → cleanup_connection env l s ≡ ok r
      → IsSound r.1
  unfolding cleanup_connection
  cleanup_connection-IsSound s r h e =
      let q = cleanup_loop-IsCleaned [] s.peers 0 s h refl in
      let left = (cleanup_loop env l s.peers 0 s).1 in
      let b = is_equal_location_id left.parent l in
      let k = IsSound-if b (reconnect env left) left (reconnect-IsSound env left q.sound) q.sound in
      elim (Bool-cases s.initialized) [
        | inr down ↦ IsSound-same s r.1 (ground arith) (ground arith) h
        | inl up ↦
            IsSound-same (if b then reconnect env left else left) r.1 (ground arith) (ground arith)
              k
      ]
