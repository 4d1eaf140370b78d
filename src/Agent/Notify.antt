-- ===== src/Agent/Notify.antt =====
-- What src/agent/ftb_agent.c does with an event: whom it is sent to, and why the loop over the
-- catcher list never follows a null pointer, though peers are dropped while it runs.
use ftb.Prelude.{
  ◌≡◌, refl, ap, true, false, List, [], ◌∷◌, map, some, arith, inl, inr, Bool-cases, Option-cases,
  All, take, length,
}
use ftb.Defs.{LocationId, FtbId, Msg}
use ftb.Map
use ftb.Map.Laws.{Distinct}
use ftb.Manager.State.{Manager, Env, ok, self_id, find_comp, has_id}
use ftb.Manager.Subscriptions.{get_catcher_comp_list}
use ftb.Manager.Routes.{same_id, id_eq}
use ftb.Manager.Coherence.{IsSound}
use ftb.Manager.Sending.{send-IsSound}
use ftb.Manager.Catchers.{interested}
use ftb.Manager.Delivery.{Delivers, get_catcher_comp_list-Delivers}
use ftb.Agent.{came_from, notice, state_of, then_run, deliver_one, deliver, deliver_all}
use ftb.Agent.Running.{IsUp}
use ftb.Agent.Sent.{is_peer, KeepsOthers, send-Sent}

-- All of them are peers.
abbrev pub Present : Manager → List FtbId → Type 0
Present s = All (λ j. is_peer j s ≡ true)

-- One of these peers was sent a message, and the others are peers still.
Present-kept :
    (id : FtbId) (s t : Manager) (ids : List FtbId)
    → KeepsOthers id s t
    → has_id id ids ≡ false
    → Present s ids
    → Present t ids
unfolding Map.find_key
Present-kept id s t [] keeps out here = tt
Present-kept id s t (j ∷ ids) keeps out here =
    let other : same_id id j ≡ false = ground (arith, id_eq.is_sym id j) in
    (keeps j other here.0, Present-kept id s t ids keeps (ground arith) here.1)

-- A list whose ids are all peers.
Present-all :
    (s : Manager) (ids : List FtbId)
    → ((j : FtbId) → has_id j ids ≡ true → is_peer j s ≡ true)
    → Present s ids
unfolding Map.find_key
Present-all s [] f = tt
Present-all s (id ∷ ids) f =
    (f id (ground (arith, id_eq.is_refl id)), Present-all s ids (λ j h. f j (ground arith)))

-- The agent still runs, and its tables agree.
pub record IsRunning (s : Manager) : Type 0 where
  pub up : IsUp s
  pub sound : IsSound s

pub take_all : (ids : List FtbId) → take (length ids) (map some ids) ≡ map some ids
take_all [] = refl
take_all (id ∷ ids) = ap (λ r. some id ∷ r) (take_all ids)

module _ (env : Env) (msg : Msg) (l : LocationId) where
  record Handed (id : FtbId) (s : Manager) : Type 0 where
    left : Manager
    runs : deliver_one env msg l id s ≡ ok left
    running : IsRunning left
    keeps : KeepsOthers id s left

  deliver_one-Handed : (id : FtbId) (s : Manager) → IsRunning s → is_peer id s ≡ true → Handed id s
  unfolding deliver_one state_of
  deliver_one-Handed id s k here = elim (Option-cases (find_comp id s.peers)) [
    | inl missing ↦ absurd (ground arith)
    | inr (c, found) ↦ elim (Bool-cases (came_from l id)) [
      | inl back ↦ record {
        left = s;
        runs = rw back refl;
        running = k;
        keeps = λ j other there. there;
      }
      | inr on ↦
          let r = send-Sent env (notice msg id) s c k.sound k.up found in
          record {
            left = r.result.1;
            runs = rw (on, r.runs) refl;
            running = record {
              up = r.up;
              sound = send-IsSound env (notice msg id) s r.result k.sound r.runs;
            };
            keeps = r.keeps;
          }
    ]
  ]

  deliver-IsRunning :
      (ids : List FtbId) (s : Manager)
      → IsRunning s
      → Present s ids
      → Distinct self_id same_id ids
      → (t : Manager) × (deliver env msg l (map some ids) s ≡ ok t) × IsRunning t
  unfolding deliver then_run
  deliver-IsRunning [] s k here d = (s, refl, k)
  deliver-IsRunning (id ∷ ids) s k here d =
      let h = deliver_one-Handed id s k here.0 in
      let (t, e, r) =
        deliver-IsRunning ids h.left h.running (Present-kept id s h.left ids h.keeps d.0 here.1)
          d.1 in
      (t, rw (h.runs, e) refl, r)

  Delivers-Present : (s : Manager) (ids : List FtbId) → Delivers s msg.event ids → Present s ids
  unfolding interested
  Delivers-Present s ids d = Present-all s ids (λ j h. ground (arith, d.exact j))

  -- An agent that runs handles every event without a crash, and runs on, whatever the network
  -- answers to each message: a peer that is lost on the way is dropped, and the rest are served.
  pub notify-IsRunning :
      (s : Manager)
      → IsRunning s
      → (t : Manager) × (deliver_all env msg l (get_catcher_comp_list msg.event s) s ≡ ok t)
        × IsRunning t
  unfolding deliver_all
  notify-IsRunning s k =
      let (ids, d) = get_catcher_comp_list-Delivers msg.event s k.sound k.up.up k.up.agent in
      let (t, e, r) = deliver-IsRunning ids s k (Delivers-Present s ids d) d.distinct in
      (t, rw (d.answer, take_all ids, e) refl, r)
