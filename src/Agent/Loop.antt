-- ===== src/Agent/Loop.antt =====
-- The loop of src/agent/ftb_agent.c from FTBM_Init on: it never crashes, and never breaks the
-- manager's tables.
use ftb.Prelude.{◌≡◌, refl, ap, subst, ◌∙◌, true, List, [], ◌∷◌, arith, inl, inr, Bool-cases, ◌==◌}
use ftb.Defs.{
  Code, success, LocationId, FtbId, Event, Msg, MsgType, notify, client_reg, client_dereg,
  cleanup_conn, reg_publishable_event, reg_subscription, publishable_event_reg_cancel,
  subscription_cancel, other,
}
use ftb.Map
use ftb.Map.{Status, exist, done, not_exist}
use ftb.Manager.State.{Comp, Manager, Env, ok}
use ftb.Manager.Lifecycle.{prepare, connect_parent, adopt, start, init, parent_comp}
use ftb.Manager.Subscriptions.{register_publishable_event, publishable_event_registration_cancel}
use ftb.Manager.Routes.{IsCoherent, holds, routed}
use ftb.Manager.Coherence.{join-IsCoherent}
use ftb.Manager.Departure.{client_register-IsSound, client_deregister-IsSound}
use ftb.Manager.Subscribing.{IsFresh, register_subscription-IsSound, cancel_subscription-IsSound}
use ftb.Manager.Cleanup.{cleanup_connection-IsSound}
use ftb.Agent.{state_of, then_run, progress, progress_loop}
use ftb.Agent.Running.{
  client_register-IsUp, client_deregister-IsUp, register_subscription-IsUp,
  cancel_subscription-IsUp, cleanup_connection-IsUp,
}
use ftb.Agent.Notify.{IsRunning, notify-IsRunning}

-- The operations on publishable events change nothing.
publishable_events :
    (id : FtbId) (e : Event) (s : Manager)
    → ((register_publishable_event id e s).1 ≡ s)
      × ((publishable_event_registration_cancel id e s).1 ≡ s)
unfolding register_publishable_event publishable_event_registration_cancel
publishable_events id e s = (ground arith, ground arith)

-- The tables of an agent that has no peers.
pub empty-IsCoherent : IsCoherent [] []
unfolding holds routed Map.find_key
empty-IsCoherent = record {
  table = record { ids = tt; sets = tt };
  catch = record { masks = tt; entries = tt };
  agree = λ id mask. refl;
}

-- The message does not register a mask that its sender has already.
abbrev pub IsNew : Msg → Manager → Type 0
IsNew msg s = msg.msg_type ≡ reg_subscription → IsFresh msg.src msg.event s

-- No message registers a mask that its sender has by then.
unfoldable pub AllNew : Env → List (Msg × LocationId) → Manager → Type 0
unfolding progress
AllNew env [] s = Unit {0}
AllNew env (m ∷ ms) s =
    IsNew m.0 s × ((t : Manager) → progress env m.0 m.1 s ≡ ok t → AllNew env ms t)

module _ (env : Env) where
  progress_as :
      (kind : MsgType) (msg : Msg) (l : LocationId) (s : Manager)
      → msg.msg_type ≡ kind
      → IsNew msg s
      → IsRunning s
      → (t : Manager) × (progress env msg l s ≡ ok t) × IsRunning t
  unfolding progress state_of
  progress_as notify msg l s e new k =
      let (t, f, r) = notify-IsRunning env msg l s k in (t, ground (arith, f), r)
  progress_as client_reg msg l s e new k = (
    _,
    ground arith,
    record {
      up = client_register-IsUp env msg.src s k.up;
      sound = client_register-IsSound env msg.src s k.sound;
    },
  )
  progress_as client_dereg msg l s e new k = (
    _,
    ground arith,
    record {
      up = client_deregister-IsUp env msg.src s k.up;
      sound = client_deregister-IsSound env msg.src s k.sound;
    },
  )
  progress_as cleanup_conn msg l s e new k =
      let (r, f, u) = cleanup_connection-IsUp env l s k.up in
      (
        r.1,
        ground (arith, f),
        record { up = u; sound = cleanup_connection-IsSound env l s r k.sound f },
      )
  progress_as reg_publishable_event msg l s e new k =
      (s, ground (arith, (publishable_events msg.src msg.event s).0), k)
  progress_as reg_subscription msg l s e new k = (
    _,
    ground arith,
    record {
      up = register_subscription-IsUp env msg.src msg.event s k.up;
      sound = register_subscription-IsSound env msg.src msg.event s (new e) k.sound;
    },
  )
  progress_as publishable_event_reg_cancel msg l s e new k =
      (s, ground (arith, (publishable_events msg.src msg.event s).1), k)
  progress_as subscription_cancel msg l s e new k = (
    _,
    ground arith,
    record {
      up = cancel_subscription-IsUp env msg.src msg.event s k.up;
      sound = cancel_subscription-IsSound env msg.src msg.event s k.sound;
    },
  )
  progress_as (other n) msg l s e new k = (s, ground arith, k)

  -- Whatever message a running agent receives and whatever the network answers, the agent handles
  -- the message without a crash, runs on, and its tables agree again, if the message does not register
  -- a mask that its sender has already.
  pub progress-IsRunning :
      (msg : Msg) (l : LocationId) (s : Manager)
      → IsNew msg s
      → IsRunning s
      → (t : Manager) × (progress env msg l s ≡ ok t) × IsRunning t
  progress-IsRunning msg l s new k = progress_as msg.msg_type msg l s refl new k

  loop-IsRunning :
      (ms : List (Msg × LocationId)) (s : Manager)
      → AllNew env ms s
      → IsRunning s
      → (t : Manager) × (progress_loop env ms s ≡ ok t) × IsRunning t
  unfolding progress_loop then_run AllNew
  loop-IsRunning [] s new k = (s, refl, k)
  loop-IsRunning (m ∷ ms) s new k =
      let (t, e, r) = progress-IsRunning m.0 m.1 s new.0 k in
      let (u, f, q) = loop-IsRunning ms t (new.1 t e) r in (u, rw (e, f) refl, q)

  -- The state in which FTBM_Init leaves an agent, with these peers.
  abbrev started : List Comp → Manager → Manager
  started peers s = record s { peers = peers; waiting = 0; initialized = true }

  started-IsRunning :
      (peers : List Comp) (s : Manager)
      → s.leaf ≡ 0
      → s.catch_event_map ≡ []
      → IsCoherent peers []
      → IsRunning (started peers s)
  started-IsRunning peers s agent e k = record {
    up = record { up = refl; agent = agent };
    sound = rw e k;
  }

  start-IsRunning :
      (s : Manager)
      → s.leaf ≡ 0
      → s.peers ≡ []
      → s.catch_event_map ≡ []
      → (t : Manager) × (start env s ≡ (success, t)) × IsRunning t
  unfolding start adopt Map.insert Map.find_key
  start-IsRunning s agent none_yet no_masks =
      let c = parent_comp s.parent in
      elim (Bool-cases (s.parent.pid == 0)) [
        | inr found ↦ (
          started (c ∷ []) s,
          ground arith,
          started-IsRunning (c ∷ []) s agent no_masks
              (join-IsCoherent [] [] empty-IsCoherent c refl),
        )
        | inl root ↦
            (started [] s, ground arith, started-IsRunning [] s agent no_masks empty-IsCoherent)
      ]

  -- An agent that starts, whatever parent it is given, starts with success, and then handles any
  -- sequence of messages in which no peer registers a mask that it has by then, without a crash,
  -- whatever the network answers: it always runs on, with tables that agree.
  pub init-progress_loop :
      (s : Manager) (ms : List (Msg × LocationId))
      → AllNew env ms (init env 0 s).1
      → ((init env 0 s).0 ≡ success)
        × (t : Manager) × (progress_loop env ms (init env 0 s).1 ≡ ok t)
        × IsRunning t
  unfolding init prepare connect_parent
  init-progress_loop s ms new =
      let (u, e, k) = start-IsRunning (connect_parent env (prepare env 0 s)) refl refl refl in
      let (t, f, r) =
        loop-IsRunning ms u (subst (λ (x : Code × Manager). AllNew env ms x.1) e new) k in
      (
        ap (λ (x : Code × Manager). x.0) e,
        t,
        ap (λ (x : Code × Manager). progress_loop env ms x.1) e ∙ f,
        r,
      )
