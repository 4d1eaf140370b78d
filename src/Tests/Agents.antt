-- ===== src/Tests/Agents.antt =====
-- The theorems on src/agent/ftb_agent.c at concrete messages.
use ftb.Prelude.{◌≡◌, refl, ap, subst, List, [], ◌∷◌, arith}
use ftb.Text.{strcasecmp, strncasecmp, to_lower}
use ftb.Match.{is_equal_ftb_id, is_equal_location_id}
use ftb.Map
use ftb.Defs.{
  success, LocationId, FtbId, Msg, MsgType, client_reg, reg_subscription, subscription_cancel,
}
use ftb.Manager.State.{Manager, Run, ok, crash, is_agent}
use ftb.Manager.Lifecycle.{prepare, connect_parent, start, init}
use ftb.Manager.Clients.{client_register, join_client, welcome}
use ftb.Manager.Subscribing.{IsFresh}
use ftb.Manager.Delivery.{Delivers}
use ftb.Agent.{progress, progress_loop}
use ftb.Agent.Notify.{IsRunning}
use ftb.Agent.Receivers.{others, notices, logged, progress_notify-Delivers}
use ftb.Agent.Loop.{AllNew, init-progress_loop}
use ftb.Tests.{here, there, client, boom, notice_of, calm, one_mask, one_mask-IsSound}

one_mask-IsRunning : IsRunning one_mask
one_mask-IsRunning = record { up = record { up = refl; agent = refl }; sound = one_mask-IsSound }

progress_notify-Delivers_example :
    (ids : List FtbId) × Delivers one_mask boom ids
    × (progress calm (notice_of boom (client here)) here one_mask
        ≡ ok (logged (notices (notice_of boom (client here)) (others here ids)) one_mask))
progress_notify-Delivers_example =
    progress_notify-Delivers calm (λ log m. refl) (notice_of boom (client here)) here one_mask
      one_mask-IsRunning refl

-- The client at `there` says that it is there, subscribes, and takes its subscription back.
abbrev told : MsgType → Msg
told kind = record { msg_type = kind; src = client there; dst = client here; event = boom }

abbrev session : List (Msg × LocationId)
session =
    (told client_reg, there)
    ∷ (told reg_subscription, there)
    ∷ (told subscription_cancel, there)
    ∷ []

-- The state after a call that ends.
abbrev left_by : Run Manager → Manager
left_by crash = one_mask
left_by (ok s) = s

joined-IsFresh :
    IsFresh
      (client there)
      boom
      (left_by (progress calm (told client_reg) there (init calm 0 one_mask).1))
unfolding progress client_register join_client welcome is_agent init prepare connect_parent start
    Map.insert Map.find_key is_equal_ftb_id is_equal_location_id strcasecmp strncasecmp to_lower
joined-IsFresh c found = ground arith

-- The client has no mask when it subscribes.
session-AllNew : AllNew calm session (init calm 0 one_mask).1
unfolding AllNew
session-AllNew = (
  λ e. absurd (ground arith),
  λ t e. (
    λ k. subst (IsFresh (client there) boom) (ap left_by e) joined-IsFresh,
    λ u f. (λ k. absurd (ground arith), λ v g. tt),
  ),
)

init-progress_loop_example :
    ((init calm 0 one_mask).0 ≡ success)
    × (t : Manager) × (progress_loop calm session (init calm 0 one_mask).1 ≡ ok t)
    × IsRunning t
init-progress_loop_example = init-progress_loop calm one_mask session session-AllNew
