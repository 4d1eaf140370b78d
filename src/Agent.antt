-- ===== src/Agent.antt =====
-- src/agent/ftb_agent.c: what the agent's loop does with each message that it receives, and the
-- states that it comes through.
pub mod Running
pub mod Sent
pub mod Loop
pub mod Receivers
pub mod Notify
use ftb.Prelude.{
  ℕ, Bool, true, false, ◌&&◌, List, [], ◌∷◌, Option, none, some, ◌==◌, if◌then◌else◌, take,
}
use ftb.Text.{strcasecmp}
use ftb.Defs.{
  Code, is_success, LocationId, FtbId, Event, Msg, MsgType, notify, client_reg, client_dereg,
  cleanup_conn, reg_publishable_event, reg_subscription, publishable_event_reg_cancel,
  subscription_cancel, other, comp_cat_backplane, comp_manager,
}
use ftb.Match.{is_equal_location_id}
use ftb.Manager.State.{Manager, Env, Run, ok, crash}
use ftb.Manager.Clients.{client_register, client_deregister, send, cleanup_connection}
use ftb.Manager.Subscriptions.{
  register_subscription, cancel_subscription, register_publishable_event,
  publishable_event_registration_cancel, get_catcher_comp_list,
}

-- The peer is the agent that the event came from.
unfoldable pub came_from : LocationId → FtbId → Bool
came_from incoming_src id =
    strcasecmp id.client_id.comp comp_manager
    && strcasecmp id.client_id.comp_cat comp_cat_backplane
    && is_equal_location_id id.location_id incoming_src

-- `msg_send` for a peer.
abbrev pub notice : Msg → FtbId → Msg
notice msg id = record { msg_type = notify; src = msg.src; dst = id; event = msg.event }

-- A run goes on with the state; the code is only written to the log file.
unfoldable pub state_of : Run (Code × Manager) → Run Manager
state_of crash = crash
state_of (ok r) = ok r.1

unfoldable pub then_run {ℓ} : {A : Type ℓ} → Run Manager → (Manager → Run A) → Run A
then_run crash f = crash
then_run (ok s) f = f s

module _ (env : Env) where
  unfoldable pub deliver_one : Msg → LocationId → FtbId → Manager → Run Manager
  unfolding state_of
  deliver_one msg incoming_src id s =
      if came_from incoming_src id then ok s else state_of (send env (notice msg id) s)

  -- The loop over the catcher list. A cell that was never written is no id to read.
  unfoldable pub deliver : Msg → LocationId → List (Option FtbId) → Manager → Run Manager
  unfolding deliver_one then_run
  deliver msg incoming_src [] s = ok s
  deliver msg incoming_src (none ∷ ids) s = crash
  deliver msg incoming_src (some id ∷ ids) s =
      then_run (deliver_one msg incoming_src id s) (λ t. deliver msg incoming_src ids t)

  -- What follows FTBM_Get_catcher_comp_list: `ids_len` ids are read, if it succeeded.
  unfoldable pub deliver_all :
      Msg → LocationId → Run (Code × List (Option FtbId) × ℕ) → Manager → Run Manager
  unfolding deliver
  deliver_all msg incoming_src crash s = crash
  deliver_all msg incoming_src (ok (ret, ids, ids_len)) s =
      if is_success ret then deliver msg incoming_src (take ids_len ids) s else ok s

  -- The body of the loop, for a message that was received.
  unfoldable pub progress : Msg → LocationId → Manager → Run Manager
  unfolding deliver_all state_of
  progress msg incoming_src s = elim msg.msg_type [
    | notify ↦ deliver_all msg incoming_src (get_catcher_comp_list msg.event s) s
    | client_reg ↦ ok (client_register env msg.src s).1
    | client_dereg ↦ ok (client_deregister env msg.src s).1
    | cleanup_conn ↦ state_of (cleanup_connection env incoming_src s)
    | reg_subscription ↦ ok (register_subscription env msg.src msg.event s).1
    | reg_publishable_event ↦ ok (register_publishable_event msg.src msg.event s).1
    | subscription_cancel ↦ ok (cancel_subscription env msg.src msg.event s).1
    | publishable_event_reg_cancel ↦
        ok (publishable_event_registration_cancel msg.src msg.event s).1
    | other n ↦ ok s
  ]

  -- The loop, for the messages that arrive while the agent runs, the first one first.
  unfoldable pub progress_loop : List (Msg × LocationId) → Manager → Run Manager
  unfolding progress then_run
  progress_loop [] s = ok s
  progress_loop (m ∷ ms) s = then_run (progress m.0 m.1 s) (λ t. progress_loop ms t)
