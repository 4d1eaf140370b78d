-- ===== src/Agent/Receivers.antt =====
-- Who is sent an event by src/agent/ftb_agent.c while the network serves every message.
use mathlib.Core.List.{append_assoc}
use ftb.Prelude.{
  ◌≡◌, refl, sym, ap, true, ◌&&◌, List, [], ◌∷◌, ◌++◌, map, some, arith, if◌then◌else◌, inl, inr,
  Bool-cases,
}
use ftb.Defs.{is_success, LocationId, FtbId, Msg, notify}
use ftb.Manager.State.{Action, Manager, Env, ok}
use ftb.Manager.Propagation.{send_msg}
use ftb.Match.{is_equal_location_id}
use ftb.Manager.Clients.{is_manager, send}
use ftb.Manager.Delivery.{Delivers, get_catcher_comp_list-Delivers}
use ftb.Agent.{came_from, notice, state_of, then_run, deliver_one, deliver, deliver_all, progress}
use ftb.Agent.Notify.{IsRunning, take_all}

-- The ids without the agents at a location.
abbrev pub others : LocationId → List FtbId → List FtbId
others l [] = []
others l (id ∷ ids) =
    if is_manager id && is_equal_location_id id.location_id l
    then others l ids
    else id ∷ others l ids

came_from-is_manager :
    (l : LocationId) (id : FtbId)
    → (is_manager id && is_equal_location_id id.location_id l) ≡ came_from l id
unfolding came_from is_manager
came_from-is_manager l id = ground arith

-- The calls that send the event to these peers, the newest first.
abbrev pub notices : Msg → List FtbId → List Action
notices msg [] = []
notices msg (id ∷ ids) = notices msg ids ++ Action.send (notice msg id) ∷ []

abbrev pub logged : List Action → Manager → Manager
logged calls s = record s { log = calls ++ s.log }

module _ (env : Env)
    (serves : (log : List Action) (m : Msg) → is_success (env.send_result log m) ≡ true) (msg : Msg)
    (l : LocationId) where
  served :
      (m : Msg) (s : Manager)
      → s.initialized ≡ true
      → send env m s ≡ ok (env.send_result s.log m, logged (Action.send m ∷ []) s)
  unfolding send send_msg
  served m s up = ground (arith, serves s.log m)

  deliver-logged :
      (ids : List FtbId) (s : Manager)
      → s.initialized ≡ true
      → deliver env msg l (map some ids) s ≡ ok (logged (notices msg (others l ids)) s)
  unfolding deliver deliver_one then_run state_of
  deliver-logged [] s up = refl
  deliver-logged (id ∷ ids) s up = elim (Bool-cases (came_from l id)) [
    | inl back ↦ rw (came_from-is_manager l id, back, deliver-logged ids s up) refl
    | inr on ↦
        let t = logged (Action.send (notice msg id) ∷ []) s in
        rw (came_from-is_manager l id, on, served (notice msg id) s up, deliver-logged ids t up)
          (ap (λ log. ok (record s { log = log }))
            (sym
              (append_assoc (notices msg (others l ids)) (Action.send (notice msg id) ∷ []) s.log)))
  ]

  -- While the network serves every message, an event that a running agent receives is sent to
  -- exactly the peers that subscribed to a mask that matches it, once to each, but not back to the
  -- agent that it came from; nothing else is sent, and no state changes but the log of calls.
  pub progress_notify-Delivers :
      (s : Manager)
      → IsRunning s
      → msg.msg_type ≡ notify
      → (ids : List FtbId) × Delivers s msg.event ids
        × (progress env msg l s ≡ ok (logged (notices msg (others l ids)) s))
  unfolding progress deliver_all
  progress_notify-Delivers s k kind =
      let (ids, d) = get_catcher_comp_list-Delivers msg.event s k.sound k.up.up k.up.agent in
      (ids, d, rw (kind, d.answer, take_all ids, deliver-logged ids s k.up.up) refl)
