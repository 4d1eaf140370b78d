-- ===== src/Manager/Sending.antt =====
-- FTBM_Send and FTBM_Get keep the tables coherent, and when FTBM_Send follows a null pointer.
use ftb.Prelude.{
  ◌≡◌, refl, Bool, true, false, arith, if◌then◌else◌, inl, inr, Bool-cases, Option-cases, ◌==◌,
}
use ftb.Defs.{Code, is_success, FtbId, Msg}
use ftb.Match.{is_equal_location_id}
use ftb.Manager.State.{Manager, Env, Run, ok, crash, lookup_component}
use ftb.Manager.Propagation.{send_msg, clean_component}
use ftb.Manager.Frame.{send_msg-Called}
use ftb.Manager.Lifecycle.{reconnect}
use ftb.Manager.Clients.{forget, hang_up, is_manager, drop_dead, after_loss, send, get}
use ftb.Manager.Departure.{IsSound-if, forget-Departed}
use ftb.Manager.Coherence.{IsSound, IsSound-same, IsSound-Called, reconnect-IsSound}

module _ (env : Env) where
  drop_dead-IsSound :
      (id : FtbId) (s t : Manager) → IsSound s → drop_dead env id s ≡ ok t → IsSound t
  unfolding drop_dead
  drop_dead-IsSound id s t h e = elim (Option-cases (lookup_component id s)) [
    | inl missing ↦ absurd (ground arith)
    | inr (c, found) ↦
        let left = (forget-Departed env s h id c found (is_manager c.id)).sound in
        let gone = forget c (
          if is_manager c.id
          then hang_up c (clean_component env c s)
          else clean_component env c s) in
        IsSound-same gone t (ground arith) (ground arith) left
  ]

  after_loss-IsSound :
      (ret : Code) (dst : FtbId) (r : Run Manager) (t : Code × Manager)
      → ((s : Manager) → r ≡ ok s → IsSound s)
      → after_loss env ret dst r ≡ ok t
      → IsSound t.1
  unfolding after_loss
  after_loss-IsSound ret dst crash t h e = absurd (ground arith)
  after_loss-IsSound ret dst (ok s) t h e =
      let b = is_equal_location_id s.parent dst.location_id in
      IsSound-same (if b then reconnect env s else s) t.1 (ground arith) (ground arith)
        (IsSound-if b _ _ (reconnect-IsSound env s (h s refl)) (h s refl))

  drop_if_dead-IsSound :
      (b : Bool) (id : FtbId) (s t : Manager)
      → IsSound s
      → (if b then drop_dead env id s else ok s) ≡ ok t
      → IsSound t
  drop_if_dead-IsSound true id s t h e = drop_dead-IsSound id s t h e
  drop_if_dead-IsSound false id s t h e = IsSound-same s t (ground arith) (ground arith) h

  -- Sending a message keeps the tables coherent: delivered, refused, or lost, where an agent drops
  -- the peer and looks for a new parent if the peer was its parent.
  pub send-IsSound :
      (m : Msg) (s : Manager) (r : Code × Manager) → IsSound s → send env m s ≡ ok r → IsSound r.1
  unfolding send
  send-IsSound m s r h e =
      let q = send_msg env m s in
      let sent = IsSound-Called s q.1 (send_msg-Called env m s) h in
      elim (Bool-cases s.initialized) [
        | inr down ↦ IsSound-same s r.1 (ground arith) (ground arith) h
        | inl up ↦ elim (Bool-cases (is_success q.0)) [
          | inl good ↦ IsSound-same q.1 r.1 (ground arith) (ground arith) sent
          | inr lost ↦
              after_loss-IsSound q.0 m.dst
                (if q.1.leaf == 0 then drop_dead env m.dst q.1 else ok q.1) r
                (λ t f. drop_if_dead-IsSound (q.1.leaf == 0) m.dst q.1 t sent f) (ground arith)
        ]
      ]

  -- A receive keeps the tables coherent, also when it fails and the agent reconnects.
  pub get-IsSound : (ret : Code) (s : Manager) → IsSound s → IsSound (get env ret s).1
  unfolding get
  get-IsSound ret s h = let again = reconnect-IsSound env s h in ground arith
