-- ===== src/Network/Exchange.antt =====
-- The exchange of packets of ftb_bootstrap_udp.c: when it ends, with what, and after how long.
use ftb.Prelude.{
  ℕ, zero, suc, ◌+◌, ◌*◌, ◌%◌, ◌^◌, ◌<◌, ◌≤◌, ◌≡◌, refl, sym, subst, Bool, true, false, List, [],
  ◌∷◌, none, some, arith, length,
}
use ftb.Database.{Pkt}
use ftb.Network.Bootstrap.{
  Exit, returned, aborted, Round, interrupted, silent, broken, arrived, Exchanged, add_wait,
  after_round, exchange_rounds, exchange_bootstrap_msg,
}

-- The time to wait is over, or the wait was interrupted.
abbrev pub is_quiet : Round → Bool
is_quiet interrupted = true
is_quiet silent = true
is_quiet _ = false

abbrev pub total : List ℕ → ℕ
total [] = 0
total (t ∷ ts) = t + total ts

-- The longest time for so many rounds, when the first one waits for `timeout`.
abbrev pub budget : ℕ → ℕ → ℕ
budget zero timeout = 0
budget (suc n) timeout = timeout + budget n (timeout * 4)

budget_mono : (n t u : ℕ) → t ≤ u → budget n t ≤ budget n u
budget_mono zero t u h = omega arith
budget_mono (suc n) t u h = omega (arith, budget_mono n (t * 4) (u * 4) (omega arith))

module _ {W : Type 0} (deliver : Pkt → W → Round × W) (pkt : Pkt) where
  -- The world after the packet was sent so often.
  abbrev pub worlds : ℕ → W → W
  worlds zero w = w
  worlds (suc k) w = worlds k (deliver pkt w).1

  -- Nothing comes of the packet so many times.
  abbrev pub AllQuiet : ℕ → W → Type 0
  AllQuiet zero w = Unit {0}
  AllQuiet (suc k) w = (is_quiet (deliver pkt w).0 ≡ true) × AllQuiet k (deliver pkt w).1

  -- How an exchange of at most `n` rounds ends.
  pub data Ended (n timeout : ℕ) (w : W) (r : Exit (Exchanged W)) : Type 0 where
    answered :
        (k : ℕ) (p : Pkt) (x : Exchanged W)
        → k < n
        → AllQuiet k w
        → (deliver pkt (worlds k w)).0 ≡ arrived p
        → r ≡ returned x
        → x.pkt_recv ≡ some p
        → x.world ≡ worlds (suc k) w
        → length x.waits ≡ suc k
        → total x.waits ≤ budget n timeout
        → Ended n timeout w r
    unanswered :
        (x : Exchanged W)
        → AllQuiet n w
        → r ≡ returned x
        → x.pkt_recv ≡ none
        → x.world ≡ worlds n w
        → length x.waits ≡ n
        → total x.waits ≤ budget n timeout
        → Ended n timeout w r
    failed :
        (k : ℕ)
        → k < n
        → AllQuiet k w
        → (deliver pkt (worlds k w)).0 ≡ broken
        → r ≡ aborted
        → Ended n timeout w r

  later :
      (n timeout next : ℕ) (w : W) (r : Exit (Exchanged W))
      → next ≤ timeout * 4
      → is_quiet (deliver pkt w).0 ≡ true
      → Ended n next (deliver pkt w).1 r
      → Ended (suc n) timeout w (add_wait timeout r)
  unfolding add_wait
  later n timeout next w r h quiet (answered k p x b q a e got left len sum) =
      answered (suc k) p (record x { waits = timeout ∷ x.waits }) (omega arith) (quiet, q) a
        (rw e refl) got left (omega (arith, len))
        (omega (arith, sum, budget_mono n next (timeout * 4) h))
  later n timeout next w r h quiet (unanswered x q e got left len sum) =
      unanswered (record x { waits = timeout ∷ x.waits }) (quiet, q) (rw e refl) got left
        (omega (arith, len)) (omega (arith, sum, budget_mono n next (timeout * 4) h))
  later n timeout next w r h quiet (failed k b q a e) =
      failed (suc k) (omega arith) (quiet, q) a (rw e refl)

  one_round :
      (n timeout : ℕ) (w : W) (a : Round)
      → (deliver pkt w).0 ≡ a
      → ((next : ℕ)
          → Ended n next (deliver pkt w).1 (exchange_rounds deliver n next pkt (deliver pkt w).1))
      → Ended (suc n) timeout w (exchange_rounds deliver (suc n) timeout pkt w)
  unfolding exchange_rounds after_round
  one_round n timeout w interrupted e ih =
      let left = (deliver pkt w).1 in
      let same : exchange_rounds deliver (suc n) timeout pkt w
          ≡ add_wait timeout (exchange_rounds deliver n timeout pkt left) =
        rw (e, exchange_rounds, after_round) refl in
      subst (Ended (suc n) timeout w) (sym same)
        (later n timeout timeout w _ (omega arith) (rw e refl) (ih timeout))
  one_round n timeout w silent e ih =
      let left = (deliver pkt w).1 in
      let next = timeout * 4 % 2 ^ 32 in
      let same : exchange_rounds deliver (suc n) timeout pkt w
          ≡ add_wait timeout (exchange_rounds deliver n next pkt left) =
        rw (e, exchange_rounds, after_round) refl in
      subst (Ended (suc n) timeout w) (sym same)
        (later n timeout next w _ (omega arith) (rw e refl) (ih next))
  one_round n timeout w broken e ih =
      failed 0 (omega arith) tt e (rw (e, exchange_rounds, after_round) refl)
  one_round n timeout w (arrived p) e ih =
      answered 0 p (record { pkt_recv = some p; waits = timeout ∷ []; world = (deliver pkt w).1 })
        (omega arith) tt e (rw (e, exchange_rounds, after_round) refl) refl refl refl (omega arith)

  exchange_rounds-Ended :
      (n timeout : ℕ) (w : W) → Ended n timeout w (exchange_rounds deliver n timeout pkt w)
  unfolding exchange_rounds after_round
  exchange_rounds-Ended zero timeout w =
      unanswered (record { pkt_recv = none; waits = []; world = w }) tt refl refl refl refl
        (omega arith)
  exchange_rounds-Ended (suc n) timeout w =
      one_round n timeout w (deliver pkt w).0 refl
        (λ next. exchange_rounds-Ended n next (deliver pkt w).1)

  -- An exchange ends after five packets at most, and after 34.1 seconds of waiting at most: with the
  -- first packet that arrives, if only time-outs and interruptions came before; with none, if none
  -- arrives in five rounds; and with the end of the process where a call fails first.
  pub exchange_bootstrap_msg-Ended : (w : W) → Ended 5 100 w (exchange_bootstrap_msg deliver pkt w)
  unfolding exchange_bootstrap_msg
  exchange_bootstrap_msg-Ended w = exchange_rounds-Ended 5 100 w
