-- ===== src/Network/Reporting.antt =====
-- The requests of ftb_bootstrap_udp.c over a network that loses nothing, at the bootstrap server of
-- ftb_database_server_udp.c: what the server holds afterwards, and what the process is told.
use ftb.Prelude.{
  ℕ, zero, suc, ◌*◌, ◌%◌, ◌^◌, ◌≡◌, refl, ap, ◌∙◌, true, false, List, [], ◌∷◌, Option, none, some,
  ◌==◌, is_some, inl, inr, Bool-cases,
}
use ftb.Defs.{Code, success, err_general, err_not_supported, err_network_no_route, Run, ok, crash}
use ftb.Database
use ftb.Database.{
  AddrSock, Pkt, reg_rep, reg_invalid, Server, reply, find_root_entry, serve, strike, no_addr,
}
use ftb.Database.Tree.{IsTree}
use ftb.Database.Requests.{
  Levels, IsRegistered, ignored, refused, taken, register_addr-IsRegistered, strike-Levels,
}
use ftb.Network.Bootstrap.{
  Exit, returned, Round, silent, arrived, Config, own_addr, register_pkt, add_wait, after_round,
  exchange_rounds, exchange_bootstrap_msg, report_conn_failure, confirmed, register_addr,
}

unfoldable pub after_serving : Server → Run (Option Pkt × Server) → Round × Server
after_serving s crash = (silent, s)
after_serving s (ok (none, t)) = (silent, t)
after_serving s (ok (some p, t)) = (arrived p, t)

-- A packet that reaches the server, and its answer; `rand` is what `rand()` returns there.
unfoldable pub deliver_to_server : ℕ → Pkt → Server → Round × Server
unfolding after_serving serve
deliver_to_server rand pkt s = after_serving s (serve rand pkt s)

-- Whatever address a process reports, the server strikes off the one that stood in the process's
-- uninitialised memory: every other one, the reported one too, stays on its level.
pub report_conn_failure-Levels :
    (rand : ℕ) (addr : AddrSock) (garbage : Pkt) (s : Server)
    → IsTree s
    → (t : Server) × (report_conn_failure (deliver_to_server rand) addr garbage s ≡ returned t)
      × Levels garbage.parent_addr none s t
unfolding report_conn_failure deliver_to_server after_serving serve
report_conn_failure-Levels rand addr garbage s k =
    (strike garbage.parent_addr s, refl, strike-Levels garbage.parent_addr s k)

module _ {W : Type 0} (deliver : Pkt → W → Round × W) (pkt : Pkt) where
  silent_rounds :
      (n timeout : ℕ) (w : W)
      → deliver pkt w ≡ (silent, w)
      → (ts : List ℕ) × (exchange_rounds deliver n timeout pkt w
          ≡ returned (record { pkt_recv = none; waits = ts; world = w }))
  unfolding exchange_rounds after_round add_wait
  silent_rounds zero timeout w e = ([], refl)
  silent_rounds (suc n) timeout w e =
      let (ts, same) = silent_rounds n (timeout * 4 % 2 ^ 32) w e in
      (
        timeout ∷ ts,
        ap (λ a. after_round timeout a (λ next left. exchange_rounds deliver n next pkt left)) e
            ∙ ap (add_wait timeout) same,
      )

  pub first_round :
      (p : Pkt) (w t : W)
      → deliver pkt w ≡ (arrived p, t)
      → exchange_bootstrap_msg deliver pkt w
        ≡ returned (record { pkt_recv = some p; waits = 100 ∷ []; world = t })
  unfolding exchange_bootstrap_msg exchange_rounds after_round
  first_round p w t e =
      ap (λ a. after_round 100 a (λ next left. exchange_rounds deliver 4 next pkt left)) e

-- How a registration at the server ends.
pub data Registered (cfg : Config) (level : ℕ) (s : Server) (r : Exit (Code × Server))
    : Type 0 where
  leaf : (cfg.leaf == 0) ≡ false → r ≡ returned (err_not_supported, s) → Registered cfg level s r
  no_port : cfg.agent_port ≡ 0 → r ≡ returned (err_network_no_route, s) → Registered cfg level s r
  second_root :
      level ≡ 1
      → is_some (find_root_entry s.addr_map) ≡ true
      → r ≡ returned (err_general, s)
      → Registered cfg level s r
  entered :
      (t : Server)
      → r ≡ returned (success, t)
      → IsTree t
      → Levels (own_addr cfg no_addr) (some level) s t
      → Registered cfg level s r

-- A registration over a network that loses nothing: a leaf does not register; a process with port 0
-- is never answered; a second root is refused, and in these cases the server holds what it held; every
-- other process is told of success, stands on its level then, and all others stay where they were.
pub register_addr-Registered :
    (rand : ℕ) (cfg : Config) (level : ℕ) (s : Server)
    → IsTree s
    → Registered cfg level s (register_addr (deliver_to_server rand) cfg level s)
unfolding register_addr confirmed deliver_to_server after_serving serve
register_addr-Registered rand cfg level s k = elim (Bool-cases (cfg.leaf == 0)) [
  | inr is_leaf ↦ leaf is_leaf (rw is_leaf refl)
  | inl agent ↦ by_answer agent (register_addr-IsRegistered (register_pkt cfg level) s k)
]
  where
    delivered :
        (o : Option Pkt) (t : Server)
        → Database.register_addr (register_pkt cfg level) s ≡ (o, t)
        → deliver_to_server rand (register_pkt cfg level) s ≡ after_serving s (ok (o, t))
    delivered o t e = ap (λ r. after_serving s (ok r)) e

    by_answer :
        (cfg.leaf == 0) ≡ true
        → IsTree (Database.register_addr (register_pkt cfg level) s).1
          × IsRegistered
              (register_pkt cfg level)
              s
              (Database.register_addr (register_pkt cfg level) s)
        → Registered cfg level s (register_addr (deliver_to_server rand) cfg level s)
    by_answer agent (tree, ignored port e) =
        let (ts, quiet) =
          silent_rounds (deliver_to_server rand) (register_pkt cfg level) 5 100 s
            (delivered none s e) in
        no_port port (rw (agent, exchange_bootstrap_msg, quiet) refl)
    by_answer agent (tree, refused one root e) =
        let once =
          first_round (deliver_to_server rand) (register_pkt cfg level) (reply reg_invalid) s s
            (delivered (some (reply reg_invalid)) s e) in
        second_root one root (rw (agent, once) refl)
    by_answer agent (tree, taken _ _ e l) =
        let t = (Database.register_addr (register_pkt cfg level) s).1 in
        let once =
          first_round (deliver_to_server rand) (register_pkt cfg level) (reply reg_rep) s t
            (ap (λ o. after_serving s (ok (o, t))) e) in
        entered t (rw (agent, once) refl) tree l
