-- ===== src/Network/Spinning.antt =====
-- FTBN_Connect of ftb_network_tcp.c at the bootstrap server, over a network that loses nothing, where the
-- only agent cannot be reached.
use ftb.Prelude.{
  ℕ, zero, suc, ◌%◌, ◌<◌, ◌≡◌, refl, ap, ◌∙◌, true, false, not, ◌||◌, [], ◌∷◌, Option, none, some,
  arith, ◌==◌,
}
use ftb.Text.{strncmp}
use ftb.Defs.{Code, success, err_network_no_route, LocationId, ok, max_host_addr}
use ftb.Map
use ftb.Database
use ftb.Database.{
  AddrSock, Pkt, Entry, Server, addr_rep, reply, no_addr, no_entries, entry_addr,
  is_equal_addr_sock, cross_out_parent_entry, suitable, scan_random, find_parent_addr, answer,
  request_parent, serve, strike,
}
use ftb.Network.Bootstrap.{
  Exit, returned, aborted, Config, own_addr, request_pkt, Exchanged, parent_of, get_parent_addr,
  report_conn_failure,
}
use ftb.Network.Reporting.{after_serving, deliver_to_server, first_round}
use ftb.Network.Connect.{Search, next, after_link, turn, after_turn, connect_loop}

-- The server with one agent.
abbrev pub only : Entry → Server
only e = record { addr_map = e ∷ []; addr_count = 1 }

-- The agent may be the parent of a process that has no level yet.
pub record IsOther (cfg : Config) (e : Entry) : Type 0 where
  pub placed : e.level < 65535
  pub other :
      (not (cfg.agent_port == e.addr.port)
        || not (strncmp max_host_addr (own_addr cfg no_addr).name e.addr.name))
      ≡ true

ported :
    (a : AddrSock)
    → (a.port == 2) ≡ false
    → is_equal_addr_sock a (record { name = a.name; port = 2 }) ≡ false
unfolding is_equal_addr_sock
ported a h = rw h refl

unstruck :
    {e : Entry} (addr : AddrSock)
    → is_equal_addr_sock e.addr addr ≡ false
    → strike addr (only e) ≡ only e
unfolding strike Map.find_key
unstruck addr h = ground (arith, h)

module _ (rand : ℕ) (cfg : Config) (e : Entry) where
  named :
      (parent : AddrSock)
      → IsOther cfg e
      → is_equal_addr_sock e.addr parent ≡ false
      → request_parent rand (request_pkt cfg 65535 parent) (only e)
        ≡ ok (some (answer (some e)), only e)
  unfolding request_parent Database.answered find_parent_addr scan_random Database.after_random
      cross_out_parent_entry Map.find_key suitable
  named parent k lost = let short : rand % 1 ≡ 0 = omega arith in ground (arith, k.placed, k.other)

  told :
      (parent : AddrSock)
      → IsOther cfg e
      → is_equal_addr_sock e.addr parent ≡ false
      → get_parent_addr (deliver_to_server rand) cfg 65535 parent (only e)
        ≡ returned ((success, some (e.addr, e.level)), only e)
  unfolding get_parent_addr parent_of answer deliver_to_server after_serving serve
  told parent k lost =
      let served = ap (after_serving (only e)) (named parent k lost) in
      let got =
        first_round (deliver_to_server rand) (request_pkt cfg 65535 parent) (answer (some e))
          (only e) (only e) served in
      let small : e.level % 65536 ≡ e.level = omega (arith, k.placed) in
      ap
        (λ (x : Exit (Exchanged Server)).
          let r : Exit ((Code × Option (AddrSock × ℕ)) × Server) = elim x [
            | aborted ↦ aborted
            | returned y ↦ returned (parent_of (deliver_to_server rand) y, y.world)
          ] in
          r)
        got
      ∙ ap (λ n. returned ((success, some (e.addr, n)), only e)) small

  reported :
      (addr : AddrSock) (garbage : Pkt)
      → is_equal_addr_sock e.addr garbage.parent_addr ≡ false
      → report_conn_failure (deliver_to_server rand) addr garbage (only e) ≡ returned (only e)
  unfolding report_conn_failure deliver_to_server after_serving serve
  reported addr garbage h =
      ap (λ (s : Server). let r : Exit Server = returned s in r) (unstruck garbage.parent_addr h)

  module _ (link : AddrSock → Server → (Code × LocationId) × Server) (garbage : Pkt)
      (l : LocationId) (k : IsOther cfg e)
      (dead : (w : Server) → link e.addr w ≡ ((err_network_no_route, l), w))
      (unread : is_equal_addr_sock e.addr garbage.parent_addr ≡ false)
      (port : (e.addr.port == 0) ≡ false) where
    spin :
        (retry : ℕ) (st : Search Server)
        → st.my_level ≡ 65535
        → st.world ≡ only e
        → is_equal_addr_sock e.addr st.parent_addr ≡ false
        → turn (deliver_to_server rand) link cfg garbage retry st
          ≡ next err_network_no_route 0
              (record st { parent_addr = record { name = e.addr.name; port = 2 }; world = only e })
    unfolding turn after_link
    spin retry st level world lost =
        let q = told st.parent_addr k lost in
        let r = reported e.addr garbage unread in
        ground (arith, level, world, q, port, dead (only e), r)

    -- A process that has no level asks for a parent at a server that knows one agent, other than the
    -- process itself, with a level below 65535 and a port that is neither 0 nor 2. The process names no
    -- parent that has the agent's address. Every attempt to connect to the agent finds no route and leaves
    -- the server alone, and the agent's address is not the one that the process's uninitialised packet
    -- holds. Then FTBN_Connect never returns: after any number of turns its loop still runs, since each
    -- failure sets the count of the attempts back and the server goes on naming the agent.
    pub connect_loop-none :
        (fuel retry : ℕ) (st : Search Server)
        → (e.addr.port == 2) ≡ false
        → st.my_level ≡ 65535
        → st.world ≡ only e
        → is_equal_addr_sock e.addr st.parent_addr ≡ false
        → connect_loop (deliver_to_server rand) link cfg garbage fuel retry st ≡ none
    unfolding connect_loop after_turn
    connect_loop-none zero retry st two level world lost = refl
    connect_loop-none (suc n) retry st two level world lost =
        let st' : Search Server = record st {
          parent_addr = record { name = e.addr.name; port = 2 };
          world = only e;
        } in
        let further = connect_loop-none n 1 st' two level refl (ported e.addr two) in
        ap (λ t. after_turn t (connect_loop (deliver_to_server rand) link cfg garbage n))
          (spin retry st level world lost)
        ∙ further
