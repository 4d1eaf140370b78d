-- ===== src/Network/Joining.antt =====
-- FTBN_Connect at the bootstrap server, over a network that loses nothing: how an agent finds its place in
-- the tree.
use ftb.Prelude.{ℕ, suc, ◌+◌, ◌%◌, ◌<◌, ◌≡◌, ap, ◌∙◌, true, false, Option, some, arith, ◌==◌}
use ftb.Defs.{Code, success, LocationId, Run, ok}
use ftb.Database.{AddrSock, Pkt, addr_rep, Entry, Server, reply, no_addr, request_parent, serve}
use ftb.Database.Tree.{IsTree}
use ftb.Database.Parents.{IsParent, orphan, adopted, request_parent-IsAnswer}
use ftb.Database.Requests.{Levels}
use ftb.Network.Bootstrap.{
  Exit, returned, aborted, Config, own_addr, request_pkt, Exchanged, parent_of, get_parent_addr,
  register_addr,
}
use ftb.Network.Reporting.{
  after_serving, deliver_to_server, first_round, leaf, no_port, second_root, entered,
  register_addr-Registered,
}
use ftb.Network.Connect.{Search, after_link, turn, after_turn, connect_loop}

-- The server and the process: the map is a tree, and the process is an agent with a port and a level
-- that fits.
pub record IsJoining (cfg : Config) (level : ℕ) (s : Server) : Type 0 where
  pub tree : IsTree s
  pub small : level < 65536
  pub agent : (cfg.leaf == 0) ≡ true
  pub port : (cfg.agent_port == 0) ≡ false

-- An entry with a level and a port.
pub record IsHost (e : Entry) : Type 0 where
  pub level : 0 < e.level
  pub port : (e.addr.port == 0) ≡ false

-- The end of the search: the process is connected to an agent that may be its parent, stands one level
-- below it, and is registered there; the other entries keep the levels that they have once the
-- lost parent is crossed out.
pub record Joined (rand : ℕ) (cfg : Config) (l : AddrSock → LocationId) (st : Search Server)
    (r : Option (Exit (Code × Search Server))) : Type 0 where
  pub e : Entry
  pub parent : IsParent (request_pkt cfg st.my_level st.parent_addr) st.world e
  pub before : Server
  pub after : Server
  pub sent : Pkt
  pub asked :
      request_parent rand (request_pkt cfg st.my_level st.parent_addr) st.world
      ≡ ok (some sent, before)
  pub tree : IsTree after
  pub levels : Levels (own_addr cfg no_addr) (some (e.level + 1)) before after
  pub runs :
      r
      ≡ some (
          returned (
            success,
            record st {
              my_level = e.level + 1;
              parent_addr = e.addr;
              parent_location_id = l e.addr;
              world = after;
            },
          ))

module _ (rand : ℕ) (cfg : Config) where
  told :
      (level : ℕ) (parent : AddrSock) (s t : Server) (e : Entry)
      → request_parent rand (request_pkt cfg level parent) s
        ≡ ok (some (record (reply addr_rep) { parent_addr = e.addr; level = e.level }), t)
      → get_parent_addr (deliver_to_server rand) cfg level parent s
        ≡ returned ((success, some (e.addr, e.level)), t)
  unfolding get_parent_addr parent_of deliver_to_server after_serving serve
  told level parent s t e runs =
      let answer : Pkt = record (reply addr_rep) { parent_addr = e.addr; level = e.level } in
      ap
        (λ (x : Exit (Exchanged Server)).
          let r : Exit ((Code × Option (AddrSock × ℕ)) × Server) = elim x [
            | aborted ↦ aborted
            | returned y ↦ returned (parent_of (deliver_to_server rand) y, y.world)
          ] in
          r)
        (first_round (deliver_to_server rand) (request_pkt cfg level parent) answer s t
          (ap (after_serving s) runs))

  module _ (link : AddrSock → Server → (Code × LocationId) × Server) (garbage : Pkt)
      (l : AddrSock → LocationId) where
    placed :
        (retry fuel : ℕ) (st : Search Server) (t after : Server) (e : Entry)
        → (cfg.leaf == 0) ≡ true
        → (e.addr.port == 0) ≡ false
        → e.level + 1 < 65536
        → get_parent_addr (deliver_to_server rand) cfg st.my_level st.parent_addr st.world
          ≡ returned ((success, some (e.addr, e.level)), t)
        → link e.addr t ≡ ((success, l e.addr), t)
        → register_addr (deliver_to_server rand) cfg (e.level + 1) t ≡ returned (success, after)
        → connect_loop (deliver_to_server rand) link cfg garbage (suc fuel) retry st
          ≡ some (
              returned (
                success,
                record st {
                  my_level = e.level + 1;
                  parent_addr = e.addr;
                  parent_location_id = l e.addr;
                  world = after;
                },
              ))
    unfolding connect_loop turn after_turn after_link
    placed retry fuel st t after e agent port small asked linked registered =
        let whole : (e.level + 1) % 65536 ≡ e.level + 1 = omega (arith, small) in
        ground (arith, agent, port, asked, linked, whole, registered)

    -- The bootstrap server's map is a tree, in which some agent may be the parent of an agent that
    -- searches; each one that may be has a level and a port, and can be connected to, which leaves the
    -- server alone. Then FTBN_Connect returns with success after its first turn: the process is
    -- connected to such an agent, stands one level below it, and is registered there; the map is a tree,
    -- and the other entries keep the levels that they have once the lost parent is crossed out.
    pub connect_loop-Joined :
        (fuel retry : ℕ) (st : Search Server) (c : Entry)
        → IsJoining cfg st.my_level st.world
        → IsParent (request_pkt cfg st.my_level st.parent_addr) st.world c
        → ((e : Entry)
            → IsParent (request_pkt cfg st.my_level st.parent_addr) st.world e
            → IsHost e)
        → ((e : Entry) (w : Server)
            → IsParent (request_pkt cfg st.my_level st.parent_addr) st.world e
            → link e.addr w ≡ ((success, l e.addr), w))
        → Joined rand cfg l st
            (connect_loop (deliver_to_server rand) link cfg garbage (suc fuel) retry st)
    connect_loop-Joined fuel retry st c j there hosts links =
        let pkt = request_pkt cfg st.my_level st.parent_addr in
        let (sent, t, runs, tree, named) =
          request_parent-IsAnswer rand pkt st.world j.tree j.small in
        elim named [
          | orphan nobody _ ↦ absurd (nobody c there)
          | adopted e p same ↦
              let host = hosts e p in
              let below : e.level + 1 < 65536 = omega (arith, p.above, j.small) in
              let asked = told st.my_level st.parent_addr st.world t e (
                runs
                ∙ ap (λ (x : Pkt). let r : Run (Option Pkt × Server) = ok (some x, t) in r) same) in
              elim (register_addr-Registered rand cfg (e.level + 1) t tree) [
                | leaf is_leaf _ ↦ absurd (ground (arith, is_leaf, j.agent))
                | no_port none_there _ ↦ absurd (ground (arith, none_there, j.port))
                | second_root one _ _ ↦ absurd (omega (arith, one, host.level))
                | entered after registered tree2 levels ↦ record {
                  e = e;
                  parent = p;
                  before = t;
                  after = after;
                  sent = sent;
                  asked = runs;
                  tree = tree2;
                  levels = levels;
                  runs =
                      placed retry fuel st t after e j.agent host.port below asked (links e t p)
                        registered;
                }
              ]
        ]
