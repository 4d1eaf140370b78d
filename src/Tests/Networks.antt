-- ===== src/Tests/Networks.antt =====
-- The theorems on the requests to the bootstrap server and on the search for a parent at concrete servers.
use ftb.Prelude.{ℕ, suc, ◌≡◌, refl, subst, none, some, arith, ◌==◌, if◌then◌else◌}
use ftb.Text.{codes, strncmp}
use ftb.Defs.{Code, success, err_network_no_route, LocationId}
use ftb.Database.{
  AddrSock, Pkt, addr_req, reg_rep, Entry, Server, reply, no_addr, is_equal_addr_sock,
}
use ftb.Network.Bootstrap.{
  returned, Round, silent, arrived, Config, request_pkt, exchange_bootstrap_msg,
  report_conn_failure,
}
use ftb.Network.Exchange.{Ended, exchange_bootstrap_msg-Ended}
use ftb.Network.Reporting.{deliver_to_server, report_conn_failure-Levels}
use ftb.Database.Requests.{Levels}
use ftb.Network.Connect.{Search, connect_loop}
use ftb.Network.Joining.{IsHost, Joined, connect_loop-Joined}
use ftb.Database.Parents.{IsParent}
use ftb.Map
use ftb.Network.Spinning.{only, connect_loop-none}
use ftb.Tests.{there}
use ftb.Tests.Servers.{node, packet, only_root, only_root-IsTree}

-- The first three packets are lost, and the fourth is answered.
abbrev fourth : Pkt → ℕ → Round × ℕ
fourth pkt n = (if n == 3 then arrived (reply reg_rep) else silent, suc n)

exchange_bootstrap_msg-Ended_example :
    Ended fourth (packet addr_req 2) 5 100 0 (exchange_bootstrap_msg fourth (packet addr_req 2) 0)
exchange_bootstrap_msg-Ended_example = exchange_bootstrap_msg-Ended fourth (packet addr_req 2) 0

-- The memory that is not initialised holds no address.
abbrev garbage : Pkt
garbage = reply addr_req

report_conn_failure-Levels_example :
    (t : Server) × (report_conn_failure (deliver_to_server 0) (node 5) garbage only_root
      ≡ returned t)
    × Levels no_addr none only_root t
report_conn_failure-Levels_example =
    report_conn_failure-Levels 0 (node 5) garbage only_root only_root-IsTree

abbrev agent_config : Config
agent_config = record { agent_port = 7; leaf = 0; my_address = some (codes "host") }

abbrev entry : Entry
entry = record { addr = node 5; level = 1 }

-- No host can be reached.
abbrev unreachable : AddrSock → Server → (Code × LocationId) × Server
unreachable addr w = ((err_network_no_route, there), w)

abbrev search : Search Server
search = record {
  my_level = 65535;
  parent_addr = no_addr;
  parent_location_id = there;
  world = only entry;
}

connect_loop-none_example :
    connect_loop (deliver_to_server 0) unreachable agent_config garbage 1000 0 search ≡ none
unfolding is_equal_addr_sock
connect_loop-none_example =
    connect_loop-none 0 agent_config entry unreachable garbage there
      (record { placed = omega arith; other = refl }) (λ w. refl) refl refl 1000 0 search refl refl
      refl refl

-- Every host can be reached.
abbrev reachable : AddrSock → Server → (Code × LocationId) × Server
reachable addr w = ((success, there), w)

entry-IsParent : IsParent (request_pkt agent_config 65535 no_addr) only_root entry
unfolding Map.find_key is_equal_addr_sock strncmp
entry-IsParent = record { registered = refl; above = omega arith; not_self = refl; not_lost = refl }

only_entry : (e : Entry) → IsParent (request_pkt agent_config 65535 no_addr) only_root e → entry ≡ e
unfolding Map.find_key
only_entry e p = ground (arith, p.registered)

connect_loop-Joined_example :
    Joined 3 agent_config
      (λ a. there)
      search
      (connect_loop (deliver_to_server 3) reachable agent_config garbage 1 0 search)
connect_loop-Joined_example =
    connect_loop-Joined 3 agent_config reachable garbage (λ a. there) 0 0 search entry
      (record { tree = only_root-IsTree; small = omega arith; agent = refl; port = refl })
      entry-IsParent
      (λ e p. subst IsHost (only_entry e p) (record { level = omega arith; port = refl }))
      (λ e w p. refl)
