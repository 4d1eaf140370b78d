-- ===== src/Tests/Servers.antt =====
-- The theorems on the bootstrap server at concrete packets.
use ftb.Prelude.{ℕ, ◌≡◌, refl, [], ◌∷◌, some, arith}
use ftb.Map
use ftb.Text.{codes}
use ftb.Defs.{ok}
use ftb.Database.{
  AddrSock, Pkt, PktType, addr_req, reg_req, Server, no_addr, no_entries, request_parent,
  serve_loop,
}
use ftb.Database.Tree.{IsTree, count_roots}
use ftb.Database.Parents.{IsAnswer, request_parent-IsAnswer}
use ftb.Database.Requests.{serve_loop-IsTree}

abbrev pub node : ℕ → AddrSock
node port = record { name = codes "host"; port = port }

abbrev pub packet : PktType → ℕ → Pkt
packet kind level = record {
  bootstrap_msg_type = kind;
  addr = node 7;
  parent_addr = no_addr;
  level = level;
}

-- The root of the tree alone.
abbrev pub only_root : Server
only_root = record { addr_map = record { addr = node 5; level = 1 } ∷ []; addr_count = 1 }

pub only_root-IsTree : IsTree only_root
unfolding count_roots Map.find_key
only_root-IsTree = record { count = refl; distinct = (refl, tt); root = omega arith }

request_parent-IsAnswer_example :
    (sent : Pkt) × (t : Server) × (request_parent 3 (packet addr_req 2) only_root
      ≡ ok (some sent, t))
    × IsTree t
    × IsAnswer (packet addr_req 2) only_root sent
request_parent-IsAnswer_example =
    request_parent-IsAnswer 3 (packet addr_req 2) only_root only_root-IsTree (omega arith)

serve_loop-IsTree_example :
    (t : Server) × (serve_loop ((0, packet reg_req 1) ∷ (4, packet addr_req 2) ∷ []) no_entries
      ≡ ok t)
    × IsTree t
serve_loop-IsTree_example =
    serve_loop-IsTree ((0, packet reg_req 1) ∷ (4, packet addr_req 2) ∷ [])
      (omega arith, (omega arith, tt))
