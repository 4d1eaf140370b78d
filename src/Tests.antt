-- ===== src/Tests.antt =====
-- Concrete inputs, and the theorems applied to them.
pub mod Managers
pub mod Agents
pub mod Servers
pub mod Inboxes
pub mod Maps
pub mod Library
pub mod Clients
pub mod Networks
pub mod Connections
pub mod Rings
use ftb.Prelude.{
  ℕ, ◌≡◌, refl, Bool, true, false, List, [], ◌∷◌, Option, none, some, if◌then◌else◌, ◌==◌, arith,
}
use ftb.Text.{Str, codes, strcasecmp, strncasecmp, to_lower, strcmp}
use ftb.Defs.{
  Code, success, err_network_general, LocationId, ClientId, FtbId, Event, Msg, MsgType, notify,
  comp_cat_backplane, comp_manager,
}
use ftb.Map
use ftb.Match.{is_equal_ftb_id, is_equal_location_id, is_equal_event_mask}
use ftb.Manager.State.{Comp, CatchEntry, Manager, Env, Run, ok, crash, is_agent}
use ftb.Manager.Propagation.{send_msg, reg_msg, propagate_to, reg_propagation}
use ftb.Manager.Lifecycle.{send_masks}
use ftb.Manager.Clients.{client_register, join_client, welcome}
use ftb.Manager.Subscriptions.{put_masks, enter_catch_map, subscribe, register_subscription}
use ftb.Manager.Coherence.{IsSound}
use ftb.Manager.Departure.{client_register-IsSound}
use ftb.Manager.Subscribing.{register_subscription-IsSound}
use ftb.Agent.Loop.{empty-IsCoherent}

abbrev pub here : LocationId
here = record { hostname = codes "here"; pid_starttime = codes "t1"; pid = 11 }

abbrev pub there : LocationId
there = record { hostname = codes "there"; pid_starttime = codes "t2"; pid = 12 }

abbrev pub client : LocationId → FtbId
client l = record {
  location_id = l;
  client_id = record {
    region = codes "FTB";
    comp_cat = codes "MPI";
    comp = codes "MPICH";
    client_name = codes "a";
    ext = 0;
  };
}

abbrev pub agent : LocationId → FtbId
agent l = record {
  location_id = l;
  client_id = record {
    region = [];
    comp_cat = comp_cat_backplane;
    comp = comp_manager;
    client_name = [];
    ext = 0;
  };
}

-- A mask for events of this name.
abbrev pub mask : Str → Event
mask name = record {
  region = codes "ALL";
  comp_cat = codes "ALL";
  comp = codes "ALL";
  event_name = name;
  severity = codes "ALL";
  client_jobid = codes "ALL";
  client_name = codes "ALL";
  hostname = codes "ALL";
  seqnum = 0;
  event_type = 1;
  event_payload = [];
}

abbrev pub boom : Event
boom = mask (codes "BOOM")

abbrev pub fail : Event
fail = mask (codes "FAIL")

abbrev pub notice_of : Event → FtbId → Msg
notice_of event dst = record { msg_type = notify; src = client here; dst = dst; event = event }

-- A network that serves every message, and gives the root no parent.
abbrev pub calm : Env
calm = record {
  send_result = λ log m. success;
  parent_found = λ log m l. record { hostname = []; pid_starttime = []; pid = 0 };
  my_location = here;
  garbage = notice_of boom (client here);
  freed = λ m. m;
}

-- A network that loses every message, on a machine where a freed mask reads as `fail`.
abbrev pub broken : Env
broken = record {
  send_result = λ log m. err_network_general;
  parent_found = λ log m l. record { hostname = []; pid_starttime = []; pid = 0 };
  my_location = here;
  garbage = notice_of boom (client here);
  freed = λ m. fail;
}

-- An agent with these tables.
abbrev pub root : List Comp → List CatchEntry → Manager
root peers masks = record {
  parent = record { hostname = []; pid_starttime = []; pid = 0 };
  self = agent here;
  err_handling = 2;
  leaf = 0;
  waiting = 0;
  peers = peers;
  catch_event_map = masks;
  initialized = true;
  log = [];
}

-- Its peer is a client at `there` with these masks.
abbrev pub one : List Event → Comp
one masks = record { id = client there; catch_event_set = masks }

abbrev pub one_peer : Manager
one_peer = root (one [] ∷ []) []

abbrev pub one_mask : Manager
one_mask = root (one (boom ∷ []) ∷ []) (record { mask = boom; comps = client there ∷ [] } ∷ [])

pub one_peer-IsSound : IsSound one_peer
unfolding client_register join_client welcome is_agent Map.insert Map.find_key strcasecmp to_lower
one_peer-IsSound = client_register-IsSound calm (client there) (root [] []) empty-IsCoherent

pub one_mask-IsSound : IsSound one_mask
unfolding register_subscription subscribe enter_catch_map reg_propagation propagate_to is_agent
    Map.insert Map.find_key Map.update is_equal_ftb_id is_equal_location_id strcasecmp strncasecmp
    to_lower
one_mask-IsSound =
    register_subscription-IsSound calm (client there) boom one_peer (λ c found. ground arith)
      one_peer-IsSound

-- Two clients, each with a mask of its own.
abbrev pub two_masks : Manager
two_masks = root (one (boom ∷ []) ∷ record { id = client here; catch_event_set = fail ∷ [] } ∷ []) (
    record { mask = boom; comps = client there ∷ [] }
    ∷ record { mask = fail; comps = client here ∷ [] }
    ∷ [])

abbrev two_peers : Manager
two_peers =
    root (one (boom ∷ []) ∷ record { id = client here; catch_event_set = [] } ∷ [])
      (record { mask = boom; comps = client there ∷ [] } ∷ [])

two_peers-IsSound : IsSound two_peers
unfolding client_register join_client welcome is_agent is_equal_ftb_id is_equal_location_id
    Map.insert Map.find_key strcasecmp strncasecmp to_lower
two_peers-IsSound = client_register-IsSound calm (client here) one_mask one_mask-IsSound

pub two_masks-IsSound : IsSound two_masks
unfolding register_subscription subscribe enter_catch_map reg_propagation propagate_to is_agent
    Map.insert Map.find_key Map.update is_equal_event_mask is_equal_ftb_id is_equal_location_id
    strcasecmp strncasecmp to_lower
two_masks-IsSound =
    register_subscription-IsSound calm (client here) fail two_peers (λ c found. ground arith)
      two_peers-IsSound
