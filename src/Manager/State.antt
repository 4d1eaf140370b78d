-- ===== src/Manager/State.antt =====
-- The state of src/manager_lib/ftb_manager_lib.c, what it sees of the network and of the machine,
-- and its lookups. Locks are left out: each operation runs under the manager's lock.
use ftb.Prelude.{ℕ, Bool, true, false, ◌&&◌, List, [], ◌∷◌, Option, none, some, ◌==◌, if◌then◌else◌}
use ftb.Text.{strcasecmp}
pub use ftb.Defs.{Run, ok, crash}
use ftb.Defs.{Code, LocationId, FtbId, Event, Msg, comp_cat_backplane, comp_manager}
use ftb.Match.{is_equal_location_id, is_equal_ftb_id, is_equal_event_mask}
use ftb.Map

-- FTBMI_comp_info_t. The set of masks keeps each mask as key and as data.
pub record Comp : Type 0 where
  pub id : FtbId
  pub catch_event_set : List Event

-- A node of the catch map: the mask, and the map of the components that subscribed to it, each
-- node of which has the component's id as its key and points to the component.
pub record CatchEntry : Type 0 where
  pub mask : Event
  pub comps : List FtbId

-- The calls that the manager makes of the network, with their arguments.
pub data Action : Type 0 where
  net_init : LocationId → Action
  connect : Msg → Action
  send : Msg → Action
  disconnect_peer : LocationId → Action
  net_finalize net_abort : Action

-- FTBMI_info and FTBMI_initialized, with the network calls made so far, the newest first. The
-- maps of a leaf are null pointers, and stand here as empty.
pub record Manager : Type 0 where
  pub parent : LocationId
  pub self : FtbId
  pub err_handling : ℕ
  pub leaf : ℕ
  pub waiting : ℕ
  pub peers : List Comp
  pub catch_event_map : List CatchEntry
  pub initialized : Bool
  pub log : List Action

-- What the manager does not decide: how the network answers, given all calls before, the process's
-- own location, the bytes of a local variable that is not initialised, and what a mask reads as
-- once its memory is freed.
pub record Env : Type 0 where
  pub send_result : List Action → Msg → Code
  pub parent_found : List Action → Msg → LocationId → LocationId
  pub my_location : LocationId
  pub garbage : Msg
  pub freed : Event → Event

abbrev pub err_handle_none : ℕ
err_handle_none = 0

abbrev pub err_handle_recover : ℕ
err_handle_recover = 2

abbrev pub comp_id : Comp → FtbId
comp_id c = c.id

abbrev pub entry_mask : CatchEntry → Event
entry_mask e = e.mask

abbrev pub self_id : FtbId → FtbId
self_id id = id

abbrev pub self_mask : Event → Event
self_mask m = m

-- The maps of the manager, each with its comparison.
abbrev pub find_comp : FtbId → List Comp → Option Comp
find_comp = Map.find_key comp_id is_equal_ftb_id

abbrev pub find_entry : Event → List CatchEntry → Option CatchEntry
find_entry = Map.find_key entry_mask is_equal_event_mask

abbrev pub has_id : FtbId → List FtbId → Bool
has_id = Map.has self_id is_equal_ftb_id

abbrev pub has_mask : Event → List Event → Bool
has_mask = Map.has self_mask is_equal_event_mask

abbrev pub lookup_component : FtbId → Manager → Option Comp
lookup_component id s = find_comp id s.peers

-- Another agent, by its registered names.
unfoldable pub is_agent : FtbId → Bool
is_agent id =
    strcasecmp id.client_id.comp_cat comp_cat_backplane
    && strcasecmp id.client_id.comp comp_manager
    && id.client_id.ext == 0

-- The outcome of the search by location: the component, and whether the lock is still held.
pub record Located : Type 0 where
  pub comp : Option Comp
  pub locked : Bool

-- The loop: `last` is the component that the variable holds.
unfoldable pub locate : LocationId → Option Comp → List Comp → Located
locate location last [] = record { comp = last; locked = false }
locate location last (c ∷ cs) =
    if is_equal_location_id location c.id.location_id
    then record { comp = some c; locked = true }
    else locate location (some c) cs

unfoldable pub lookup_component_by_location : LocationId → Manager → Located
unfolding locate
lookup_component_by_location location s = locate location none s.peers
