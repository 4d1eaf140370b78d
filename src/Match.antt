-- ===== src/Match.antt =====
-- src/util/ftb_util.c, the comparisons: of events with masks, of locations, ids, handles and masks.
pub mod Laws
use ftb.Prelude.{Bool, true, false, not, ◌&&◌, ◌||◌, ◌==◌, if◌then◌else◌}
use ftb.Text.{Str, codes, strcasecmp, strncasecmp}
use ftb.Defs.{Event, LocationId, FtbId, ClientHandle, max_host_addr, max_pid_time}

-- The wildcard of a mask.
abbrev pub all : Str
all = codes "ALL"

unfoldable pub match_mask : Event → Event → Bool
match_mask event mask =
    if (strcasecmp event.region mask.region || strcasecmp mask.region all)
      && (strcasecmp event.client_jobid mask.client_jobid || strcasecmp mask.client_jobid all)
      && (strcasecmp event.client_name mask.client_name || strcasecmp mask.client_name all)
      && (strcasecmp event.hostname mask.hostname || strcasecmp mask.hostname all)
    then (if not (strcasecmp mask.event_name all)
        then (if strcasecmp event.event_name mask.event_name then true else false)
        else (if (strcasecmp event.severity mask.severity || strcasecmp mask.severity all)
              && (strcasecmp event.comp_cat mask.comp_cat || strcasecmp mask.comp_cat all)
              && (strcasecmp event.comp mask.comp || strcasecmp mask.comp all)
            then true
            else false))
    else false

unfoldable pub is_equal_location_id : LocationId → LocationId → Bool
is_equal_location_id lhs rhs =
    if lhs.pid == rhs.pid
    then (if strncasecmp max_host_addr lhs.hostname rhs.hostname
          && strncasecmp max_pid_time lhs.pid_starttime rhs.pid_starttime
        then true
        else false)
    else false

unfoldable pub is_equal_clienthandle : ClientHandle → ClientHandle → Bool
is_equal_clienthandle lhs rhs =
    if strcasecmp lhs.client_id.comp_cat rhs.client_id.comp_cat
      && strcasecmp lhs.client_id.comp rhs.client_id.comp
      && strcasecmp lhs.client_id.client_name rhs.client_id.client_name
      && lhs.client_id.ext == rhs.client_id.ext
    then true
    else false

unfoldable pub is_equal_ftb_id : FtbId → FtbId → Bool
is_equal_ftb_id lhs rhs =
    if strcasecmp lhs.client_id.comp_cat rhs.client_id.comp_cat
      && strcasecmp lhs.client_id.comp rhs.client_id.comp
      && strcasecmp lhs.client_id.client_name rhs.client_id.client_name
      && lhs.client_id.ext == rhs.client_id.ext
    then is_equal_location_id lhs.location_id rhs.location_id
    else false

unfoldable pub is_equal_event : Event → Event → Bool
is_equal_event lhs rhs =
    if strcasecmp lhs.severity rhs.severity
      && strcasecmp lhs.comp_cat rhs.comp_cat
      && strcasecmp lhs.comp rhs.comp
      && strcasecmp lhs.event_name rhs.event_name
    then true
    else false

unfoldable pub is_equal_event_mask : Event → Event → Bool
is_equal_event_mask lhs rhs =
    if strcasecmp lhs.severity rhs.severity
      && strcasecmp lhs.comp_cat rhs.comp_cat
      && strcasecmp lhs.comp rhs.comp
      && strcasecmp lhs.client_name rhs.client_name
      && strcasecmp lhs.client_jobid rhs.client_jobid
      && strcasecmp lhs.hostname rhs.hostname
      && strcasecmp lhs.region rhs.region
      && strcasecmp lhs.event_name rhs.event_name
    then true
    else false
