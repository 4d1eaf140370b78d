-- ===== src/Client/Connecting.antt =====
-- FTBC_Connect and FTBC_Disconnect of src/client_lib/ftb_client_lib.c.
use ftb.Prelude.{
  ℕ, ◌+◌, ◌-◌, Bool, true, false, not, ◌&&◌, List, [], ◌∷◌, ◌++◌, Option, none, some, ◌==◌, leb,
  ltb, if◌then◌else◌, length,
}
use ftb.Text.{Str, codes, strcasecmp}
use ftb.Defs.{
  Code, success, err_null_pointer, err_subscription_style, err_invalid_value, err_invalid_handle,
  err_dup_call, is_success, ClientHandle, FtbId, client_reg, client_dereg, Run, ok, crash, ◌>>=◌,
  max_client_name, max_client_jobid,
}
use ftb.Match.{is_equal_clienthandle}
use ftb.Map
use ftb.Manager.State.{Manager, Env}
use ftb.Manager.Lifecycle
use ftb.Manager.Clients
use ftb.Client.Namespace.{Split, split_namespace}
use ftb.Client.Filter.{or_empty}
use ftb.Client.Polling.{EventInst, ClientInfo}
use ftb.Client.Library.{
  CallbackEntry, Client, Library, Feed, is_notified, matches_callback, handle_of, find_client,
  lookup_client_info, change_client, convert_clientid_to_clienthandle, to_parent, send_up,
  check_progress,
}

-- FTB_client_t; a queue length that is negative stands as 0.
pub record ClientArgs : Type 0 where
  pub event_space : Str
  pub client_name : Str
  pub client_jobid : Str
  pub client_subscription_style : Str
  pub client_polling_queue_len : ℕ

abbrev pub default_polling_q_len : ℕ
default_polling_q_len = 64

abbrev pub queue_len : ClientArgs → ℕ
queue_len cinfo =
    if ltb 0 cinfo.client_polling_queue_len
    then cinfo.client_polling_queue_len
    else default_polling_q_len

abbrev pub empty_info : ℕ → ℕ → ClientInfo
empty_info subscription_type max_polling_queue_len = record {
  subscription_type = subscription_type;
  max_polling_queue_len = max_polling_queue_len;
  event_queue_size = 0;
  event_queue = [];
}

-- What the subscription style asks for: polling is 1, a callback thread 2.
unfoldable pub style_of : ClientArgs → Option ClientInfo
style_of cinfo =
    if strcasecmp cinfo.client_subscription_style (codes "FTB_SUBSCRIPTION_POLLING")
    then some (empty_info 1 (queue_len cinfo))
    else if strcasecmp cinfo.client_subscription_style (codes "FTB_SUBSCRIPTION_NONE")
    then some (empty_info 0 0)
    else if strcasecmp cinfo.client_subscription_style (codes "FTB_SUBSCRIPTION_NOTIFY")
    then some (empty_info 2 0)
    else if strcasecmp cinfo.client_subscription_style (codes "FTB_SUBSCRIPTION_BOTH")
    then some (empty_info 3 (queue_len cinfo))
    else none

-- The code, the handle that was written, and the library after the call.
abbrev pub Connection : Type 0
Connection = Code × Option ClientHandle × Library

-- Where the callback thread of a client is when FTBCI_util_finalize_component signals: in
-- pthread_cond_wait, after which it tests `finalizing`; or past it. Then the signal is lost, and
-- `woken` tells whether a later event signals again, once the thread waits.
pub data ThreadState : Type 0 where
  in_wait : ThreadState
  at_work : (woken : Bool) → ThreadState

-- Every event of the callback queue has a callback.
unfoldable pub all_called : List CallbackEntry → List EventInst → Bool
all_called entries [] = true
all_called entries (e ∷ es) = matches_callback e.event_inst entries && all_called entries es

module _ (env : Env) where
  -- The first client starts the manager library; what FTBM_Init returns is not looked at.
  unfoldable pub open_library : Library → Library
  open_library lib =
      let opened : Library =
        if lib.num_components == 0
        then record lib { clients = some []; manager = (Lifecycle.init env 1 lib.manager).1 }
        else lib in
      record opened { num_components = lib.num_components + 1 }

  unfoldable pub client_id_of : ClientArgs → ℕ → Split → Manager → FtbId
  client_id_of cinfo extension p s = record {
    location_id = elim (Lifecycle.get_location_id s).1 [
      | none ↦ env.garbage.src.location_id
      | some l ↦ l
    ];
    client_id = record {
      region = or_empty p.region_name;
      comp_cat = or_empty p.category_name;
      comp = or_empty p.component_name;
      client_name = cinfo.client_name;
      ext = extension;
    };
  }

  unfoldable pub new_client : ClientArgs → ClientInfo → FtbId → Client
  unfolding convert_clientid_to_clienthandle
  new_client cinfo info id = record {
    client_handle = convert_clientid_to_clienthandle id.client_id;
    id = id;
    jobid = cinfo.client_jobid;
    info = info;
    callback_event_queue = [];
    polling_map = [];
    callback_map = [];
    declared = record { declared_events_map = []; total_publish_events = 0 };
    seqnum = 0;
    freed = false;
  }

  -- A client's memory is freed while its callback thread, if it has one, runs on it.
  abbrev pub leave_thread : Client → Library → Library
  leave_thread c lib =
      if is_notified c.info then record lib { stray_threads = lib.stray_threads + 1 } else lib

  -- From the registration with the agent on. The client's memory is freed if the message cannot be
  -- sent, and its node stays in the map, and its callback thread at work.
  unfoldable pub say_hello : Client → Feed → Library → Run Connection
  say_hello c feed lib =
      send_up env
        (to_parent env lib.manager (record env.garbage { src = c.id; msg_type = client_reg })) lib
      >>= λ r.
          if is_success r.0
          then (check_progress env feed r.1 >>= λ q. ok (success, some c.client_handle, q.1))
          else ok (
            r.0,
            some c.client_handle,
            change_client c.client_handle (λ x. record x { freed = true }) (leave_thread c r.1),
          )

  -- `FTBU_map_insert` into the map of the clients, and what follows. The client's memory is freed if
  -- the handle is taken, and its callback thread stays at work.
  unfoldable pub enter_client : Client → Feed → Library → Run Connection
  unfolding say_hello
  enter_client c feed lib = elim lib.clients [
    | none ↦ crash
    | some cs ↦ find_client c.client_handle cs >>= λ o. elim o [
      | some _ ↦ ok (err_dup_call, some c.client_handle, leave_thread c lib)
      | none ↦ say_hello c feed (record lib { clients = some (cs ++ c ∷ []) })
    ]
  ]

  -- From the lengths of the names on.
  unfoldable pub join : ClientArgs → ClientInfo → FtbId → Feed → Library → Run Connection
  unfolding new_client enter_client
  join cinfo info id feed lib =
      let c = new_client cinfo info id in
      if leb max_client_name (length cinfo.client_name)
      then ok (err_invalid_value, none, lib)
      else if leb max_client_jobid (length cinfo.client_jobid)
      then ok (err_invalid_value, some c.client_handle, lib)
      else enter_client c feed (
          if is_notified info
          then record lib { enable_callback = lib.enable_callback + 1 }
          else lib)

  -- `given` tells whether the pointer to the handle is one.
  unfoldable pub connect : Bool → ClientArgs → ℕ → Feed → Library → Run Connection
  unfolding style_of open_library client_id_of join
  connect given cinfo extension feed lib =
      if not given then ok (err_null_pointer, none, lib) else elim (style_of cinfo) [
        | none ↦ ok (err_subscription_style, none, lib)
        | some info ↦ split_namespace cinfo.event_space >>= λ p.
            let opened = open_library lib in
            if is_success p.code
            then join cinfo info (client_id_of cinfo extension p opened.manager) feed opened
            else ok (p.code, none, lib)
      ]

  -- FTBCI_util_finalize_component up to the end of the join: whether the callback thread ends. A thread
  -- that is past its wait gives each event that waits to its callback before it waits; a freed queue is
  -- used for an event without one.
  unfoldable pub join_callback : ThreadState → Client → Run Bool
  unfolding all_called
  join_callback thread c =
      if is_notified c.info
      then elim thread [
        | in_wait ↦ ok true
        | at_work woken ↦
            if all_called c.callback_map c.callback_event_queue then ok woken else crash
      ]
      else ok true

  -- The client is out of the map and the counts. FTBM_Client_deregister is called before; on a leaf it
  -- changes nothing.
  abbrev pub remove_client : ClientHandle → Client → Library → Library
  remove_client handle c lib = record lib {
    clients = elim lib.clients [
      | none ↦ none
      | some cs ↦ some (Map.remove_node handle_of is_equal_clienthandle handle cs)
    ];
    enable_callback = if is_notified c.info then lib.enable_callback - 1 else lib.enable_callback;
    num_components = lib.num_components - 1;
    manager = (Clients.client_deregister env c.id lib.manager).1;
  }

  -- What FTBC_Disconnect does to the library once the client's thread has ended.
  unfoldable pub close_library : ClientHandle → Client → Library → Run Library
  close_library handle c lib =
      let left = remove_client handle c lib in
      if left.num_components == 0
      then (Lifecycle.finalize env left.manager >>= λ r.
          ok (record left { clients = none; manager = r.1 }))
      else ok left

  -- FTBC_Disconnect of a client that was found; `none` is a call that does not return.
  unfoldable pub say_goodbye :
      ThreadState → ClientHandle → Feed → Library → Client → Run (Option (Code × Library))
  unfolding join_callback close_library
  say_goodbye thread handle feed lib c =
      send_up env
        (to_parent env lib.manager (record env.garbage { src = c.id; msg_type = client_dereg })) lib
      >>= λ r.
          if is_success r.0
          then (join_callback thread c >>= λ ended.
              if ended
              then (close_library handle c r.1 >>= λ left.
                  check_progress env feed left >>= λ q. ok (some (success, q.1)))
              else ok none)
          else ok (some r)

  unfoldable pub disconnect :
      ThreadState → ClientHandle → Feed → Library → Run (Option (Code × Library))
  unfolding say_goodbye
  disconnect thread handle feed lib =
      if not (handle.valid == 1)
      then ok (some (err_invalid_handle, lib))
      else lookup_client_info handle lib (λ ret. some (ret, lib))
          (say_goodbye thread handle feed lib)
