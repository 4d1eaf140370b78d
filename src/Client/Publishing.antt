-- ===== src/Client/Publishing.antt =====
-- FTBC_Publish, FTBC_Poll_event, FTBC_Declare_publishable_events, FTBC_Get_event_handle and
-- FTBC_Compare_event_handles of src/client_lib/ftb_client_lib.c, and a round of the thread that makes a
-- client's callbacks.
use ftb.Prelude.{
  ℕ, ◌+◌, ◌%◌, ◌^◌, Bool, not, ◌&&◌, ◌||◌, List, [], ◌∷◌, ◌++◌, Option, none, some, ◌==◌, leb,
  if◌then◌else◌, length,
}
use ftb.Text.{Str, strcasecmp}
use ftb.Defs.{
  Code, success, failure, err_null_pointer, err_invalid_handle, err_invalid_event_name,
  err_invalid_event_type, err_not_supported, got_no_event, is_success, LocationId, ClientId,
  ClientHandle, Event, notify, Msg, Run, ok, crash, ◌>>=◌, max_event_name,
}
use ftb.Match.{match_mask}
use ftb.Map
use ftb.Manager.State.{Env}
use ftb.Client.Namespace.{split_namespace, dot}
use ftb.Client.Filter.{or_empty}
use ftb.Client.Declared.{EventInfo, event_index, store_declared_events}
use ftb.Client.Polling.{EventInst, is_polling, push_to_comp_polling_list, poll_queue}
use ftb.Client.Subscribing.{SubscribeHandle}
use ftb.Client.Library.{
  CallbackEntry, Client, Library, Feed, lookup_client_info, change_client, to_parent, send_up,
  check_progress,
}

-- FTB_event_properties_t
pub record EventProperties : Type 0 where
  pub event_type : ℕ
  pub event_payload : List ℕ

-- FTB_event_handle_t
pub record EventHandle : Type 0 where
  pub event_name : Str
  pub severity : Str
  pub client_id : ClientId
  pub seqnum : ℕ
  pub location_id : LocationId

-- FTB_receive_event_t
pub record ReceiveEvent : Type 0 where
  pub event_space : Str
  pub event_name : Str
  pub severity : Str
  pub client_jobid : Str
  pub client_name : Str
  pub client_extension : ℕ
  pub seqnum : ℕ
  pub incoming_src : LocationId
  pub event_type : ℕ
  pub event_payload : List ℕ

-- What a callback and a poll are given of an entry of a queue.
unfoldable pub to_receive_event : EventInst → ReceiveEvent
to_receive_event entry =
    let e = entry.event_inst in
    record {
      event_space = e.region ++ (dot ∷ (e.comp_cat ++ (dot ∷ e.comp)));
      event_name = e.event_name;
      severity = e.severity;
      client_jobid = e.client_jobid;
      client_name = e.client_name;
      client_extension = entry.src.client_id.ext;
      seqnum = e.seqnum;
      incoming_src = entry.src.location_id;
      event_type = e.event_type;
      event_payload = e.event_payload;
    }

-- The first entry of the callback map whose mask matches.
unfoldable pub find_callback : Event → List CallbackEntry → Option CallbackEntry
find_callback event [] = none
find_callback event (e ∷ es) = if match_mask event e.mask then some e else find_callback event es

-- A call of a callback: the entry, and the event that its function is given.
abbrev pub Callback : Type 0
Callback = CallbackEntry × ReceiveEvent

-- How a round of FTBCI_callback_component ends, with the client after it: it waits for an event; it has
-- made a call; the node that it has just put at the end of the polling queue, and the node's entry,
-- are freed memory; its node and its entry are freed a second time; or the head of the polling queue
-- is freed.
pub data CallbackRound : Type 0 where
  waits : Client → CallbackRound
  made : Callback → Client → CallbackRound
  left_freed : Client → CallbackRound
  freed_twice head_freed : CallbackRound

-- The event moves to the polling queue, and then its entry and its node are freed. For a client that
-- does not poll, FTBCI_util_push_to_comp_polling_list has freed them already.
unfoldable pub move_to_polling : EventInst → Client → CallbackRound
move_to_polling entry c = elim (push_to_comp_polling_list entry c.info) [
  | crash ↦ head_freed
  | ok info ↦ if is_polling c.info then left_freed (record c { info = info }) else freed_twice
]

-- A round of FTBCI_callback_component: the oldest event of the callback queue goes to its callback, or
-- to the polling queue if no mask matches it any more.
unfoldable pub callback_round : Client → CallbackRound
unfolding find_callback to_receive_event move_to_polling
callback_round c = elim c.callback_event_queue [
  | [] ↦ waits c
  | entry ∷ rest ↦
      let taken : Client = record c { callback_event_queue = rest } in
      elim (find_callback entry.event_inst c.callback_map) [
        | none ↦ move_to_polling entry taken
        | some e ↦ made (e, to_receive_event entry) taken
      ]
]

abbrev pub handle_of_event : Msg → EventHandle
handle_of_event msg = record {
  event_name = msg.event.event_name;
  severity = msg.event.severity;
  client_id = record {
    region = msg.event.region;
    comp_cat = msg.event.comp_cat;
    comp = msg.event.comp;
    client_name = msg.event.client_name;
    ext = msg.src.client_id.ext;
  };
  seqnum = msg.event.seqnum;
  location_id = msg.src.location_id;
}

abbrev pub same_client_id : ClientId → ClientId → Bool
same_client_id a b =
    strcasecmp a.region b.region
    && strcasecmp a.comp_cat b.comp_cat
    && strcasecmp a.comp b.comp
    && strcasecmp a.client_name b.client_name
    && a.ext == b.ext

unfoldable pub same_event_handle : EventHandle → EventHandle → Bool
same_event_handle a b =
    same_client_id a.client_id b.client_id
    && strcasecmp a.location_id.hostname b.location_id.hostname
    && a.location_id.pid == b.location_id.pid
    && strcasecmp a.location_id.pid_starttime b.location_id.pid_starttime
    && strcasecmp a.event_name b.event_name
    && strcasecmp a.severity b.severity
    && a.seqnum == b.seqnum

-- FTBC_Declare_publishable_events with a table, and no schema file.
unfoldable pub declare_table : ClientHandle → List EventInfo → Library → Run (Code × Library)
declare_table handle einfo lib =
    if not (handle.valid == 1)
    then ok (err_invalid_handle, lib)
    else lookup_client_info handle lib (λ ret. (ret, lib))
        (λ c.
          let r = store_declared_events einfo c.declared in
          ok (r.0, change_client handle (λ x. record x { declared = r.1 }) lib))

module _ (env : Env) where
  -- With no properties the event is of type 1, and its payload is memory that was never written.
  abbrev pub properties_of : Option EventProperties → EventProperties
  properties_of none = record { event_type = 1; event_payload = env.garbage.event.event_payload }
  properties_of (some p) = p

  -- The message of an event: `c` is the client after its sequence number has grown.
  unfoldable pub event_msg : ClientHandle → Str → Str → EventProperties → Client → Msg
  event_msg handle event_name severity p c = record env.garbage {
    msg_type = notify;
    src = c.id;
    event = record {
      region = handle.client_id.region;
      comp_cat = handle.client_id.comp_cat;
      comp = handle.client_id.comp;
      event_name = event_name;
      severity = severity;
      client_jobid = c.jobid;
      client_name = c.id.client_id.client_name;
      hostname = c.id.location_id.hostname;
      seqnum = c.seqnum;
      event_type = p.event_type;
      event_payload = p.event_payload;
    };
  }

  abbrev pub count_up : Client → Client
  count_up c = record c { seqnum = (c.seqnum + 1) % 2 ^ 16 }

  -- The code, the handle of the event that was written, and the library after the call.
  abbrev pub Publication : Type 0
  Publication = Code × Option EventHandle × Library

  -- The part of FTBC_Publish that follows the lookup of the declared event.
  unfoldable pub publish_declared :
      ClientHandle → Str → Str → Option EventProperties → Client → Library → Run Publication
  unfolding event_msg
  publish_declared handle event_name severity properties c lib =
      let p = properties_of properties in
      if not (p.event_type == 1) && not (p.event_type == 2)
      then ok (err_invalid_event_type, none, lib)
      else let counted = change_client handle count_up lib in
        let msg = to_parent env lib.manager (event_msg handle event_name severity p (count_up c)) in
        send_up env msg counted >>= λ r. ok (r.0, some (handle_of_event msg), r.1)

  -- `given` tells whether the pointer to the handle of the event is one.
  unfoldable pub publish :
      ClientHandle → Str → Option EventProperties → Bool → Feed → Library → Run Publication
  unfolding publish_declared
  publish handle event_name properties given feed lib =
      if not (handle.valid == 1)
      then ok (err_invalid_handle, none, lib)
      else if not given
      then ok (err_null_pointer, none, lib)
      else if length event_name == 0 || leb max_event_name (length event_name)
      then ok (err_invalid_event_name, none, lib)
      else check_progress env feed lib >>= λ p.
          lookup_client_info handle p.1 (λ ret. (ret, none, p.1))
            (λ c.
              elim (Map.find_key event_index strcasecmp event_name c.declared.declared_events_map) [
                | none ↦ ok (err_invalid_event_name, none, p.1)
                | some e ↦ publish_declared handle event_name e.severity properties c p.1
              ])

  -- The code, the event that was written, and the library after the call.
  abbrev pub Poll : Type 0
  Poll = Code × Option ReceiveEvent × Library

  -- A round of the loop of FTBC_Poll_event: the event, if one was found. The client is the one of
  -- before; it is read again, since the messages may have changed it.
  unfoldable pub poll_round : SubscribeHandle → Feed → Library → Run (Option ReceiveEvent × Library)
  unfolding to_receive_event
  poll_round h feed lib = check_progress env feed lib >>= λ p.
      lookup_client_info h.client_handle p.1 (λ ret. (none, p.1))
        (λ c.
          let q = poll_queue h.subscription_event c.info in
          elim q.0 [
            | none ↦ ok (none, p.1)
            | some entry ↦ ok (
              some (to_receive_event entry),
              change_client h.client_handle (λ x. record x { info = q.1 }) p.1,
            )
          ])

  -- `given` tells whether the pointer to the event is one; each round has its own feed.
  unfoldable pub poll_event : SubscribeHandle → Bool → Feed → Feed → Library → Run Poll
  unfolding poll_round
  poll_event h given first second lib =
      if not given
      then ok (err_null_pointer, none, lib)
      else if h.valid == 0
      then ok (err_invalid_handle, none, lib)
      else lookup_client_info h.client_handle lib (λ ret. (ret, none, lib))
          (λ c.
            if not (is_polling c.info)
            then ok (err_not_supported, none, lib)
            else poll_round h first lib >>= λ p. elim p.0 [
              | some e ↦ ok (success, some e, p.1)
              | none ↦ poll_round h second p.1 >>= λ q. elim q.0 [
                | some e ↦ ok (success, some e, q.1)
                | none ↦ ok (got_no_event, none, q.1)
              ]
            ])

  -- The handle is `none` where the event space is not well formed.
  unfoldable pub get_event_handle :
      ReceiveEvent → Feed → Library → Run (Code × Option EventHandle × Library)
  get_event_handle e feed lib = split_namespace e.event_space >>= λ p.
      let handle : EventHandle = record {
        event_name = e.event_name;
        severity = e.severity;
        client_id = record {
          region = or_empty p.region_name;
          comp_cat = or_empty p.category_name;
          comp = or_empty p.component_name;
          client_name = e.client_name;
          ext = e.client_extension;
        };
        seqnum = e.seqnum;
        location_id = e.incoming_src;
      } in
      if is_success p.code
      then (check_progress env feed lib >>= λ q. ok (success, some handle, q.1))
      else ok (p.code, none, lib)

  unfoldable pub compare_event_handles :
      EventHandle → EventHandle → Feed → Library → Run (Code × Library)
  unfolding same_event_handle
  compare_event_handles a b feed lib = check_progress env feed lib >>= λ q.
      ok ((if same_event_handle a b then success else failure), q.1)
