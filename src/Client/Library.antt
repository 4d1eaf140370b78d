-- ===== src/Client/Library.antt =====
-- The state of src/client_lib/ftb_client_lib.c, and how it takes in the messages of the network:
-- FTBCI_LOOKUP_CLIENT_INFO, FTBCI_util_handle_FTBM_msg, FTBCI_util_reconnect, FTBCI_Check_progress and
-- the two threads. A map that is a null pointer in a client stands here as empty; each walk over it is
-- under a test for the null pointer, or under the client's subscription type.
use ftb.Prelude.{
  ℕ, ◌/◌, ◌%◌, Bool, true, false, ◌&&◌, List, [], ◌∷◌, ◌++◌, Option, none, some, ◌==◌, ltb,
  if◌then◌else◌,
}
use ftb.Text.{Str}
use ftb.Defs.{
  Code, success, err_general, err_invalid_handle, err_network_general, is_success, ClientId,
  ClientHandle, FtbId, Event, notify, client_reg, reg_subscription, Msg, Run, ok, crash, ◌>>=◌,
}
use ftb.Match.{match_mask, is_equal_clienthandle}
use ftb.Map
use ftb.Manager.State.{Manager, Env}
use ftb.Manager.Lifecycle.{get_parent_location_id}
use ftb.Manager.Clients
use ftb.Client.Declared.{Declared}
use ftb.Client.Polling.{EventInst, ClientInfo, push_to_comp_polling_list}

-- FTBCI_callback_entry_t: the function and its argument by their addresses.
pub record CallbackEntry : Type 0 where
  pub mask : Event
  pub callback : ℕ
  pub arg : ℕ

-- FTBCI_client_info_t; `freed` tells that the memory was freed while a node still points to it.
pub record Client : Type 0 where
  pub client_handle : ClientHandle
  pub id : FtbId
  pub jobid : Str
  pub info : ClientInfo
  pub callback_event_queue : List EventInst
  pub polling_map : List Event
  pub callback_map : List CallbackEntry
  pub declared : Declared
  pub seqnum : ℕ
  pub freed : Bool

-- FTBCI_client_info_map (`none` is the null pointer), num_components and enable_callback, with the
-- state of the manager library below. `stray_threads` counts the callback threads that run on the
-- memory of a client after it was freed.
pub record Library : Type 0 where
  pub clients : Option (List Client)
  pub num_components : ℕ
  pub enable_callback : ℕ
  pub manager : Manager
  pub stray_threads : ℕ

-- `subscription_type & FTB_SUBSCRIPTION_NOTIFY`
abbrev pub is_notified : ClientInfo → Bool
is_notified c = c.subscription_type / 2 % 2 == 1

abbrev pub handle_of : Client → ClientHandle
handle_of c = c.client_handle

-- `FTBU_map_find_key` over FTBCI_client_info_map: the key of each node is read from its client.
unfoldable pub find_client : ClientHandle → List Client → Run (Option Client)
find_client handle [] = ok none
find_client handle (c ∷ cs) =
    let rest = find_client handle cs in
    if c.freed
    then crash
    else if is_equal_clienthandle c.client_handle handle
    then ok (some c)
    else rest

-- FTBCI_LOOKUP_CLIENT_INFO: a code that the caller returns, or the client that it goes on with.
unfoldable pub lookup_client_info {ℓ} :
    {A : Type ℓ} → ClientHandle → Library → (Code → A) → (Client → Run A) → Run A
unfolding find_client
lookup_client_info handle lib refuse next = elim lib.clients [
  | none ↦ ok (refuse err_general)
  | some cs ↦ find_client handle cs >>= λ o. elim o [
    | none ↦ ok (refuse err_invalid_handle)
    | some c ↦ next c
  ]
]

-- A write through the pointer to the client with this handle.
unfoldable pub change_client : ClientHandle → (Client → Client) → Library → Library
change_client handle f lib = elim lib.clients [
  | none ↦ lib
  | some cs ↦ record lib { clients = some (Map.update handle_of is_equal_clienthandle handle f cs) }
]

unfoldable pub convert_clientid_to_clienthandle : ClientId → ClientHandle
convert_clientid_to_clienthandle client_id = record { valid = 1; client_id = client_id }

-- The loop over the callback map: whether a mask of it matches.
unfoldable pub matches_callback : Event → List CallbackEntry → Bool
matches_callback event [] = false
matches_callback event (e ∷ es) =
    if match_mask event e.mask then true else matches_callback event es

-- An event for a client: to its callback thread if a mask of the callback map matches, and to the
-- polling queue otherwise.
unfoldable pub receive : EventInst → Client → Run Client
unfolding matches_callback
receive entry c =
    if is_notified c.info && matches_callback entry.event_inst c.callback_map
    then ok (record c { callback_event_queue = c.callback_event_queue ++ entry ∷ [] })
    else push_to_comp_polling_list entry c.info >>= λ info. ok (record c { info = info })

unfoldable pub handle_notify : Msg → Library → Run Library
unfolding find_client receive change_client convert_clientid_to_clienthandle
handle_notify msg lib = elim lib.clients [
  | none ↦ crash
  | some cs ↦ find_client (convert_clientid_to_clienthandle msg.dst.client_id) cs >>= λ o. elim o [
    | none ↦ ok lib
    | some c ↦ receive (record { event_inst = msg.event; src = msg.src }) c >>= λ left.
        ok (change_client c.client_handle (λ _. left) lib)
  ]
]

unfoldable pub handle_ftbm_msg : Msg → Library → Run Library
unfolding handle_notify
handle_ftbm_msg msg lib = elim msg.msg_type [ notify ↦ handle_notify msg lib | _ ↦ ok lib ]

-- What `FTBN_Recv_msg` gives one call of FTBCI_Check_progress: the messages that it returns with
-- success, and the code of the call after them.
pub record Feed : Type 0 where
  pub msgs : List Msg
  pub last : Code

module _ (env : Env) where
  -- `FTBM_Get_parent_location_id(&msg.dst.location_id)`
  abbrev pub to_parent : Manager → Msg → Msg
  to_parent s msg = elim (get_parent_location_id s).1 [
    | none ↦ msg
    | some l ↦ record msg { dst = record (msg.dst) { location_id = l } }
  ]

  -- A call of FTBM_Send.
  unfoldable pub send_up : Msg → Library → Run (Code × Library)
  send_up msg lib = Clients.send env msg lib.manager >>= λ r. ok (r.0, record lib { manager = r.1 })

  -- A loop of FTBCI_util_reconnect over the masks of a map.
  unfoldable pub send_subscriptions : List Event → Msg → Library → Run (Msg × Library)
  unfolding send_up
  send_subscriptions [] msg lib = ok (msg, lib)
  send_subscriptions (mask ∷ masks) msg lib =
      let sent : Msg = record msg { event = mask } in
      send_up sent lib >>= λ r. send_subscriptions masks sent r.1

  abbrev pub callback_masks : List CallbackEntry → List Event
  callback_masks [] = []
  callback_masks (e ∷ es) = e.mask ∷ callback_masks es

  -- The loop of FTBCI_util_reconnect over the clients; `msg` is its local variable.
  unfoldable pub register_again : List Client → Msg → Library → Run Library
  unfolding send_subscriptions
  register_again [] msg lib = ok lib
  register_again (c ∷ cs) msg lib =
      let hello : Msg = to_parent lib.manager (record msg { src = c.id; msg_type = client_reg }) in
      if c.freed
      then crash
      else send_up hello lib >>= λ r.
          send_subscriptions c.polling_map (record hello { msg_type = reg_subscription }) r.1
          >>= λ q. send_subscriptions (callback_masks c.callback_map) q.0 q.1 >>= λ p.
              register_again cs p.0 p.1

  unfoldable pub reconnect : Library → Run Library
  unfolding register_again
  reconnect lib = elim lib.clients [ none ↦ crash | some cs ↦ register_again cs env.garbage lib ]

  -- The loop of FTBCI_Check_progress.
  unfoldable pub take_messages : List Msg → Code → Library → Run (Code × Library)
  unfolding handle_ftbm_msg
  take_messages [] last lib =
      let r = Clients.get env last lib.manager in ok (r.0, record lib { manager = r.1 })
  take_messages (m ∷ ms) last lib =
      let r = Clients.get env success lib.manager in
      if is_success r.0
      then (handle_ftbm_msg m (record lib { manager = r.1 }) >>= λ left. take_messages ms last left)
      else ok (r.0, record lib { manager = r.1 })

  unfoldable pub after_loss : Code → Library → Run Library
  unfolding reconnect
  after_loss err_network_general lib = reconnect lib
  after_loss _ lib = ok lib

  unfoldable pub check_progress : Feed → Library → Run (Code × Library)
  unfolding take_messages after_loss
  check_progress feed lib =
      if ltb 0 lib.enable_callback
      then ok (success, lib)
      else take_messages feed.msgs feed.last lib >>= λ r.
          after_loss r.0 r.1 >>= λ left. ok (r.0, left)
