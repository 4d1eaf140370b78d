-- ===== src/Client/Subscribing.antt =====
-- FTBC_Subscribe_with_polling, FTBC_Subscribe_with_callback and FTBC_Unsubscribe of
-- src/client_lib/ftb_client_lib.c.
use ftb.Prelude.{ℕ, Bool, not, [], ◌∷◌, Option, none, some, ◌==◌, if◌then◌else◌}
use ftb.Text.{Str}
use ftb.Defs.{
  Code, err_general, err_null_pointer, err_invalid_handle, err_not_supported, err_subscription_str,
  is_success, ClientHandle, FtbId, Event, reg_subscription, subscription_cancel, Run, ok, crash,
  ◌>>=◌,
}
use ftb.Match.{is_equal_event}
use ftb.Map
use ftb.Manager.State.{Env}
use ftb.Client.Polling.{is_polling}
use ftb.Client.Filter.{parse_subscription_string}
use ftb.Client.Library.{
  CallbackEntry, Client, Library, Feed, is_notified, lookup_client_info, change_client, to_parent,
  send_up, check_progress,
}

-- FTB_subscribe_handle_t
pub record SubscribeHandle : Type 0 where
  pub client_handle : ClientHandle
  pub subscription_event : Event
  pub subscription_type : ℕ
  pub valid : ℕ

abbrev pub itself : Event → Event
itself mask = mask

abbrev pub callback_mask : CallbackEntry → Event
callback_mask e = e.mask

-- What FTBU_map_insert returns is not looked at.
unfoldable pub add_to_polling_map : Event → Client → Client
add_to_polling_map event c = record c {
  polling_map = (Map.insert itself is_equal_event event c.polling_map).1;
}

unfoldable pub add_to_callback_map : CallbackEntry → Client → Client
add_to_callback_map entry c = record c {
  callback_map = (Map.insert callback_mask is_equal_event entry c.callback_map).1;
}

-- Both maps lose the mask, whichever way it was subscribed to.
unfoldable pub remove_from_subscription_map : Event → Client → Client
remove_from_subscription_map event c = record c {
  polling_map = (Map.remove_key itself is_equal_event event c.polling_map).1;
  callback_map = (Map.remove_key callback_mask is_equal_event event c.callback_map).1;
}

-- The mask that a subscription string stands for; the memory that it is written to is not initialised.
unfoldable pub parse_mask : Option Str → Event → Run (Code × Event)
parse_mask none event = ok (err_subscription_str, event)
parse_mask (some subscription_str) event =
    parse_subscription_string subscription_str event >>= λ r. ok (r.0, r.1.event)

-- The code, the handle that was written, and the library after the call.
abbrev pub Subscription : Type 0
Subscription = Code × Option SubscribeHandle × Library

module _ (env : Env) where
  -- The part of the two functions that follows FTBCI_parse_subscription_string.
  unfoldable pub enter_subscription :
      ℕ
      → (Event → Client → Client)
      → ClientHandle
      → FtbId
      → Event
      → Feed
      → Library
      → Run Subscription
  enter_subscription subscription_type add handle id event feed lib =
      check_progress env feed lib >>= λ p.
      let entered = change_client handle (add event) p.1 in
      send_up env
        (to_parent env entered.manager
          (record env.garbage { event = event; src = id; msg_type = reg_subscription }))
        entered
      >>= λ r. ok (
        r.0,
        some (record {
          client_handle = handle;
          subscription_event = event;
          subscription_type = subscription_type;
          valid = 1;
        }),
        r.1,
      )

  -- What the two functions share: `bit` is the subscription type that the client must have.
  unfoldable pub subscribe :
      ℕ
      → (Client → Bool)
      → (Event → Client → Client)
      → Bool
      → ClientHandle
      → Option Str
      → Feed
      → Library
      → Run Subscription
  unfolding parse_mask enter_subscription
  subscribe subscription_type supports add given handle subscription_str feed lib =
      if not given
      then ok (err_null_pointer, none, lib)
      else if not (handle.valid == 1)
      then ok (err_invalid_handle, none, lib)
      else lookup_client_info handle lib (λ ret. (ret, none, lib))
          (λ c.
            if not (supports c)
            then ok (err_not_supported, none, lib)
            else parse_mask subscription_str env.garbage.event >>= λ q.
                if is_success q.0
                then enter_subscription subscription_type add handle c.id q.1 feed lib
                else ok (q.0, none, lib))

  -- `given` tells whether the pointer to the handle is one.
  unfoldable pub subscribe_with_polling :
      Bool → ClientHandle → Option Str → Feed → Library → Run Subscription
  unfolding subscribe
  subscribe_with_polling = subscribe 1 (λ c. is_polling c.info) add_to_polling_map

  unfoldable pub subscribe_with_callback :
      ℕ → ℕ → Bool → ClientHandle → Option Str → Feed → Library → Run Subscription
  unfolding subscribe
  subscribe_with_callback callback arg =
      subscribe 2 (λ c. is_notified c.info)
        (λ event. add_to_callback_map (record { mask = event; callback = callback; arg = arg }))

  -- FTBC_Unsubscribe of a client that was found.
  unfoldable pub cancel : SubscribeHandle → Feed → Library → Client → Run Subscription
  cancel h feed lib c =
      if h.valid == 0
      then ok (err_invalid_handle, some h, lib)
      else let closed : SubscribeHandle = record h { valid = 0 } in
        send_up env
          (to_parent env lib.manager (record env.garbage {
            event = h.subscription_event;
            src = c.id;
            msg_type = subscription_cancel;
          }))
          lib
        >>= λ r.
            if is_success r.0
            then (check_progress env feed (
                  change_client h.client_handle (remove_from_subscription_map h.subscription_event)
                    r.1)
                >>= λ q. ok (r.0, some closed, q.1))
            else ok (r.0, some closed, r.1)

  -- The handle is looked up before it is compared with the null pointer, so that the first client's
  -- handle is compared with what it points to. The code, the handle and the library after the call.
  unfoldable pub unsubscribe : Option SubscribeHandle → Feed → Library → Run Subscription
  unfolding cancel
  unsubscribe none feed lib = elim lib.clients [
    | none ↦ ok (err_general, none, lib)
    | some [] ↦ ok (err_invalid_handle, none, lib)
    | some (_ ∷ _) ↦ crash
  ]
  unsubscribe (some h) feed lib =
      lookup_client_info h.client_handle lib (λ ret. (ret, some h, lib)) (cancel h feed lib)
