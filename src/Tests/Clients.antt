-- ===== src/Tests/Clients.antt =====
-- The theorems on the client library at a library with one client.
use ftb.Prelude.{◌≡◌, refl, true, false, List, [], ◌∷◌, none, some, arith}
use ftb.Text.{codes, strcasecmp, to_lower}
use ftb.Match.{match_mask}
use ftb.Defs.{success, err_network_general, ok}
use ftb.Map
use ftb.Manager.State.{Manager}
use ftb.Client.Polling.{EventInst}
use ftb.Client.Library.{
  CallbackEntry, Client, Library, Feed, matches_callback, handle_ftbm_msg, reconnect, receive,
}
use ftb.Client.Connecting.{ClientArgs, in_wait, open_library, connect, disconnect}
use ftb.Client.Subscribing.{remove_from_subscription_map}
use ftb.Client.Publishing.{
  EventProperties, made, callback_round, to_receive_event, event_msg, handle_of_event,
  get_event_handle, compare_event_handles,
}
use ftb.Client.Receiving.{IsClient, IsOpen, Handled, handle_ftbm_msg-Handled}
use ftb.Client.Progress.{Lasts, itself}
use ftb.Client.Ends.{closed, Connected}
use ftb.Client.Joining.{connect-Connected}
use ftb.Client.Leaving.{Disconnected, disconnect-Disconnected}
use ftb.Client.Callbacks.{Called, Abandoned, callback_round-Called, unsubscribed_callback-Abandoned}
use ftb.Client.Session.{Call, publishing, polling, make_calls, make_calls-Lasts}
use ftb.Client.Resending.{Announced, reconnect-Announced}
use ftb.Client.Events.{get_event_handle-roundtrip}
use ftb.Tests.{here, there, client, boom, fail, notice_of, calm, broken, root}
use ftb.Tests.Library.{space, space-IsNamespace}

abbrev leaf_manager : Manager
leaf_manager = record (root [] []) { parent = there; leaf = 1 }

abbrev inst : EventInst
inst = record { event_inst = boom; src = client there }

abbrev on_boom : CallbackEntry
on_boom = record { mask = boom; callback = 8; arg = 9 }

-- A client that polls and has a callback for one mask.
abbrev member : Client
member = record {
  client_handle = record { valid = 1; client_id = (client here).client_id };
  id = client here;
  jobid = codes "job";
  info = record {
    subscription_type = 3;
    max_polling_queue_len = 1;
    event_queue_size = 0;
    event_queue = [];
  };
  callback_event_queue = [];
  polling_map = fail ∷ [];
  callback_map = on_boom ∷ [];
  declared = record {
    declared_events_map = record { event_name = codes "BOOM"; severity = codes "info" } ∷ [];
    total_publish_events = 1;
  };
  seqnum = 0;
  freed = false;
}

abbrev members : List Client
members = member ∷ []

abbrev library : Library
library = record {
  clients = some members;
  num_components = 1;
  enable_callback = 0;
  manager = leaf_manager;
  stray_threads = 0;
}

abbrev no_library : Library
no_library = record {
  clients = none;
  num_components = 0;
  enable_callback = 0;
  manager = leaf_manager;
  stray_threads = 0;
}

member-IsClient : IsClient member
member-IsClient = record {
  kept = refl;
  bounded = λ p. record { size = refl; bound = omega arith; room = omega arith };
  matched = tt;
}

library-IsOpen : IsOpen members library
unfolding Map.find_key
library-IsOpen = record {
  there = refl;
  sound = (member-IsClient, tt);
  distinct = (refl, tt);
  leaf = refl;
}

-- An event for the client, and then the loss of the agent.
abbrev feed : Feed
feed = record { msgs = notice_of boom (client here) ∷ []; last = err_network_general }

handle_ftbm_msg-Handled_example :
    Handled
      (notice_of boom (client here))
      members
      library
      (handle_ftbm_msg (notice_of boom (client here)) library)
handle_ftbm_msg-Handled_example =
    handle_ftbm_msg-Handled (notice_of boom (client here)) members library library-IsOpen

abbrev args : ClientArgs
args = record {
  event_space = space;
  client_name = codes "a";
  client_jobid = codes "job";
  client_subscription_style = codes "FTB_SUBSCRIPTION_BOTH";
  client_polling_queue_len = 4;
}

connect-Connected_example :
    Connected broken
      (open_library broken no_library).manager
      true
      args
      0
      []
      no_library
      (connect broken true args 0 feed no_library)
connect-Connected_example =
    connect-Connected broken true args 0 feed [] no_library (closed refl refl)

disconnect-Disconnected_example :
    Disconnected calm in_wait member.client_handle members library
      (disconnect calm in_wait member.client_handle feed library)
disconnect-Disconnected_example =
    disconnect-Disconnected calm in_wait member.client_handle feed members library library-IsOpen
      refl

-- The event waits for the callback thread.
abbrev waiting : Client
waiting = record member { callback_event_queue = inst ∷ [] }

callback_round-Called_example : Called waiting (callback_round waiting)
unfolding matches_callback match_mask strcasecmp to_lower
callback_round-Called_example = callback_round-Called waiting (record {
  kept = refl;
  bounded = λ p. record { size = refl; bound = omega arith; room = omega arith };
  matched = (refl, tt);
})

unsubscribed_callback-Abandoned_example :
    (left : Client) × (receive inst member ≡ ok left)
    × (callback_round left
        ≡ made (on_boom, to_receive_event inst) (record member { callback_event_queue = [] }))
    × Abandoned inst
        (remove_from_subscription_map boom left)
        (callback_round (remove_from_subscription_map boom left))
unfolding match_mask strcasecmp to_lower
unsubscribed_callback-Abandoned_example =
    unsubscribed_callback-Abandoned member inst on_boom member-IsClient refl refl refl refl

-- It polls, and publishes its event.
abbrev session : List Call
session =
    polling
      (record {
        client_handle = member.client_handle;
        subscription_event = fail;
        subscription_type = 1;
        valid = 1;
      })
      true feed feed
    ∷ publishing member.client_handle (codes "BOOM") none true feed
    ∷ []

make_calls-Lasts_example : Lasts itself members library (make_calls broken session library)
make_calls-Lasts_example =
    make_calls-Lasts broken session members library (tt, (tt, tt)) library-IsOpen

abbrev properties : EventProperties
properties = record { event_type = 1; event_payload = [] }

get_event_handle-roundtrip_example :
    (left : Library) × (get_event_handle calm
        (to_receive_event (record {
          event_inst =
              (event_msg calm member.client_handle
                (codes "BOOM")
                (codes "info")
                properties
                member).event;
          src =
              (event_msg calm member.client_handle
                (codes "BOOM")
                (codes "info")
                properties
                member).src;
        }))
        feed
        library
      ≡ ok (
        success,
        some (
            handle_of_event (
              event_msg calm member.client_handle (codes "BOOM") (codes "info") properties member)),
        left,
      ))
    × ((more : Feed)
        → (last : Library) × (compare_event_handles calm
              (handle_of_event (
                event_msg calm member.client_handle
                  (codes "BOOM")
                  (codes "info")
                  properties
                  member))
              (handle_of_event (
                event_msg calm member.client_handle
                  (codes "BOOM")
                  (codes "info")
                  properties
                  member))
              more
              left
            ≡ ok (success, last)))
get_event_handle-roundtrip_example =
    get_event_handle-roundtrip calm member.client_handle (codes "BOOM") (codes "info") properties
      member feed members library space space-IsNamespace library-IsOpen

reconnect-Announced_example : Announced there members library (reconnect calm library)
reconnect-Announced_example =
    reconnect-Announced calm (λ log m. refl) members library refl refl (refl, tt)
