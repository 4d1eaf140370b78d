-- ===== src/Tests/Managers.antt =====
-- The theorems on src/manager_lib/ftb_manager_lib.c at concrete tables.
use ftb.Prelude.{◌≡◌, refl, List, [], ◌∷◌}
use ftb.Text.{strcasecmp, strncasecmp, to_lower, strcmp}
use ftb.Defs.{Code, success, err_network_general, FtbId}
use ftb.Match.{is_equal_ftb_id, is_equal_location_id, is_equal_event_mask}
use ftb.Map
use ftb.Manager.State.{Manager, ok}
use ftb.Manager.Propagation.{send_msg, clean_component}
use ftb.Manager.Clients.{client_deregister, cleanup_connection, is_manager_exact, forget}
use ftb.Manager.Subscriptions.{register_subscription, cancel_subscription}
use ftb.Manager.Coherence.{IsSound}
use ftb.Manager.Departure.{Departed, client_deregister-Departed}
use ftb.Manager.Subscription.{Subscribed, Unsubscribed}
use ftb.Manager.Subscribing.{
  register_subscription-Subscribed, cancel_subscription-Unsubscribed, register_subscription_stale,
}
use ftb.Manager.Delivery.{Delivers, get_catcher_comp_list-Delivers}
use ftb.Manager.Shutdown.{Finalized, finalize-Finalized}
use ftb.Manager.Lifecycle.{finalize}
use ftb.Manager.Cleanup.{CleanedUp, cleanup_connection-CleanedUp}
use ftb.Tests.{
  here, there, client, boom, fail, notice_of, calm, broken, one, one_mask, one_mask-IsSound,
  two_masks, two_masks-IsSound,
}

-- What a lost message to the only peer leaves.
abbrev broken_left : Code × Manager
broken_left = (
  err_network_general,
  forget (one (boom ∷ [])) (
      clean_component broken (one (boom ∷ []))
        (send_msg broken (notice_of boom (client there)) one_mask).1),
)

client_deregister-Departed_example :
    ((client_deregister calm (client there) one_mask).0 ≡ success)
    × Departed (client there) one_mask (client_deregister calm (client there) one_mask).1
unfolding Map.find_key is_equal_ftb_id is_equal_location_id strcasecmp strncasecmp to_lower
    is_manager_exact strcmp
client_deregister-Departed_example =
    client_deregister-Departed calm (client there) one_mask (one (boom ∷ [])) one_mask-IsSound refl
      refl refl refl

register_subscription-Subscribed_example :
    ((register_subscription calm (client there) fail one_mask).0 ≡ success)
    × Subscribed
        (client there)
        fail
        one_mask
        (register_subscription calm (client there) fail one_mask).1
unfolding Map.find_key is_equal_ftb_id is_equal_location_id strcasecmp strncasecmp to_lower
    is_equal_event_mask
register_subscription-Subscribed_example =
    register_subscription-Subscribed calm (client there) fail one_mask (one (boom ∷ []))
      one_mask-IsSound refl refl refl refl

cancel_subscription-Unsubscribed_example :
    ((cancel_subscription calm (client there) boom one_mask).0 ≡ success)
    × Unsubscribed
        (client there)
        boom
        one_mask
        (cancel_subscription calm (client there) boom one_mask).1
unfolding Map.find_key is_equal_ftb_id is_equal_location_id strcasecmp strncasecmp to_lower
cancel_subscription-Unsubscribed_example =
    cancel_subscription-Unsubscribed calm (client there) boom one_mask (one (boom ∷ []))
      one_mask-IsSound refl refl refl

get_catcher_comp_list-Delivers_example : (ids : List FtbId) × Delivers one_mask boom ids
get_catcher_comp_list-Delivers_example =
    get_catcher_comp_list-Delivers boom one_mask one_mask-IsSound refl refl

cleanup_connection-CleanedUp_example :
    (t : Manager) × (code : Code) × (cleanup_connection calm there one_mask ≡ ok (code, t))
    × CleanedUp calm there one_mask t code
unfolding is_equal_location_id strcasecmp strncasecmp to_lower
cleanup_connection-CleanedUp_example =
    cleanup_connection-CleanedUp calm there one_mask one_mask-IsSound refl refl refl

abbrev cleaned_there : Code × Manager
cleaned_there =
    (success, forget (one (boom ∷ [])) (clean_component calm (one (boom ∷ [])) one_mask))

register_subscription_stale_example :
    ¬ IsSound (register_subscription broken (client there) boom two_masks).1
unfolding Map.find_key is_equal_event_mask is_equal_ftb_id is_equal_location_id strcasecmp
    strncasecmp to_lower
register_subscription_stale_example =
    register_subscription_stale broken (client there) boom two_masks (one (boom ∷ []))
      (record { mask = fail; comps = client here ∷ [] }) two_masks-IsSound refl refl refl refl refl
      refl

-- Each of the two peers has subscribed, so that the second one's farewell reads the first one.
finalize-Finalized_example : Finalized two_masks (finalize calm two_masks)
finalize-Finalized_example = finalize-Finalized calm two_masks two_masks-IsSound
