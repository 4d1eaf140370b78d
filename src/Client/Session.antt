-- ===== src/Client/Session.antt =====
-- A sequence of calls of src/client_lib/ftb_client_lib.c between the first connection and the last
-- disconnection, with the messages that each of them takes in.
use ftb.Prelude.{ℕ, ◌≡◌, refl, Bool, List, [], ◌∷◌, Option, inl, inr, Bool-cases, ◌==◌, All}
use ftb.Text.{Str}
use ftb.Defs.{Code, ClientHandle, Event, Run, ok, ◌>>=◌}
use ftb.Manager.State.{Env}
use ftb.Client.Polling.{is_polling}
use ftb.Client.Declared.{EventInfo, store_declared_events}
use ftb.Client.Library.{Client, Library, Feed, is_notified}
use ftb.Client.Receiving.{IsOpen}
use ftb.Client.Progress.{Lasts, Lasts-then, itself, second}
use ftb.Client.Calls.{
  third, Lasts-now, Lasts-from, lookup-Lasts, change_client-Routed, add_to_polling_map-IsClient,
  add_to_callback_map-IsClient, subscribe-Lasts,
}
use ftb.Client.Subscribing.{
  SubscribeHandle, parse_mask, add_to_polling_map, add_to_callback_map, subscribe_with_polling,
  subscribe_with_callback,
}
use ftb.Client.Publishing.{EventProperties, publish, poll_event, declare_table}
use ftb.Client.Events.{publish-Lasts, poll_event-Lasts}

-- A call with its arguments, and what the network brings while it runs.
pub data Call : Type 0 where
  publishing : ClientHandle → Str → Option EventProperties → Bool → Feed → Call
  polling : SubscribeHandle → Bool → Feed → Feed → Call
  subscribing : Bool → ClientHandle → Option Str → Feed → Call
  calling_back : ℕ → ℕ → Bool → ClientHandle → Option Str → Feed → Call
  declaring : ClientHandle → List EventInfo → Call

module _ (env : Env) where
  -- The library after a call.
  unfoldable pub make_call : Call → Library → Run Library
  make_call (publishing h name p given feed) lib =
      publish env h name p given feed lib >>= λ r. ok r.2
  make_call (polling h given first last) lib = poll_event env h given first last lib >>= λ r. ok r.2
  make_call (subscribing given h str feed) lib =
      subscribe_with_polling env given h str feed lib >>= λ r. ok r.2
  make_call (calling_back callback arg given h str feed) lib =
      subscribe_with_callback env callback arg given h str feed lib >>= λ r. ok r.2
  make_call (declaring h einfo) lib = declare_table h einfo lib >>= λ r. ok r.1

  unfoldable pub make_calls : List Call → Library → Run Library
  unfolding make_call
  make_calls [] lib = ok lib
  make_calls (call ∷ calls) lib = make_call call lib >>= λ left. make_calls calls left

  -- Its subscription string is parsed without a crash.
  abbrev pub IsParsable : Call → Type 0
  IsParsable (subscribing given h str feed) =
      (q : Code × Event) × (parse_mask str env.garbage.event ≡ ok q)
  IsParsable (calling_back callback arg given h str feed) =
      (q : Code × Event) × (parse_mask str env.garbage.event ≡ ok q)
  IsParsable _ = Unit {0}

  declare_table-Lasts :
      (h : ClientHandle) (einfo : List EventInfo) (cs : List Client) (lib : Library)
      → IsOpen cs lib
      → Lasts second cs lib (declare_table h einfo lib)
  unfolding declare_table
  declare_table-Lasts h einfo cs lib o = elim (Bool-cases (h.valid == 1)) [
    | inr bad ↦ rw bad (Lasts-now second _ cs lib refl o)
    | inl good ↦ rw good (
        lookup-Lasts second h cs lib _ _ o (λ ret. refl)
          (λ c found.
            let stored = (store_declared_events einfo c.declared).1 in
            let changed =
              change_client-Routed h (λ x. record x { declared = stored }) cs lib
                (λ x k. record { kept = k.kept; bounded = k.bounded; matched = k.matched })
                (λ x. refl) o in
            Lasts-from second cs lib _ _ changed
              (Lasts-now second _ changed.ds _ refl changed.is_open)))
  ]

  make_call-Lasts :
      (call : Call) (cs : List Client) (lib : Library)
      → IsParsable call
      → IsOpen cs lib
      → Lasts itself cs lib (make_call call lib)
  unfolding make_call subscribe_with_polling subscribe_with_callback add_to_polling_map
      add_to_callback_map
  make_call-Lasts (publishing h name p given feed) cs lib a o =
      Lasts-then third itself cs lib _ _ (publish-Lasts env h name p given feed cs lib o)
        (λ ds r k. Lasts-now itself _ ds r.2 refl k)
  make_call-Lasts (polling h given first last) cs lib a o =
      Lasts-then third itself cs lib _ _ (poll_event-Lasts env h given first last cs lib o)
        (λ ds r k. Lasts-now itself _ ds r.2 refl k)
  make_call-Lasts (subscribing given h str feed) cs lib (q, parsed) o =
      Lasts-then third itself cs lib _ _
        (subscribe-Lasts env 1 (λ c. is_polling c.info) add_to_polling_map given h str feed cs lib q
          add_to_polling_map-IsClient (λ e c. refl) parsed o)
        (λ ds r k. Lasts-now itself _ ds r.2 refl k)
  make_call-Lasts (calling_back callback arg given h str feed) cs lib (q, parsed) o =
      Lasts-then third itself cs lib _ _
        (subscribe-Lasts env 2 (λ c. is_notified c.info)
          (λ event. add_to_callback_map (record { mask = event; callback = callback; arg = arg }))
          given h str feed cs lib q
          (λ e. add_to_callback_map-IsClient (record { mask = e; callback = callback; arg = arg }))
          (λ e c. refl) parsed o)
        (λ ds r k. Lasts-now itself _ ds r.2 refl k)
  make_call-Lasts (declaring h einfo) cs lib a o =
      Lasts-then second itself cs lib _ _ (declare_table-Lasts h einfo cs lib o)
        (λ ds r k. Lasts-now itself _ ds r.1 refl k)

  -- On an open library any sequence of calls that publish, poll, subscribe and declare events follows
  -- no null pointer and reads no freed client, whatever messages come in meanwhile and whatever code
  -- and parent the network layer gives, if its calls return and the subscription strings are parsed
  -- without a crash; the library stays open, with clients of the same handles, each with a bounded
  -- polling queue and a callback for every event that waits for one.
  pub make_calls-Lasts :
      (calls : List Call) (cs : List Client) (lib : Library)
      → All IsParsable calls
      → IsOpen cs lib
      → Lasts itself cs lib (make_calls calls lib)
  unfolding make_calls
  make_calls-Lasts [] cs lib a o = Lasts-now itself lib cs lib refl o
  make_calls-Lasts (call ∷ calls) cs lib a o =
      Lasts-then itself itself cs lib _ _ (make_call-Lasts call cs lib a.0 o)
        (λ ds left k. make_calls-Lasts calls ds left a.1 k)
