-- ===== src/Client/Events.antt =====
-- FTBC_Publish, FTBC_Poll_event and FTBC_Declare_publishable_events of src/client_lib/ftb_client_lib.c
-- keep the library open, and the handle of an event is the same at both ends.
use ftb.Prelude.{
  ◌%◌, ◌≡◌, refl, ap, subst, sym, ◌∙◌, Bool, true, not, ◌&&◌, ◌||◌, List, ◌∷◌, ◌++◌, Option, none,
  some, arith, inl, inr, Bool-cases, Option-cases, ◌==◌, leb, length,
}
use ftb.Text.{Str, strcasecmp}
use ftb.Text.Laws.{strcasecmp-IsEquality}
use ftb.Defs.{Code, success, got_no_event, ClientHandle, Event, max_event_name, ok, ◌>>=◌}
use ftb.Match.{is_equal_clienthandle}
use ftb.Map
use ftb.Map.Every
use ftb.Manager.State.{Env}
use ftb.Client.Namespace.{dot, split_namespace}
use ftb.Client.Splitting.{IsNamespace, split_as, split_namespace-IsNamespace}
use ftb.Client.Declared.{event_index}
use ftb.Client.Polling.{ClientInfo, is_polling, take_match, poll_queue}
use ftb.Client.Queueing.{IsBounded, nothing, event, poll_queue-IsPolled}
use ftb.Client.Library.{Client, Library, Feed, handle_of, send_up, check_progress}
use ftb.Client.Receiving.{IsClient, IsOpen}
use ftb.Client.Progress.{Lasts, second, Lasts-then, send_up-Lasts, check_progress-Lasts}
use ftb.Client.Calls.{
  third, Lasts-now, Lasts-from, lookup-Lasts, change_client-Routed, change_found-Routed,
}
use ftb.Client.Subscribing.{SubscribeHandle}
use ftb.Client.Publishing.{
  EventProperties, EventHandle, ReceiveEvent, to_receive_event, handle_of_event, same_event_handle,
  properties_of, event_msg, count_up, publish_declared, publish, poll_round, poll_event,
  get_event_handle, compare_event_handles,
}

poll-IsBounded : (mask : Event) (c : ClientInfo) → IsBounded c → IsBounded (poll_queue mask c).1
poll-IsBounded mask c k = elim (poll_queue-IsPolled mask c k) [
  | nothing u e ↦ rw e k
  | event front back e p u hit r q b ↦ b
]

poll-subscription_type :
    (mask : Event) (c : ClientInfo) → (poll_queue mask c).1.subscription_type ≡ c.subscription_type
unfolding poll_queue
poll-subscription_type mask c = elim (Option-cases (take_match mask c.event_queue)) [
  | inl missing ↦ ground (arith, missing)
  | inr (r, found) ↦ ground (arith, found)
]

polled-IsClient :
    (mask : Event) (c : Client)
    → IsClient c
    → IsClient (record c { info = (poll_queue mask c.info).1 })
polled-IsClient mask c k = record {
  kept = k.kept;
  bounded = λ polls.
      poll-IsBounded mask c.info
        (k.bounded (subst (λ n. (n % 2 == 1) ≡ true) (poll-subscription_type mask c.info) polls));
  matched = k.matched;
}

module _ (env : Env) where
  publish_declared-Lasts :
      (h : ClientHandle) (name severity : Str) (p : Option EventProperties) (c : Client)
      (cs : List Client) (lib : Library)
      → IsOpen cs lib
      → Lasts third cs lib (publish_declared env h name severity p c lib)
  unfolding publish_declared
  publish_declared-Lasts h name severity p c cs lib o =
      elim (Bool-cases (
        not ((properties_of env p).event_type == 1)
        && not ((properties_of env p).event_type == 2))) [
          | inl bad ↦ rw bad (Lasts-now third _ cs lib refl o)
          | inr good ↦
              let changed =
                change_client-Routed h (count_up env) cs lib
                  (λ x k. record { kept = k.kept; bounded = k.bounded; matched = k.matched })
                  (λ x. refl) o in
              rw good (
                Lasts-from third cs lib _ _ changed (
                  Lasts-then second third changed.ds _ (send_up env _ _) _
                    (send_up-Lasts env _ changed.ds _ changed.is_open)
                    (λ es r n. Lasts-now third _ es r.1 refl n)))
        ]

  -- A client publishes: the call does not crash, and the library stays open with the same clients.
  pub publish-Lasts :
      (h : ClientHandle) (name : Str) (p : Option EventProperties) (given : Bool) (feed : Feed)
      (cs : List Client) (lib : Library)
      → IsOpen cs lib
      → Lasts third cs lib (publish env h name p given feed lib)
  unfolding publish
  publish-Lasts h name p given feed cs lib o = elim (Bool-cases (h.valid == 1)) [
    | inr bad ↦ rw bad (Lasts-now third _ cs lib refl o)
    | inl good ↦ elim (Bool-cases given) [
      | inr null ↦ rw (good, null) (Lasts-now third _ cs lib refl o)
      | inl there ↦ elim (Bool-cases (length name == 0 || leb max_event_name (length name))) [
        | inl wrong ↦ rw (good, there, wrong) (Lasts-now third _ cs lib refl o)
        | inr right ↦
            rw (good, there, right)
              (Lasts-then second third cs lib (check_progress env feed lib) _
                (check_progress-Lasts env feed cs lib o)
                (λ ds q k.
                  lookup-Lasts third h ds q.1 _ _ k (λ ret. refl)
                    (λ c found.
                      elim (Option-cases
                        (Map.find_key event_index strcasecmp name c.declared.declared_events_map)) [
                          | inl unknown ↦ rw unknown (Lasts-now third _ ds q.1 refl k)
                          | inr (e, known) ↦
                              rw known (publish_declared-Lasts h name e.severity p c ds q.1 k)
                        ])))
      ]
    ]
  ]

  poll_round-Lasts :
      (h : SubscribeHandle) (feed : Feed) (cs : List Client) (lib : Library)
      → IsOpen cs lib
      → Lasts second cs lib (poll_round env h feed lib)
  unfolding poll_round
  poll_round-Lasts h feed cs lib o =
      Lasts-then second second cs lib (check_progress env feed lib) _
        (check_progress-Lasts env feed cs lib o)
        (λ ds p k.
          lookup-Lasts second h.client_handle ds p.1 _ _ k (λ ret. refl)
            (λ c found.
              let q = poll_queue h.subscription_event c.info in
              elim (Option-cases q.0) [
                | inl nothing_there ↦ rw nothing_there (Lasts-now second _ ds p.1 refl k)
                | inr (e, there) ↦
                    let k' =
                      Every.All-find_key handle_of is_equal_clienthandle IsClient h.client_handle ds
                        c k.sound found in
                    let changed =
                      change_found-Routed h.client_handle (λ x. record x { info = q.1 }) c ds p.1 k
                        found (polled-IsClient h.subscription_event c k') refl in
                    rw there (
                      Lasts-from second ds p.1 _ _ changed
                        (Lasts-now second _ changed.ds _ refl changed.is_open))
              ]))

  -- A client polls: the call does not crash, and the library stays open with the same clients.
  pub poll_event-Lasts :
      (h : SubscribeHandle) (given : Bool) (first second_feed : Feed) (cs : List Client)
      (lib : Library)
      → IsOpen cs lib
      → Lasts third cs lib (poll_event env h given first second_feed lib)
  unfolding poll_event
  poll_event-Lasts h given first second_feed cs lib o = elim (Bool-cases given) [
    | inr null ↦ rw null (Lasts-now third _ cs lib refl o)
    | inl there ↦ elim (Bool-cases (h.valid == 0)) [
      | inl bad ↦ rw (there, bad) (Lasts-now third _ cs lib refl o)
      | inr good ↦
          rw (there, good)
            (lookup-Lasts third h.client_handle cs lib _ _ o (λ ret. refl)
              (λ c found. elim (Bool-cases (is_polling c.info)) [
                | inr idle ↦ rw idle (Lasts-now third _ cs lib refl o)
                | inl polls ↦ rw polls (
                    Lasts-then second third cs lib (poll_round env h first lib) _
                      (poll_round-Lasts h first cs lib o) (λ ds p k. after_first ds p k))
              ]))
    ]
  ]
    where
      after_second :
          (ds : List Client) (q : Option ReceiveEvent × Library)
          → IsOpen ds q.1
          → Lasts (third {A = Code} {B = Option ReceiveEvent}) ds q.1 (elim q.0 [
            | some e ↦ ok (success, some e, q.1)
            | none ↦ ok (got_no_event, none, q.1)
          ])
      after_second ds (none, l) k = Lasts-now third _ ds l refl k
      after_second ds (some e, l) k = Lasts-now third _ ds l refl k

      after_first :
          (ds : List Client) (p : Option ReceiveEvent × Library)
          → IsOpen ds p.1
          → Lasts (third {A = Code} {B = Option ReceiveEvent}) ds p.1 (elim p.0 [
            | some e ↦ ok (success, some e, p.1)
            | none ↦ poll_round env h second_feed p.1 >>= λ q. elim q.0 [
              | some e ↦ ok (success, some e, q.1)
              | none ↦ ok (got_no_event, none, q.1)
            ]
          ])
      after_first ds (some e, l) k = Lasts-now third _ ds l refl k
      after_first ds (none, l) k =
          Lasts-then second third ds l (poll_round env h second_feed l) _
            (poll_round-Lasts h second_feed ds l k) (λ es q n. after_second es q n)

same_event_handle_refl : (a : EventHandle) → same_event_handle a a ≡ true
unfolding same_event_handle
same_event_handle_refl a =
    let eq = strcasecmp-IsEquality.is_refl in
    ground (
      arith,
      eq a.client_id.region,
      eq a.client_id.comp_cat,
      eq a.client_id.comp,
      eq a.client_id.client_name,
      eq a.location_id.hostname,
      eq a.location_id.pid_starttime,
      eq a.event_name,
      eq a.severity,
    )

module _ (env : Env) where
  -- For a client with the three names of an event space, the handle that a receiver makes of its event is the
  -- one that the publisher was given, and FTBC_Compare_event_handles finds them equal.
  pub get_event_handle-roundtrip :
      (h : ClientHandle) (name severity : Str) (p : EventProperties) (c : Client) (feed : Feed)
      (cs : List Client) (lib : Library) (space : Str)
      → IsNamespace space h.client_id.region h.client_id.comp_cat h.client_id.comp
      → IsOpen cs lib
      → (left : Library) × (get_event_handle env
            (to_receive_event (record {
              event_inst = (event_msg env h name severity p c).event;
              src = (event_msg env h name severity p c).src;
            }))
            feed
            lib
          ≡ ok (success, some (handle_of_event (event_msg env h name severity p c)), left))
        × ((more : Feed)
            → (last : Library) × (compare_event_handles env
                  (handle_of_event (event_msg env h name severity p c))
                  (handle_of_event (event_msg env h name severity p c))
                  more
                  left
                ≡ ok (success, last)))
  unfolding get_event_handle to_receive_event event_msg compare_event_handles
  get_event_handle-roundtrip h name severity p c feed cs lib space k o =
      let q = check_progress-Lasts env feed cs lib o in
      let parts = split_namespace-IsNamespace space _ _ _ k in
      let again : split_namespace
            (h.client_id.region ++ (dot ∷ (h.client_id.comp_cat ++ (dot ∷ h.client_id.comp))))
          ≡ ok (split_as h.client_id.region h.client_id.comp_cat h.client_id.comp) =
        ap split_namespace (sym k.parts) ∙ parts in
      (
        q.value.1,
        rw (again, q.runs) refl,
        λ more.
            let r = check_progress-Lasts env more q.routed.ds q.value.1 q.routed.is_open in
            (
              r.value.1,
              rw
                  (
                    r.runs,
                    same_event_handle_refl (handle_of_event (event_msg env h name severity p c)),
                  )
                  refl,
            ),
      )
