-- ===== src/Client/Callbacks.antt =====
-- The thread that makes a client's callbacks, FTBCI_callback_component of src/client_lib/ftb_client_lib.c,
-- and what FTBC_Unsubscribe does to it.
use ftb.Prelude.{
  ◌≡◌, refl, ap, subst, ◌∙◌, true, false, List, [], ◌∷◌, some, arith, inl, inr, Bool-cases, ◌==◌,
  All,
}
use ftb.Defs.{is_success, Event, Msg, subscription_cancel, ok}
use ftb.Match.{match_mask, is_equal_clienthandle}
use ftb.Match.Laws.{is_equal_event-IsEquality}
use ftb.Map
use ftb.Map.Every
use ftb.Manager.State.{Env}
use ftb.Client.Polling.{EventInst, ClientInfo, is_polling, push_to_comp_polling_list}
use ftb.Client.Queueing.{IsBounded, Pushed, push_to_comp_polling_list-Pushed}
use ftb.Client.Library.{
  CallbackEntry, Client, Library, Feed, is_notified, handle_of, matches_callback, receive,
  to_parent, send_up, check_progress,
}
use ftb.Client.Receiving.{IsClient, IsOpen, find}
use ftb.Client.Progress.{
  Lasts, Lasts-then, Lasts-below, second, IsOpen-manager, send-leaf, check_progress-Lasts,
}
use ftb.Client.Calls.{third, Lasts-now, Lasts-from, lookup-Lasts, change_found-Routed}
use ftb.Client.Subscribing.{SubscribeHandle, remove_from_subscription_map, cancel, unsubscribe}
use ftb.Client.Publishing.{
  CallbackRound, waits, made, left_freed, freed_twice, move_to_polling, to_receive_event,
  find_callback, callback_round,
}

find_callback_there :
    (e : Event) (es : List CallbackEntry)
    → matches_callback e es ≡ true
    → (x : CallbackEntry) × (find_callback e es ≡ some x) × (match_mask e x.mask ≡ true)
unfolding matches_callback find_callback
find_callback_there e [] h = absurd (ground arith)
find_callback_there e (y ∷ es) h = elim (Bool-cases (match_mask e y.mask)) [
  | inl hit ↦ (y, rw hit refl, hit)
  | inr miss ↦
      let (x, found, hit) = find_callback_there e es (ground arith) in (x, rw miss found, hit)
]

find_callback_one :
    (e : Event) (x : CallbackEntry) → match_mask e x.mask ≡ true → find_callback e (x ∷ []) ≡ some x
unfolding find_callback
find_callback_one e x hit = rw hit refl

-- A round of the callback thread: nothing waits, or the oldest event goes to a callback whose mask
-- matches it, and is the only one to leave the queue.
pub data Called (c : Client) (r : CallbackRound) : Type 0 where
  idle : c.callback_event_queue ≡ [] → r ≡ waits c → Called c r
  called :
      (e : EventInst) (rest : List EventInst) (x : CallbackEntry) (left : Client)
      → c.callback_event_queue ≡ e ∷ rest
      → match_mask e.event_inst x.mask ≡ true
      → r ≡ made (x, to_receive_event e) left
      → left ≡ record c { callback_event_queue = rest }
      → IsClient left
      → Called c r

-- In a round of its callback thread a client in use gives its oldest event to a callback whose mask
-- matches it, takes that event and no other from the queue, and stays in use; with no event it waits.
pub callback_round-Called : (c : Client) → IsClient c → Called c (callback_round c)
unfolding callback_round
callback_round-Called c k = go c.callback_event_queue refl
  where
    go : (q : List EventInst) → c.callback_event_queue ≡ q → Called c (callback_round c)
    go [] none_there = idle none_there (ground (arith, none_there))
    go (e ∷ rest) there =
        let all : All (λ x. matches_callback x.event_inst c.callback_map ≡ true) (e ∷ rest) =
          subst (All (λ x. matches_callback x.event_inst c.callback_map ≡ true)) there k.matched in
        let (x, found, hit) = find_callback_there e.event_inst c.callback_map all.0 in
        let left : Client = record c { callback_event_queue = rest } in
        called e rest x left there hit (ground (arith, there, found)) refl
          (record { kept = k.kept; bounded = k.bounded; matched = all.1 })

-- What the callback thread does to an event that no callback of the client `c` takes any more.
pub data Abandoned (e : EventInst) (c : Client) (r : CallbackRound) : Type 0 where
  dangles :
      is_polling c.info ≡ true
      → (p : Pushed e c.info)
      → r ≡ left_freed (record c { info = p.left; callback_event_queue = [] })
      → Abandoned e c r
  frees_twice : is_polling c.info ≡ false → r ≡ freed_twice → Abandoned e c r

callback_round-Abandoned :
    (c : Client) (e : EventInst)
    → (is_polling c.info ≡ true → IsBounded c.info)
    → c.callback_event_queue ≡ e ∷ []
    → c.callback_map ≡ []
    → Abandoned e c (callback_round c)
unfolding callback_round move_to_polling find_callback push_to_comp_polling_list
callback_round-Abandoned c e bounded one no_callback = elim (Bool-cases (is_polling c.info)) [
  | inl polls ↦
      let p = push_to_comp_polling_list-Pushed e c.info (bounded polls) polls in
      dangles polls p (moved p.left polls p.runs)
  | inr silent ↦ frees_twice silent (ground (arith, one, no_callback, silent))
]
  where
    moved :
        (i : ClientInfo)
        → is_polling c.info ≡ true
        → push_to_comp_polling_list e c.info ≡ ok i
        → callback_round c ≡ left_freed (record c { info = i; callback_event_queue = [] })
    moved i polls runs = ground (arith, one, no_callback, runs, polls)

gone_round :
    (m : Event) (c : Client) (e : EventInst)
    → (is_polling c.info ≡ true → IsBounded c.info)
    → c.callback_event_queue ≡ e ∷ []
    → (remove_from_subscription_map m c).callback_map ≡ []
    → Abandoned e
        (remove_from_subscription_map m c)
        (callback_round (remove_from_subscription_map m c))
unfolding remove_from_subscription_map
gone_round m c e bounded one none_left = callback_round-Abandoned _ e bounded one none_left

-- An event comes in for the only callback of a client in use. The next round of the callback thread
-- hands it over; but if the callback is unsubscribed first, that round frees the event's node twice
-- for a client that does not poll, and for one that does it puts the event behind its polling queue,
-- a full one losing its oldest event, and frees the node and the entry there.
pub unsubscribed_callback-Abandoned :
    (c : Client) (e : EventInst) (x : CallbackEntry)
    → IsClient c
    → is_notified c.info ≡ true
    → c.callback_event_queue ≡ []
    → c.callback_map ≡ x ∷ []
    → match_mask e.event_inst x.mask ≡ true
    → (left : Client) × (receive e c ≡ ok left)
      × (callback_round left
          ≡ made (x, to_receive_event e) (record c { callback_event_queue = [] }))
      × Abandoned e
          (remove_from_subscription_map x.mask left)
          (callback_round (remove_from_subscription_map x.mask left))
unfolding receive matches_callback callback_round remove_from_subscription_map find_callback
    Map.remove_key Map.remove_node Map.find_key
unsubscribed_callback-Abandoned c e x k notified empty only hit =
    let same = is_equal_event-IsEquality.is_refl x.mask in
    let found : find_callback e.event_inst c.callback_map ≡ some x =
      ap (find_callback e.event_inst) only ∙ find_callback_one e.event_inst x hit in
    let left : Client = record c { callback_event_queue = e ∷ [] } in
    let gone : Client = remove_from_subscription_map x.mask left in
    let none_left : gone.callback_map ≡ [] = rw (only, same) refl in
    (
      left,
      rw (notified, only, hit, empty) refl,
      ground (arith, found),
      gone_round x.mask left e k.bounded refl none_left,
    )

module _ (env : Env) where
  cancelled-IsClient :
      (mask : Event) (c : Client)
      → IsClient c
      → c.callback_event_queue ≡ []
      → IsClient (remove_from_subscription_map mask c)
  unfolding remove_from_subscription_map
  cancelled-IsClient mask c k empty = record {
    kept = k.kept;
    bounded = k.bounded;
    matched = rw empty tt;
  }

  cancel-Lasts :
      (h : SubscribeHandle) (feed : Feed) (c : Client) (cs : List Client) (lib : Library)
      → IsOpen cs lib
      → find h.client_handle cs ≡ some c
      → c.callback_event_queue ≡ []
      → IsClient c
      → Lasts third cs lib (cancel env h feed lib c)
  unfolding cancel send_up remove_from_subscription_map
  cancel-Lasts h feed c cs lib o found empty k = elim (Bool-cases (h.valid == 0)) [
    | inl bad ↦ rw bad (Lasts-now third _ cs lib refl o)
    | inr good ↦
        let msg : Msg = to_parent env lib.manager (record env.garbage {
          event = h.subscription_event;
          src = c.id;
          msg_type = subscription_cancel;
        }) in
        let (r, sent, leaf) = send-leaf env msg lib.manager o.leaf in
        let mid : Library = record lib { manager = r.1 } in
        let o' = IsOpen-manager cs lib r.1 o leaf in
        elim (Bool-cases (is_success r.0)) [
          | inr lost ↦
              rw (good, sent, lost)
                (Lasts-below third cs lib r.1 _ (Lasts-now third _ cs mid refl o'))
          | inl done ↦
              let f : Client → Client = remove_from_subscription_map h.subscription_event in
              let changed =
                change_found-Routed h.client_handle f c cs mid o' found
                  (cancelled-IsClient h.subscription_event c k empty) refl in
              rw (good, sent, done)
                (Lasts-below third cs lib r.1 _ (
                  Lasts-from third cs mid _ _ changed (
                    Lasts-then second third changed.ds _ (check_progress env feed _) _
                      (check_progress-Lasts env feed changed.ds _ changed.is_open)
                      (λ es q n. Lasts-now third _ es q.1 refl n))))
        ]
  ]

  -- A client unsubscribes while no event waits for its callback thread: the call does not crash, and the
  -- library stays open with the same clients.
  pub unsubscribe-Lasts :
      (h : SubscribeHandle) (feed : Feed) (cs : List Client) (lib : Library)
      → IsOpen cs lib
      → ((c : Client) → find h.client_handle cs ≡ some c → c.callback_event_queue ≡ [])
      → Lasts third cs lib (unsubscribe env (some h) feed lib)
  unfolding unsubscribe
  unsubscribe-Lasts h feed cs lib o empty =
      lookup-Lasts third h.client_handle cs lib _ _ o (λ ret. refl)
        (λ c found. cancel-Lasts h feed c cs lib o found (empty c found) (
          Every.All-find_key handle_of is_equal_clienthandle IsClient h.client_handle cs c o.sound
            found))
