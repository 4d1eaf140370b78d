-- ===== src/Client/Queueing.antt =====
-- The polling queue of src/client_lib/ftb_client_lib.c as a bounded queue.
use ftb.Prelude.{
  suc, ◌+◌, ◌-◌, ◌<◌, ◌≤◌, ◌≡◌, refl, ap, sym, subst, true, false, List, [], ◌∷◌, ◌++◌, Option,
  none, some, arith, if◌then◌else◌, inl, inr, Bool-cases, ◌==◌, ltb, length, length-append, drop,
  All,
}
use ftb.Defs.{Event, ok}
use ftb.Match.{match_mask}
use ftb.Client.Polling.{
  EventInst, ClientInfo, is_polling, drop_first, add_last, push_to_comp_polling_list, take_match,
  poll_queue,
}

-- The size is right and within the bound, and there is room for one event at least.
pub record IsBounded (c : ClientInfo) : Type 0 where
  pub size : c.event_queue_size ≡ length c.event_queue
  pub bound : c.event_queue_size ≤ c.max_polling_queue_len
  pub room : 0 < c.max_polling_queue_len

-- A push to a client that polls puts the event last; a full queue loses its oldest event.
pub record Pushed (e : EventInst) (c : ClientInfo) : Type 0 where
  pub left : ClientInfo
  pub runs : push_to_comp_polling_list e c ≡ ok left
  pub bounded : IsBounded left
  pub queue :
      left.event_queue
      ≡ (if length c.event_queue == c.max_polling_queue_len
          then drop 1 c.event_queue
          else c.event_queue)
        ++ e ∷ []

-- A full queue.
push_full :
    (e : EventInst) (c : ClientInfo) (q : List EventInst)
    → IsBounded c
    → c.event_queue ≡ q
    → is_polling c ≡ true
    → (c.event_queue_size == c.max_polling_queue_len) ≡ true
    → Pushed e c
unfolding push_to_comp_polling_list drop_first add_last
push_full e c [] k same polls full =
    let none_there : length c.event_queue ≡ 0 = ap length same in
    absurd (ground (arith, k.size, k.room))
push_full e c (x ∷ xs) k same polls full =
    let count : length c.event_queue ≡ suc (length xs) = ap length same in
    record {
      left = record c { event_queue = xs ++ e ∷ []; event_queue_size = c.event_queue_size - 1 + 1 };
      runs = ground arith;
      bounded = record {
        size = omega (arith, k.size, count, length-append {0} xs (e ∷ []));
        bound = ground (arith, k.bound, k.size);
        room = k.room;
      };
      queue = ground (arith, k.size, same);
    }

-- Pushing an event to a client that polls succeeds, and never grows the queue past its bound: the event
-- is the last one then, and a full queue loses its oldest event and no other.
pub push_to_comp_polling_list-Pushed :
    (e : EventInst) (c : ClientInfo) → IsBounded c → is_polling c ≡ true → Pushed e c
unfolding push_to_comp_polling_list add_last
push_to_comp_polling_list-Pushed e c k polls =
    elim (Bool-cases (c.event_queue_size == c.max_polling_queue_len)) [
      | inl full ↦ push_full e c c.event_queue k refl polls full
      | inr room ↦ record {
        left = record c {
          event_queue = c.event_queue ++ e ∷ [];
          event_queue_size = c.event_queue_size + 1;
        };
        runs = ground arith;
        bounded = record {
          size = omega (arith, k.size, length-append {0} c.event_queue (e ∷ []));
          bound = ground (arith, k.bound);
          room = k.room;
        };
        queue = ground (arith, k.size);
      }
    ]

-- No entry matches the mask.
abbrev pub Unmatched : Event → List EventInst → Type 0
Unmatched mask = All (λ e. match_mask e.event_inst mask ≡ false)

-- What a search of the queue gives: nothing where nothing matches, and else the oldest match.
pub data IsTaken (mask : Event) (q : List EventInst) (r : Option (EventInst × List EventInst))
    : Type 0 where
  no_match : Unmatched mask q → r ≡ none → IsTaken mask q r
  oldest :
      (front back : List EventInst) (e : EventInst)
      → q ≡ front ++ e ∷ back
      → Unmatched mask front
      → match_mask e.event_inst mask ≡ true
      → r ≡ some (e, front ++ back)
      → IsTaken mask q r

take_match-IsTaken : (mask : Event) (q : List EventInst) → IsTaken mask q (take_match mask q)
unfolding take_match
take_match-IsTaken mask [] = no_match tt refl
take_match-IsTaken mask (e ∷ es) = elim (Bool-cases (match_mask e.event_inst mask)) [
  | inl hit ↦ oldest [] es e refl tt hit (rw hit refl)
  | inr miss ↦ elim (take_match-IsTaken mask es) [
    | no_match u r ↦ no_match (miss, u) (rw (miss, r) refl)
    | oldest front back x p u hit r ↦
        oldest (e ∷ front) back x (ap (◌∷◌ e) p) (miss, u) hit (rw (miss, r) refl)
  ]
]

-- What a poll gives, and what it leaves.
pub data IsPolled (mask : Event) (c : ClientInfo) (r : Option EventInst × ClientInfo) : Type 0 where
  nothing : Unmatched mask c.event_queue → r ≡ (none, c) → IsPolled mask c r
  event :
      (front back : List EventInst) (e : EventInst)
      → c.event_queue ≡ front ++ e ∷ back
      → Unmatched mask front
      → match_mask e.event_inst mask ≡ true
      → r.0 ≡ some e
      → r.1.event_queue ≡ front ++ back
      → IsBounded r.1
      → IsPolled mask c r

nothing_matches : (mask : Event) (q : List EventInst) → length q ≡ 0 → Unmatched mask q
nothing_matches mask [] h = tt
nothing_matches mask (e ∷ q) h = absurd (ground arith)

-- A poll of a bounded queue takes the oldest event that matches the mask, keeps all others in their
-- order and the queue bounded; it gives none and changes nothing exactly where no event matches.
pub poll_queue-IsPolled :
    (mask : Event) (c : ClientInfo) → IsBounded c → IsPolled mask c (poll_queue mask c)
unfolding poll_queue
poll_queue-IsPolled mask c k = elim (Bool-cases (ltb 0 c.event_queue_size)) [
  | inr empty ↦ nothing (nothing_matches mask c.event_queue (ground (arith, k.size))) (ground arith)
  | inl some_there ↦ elim (take_match-IsTaken mask c.event_queue) [
    | no_match u r ↦ nothing u (ground (arith, r))
    | oldest front back e p u hit r ↦
        let count : length c.event_queue ≡ length (front ++ e ∷ back) = ap length p in
        let left : ClientInfo = record c {
          event_queue = front ++ back;
          event_queue_size = c.event_queue_size - 1;
        } in
        let same : poll_queue mask c ≡ (some e, left) = ground (arith, r) in
        subst (IsPolled mask c) (sym same) (
          event front back e p u hit refl refl (record {
            size = omega (
              arith,
              k.size,
              count,
              length-append {0} front (e ∷ back),
              length-append {0} front back,
            );
            bound = omega (arith, k.bound);
            room = k.room;
          }))
  ]
]
