-- ===== src/Client/Calls.antt =====
-- The calls of src/client_lib/ftb_client_lib.c that a connected client makes keep the library open.
use ftb.Prelude.{
  ℕ, ◌≡◌, refl, subst, sym, Bool, true, List, [], ◌∷◌, ◌++◌, Option, none, some, arith, inl, inr,
  Bool-cases, Option-cases, ◌==◌, All,
}
use ftb.Text.{Str}
use ftb.Defs.{Code, err_invalid_handle, is_success, ClientHandle, FtbId, Event, Run, ok}
use ftb.Match.{is_equal_clienthandle, is_equal_event}
use ftb.Map
use ftb.Map.Writes
use ftb.Manager.State.{Env}
use ftb.Client.Polling.{EventInst}
use ftb.Client.Library.{
  CallbackEntry, Client, Library, Feed, handle_of, lookup_client_info, change_client,
  matches_callback, send_up, check_progress,
}
use ftb.Client.Receiving.{IsClient, IsOpen, Routed, find, find_client-find, change_client-IsOpen}
use ftb.Client.Progress.{
  Lasts, second, Routed-refl, Routed-trans, Lasts-then, send_up-Lasts, check_progress-Lasts,
}
use ftb.Client.Subscribing.{
  add_to_polling_map, add_to_callback_map, parse_mask, enter_subscription, subscribe, callback_mask,
}

abbrev pub third : {A B : Type 0} → A × B × Library → Library
third r = r.2

-- A call that returns at once.
pub Lasts-now :
    {A : Type 0} (f : A → Library) (a : A) (cs : List Client) (lib : Library)
    → f a ≡ lib
    → IsOpen cs lib
    → Lasts f cs lib (ok a)
Lasts-now f a cs lib same o = record {
  value = a;
  runs = refl;
  routed = rw same (Routed-refl cs lib o);
}

-- A call from a library that another step has left.
pub Lasts-from :
    {A : Type 0} (f : A → Library) (cs : List Client) (lib mid : Library) (r : Run A)
    (h : Routed cs lib mid)
    → Lasts f h.ds mid r
    → Lasts f cs lib r
Lasts-from f cs lib mid r h p = record {
  value = p.value;
  runs = p.runs;
  routed = Routed-trans cs lib mid (f p.value) h p.routed;
}

pub lookup_missing :
    {A : Type 0} (h : ClientHandle) (cs : List Client) (lib : Library) (refuse : Code → A)
    (next : Client → Run A)
    → IsOpen cs lib
    → find h cs ≡ none
    → lookup_client_info h lib refuse next ≡ ok (refuse err_invalid_handle)
unfolding lookup_client_info
lookup_missing h cs lib refuse next o missing =
    rw (o.there, find_client-find h cs o.sound, missing) refl

pub lookup_found :
    {A : Type 0} (h : ClientHandle) (c : Client) (cs : List Client) (lib : Library)
    (refuse : Code → A) (next : Client → Run A)
    → IsOpen cs lib
    → find h cs ≡ some c
    → lookup_client_info h lib refuse next ≡ next c
unfolding lookup_client_info
lookup_found h c cs lib refuse next o found =
    rw (o.there, find_client-find h cs o.sound, found) refl

pub lookup-Lasts :
    {A : Type 0} (f : A → Library) (h : ClientHandle) (cs : List Client) (lib : Library)
    (refuse : Code → A) (next : Client → Run A)
    → IsOpen cs lib
    → ((ret : Code) → f (refuse ret) ≡ lib)
    → ((c : Client) → find h cs ≡ some c → Lasts f cs lib (next c))
    → Lasts f cs lib (lookup_client_info h lib refuse next)
lookup-Lasts f h cs lib refuse next o same k = elim (Option-cases (find h cs)) [
  | inl missing ↦
      subst (Lasts f cs lib) (sym (lookup_missing h cs lib refuse next o missing))
        (Lasts-now f _ cs lib (same err_invalid_handle) o)
  | inr (c, found) ↦
      subst (Lasts f cs lib) (sym (lookup_found h c cs lib refuse next o found)) (k c found)
]

-- A write that is safe for every client.
pub change_client-Routed :
    (h : ClientHandle) (f : Client → Client) (cs : List Client) (lib : Library)
    → ((c : Client) → IsClient c → IsClient (f c))
    → ((c : Client) → (f c).client_handle ≡ c.client_handle)
    → IsOpen cs lib
    → Routed cs lib (change_client h f lib)
unfolding change_client
change_client-Routed h f cs lib k same o =
    let handles = Writes.keys-update_each handle_of is_equal_clienthandle h f cs same in
    record {
      ds = Map.update handle_of is_equal_clienthandle h f cs;
      is_open = record {
        there = rw o.there refl;
        sound = Writes.update-All_each handle_of is_equal_clienthandle IsClient h f cs k o.sound;
        distinct =
            Writes.Distinct-keys handle_of is_equal_clienthandle cs _ (sym handles) o.distinct;
        leaf = rw o.there o.leaf;
      };
      handles = handles;
      num_components = rw o.there refl;
      enable_callback = rw o.there refl;
    }

-- A write to the client that a lookup gave.
pub change_found-Routed :
    (h : ClientHandle) (f : Client → Client) (c : Client) (cs : List Client) (lib : Library)
    → IsOpen cs lib
    → find h cs ≡ some c
    → IsClient (f c)
    → (f c).client_handle ≡ c.client_handle
    → Routed cs lib (change_client h f lib)
unfolding change_client
change_found-Routed h f c cs lib o found k same = record {
  ds = Map.update handle_of is_equal_clienthandle h f cs;
  is_open = change_client-IsOpen h f c cs lib o found k same;
  handles = Writes.keys-update handle_of is_equal_clienthandle h f cs c found same;
  num_components = rw o.there refl;
  enable_callback = rw o.there refl;
}

matches_callback-append :
    (e : Event) (es : List CallbackEntry) (x : CallbackEntry)
    → matches_callback e es ≡ true
    → matches_callback e (es ++ x ∷ []) ≡ true
unfolding matches_callback
matches_callback-append e [] x h = absurd (ground arith)
matches_callback-append e (y ∷ es) x h = ground (arith, matches_callback-append e es x)

matched_more :
    (es : List CallbackEntry) (x : CallbackEntry) (q : List EventInst)
    → All (λ e. matches_callback e.event_inst es ≡ true) q
    → All (λ e. matches_callback e.event_inst (es ++ x ∷ []) ≡ true) q
matched_more es x [] a = tt
matched_more es x (e ∷ q) a =
    (matches_callback-append e.event_inst es x a.0, matched_more es x q a.1)

pub add_to_callback_map-IsClient :
    (x : CallbackEntry) (c : Client) → IsClient c → IsClient (add_to_callback_map x c)
unfolding add_to_callback_map Map.insert
add_to_callback_map-IsClient x c k =
    elim (Bool-cases (Map.has callback_mask is_equal_event x.mask c.callback_map)) [
      | inl old ↦ record { kept = k.kept; bounded = k.bounded; matched = rw old k.matched }
      | inr new ↦ record {
        kept = k.kept;
        bounded = k.bounded;
        matched = rw new (matched_more c.callback_map x c.callback_event_queue k.matched);
      }
    ]

pub add_to_polling_map-IsClient :
    (event : Event) (c : Client) → IsClient c → IsClient (add_to_polling_map event c)
unfolding add_to_polling_map
add_to_polling_map-IsClient event c k = record {
  kept = k.kept;
  bounded = k.bounded;
  matched = k.matched;
}

module _ (env : Env) where
  enter_subscription-Lasts :
      (t : ℕ) (add : Event → Client → Client) (h : ClientHandle) (id : FtbId) (event : Event)
      (feed : Feed) (cs : List Client) (lib : Library)
      → ((c : Client) → IsClient c → IsClient (add event c))
      → ((c : Client) → (add event c).client_handle ≡ c.client_handle)
      → IsOpen cs lib
      → Lasts third cs lib (enter_subscription env t add h id event feed lib)
  unfolding enter_subscription
  enter_subscription-Lasts t add h id event feed cs lib k same o =
      Lasts-then second third cs lib (check_progress env feed lib) _
        (check_progress-Lasts env feed cs lib o)
        (λ ds p l.
          let changed = change_client-Routed h (add event) ds p.1 k same l in
          Lasts-from third ds p.1 _ _ changed (
            Lasts-then second third changed.ds _ (send_up env _ (change_client h (add event) p.1)) _
              (send_up-Lasts env _ changed.ds _ changed.is_open)
              (λ es r n. Lasts-now third _ es r.1 refl n)))

  pub subscribe-Lasts :
      (t : ℕ) (supports : Client → Bool) (add : Event → Client → Client) (given : Bool)
      (h : ClientHandle) (str : Option Str) (feed : Feed) (cs : List Client) (lib : Library)
      (q : Code × Event)
      → ((e : Event) (c : Client) → IsClient c → IsClient (add e c))
      → ((e : Event) (c : Client) → (add e c).client_handle ≡ c.client_handle)
      → parse_mask str env.garbage.event ≡ ok q
      → IsOpen cs lib
      → Lasts third cs lib (subscribe env t supports add given h str feed lib)
  unfolding subscribe
  subscribe-Lasts t supports add given h str feed cs lib q k same parsed o =
      elim (Bool-cases given) [
        | inr null ↦ rw null (Lasts-now third _ cs lib refl o)
        | inl there ↦ elim (Bool-cases (h.valid == 1)) [
          | inr bad ↦ rw (there, bad) (Lasts-now third _ cs lib refl o)
          | inl good ↦
              rw (there, good)
                (lookup-Lasts third h cs lib _ _ o (λ ret. refl)
                  (λ c found. elim (Bool-cases (supports c)) [
                    | inr lacks ↦ rw lacks (Lasts-now third _ cs lib refl o)
                    | inl able ↦ elim (Bool-cases (is_success q.0)) [
                      | inr wrong ↦ rw (able, parsed, wrong) (Lasts-now third _ cs lib refl o)
                      | inl right ↦
                          rw (able, parsed, right)
                            (enter_subscription-Lasts t add h c.id q.1 feed cs lib (k q.1)
                              (same q.1) o)
                    ]
                  ]))
        ]
      ]
