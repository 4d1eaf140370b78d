-- ===== src/Client/Leaving.antt =====
-- FTBC_Disconnect and FTBC_Unsubscribe of src/client_lib/ftb_client_lib.c.
use ftb.Prelude.{
  ◌-◌, ◌≡◌, refl, ap, ◌∙◌, true, false, Bool, not, ◌&&◌, List, [], ◌∷◌, Option, none, some, All,
  arith, map, inl, inr, Bool-cases, Option-cases, ◌==◌, ltb,
}
use ftb.Defs.{
  Code, success, err_general, err_invalid_handle, is_success, ClientHandle, FtbId, Msg,
  client_dereg, Run, ok,
}
use ftb.Match.{is_equal_clienthandle}
use ftb.Match.Laws.{is_equal_clienthandle-IsEquality}
use ftb.Map
use ftb.Map.Laws
use ftb.Map.Every
use ftb.Manager.State.{Manager, Env}
use ftb.Manager.Lifecycle
use ftb.Manager.Clients
use ftb.Manager.Propagation.{send_msg}
use ftb.Client.Library.{
  CallbackEntry, Client, Library, Feed, is_notified, matches_callback, handle_of, to_parent,
  send_up, take_messages, after_loss, check_progress,
}
use ftb.Client.Polling.{EventInst}
use ftb.Client.Receiving.{IsClient, IsOpen, find}
use ftb.Client.Progress.{IsOpen-manager, send-leaf, check_progress-Lasts}
use ftb.Client.Calls.{lookup_missing, lookup_found}
use ftb.Client.Connecting.{
  ThreadState, in_wait, at_work, all_called, join_callback, remove_client, close_library,
  say_goodbye, disconnect,
}

-- The message of a client that leaves.
abbrev pub goodbye : Env → Client → Library → Msg
goodbye env c lib =
    to_parent env lib.manager (record env.garbage { src = c.id; msg_type = client_dereg })

-- The client has a callback thread, which was past its wait when it was signalled, and is not
-- signalled again.
abbrev pub is_stuck : ThreadState → Client → Bool
is_stuck in_wait c = false
is_stuck (at_work woken) c = is_notified c.info && not woken

-- How a disconnection ends: the handle is invalid, or no client's; the message cannot be sent; the
-- call waits for the client's callback thread for ever; or the client is gone, and the last one
-- counted closes the library and the manager below.
pub data Disconnected (env : Env) (thread : ThreadState) (h : ClientHandle) (cs : List Client)
    (lib : Library) (r : Run (Option (Code × Library))) : Type 0 where
  invalid :
      (h.valid == 1) ≡ false
      → r ≡ ok (some (err_invalid_handle, lib))
      → Disconnected env thread h cs lib r
  unknown :
      (h.valid == 1) ≡ true
      → find h cs ≡ none
      → r ≡ ok (some (err_invalid_handle, lib))
      → Disconnected env thread h cs lib r
  unsent :
      (c : Client) (q : Code × Library)
      → (h.valid == 1) ≡ true
      → find h cs ≡ some c
      → send_up env (goodbye env c lib) lib ≡ ok q
      → is_success q.0 ≡ false
      → r ≡ ok (some q)
      → IsOpen cs q.1
      → Disconnected env thread h cs lib r
  waits :
      (c : Client) (q : Code × Library)
      → (h.valid == 1) ≡ true
      → find h cs ≡ some c
      → send_up env (goodbye env c lib) lib ≡ ok q
      → is_success q.0 ≡ true
      → is_stuck thread c ≡ true
      → r ≡ ok none
      → Disconnected env thread h cs lib r
  gone :
      (c : Client) (q : Code × Library) (left : Library) (ds : List Client)
      → (h.valid == 1) ≡ true
      → find h cs ≡ some c
      → send_up env (goodbye env c lib) lib ≡ ok q
      → is_success q.0 ≡ true
      → is_stuck thread c ≡ false
      → (lib.num_components == 1) ≡ false
      → r ≡ ok (some (success, left))
      → IsOpen ds left
      → map handle_of ds ≡ map handle_of (Map.remove_node handle_of is_equal_clienthandle h cs)
      → left.num_components ≡ lib.num_components - 1
      → Disconnected env thread h cs lib r
  last :
      (c : Client) (q : Code × Library) (left : Library)
      → (h.valid == 1) ≡ true
      → find h cs ≡ some c
      → send_up env (goodbye env c lib) lib ≡ ok q
      → is_success q.0 ≡ true
      → is_stuck thread c ≡ false
      → (lib.num_components == 1) ≡ true
      → r ≡ ok (some (success, left))
      → left.clients ≡ none
      → left.num_components ≡ 0
      → left.manager.initialized ≡ false
      → Disconnected env thread h cs lib r

module _ (env : Env) where
  deregister_leaf :
      (id : FtbId) (s : Manager)
      → (s.leaf == 0) ≡ false
      → (Clients.client_deregister env id s).1 ≡ s
  unfolding Clients.client_deregister
  deregister_leaf id s h = ground arith

  finalize-leaf :
      (s : Manager)
      → (s.leaf == 0) ≡ false
      → (r : Code × Manager) × (Lifecycle.finalize env s ≡ ok r) × (r.1.initialized ≡ false)
  unfolding Lifecycle.finalize send_msg
  finalize-leaf s outer = elim (Bool-cases s.initialized) [
    | inr off ↦ ((success, s), rw off refl, off)
    | inl on ↦
        let stopped : Manager = record s { initialized = false } in
        (
          Lifecycle.finalized env (send_msg env (Lifecycle.leave_msg env stopped) stopped).1,
          rw (on, outer) refl,
          refl,
        )
  ]

  -- A manager that is not initialised gives no message.
  take_messages_down :
      (ms : List Msg) (last_code : Code) (lib : Library)
      → lib.manager.initialized ≡ false
      → take_messages env ms last_code lib ≡ ok (err_general, lib)
  unfolding take_messages Clients.get
  take_messages_down [] last_code lib down = rw down refl
  take_messages_down (m ∷ ms) last_code lib down = rw down refl

  check_progress_down :
      (feed : Feed) (lib : Library)
      → lib.manager.initialized ≡ false
      → (code : Code) × (check_progress env feed lib ≡ ok (code, lib))
  unfolding check_progress after_loss
  check_progress_down feed lib down = elim (Bool-cases (ltb 0 lib.enable_callback)) [
    | inl threaded ↦ (success, rw threaded refl)
    | inr alone ↦ (err_general, rw (alone, take_messages_down feed.msgs feed.last lib down) refl)
  ]

  -- What another client's disconnection leaves.
  record Closed (h : ClientHandle) (cs : List Client) (lib : Library) (r : Run Library)
      : Type 0 where
    left : Library
    runs : r ≡ ok left
    opens : IsOpen (Map.remove_node handle_of is_equal_clienthandle h cs) left
    count : left.num_components ≡ lib.num_components - 1

  close-IsOpen :
      (h : ClientHandle) (c : Client) (cs : List Client) (lib : Library)
      → IsOpen cs lib
      → (lib.num_components == 1) ≡ false
      → (lib.num_components == 0) ≡ false
      → Closed h cs lib (close_library env h c lib)
  unfolding close_library
  close-IsOpen h c cs lib o many some_there =
      let stays : (lib.num_components - 1 == 0) ≡ false = ground arith in
      let same = deregister_leaf c.id lib.manager o.leaf in
      record {
        left = remove_client env h c lib;
        runs = rw stays refl;
        opens = record {
          there = rw o.there refl;
          sound = Every.remove_node-All handle_of is_equal_clienthandle IsClient h cs o.sound;
          distinct =
              Laws.remove_node-Distinct handle_of is_equal_clienthandle
                is_equal_clienthandle-IsEquality h cs o.distinct;
          leaf = ap (λ (m : Manager). m.leaf == 0) same ∙ o.leaf;
        };
        count = refl;
      }

  close_last :
      (h : ClientHandle) (c : Client) (lib : Library)
      → (lib.manager.leaf == 0) ≡ false
      → (lib.num_components == 1) ≡ true
      → (left : Library) × (close_library env h c lib ≡ ok left)
        × (left.clients ≡ none)
        × (left.num_components ≡ 0)
        × (left.manager.initialized ≡ false)
  unfolding close_library
  close_last h c lib leaf one =
      let ends : (lib.num_components - 1 == 0) ≡ true = ground arith in
      let same = deregister_leaf c.id lib.manager leaf in
      let (r, runs, down) =
        finalize-leaf (Clients.client_deregister env c.id lib.manager).1
          (ap (λ (m : Manager). m.leaf == 0) same ∙ leaf) in
      (
        record (remove_client env h c lib) { clients = none; manager = r.1 },
        rw (ends, runs) refl,
        refl,
        ground (arith, one),
        down,
      )

  -- Every event that waits for the callback thread of a client in use has a callback.
  matched-all_called :
      (entries : List CallbackEntry) (es : List EventInst)
      → All (λ e. matches_callback e.event_inst entries ≡ true) es
      → all_called entries es ≡ true
  unfolding all_called
  matched-all_called entries [] a = refl
  matched-all_called entries (e ∷ es) a =
      let rest = matched-all_called entries es a.1 in ground (arith, a.0)

  join_callback-stuck :
      (thread : ThreadState) (c : Client)
      → IsClient c
      → join_callback env thread c ≡ ok (not (is_stuck thread c))
  unfolding join_callback
  join_callback-stuck in_wait c k = ground arith
  join_callback-stuck (at_work true) c k =
      let all = matched-all_called c.callback_map c.callback_event_queue k.matched in ground arith
  join_callback-stuck (at_work false) c k =
      let all = matched-all_called c.callback_map c.callback_event_queue k.matched in ground arith

  say_goodbye-Disconnected :
      (thread : ThreadState) (h : ClientHandle) (c : Client) (feed : Feed) (cs : List Client)
      (lib : Library)
      → IsOpen cs lib
      → (lib.num_components == 0) ≡ false
      → (h.valid == 1) ≡ true
      → find h cs ≡ some c
      → Disconnected env thread h cs lib (say_goodbye env thread h feed lib c)
  unfolding say_goodbye send_up
  say_goodbye-Disconnected thread h c feed cs lib o counted good found =
      let k = Every.All-find_key handle_of is_equal_clienthandle IsClient h cs c o.sound found in
      let joined = join_callback-stuck thread c k in
      let (r, sent, leaf) = send-leaf env (goodbye env c lib) lib.manager o.leaf in
      let mid : Library = record lib { manager = r.1 } in
      let up : send_up env (goodbye env c lib) lib ≡ ok (r.0, mid) = rw sent refl in
      let o' = IsOpen-manager cs lib r.1 o leaf in
      elim (Bool-cases (is_success r.0)) [
        | inr lost ↦ unsent c (r.0, mid) good found up lost (rw (sent, lost) refl) o'
        | inl done ↦ elim (Bool-cases (is_stuck thread c)) [
          | inl stuck ↦
              waits c (r.0, mid) good found up done stuck (rw (sent, done, joined, stuck) refl)
          | inr free ↦ elim (Bool-cases (lib.num_components == 1)) [
            | inl one ↦
                let (goes, closes, none_left, zero_left, down) = close_last h c mid o'.leaf one in
                let (code, q) = check_progress_down feed goes down in
                last c (r.0, mid) goes good found up done free one
                  (rw (sent, done, joined, free, closes, q) refl) none_left zero_left down
            | inr many ↦
                let closes = close-IsOpen h c cs mid o' many counted in
                let p = check_progress-Lasts env feed _ closes.left closes.opens in
                gone c (r.0, mid) p.value.1 p.routed.ds good found up done free many
                  (rw (sent, done, joined, free, closes.runs, p.runs) refl) p.routed.is_open
                  p.routed.handles (p.routed.num_components ∙ closes.count)
          ]
        ]
      ]

  -- A disconnection from an open library refuses a handle that is invalid or no client's, and ends
  -- with the error of a message that cannot be sent, and the clients are those of before then. Else,
  -- if the client has a callback thread that was past its wait when it was signalled, and no later
  -- event signals it, the call never returns. Otherwise it returns with success: the client is gone
  -- and all others are there; or the client was the last one counted, and the library and the manager
  -- below are closed.
  pub disconnect-Disconnected :
      (thread : ThreadState) (h : ClientHandle) (feed : Feed) (cs : List Client) (lib : Library)
      → IsOpen cs lib
      → (lib.num_components == 0) ≡ false
      → Disconnected env thread h cs lib (disconnect env thread h feed lib)
  unfolding disconnect
  disconnect-Disconnected thread h feed cs lib o counted = elim (Bool-cases (h.valid == 1)) [
    | inr bad ↦ invalid bad (rw bad refl)
    | inl good ↦
        let refuse : Code → Option (Code × Library) = λ ret. some (ret, lib) in
        elim (Option-cases (find h cs)) [
          | inl missing ↦ unknown good missing (
              rw good
                (lookup_missing h cs lib refuse (say_goodbye env thread h feed lib) o missing))
          | inr (c, found) ↦
              rw (good, lookup_found h c cs lib refuse (say_goodbye env thread h feed lib) o found)
                (say_goodbye-Disconnected thread h c feed cs lib o counted good found)
        ]
  ]
