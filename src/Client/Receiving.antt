-- ===== src/Client/Receiving.antt =====
-- FTBCI_util_handle_FTBM_msg of src/client_lib/ftb_client_lib.c: where an event goes, and what keeps the
-- clients sound.
use ftb.Prelude.{
  ◌≡◌, ◌≢◌, ◌⊎◌, refl, subst, sym, ◌∙◌, true, false, ◌&&◌, List, [], ◌∷◌, ◌++◌, Option, none, some,
  arith, map, if◌then◌else◌, inl, inr, Bool-cases, Option-cases, ◌==◌, length, drop, All,
  All-append,
}
use ftb.Defs.{ClientHandle, MsgType, notify, client_reg, Msg, Run, ok}
use ftb.Match.{is_equal_clienthandle}
use ftb.Match.Laws.{is_equal_clienthandle-IsEquality}
use ftb.Map
use ftb.Map.Laws
use ftb.Map.Laws.{Distinct}
use ftb.Map.Every
use ftb.Map.Writes
use ftb.Client.Polling.{EventInst, ClientInfo, is_polling, push_to_comp_polling_list}
use ftb.Client.Queueing.{IsBounded, push_to_comp_polling_list-Pushed}
use ftb.Client.Library.{
  Client, Library, is_notified, handle_of, find_client, change_client,
  convert_clientid_to_clienthandle, matches_callback, receive, handle_notify, handle_ftbm_msg,
}

-- A client in use: a bounded polling queue where it polls, and a callback for every event that waits for
-- one.
pub record IsClient (c : Client) : Type 0 where
  pub kept : c.freed ≡ false
  pub bounded : is_polling c.info ≡ true → IsBounded c.info
  pub matched :
      All (λ e. matches_callback e.event_inst c.callback_map ≡ true) c.callback_event_queue

-- The library is open with these clients, over a manager that is a leaf.
pub record IsOpen (cs : List Client) (lib : Library) : Type 0 where
  pub there : lib.clients ≡ some cs
  pub sound : All IsClient cs
  pub distinct : Distinct handle_of is_equal_clienthandle cs
  pub leaf : (lib.manager.leaf == 0) ≡ false

abbrev pub find : ClientHandle → List Client → Option Client
find = Map.find_key handle_of is_equal_clienthandle

-- No node was freed, so the walk is a lookup.
pub find_client-find :
    (h : ClientHandle) (cs : List Client) → All IsClient cs → find_client h cs ≡ ok (find h cs)
unfolding find_client Map.find_key
find_client-find h [] a = refl
find_client-find h (c ∷ cs) a = ground (arith, find_client-find h cs a.1, a.0.kept)

-- How an event reaches a client: its callback queue where a callback matches, else the end of its
-- polling queue, a full one losing its oldest event, and a client with neither drops it.
pub data Reached (e : EventInst) (c left : Client) : Type 0 where
  to_callback :
      (is_notified c.info && matches_callback e.event_inst c.callback_map) ≡ true
      → left ≡ record c { callback_event_queue = c.callback_event_queue ++ e ∷ [] }
      → Reached e c left
  to_queue :
      (info : ClientInfo)
      → (is_notified c.info && matches_callback e.event_inst c.callback_map) ≡ false
      → is_polling c.info ≡ true
      → left ≡ record c { info = info }
      → info.event_queue
        ≡ (if length c.info.event_queue == c.info.max_polling_queue_len
            then drop 1 c.info.event_queue
            else c.info.event_queue)
          ++ e ∷ []
      → Reached e c left
  dropped :
      (is_notified c.info && matches_callback e.event_inst c.callback_map) ≡ false
      → is_polling c.info ≡ false
      → left ≡ c
      → Reached e c left

pub record Received (e : EventInst) (c : Client) : Type 0 where
  pub left : Client
  pub runs : receive e c ≡ ok left
  pub sound : IsClient left
  pub handle : left.client_handle ≡ c.client_handle
  pub reached : Reached e c left

push_drops :
    (e : EventInst) (c : ClientInfo) → is_polling c ≡ false → push_to_comp_polling_list e c ≡ ok c
unfolding push_to_comp_polling_list
push_drops e c h = rw h refl

pub receive-Received : (e : EventInst) (c : Client) → IsClient c → Received e c
unfolding receive
receive-Received e c k =
    elim (Bool-cases (is_notified c.info && matches_callback e.event_inst c.callback_map)) [
      | inl hit ↦ record {
        left = record c { callback_event_queue = c.callback_event_queue ++ e ∷ [] };
        runs = rw hit refl;
        sound = record {
          kept = k.kept;
          bounded = k.bounded;
          matched = All-append _ c.callback_event_queue (e ∷ []) k.matched (ground arith, tt);
        };
        handle = refl;
        reached = to_callback hit refl;
      }
      | inr miss ↦ elim (Bool-cases (is_polling c.info)) [
        | inl polls ↦
            let p = push_to_comp_polling_list-Pushed e c.info (k.bounded polls) polls in
            record {
              left = record c { info = p.left };
              runs = rw (miss, p.runs) refl;
              sound = record { kept = k.kept; bounded = λ _. p.bounded; matched = k.matched };
              handle = refl;
              reached = to_queue p.left miss polls refl p.queue;
            }
        | inr idle ↦ record {
          left = c;
          runs = rw (miss, push_drops e c.info idle) refl;
          sound = k;
          handle = refl;
          reached = dropped miss idle refl;
        }
      ]
    ]

-- A write through the pointer to a client that was found.
pub change_client-IsOpen :
    (h : ClientHandle) (f : Client → Client) (c : Client) (cs : List Client) (lib : Library)
    → IsOpen cs lib
    → find h cs ≡ some c
    → IsClient (f c)
    → (f c).client_handle ≡ c.client_handle
    → IsOpen (Map.update handle_of is_equal_clienthandle h f cs) (change_client h f lib)
unfolding change_client
change_client-IsOpen h f c cs lib o found k same = record {
  there = rw o.there refl;
  sound = Writes.update-All_at handle_of is_equal_clienthandle IsClient h f cs c found k o.sound;
  distinct =
      Writes.Distinct-keys handle_of is_equal_clienthandle cs _
        (sym (Writes.keys-update handle_of is_equal_clienthandle h f cs c found same)) o.distinct;
  leaf = rw o.there o.leaf;
}

-- The client that was found is found by its own handle as well.
pub found_again :
    (h : ClientHandle) (c : Client) (cs : List Client)
    → find h cs ≡ some c
    → find c.client_handle cs ≡ some c
found_again h c cs found =
    Laws.find_key_cong handle_of is_equal_clienthandle is_equal_clienthandle-IsEquality
      c.client_handle h cs
      (Laws.find_key_sound handle_of is_equal_clienthandle is_equal_clienthandle-IsEquality h cs c
        found)
    ∙ found

-- `left` is `lib` with the clients `ds` in the place of `cs`: as many, with the same handles.
pub record Routed (cs : List Client) (lib left : Library) : Type 0 where
  pub ds : List Client
  pub is_open : IsOpen ds left
  pub handles : map handle_of ds ≡ map handle_of cs
  pub num_components : left.num_components ≡ lib.num_components
  pub enable_callback : left.enable_callback ≡ lib.enable_callback

-- What a message does to an open library. One that is no event, or for a client that is not there,
-- does nothing; an event reaches its client, and no other client and nothing else changes.
pub data Handled (m : Msg) (cs : List Client) (lib : Library) (r : Run Library) : Type 0 where
  ignored : m.msg_type ≢ notify → r ≡ ok lib → Handled m cs lib r
  stranger :
      m.msg_type ≡ notify
      → find (convert_clientid_to_clienthandle m.dst.client_id) cs ≡ none
      → r ≡ ok lib
      → Handled m cs lib r
  reached :
      (c left : Client) (ds : List Client)
      → m.msg_type ≡ notify
      → find (convert_clientid_to_clienthandle m.dst.client_id) cs ≡ some c
      → Reached (record { event_inst = m.event; src = m.src }) c left
      → r ≡ ok (record lib { clients = some ds })
      → IsOpen ds (record lib { clients = some ds })
      → map handle_of ds ≡ map handle_of cs
      → ((j : ClientHandle)
          → find j ds ≡ (if is_equal_clienthandle c.client_handle j then some left else find j cs))
      → Handled m cs lib r

handle_notify-Handled :
    (m : Msg) (cs : List Client) (lib : Library)
    → m.msg_type ≡ notify
    → IsOpen cs lib
    → Handled m cs lib (handle_notify m lib)
unfolding handle_notify change_client
handle_notify-Handled m cs lib e o =
    let h = convert_clientid_to_clienthandle m.dst.client_id in
    let walk = find_client-find h cs o.sound in
    elim (Option-cases (find h cs)) [
      | inl missing ↦ stranger e missing (rw (o.there, walk, missing) refl)
      | inr (c, found) ↦
          let k =
            Every.All-find_key handle_of is_equal_clienthandle IsClient h cs c o.sound found in
          let entry : EventInst = record { event_inst = m.event; src = m.src } in
          let q = receive-Received entry c k in
          let again : find c.client_handle cs ≡ some c = found_again h c cs found in
          let ds = Map.update handle_of is_equal_clienthandle c.client_handle (λ _. q.left) cs in
          let opened =
            change_client-IsOpen c.client_handle (λ _. q.left) c cs lib o again q.sound q.handle in
          let this : change_client c.client_handle (λ _. q.left) lib
              ≡ record lib { clients = some ds } =
            rw o.there refl in
          reached c q.left ds e found q.reached (rw (o.there, walk, found, q.runs) refl)
            (subst (IsOpen ds) this opened)
            (Writes.keys-update handle_of is_equal_clienthandle c.client_handle (λ _. q.left) cs c
              again q.handle)
            (λ j.
              Writes.find_key-update_at handle_of is_equal_clienthandle
                is_equal_clienthandle-IsEquality j c.client_handle (λ _. q.left) cs c again
                q.handle)
    ]

event_or_not : (t : MsgType) → (t ≡ notify) ⊎ (t ≢ notify)
event_or_not notify = inl refl
event_or_not client_reg = inr (λ e. cc)
event_or_not t = inr (λ e. cc)

skips :
    (t : MsgType) (m : Msg) (lib : Library)
    → m.msg_type ≡ t
    → t ≢ notify
    → handle_ftbm_msg m lib ≡ ok lib
unfolding handle_ftbm_msg
skips notify m lib e n = absurd (n refl)
skips client_reg m lib e n = rw e refl
skips t m lib e n = rw e refl

-- A message to an open library: one that is no event, or for a client that is not there, does nothing;
-- an event reaches its client: it waits for the callback thread if a callback matches, else it is the
-- last one of the polling queue, a full one losing its oldest event, else it is dropped; no other
-- client and nothing else changes.
pub handle_ftbm_msg-Handled :
    (m : Msg) (cs : List Client) (lib : Library)
    → IsOpen cs lib
    → Handled m cs lib (handle_ftbm_msg m lib)
unfolding handle_ftbm_msg
handle_ftbm_msg-Handled m cs lib o = elim (event_or_not m.msg_type) [
  | inl e ↦
      let same : handle_ftbm_msg m lib ≡ handle_notify m lib = rw e refl in
      subst (Handled m cs lib) (sym same) (handle_notify-Handled m cs lib e o)
  | inr e ↦ ignored e (skips m.msg_type m lib refl e)
]
