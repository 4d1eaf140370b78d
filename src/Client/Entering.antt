-- ===== src/Client/Entering.antt =====
-- FTBC_Connect of src/client_lib/ftb_client_lib.c from the look at the clients on: the handle is taken, the
-- client is entered, or its registration is lost.
use ftb.Prelude.{
  ℕ, ◌+◌, ◌≡◌, refl, ap, subst, sym, ◌∙◌, Bool, true, false, List, [], ◌∷◌, ◌++◌, none, some, arith,
  map, inl, inr, Bool-cases, Option-cases, ◌==◌, All, All-append,
}
use ftb.Defs.{Code, err_dup_call, is_success, ClientHandle, Msg, client_reg, Run, ok, crash}
use ftb.Match.{is_equal_clienthandle}
use ftb.Match.Laws.{is_equal_clienthandle-IsEquality}
use ftb.Map
use ftb.Map.Laws
use ftb.Manager.State.{Manager, Env}
use ftb.Client.Library.{
  Client, Library, Feed, is_notified, handle_of, find_client, lookup_client_info, change_client,
  convert_clientid_to_clienthandle, to_parent, send_up,
}
use ftb.Client.Receiving.{IsClient, IsOpen, find, find_client-find}
use ftb.Client.Progress.{IsOpen-manager, send-leaf, check_progress-Lasts}
use ftb.Client.Connecting.{ClientArgs, say_hello, enter_client, leave_thread}
use ftb.Client.Ends.{opened, Accepted, Connected, twice, entered, lost}

-- The walk over the clients ends at one that was freed, for every handle that none before it has.
find_client_freed :
    (j : ClientHandle) (cs : List Client) (c : Client)
    → All IsClient cs
    → find j cs ≡ none
    → c.freed ≡ true
    → find_client j (cs ++ c ∷ []) ≡ crash
unfolding find_client Map.find_key
find_client_freed j [] c a h freed = rw freed refl
find_client_freed j (d ∷ cs) c a h freed = ground (arith, find_client_freed j cs c a.1, a.0.kept)

update_last :
    (h : ClientHandle) (f : Client → Client) (cs : List Client) (c : Client)
    → find h cs ≡ none
    → is_equal_clienthandle c.client_handle h ≡ true
    → Map.update handle_of is_equal_clienthandle h f (cs ++ c ∷ []) ≡ cs ++ f c ∷ []
unfolding Map.update Map.find_key
update_last h f [] c missing same = rw same refl
update_last h f (d ∷ cs) c missing same = ground (arith, update_last h f cs c)

map-append_one {ℓ κ} :
    {A : Type ℓ} {B : Type κ} (f : A → B) (xs : List A) (x : A)
    → map f (xs ++ x ∷ []) ≡ map f xs ++ f x ∷ []
map-append_one f [] x = refl
map-append_one f (y ∷ xs) x = ap (λ ys. f y ∷ ys) (map-append_one f xs x)

-- The lookup after the last client was freed.
freed_lookup :
    {A : Type 0} (c : Client) (cs : List Client) (lib : Library)
    → All IsClient cs
    → lib.clients ≡ some (cs ++ c ∷ [])
    → find c.client_handle cs ≡ none
    → (j : ClientHandle) (refuse : Code → A) (next : Client → Run A) → find j cs ≡ none
    → lookup_client_info j
        (change_client c.client_handle (λ x. record x { freed = true }) lib)
        refuse
        next
      ≡ crash
unfolding lookup_client_info change_client
freed_lookup c cs lib a there new j refuse next missing =
    let free : Client → Client = λ x. record x { freed = true } in
    let last =
      update_last c.client_handle free cs c new
        (is_equal_clienthandle-IsEquality.is_refl c.client_handle) in
    let walk = find_client_freed j cs (free c) a missing refl in rw (there, last, walk) refl

module _ (env : Env) where
  append-IsOpen :
      (c : Client) (cs : List Client) (lib : Library)
      → IsOpen cs lib
      → IsClient c
      → find c.client_handle cs ≡ none
      → IsOpen (cs ++ c ∷ []) (record lib { clients = some (cs ++ c ∷ []) })
  append-IsOpen c cs lib o k new = record {
    there = refl;
    sound = All-append IsClient cs (c ∷ []) o.sound (k, tt);
    distinct =
        Laws.Distinct-append handle_of is_equal_clienthandle is_equal_clienthandle-IsEquality cs c
          o.distinct (rw new refl);
    leaf = o.leaf;
  }

  say_hello-Connected :
      (given : Bool) (cinfo : ClientArgs) (extension : ℕ) (c : Client) (feed : Feed)
      (cs : List Client) (lib : Library)
      → convert_clientid_to_clienthandle c.id.client_id ≡ c.client_handle
      → Accepted given cinfo extension c.info c.client_handle
      → IsOpen cs lib
      → IsClient c
      → find c.client_handle cs ≡ none
      → (lib.num_components == 0) ≡ false
      → Connected env lib.manager given cinfo extension cs lib
          (say_hello env c feed (record lib { clients = some (cs ++ c ∷ []) }))
  unfolding say_hello send_up change_client
  say_hello-Connected given cinfo extension c feed cs lib named a o k new counted =
      let more : Library = record lib { clients = some (cs ++ c ∷ []) } in
      let msg : Msg =
        to_parent env lib.manager (record env.garbage { src = c.id; msg_type = client_reg }) in
      let (r, sent, leaf) = send-leaf env msg lib.manager o.leaf in
      let mid : Library = record more { manager = r.1 } in
      let o' = IsOpen-manager (cs ++ c ∷ []) more r.1 (append-IsOpen c cs lib o k new) leaf in
      elim (Bool-cases (is_success r.0)) [
        | inl good ↦
            let q = check_progress-Lasts env feed (cs ++ c ∷ []) mid o' in
            entered c.info c.client_handle q.value.1 q.routed.ds a
              (record {
                id = c.id;
                named = named;
                answer = r;
                runs = sent;
                outcome = good;
                code_of_answer = λ e. absurd (ground (arith, e, good));
              })
              (rw (sent, good, q.runs) refl) new
              (opened (ap (λ n. n == 0) q.routed.num_components ∙ counted) q.routed.is_open)
              (q.routed.handles ∙ map-append_one handle_of cs c)
        | inr bad ↦ elim (Bool-cases (is_notified c.info)) [
          | inr alone ↦
              lost c.info r.0 c.client_handle
                (change_client c.client_handle (λ x. record x { freed = true }) mid) a
                (record {
                  id = c.id;
                  named = named;
                  answer = r;
                  runs = sent;
                  outcome = bad;
                  code_of_answer = λ e. refl;
                })
                new (rw (sent, bad, alone) refl) (rw alone refl)
                (λ j refuse next missing.
                  freed_lookup c cs mid o.sound refl new j refuse next missing)
          | inl threaded ↦
              let strayed : Library = record mid { stray_threads = mid.stray_threads + 1 } in
              lost c.info r.0 c.client_handle
                (change_client c.client_handle (λ x. record x { freed = true }) strayed) a
                (record {
                  id = c.id;
                  named = named;
                  answer = r;
                  runs = sent;
                  outcome = bad;
                  code_of_answer = λ e. refl;
                })
                new (rw (sent, bad, threaded) refl) (rw threaded refl)
                (λ j refuse next missing.
                  freed_lookup c cs strayed o.sound refl new j refuse next missing)
        ]
      ]

  pub same-IsOpen :
      (cs : List Client) (lib left : Library)
      → left.clients ≡ lib.clients
      → left.manager ≡ lib.manager
      → IsOpen cs lib
      → IsOpen cs left
  same-IsOpen cs lib left e f o = record {
    there = e ∙ o.there;
    sound = o.sound;
    distinct = o.distinct;
    leaf = ap (λ (m : Manager). m.leaf == 0) f ∙ o.leaf;
  }

  dup_call-Connected :
      (given : Bool) (cinfo : ClientArgs) (extension : ℕ) (c d : Client) (cs : List Client)
      (lib : Library)
      → Accepted given cinfo extension c.info c.client_handle
      → IsOpen cs lib
      → find c.client_handle cs ≡ some d
      → (lib.num_components == 0) ≡ false
      → Connected env lib.manager given cinfo extension cs lib
          (ok (err_dup_call, some c.client_handle, leave_thread env c lib))
  dup_call-Connected given cinfo extension c d cs lib a o old counted =
      elim (Bool-cases (is_notified c.info)) [
        | inr alone ↦
            twice c.info c.client_handle d lib a old (rw alone refl) (opened counted o)
              (rw alone refl)
        | inl threaded ↦
            let left : Library = record lib { stray_threads = lib.stray_threads + 1 } in
            twice c.info c.client_handle d left a old (rw threaded refl)
              (opened counted (same-IsOpen cs lib left refl refl o)) (rw threaded refl)
      ]

  pub enter_client-Connected :
      (given : Bool) (cinfo : ClientArgs) (extension : ℕ) (c : Client) (feed : Feed)
      (cs : List Client) (lib : Library)
      → convert_clientid_to_clienthandle c.id.client_id ≡ c.client_handle
      → Accepted given cinfo extension c.info c.client_handle
      → IsOpen cs lib
      → IsClient c
      → (lib.num_components == 0) ≡ false
      → Connected env lib.manager given cinfo extension cs lib (enter_client env c feed lib)
  unfolding enter_client
  enter_client-Connected given cinfo extension c feed cs lib named a o k counted =
      let walk = find_client-find c.client_handle cs o.sound in
      elim (Option-cases (find c.client_handle cs)) [
        | inr (d, old) ↦
            let this : enter_client env c feed lib
                ≡ ok (err_dup_call, some c.client_handle, leave_thread env c lib) =
              rw (o.there, walk, old) refl in
            subst (Connected env lib.manager given cinfo extension cs lib) (sym this)
              (dup_call-Connected given cinfo extension c d cs lib a o old counted)
        | inl new ↦
            let this : enter_client env c feed lib
                ≡ say_hello env c feed (record lib { clients = some (cs ++ c ∷ []) }) =
              rw (o.there, walk, new) refl in
            subst (Connected env lib.manager given cinfo extension cs lib) (sym this)
              (say_hello-Connected given cinfo extension c feed cs lib named a o k new counted)
      ]
