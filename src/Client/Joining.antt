-- ===== src/Client/Joining.antt =====
-- FTBC_Connect of src/client_lib/ftb_client_lib.c: every way that it can end.
use ftb.Prelude.{
  ℕ, ◌+◌, ◌≡◌, refl, ap, subst, sym, ◌∙◌, Bool, true, false, List, none, some, arith, inl, inr,
  Bool-cases, Option-cases, ◌==◌, leb, length,
}
use ftb.Defs.{
  success, err_eventspace_format, err_null_pointer, err_subscription_style, err_invalid_value,
  FtbId, Run, ok, crash, max_client_name, max_client_jobid,
}
use ftb.Manager.State.{Manager, Env}
use ftb.Manager.Lifecycle
use ftb.Client.Namespace.{Split, split_namespace}
use ftb.Client.Splitting.{split, split_as, refused, stray, code_of, split_namespace-Outcome}
use ftb.Client.Polling.{ClientInfo, is_polling}
use ftb.Client.Queueing.{IsBounded}
use ftb.Client.Library.{Client, Library, Feed, is_notified, convert_clientid_to_clienthandle}
use ftb.Client.Receiving.{IsClient, IsOpen}
use ftb.Client.Connecting.{
  ClientArgs, style_of, Connection, open_library, client_id_of, new_client, join, connect,
}
use ftb.Client.Ends.{
  IsReady, closed, opened, handle_for, Accepted, no_handle, no_style, no_space, long_name,
  long_jobid, with_stray, Connected, strays, denied, twice, entered, lost,
}
use ftb.Client.Entering.{same-IsOpen, enter_client-Connected}

refused_split :
    (r : Run Split)
    → code_of r ≡ some err_eventspace_format
    → (p : Split) × (r ≡ ok p) × (p.code ≡ err_eventspace_format)
unfolding code_of
refused_split crash e = absurd (ground arith)
refused_split (ok p) e = (p, refl, ground arith)

module _ (env : Env) where
  leaf-init : (s : Manager) → ((Lifecycle.init env 1 s).1.leaf == 0) ≡ false
  unfolding Lifecycle.init Lifecycle.start Lifecycle.prepare Lifecycle.connect_parent
  leaf-init s = ground arith

  open_library-IsReady :
      (cs : List Client) (lib : Library)
      → IsReady cs lib
      → IsOpen cs (open_library env lib) × (((open_library env lib).num_components == 0) ≡ false)
  unfolding open_library
  open_library-IsReady cs lib (closed none_there empty) =
      rw (none_there, empty)
        (record { there = refl; sound = tt; distinct = tt; leaf = leaf-init lib.manager }, refl)
  open_library-IsReady cs lib (opened some_there o) = rw some_there (
    record { there = o.there; sound = o.sound; distinct = o.distinct; leaf = o.leaf },
    ground arith,
  )

  style-IsBounded :
      (cinfo : ClientArgs) (info : ClientInfo)
      → style_of cinfo ≡ some info
      → is_polling info ≡ true
      → IsBounded info
  unfolding style_of
  style-IsBounded cinfo info h polls = record {
    size = ground arith;
    bound = ground arith;
    room = ground arith;
  }

  -- `enable_callback` does not matter to the ends of a connection, nor do the fields that
  -- FTBM_Init writes.
  Connected-from :
      (m : Manager) (given : Bool) (cinfo : ClientArgs) (extension : ℕ) (cs : List Client)
      (lib more : Library) (r : Run Connection)
      → more.stray_threads ≡ lib.stray_threads
      → Connected env m given cinfo extension cs more r
      → Connected env m given cinfo extension cs lib r
  Connected-from m given cinfo extension cs lib more r e (strays g s p) = strays g s p
  Connected-from m given cinfo extension cs lib more r e (denied code h left f p k n) =
      denied code h left f p k (n ∙ e)
  Connected-from m given cinfo extension cs lib more r e (twice info h c left a f p k n) =
      twice info h c left a f p k (n ∙ ap (with_stray info) e)
  Connected-from m given cinfo extension cs lib more r e (entered info h left ds a g p f k hs) =
      entered info h left ds a g p f k hs
  Connected-from m given cinfo extension cs lib more r e (lost info code h left a b f p n l) =
      lost info code h left a b f p (n ∙ ap (with_stray info) e) l

  join-Connected :
      (given : Bool) (cinfo : ClientArgs) (extension : ℕ) (info : ClientInfo) (id : FtbId)
      (feed : Feed) (cs : List Client) (lib : Library)
      → given ≡ true
      → style_of cinfo ≡ some info
      → (p : Split) → split_namespace cinfo.event_space ≡ ok p
      → p.code ≡ success
      → convert_clientid_to_clienthandle id.client_id ≡ handle_for cinfo extension p
      → IsOpen cs lib
      → (lib.num_components == 0) ≡ false
      → Connected env lib.manager given cinfo extension cs lib (join env cinfo info id feed lib)
  unfolding join new_client convert_clientid_to_clienthandle
  join-Connected given cinfo extension info id feed cs lib there style p split_up fine named o
        counted =
      let c = new_client env cinfo info id in
      let sound : IsClient c = record {
        kept = refl;
        bounded = style-IsBounded cinfo info style;
        matched = tt;
      } in
      elim (Bool-cases (leb max_client_name (length cinfo.client_name))) [
        | inl long ↦
            denied err_invalid_value none lib (long_name there (ground (arith, long)) refl)
              (rw long refl) (opened counted o) refl
        | inr fits ↦ elim (Bool-cases (leb max_client_jobid (length cinfo.client_jobid))) [
          | inl long ↦
              denied err_invalid_value (some c.client_handle) lib
                (long_jobid there (ground (arith, fits)) (ground (arith, long)) refl)
                (rw (fits, long) refl) (opened counted o) refl
          | inr short ↦
              let a : Accepted given cinfo extension info c.client_handle = record {
                handle_given = there;
                style = style;
                parts = p;
                space = split_up;
                valid_space = fine;
                name_fits = ground (arith, fits);
                jobid_fits = ground (arith, short);
                handle = named;
              } in
              elim (Bool-cases (is_notified info)) [
                | inr alone ↦
                    rw (fits, short, alone)
                      (enter_client-Connected env given cinfo extension c feed cs lib refl a o sound
                        counted)
                | inl threaded ↦
                    let more : Library = record lib { enable_callback = lib.enable_callback + 1 } in
                    rw (fits, short, threaded)
                      (Connected-from lib.manager given cinfo extension cs lib more _ refl (
                        enter_client-Connected env given cinfo extension c feed cs more refl a
                          (same-IsOpen env cs lib more refl refl o) sound counted))
              ]
        ]
      ]

  open_library-stray : (lib : Library) → (open_library env lib).stray_threads ≡ lib.stray_threads
  unfolding open_library
  open_library-stray lib = ground arith

  -- A call of FTBC_Connect on a library that takes calls follows a null pointer for an event space
  -- with too few pieces; it is refused for one of five reasons, each with its code, and the library
  -- takes calls with the clients of before; it is refused because a client has the handle; the client
  -- is entered behind the others, under a handle of its own names that none of them has, and its
  -- registration is sent; or the registration cannot be sent, its code is returned, and every later
  -- lookup of a handle that none of the others has reads freed memory. In the third case and the last
  -- one the callback thread of a notified client runs on freed memory.
  pub connect-Connected :
      (given : Bool) (cinfo : ClientArgs) (extension : ℕ) (feed : Feed) (cs : List Client)
      (lib : Library)
      → IsReady cs lib
      → Connected env
          (open_library env lib).manager
          given
          cinfo
          extension
          cs
          lib
          (connect env given cinfo extension feed lib)
  unfolding connect code_of client_id_of convert_clientid_to_clienthandle
  connect-Connected given cinfo extension feed cs lib k = elim (Bool-cases given) [
    | inr null ↦ denied err_null_pointer none lib (no_handle null refl) (rw null refl) k refl
    | inl there ↦ elim (Option-cases (style_of cinfo)) [
      | inl unknown ↦
          denied err_subscription_style none lib (no_style there unknown refl)
            (rw (there, unknown) refl) k refl
      | inr (info, style) ↦ elim (split_namespace-Outcome cinfo.event_space) [
        | stray fits t e ↦ strays there t (rw (there, style, e) refl)
        | refused e ↦
            let (p, ran, bad) = refused_split (split_namespace cinfo.event_space) e in
            denied err_eventspace_format none lib (no_space there e refl)
              (rw (there, style, ran, bad) refl) k refl
        | split x y z n e ↦
            let (o, counted) = open_library-IsReady cs lib k in
            let this : connect env given cinfo extension feed lib
                ≡ join env cinfo info
                    (client_id_of env cinfo extension (split_as x y z)
                      (open_library env lib).manager)
                    feed (open_library env lib) =
              rw (there, style, e) refl in
            subst (Connected env (open_library env lib).manager given cinfo extension cs lib)
              (sym this)
              (Connected-from (open_library env lib).manager given cinfo extension cs lib
                (open_library env lib) _ (open_library-stray lib)
                (join-Connected given cinfo extension info
                  (client_id_of env cinfo extension (split_as x y z) (open_library env lib).manager)
                  feed cs (open_library env lib) there style (split_as x y z) e refl refl o
                  counted))
      ]
    ]
  ]
