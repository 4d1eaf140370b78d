-- ===== src/Client/Resending.antt =====
-- FTBCI_util_reconnect of src/client_lib/ftb_client_lib.c: what the new parent is told.
use ftb.Prelude.{
  ◌≡◌, refl, ap, sym, ◌∙◌, true, false, List, [], ◌∷◌, ◌++◌, map, Option, none, some, All, arith,
}
use ftb.Defs.{
  Code, is_success, Event, FtbId, LocationId, Msg, MsgType, client_reg, reg_subscription, Run, ok,
}
use ftb.Manager.State.{Env, Action}
use ftb.Manager.Propagation.{send_msg}
use ftb.Manager.Lifecycle.{get_parent_location_id}
use ftb.Manager.Clients
use ftb.Client.Library.{
  CallbackEntry, Client, Library, send_up, send_subscriptions, callback_masks, to_parent,
  register_again, reconnect,
}

-- What the other side sees of a message: who says what to whom, and the mask of a subscription.
pub record Report : Type 0 where
  pub kind : MsgType
  pub src : FtbId
  pub location : LocationId
  pub mask : Option Event

abbrev mask_of : MsgType → Event → Option Event
mask_of reg_subscription event = some event
mask_of _ event = none

abbrev pub report : Msg → Report
report m = record {
  kind = m.msg_type;
  src = m.src;
  location = m.dst.location_id;
  mask = mask_of m.msg_type m.event;
}

abbrev subscription : FtbId → LocationId → Event → Report
subscription id parent mask = record {
  kind = reg_subscription;
  src = id;
  location = parent;
  mask = some mask;
}

-- A registration of each client, and then each of its subscriptions.
abbrev pub announcements : LocationId → List Client → List Report
announcements parent [] = []
announcements parent (c ∷ cs) =
    record { kind = client_reg; src = c.id; location = parent; mask = none }
    ∷ (map (subscription c.id parent) c.polling_map
        ++ (map (subscription c.id parent) (map (λ e. e.mask) c.callback_map)
            ++ announcements parent cs))

-- The library after these messages, the first one first, were sent.
abbrev pub after_sending : List Msg → Library → Library
after_sending [] lib = lib
after_sending (m ∷ ms) lib =
    after_sending ms
      (record lib { manager = record (lib.manager) { log = Action.send m ∷ lib.manager.log } })

abbrev IsKept : Client → Type 0
IsKept c = c.freed ≡ false

-- The messages of the loop over the clients.
pub record Announced (parent : LocationId) (cs : List Client) (lib : Library) (r : Run Library)
    : Type 0 where
  pub sent : List Msg
  pub runs : r ≡ ok (after_sending sent lib)
  pub reports : map report sent ≡ announcements parent cs

module _ (env : Env)
    (served : (log : List Action) (m : Msg) → is_success (env.send_result log m) ≡ true) where
  send_up-served :
      (m : Msg) (lib : Library)
      → lib.manager.initialized ≡ true
      → (code : Code) × (send_up env m lib ≡ ok (code, after_sending (m ∷ []) lib))
  unfolding send_up Clients.send send_msg
  send_up-served m lib on =
      (env.send_result lib.manager.log m, ground (arith, on, served lib.manager.log m))

  -- The messages of a loop over masks, and the local variable after it.
  record Subscribed (id : FtbId) (parent : LocationId) (masks : List Event) (msg : Msg)
      (lib : Library) : Type 0 where
    sent : List Msg
    last : Msg
    runs : send_subscriptions env masks msg lib ≡ ok (last, after_sending sent lib)
    reports : map report sent ≡ map (subscription id parent) masks
    kind : last.msg_type ≡ reg_subscription
    src : last.src ≡ id
    location : last.dst.location_id ≡ parent

  send_subscriptions-Subscribed :
      (id : FtbId) (parent : LocationId) (masks : List Event) (msg : Msg) (lib : Library)
      → lib.manager.initialized ≡ true
      → msg.msg_type ≡ reg_subscription
      → msg.src ≡ id
      → msg.dst.location_id ≡ parent
      → Subscribed id parent masks msg lib
  unfolding send_subscriptions
  send_subscriptions-Subscribed id parent [] msg lib on kind src location = record {
    sent = [];
    last = msg;
    runs = refl;
    reports = refl;
    kind = kind;
    src = src;
    location = location;
  }
  send_subscriptions-Subscribed id parent (mask ∷ masks) msg lib on kind src location =
      let sent : Msg = record msg { event = mask } in
      let (code, first) = send_up-served sent lib on in
      let rest =
        send_subscriptions-Subscribed id parent masks sent (after_sending (sent ∷ []) lib) on kind
          src location in
      record {
        sent = sent ∷ rest.sent;
        last = rest.last;
        runs = rw first rest.runs;
        reports = ground (arith, kind, src, location, rest.reports);
        kind = rest.kind;
        src = rest.src;
        location = rest.location;
      }

  callback_masks-map : (es : List CallbackEntry) → callback_masks env es ≡ map (λ e. e.mask) es
  callback_masks-map [] = refl
  callback_masks-map (e ∷ es) = ap (λ l. e.mask ∷ l) (callback_masks-map es)

  after_sending-append :
      (xs ys : List Msg) (lib : Library)
      → after_sending (xs ++ ys) lib ≡ after_sending ys (after_sending xs lib)
  after_sending-append [] ys lib = refl
  after_sending-append (x ∷ xs) ys lib = after_sending-append xs ys (after_sending (x ∷ []) lib)

  after_sending-parent :
      (xs : List Msg) (lib : Library)
      → ((after_sending xs lib).manager.initialized ≡ lib.manager.initialized)
        × ((after_sending xs lib).manager.parent ≡ lib.manager.parent)
        × ((after_sending xs lib).clients ≡ lib.clients)
  after_sending-parent [] lib = (refl, refl, refl)
  after_sending-parent (x ∷ xs) lib = after_sending-parent xs (after_sending (x ∷ []) lib)

  map-append : (xs ys : List Msg) → map report (xs ++ ys) ≡ map report xs ++ map report ys
  map-append [] ys = refl
  map-append (x ∷ xs) ys = ap (λ l. report x ∷ l) (map-append xs ys)

  register_again-Announced :
      (parent : LocationId) (cs : List Client) (msg : Msg) (lib : Library)
      → lib.manager.initialized ≡ true
      → lib.manager.parent ≡ parent
      → All IsKept cs
      → Announced parent cs lib (register_again env cs msg lib)
  unfolding register_again get_parent_location_id
  register_again-Announced parent [] msg lib on there kept = record {
    sent = [];
    runs = refl;
    reports = refl;
  }
  register_again-Announced parent (c ∷ cs) msg lib on there kept =
      let hello : Msg = record msg {
        src = c.id;
        msg_type = client_reg;
        dst = record (msg.dst) { location_id = parent };
      } in
      let greeting : to_parent env lib.manager (record msg { src = c.id; msg_type = client_reg })
          ≡ hello =
        ground (arith, on, there) in
      let (code, first) = send_up-served hello lib on in
      let lib1 : Library = after_sending (hello ∷ []) lib in
      let polled =
        send_subscriptions-Subscribed c.id parent c.polling_map
          (record hello { msg_type = reg_subscription }) lib1 on refl refl refl in
      let lib2 : Library = after_sending polled.sent lib1 in
      let (on2, there2, _) = after_sending-parent polled.sent lib1 in
      let called =
        send_subscriptions-Subscribed c.id parent (callback_masks env c.callback_map) polled.last
          lib2 (on2 ∙ on) polled.kind polled.src polled.location in
      let lib3 : Library = after_sending called.sent lib2 in
      let (on3, there3, _) = after_sending-parent called.sent lib2 in
      let rest =
        register_again-Announced parent cs called.last lib3 (on3 ∙ on2 ∙ on)
          (there3 ∙ there2 ∙ there) kept.1 in
      record {
        sent = hello ∷ (polled.sent ++ (called.sent ++ rest.sent));
        runs =
            ground (arith, kept.0, greeting, first, polled.runs, called.runs, rest.runs)
            ∙ ap (λ (l : Library). let r : Run Library = ok l in r)
                (sym (after_sending-append called.sent rest.sent lib2)
                  ∙ sym (after_sending-append polled.sent (called.sent ++ rest.sent) lib1));
        reports =
            ap (λ l. report hello ∷ l)
              (map-append polled.sent (called.sent ++ rest.sent)
                ∙ ap (λ l. map report polled.sent ++ l) (map-append called.sent rest.sent)
                ∙ rw
                    (
                      polled.reports,
                      called.reports,
                      rest.reports,
                      callback_masks-map c.callback_map,
                    )
                    refl);
      }

  -- While the network serves every message, FTBCI_util_reconnect of a library over an initialised manager
  -- tells the parent of every client, in the order of the map, that it registers, and then each of its
  -- polling masks and of its callback masks; it sends nothing else and changes nothing else.
  pub reconnect-Announced :
      (cs : List Client) (lib : Library)
      → lib.clients ≡ some cs
      → lib.manager.initialized ≡ true
      → All IsKept cs
      → Announced lib.manager.parent cs lib (reconnect env lib)
  unfolding reconnect
  reconnect-Announced cs lib there on kept =
      let k = register_again-Announced lib.manager.parent cs env.garbage lib on refl kept in
      record { sent = k.sent; runs = ground (arith, there, k.runs); reports = k.reports }
