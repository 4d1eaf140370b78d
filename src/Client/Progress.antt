-- ===== src/Client/Progress.antt =====
-- FTBCI_Check_progress and FTBCI_util_reconnect of src/client_lib/ftb_client_lib.c keep an open library
-- open, whatever the network brings.
use ftb.Prelude.{
  ◌≡◌, refl, ap, subst, sym, ◌∙◌, false, List, [], ◌∷◌, some, arith, if◌then◌else◌, inl, inr,
  Bool-cases, ◌==◌, ltb, All,
}
use ftb.Defs.{
  Code, success, err_general, err_network_general, is_success, Event, Msg, Run, ok, ◌>>=◌,
}
use ftb.Match.{is_equal_location_id}
use ftb.Manager.State.{Manager, Env}
use ftb.Manager.Propagation.{send_msg}
use ftb.Manager.Lifecycle
use ftb.Manager.Clients
use ftb.Client.Library.{
  Client, Library, Feed, handle_ftbm_msg, send_up, send_subscriptions, callback_masks,
  register_again, reconnect, take_messages, after_loss, check_progress,
}
use ftb.Client.Receiving.{
  IsClient, IsOpen, Routed, ignored, stranger, reached, handle_ftbm_msg-Handled,
}

-- A call without a crash, with a library that is open with clients of the same handles.
pub record Lasts {A : Type 0} (lib_of : A → Library) (cs : List Client) (lib : Library) (r : Run A)
    : Type 0 where
  pub value : A
  pub runs : r ≡ ok value
  pub routed : Routed cs lib (lib_of value)

abbrev pub itself : Library → Library
itself lib = lib

abbrev pub second : {A : Type 0} → A × Library → Library
second r = r.1

pub Routed-refl : (cs : List Client) (lib : Library) → IsOpen cs lib → Routed cs lib lib
Routed-refl cs lib o = record {
  ds = cs;
  is_open = o;
  handles = refl;
  num_components = refl;
  enable_callback = refl;
}

pub Routed-trans :
    (cs : List Client) (lib mid left : Library) (h : Routed cs lib mid)
    → Routed h.ds mid left
    → Routed cs lib left
Routed-trans cs lib mid left h k = record {
  ds = k.ds;
  is_open = k.is_open;
  handles = k.handles ∙ h.handles;
  num_components = k.num_components ∙ h.num_components;
  enable_callback = k.enable_callback ∙ h.enable_callback;
}

-- Another leaf below.
pub IsOpen-manager :
    (cs : List Client) (lib : Library) (s : Manager)
    → IsOpen cs lib
    → s.leaf ≡ lib.manager.leaf
    → IsOpen cs (record lib { manager = s })
IsOpen-manager cs lib s o h = record {
  there = o.there;
  sound = o.sound;
  distinct = o.distinct;
  leaf = ap (λ n. n == 0) h ∙ o.leaf;
}

Routed-manager :
    (cs : List Client) (lib : Library) (s : Manager)
    → IsOpen cs lib
    → s.leaf ≡ lib.manager.leaf
    → Routed cs lib (record lib { manager = s })
Routed-manager cs lib s o h = record {
  ds = cs;
  is_open = IsOpen-manager cs lib s o h;
  handles = refl;
  num_components = refl;
  enable_callback = refl;
}

Routed-below :
    (cs : List Client) (lib : Library) (s : Manager) (left : Library)
    → Routed cs (record lib { manager = s }) left
    → Routed cs lib left
Routed-below cs lib s left h = record {
  ds = h.ds;
  is_open = h.is_open;
  handles = h.handles;
  num_components = h.num_components;
  enable_callback = h.enable_callback;
}

-- A call from a library over another leaf.
pub Lasts-below :
    {A : Type 0} (f : A → Library) (cs : List Client) (lib : Library) (s : Manager) (r : Run A)
    → Lasts f cs (record lib { manager = s }) r
    → Lasts f cs lib r
Lasts-below f cs lib s r h = record {
  value = h.value;
  runs = h.runs;
  routed = Routed-below cs lib s (f h.value) h.routed;
}

-- One call, then what follows it.
pub Lasts-then :
    {A B : Type 0} (f : A → Library) (g : B → Library) (cs : List Client) (lib : Library)
    (r : Run A) (next : A → Run B)
    → Lasts f cs lib r
    → ((ds : List Client) (a : A) → IsOpen ds (f a) → Lasts g ds (f a) (next a))
    → Lasts g cs lib (r >>= next)
Lasts-then f g cs lib r next h k =
    let p = k h.routed.ds h.value h.routed.is_open in
    record {
      value = p.value;
      runs = rw h.runs p.runs;
      routed = Routed-trans cs lib (f h.value) (g p.value) h.routed p.routed;
    }

module _ (env : Env) where
  leaf-reconnect : (s : Manager) → (s.leaf == 0) ≡ false → (Lifecycle.reconnect env s).leaf ≡ s.leaf
  unfolding Lifecycle.reconnect Lifecycle.connect_parent Lifecycle.rejoin
  leaf-reconnect s h = ground arith

  leaf-get :
      (ret : Code) (s : Manager) → (s.leaf == 0) ≡ false → (Clients.get env ret s).1.leaf ≡ s.leaf
  unfolding Clients.get
  leaf-get ret s h = ground (arith, leaf-reconnect s h)

  -- A leaf sends without a crash, whatever comes of the message.
  pub send-leaf :
      (m : Msg) (s : Manager)
      → (s.leaf == 0) ≡ false
      → (r : Code × Manager) × (Clients.send env m s ≡ ok r) × (r.1.leaf ≡ s.leaf)
  unfolding Clients.send Clients.after_loss send_msg
  send-leaf m s h = elim (Bool-cases s.initialized) [
    | inr off ↦ ((err_general, s), ground arith, refl)
    | inl on ↦
        let q = send_msg env m s in
        elim (Bool-cases (is_success q.0)) [
          | inl good ↦ (q, ground arith, refl)
          | inr lost ↦
              let again = leaf-reconnect q.1 h in
              (
                (
                  q.0,
                  if is_equal_location_id q.1.parent m.dst.location_id
                      then Lifecycle.reconnect env q.1
                      else q.1,
                ),
                ground arith,
                ground arith,
              )
        ]
  ]

  pub send_up-Lasts :
      (m : Msg) (cs : List Client) (lib : Library)
      → IsOpen cs lib
      → Lasts second cs lib (send_up env m lib)
  unfolding send_up
  send_up-Lasts m cs lib o =
      let (r, sent, leaf) = send-leaf m lib.manager o.leaf in
      record {
        value = (r.0, record lib { manager = r.1 });
        runs = rw sent refl;
        routed = Routed-manager cs lib r.1 o leaf;
      }

  handle_ftbm_msg-Lasts :
      (m : Msg) (cs : List Client) (lib : Library)
      → IsOpen cs lib
      → Lasts itself cs lib (handle_ftbm_msg m lib)
  handle_ftbm_msg-Lasts m cs lib o = elim (handle_ftbm_msg-Handled m cs lib o) [
    | ignored n e ↦ record { value = lib; runs = e; routed = Routed-refl cs lib o }
    | stranger y n e ↦ record { value = lib; runs = e; routed = Routed-refl cs lib o }
    | reached c left ds y found way e opened handles finds ↦ record {
      value = record lib { clients = some ds };
      runs = e;
      routed = record {
        ds = ds;
        is_open = opened;
        handles = handles;
        num_components = refl;
        enable_callback = refl;
      };
    }
  ]

  take_messages-Lasts :
      (ms : List Msg) (last : Code) (cs : List Client) (lib : Library)
      → IsOpen cs lib
      → Lasts second cs lib (take_messages env ms last lib)
  unfolding take_messages
  take_messages-Lasts [] last cs lib o = record {
    value = (
      (Clients.get env last lib.manager).0,
      record lib { manager = (Clients.get env last lib.manager).1 },
    );
    runs = refl;
    routed = Routed-manager cs lib _ o (leaf-get last lib.manager o.leaf);
  }
  take_messages-Lasts (m ∷ ms) last cs lib o =
      let q = Clients.get env success lib.manager in
      let got : Library = record lib { manager = q.1 } in
      let leaf = leaf-get success lib.manager o.leaf in
      elim (Bool-cases (is_success q.0)) [
        | inr off ↦ record {
          value = (q.0, got);
          runs = rw off refl;
          routed = Routed-manager cs lib q.1 o leaf;
        }
        | inl on ↦
            let h = handle_ftbm_msg-Lasts m cs got (IsOpen-manager cs lib q.1 o leaf) in
            let p = take_messages-Lasts ms last h.routed.ds h.value h.routed.is_open in
            record {
              value = p.value;
              runs = rw (on, h.runs) p.runs;
              routed =
                  Routed-below cs lib q.1 p.value.1
                    (Routed-trans cs got h.value p.value.1 h.routed p.routed);
            }
      ]

  send_subscriptions-Lasts :
      (masks : List Event) (m : Msg) (cs : List Client) (lib : Library)
      → IsOpen cs lib
      → Lasts second cs lib (send_subscriptions env masks m lib)
  unfolding send_subscriptions
  send_subscriptions-Lasts [] m cs lib o = record {
    value = (m, lib);
    runs = refl;
    routed = Routed-refl cs lib o;
  }
  send_subscriptions-Lasts (mask ∷ masks) m cs lib o =
      let sent : Msg = record m { event = mask } in
      Lasts-then second second cs lib (send_up env sent lib) _ (send_up-Lasts sent cs lib o)
        (λ ds r k. send_subscriptions-Lasts masks sent ds r.1 k)

  -- The clients that the loop walks over are not freed; it changes none of them.
  register_again-Lasts :
      (cs : List Client) (m : Msg) (all : List Client) (lib : Library)
      → All IsClient cs
      → IsOpen all lib
      → Lasts itself all lib (register_again env cs m lib)
  unfolding register_again
  register_again-Lasts [] m all lib a o = record {
    value = lib;
    runs = refl;
    routed = Routed-refl all lib o;
  }
  register_again-Lasts (c ∷ cs) m all lib a o = rw (a.0.kept) (
      Lasts-then second itself all lib (send_up env _ lib) _ (send_up-Lasts _ all lib o) (λ ds r k.
        Lasts-then second itself ds r.1 _ _ (send_subscriptions-Lasts c.polling_map _ ds r.1 k)
          (λ es q l.
            Lasts-then second itself es q.1 _ _
              (send_subscriptions-Lasts (callback_masks env c.callback_map) q.0 es q.1 l)
              (λ fs p n. register_again-Lasts cs p.0 fs p.1 a.1 n))))

  reconnect-Lasts :
      (cs : List Client) (lib : Library) → IsOpen cs lib → Lasts itself cs lib (reconnect env lib)
  unfolding reconnect
  reconnect-Lasts cs lib o =
      let same : reconnect env lib ≡ register_again env cs env.garbage lib = rw o.there refl in
      subst (Lasts itself cs lib) (sym same) (register_again-Lasts cs env.garbage cs lib o.sound o)

  after_loss-Lasts :
      (ret : Code) (cs : List Client) (lib : Library)
      → IsOpen cs lib
      → Lasts itself cs lib (after_loss env ret lib)
  unfolding after_loss
  after_loss-Lasts err_network_general cs lib o = reconnect-Lasts cs lib o
  after_loss-Lasts success cs lib o = record {
    value = lib;
    runs = refl;
    routed = Routed-refl cs lib o;
  }
  after_loss-Lasts _ cs lib o = record { value = lib; runs = refl; routed = Routed-refl cs lib o }

  -- Whatever messages arrive, and however the network fails, FTBCI_Check_progress does not crash, and leaves
  -- an open library open, with clients of the same handles.
  pub check_progress-Lasts :
      (feed : Feed) (cs : List Client) (lib : Library)
      → IsOpen cs lib
      → Lasts second cs lib (check_progress env feed lib)
  unfolding check_progress
  check_progress-Lasts feed cs lib o = elim (Bool-cases (ltb 0 lib.enable_callback)) [
    | inl threaded ↦ record {
      value = (success, lib);
      runs = rw threaded refl;
      routed = Routed-refl cs lib o;
    }
    | inr alone ↦ rw alone (
        Lasts-then second second cs lib (take_messages env feed.msgs feed.last lib) _
          (take_messages-Lasts feed.msgs feed.last cs lib o)
          (λ ds r k.
            Lasts-then itself second ds r.1 (after_loss env r.0 r.1) _
              (after_loss-Lasts r.0 ds r.1 k)
              (λ es left l. record {
                value = (r.0, left);
                runs = refl;
                routed = Routed-refl es left l;
              })))
  ]
