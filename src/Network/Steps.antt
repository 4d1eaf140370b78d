-- ===== src/Network/Steps.antt =====
-- Sequences of calls of ftb_network_tcp.c on the table of connections.
use ftb.Prelude.{
  ℕ, ◌≡◌, refl, ap, sym, ◌∙◌, Bool, true, List, [], ◌∷◌, Option, none, some, All, arith,
}
use ftb.Defs.{Msg}
use ftb.Network.Table.{
  Connection, Layout, util_read, util_write, Select, select_interrupted, select_failed, ready,
}
use ftb.Network.Grabbing.{
  Socket, Local, Arrival, stranger, broken_off, joined, Grabbed, Poll, new_entry, read_location,
  admit, accept, collect, after_select, grab_messages,
}
use ftb.Network.Sending.{IsFree}
use ftb.Network.Free.{util_read-count, util_write-count, put_first-IsFree, collect-IsFree}

module _ (layout : Layout) (here : Local) where
  pub read_location-count :
      (c d : Connection) (o : Option (List ℕ))
      → read_location layout here c ≡ some (o, d)
      → d.ref_count ≡ c.ref_count
  unfolding read_location
  read_location-count c d o e = by_read (util_read layout.location_size c) refl
    where
      by_read :
          (r : Option (Option (List ℕ) × Connection))
          → util_read layout.location_size c ≡ r
          → d.ref_count ≡ c.ref_count
      by_read none q = absurd (ground (arith, e, q))
      by_read (some (none, x)) q =
          let same : x ≡ d = ground (arith, e, q) in
          ap (λ y. y.ref_count) (sym same) ∙ util_read-count layout.location_size c x none q
      by_read (some (some bs, x)) q =
          let same : x.ref_count ≡ d.ref_count = ground (arith, e, q) in
          sym same ∙ util_read-count layout.location_size c x (some bs) q

  admit-count :
      (c d : Connection) (m : Msg)
      → admit layout here c ≡ some (joined d m)
      → d.ref_count ≡ c.ref_count
  unfolding admit
  admit-count c d m e = by_read (util_read layout.msg_size c) refl
    where
      by_write :
          (x : Connection) (bs : List ℕ)
          → util_read layout.msg_size c ≡ some (some bs, x)
          → (r : Option Connection) → util_write (layout.location_bytes here.my_location_id) x ≡ r
          → d.ref_count ≡ c.ref_count
      by_write x bs q none w = absurd (ground (arith, e, q, w))
      by_write x bs q (some y) w =
          let same : y ≡ d = ground (arith, e, q, w) in
          ap (λ z. z.ref_count) (sym same)
          ∙ util_write-count (layout.location_bytes here.my_location_id) x y w
          ∙ util_read-count layout.msg_size c x (some bs) q

      by_read :
          (r : Option (Option (List ℕ) × Connection))
          → util_read layout.msg_size c ≡ r
          → d.ref_count ≡ c.ref_count
      by_read none q = absurd (ground (arith, e, q))
      by_read (some (none, x)) q = absurd (ground (arith, e, q))
      by_read (some (some bs, x)) q =
          by_write x bs q (util_write (layout.location_bytes here.my_location_id) x) refl

  accept-IsFree :
      (s : Socket) (d : Connection) (m : Msg)
      → accept layout here s ≡ some (joined d m)
      → d.ref_count ≡ 0
  unfolding accept new_entry
  accept-IsFree s d m e = by_id (util_read 4 (new_entry here s)) refl
    where
      by_location :
          (o : Option (List ℕ)) (c : Connection)
          → util_read 4 (new_entry here s) ≡ some (o, c)
          → (r : Option (Option (List ℕ) × Connection)) → read_location layout here c ≡ r
          → d.ref_count ≡ 0
      by_location o c q none l = absurd (ground (arith, e, q, l))
      by_location o c q (some (got, x)) l =
          let joins : admit layout here x ≡ some (joined d m) = ground (arith, e, q, l) in
          admit-count x d m joins
          ∙ read_location-count c x got l
          ∙ util_read-count 4 (new_entry here s) c o q

      by_id :
          (r : Option (Option (List ℕ) × Connection))
          → util_read 4 (new_entry here s) ≡ r
          → d.ref_count ≡ 0
      by_id none q = absurd (ground (arith, e, q))
      by_id (some (o, c)) q = by_location o c q (read_location layout here c) refl

  after_select-IsFree :
      (fds : ℕ → Bool) (accepted : Option Socket) (table : List Connection) (r : Option Grabbed)
      (g : Grabbed)
      → All IsFree table
      → ((h : Grabbed) → r ≡ some h → All IsFree h.table)
      → after_select layout here fds accepted table r ≡ some g
      → All IsFree g.table
  unfolding after_select
  after_select-IsFree fds none table r g a k e = collect-IsFree layout fds table g a e
  after_select-IsFree fds (some s) table r g a k e = by_arrival (accept layout here s) refl
    where
      by_arrival : (x : Option Arrival) → accept layout here s ≡ x → All IsFree g.table
      by_arrival none q = absurd (ground (arith, e, q))
      by_arrival (some stranger) q = k g (ground (arith, e, q))
      by_arrival (some broken_off) q = collect-IsFree layout fds table g a (ground (arith, e, q))
      by_arrival (some (joined c m)) q =
          put_first-IsFree layout (m, c.dst) (collect layout fds (c ∷ table)) g
            (λ h. collect-IsFree layout fds (c ∷ table) h (accept-IsFree s c m q, a))
            (ground (arith, e, q))

  pub grab_messages-IsFree :
      (polls : List Poll) (table : List Connection) (g : Grabbed)
      → All IsFree table
      → grab_messages layout here polls table ≡ some g
      → All IsFree g.table
  unfolding grab_messages
  grab_messages-IsFree [] table g a e = absurd (ground (arith, e))
  grab_messages-IsFree (p ∷ polls) table g a e =
      by_select p.select refl (λ h. grab_messages-IsFree polls table h a)
    where
      by_select :
          (x : Select)
          → p.select ≡ x
          → ((h : Grabbed) → grab_messages layout here polls table ≡ some h → All IsFree h.table)
          → All IsFree g.table
      by_select select_interrupted q k = k g (ground (arith, e, q))
      by_select select_failed q k =
          after_select-IsFree (λ fd. true) p.accepted table _ g a k (ground (arith, e, q))
      by_select (ready fds) q k =
          after_select-IsFree fds p.accepted table _ g a k (ground (arith, e, q))
