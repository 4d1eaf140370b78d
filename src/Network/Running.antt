-- ===== src/Network/Running.antt =====
-- Any sequence of calls of ftb_network_tcp.c on the table of connections, as a step relation, and what
-- holds after it.
use ftb.Prelude.{
  ℕ, ◌≡◌, refl, ap, sym, subst, ◌∙◌, Bool, true, List, [], ◌∷◌, Option, none, some, All, arith, inl,
  inr, ◌⊎◌, Bool-cases, Option-cases,
}
use ftb.Defs.{Code, success, err_invalid_parameter, LocationId, Msg}
use ftb.Network.Table.{
  Connection, Layout, Received, util_write, find_connection_to_location, put_connection,
  disconnect_peer, Select, send_msg, recv_msg,
}
use ftb.Network.Grabbing.{
  Local, Grabbed, Poll, Dialled, no_socket, no_host, no_option, no_answer, connected, new_entry,
  read_location, grab_messages, handshake, connect_to,
}
use ftb.Network.Sending.{IsFree, find_connection-All}
use ftb.Network.Free.{remove_connection-All, util_write-count, send_msg-IsFree, recv_rounds-IsFree}
use ftb.Network.Steps.{read_location-count, grab_messages-IsFree}

-- A call on the table that returns.
pub data Step (layout : Layout) (here : Local) : List Connection → List Connection → Type 0 where
  sending :
      (m : Msg) (code : Code) (table left : List Connection)
      → send_msg layout m table ≡ some (code, left)
      → Step layout here table left
  receiving :
      (blocking : Bool) (selects : List Select) (code : Code) (o : Received)
      (table left : List Connection)
      → recv_msg layout true blocking selects table ≡ some (code, o, left)
      → Step layout here table left
  grabbing :
      (polls : List Poll) (g : Grabbed) (table : List Connection)
      → grab_messages layout here polls table ≡ some g
      → Step layout here table g.table
  connecting :
      (reg_msg : Msg) (dialled : Dialled) (code : Code) (l : Option LocationId)
      (table left : List Connection)
      → connect_to layout here reg_msg dialled table ≡ some (code, l, left)
      → Step layout here table left
  disconnecting :
      (l : LocationId) (code : Code) (table left : List Connection)
      → disconnect_peer l table ≡ some (code, left)
      → Step layout here table left

-- The tables that calls lead to from the one that FTBN_Init makes.
pub data Reachable (layout : Layout) (here : Local) : List Connection → Type 0 where
  start : Reachable layout here []
  step :
      (table left : List Connection)
      → Reachable layout here table
      → Step layout here table left
      → Reachable layout here left

module _ (layout : Layout) (here : Local) where
  handshake-count :
      (m : Msg) (c d : Connection) → handshake layout here m c ≡ some d → d.ref_count ≡ c.ref_count
  unfolding handshake
  handshake-count m c d e = by_first (util_write here.id_bytes c) refl
    where
      by_answer :
          (x y z : Connection)
          → util_write here.id_bytes c ≡ some x
          → util_write (layout.location_bytes here.my_location_id) x ≡ some y
          → util_write (layout.msg_bytes m) y ≡ some z
          → (r : Option (Option (List ℕ) × Connection)) → read_location layout here z ≡ r
          → d.ref_count ≡ c.ref_count
      by_answer x y z p q w none l = absurd (ground (arith, e, p, q, w, l))
      by_answer x y z p q w (some (o, v)) l =
          let same : v ≡ d = ground (arith, e, p, q, w, l) in
          ap (λ u. u.ref_count) (sym same)
          ∙ read_location-count layout here z v o l
          ∙ util_write-count (layout.msg_bytes m) y z w
          ∙ util_write-count (layout.location_bytes here.my_location_id) x y q
          ∙ util_write-count here.id_bytes c x p

      by_third :
          (x y : Connection)
          → util_write here.id_bytes c ≡ some x
          → util_write (layout.location_bytes here.my_location_id) x ≡ some y
          → (r : Option Connection) → util_write (layout.msg_bytes m) y ≡ r
          → d.ref_count ≡ c.ref_count
      by_third x y p q none w = absurd (ground (arith, e, p, q, w))
      by_third x y p q (some z) w = by_answer x y z p q w (read_location layout here z) refl

      by_second :
          (x : Connection)
          → util_write here.id_bytes c ≡ some x
          → (r : Option Connection) → util_write (layout.location_bytes here.my_location_id) x ≡ r
          → d.ref_count ≡ c.ref_count
      by_second x p none q = absurd (ground (arith, e, p, q))
      by_second x p (some y) q = by_third x y p q (util_write (layout.msg_bytes m) y) refl

      by_first :
          (r : Option Connection) → util_write here.id_bytes c ≡ r → d.ref_count ≡ c.ref_count
      by_first none p = absurd (ground (arith, e, p))
      by_first (some x) p =
          by_second x p (util_write (layout.location_bytes here.my_location_id) x) refl

  connect_to-IsFree :
      (m : Msg) (dialled : Dialled) (table left : List Connection) (code : Code)
      (l : Option LocationId)
      → All IsFree table
      → connect_to layout here m dialled table ≡ some (code, l, left)
      → All IsFree left
  unfolding connect_to new_entry
  connect_to-IsFree m no_socket table left code l a e =
      let same : table ≡ left = ground (arith, e) in subst (All IsFree) same a
  connect_to-IsFree m no_host table left code l a e =
      let same : table ≡ left = ground (arith, e) in subst (All IsFree) same a
  connect_to-IsFree m no_option table left code l a e =
      let same : table ≡ left = ground (arith, e) in subst (All IsFree) same a
  connect_to-IsFree m no_answer table left code l a e =
      let same : table ≡ left = ground (arith, e) in subst (All IsFree) same a
  connect_to-IsFree m (connected s) table left code l a e =
      by_handshake (handshake layout here m (new_entry here s)) refl
    where
      by_handshake :
          (r : Option Connection) → handshake layout here m (new_entry here s) ≡ r → All IsFree left
      by_handshake none q = absurd (ground (arith, e, q))
      by_handshake (some c) q = elim (Bool-cases c.err_flag) [
        | inl bad ↦ let same : table ≡ left = ground (arith, e, q, bad) in subst (All IsFree) same a
        | inr good ↦
            let same : c ∷ table ≡ left = ground (arith, e, q, good) in
            subst (All IsFree) same (handshake-count m (new_entry here s) c q, a)
      ]

  disconnect_peer-IsFree :
      (l : LocationId) (table left : List Connection) (code : Code)
      → All IsFree table
      → disconnect_peer l table ≡ some (code, left)
      → All IsFree left
  unfolding disconnect_peer
  disconnect_peer-IsFree l table left code a e =
      elim (Option-cases (find_connection_to_location l table)) [
        | inl missing ↦
            let same : table ≡ left = ground (arith, e, missing) in subst (All IsFree) same a
        | inr (c, there) ↦
            let idle = find_connection-All IsFree l table c there a in
            let same : put_connection l none table ≡ left = ground (arith, e, there, idle) in
            subst (All IsFree) same (remove_connection-All IsFree l table a)
      ]

  Step-IsFree :
      (table left : List Connection)
      → All IsFree table
      → Step layout here table left
      → All IsFree left
  unfolding recv_msg
  Step-IsFree table left a (sending m code _ _ e) = send_msg-IsFree layout m table left code a e
  Step-IsFree table left a (receiving blocking selects code o _ _ e) =
      recv_rounds-IsFree layout blocking selects table left code o a e
  Step-IsFree table left a (grabbing polls g _ e) =
      grab_messages-IsFree layout here polls table g a e
  Step-IsFree table left a (connecting m dialled code l _ _ e) =
      connect_to-IsFree m dialled table left code l a e
  Step-IsFree table left a (disconnecting l code _ _ e) =
      disconnect_peer-IsFree l table left code a e

  pub Reachable-IsFree : (table : List Connection) → Reachable layout here table → All IsFree table
  Reachable-IsFree table start = tt
  Reachable-IsFree table (step before _ r s) =
      Step-IsFree before table (Reachable-IsFree before r) s

  -- After any sequence of calls that send, receive, grab messages, connect and disconnect, from the
  -- empty table on, FTBN_Disconnect_peer returns: with an error and the table as it was where there is no
  -- connection to the location, and where there is one, with success and without the first of them.
  pub disconnect_peer-returns :
      (l : LocationId) (table : List Connection)
      → Reachable layout here table
      → ((find_connection_to_location l table ≡ none)
          × (disconnect_peer l table ≡ some (err_invalid_parameter, table)))
        ⊎ ((c : Connection) × (find_connection_to_location l table ≡ some c)
            × (disconnect_peer l table ≡ some (success, put_connection l none table)))
  unfolding disconnect_peer
  disconnect_peer-returns l table r = elim (Option-cases (find_connection_to_location l table)) [
    | inl missing ↦ inl (missing, ground (arith, missing))
    | inr (c, there) ↦
        let idle = find_connection-All IsFree l table c there (Reachable-IsFree table r) in
        inr (c, there, ground (arith, there, idle))
  ]
