-- ===== src/Network/Sending.antt =====
-- FTBN_Send_msg and FTBN_Disconnect_peer of ftb_network_tcp.c: which connection a message goes to, what is
-- written, and what is left of the table.
use ftb.Prelude.{
  ℕ, ◌+◌, ◌-◌, ◌≡◌, refl, ap, sym, subst, ◌∙◌, true, false, List, [], ◌∷◌, ◌++◌, Option, none, some,
  All, arith, length, drop, inl, inr, ◌⊎◌, Bool-cases, Option-cases,
}
use ftb.Defs.{Code, success, err_network_general, err_network_no_route, LocationId, Msg}
use ftb.Match.{is_equal_location_id}
use ftb.Network.Stream.{Writing, Ending, all_sent, failed, blocked, write_loop}
use ftb.Network.Framing.{bytes_of, write_loop-Writes, drop-more, append_assoc}
use ftb.Network.Table.{
  Connection, Layout, util_write, find_connection_to_location, put_connection, after_send, send_msg,
}
use ftb.Network.Channels.{stream, Feeds}

-- Nothing uses the connection at present.
abbrev pub IsFree : Connection → Type 0
IsFree c = c.ref_count ≡ 0

-- How a write ends: all bytes are behind those that were sent before; `err_flag` is set; or it waits.
pub data Written (bs : List ℕ) (c : Connection) (r : Option Connection) : Type 0 where
  in_full :
      (d : Connection)
      → r ≡ some d
      → d ≡ record c { output = d.output; sent = c.sent ++ bs }
      → c.err_flag ≡ false
      → (write_loop bs c.output).ending ≡ all_sent
      → Written bs c r
  broken :
      (d : Connection)
      → r ≡ some d
      → d.err_flag ≡ true
      → d.ref_count ≡ c.ref_count
      → (c.err_flag ≡ true) ⊎ ((write_loop bs c.output).ending ≡ failed)
      → Written bs c r
  hangs : r ≡ none → c.err_flag ≡ false → (write_loop bs c.output).ending ≡ blocked → Written bs c r

append_nil : (xs : List ℕ) → xs ++ [] ≡ xs
append_nil [] = refl
append_nil (x ∷ xs) = ap (λ l. x ∷ l) (append_nil xs)

util_write-Written : (bs : List ℕ) (c : Connection) → Written bs c (util_write bs c)
unfolding util_write
util_write-Written bs c = elim (Bool-cases c.err_flag) [
  | inl bad ↦ broken c (ground (arith, bad)) bad refl (inl bad)
  | inr good ↦ by_ending good (write_loop bs c.output) refl (write_loop bs c.output).ending refl
]
  where
    by_ending :
        c.err_flag ≡ false
        → (w : Writing) → write_loop bs c.output ≡ w
        → (x : Ending) → w.ending ≡ x
        → Written bs c (util_write bs c)
    by_ending good w e all_sent x =
        let k = write_loop-Writes bs c.output in
        let all : (write_loop bs c.output).sent ≡ bs =
          sym (append_nil (write_loop bs c.output).sent)
          ∙ ap (λ zs. (write_loop bs c.output).sent ++ zs) (sym (k.done (ap (λ v. v.ending) e ∙ x)))
          ∙ sym k.parts in
        in_full (record c { output = w.calls; sent = c.sent ++ bs })
          (ground (arith, good, e, x, all)) refl good (ap (λ v. v.ending) e ∙ x)
    by_ending good w e failed x =
        broken (record c { err_flag = true; output = w.calls; sent = c.sent ++ w.sent })
          (ground (arith, good, e, x)) refl refl (inr (ap (λ v. v.ending) e ∙ x))
    by_ending good w e blocked x =
        hangs (ground (arith, good, e, x)) good (ap (λ v. v.ending) e ∙ x)

pub data Sent (layout : Layout) (m : Msg) (table : List Connection)
    (r : Option (Code × List Connection)) : Type 0 where
  no_route :
      find_connection_to_location m.dst.location_id table ≡ none
      → r ≡ some (err_network_no_route, table)
      → Sent layout m table r
  waiting :
      (c : Connection)
      → find_connection_to_location m.dst.location_id table ≡ some c
      → c.err_flag ≡ false
      → (write_loop (layout.msg_bytes m) c.output).ending ≡ blocked
      → r ≡ none
      → Sent layout m table r
  sent :
      (c d : Connection)
      → find_connection_to_location m.dst.location_id table ≡ some c
      → c.err_flag ≡ false
      → (write_loop (layout.msg_bytes m) c.output).ending ≡ all_sent
      → d ≡ record c { output = d.output; sent = c.sent ++ layout.msg_bytes m }
      → r ≡ some (success, put_connection m.dst.location_id (some d) table)
      → Sent layout m table r
  dropped :
      (c : Connection)
      → find_connection_to_location m.dst.location_id table ≡ some c
      → (c.err_flag ≡ true) ⊎ ((write_loop (layout.msg_bytes m) c.output).ending ≡ failed)
      → r ≡ some (err_network_general, put_connection m.dst.location_id none table)
      → Sent layout m table r

pub find_connection-All {κ} :
    (P : Connection → Type κ) (l : LocationId) (table : List Connection) (c : Connection)
    → find_connection_to_location l table ≡ some c
    → All P table
    → P c
unfolding find_connection_to_location
find_connection-All P l [] c e a = absurd (ground arith)
find_connection-All P l (x ∷ xs) c e a = elim (Bool-cases (is_equal_location_id x.dst l)) [
  | inl hit ↦ let same : x ≡ c = ground (arith, hit) in subst P same a.0
  | inr miss ↦ find_connection-All P l xs c (ground (arith, miss)) a.1
]

module _ (layout : Layout) where
  -- While no connection is in use, FTBN_Send_msg ends in one of four ways: there is no connection to the
  -- location, and the table stays; the first connection to it is sound and all bytes are written, and
  -- they stand behind all that was sent over it, and its entry changes in nothing else; it was broken
  -- or a write to it fails, and it is taken from the table; or it is sound, its calls of write end
  -- with neither, and the call waits.
  pub send_msg-Sent :
      (m : Msg) (table : List Connection)
      → All IsFree table
      → Sent layout m table (send_msg layout m table)
  unfolding send_msg after_send
  send_msg-Sent m table free =
      elim (Option-cases (find_connection_to_location m.dst.location_id table)) [
        | inl none_there ↦ no_route none_there (ground (arith, none_there))
        | inr (c, there) ↦
            let idle = find_connection-All IsFree m.dst.location_id table c there free in
            let used : Connection = record c { ref_count = c.ref_count + 1 } in
            let counted : c.ref_count + 1 - 1 ≡ c.ref_count = omega arith in
            elim (util_write-Written (layout.msg_bytes m) used) [
              | hangs e good x ↦ waiting c there good x (ground (arith, there, e))
              | broken d e bad count why ↦
                  let zero_then : d.ref_count - 1 ≡ 0 = omega (arith, count, idle) in
                  dropped c there why (ground (arith, there, e, bad, zero_then))
              | in_full d e same good x ↦
                  sent c (record c { output = d.output; sent = c.sent ++ layout.msg_bytes m }) there
                    good x refl (ground (arith, there, e, same, good, counted))
            ]
      ]

  find_connection-put_connection :
      (l : LocationId) (table : List Connection) (c d : Connection)
      → find_connection_to_location l table ≡ some c
      → d.dst ≡ c.dst
      → find_connection_to_location l (put_connection l (some d) table) ≡ some d
  unfolding find_connection_to_location put_connection
  find_connection-put_connection l [] c d e h = absurd (ground arith)
  find_connection-put_connection l (x ∷ xs) c d e h =
      elim (Bool-cases (is_equal_location_id x.dst l)) [
        | inr miss ↦
            let rest = find_connection-put_connection l xs c d (ground (arith, e, miss)) h in
            ground (arith, miss, rest)
        | inl hit ↦
            let same : x ≡ c = ground (arith, e, hit) in
            let here : d.dst ≡ x.dst = h ∙ ap (λ y. y.dst) (sym same) in
            let again : is_equal_location_id d.dst l ≡ true =
              ap (λ y. is_equal_location_id y l) here ∙ hit in
            ground (arith, hit, again)
      ]

  stream-append :
      (ms : List Msg) (m : Msg)
      → stream layout (ms ++ m ∷ []) ≡ stream layout ms ++ layout.msg_bytes m
  unfolding stream
  stream-append [] m = append_nil (layout.msg_bytes m)
  stream-append (x ∷ ms) m =
      ap (λ zs. layout.msg_bytes x ++ zs) (stream-append ms m)
      ∙ sym (append_assoc (layout.msg_bytes x) (stream layout ms) (layout.msg_bytes m))

  -- A message that FTBN_Send_msg sends with success goes over the first connection `c` to its location: if
  -- the bytes that `c` sent meanwhile reach the other end behind the bytes that waited there for
  -- `e`, then the messages that waited, and the new one behind them, wait there for `f`.
  pub send_msg-Feeds :
      (m : Msg) (table left : List Connection) (c d e f : Connection) (ms : List Msg)
      → All IsFree table
      → find_connection_to_location m.dst.location_id table ≡ some c
      → send_msg layout m table ≡ some (success, left)
      → find_connection_to_location m.dst.location_id left ≡ some d
      → Feeds layout e ms
      → f.err_flag ≡ false
      → bytes_of f.input ≡ bytes_of e.input ++ drop (length c.sent) d.sent
      → Feeds layout f (ms ++ m ∷ [])
  send_msg-Feeds m table left c d e f ms free there ok after fed healthy carried =
      elim (send_msg-Sent m table free) [
        | no_route gone _ ↦ absurd (ground (arith, gone, there))
        | waiting _ _ _ _ r ↦ absurd (ground (arith, ok, r))
        | dropped _ _ _ r ↦ absurd (ground (arith, ok, r))
        | sent x y found _ _ same r ↦
            let x_is : x ≡ c = ground (arith, found, there) in
            let left_is : left ≡ put_connection m.dst.location_id (some y) table =
              ground (arith, ok, r) in
            let put =
              find_connection-put_connection m.dst.location_id table x y found
                (ap (λ z. z.dst) same) in
            let y_is : y ≡ d = ground (arith, put, left_is, after) in
            let sent_is : d.sent ≡ c.sent ++ layout.msg_bytes m =
              ap (λ z. z.sent) (sym y_is)
              ∙ ap (λ z. z.sent) same
              ∙ ap (λ z. z.sent ++ layout.msg_bytes m) x_is in
            let n : length c.sent ≡ length c.sent + 0 = omega arith in
            let new : drop (length c.sent) d.sent ≡ layout.msg_bytes m =
              ap (drop (length c.sent)) sent_is
              ∙ ap (λ i. drop i (c.sent ++ layout.msg_bytes m)) n
              ∙ drop-more 0 c.sent (layout.msg_bytes m) in
            record {
              healthy = healthy;
              bytes =
                  carried
                  ∙ ap (λ zs. bytes_of e.input ++ zs) new
                  ∙ ap (λ zs. zs ++ layout.msg_bytes m) fed.bytes
                  ∙ sym (stream-append ms m);
            }
      ]
