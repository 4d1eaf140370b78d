-- ===== src/Network/Free.antt =====
-- The counts of the uses of the connections (`ref_count`) in the calls of ftb_network_tcp.c.
use ftb.Prelude.{
  ℕ, ◌≡◌, refl, ap, sym, subst, ◌∙◌, Bool, true, false, List, [], ◌∷◌, ◌++◌, Option, none, some,
  All, arith, inl, inr, Bool-cases,
}
use ftb.Defs.{Code, LocationId, Msg}
use ftb.Match.{is_equal_location_id}
use ftb.Network.Stream.{
  Ending, all_sent, failed, blocked, Reading, full, lost, waits, read_loop, write_loop,
}
use ftb.Network.Table.{
  Connection, Layout, Received, util_read, util_write, put_connection, Select, send_msg, scan,
  recv_rounds, select_interrupted, select_failed, ready,
}
use ftb.Network.Grabbing.{Grabbed, put_first, collect}
use ftb.Network.Taking.{nothing, message, loss, stuck, scan-Found}
use ftb.Network.Sending.{
  IsFree, no_route, waiting, sent, dropped, send_msg-Sent, find_connection-All,
}

module _ {κ} (P : Connection → Type κ) (l : LocationId) where
  pub remove_connection-All :
      (table : List Connection) → All P table → All P (put_connection l none table)
  unfolding put_connection
  remove_connection-All [] a = a
  remove_connection-All (x ∷ xs) a = elim (Bool-cases (is_equal_location_id x.dst l)) [
    | inl hit ↦ rw hit a.1
    | inr miss ↦ rw miss (a.0, remove_connection-All xs a.1)
  ]

  put_connection-All :
      (d : Connection) (table : List Connection)
      → P d
      → All P table
      → All P (put_connection l (some d) table)
  unfolding put_connection
  put_connection-All d [] k a = a
  put_connection-All d (x ∷ xs) k a = elim (Bool-cases (is_equal_location_id x.dst l)) [
    | inl hit ↦ rw hit (k, a.1)
    | inr miss ↦ rw miss (a.0, put_connection-All d xs k a.1)
  ]

-- A read changes no count.
pub util_read-count :
    (n : ℕ) (c d : Connection) (o : Option (List ℕ))
    → util_read n c ≡ some (o, d)
    → d.ref_count ≡ c.ref_count
unfolding util_read
util_read-count n c d o e = elim (Bool-cases c.err_flag) [
  | inl bad ↦ let same : c ≡ d = ground (arith, bad, e) in ap (λ x. x.ref_count) (sym same)
  | inr good ↦ by_reading good (read_loop n c.input) refl
]
  where
    by_reading :
        c.err_flag ≡ false → (r : Reading) → read_loop n c.input ≡ r → d.ref_count ≡ c.ref_count
    by_reading good (full bs left) q = ground (arith, good, e, q)
    by_reading good lost q = ground (arith, good, e, q)
    by_reading good waits q = ground (arith, good, e, q)

pub util_write-count :
    (bs : List ℕ) (c d : Connection) → util_write bs c ≡ some d → d.ref_count ≡ c.ref_count
unfolding util_write
util_write-count bs c d e = elim (Bool-cases c.err_flag) [
  | inl bad ↦ let same : c ≡ d = ground (arith, bad, e) in ap (λ x. x.ref_count) (sym same)
  | inr good ↦ by_ending good (write_loop bs c.output).ending refl
]
  where
    by_ending :
        c.err_flag ≡ false
        → (x : Ending) → (write_loop bs c.output).ending ≡ x
        → d.ref_count ≡ c.ref_count
    by_ending good all_sent q = ground (arith, good, e, q)
    by_ending good failed q = ground (arith, good, e, q)
    by_ending good blocked q = ground (arith, good, e, q)

All-parts {ℓ κ} :
    {A : Type ℓ} (P : A → Type κ) (xs : List A) (y : A) (ys : List A)
    → All P (xs ++ y ∷ ys)
    → All P xs × P y × All P ys
All-parts P [] y ys a = (tt, a.0, a.1)
All-parts P (x ∷ xs) y ys a = let rest = All-parts P xs y ys a.1 in ((a.0, rest.0), rest.1, rest.2)

All-middle {ℓ κ} :
    {A : Type ℓ} (P : A → Type κ) (xs ys : List A) → All P xs → All P ys → All P (xs ++ ys)
All-middle P [] ys a b = b
All-middle P (x ∷ xs) ys a b = (a.0, All-middle P xs ys a.1 b)

module _ (layout : Layout) where
  pub send_msg-IsFree :
      (m : Msg) (table left : List Connection) (code : Code)
      → All IsFree table
      → send_msg layout m table ≡ some (code, left)
      → All IsFree left
  send_msg-IsFree m table left code a e = elim (send_msg-Sent layout m table a) [
    | no_route _ r ↦ let same : table ≡ left = ground (arith, r, e) in subst (All IsFree) same a
    | waiting _ _ _ _ r ↦ absurd (ground (arith, r, e))
    | sent c d there _ _ made r ↦
        let count : d.ref_count ≡ 0 =
          ap (λ x. x.ref_count) made
          ∙ find_connection-All IsFree m.dst.location_id table c there a in
        let same : put_connection m.dst.location_id (some d) table ≡ left = ground (arith, r, e) in
        subst (All IsFree) same (put_connection-All IsFree m.dst.location_id d table count a)
    | dropped c there _ r ↦
        let same : put_connection m.dst.location_id none table ≡ left = ground (arith, r, e) in
        subst (All IsFree) same (remove_connection-All IsFree m.dst.location_id table a)
  ]

  scan-IsFree :
      (fds : ℕ → Bool) (table left : List Connection) (o : Received)
      → All IsFree table
      → scan layout fds table ≡ some (some (o, left))
      → All IsFree left
  scan-IsFree fds table left o a e = elim (scan-Found layout fds table) [
    | nothing _ r ↦ absurd (ground (arith, r, e))
    | stuck _ _ _ r ↦ absurd (ground (arith, r, e))
    | message s c _ _ made _ r ↦
        let p = All-parts IsFree s.before s.first s.after (subst (All IsFree) s.parts a) in
        let same : s.before ++ c ∷ s.after ≡ left = ground (arith, r, e) in
        let count : c.ref_count ≡ 0 = ap (λ x. x.ref_count) made ∙ p.1 in
        subst (All IsFree) same (All-middle IsFree s.before (c ∷ s.after) p.0 (count, p.2))
    | loss s _ r ↦
        let p = All-parts IsFree s.before s.first s.after (subst (All IsFree) s.parts a) in
        let same : s.before ++ s.after ≡ left = ground (arith, r, e) in
        subst (All IsFree) same (All-middle IsFree s.before s.after p.0 p.2)
  ]

  pub recv_rounds-IsFree :
      (blocking : Bool) (selects : List Select) (table left : List Connection) (code : Code)
      (o : Received)
      → All IsFree table
      → recv_rounds layout blocking selects table ≡ some (code, o, left)
      → All IsFree left
  unfolding recv_rounds
  recv_rounds-IsFree blocking [] table left code o a e = absurd (ground (arith, e))
  recv_rounds-IsFree blocking (select_interrupted ∷ more) table left code o a e =
      recv_rounds-IsFree blocking more table left code o a e
  recv_rounds-IsFree blocking (select_failed ∷ more) table left code o a e =
      let same : table ≡ left = ground (arith, e) in subst (All IsFree) same a
  recv_rounds-IsFree blocking (ready fds ∷ more) table left code o a e =
      by_scan (scan layout fds table) refl (recv_rounds-IsFree blocking more table left code o a)
    where
      by_scan :
          (r : Option (Option (Received × List Connection)))
          → scan layout fds table ≡ r
          → (recv_rounds layout blocking more table ≡ some (code, o, left) → All IsFree left)
          → All IsFree left
      by_scan none q further = absurd (ground (arith, e, q))
      by_scan (some none) q further = elim (Bool-cases blocking) [
        | inl keeps ↦ further (ground (arith, e, q, keeps))
        | inr quick ↦
            let same : table ≡ left = ground (arith, e, q, quick) in subst (All IsFree) same a
      ]
      by_scan (some (some (none, t))) q further =
          let same : t ≡ left = ground (arith, e, q) in
          subst (All IsFree) same (scan-IsFree fds table t none a q)
      by_scan (some (some (some m, t))) q further =
          let same : t ≡ left = ground (arith, e, q) in
          subst (All IsFree) same (scan-IsFree fds table t (some m) a q)

  pub put_first-IsFree :
      (m : Msg × LocationId) (r : Option Grabbed) (g : Grabbed)
      → ((h : Grabbed) → r ≡ some h → All IsFree h.table)
      → put_first m r ≡ some g
      → All IsFree g.table
  put_first-IsFree m none g k e = absurd (ground (arith, e))
  put_first-IsFree m (some h) g k e =
      let same : h.table ≡ g.table = ground (arith, e) in subst (All IsFree) same (k h refl)

  kept-IsFree :
      (d : Connection) (r : Option Grabbed) (g : Grabbed)
      → d.ref_count ≡ 0
      → ((h : Grabbed) → r ≡ some h → All IsFree h.table)
      → (elim r as (λ _. Option Grabbed) [
        | none ↦ none
        | some h ↦ some (record h { table = d ∷ h.table })
      ])
        ≡ some g
      → All IsFree g.table
  kept-IsFree d none g count k e = absurd (ground (arith, e))
  kept-IsFree d (some h) g count k e =
      let same : d ∷ h.table ≡ g.table = ground (arith, e) in
      subst (All IsFree) same (count, k h refl)

  pub collect-IsFree :
      (fds : ℕ → Bool) (table : List Connection) (g : Grabbed)
      → All IsFree table
      → collect layout fds table ≡ some g
      → All IsFree g.table
  unfolding collect
  collect-IsFree fds [] g a e =
      let same : [] ≡ g.table = ground (arith, e) in subst (All IsFree) same tt
  collect-IsFree fds (c ∷ cs) g a e = elim (Bool-cases (fds c.fd)) [
    | inr idle ↦
        kept-IsFree c (collect layout fds cs) g a.0 (λ h. collect-IsFree fds cs h a.1)
          (ground (arith, e, idle))
    | inl hit ↦ by_read hit (util_read layout.msg_size c) refl (λ h. collect-IsFree fds cs h a.1)
  ]
    where
      by_read :
          fds c.fd ≡ true
          → (r : Option (Option (List ℕ) × Connection)) → util_read layout.msg_size c ≡ r
          → ((h : Grabbed) → collect layout fds cs ≡ some h → All IsFree h.table)
          → All IsFree g.table
      by_read hit none q k = absurd (ground (arith, e, hit, q))
      by_read hit (some (none, d)) q k =
          let same : cs ≡ g.table = ground (arith, e, hit, q) in subst (All IsFree) same a.1
      by_read hit (some (some bs, d)) q k =
          put_first-IsFree (layout.msg_of bs, c.dst) _ g
            (λ h.
              kept-IsFree d (collect layout fds cs) h
                (util_read-count layout.msg_size c d (some bs) q ∙ a.0) k)
            (ground (arith, e, hit, q))
