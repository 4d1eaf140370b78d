-- ===== src/Network/Taking.antt =====
-- FTBN_Recv_msg of ftb_network_tcp.c after a `select`: which connection is read, what is received, and
-- what is left of the table.
use ftb.Prelude.{
  ℕ, ◌≤◌, ◌<◌, ◌≡◌, refl, ap, Bool, true, false, List, [], ◌∷◌, ◌++◌, Option, none, some, All,
  arith, length, take, drop, ◌⊎◌, inl, inr, Bool-cases,
}
use ftb.Defs.{Code, success, err_network_general, no_msg}
use ftb.Network.Framing.{bytes_of, is_cut, whole, cut, short, read_loop-Reads}
use ftb.Network.Table.{
  Connection, Layout, Received, Select, ready, util_read, scan, recv_rounds, recv_msg,
}

-- The connection is not ready.
abbrev pub IsIdle : (ℕ → Bool) → Connection → Type 0
IsIdle fds c = fds c.fd ≡ false

-- The table with its first connection that is ready.
pub record Split (fds : ℕ → Bool) (table : List Connection) : Type 0 where
  pub before : List Connection
  pub first : Connection
  pub after : List Connection
  pub parts : table ≡ before ++ first ∷ after
  pub idle : All (IsIdle fds) before
  pub hit : fds first.fd ≡ true

-- What the scan of the table finds.
pub data Found (layout : Layout) (fds : ℕ → Bool) (table : List Connection)
    (r : Option (Option (Received × List Connection))) : Type 0 where
  nothing : All (IsIdle fds) table → r ≡ some none → Found layout fds table r
  message :
      (s : Split fds table) (left : Connection)
      → s.first.err_flag ≡ false
      → layout.msg_size ≤ length (bytes_of s.first.input)
      → left ≡ record (s.first) { input = left.input }
      → bytes_of left.input ≡ drop layout.msg_size (bytes_of s.first.input)
      → r
        ≡ some (
            some (
              some (layout.msg_of (take layout.msg_size (bytes_of s.first.input)), s.first.dst),
              s.before ++ left ∷ s.after,
            ))
      → Found layout fds table r
  loss :
      (s : Split fds table)
      → (s.first.err_flag ≡ true)
        ⊎ ((length (bytes_of s.first.input) < layout.msg_size) × (is_cut s.first.input ≡ true))
      → r ≡ some (some (none, s.before ++ s.after))
      → Found layout fds table r
  stuck :
      (s : Split fds table)
      → length (bytes_of s.first.input) < layout.msg_size
      → is_cut s.first.input ≡ false
      → r ≡ none
      → Found layout fds table r

module _ (layout : Layout) (fds : ℕ → Bool) where
  before_it :
      {table : List Connection} (c : Connection)
      → fds c.fd ≡ false
      → Split fds table
      → Split fds (c ∷ table)
  before_it c idle s = record {
    before = c ∷ s.before;
    first = s.first;
    after = s.after;
    parts = ap (λ t. c ∷ t) s.parts;
    idle = (idle, s.idle);
    hit = s.hit;
  }

  pub scan-Found : (table : List Connection) → Found layout fds table (scan layout fds table)
  unfolding scan util_read before_it
  scan-Found [] = nothing tt refl
  scan-Found (c ∷ cs) = elim (Bool-cases (fds c.fd)) [
    | inr idle ↦ elim (scan-Found cs) [
      | nothing a r ↦ nothing (idle, a) (ground (arith, idle, r))
      | message s left good long same bytes r ↦
          message (before_it c idle s) left good long same bytes (ground (arith, idle, r))
      | loss s why r ↦ loss (before_it c idle s) why (ground (arith, idle, r))
      | stuck s few unended r ↦ stuck (before_it c idle s) few unended (ground (arith, idle, r))
    ]
    | inl hit ↦
        let s : Split fds (c ∷ cs) = record {
          before = [];
          first = c;
          after = cs;
          parts = refl;
          idle = tt;
          hit = hit;
        } in
        elim (Bool-cases c.err_flag) [
          | inl bad ↦ loss s (inl bad) (ground (arith, hit, bad))
          | inr good ↦ elim (read_loop-Reads layout.msg_size c.input) [
            | whole left long e bytes _ ↦
                message s (record c { input = left }) good long refl bytes
                  (ground (arith, hit, good, e))
            | cut few closed e ↦ loss s (inr (few, closed)) (ground (arith, hit, good, e))
            | short few unended e ↦ stuck s few unended (ground (arith, hit, good, e))
          ]
        ]
  ]

  -- How a receive ends once `select` has returned: it has found nothing, and goes on or returns; or it
  -- reads the first connection that is ready.
  pub data Taken (blocking : Bool) (more : List Select) (table : List Connection)
      (r : Option (Code × Received × List Connection)) : Type 0 where
    again :
        blocking ≡ true
        → All (IsIdle fds) table
        → r ≡ recv_msg layout true blocking more table
        → Taken blocking more table r
    no_message :
        blocking ≡ false
        → All (IsIdle fds) table
        → r ≡ some (no_msg, none, table)
        → Taken blocking more table r
    took :
        (s : Split fds table) (left : Connection)
        → layout.msg_size ≤ length (bytes_of s.first.input)
        → left ≡ record (s.first) { input = left.input }
        → bytes_of left.input ≡ drop layout.msg_size (bytes_of s.first.input)
        → r
          ≡ some (
            success,
            some (layout.msg_of (take layout.msg_size (bytes_of s.first.input)), s.first.dst),
            s.before ++ left ∷ s.after,
          )
        → Taken blocking more table r
    dropped :
        (s : Split fds table)
        → (s.first.err_flag ≡ true)
          ⊎ ((length (bytes_of s.first.input) < layout.msg_size) × (is_cut s.first.input ≡ true))
        → r ≡ some (err_network_general, none, s.before ++ s.after)
        → Taken blocking more table r
    waiting :
        (s : Split fds table)
        → length (bytes_of s.first.input) < layout.msg_size
        → is_cut s.first.input ≡ false
        → r ≡ none
        → Taken blocking more table r

  -- Once `select` has returned, FTBN_Recv_msg reads the first connection that is ready, and no other: it
  -- gives the message that the next bytes stand for and leaves all other bytes; a connection that is
  -- broken, or ends within a message, is taken from the table with FTB_ERR_NETWORK_GENERAL; and
  -- where a part of a message is there and no end, the call waits, a non-blocking one too. If no
  -- connection is ready, a blocking call goes on, and a non-blocking one returns FTBN_NO_MSG.
  pub recv_msg-Taken :
      (blocking : Bool) (more : List Select) (table : List Connection)
      → Taken blocking more table (recv_msg layout true blocking (ready fds ∷ more) table)
  unfolding recv_msg recv_rounds
  recv_msg-Taken blocking more table = elim (scan-Found table) [
    | nothing a r ↦ elim (Bool-cases blocking) [
      | inl keeps ↦ again keeps a (ground (arith, keeps, r))
      | inr quick ↦ no_message quick a (ground (arith, quick, r))
    ]
    | message s left good long same bytes r ↦ took s left long same bytes (ground (arith, r))
    | loss s why r ↦ dropped s why (ground (arith, r))
    | stuck s few unended r ↦ waiting s few unended (ground (arith, r))
  ]
