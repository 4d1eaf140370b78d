-- ===== src/Network/Channels.antt =====
-- FTBN_Send_msg and FTBN_Grab_messages of ftb_network_tcp.c: each connection carries its messages in the order
-- in which they were sent, whole, and none twice.
use ftb.Prelude.{
  ℕ, ◌+◌, ◌≤◌, ◌≡◌, refl, ap, ◌∙◌, Bool, true, false, List, [], ◌∷◌, ◌++◌, map, Option, none, some,
  All, arith, length, take, drop, if◌then◌else◌, length-append, inl, inr, Bool-cases,
}
use ftb.Defs.{success, LocationId, Msg}
use ftb.Network.Stream.{full}
use ftb.Network.Framing.{bytes_of, whole, cut, short, read_loop-Reads, take-more, drop-more}
use ftb.Network.Table.{Connection, Layout, util_read}
use ftb.Network.Grabbing.{Grabbed, collect}

-- Each message that fits has its fixed number of bytes, which are read as the message.
pub record IsLayout (Fits : Msg → Type 0) (layout : Layout) : Type 0 where
  pub size : (m : Msg) → Fits m → length (layout.msg_bytes m) ≡ layout.msg_size
  pub again : (m : Msg) → Fits m → layout.msg_of (layout.msg_bytes m) ≡ m

module _ (layout : Layout) where
  -- The bytes of messages, one after the other.
  unfoldable pub stream : List Msg → List ℕ
  stream [] = []
  stream (m ∷ ms) = layout.msg_bytes m ++ stream ms

  -- The connection works, and its socket has these messages, whole, and nothing else.
  pub record Feeds (c : Connection) (ms : List Msg) : Type 0 where
    pub healthy : c.err_flag ≡ false
    pub bytes : bytes_of c.input ≡ stream ms

  -- The connection after its first message was read.
  pub record Fed (c : Connection) (m : Msg) (ms : List Msg) : Type 0 where
    pub left : Connection
    pub bytes : List ℕ
    pub runs : util_read layout.msg_size c ≡ some (some bytes, left)
    pub message : layout.msg_of bytes ≡ m
    pub feeds : Feeds left ms
    pub dst : left.dst ≡ c.dst
    pub fd : left.fd ≡ c.fd

  module _ (Fits : Msg → Type 0) (laws : IsLayout Fits layout) where
    take_first :
        (m : Msg) (xs : List ℕ)
        → Fits m
        → take layout.msg_size (layout.msg_bytes m ++ xs) ≡ layout.msg_bytes m
    take_first m xs f =
        let n : layout.msg_size ≡ length (layout.msg_bytes m) + 0 = omega (arith, laws.size m f) in
        ap (λ i. take i (layout.msg_bytes m ++ xs)) n
        ∙ take-more 0 (layout.msg_bytes m) xs
        ∙ append_nil (layout.msg_bytes m)
      where
        append_nil : (ys : List ℕ) → ys ++ [] ≡ ys
        append_nil [] = refl
        append_nil (y ∷ ys) = ap (λ l. y ∷ l) (append_nil ys)

    drop_first :
        (m : Msg) (xs : List ℕ) → Fits m → drop layout.msg_size (layout.msg_bytes m ++ xs) ≡ xs
    drop_first m xs f =
        let n : layout.msg_size ≡ length (layout.msg_bytes m) + 0 = omega (arith, laws.size m f) in
        ap (λ i. drop i (layout.msg_bytes m ++ xs)) n ∙ drop-more 0 (layout.msg_bytes m) xs

    pub util_read-Fed :
        (c : Connection) (m : Msg) (ms : List Msg) → Fits m → Feeds c (m ∷ ms) → Fed c m ms
    unfolding util_read stream
    util_read-Fed c m ms f k =
        let long : layout.msg_size ≤ length (bytes_of c.input) = omega (
          arith,
          ap length k.bytes,
          length-append (layout.msg_bytes m) (stream ms),
          laws.size m f,
        ) in
        elim (read_loop-Reads layout.msg_size c.input) [
          | whole left h e b x ↦
              let bytes =
                e
                ∙ ap (λ bs. full (take layout.msg_size bs) left) k.bytes
                ∙ ap (λ bs. full bs left) (take_first m (stream ms) f) in
              record {
                left = record c { input = left };
                bytes = layout.msg_bytes m;
                runs = ground (arith, k.healthy, bytes);
                message = laws.again m f;
                feeds = record {
                  healthy = k.healthy;
                  bytes = b ∙ ap (drop layout.msg_size) k.bytes ∙ drop_first m (stream ms) f;
                };
                dst = refl;
                fd = refl;
              }
          | cut h _ _ ↦ absurd (omega arith)
          | short h _ _ ↦ absurd (omega arith)
        ]

  -- The messages that a round reads: the first one of each connection that is ready, in the table's order.
  abbrev pub heads : (ℕ → Bool) → List (Connection × List Msg) → List (Msg × LocationId)
  heads fds [] = []
  heads fds ((c, []) ∷ qs) = heads fds qs
  heads fds ((c, m ∷ ms) ∷ qs) = if fds c.fd then (m, c.dst) ∷ heads fds qs else heads fds qs

  -- The messages that each connection has then.
  abbrev pub tails : (ℕ → Bool) → List (Connection × List Msg) → List (List Msg)
  tails fds [] = []
  tails fds ((c, []) ∷ qs) = [] ∷ tails fds qs
  tails fds ((c, m ∷ ms) ∷ qs) = (if fds c.fd then ms else m ∷ ms) ∷ tails fds qs

  abbrev pub IsCarried : Connection × List Msg → Type 0
  IsCarried q = Feeds q.0 q.1

  -- `select` finds a connection ready only where a message is there.
  abbrev pub IsServed : (ℕ → Bool) → Connection × List Msg → Type 0
  IsServed fds (c, []) = fds c.fd ≡ false
  IsServed fds (c, m ∷ ms) = Unit {0}

  -- The end of a round over connections with these messages.
  pub record Collected (fds : ℕ → Bool) (qs : List (Connection × List Msg)) (r : Option Grabbed)
      : Type 0 where
    pub grabbed : Grabbed
    pub runs : r ≡ some grabbed
    pub code : grabbed.code ≡ success
    pub messages : grabbed.messages ≡ heads fds qs
    pub rest : List (Connection × List Msg)
    pub table : grabbed.table ≡ map (λ q. q.0) rest
    pub left : map (λ q. q.1) rest ≡ tails fds qs
    pub carried : All IsCarried rest
    pub places : map (λ q. q.0.dst) rest ≡ map (λ q. q.0.dst) qs

  module _ (Fits : Msg → Type 0) (laws : IsLayout Fits layout) (fds : ℕ → Bool) where
    -- A connection that is not ready stays as it is.
    skipped :
        (c : Connection) (ms : List Msg) (qs : List (Connection × List Msg))
        → fds c.fd ≡ false
        → Feeds c ms
        → Collected fds qs (collect layout fds (map (λ q. q.0) qs))
        → Collected fds ((c, ms) ∷ qs) (collect layout fds (c ∷ map (λ q. q.0) qs))
    unfolding collect
    skipped c [] qs idle k rest = record {
      grabbed = record (rest.grabbed) { table = c ∷ rest.grabbed.table };
      runs = rw (idle, rest.runs) refl;
      code = rest.code;
      messages = rest.messages;
      rest = (c, []) ∷ rest.rest;
      table = ap (λ t. c ∷ t) rest.table;
      left = ap (λ l. [] ∷ l) rest.left;
      carried = (k, rest.carried);
      places = ap (λ l. c.dst ∷ l) rest.places;
    }
    skipped c (m ∷ ms) qs idle k rest = record {
      grabbed = record (rest.grabbed) { table = c ∷ rest.grabbed.table };
      runs = rw (idle, rest.runs) refl;
      code = rest.code;
      messages = rw (idle, rest.messages) refl;
      rest = (c, m ∷ ms) ∷ rest.rest;
      table = ap (λ t. c ∷ t) rest.table;
      left = rw (idle, rest.left) refl;
      carried = (k, rest.carried);
      places = ap (λ l. c.dst ∷ l) rest.places;
    }

    -- A connection that is ready gives its first message.
    served :
        (c : Connection) (m : Msg) (ms : List Msg) (qs : List (Connection × List Msg))
        → fds c.fd ≡ true
        → Fed c m ms
        → Collected fds qs (collect layout fds (map (λ q. q.0) qs))
        → Collected fds ((c, m ∷ ms) ∷ qs) (collect layout fds (c ∷ map (λ q. q.0) qs))
    unfolding collect
    served c m ms qs hit f rest = record {
      grabbed = record (rest.grabbed) {
        messages = (m, c.dst) ∷ rest.grabbed.messages;
        table = f.left ∷ rest.grabbed.table;
      };
      runs = ground (arith, hit, f.runs, rest.runs, f.message);
      code = rest.code;
      messages = rw (hit, rest.messages) refl;
      rest = (f.left, ms) ∷ rest.rest;
      table = ap (λ t. f.left ∷ t) rest.table;
      left = rw (hit, rest.left) refl;
      carried = (f.feeds, rest.carried);
      places = rw (f.dst, rest.places) refl;
    }

    -- FTBN_Grab_messages' loop over connections that each have whole messages waiting, and that `select`
    -- finds ready only where one waits: it succeeds, and brings the first message of each one that is
    -- ready, with its source, in the table's order; every connection keeps its other messages in their
    -- order, and its place.
    pub collect-Collected :
        (qs : List (Connection × List Msg))
        → All IsCarried qs
        → All (IsServed fds) qs
        → All (λ q. All Fits q.1) qs
        → Collected fds qs (collect layout fds (map (λ q. q.0) qs))
    unfolding collect
    collect-Collected [] a b f = record {
      grabbed = record { code = success; messages = []; problem_location = none; table = [] };
      runs = refl;
      code = refl;
      messages = refl;
      rest = [];
      table = refl;
      left = refl;
      carried = tt;
      places = refl;
    }
    collect-Collected ((c, []) ∷ qs) a b f =
        skipped c [] qs b.0 a.0 (collect-Collected qs a.1 b.1 f.1)
    collect-Collected ((c, m ∷ ms) ∷ qs) a b f = elim (Bool-cases (fds c.fd)) [
      | inr idle ↦ skipped c (m ∷ ms) qs idle a.0 (collect-Collected qs a.1 b.1 f.1)
      | inl hit ↦
          served c m ms qs hit (util_read-Fed Fits laws c m ms f.0.0 a.0)
            (collect-Collected qs a.1 b.1 f.1)
    ]
