-- ===== src/Inbox/Loss.antt =====
-- What FTBM_Fill_message_queue loses after a round that has nothing to report but a lost connection.
use ftb.Prelude.{ℕ, ◌≡◌, true, false, none, some, arith, inl, inr, Option-cases}
use ftb.Defs.{Msg}
use ftb.Inbox.{Inbox, Batch, prepend, enqueue, fill}
use ftb.Inbox.Order.{failed}

-- The queue ends in a null pointer while messages wait.
pub record IsCut (q : Inbox) (first : ℕ) : Type 0 where
  pub head : q.head ≡ some first
  pub tail : q.tail ≡ none

-- After a lone report of a lost connection the queue has a head and no tail.
lone_report-IsCut :
    (node : ℕ) (garbage : Msg) (b : Batch) (q : Inbox)
    → failed b.ret ≡ true
    → b.head ≡ none
    → b.tail ≡ none
    → (first : ℕ) × IsCut (fill node garbage b q) first
unfolding fill prepend enqueue failed
lone_report-IsCut node garbage b q bad h t = elim (Option-cases q.head) [
  | inl empty ↦ (node, record { head = ground arith; tail = ground arith })
  | inr (first, e) ↦ (first, record { head = ground arith; tail = ground arith })
]

-- A queue without a tail takes no more messages: a round that the network serves leaves its first
-- node and all links as they are, whatever the round brings.
cut_drops :
    (node first : ℕ) (garbage : Msg) (b : Batch) (q : Inbox)
    → IsCut q first
    → failed b.ret ≡ false
    → ((fill node garbage b q).head ≡ q.head)
      × ((fill node garbage b q).next ≡ q.next)
      × ((fill node garbage b q).item ≡ q.item)
unfolding fill prepend enqueue failed
cut_drops node first garbage b q k good = (ground arith, ground arith, ground arith)

-- The messages of a round are lost if the round before it had nothing to report but a lost
-- connection and no message was received in between: the queue's first node, its links and the
-- contents are those that the report left, so no receive ever comes to the new messages.
pub lone_report-Loses :
    (n m : ℕ) (garbage : Msg) (a b : Batch) (q : Inbox)
    → failed a.ret ≡ true
    → a.head ≡ none
    → a.tail ≡ none
    → failed b.ret ≡ false
    → let r = fill n garbage a q in
      let t = fill m garbage b r in (t.head ≡ r.head) × (t.next ≡ r.next) × (t.item ≡ r.item)
lone_report-Loses n m garbage a b q bad h e good =
    let (first, k) = lone_report-IsCut n garbage a q bad h e in
    cut_drops m first garbage b (fill n garbage a q) k good
