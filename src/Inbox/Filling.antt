-- ===== src/Inbox/Filling.antt =====
-- FTBM_Fill_message_queue as an operation of a queue.
use ftb.Prelude.{
  ℕ, ◌≡◌, refl, ap, subst, ◌∙◌, not, ◌&&◌, is_some, Bool, true, false, List, [], ◌∷◌, ◌++◌, Option,
  some, arith, if◌then◌else◌,
}
use ftb.Defs.{Msg}
use ftb.Inbox.{Item, Inbox, Batch, cleanup_item, update, prepend, enqueue, fill}
use ftb.Inbox.Chain.{Walk, Apart, Once, Walk-update}
use ftb.Inbox.Order.{
  IsBatch, Disjoint, Holds, contents, contents-update, failed, arrived, news, enqueue-Holds,
}

prepend_of_ok :
    (node : ℕ) (garbage : Msg) (b : Batch) (q : Inbox)
    → failed b.ret ≡ false
    → prepend node garbage b q ≡ (b, q)
unfolding prepend failed
prepend_of_ok node garbage b q h = ground arith

prepend_of_failed :
    (node : ℕ) (garbage : Msg) (b : Batch) (q : Inbox)
    → failed b.ret ≡ true
    → prepend node garbage b q ≡ (
      record b { head = some node },
      record q {
        item = update q.item node (cleanup_item garbage b.disconnected);
        next = update q.next node b.head;
      },
    )
unfolding prepend failed
prepend_of_failed node garbage b q h = ground arith

-- A node that no node of the chain is equal to is apart from the chain.
pub Apart-Disjoint : (a : ℕ) (xs ys : List ℕ) → Disjoint xs (a ∷ ys) → Apart a xs
Apart-Disjoint a [] ys d = tt
Apart-Disjoint a (x ∷ xs) ys d = (ground arith, Apart-Disjoint a xs ys d.1)

append_nil : (xs : List Item) → xs ++ [] ≡ xs
append_nil [] = refl
append_nil (x ∷ xs) = ap (λ r. x ∷ r) (append_nil xs)

update_same : (next : ℕ → Option ℕ) (a : ℕ) (v : Option ℕ) → update next a v a ≡ v
update_same next a v = ground arith

module _ (node : ℕ) (garbage : Msg) (b : Batch) (q : Inbox) (items : List Item)
    (h : Holds q items) where
  -- A round that the network serves.
  fill_of_ok :
      (ys : List ℕ)
      → failed b.ret ≡ false
      → IsBatch q.next b ys
      → Once ys
      → Disjoint h.nodes ys
      → Holds (fill node garbage b q) (items ++ contents q.item ys)
  unfolding fill enqueue
  fill_of_ok [] good k o d =
      rw (prepend_of_ok node garbage b q good, fill, k.walk, append_nil items) h
  fill_of_ok (y ∷ ys) good k o d =
      let r = enqueue-Holds q items h y ys b.tail (refl, k.walk.1) o d k.end in
      rw (prepend_of_ok node garbage b q good, fill, k.walk.0) r

  -- The inbox once the node of the report is linked.
  abbrev reported : Inbox
  reported = record q {
    item = update q.item node (cleanup_item garbage b.disconnected);
    next = update q.next node b.head;
  }

  pub reported-Holds : Apart node h.nodes → Holds reported items
  reported-Holds out = record {
    nodes = h.nodes;
    queue = record {
      walk = Walk-update q.next node b.head q.head h.nodes out h.queue.walk;
      end = h.queue.end;
      once = h.queue.once;
    };
    items_lem =
        contents-update q.item node (cleanup_item garbage b.disconnected) h.nodes out ∙ h.items_lem;
  }

  -- A round that reports a lost connection, before the messages of the round.
  fill_of_failed :
      (y : ℕ) (ys : List ℕ)
      → failed b.ret ≡ true
      → IsBatch q.next b (y ∷ ys)
      → Once (node ∷ y ∷ ys)
      → Disjoint h.nodes (node ∷ y ∷ ys)
      → Holds
          (fill node garbage b q)
          (items ++ (cleanup_item garbage b.disconnected ∷ contents q.item (y ∷ ys)))
  unfolding fill enqueue reported-Holds
  fill_of_failed y ys bad k o d =
      let out = Apart-Disjoint node h.nodes (y ∷ ys) d in
      let first = update_same q.next node b.head ∙ k.walk.0 in
      let w : Walk (update q.next node b.head) (update q.next node b.head node) (y ∷ ys) =
        (first, (Walk-update q.next node b.head b.head (y ∷ ys) o.0 k.walk).1) in
      let r =
        enqueue-Holds reported items (reported-Holds out) node (y ∷ ys) b.tail (refl, w) o d
          k.end in
      let e : update q.item node (cleanup_item garbage b.disconnected) node
          ≡ cleanup_item garbage b.disconnected =
        ground arith in
      let f = contents-update q.item node (cleanup_item garbage b.disconnected) (y ∷ ys) o.0 in
      rw (prepend_of_failed node garbage b q bad, fill)
        (subst (λ c. Holds (enqueue (some node) b.tail reported) (items ++ c)) (rw (e, f) refl) r)

  -- Both kinds of round, by the test of the code.
  fill_by :
      (bad : Bool) (ys : List ℕ)
      → failed b.ret ≡ bad
      → IsBatch q.next b ys
      → Once (if bad then node ∷ ys else ys)
      → Disjoint h.nodes (if bad then node ∷ ys else ys)
      → (bad && not (is_some b.head)) ≡ false
      → Holds (fill node garbage b q) (
          items
          ++ (if bad
              then cleanup_item garbage b.disconnected ∷ contents q.item ys
              else contents q.item ys))
  fill_by false ys e k o d more = fill_of_ok ys e k o d
  fill_by true [] e k o d more = absurd (ground arith)
  fill_by true (y ∷ ys) e k o d more = fill_of_failed y ys e k o d

  -- A round of the loop adds what it brings behind all that waits, and nothing that waits is lost or
  -- moved: for new nodes, and unless a lost connection is all that the round has to report.
  pub fill-Holds :
      (ys : List ℕ)
      → IsBatch q.next b ys
      → Once (arrived node b ys)
      → Disjoint h.nodes (arrived node b ys)
      → (failed b.ret && not (is_some b.head)) ≡ false
      → Holds (fill node garbage b q) (items ++ news garbage b q ys)
  fill-Holds ys = fill_by (failed b.ret) ys refl
