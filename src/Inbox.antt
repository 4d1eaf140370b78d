-- ===== src/Inbox.antt =====
-- src/manager_lib/ftb_manager_lib.c, the message queue between the thread that reads the network and
-- the agent's loop: FTBM_Fill_message_queue and FTBM_Recv. A node is an address; its `next` pointer
-- and its contents are looked up by it, and `none` is a null pointer.
pub mod Chain
pub mod Order
pub mod Filling
pub mod Loss
use ftb.Prelude.{ℕ, Bool, List, [], ◌∷◌, Option, none, some, ◌==◌, if◌then◌else◌}
use ftb.Defs.{Code, success, no_msg, err_network_general, LocationId, Msg, MsgType, cleanup_conn}

-- The contents of a node: the message and where it came from.
pub record Item : Type 0 where
  pub msg : Msg
  pub incoming_src : LocationId

-- The nodes, and `message_queue_head` and `message_queue_tail`.
pub record Inbox : Type 0 where
  pub next : ℕ → Option ℕ
  pub item : ℕ → Item
  pub head : Option ℕ
  pub tail : Option ℕ

abbrev pub update {ℓ} : {A : Type ℓ} → (ℕ → A) → ℕ → A → ℕ → A
update f a v b = if a == b then v else f b

-- What `FTBN_Grab_messages` leaves: its code, the nodes that it linked, and the location at fault.
pub record Batch : Type 0 where
  pub ret : Code
  pub head : Option ℕ
  pub tail : Option ℕ
  pub disconnected : LocationId

-- The message that reports a lost connection: only its type is written in the memory `garbage`.
unfoldable pub cleanup_item : Msg → LocationId → Item
cleanup_item garbage location = record {
  msg = record garbage { msg_type = cleanup_conn };
  incoming_src = location;
}

-- The batch gets a node at its front, at the address `node`, if the network failed.
unfoldable pub prepend : ℕ → Msg → Batch → Inbox → Batch × Inbox
unfolding cleanup_item
prepend node garbage b q = elim b.ret [
  | err_network_general ↦ (
    record b { head = some node },
    record q {
      item = update q.item node (cleanup_item garbage b.disconnected);
      next = update q.next node b.head;
    },
  )
  | _ ↦ (b, q)
]

-- The part of the loop that holds the lock.
unfoldable pub enqueue : Option ℕ → Option ℕ → Inbox → Inbox
enqueue head tail q = elim head [
  | none ↦ q
  | some first ↦ record q {
    head = elim q.head [ none ↦ some first | some h ↦ some h ];
    next = elim q.tail [ none ↦ q.next | some t ↦ update q.next t (some first) ];
    tail = tail;
  }
]

-- One round of FTBM_Fill_message_queue.
unfoldable pub fill : ℕ → Msg → Batch → Inbox → Inbox
unfolding prepend enqueue
fill node garbage b q = let (c, r) = prepend node garbage b q in enqueue c.head c.tail r

-- FTBM_Recv on the queue as it is once the wait is over.
unfoldable pub recv : Inbox → Code × Option Item × Inbox
recv q = elim q.head [
  | none ↦ (no_msg, none, q)
  | some first ↦
      let rest = q.next first in
      (
        success,
        some (q.item first),
        record q { head = rest; tail = elim rest [ none ↦ none | some _ ↦ q.tail ] },
      )
]
