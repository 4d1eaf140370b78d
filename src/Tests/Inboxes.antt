-- ===== src/Tests/Inboxes.antt =====
-- The theorems on the message queue at concrete queues.
use ftb.Prelude.{ℕ, ◌≡◌, refl, [], ◌∷◌, ◌++◌, none, some, if◌then◌else◌, ◌==◌}
use ftb.Defs.{Code, success, err_network_general}
use ftb.Inbox.{Item, Inbox, Batch, fill}
use ftb.Inbox.Order.{Holds, news, failed}
use ftb.Inbox.Filling.{fill-Holds}
use ftb.Inbox.Loss.{lone_report-Loses}
use ftb.Tests.{here, there, client, boom, notice_of}

abbrev item_of : ℕ → Item
item_of n = record { msg = notice_of boom (client here); incoming_src = here }

-- One message waits, in the node 1; the nodes 2 and 3 are linked and not yet in the queue.
abbrev waiting : Inbox
waiting = record {
  next = λ n. if n == 2 then some 3 else none;
  item = item_of;
  head = some 1;
  tail = some 1;
}

abbrev waiting_queue : Holds waiting (item_of 1 ∷ [])
waiting_queue = record {
  nodes = 1 ∷ [];
  queue = record { walk = (refl, refl); end = refl; once = (tt, tt) };
  items_lem = refl;
}

abbrev pair : Code → Batch
pair ret = record { ret = ret; head = some 2; tail = some 3; disconnected = there }

abbrev lone : Batch
lone = record { ret = err_network_general; head = none; tail = none; disconnected = there }

fill-Holds_example :
    Holds (fill 4 (notice_of boom (client here)) (pair err_network_general) waiting) (
      (item_of 1 ∷ [])
      ++ news (notice_of boom (client here)) (pair err_network_general) waiting (2 ∷ 3 ∷ []))
unfolding failed
fill-Holds_example =
    fill-Holds 4 (notice_of boom (client here)) (pair err_network_general) waiting (item_of 1 ∷ [])
      waiting_queue (2 ∷ 3 ∷ []) (record { walk = (refl, (refl, refl)); end = refl })
      ((refl, (refl, tt)), ((refl, tt), (tt, tt))) ((refl, (refl, (refl, tt))), tt) refl

lone_report-Loses_example :
    let r = fill 4 (notice_of boom (client here)) lone waiting in
    let t = fill 5 (notice_of boom (client here)) (pair success) r in
    (t.head ≡ r.head) × (t.next ≡ r.next) × (t.item ≡ r.item)
unfolding failed
lone_report-Loses_example =
    lone_report-Loses 4 5 (notice_of boom (client here)) lone (pair success) waiting refl refl refl
      refl
