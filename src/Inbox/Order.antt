-- ===== src/Inbox/Order.antt =====
-- FTBM_Fill_message_queue and FTBM_Recv as operations of a queue.
use ftb.Prelude.{
  ℕ, ◌≡◌, refl, ap, subst, sym, ◌∙◌, Bool, true, false, List, [], ◌∷◌, ◌++◌, Option, none, some,
  arith, if◌then◌else◌, All,
}
use ftb.Defs.{Code, success, no_msg, err_network_general, Msg}
use ftb.Inbox.{cleanup_item, Item, Inbox, Batch, update, enqueue, recv}
use ftb.Inbox.Chain.{Walk, Apart, Once, last, Walk-update, Walk-link}

-- The pointers hold the queue `xs`, the oldest node first.
pub record IsQueue (q : Inbox) (xs : List ℕ) : Type 0 where
  pub walk : Walk q.next q.head xs
  pub end : q.tail ≡ last xs
  pub once : Once xs

-- A batch: a chain of nodes that ends at its tail.
pub record IsBatch (next : ℕ → Option ℕ) (b : Batch) (ys : List ℕ) : Type 0 where
  pub walk : Walk next b.head ys
  pub end : b.tail ≡ last ys

-- No node of the one list is in the other.
abbrev pub Disjoint : List ℕ → List ℕ → Type 0
Disjoint xs ys = All (λ x. Apart x ys) xs

pub last-append : (xs : List ℕ) (y : ℕ) (ys : List ℕ) → last (xs ++ (y ∷ ys)) ≡ last (y ∷ ys)
last-append [] y ys = refl
last-append (x ∷ []) y ys = refl
last-append (x ∷ w ∷ xs) y ys = last-append (w ∷ xs) y ys

pub Apart-append : (a : ℕ) (xs ys : List ℕ) → Apart a xs → Apart a ys → Apart a (xs ++ ys)
Apart-append a [] ys p q = q
Apart-append a (x ∷ xs) ys p q = (p.0, Apart-append a xs ys p.1 q)

pub Once-append : (xs ys : List ℕ) → Once xs → Once ys → Disjoint xs ys → Once (xs ++ ys)
Once-append [] ys o p d = p
Once-append (x ∷ xs) ys o p d = (Apart-append x xs ys o.0 d.0, Once-append xs ys o.1 p d.1)

-- The last node of the one list is not in the other.
pub last-Disjoint : (xs ys : List ℕ) (t : ℕ) → Disjoint xs ys → last xs ≡ some t → Apart t ys
last-Disjoint [] ys t d l = absurd (ground arith)
last-Disjoint (x ∷ []) ys t d l = subst (λ z. Apart z ys) (ground arith) d.0
last-Disjoint (x ∷ w ∷ xs) ys t d l = last-Disjoint (w ∷ xs) ys t d.1 l

pub last_is_some : (x : ℕ) (xs : List ℕ) → (t : ℕ) × (last (x ∷ xs) ≡ some t)
last_is_some x [] = (x, refl)
last_is_some x (y ∷ xs) = last_is_some y xs

-- A chain of nodes goes to the end of the queue.
pub enqueue-IsQueue :
    (q : Inbox) (xs ys : List ℕ) (y : ℕ) (tail : Option ℕ)
    → IsQueue q xs
    → Walk q.next (some y) (y ∷ ys)
    → Once (y ∷ ys)
    → Disjoint xs (y ∷ ys)
    → tail ≡ last (y ∷ ys)
    → IsQueue (enqueue (some y) tail q) (xs ++ (y ∷ ys))
unfolding enqueue
enqueue-IsQueue q [] ys y tail h w o d e =
    rw (h.walk, h.end) (record { walk = w; end = e; once = o })
enqueue-IsQueue q (x ∷ xs) ys y tail h w o d e =
    let (t, l) = last_is_some x xs in
    let out = last-Disjoint (x ∷ xs) (y ∷ ys) t d l in
    rw (h.walk.0, h.end, l)
      (record {
        walk =
            Walk-link q.next t y (some x) (x ∷ xs) (y ∷ ys) (refl, h.walk.1) h.once l
              (Walk-update q.next t (some y) (some y) (y ∷ ys) out w);
        end = e ∙ sym (last-append (x ∷ xs) y ys);
        once = Once-append (x ∷ xs) (y ∷ ys) h.once o d;
      })

-- What the nodes hold.
abbrev pub contents : (ℕ → Item) → List ℕ → List Item
contents item [] = []
contents item (x ∷ xs) = item x ∷ contents item xs

pub contents-append :
    (item : ℕ → Item) (xs ys : List ℕ)
    → contents item (xs ++ ys) ≡ contents item xs ++ contents item ys
contents-append item [] ys = refl
contents-append item (x ∷ xs) ys = ap (λ r. item x ∷ r) (contents-append item xs ys)

-- A write to another node leaves what the nodes hold alone.
pub contents-update :
    (item : ℕ → Item) (a : ℕ) (v : Item) (xs : List ℕ)
    → Apart a xs
    → contents (update item a v) xs ≡ contents item xs
contents-update item a v [] out = refl
contents-update item a v (x ∷ xs) out =
    let e : update item a v x ≡ item x = rw out.0 in rw (e, contents-update item a v xs out.1)

-- `node` is the code's report of a lost connection.
unfoldable pub failed : Code → Bool
failed err_network_general = true
failed _ = false

-- The nodes that a round brings, and what they hold.
abbrev pub arrived : ℕ → Batch → List ℕ → List ℕ
arrived node b ys = if failed b.ret then node ∷ ys else ys

-- The inbox is a queue that holds these items, the oldest first.
pub record Holds (q : Inbox) (items : List Item) : Type 0 where
  pub nodes : List ℕ
  pub queue : IsQueue q nodes
  pub items_lem : contents q.item nodes ≡ items

recv_nodes :
    (q : Inbox) (i : Item) (items : List Item) (xs : List ℕ)
    → IsQueue q xs
    → contents q.item xs ≡ i ∷ items
    → ((recv q).0 ≡ success) × ((recv q).1 ≡ some i) × Holds (recv q).2 items
unfolding recv
recv_nodes q i items [] k e = absurd (ground arith)
recv_nodes q i items (x ∷ []) k e =
    rw (k.walk.0, k.walk.1)
      (
        refl,
        ground arith,
        record {
          nodes = [];
          queue = record { walk = refl; end = refl; once = tt };
          items_lem = ground arith;
        },
      )
recv_nodes q i items (x ∷ y ∷ xs) k e =
    rw (k.walk.0, k.walk.1.0)
      (
        refl,
        ground arith,
        record {
          nodes = y ∷ xs;
          queue = record { walk = (refl, k.walk.1.1); end = k.end; once = k.once.1 };
          items_lem = ground arith;
        },
      )

-- A receive takes the oldest item, and the next one is the oldest then.
pub recv-Holds :
    (q : Inbox) (i : Item) (items : List Item)
    → Holds q (i ∷ items)
    → ((recv q).0 ≡ success) × ((recv q).1 ≡ some i) × Holds (recv q).2 items
recv-Holds q i items h = recv_nodes q i items h.nodes h.queue h.items_lem

recv_no_nodes :
    (q : Inbox) (xs : List ℕ) → IsQueue q xs → contents q.item xs ≡ [] → recv q ≡ (no_msg, none, q)
unfolding recv
recv_no_nodes q [] k e = rw (k.walk) refl
recv_no_nodes q (x ∷ xs) k e = absurd (ground arith)

-- A receive on an empty queue reports that there is no message, and changes nothing.
pub recv_empty : (q : Inbox) → Holds q [] → recv q ≡ (no_msg, none, q)
recv_empty q h = recv_no_nodes q h.nodes h.queue h.items_lem

-- The items of a chain of new nodes are added behind all that wait.
pub enqueue-Holds :
    (q : Inbox) (items : List Item) (h : Holds q items) (y : ℕ) (ys : List ℕ) (tail : Option ℕ)
    → Walk q.next (some y) (y ∷ ys)
    → Once (y ∷ ys)
    → Disjoint h.nodes (y ∷ ys)
    → tail ≡ last (y ∷ ys)
    → Holds (enqueue (some y) tail q) (items ++ contents q.item (y ∷ ys))
unfolding enqueue
enqueue-Holds q items h y ys tail w o d e = record {
  nodes = h.nodes ++ (y ∷ ys);
  queue = enqueue-IsQueue q h.nodes ys y tail h.queue w o d e;
  items_lem =
      contents-append q.item h.nodes (y ∷ ys) ∙ ap (λ r. r ++ contents q.item (y ∷ ys)) h.items_lem;
}

-- The items that a round brings: the report of a lost connection first.
abbrev pub news : Msg → Batch → Inbox → List ℕ → List Item
news garbage b q ys =
    if failed b.ret
    then cleanup_item garbage b.disconnected ∷ contents q.item ys
    else contents q.item ys
