-- ===== src/Dll/Links.antt =====
-- Nodes that are linked both ways, and what the writes of an insertion and of a removal do to them.
use mathlib.Core.List.{append-nil}
use ftb.Prelude.{ℕ, ◌≡◌, refl, sym, subst, false, List, [], ◌∷◌, ◌++◌, arith, ◌==◌, All}
use ftb.Inbox.Chain.{Apart, Once}
use ftb.Inbox.Order.{Once-append}
use ftb.Inbox.Filling.{Apart-Disjoint}
use ftb.Dll.{Store, write, list_add_front, list_add_back, list_remove_node}

-- From `a` the nodes `xs` lead to `b`, and back.
abbrev pub Links : (ℕ → ℕ) → (ℕ → ℕ) → ℕ → List ℕ → ℕ → Type 0
Links next prev a [] b = (next a ≡ b) × (prev b ≡ a)
Links next prev a (x ∷ xs) b = ((next a ≡ x) × (prev x ≡ a)) × Links next prev x xs b

-- No node of `xs` is in `ys`.
abbrev pub Disjoint : List ℕ → List ℕ → Type 0
Disjoint xs ys = All (λ x. Apart x ys) xs

pub Links-append :
    (next prev : ℕ → ℕ) (a : ℕ) (xs : List ℕ) (n : ℕ) (ys : List ℕ) (b : ℕ)
    → Links next prev a xs n
    → Links next prev n ys b
    → Links next prev a (xs ++ n ∷ ys) b
Links-append next prev a [] n ys b l k = (l, k)
Links-append next prev a (x ∷ xs) n ys b l k = (l.0, Links-append next prev x xs n ys b l.1 k)

pub Links-split :
    (next prev : ℕ → ℕ) (a : ℕ) (xs : List ℕ) (n : ℕ) (ys : List ℕ) (b : ℕ)
    → Links next prev a (xs ++ n ∷ ys) b
    → Links next prev a xs n × Links next prev n ys b
Links-split next prev a [] n ys b l = (l.0, l.1)
Links-split next prev a (x ∷ xs) n ys b l =
    let (p, q) = Links-split next prev x xs n ys b l.1 in ((l.0, p), q)

-- The node before the end is the first one or among the others.
pub Links-last :
    (next prev : ℕ → ℕ) (a : ℕ) (xs : List ℕ) (b : ℕ) (ys : List ℕ)
    → Links next prev a xs b
    → Disjoint (a ∷ xs) ys
    → Apart (prev b) ys
Links-last next prev a [] b ys l d = subst (λ z. Apart z ys) (sym l.1) d.0
Links-last next prev a (x ∷ xs) b ys l d = Links-last next prev x xs b ys l.1 d.1

-- Writes to other nodes.
pub Links-write :
    (next prev : ℕ → ℕ) (c v d w : ℕ) (a : ℕ) (xs : List ℕ) (b : ℕ)
    → Apart c (a ∷ xs)
    → Apart d xs
    → (d == b) ≡ false
    → Links next prev a xs b
    → Links (write c v next) (write d w prev) a xs b
Links-write next prev c v d w a [] b p q r l = (rw p.0 l.0, rw r l.1)
Links-write next prev c v d w a (x ∷ xs) b p q r l =
    ((rw p.0 l.0.0, rw q.0 l.0.1), Links-write next prev c v d w x xs b p.1 q.1 r l.1)

-- No node of a list that `a` is apart from is `a`.
pub Apart-Disjoint-one : (a : ℕ) (xs : List ℕ) → Apart a xs → Disjoint xs (a ∷ [])
Apart-Disjoint-one a [] p = tt
Apart-Disjoint-one a (x ∷ xs) p = ((ground arith, tt), Apart-Disjoint-one a xs p.1)

-- The last link is led to another node.
pub Links-redirect :
    (next prev : ℕ → ℕ) (a : ℕ) (xs : List ℕ) (n d : ℕ)
    → Links next prev a xs n
    → Once (a ∷ xs)
    → Apart d xs
    → Links (write (prev n) d next) (write d (prev n) prev) a xs d
Links-redirect next prev a [] n d l o p = (ground (arith, l.1), ground (arith, l.1))
Links-redirect next prev a (x ∷ xs) n d l o p =
    let out = Links-last next prev x xs n (a ∷ []) l.1 (Apart-Disjoint-one a (x ∷ xs) o.0) in
    ((rw out.0 l.0.0, rw p.0 l.0.1), Links-redirect next prev x xs n d l.1 o.1 p.1)

-- A ring of nodes with its head.
pub record IsRing {ℓ} {K : Type ℓ} (head : ℕ) (xs : List ℕ) (s : Store K) : Type 0 where
  pub links : Links s.next s.prev head xs head
  pub once : Once (head ∷ xs)

Once-snoc : (xs : List ℕ) (n : ℕ) → Once xs → Apart n xs → Once (xs ++ n ∷ [])
Once-snoc xs n o p = Once-append xs (n ∷ []) o (tt, tt) (Apart-Disjoint-one n xs p)

-- A new node goes to the end of the ring.
pub list_add_back-IsRing {ℓ} :
    {K : Type ℓ} (head n : ℕ) (xs : List ℕ) (s : Store K)
    → IsRing head xs s
    → Apart n (head ∷ xs)
    → IsRing head (xs ++ n ∷ []) (list_add_back head n s)
unfolding list_add_back
list_add_back-IsRing head n xs s k new =
    let led = Links-redirect s.next s.prev head xs head n k.links k.once new.1 in
    let kept =
      Links-write (write (s.prev head) n s.next) (write n (s.prev head) s.prev) n head head n head
        xs n new k.once.0 (ground (arith, new.0)) led in
    record {
      links = Links-append _ _ head xs n [] head kept (ground arith, ground arith);
      once = Once-snoc (head ∷ xs) n k.once new;
    }

-- A new node goes to the front of the ring.
list_add_front-IsRing {ℓ} :
    {K : Type ℓ} (head n : ℕ) (xs : List ℕ) (s : Store K)
    → IsRing head xs s
    → Apart n (head ∷ xs)
    → IsRing head (n ∷ xs) (list_add_front head n s)
unfolding list_add_front
list_add_front-IsRing head n [] s k new = record {
  links = (
    (ground (arith, k.links.0), ground (arith, k.links.0)),
    (ground (arith, k.links.0, new.0), ground (arith, k.links.0, new.0)),
  );
  once = ((ground (arith, new.0), tt), (tt, tt));
}
list_add_front-IsRing head n (x ∷ xs) s k new =
    let first : s.next head ≡ x = k.links.0.0 in
    let x_head : (x == head) ≡ false = ground (arith, k.once.0.0) in
    let n_head : (n == head) ≡ false = new.0 in
    let inner = Links-write s.next s.prev n x x n x xs head new.1 k.once.1.0 x_head k.links.1 in
    let outer =
      Links-write (write n x s.next) (write x n s.prev) head n n head x xs head k.once.0 new.1.1
        n_head inner in
    record {
      links =
          subst
            (λ y.
              Links (write head n (write n y s.next)) (write n head (write y n s.prev)) head
                (n ∷ x ∷ xs) head)
            (sym first)
            (
              (ground arith, ground arith),
              ((ground (arith, n_head), ground (arith, new.1.0)), outer),
            );
      once = ((ground (arith, new.0), k.once.0), (new.1, k.once.1));
    }

Apart-split : (a : ℕ) (xs ys : List ℕ) → Apart a (xs ++ ys) → Apart a xs × Apart a ys
Apart-split a [] ys p = (tt, p)
Apart-split a (x ∷ xs) ys p = let (q, r) = Apart-split a xs ys p.1 in ((p.0, q), r)

pub Once-split : (xs ys : List ℕ) → Once (xs ++ ys) → Once xs × Once ys × Disjoint xs ys
Once-split [] ys o = (tt, o, tt)
Once-split (x ∷ xs) ys o =
    let (p, q, d) = Once-split xs ys o.1 in
    let (r, t) = Apart-split x xs ys o.0 in ((r, p), q, (t, d))

Disjoint-tail : (n : ℕ) (xs ys : List ℕ) → Disjoint xs (n ∷ ys) → Disjoint xs ys
Disjoint-tail n [] ys d = tt
Disjoint-tail n (x ∷ xs) ys d = (d.0.1, Disjoint-tail n xs ys d.1)

-- What the removal writes.
removed {ℓ} :
    {K : Type ℓ} (n : ℕ) (s : Store K)
    → list_remove_node n s ≡ record s {
      next = write (s.prev n) (s.next n) s.next;
      prev = write (s.next n) (s.prev n) s.prev;
    }
unfolding list_remove_node
removed n s =
    let same : write (s.next n) (s.prev n) s.prev n ≡ s.prev n = ground arith in rw same refl

remove-Links :
    (next prev : ℕ → ℕ) (head : ℕ) (xs : List ℕ) (n : ℕ) (ys : List ℕ)
    → Links next prev head (xs ++ n ∷ ys) head
    → Once (head ∷ (xs ++ n ∷ ys))
    → Links (write (prev n) (next n) next) (write (next n) (prev n) prev) head (xs ++ ys) head
remove-Links next prev head xs n [] l o =
    let (l1, l2) = Links-split next prev head xs n [] head l in
    let (p, q, d) = Once-split (head ∷ xs) (n ∷ []) o in
    let e = Links-redirect next prev head xs n head l1 p p.0 in rw (append-nil xs, l2.0) e
remove-Links next prev head xs n (y ∷ ys) l o =
    let (l1, l2) = Links-split next prev head xs n (y ∷ ys) head l in
    let (p, q, d) = Once-split (head ∷ xs) (n ∷ y ∷ ys) o in
    let apart = Disjoint-tail n (head ∷ xs) (y ∷ ys) d in
    let out = Apart-Disjoint y (head ∷ xs) ys apart in
    let e = Links-redirect next prev head xs n y l1 p out.1 in
    let f =
      Links-write next prev (prev n) y y (prev n) y ys head
        (Links-last next prev head xs n (y ∷ ys) l1 apart) q.1.0 out.0 l2.1 in
    rw (l2.0.0) (Links-append _ _ head xs y ys head e f)

-- A node goes, and the rest of the ring stays in its order.
pub list_remove_node-IsRing {ℓ} :
    {K : Type ℓ} (head n : ℕ) (xs ys : List ℕ) (s : Store K)
    → IsRing head (xs ++ n ∷ ys) s
    → IsRing head (xs ++ ys) (list_remove_node n s)
list_remove_node-IsRing head n xs ys s k =
    let (p, q, d) = Once-split (head ∷ xs) (n ∷ ys) k.once in
    rw (removed n s) (record {
      links = remove-Links s.next s.prev head xs n ys k.links k.once;
      once = Once-append (head ∷ xs) ys p q.1 (Disjoint-tail n (head ∷ xs) ys d);
    })
