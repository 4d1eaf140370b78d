-- ===== src/Database/Parents.antt =====
-- FTBNI_util_find_parent_addr and the request for a parent: which agent is named, and that one is
-- named whenever there is one.
use mathlib.Core.List.{append_assoc}
use ftb.Prelude.{
  ℕ, zero, suc, ◌%◌, ◌<◌, ◌≤◌, ◌≡◌, refl, sym, ◌∙◌, Bool, true, false, ◌||◌, List, [], ◌∷◌, ◌++◌,
  Option, none, some, arith, ◌==◌, if◌then◌else◌, inl, inr, Bool-cases, Option-cases, length, All,
}
use ftb.Defs.{ok}
use ftb.Map
use ftb.Map.Laws
use ftb.Map.Laws.{Distinct}
use ftb.Database.{
  AddrSock, Pkt, Entry, Server, no_level, entry_addr, is_equal_addr_sock, cross_out_parent_entry,
  suitable, scan_random, scan_rest, after_random, find_parent_addr, answer, answered,
  request_parent, reply, addr_rep,
}
use ftb.Database.Tree.{same_addr, addr_eq, find_addr, IsTree, length-update, count_roots-update}

abbrev pub any_suitable : Pkt → List Entry → Bool
any_suitable pkt [] = false
any_suitable pkt (e ∷ es) = suitable pkt e || any_suitable pkt es

none_suitable : (pkt : Pkt) (es : List Entry) → length es ≡ 0 → any_suitable pkt es ≡ false
none_suitable pkt [] h = refl
none_suitable pkt (e ∷ es) h = absurd (ground arith)

-- What a search may give: nothing where nothing is suitable, and else a suitable entry with `P`.
pub data Choice (P : Entry → Type 0) (pkt : Pkt) (any : Bool) (o : Option Entry) : Type 0 where
  nobody : any ≡ false → o ≡ none → Choice P pkt any o
  chosen : (e : Entry) → o ≡ some e → suitable pkt e ≡ true → P e → Choice P pkt any o

module _ (P : Entry → Type 0) (pkt : Pkt) where
  scan_rest-Choice :
      (es : List Entry) → All P es → Choice P pkt (any_suitable pkt es) (scan_rest pkt es)
  unfolding scan_rest
  scan_rest-Choice [] a = nobody refl refl
  scan_rest-Choice (e ∷ es) a = elim (Bool-cases (suitable pkt e)) [
    | inl fits ↦ chosen e (rw fits refl) fits a.0
    | inr not_it ↦ elim (scan_rest-Choice es a.1) [
      | nobody f g ↦ nobody (rw (not_it, f) refl) (rw not_it g)
      | chosen x g fits p ↦ chosen x (rw not_it g) fits p
    ]
  ]

  -- Once there is a suitable entry, the first loop ends with one.
  scan_kept :
      (n : ℕ) (e : Entry) (es : List Entry)
      → n ≤ length es
      → suitable pkt e ≡ true
      → P e
      → All P es
      → (x : Entry) × (after_random pkt (scan_random pkt n (some e) es) ≡ ok (some x))
        × (suitable pkt x ≡ true)
        × P x
  unfolding scan_random after_random
  scan_kept zero e es le fits p a = (e, refl, fits, p)
  scan_kept (suc n) e [] le fits p a = absurd (ground arith)
  scan_kept (suc n) e (y ∷ es) le fits p a = elim (Bool-cases (suitable pkt y)) [
    | inl also ↦
        let (x, r, f, q) = scan_kept n y es (ground arith) also a.0 a.1 in (x, rw also r, f, q)
    | inr not_it ↦
        let (x, r, f, q) = scan_kept n e es (ground arith) fits p a.1 in (x, rw not_it r, f, q)
  ]

  -- The first loop stays in the map, and what it and the second loop give is a choice.
  scan-Choice :
      (n : ℕ) (es : List Entry)
      → n ≤ length es
      → All P es
      → (o : Option Entry) × (after_random pkt (scan_random pkt n none es) ≡ ok o)
        × Choice P pkt (any_suitable pkt es) o
  unfolding scan_random after_random
  scan-Choice zero es le a = (scan_rest pkt es, refl, scan_rest-Choice es a)
  scan-Choice (suc n) [] le a = absurd (ground arith)
  scan-Choice (suc n) (e ∷ es) le a = elim (Bool-cases (suitable pkt e)) [
    | inl fits ↦
        let (x, r, also, p) = scan_kept n e es (ground arith) fits a.0 a.1 in
        (some x, rw fits r, chosen x refl also p)
    | inr not_it ↦
        let (o, r, c) = scan-Choice n es (ground arith) a.1 in (o, rw not_it r, rw not_it c)
  ]

  -- The search never leaves the map, and finds a suitable entry if there is one, whatever number it
  -- draws.
  find_parent_addr-Choice :
      (rand : ℕ) (s : Server)
      → s.addr_count ≡ length s.addr_map
      → All P s.addr_map
      → (o : Option Entry) × (find_parent_addr rand pkt s ≡ ok o)
        × Choice P pkt (any_suitable pkt s.addr_map) o
  unfolding find_parent_addr
  find_parent_addr-Choice rand s count a = elim (Bool-cases (s.addr_count == 0)) [
    | inl empty ↦ (none, ground arith, nobody (none_suitable pkt s.addr_map (ground arith)) refl)
    | inr some_left ↦
        let n = suc (rand % s.addr_count) in
        let pos : 1 ≤ s.addr_count = ground arith in
        let (o, r, c) = scan-Choice n s.addr_map (omega arith) a in (o, rw (some_left) r, c)
  ]

-- The agent `e` may become the parent: it is registered, on a level above the one that asks, and it is
-- neither the one that asks nor the parent that was lost.
pub record IsParent (pkt : Pkt) (s : Server) (e : Entry) : Type 0 where
  pub registered : find_addr e.addr s.addr_map ≡ some e
  pub above : e.level < pkt.level
  pub not_self : same_addr pkt.addr e.addr ≡ false
  pub not_lost : same_addr pkt.parent_addr e.addr ≡ false

-- The packets that may be sent back: no parent where no agent may become one, and else one that may.
pub data IsAnswer (pkt : Pkt) (s : Server) (sent : Pkt) : Type 0 where
  orphan : ((e : Entry) → ¬ IsParent pkt s e) → sent ≡ reply addr_rep → IsAnswer pkt s sent
  adopted :
      (e : Entry)
      → IsParent pkt s e
      → sent ≡ record (reply addr_rep) { parent_addr = e.addr; level = e.level }
      → IsAnswer pkt s sent

-- Every entry of the map is found by its address.
All-found :
    (before es : List Entry)
    → Distinct entry_addr is_equal_addr_sock (before ++ es)
    → All (λ e. find_addr e.addr (before ++ es) ≡ some e) es
All-found before [] d = tt
All-found before (e ∷ es) d =
    let m = append_assoc before (e ∷ []) es in
    (
      (Laws.Distinct-middle entry_addr is_equal_addr_sock addr_eq before e es d).0,
      rw m at (All-found (before ++ e ∷ []) es (rw m d)),
    )

any_suitable-find :
    (pkt : Pkt) (a : AddrSock) (es : List Entry) (e : Entry)
    → any_suitable pkt es ≡ false
    → find_addr a es ≡ some e
    → suitable pkt e ≡ false
unfolding Map.find_key
any_suitable-find pkt a [] e h f = absurd (ground arith)
any_suitable-find pkt a (x ∷ es) e h f = elim (Bool-cases (same_addr x.addr a)) [
  | inl hit ↦ ground arith
  | inr miss ↦ any_suitable-find pkt a es e (ground arith) (ground arith)
]

-- Crossing out the lost parent keeps the tree.
pub cross_out-IsTree : (pkt : Pkt) (s : Server) → IsTree s → IsTree (cross_out_parent_entry pkt s).1
unfolding cross_out_parent_entry
cross_out-IsTree pkt s k = elim (Option-cases (find_addr pkt.parent_addr s.addr_map)) [
  | inl missing ↦ rw (missing, cross_out_parent_entry) k
  | inr (e, found) ↦
      let f : Entry → Entry = λ x. record x { level = no_level } in
      rw (found, cross_out_parent_entry)
        (record {
          count = k.count ∙ sym (length-update pkt.parent_addr f s.addr_map);
          distinct =
              Laws.update-Distinct entry_addr is_equal_addr_sock addr_eq pkt.parent_addr f
                s.addr_map (λ n. refl) k.distinct;
          root = ground (arith, k.root, count_roots-update pkt.parent_addr no_level s.addr_map);
        })
]

-- What is found once the lost parent is crossed out.
find-crossed :
    (pkt : Pkt) (s : Server) (a : AddrSock)
    → IsTree s
    → find_addr a (cross_out_parent_entry pkt s).1.addr_map ≡ (
        if same_addr pkt.parent_addr a
        then (elim (find_addr a s.addr_map) [
          | none ↦ none
          | some e ↦ some (record e { level = no_level })
        ])
        else find_addr a s.addr_map)
unfolding cross_out_parent_entry
find-crossed pkt s a k = elim (Option-cases (find_addr pkt.parent_addr s.addr_map)) [
  | inl missing ↦
      rw (missing, cross_out_parent_entry)
        (ground (
          arith,
          Laws.find_key_cong entry_addr is_equal_addr_sock addr_eq pkt.parent_addr a s.addr_map,
        ))
  | inr (e, found) ↦
      rw (found, cross_out_parent_entry)
        (Laws.find_key-update entry_addr is_equal_addr_sock addr_eq a pkt.parent_addr
          (λ x. record x { level = no_level }) s.addr_map (λ n. refl) k.distinct)
]

-- An entry that still has a level was not crossed out.
crossed-live :
    (pkt : Pkt) (s : Server) (e : Entry)
    → IsTree s
    → find_addr e.addr (cross_out_parent_entry pkt s).1.addr_map ≡ some e
    → (e.level == no_level) ≡ false
    → (same_addr pkt.parent_addr e.addr ≡ false) × (find_addr e.addr s.addr_map ≡ some e)
crossed-live pkt s e k there live =
    let f = find-crossed pkt s e.addr k in
    elim (Bool-cases (same_addr pkt.parent_addr e.addr)) [
      | inr other ↦ (other, ground arith)
      | inl lost ↦ elim (Option-cases (find_addr e.addr s.addr_map)) [
        | inl missing ↦ absurd (ground arith)
        | inr (x, found) ↦ absurd (ground arith)
      ]
    ]

-- An entry that the search may choose may become the parent.
suitable-IsParent :
    (pkt : Pkt) (s : Server) (e : Entry)
    → IsTree s
    → find_addr e.addr (cross_out_parent_entry pkt s).1.addr_map ≡ some e
    → suitable pkt e ≡ true
    → IsParent pkt s e
unfolding suitable is_equal_addr_sock
suitable-IsParent pkt s e k there fits =
    let (other, found) = crossed-live pkt s e k there (ground arith) in
    record { registered = found; above = ground arith; not_self = ground arith; not_lost = other }

-- The search may choose every agent that may become the parent.
IsParent-suitable :
    (pkt : Pkt) (s : Server) (e : Entry)
    → IsTree s
    → pkt.level < 65536
    → IsParent pkt s e
    → (find_addr e.addr (cross_out_parent_entry pkt s).1.addr_map ≡ some e)
      × (suitable pkt e ≡ true)
unfolding suitable is_equal_addr_sock
IsParent-suitable pkt s e k small p =
    let f = find-crossed pkt s e.addr k in
    (f ∙ ground (arith, p.not_lost, p.registered), ground (arith, p.above, p.not_self))

small_level : (n m : ℕ) → n < m → m < 65536 → n % 65536 ≡ n
small_level n m h k = omega arith

-- A request for a parent is answered, and the search for one does not run out of the map, whatever
-- number it draws: an agent that may become the parent is named, with its level, whenever there is
-- one. The parent that was lost is crossed out, and the tree stays a tree.
pub request_parent-IsAnswer :
    (rand : ℕ) (pkt : Pkt) (s : Server)
    → IsTree s
    → pkt.level < 65536
    → (sent : Pkt) × (t : Server) × (request_parent rand pkt s ≡ ok (some sent, t))
      × IsTree t
      × IsAnswer pkt s sent
unfolding request_parent answered answer
request_parent-IsAnswer rand pkt s k small =
    let t = (cross_out_parent_entry pkt s).1 in
    let q = cross_out-IsTree pkt s k in
    let (o, runs, c) =
      find_parent_addr-Choice (λ e. find_addr e.addr t.addr_map ≡ some e) pkt rand t q.count
        (All-found [] t.addr_map q.distinct) in
    (
      answer o,
      t,
      rw runs refl,
      q,
      elim c [
        | nobody none_fits e ↦
            orphan
              (λ x p.
                let (there, fits) = IsParent-suitable pkt s x k small p in
                absurd (ground (arith, any_suitable-find pkt x.addr t.addr_map x none_fits there)))
              (rw e refl)
        | chosen x e fits there ↦
            let p = suitable-IsParent pkt s x k there fits in
            adopted x p (rw (e, small_level x.level pkt.level p.above small) refl)
      ],
    )
