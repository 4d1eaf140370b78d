-- ===== src/Network/Framing.antt =====
-- The loops FTBNI_UTIL_READ and FTBNI_UTIL_WRITE of ftb_network_tcp.c: the bytes that they read and send,
-- however the network cuts the stream into pieces.
use ftb.Prelude.{
  ℕ, zero, suc, ◌+◌, ◌-◌, ◌≤◌, ◌<◌, ◌≡◌, refl, ap, sym, ◌∙◌, Bool, true, false, List, [], ◌∷◌, ◌++◌,
  arith, length, take, drop, leb, length-append, inl, inr, Bool-cases,
}
use ftb.Network.Stream.{
  Segment, chunk, interrupted, hung_up, Reading, full, lost, waits, after_read, put_back, read_loop,
  Call, wrote, stopped, refused, all_sent, Writing, write_loop,
}

-- The bytes that come before the end of the stream.
unfoldable pub bytes_of : List Segment → List ℕ
bytes_of [] = []
bytes_of (chunk b bs ∷ s) = b ∷ (bs ++ bytes_of s)
bytes_of (interrupted ∷ s) = bytes_of s
bytes_of (hung_up ∷ s) = []

-- The stream has an end.
unfoldable pub is_cut : List Segment → Bool
is_cut [] = false
is_cut (chunk b bs ∷ s) = is_cut s
is_cut (interrupted ∷ s) = is_cut s
is_cut (hung_up ∷ s) = true

pub data Reads (n : ℕ) (s : List Segment) (r : Reading) : Type 0 where
  whole :
      (left : List Segment)
      → n ≤ length (bytes_of s)
      → r ≡ full (take n (bytes_of s)) left
      → bytes_of left ≡ drop n (bytes_of s)
      → is_cut left ≡ is_cut s
      → Reads n s r
  cut : length (bytes_of s) < n → is_cut s ≡ true → r ≡ lost → Reads n s r
  short : length (bytes_of s) < n → is_cut s ≡ false → r ≡ waits → Reads n s r

pub take-more : (k : ℕ) (xs ys : List ℕ) → take (length xs + k) (xs ++ ys) ≡ xs ++ take k ys
take-more k [] ys = ground arith
take-more k (x ∷ xs) ys =
    let e : length (x ∷ xs) + k ≡ suc (length xs + k) = omega arith in
    ap (λ i. take i (x ∷ (xs ++ ys))) e ∙ ap (λ zs. x ∷ zs) (take-more k xs ys)

pub drop-more : (k : ℕ) (xs ys : List ℕ) → drop (length xs + k) (xs ++ ys) ≡ drop k ys
drop-more k [] ys = ground arith
drop-more k (x ∷ xs) ys =
    let e : length (x ∷ xs) + k ≡ suc (length xs + k) = omega arith in
    ap (λ i. drop i (x ∷ (xs ++ ys))) e ∙ drop-more k xs ys

take-less : (k : ℕ) (xs ys : List ℕ) → k ≤ length xs → take k (xs ++ ys) ≡ take k xs
take-less zero xs ys h = refl
take-less (suc k) [] ys h = ground arith
take-less (suc k) (x ∷ xs) ys h = ap (λ zs. x ∷ zs) (take-less k xs ys (omega arith))

drop-less : (k : ℕ) (xs ys : List ℕ) → k ≤ length xs → drop k (xs ++ ys) ≡ drop k xs ++ ys
drop-less zero xs ys h = refl
drop-less (suc k) [] ys h = ground arith
drop-less (suc k) (x ∷ xs) ys h = drop-less k xs ys (omega arith)

bytes_of-put_back : (bs : List ℕ) (s : List Segment) → bytes_of (put_back bs s) ≡ bs ++ bytes_of s
unfolding bytes_of put_back
bytes_of-put_back [] s = refl
bytes_of-put_back (b ∷ bs) s = refl

is_cut-put_back : (bs : List ℕ) (s : List Segment) → is_cut (put_back bs s) ≡ is_cut s
unfolding is_cut put_back
is_cut-put_back [] s = refl
is_cut-put_back (b ∷ bs) s = refl

-- FTBNI_UTIL_READ reads exactly so many bytes, the first ones of the stream, and leaves all others there,
-- however the stream is cut into pieces and however often `read` is interrupted; where the stream has
-- fewer bytes, it sets `err_flag` if the stream has an end, and waits if it has none.
pub read_loop-Reads : (n : ℕ) (s : List Segment) → Reads n s (read_loop n s)
unfolding read_loop bytes_of is_cut after_read
read_loop-Reads zero s = whole s (omega arith) refl refl refl
read_loop-Reads (suc n) [] = short (omega arith) refl refl
read_loop-Reads (suc n) (interrupted ∷ s) = elim (read_loop-Reads (suc n) s) [
  | whole left h e b c ↦ whole left h e b c
  | cut h c e ↦ cut h c e
  | short h c e ↦ short h c e
]
read_loop-Reads (suc n) (hung_up ∷ s) = cut (omega arith) refl refl
read_loop-Reads (suc n) (chunk b bs ∷ s) = elim (Bool-cases (leb (length bs) n)) [
  | inr more ↦
      let few : n ≤ length bs = ground arith in
      whole (put_back (drop n bs) s) (omega (arith, length-append bs (bytes_of s)))
        (rw (more, take-less n bs (bytes_of s) few) refl)
        (bytes_of-put_back (drop n bs) s ∙ sym (drop-less n bs (bytes_of s) few))
        (is_cut-put_back (drop n bs) s)
  | inl less ↦
      let k : ℕ = n - length bs in
      let enough : length bs ≤ n = ground arith in
      let split : n ≡ length bs + k = omega arith in
      let sum = length-append bs (bytes_of s) in
      rw less (elim (read_loop-Reads k s) [
        | whole left h e bytes c ↦
            whole left (omega arith)
              (ap (after_read (b ∷ bs)) e
                ∙ ap (λ xs. full (b ∷ xs) left)
                    (sym (take-more k bs (bytes_of s))
                      ∙ ap (λ i. take i (bs ++ bytes_of s)) (sym split)))
              (bytes
                ∙ sym (drop-more k bs (bytes_of s))
                ∙ ap (λ i. drop i (bs ++ bytes_of s)) (sym split))
              c
        | cut h c e ↦ cut (omega arith) c (ap (after_read (b ∷ bs)) e)
        | short h c e ↦ short (omega arith) c (ap (after_read (b ∷ bs)) e)
      ])
]

take-drop : (k : ℕ) (xs : List ℕ) → take k xs ++ drop k xs ≡ xs
take-drop zero xs = refl
take-drop (suc k) [] = refl
take-drop (suc k) (x ∷ xs) = ap (λ zs. x ∷ zs) (take-drop k xs)

pub append_assoc : (xs ys zs : List ℕ) → (xs ++ ys) ++ zs ≡ xs ++ (ys ++ zs)
append_assoc [] ys zs = refl
append_assoc (x ∷ xs) ys zs = ap (λ l. x ∷ l) (append_assoc xs ys zs)

-- What was sent is where the bytes begin, and all of it where the loop says so.
pub record Writes (bs : List ℕ) (w : Writing) : Type 0 where
  pub unsent : List ℕ
  pub parts : bs ≡ w.sent ++ unsent
  pub done : w.ending ≡ all_sent → unsent ≡ []

-- FTBNI_UTIL_WRITE sends the bytes in their order, none twice and none left out, however few of them a
-- call of `write` takes and however often it is interrupted; unless `err_flag` is set or the call waits,
-- it sends all of them.
pub write_loop-Writes : (bs : List ℕ) (calls : List Call) → Writes bs (write_loop bs calls)
unfolding write_loop
write_loop-Writes [] calls = record { unsent = []; parts = refl; done = λ e. refl }
write_loop-Writes (b ∷ bs) [] = record {
  unsent = b ∷ bs;
  parts = refl;
  done = λ e. absurd (ground arith);
}
write_loop-Writes (b ∷ bs) (stopped ∷ calls) =
    let k = write_loop-Writes (b ∷ bs) calls in
    record { unsent = k.unsent; parts = k.parts; done = k.done }
write_loop-Writes (b ∷ bs) (refused ∷ calls) = record {
  unsent = b ∷ bs;
  parts = refl;
  done = λ e. absurd (ground arith);
}
write_loop-Writes (b ∷ bs) (wrote k ∷ calls) =
    let r = write_loop-Writes (drop k (b ∷ bs)) calls in
    record {
      unsent = r.unsent;
      parts =
          sym (take-drop k (b ∷ bs))
          ∙ ap (λ zs. take k (b ∷ bs) ++ zs) r.parts
          ∙ sym (append_assoc (take k (b ∷ bs)) (write_loop (drop k (b ∷ bs)) calls).sent r.unsent);
      done = r.done;
    }
