-- ===== src/Network/Stream.antt =====
-- FTBNI_UTIL_READ and FTBNI_UTIL_WRITE of src/manager_lib/network/network_sock/ftb_network_tcp.c: the
-- loops around `read` and `write`, which take and send as many bytes as they happen to.
use ftb.Prelude.{ℕ, zero, suc, ◌-◌, List, [], ◌∷◌, ◌++◌, length, take, drop, leb, if◌then◌else◌}

-- What the socket has for `read`: some bytes, one at least, an interruption (EINTR, EAGAIN), or the end,
-- where `read` gives 0 or fails.
pub data Segment : Type 0 where
  chunk : ℕ → List ℕ → Segment
  interrupted hung_up : Segment

-- How the reading ends: with all bytes and what the socket has then; with `err_flag` set; or not at all,
-- since `read` waits for bytes.
pub data Reading : Type 0 where
  full : List ℕ → List Segment → Reading
  lost waits : Reading

unfoldable pub after_read : List ℕ → Reading → Reading
after_read bs (full more left) = full (bs ++ more) left
after_read bs r = r

-- The bytes of a segment that `read` had no room for stay in the socket.
unfoldable pub put_back : List ℕ → List Segment → List Segment
put_back [] s = s
put_back (b ∷ bs) s = chunk b bs ∷ s

-- The loop of FTBNI_UTIL_READ, with so many bytes left to read.
unfoldable pub read_loop : ℕ → List Segment → Reading
unfolding after_read put_back
read_loop zero s = full [] s
read_loop (suc n) [] = waits
read_loop (suc n) (interrupted ∷ s) = read_loop (suc n) s
read_loop (suc n) (hung_up ∷ s) = lost
read_loop (suc n) (chunk b bs ∷ s) =
    let rest = after_read (b ∷ bs) (read_loop (n - length bs) s) in
    if leb (length bs) n then rest else full (b ∷ take n bs) (put_back (drop n bs) s)

-- What a call of `write` does: it takes so many bytes at most, is interrupted, or fails.
pub data Call : Type 0 where
  wrote : ℕ → Call
  stopped refused : Call

-- The bytes that were sent, how the writing ends (all sent, `err_flag` set, or `write` waits), and
-- the calls that are left.
pub data Ending : Type 0 where
  all_sent failed blocked : Ending

pub record Writing : Type 0 where
  pub sent : List ℕ
  pub ending : Ending
  pub calls : List Call

abbrev pub after_write : List ℕ → Writing → Writing
after_write bs w = record w { sent = bs ++ w.sent }

-- The loop of FTBNI_UTIL_WRITE, for the bytes that are left to write.
unfoldable pub write_loop : List ℕ → List Call → Writing
write_loop [] calls = record { sent = []; ending = all_sent; calls = calls }
write_loop (b ∷ bs) [] = record { sent = []; ending = blocked; calls = [] }
write_loop (b ∷ bs) (stopped ∷ calls) = write_loop (b ∷ bs) calls
write_loop (b ∷ bs) (refused ∷ calls) = record { sent = []; ending = failed; calls = calls }
write_loop (b ∷ bs) (wrote k ∷ calls) =
    after_write (take k (b ∷ bs)) (write_loop (drop k (b ∷ bs)) calls)
