-- ===== src/Io/CopyBuffer.antt =====
-- realm_io/src/buf.rs, over the buffer of realm_io/src/mem_copy.rs.

mod Tests
pub mod Transfer
pub mod Total
use realm.Base.{
  ℕ, zero, suc, ◌+◌, ◌-◌, ◌%◌, List, [], ◌∷◌, ◌++◌, Bool, true, false, ◌&&◌, not, if◌then◌else◌,
  length, take, drop, min, nat_eq, ltb, Option, none, some,
}
use realm.Io.{IoError, write_zero, Poll, pending, ready, failed}

-- `CopyBuffer` with the two streams it is polled with: what their next polls answer (a read gives
-- bytes, at most as many as the buffer holds, a write the most that it accepts), and all that was read and written so far.
pub record CopyBuffer : Type 0 where
  pub read_done : Bool
  pub need_flush : Bool
  pub pos : ℕ
  pub cap : ℕ
  pub amt : ℕ
  pub buf : List ℕ
  pub reads : List (Poll (List ℕ))
  pub writes : List (Poll ℕ)
  pub flushes : List (Poll (Unit {0}))
  pub received : List ℕ
  pub sent : List ℕ

abbrev pub u64_mod : ℕ
u64_mod = 18446744073709551616

-- What a phase of the loop comes to: it goes on, or the poll returns.
pub data Phase : Type 0 where
  go_on : CopyBuffer → Phase
  return : CopyBuffer → Poll ℕ → Phase

abbrev pub after_flush : CopyBuffer → Poll (Unit {0}) → Phase
after_flush b pending = return b pending
after_flush b (ready u) = go_on b
after_flush b (failed e) = return b (failed e)

-- `ready!(self.poll_flush_buf(cx, w))?`
abbrev pub flush : CopyBuffer → List (Poll (Unit {0})) → Phase
flush b [] = return b pending
flush b (f ∷ fs) = after_flush (record b { flushes = fs }) f

abbrev pub flushed_pending : Phase → Phase
flushed_pending (go_on b) = return (record b { need_flush = false }) pending
flushed_pending (return b p) = return b p

-- The reader has nothing: flush what the writer may hold back.
unfoldable pub reader_pending : CopyBuffer → Phase
reader_pending b = if b.need_flush then flushed_pending (flush b b.flushes) else return b pending

abbrev pub filled : CopyBuffer → List ℕ → Phase
filled b [] = go_on (record b { read_done = true })
filled b (x ∷ xs) =
    let n = length (x ∷ xs) in
    go_on (record b {
      pos = 0;
      cap = n;
      buf = (x ∷ xs) ++ drop n b.buf;
      received = b.received ++ x ∷ xs;
    })

abbrev pub after_read : CopyBuffer → Poll (List ℕ) → Phase
after_read b pending = reader_pending b
after_read b (ready xs) = filled b xs
after_read b (failed e) = return b (failed e)

abbrev pub read : CopyBuffer → List (Poll (List ℕ)) → Phase
read b [] = reader_pending b
read b (r ∷ rs) = after_read (record b { reads = rs }) r

-- An empty buffer is filled.
unfoldable pub read_phase : CopyBuffer → Phase
unfolding reader_pending
read_phase b = if nat_eq b.pos b.cap && not b.read_done then read b b.reads else go_on b

-- The writer takes `i` bytes from `pos` on.
abbrev pub wrote : ℕ → CopyBuffer → CopyBuffer
wrote i b = record b {
  pos = b.pos + i;
  amt = (b.amt + i) % u64_mod;
  need_flush = true;
  sent = b.sent ++ take i (drop b.pos b.buf);
}

-- `while self.pos < self.cap`, on the polls of the writer. A writer takes no more than it is given.
unfoldable pub write_loop : List (Poll ℕ) → CopyBuffer → Phase
write_loop [] b =
    if ltb b.pos b.cap
    then return (record b { writes = [] }) pending
    else go_on (record b { writes = [] })
write_loop (pending ∷ ws) b =
    if ltb b.pos b.cap
    then return (record b { writes = ws }) pending
    else go_on (record b { writes = pending ∷ ws })
write_loop (failed e ∷ ws) b =
    if ltb b.pos b.cap
    then return (record b { writes = ws }) (failed e)
    else go_on (record b { writes = failed e ∷ ws })
write_loop (ready k ∷ ws) b =
    let i = min k (b.cap - b.pos) in
    let more = write_loop ws (wrote i b) in
    let last = go_on (record b { writes = ready k ∷ ws }) in
    let stop = return (record b { writes = ws }) (failed write_zero) in
    if ltb b.pos b.cap then (if nat_eq i 0 then stop else more) else last

abbrev pub finished : Phase → Phase
finished (go_on b) = return b (ready b.amt)
finished (return b p) = return b p

-- At the end of the input what is left is flushed, and the poll is over.
unfoldable pub finish_phase : CopyBuffer → Phase
finish_phase b = if nat_eq b.pos b.cap && b.read_done then finished (flush b b.flushes) else go_on b

abbrev pub and_then : Phase → (CopyBuffer → Phase) → Phase
and_then (go_on b) f = f b
and_then (return b p) f = return b p

unfoldable pub iteration : CopyBuffer → Phase
unfolding read_phase write_loop finish_phase
iteration b = and_then (and_then (read_phase b) (λ c. write_loop c.writes c)) finish_phase

-- The loop on fuel; `none` is that the fuel ran out.
abbrev pub continue :
    Phase → (CopyBuffer → CopyBuffer × Option (Poll ℕ)) → CopyBuffer × Option (Poll ℕ)
continue (go_on b) f = f b
continue (return b p) f = (b, some p)

unfoldable pub poll_copy : ℕ → CopyBuffer → CopyBuffer × Option (Poll ℕ)
unfolding iteration
poll_copy zero b = (b, none)
poll_copy (suc fuel) b = continue (iteration b) (poll_copy fuel)
