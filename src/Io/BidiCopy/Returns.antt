-- ===== src/Io/BidiCopy/Returns.antt =====
-- realm_io/src/bidi_copy.rs: with fuel for its copies, every poll returns.
use realm.Base.{
  ℕ, zero, suc, ◌+◌, ◌<◌, ◌≤◌, List, [], ◌∷◌, ◌≡◌, refl, Option, none, some, Bool, true, false,
  ◌&&◌, not, if◌then◌else◌, length, is_some, nat_eq, ltb, arith,
}
use Prim.Native.Nat.{min, ◌-◌}
use realm.Io.{Poll, pending, ready, failed}
use realm.Io.CopyBuffer.{
  CopyBuffer, Phase, go_on, return, flush, flushed_pending, reader_pending, read, read_phase,
  write_loop, finished, finish_phase, and_then, iteration, continue, poll_copy,
}
use realm.Io.CopyBuffer.Transfer.{IsValid}
use realm.Io.CopyBuffer.Total.{poll_copy_returns}
use realm.Io.BidiCopy.{
  TransferState, Direction, BidiCopy, poll_shutdown, copied, transfer_from, transfer, joined,
  polled, poll, again, await, bidi_copy_buf,
}
use realm.Io.BidiCopy.Delivers.{BothOrderly, Answered, IsOrderly, InState, poll-Answered}

-- At most so many answers of the reader are left.
abbrev Few : ℕ → Phase → Type 0
Few k (go_on b) = length b.reads ≤ k
Few k (return b p) = length b.reads ≤ k

if-Few : (k : ℕ) (t : Bool) (x y : Phase) → Few k x → Few k y → Few k (if t then x else y)
if-Few k true x y h l = h
if-Few k false x y h l = l

flush-Few :
    (k : ℕ) (b : CopyBuffer) (fs : List (Poll (Unit {0}))) → length b.reads ≤ k → Few k (flush b fs)
flush-Few k b [] h = h
flush-Few k b (pending ∷ fs) h = h
flush-Few k b (ready u ∷ fs) h = h
flush-Few k b (failed e ∷ fs) h = h

flushed_pending-Few : (k : ℕ) (x : Phase) → Few k x → Few k (flushed_pending x)
flushed_pending-Few k (go_on b) h = h
flushed_pending-Few k (return b p) h = h

finished-Few : (k : ℕ) (x : Phase) → Few k x → Few k (finished x)
finished-Few k (go_on b) h = h
finished-Few k (return b p) h = h

and_then-Few :
    (k : ℕ) (x : Phase) (f : CopyBuffer → Phase)
    → Few k x
    → ((b : CopyBuffer) → length b.reads ≤ k → Few k (f b))
    → Few k (and_then x f)
and_then-Few k (go_on b) f h l = l b h
and_then-Few k (return b p) f h l = h

reader_pending-Few : (k : ℕ) (b : CopyBuffer) → length b.reads ≤ k → Few k (reader_pending b)
unfolding reader_pending
reader_pending-Few k b h =
    if-Few k b.need_flush _ _ (flushed_pending-Few k _ (flush-Few k b b.flushes h)) h

read-Few :
    (k : ℕ) (b : CopyBuffer) (rs : List (Poll (List ℕ)))
    → length b.reads ≤ k
    → length rs ≤ k
    → Few k (read b rs)
read-Few k b [] h l = reader_pending-Few k b h
read-Few k b (pending ∷ rs) h l = reader_pending-Few k _ (omega (arith, l))
read-Few k b (failed e ∷ rs) h l = omega (arith, l)
read-Few k b (ready [] ∷ rs) h l = omega (arith, l)
read-Few k b (ready (x ∷ xs) ∷ rs) h l = omega (arith, l)

write_loop-Few :
    (k : ℕ) (ws : List (Poll ℕ)) (b : CopyBuffer) → length b.reads ≤ k → Few k (write_loop ws b)
unfolding write_loop
write_loop-Few k [] b h = if-Few k (ltb b.pos b.cap) _ _ h h
write_loop-Few k (pending ∷ ws) b h = if-Few k (ltb b.pos b.cap) _ _ h h
write_loop-Few k (failed e ∷ ws) b h = if-Few k (ltb b.pos b.cap) _ _ h h
write_loop-Few k (ready n ∷ ws) b h =
    if-Few k (ltb b.pos b.cap) _ _
      (if-Few k (nat_eq (min n (b.cap - b.pos)) 0) _ _ h (write_loop-Few k ws _ h)) h

iteration-Few : (k : ℕ) (b : CopyBuffer) → length b.reads ≤ k → Few k (iteration b)
unfolding iteration read_phase finish_phase
iteration-Few k b h =
    and_then-Few k _ _
      (and_then-Few k (if nat_eq b.pos b.cap && not b.read_done then read b b.reads else go_on b) _
        (if-Few k (nat_eq b.pos b.cap && not b.read_done) _ _ (read-Few k b b.reads h h) h)
        (λ c l. write_loop-Few k c.writes c l))
      (λ c l.
        if-Few k (nat_eq c.pos c.cap && c.read_done) _ _
          (finished-Few k _ (flush-Few k c c.flushes l)) l)

-- A poll takes answers of the reader and adds none.
poll_copy-reads :
    (k fuel : ℕ) (b : CopyBuffer) → length b.reads ≤ k → length (poll_copy fuel b).0.reads ≤ k
unfolding poll_copy
poll_copy-reads k zero b h = h
poll_copy-reads k (suc fuel) b h = go (iteration b) (iteration-Few k b h) (poll_copy-reads k fuel)
  where
    go :
        (x : Phase)
        → Few k x
        → ((c : CopyBuffer) → length c.reads ≤ k → length (poll_copy fuel c).0.reads ≤ k)
        → length (continue x (poll_copy fuel)).0.reads ≤ k
    go (go_on c) l again = again c l
    go (return c p) l again = l

-- The transfer returns, and its reader has no more answers left than before.
abbrev Done : ℕ → Direction × Option (Poll ℕ) → Type 0
Done k (d, none) = ⊥
Done k (d, some p) = length d.copy.reads ≤ k

poll_shutdown-Done :
    (k n : ℕ) (d : Direction) (ps : List (Poll (Unit {0})))
    → length d.copy.reads ≤ k
    → Done k (poll_shutdown n d ps)
poll_shutdown-Done k n d [] h = h
poll_shutdown-Done k n d (pending ∷ ps) h = h
poll_shutdown-Done k n d (failed e ∷ ps) h = h
poll_shutdown-Done k n d (ready u ∷ ps) h = h

copied-Done :
    (k : ℕ) (d : Direction) (x : CopyBuffer × Option (Poll ℕ))
    → is_some x.1 ≡ true
    → length x.0.reads ≤ k
    → Done k (copied d x)
copied-Done k d (b, none) s h = absurd (go s)
  where
    go : false ≡ true → ⊥
    go e = cc
copied-Done k d (b, some pending) s h = h
copied-Done k d (b, some (failed e)) s h = h
copied-Done k d (b, some (ready n)) s h = poll_shutdown-Done k n _ d.shutdowns h

transfer-Done :
    (k fuel : ℕ) (d : Direction)
    → k + 1 < fuel
    → IsOrderly d
    → length d.copy.reads ≤ k
    → Done k (transfer fuel d)
unfolding transfer
transfer-Done k fuel d f v h = go d.state v
  where
    go : (s : TransferState) → InState d s → Done k (transfer_from fuel d s)
    go TransferState.running w =
        copied-Done k d _ (poll_copy_returns fuel d.copy w.0.ordered (omega (arith, f, h)))
          (poll_copy-reads k fuel d.copy h)
    go (TransferState.shutting_down n) w = poll_shutdown-Done k n d d.shutdowns h
    go (TransferState.done n) w = h

abbrev Within : ℕ → BidiCopy → Type 0
Within k c = (length c.a_to_b.copy.reads ≤ k) × (length c.b_to_a.copy.reads ≤ k)

abbrev Returned : ℕ → BidiCopy × Option (Poll (ℕ × ℕ)) → Type 0
Returned k (c, none) = ⊥
Returned k (c, some p) = Within k c

joined-Returned :
    (k : ℕ) (b : Bool) (x : Poll ℕ) (y : Direction × Option (Poll ℕ)) (a : Direction)
    → length a.copy.reads ≤ k
    → Done k y
    → Returned k (joined b x y a)
joined-Returned k b x (d, none) a l h = h
joined-Returned k b x (d, some p) a l h = (l, h)

poll-Returned :
    (k : ℕ) (b : Bool) (fuel : ℕ) (c : BidiCopy)
    → k + 1 < fuel
    → BothOrderly c
    → Within k c
    → Returned k (poll b fuel c)
unfolding poll
poll-Returned k b fuel c f v l =
    go (transfer fuel c.a_to_b) (transfer-Done k fuel c.a_to_b f v.0 l.0)
  where
    go : (x : Direction × Option (Poll ℕ)) → Done k x → Returned k (polled b fuel c.b_to_a x)
    go (a, none) h = h
    go (a, some (failed e)) h = (h, l.1)
    go (a, some pending) h =
        joined-Returned k b pending _ a h (transfer-Done k fuel c.b_to_a f v.1 l.1)
    go (a, some (ready n)) h =
        joined-Returned k b (ready n) _ a h (transfer-Done k fuel c.b_to_a f v.1 l.1)

await-Returned :
    (k : ℕ) (b : Bool) (fuel n : ℕ) (c : BidiCopy)
    → k + 1 < fuel
    → BothOrderly c
    → Within k c
    → Returned k (await b fuel n c)
unfolding await
await-Returned k b fuel zero c f v l = l
await-Returned k b fuel (suc n) c f v l =
    go (poll b fuel c) (poll-Answered b fuel c v) (poll-Returned k b fuel c f v l)
      (λ e. await-Returned k b fuel n e f)
  where
    go :
        (x : BidiCopy × Option (Poll (ℕ × ℕ)))
        → Answered b x
        → Returned k x
        → ((e : BidiCopy) → BothOrderly e → Within k e → Returned k (await b fuel n e))
        → Returned k (again x (await b fuel n))
    go (e, none) h r more = r
    go (e, some pending) h r more = more e h r
    go (e, some (failed x)) h r more = r
    go (e, some (ready x)) h r more = r

returned : (k : ℕ) (x : BidiCopy × Option (Poll (ℕ × ℕ))) → Returned k x → is_some x.1 ≡ true
returned k (c, none) h = absurd h
returned k (c, some p) h = refl

-- From two valid buffers whose readers have at most k answers each, with fuel for two rounds more
-- than that, every poll of the copy returns, however often it is polled and whatever the
-- streams answer.
pub bidi_copy_buf_returns :
    (k : ℕ) (b : Bool) (fuel polls : ℕ) (x y : CopyBuffer) (sx sy : List (Poll (Unit {0})))
    → IsValid x
    → IsValid y
    → length x.reads ≤ k
    → length y.reads ≤ k
    → k + 1 < fuel
    → is_some (bidi_copy_buf b fuel polls x y sx sy).1 ≡ true
unfolding bidi_copy_buf
bidi_copy_buf_returns k b fuel polls x y sx sy v w lx ly f =
    returned k (bidi_copy_buf b fuel polls x y sx sy)
      (await-Returned k b fuel polls _ f ((v, refl), (w, refl)) (lx, ly))
