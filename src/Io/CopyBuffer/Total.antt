-- ===== src/Io/CopyBuffer/Total.antt =====
-- poll_copy of realm_io/src/buf.rs: the number of rounds of its loop.
use realm.Base.{
  ℕ, zero, suc, ◌+◌, ◌<◌, ◌≤◌, List, [], ◌∷◌, ◌≡◌, refl, sym, ◌∙◌, Bool, true, false, ◌&&◌, not,
  if◌then◌else◌, length, nat_eq, ltb, is_some, Bool-cases, inl, inr, arith,
}
use Prim.Native.Nat.{min, ◌-◌}
use realm.Io.{Poll, pending, ready, failed}
use realm.Io.CopyBuffer.{
  CopyBuffer, Phase, go_on, return, flush, flushed_pending, reader_pending, read, read_phase, wrote,
  write_loop, finished, finish_phase, and_then, iteration, continue, poll_copy,
}

-- How many rounds can follow: one for each answer of the reader, and one where the buffer holds
-- bytes that are not written.
abbrev rounds : CopyBuffer → ℕ
rounds b = if nat_eq b.pos b.cap then length b.reads else suc (length b.reads)

-- The write loop ends with nothing left to write, or the poll returns.
abbrev Written : CopyBuffer → Phase → Type 0
Written b (go_on c) =
    (nat_eq c.pos c.cap ≡ true) × (c.reads ≡ b.reads) × (c.read_done ≡ b.read_done)
Written b (return c p) = Unit {0}

if_case :
    (P : Phase → Type 0) (t : Bool) (x y : Phase)
    → (t ≡ true → P x)
    → (t ≡ false → P y)
    → P (if t then x else y)
if_case P true x y hx hy = hx refl
if_case P false x y hx hy = hy refl

write_loop-Written :
    (ws : List (Poll ℕ)) (b : CopyBuffer) → b.pos ≤ b.cap → Written b (write_loop ws b)
unfolding write_loop
write_loop-Written [] b v =
    if_case (Written b) (ltb b.pos b.cap) _ _ (λ h. tt) (λ h. (ground arith, refl, refl))
write_loop-Written (pending ∷ ws) b v =
    if_case (Written b) (ltb b.pos b.cap) _ _ (λ h. tt) (λ h. (ground arith, refl, refl))
write_loop-Written (failed e ∷ ws) b v =
    if_case (Written b) (ltb b.pos b.cap) _ _ (λ h. tt) (λ h. (ground arith, refl, refl))
write_loop-Written (ready k ∷ ws) b v =
    if_case (Written b) (ltb b.pos b.cap) _ _
      (λ h.
        if_case (Written b) (nat_eq (min k (b.cap - b.pos)) 0) _ _ (λ i. tt)
          (λ i. write_loop-Written ws (wrote (min k (b.cap - b.pos)) b) (omega arith)))
      (λ h. (ground arith, refl, refl))

-- The read phase takes an answer of the reader, unless there are bytes to write or the input ended.
abbrev Took : CopyBuffer → Phase → Type 0
Took b (go_on c) = (c.pos ≤ c.cap) × (c.read_done ≡ false → length c.reads < rounds b)
Took b (return c p) = Unit {0}

flushed_pending-Took : (b : CopyBuffer) (x : Phase) → Took b (flushed_pending x)
flushed_pending-Took b (go_on c) = tt
flushed_pending-Took b (return c p) = tt

reader_pending-Took : (b c : CopyBuffer) → Took b (reader_pending c)
unfolding reader_pending
reader_pending-Took b c =
    if_case (Took b) c.need_flush _ _ (λ h. flushed_pending-Took b (flush c c.flushes)) (λ h. tt)

read-Took :
    (b c : CopyBuffer) (rs : List (Poll (List ℕ)))
    → c.pos ≤ c.cap
    → length rs ≤ rounds b
    → Took b (read c rs)
read-Took b c [] v h = reader_pending-Took b c
read-Took b c (pending ∷ rs) v h = reader_pending-Took b _
read-Took b c (failed e ∷ rs) v h = tt
read-Took b c (ready [] ∷ rs) v h = (v, λ e. cc)
read-Took b c (ready (x ∷ xs) ∷ rs) v h = (omega arith, λ e. omega (arith, h))

read_phase-Took : (b : CopyBuffer) → b.pos ≤ b.cap → Took b (read_phase b)
unfolding read_phase
read_phase-Took b v = elim (Bool-cases (nat_eq b.pos b.cap && not b.read_done)) [
  | inl h ↦ rw h (read-Took b b b.reads v (ground arith))
  | inr h ↦ rw h (v, λ e. ground arith)
]

-- A round that goes on leaves fewer to come.
abbrev Shortens : CopyBuffer → Phase → Type 0
Shortens b (go_on c) = (c.pos ≤ c.cap) × (rounds c < rounds b)
Shortens b (return c p) = Unit {0}

finished-Shortens : (b : CopyBuffer) (x : Phase) → Shortens b (finished x)
finished-Shortens b (go_on c) = tt
finished-Shortens b (return c p) = tt

finish_phase-Shortens :
    (b c : CopyBuffer)
    → nat_eq c.pos c.cap ≡ true
    → (c.read_done ≡ false → length c.reads < rounds b)
    → Shortens b (finish_phase c)
unfolding finish_phase
finish_phase-Shortens b c e h =
    if_case (Shortens b) (nat_eq c.pos c.cap && c.read_done) _ _
      (λ d. finished-Shortens b (flush c c.flushes)) (λ d. (ground arith, rw e (h (ground arith))))

iteration-Shortens : (b : CopyBuffer) → b.pos ≤ b.cap → Shortens b (iteration b)
unfolding iteration
iteration-Shortens b v = took (read_phase b) (read_phase-Took b v)
  where
    wrote_all :
        (c : CopyBuffer) (x : Phase)
        → (c.read_done ≡ false → length c.reads < rounds b)
        → Written c x
        → Shortens b (and_then x finish_phase)
    wrote_all c (return d p) h w = tt
    wrote_all c (go_on d) h (e, r, f) = finish_phase-Shortens b d e (λ k. rw r (h (sym f ∙ k)))

    took :
        (x : Phase)
        → Took b x
        → Shortens b (and_then (and_then x (λ c. write_loop c.writes c)) finish_phase)
    took (return c p) h = tt
    took (go_on c) (o, h) = wrote_all c (write_loop c.writes c) h (write_loop-Written c.writes c o)

rounds-poll_copy :
    (fuel : ℕ) (b : CopyBuffer)
    → b.pos ≤ b.cap
    → rounds b < fuel
    → is_some (poll_copy fuel b).1 ≡ true
unfolding poll_copy
rounds-poll_copy zero b v h = absurd (omega (arith, h))
rounds-poll_copy (suc fuel) b v h =
    go (iteration b) (iteration-Shortens b v) (rounds-poll_copy fuel)
  where
    go :
        (x : Phase)
        → Shortens b x
        → ((c : CopyBuffer) → c.pos ≤ c.cap → rounds c < fuel → is_some (poll_copy fuel c).1 ≡ true)
        → is_some (continue x (poll_copy fuel)).1 ≡ true
    go (return c p) w again = refl
    go (go_on c) (o, w) again = again c o (omega (arith, h, w))

-- From a buffer whose position is within what was read, with fuel for two rounds more than
-- the reader has answers, the copy returns: it is over, it fails or it is pending.
pub poll_copy_returns :
    (fuel : ℕ) (b : CopyBuffer)
    → b.pos ≤ b.cap
    → length b.reads + 1 < fuel
    → is_some (poll_copy fuel b).1 ≡ true
poll_copy_returns fuel b v h = rounds-poll_copy fuel b v (ground arith)
