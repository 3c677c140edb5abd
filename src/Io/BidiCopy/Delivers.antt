-- ===== src/Io/BidiCopy/Delivers.antt =====
-- realm_io/src/bidi_copy.rs: what has been sent when a writer is shut down, and when the copy is over.
use realm.Base.{
  ℕ, zero, suc, ◌%◌, List, [], ◌∷◌, ◌⊎◌, inl, inr, ◌≡◌, refl, Option, none, some, Bool, true, false,
  length,
}
use realm.Io.{Poll, pending, ready, failed}
use realm.Io.CopyBuffer.{CopyBuffer, u64_mod}
use realm.Io.CopyBuffer.Transfer.{IsValid, Answers, poll_copy-Answers}
use realm.Io.BidiCopy.{
  TransferState, Direction, BidiCopy, poll_shutdown, copied, transfer_from, transfer, joined,
  polled, poll, again, await, bidi_copy_buf,
}

-- The bytes sent are the bytes received, and the count is their number.
abbrev pub Delivered : ℕ → CopyBuffer → Type 0
Delivered n b = (b.sent ≡ b.received) × (n ≡ length b.received % u64_mod)

abbrev pub InState : Direction → TransferState → Type 0
InState d TransferState.running = IsValid d.copy × (d.closed ≡ false)
InState d (TransferState.shutting_down n) = Delivered n d.copy × (d.closed ≡ false)
InState d (TransferState.done n) = Delivered n d.copy × (d.closed ≡ true)

-- The writer is shut down in the state `done` only, and all that was received has been sent from
-- the state `shutting_down` on.
abbrev pub IsOrderly : Direction → Type 0
IsOrderly d = InState d d.state

-- The direction is over: all that was received is sent, and then the writer was shut down.
abbrev pub IsOver : ℕ → Direction → Type 0
IsOver n d = (d.state ≡ TransferState.done n) × Delivered n d.copy × (d.closed ≡ true)

abbrev Ends : Direction → Poll ℕ → Type 0
Ends d pending = Unit {0}
Ends d (failed e) = Unit {0}
Ends d (ready n) = IsOver n d

abbrev Leaves : Direction × Option (Poll ℕ) → Type 0
Leaves (d, none) = IsOrderly d
Leaves (d, some p) = IsOrderly d × Ends d p

poll_shutdown-Leaves :
    (n : ℕ) (d : Direction) (ps : List (Poll (Unit {0})))
    → d.state ≡ TransferState.shutting_down n
    → Delivered n d.copy
    → d.closed ≡ false
    → Leaves (poll_shutdown n d ps)
poll_shutdown-Leaves n d [] s v c = (rw s (v, c), tt)
poll_shutdown-Leaves n d (pending ∷ ps) s v c = (rw s (v, c), tt)
poll_shutdown-Leaves n d (failed e ∷ ps) s v c = (rw s (v, c), tt)
poll_shutdown-Leaves n d (ready u ∷ ps) s v c = ((v, refl), (refl, v, refl))

copied-Leaves :
    (d : Direction) (x : CopyBuffer × Option (Poll ℕ))
    → d.state ≡ TransferState.running
    → d.closed ≡ false
    → Answers x
    → Leaves (copied d x)
copied-Leaves d (b, none) s c v = rw s (v, c)
copied-Leaves d (b, some pending) s c v = (rw s (v.0, c), tt)
copied-Leaves d (b, some (failed e)) s c v = (rw s (v.0, c), tt)
copied-Leaves d (b, some (ready n)) s c v = poll_shutdown-Leaves n _ d.shutdowns refl v.1 c

transfer-Leaves : (fuel : ℕ) (d : Direction) → IsOrderly d → Leaves (transfer fuel d)
unfolding transfer
transfer-Leaves fuel d = go d.state refl
  where
    go : (s : TransferState) → d.state ≡ s → InState d s → Leaves (transfer_from fuel d s)
    go TransferState.running e h = copied-Leaves d _ e h.1 (poll_copy-Answers fuel d.copy h.0)
    go (TransferState.shutting_down n) e h = poll_shutdown-Leaves n d d.shutdowns e h.0 h.1
    go (TransferState.done n) e h = (rw e h, (e, h.0, h.1))

abbrev pub BothOrderly : BidiCopy → Type 0
BothOrderly c = IsOrderly c.a_to_b × IsOrderly c.b_to_a

-- What an answer means, by whether one direction is enough: the directions that are over.
abbrev pub Means : Bool → BidiCopy → ℕ × ℕ → Type 0
Means false c (n, m) = IsOver n c.a_to_b × IsOver m c.b_to_a
Means true c (n, m) = IsOver n c.a_to_b ⊎ IsOver m c.b_to_a

abbrev pub Answered : Bool → BidiCopy × Option (Poll (ℕ × ℕ)) → Type 0
Answered b (c, none) = BothOrderly c
Answered b (c, some pending) = BothOrderly c
Answered b (c, some (failed e)) = BothOrderly c
Answered b (c, some (ready r)) = BothOrderly c × Means b c r

joined-Answered :
    (b : Bool) (x : Poll ℕ) (y : Direction × Option (Poll ℕ)) (a : Direction)
    → IsOrderly a
    → Ends a x
    → Leaves y
    → Answered b (joined b x y a)
joined-Answered b x (d, none) a v w h = (v, h)
joined-Answered false (failed e) (d, some y) a v w h = (v, h.0)
joined-Answered false pending (d, some (failed e)) a v w h = (v, h.0)
joined-Answered false pending (d, some pending) a v w h = (v, h.0)
joined-Answered false pending (d, some (ready m)) a v w h = (v, h.0)
joined-Answered false (ready n) (d, some (failed e)) a v w h = (v, h.0)
joined-Answered false (ready n) (d, some pending) a v w h = (v, h.0)
joined-Answered false (ready n) (d, some (ready m)) a v w h = ((v, h.0), (w, h.1))
joined-Answered true (failed e) (d, some y) a v w h = (v, h.0)
joined-Answered true pending (d, some (failed e)) a v w h = (v, h.0)
joined-Answered true pending (d, some pending) a v w h = (v, h.0)
joined-Answered true pending (d, some (ready m)) a v w h = ((v, h.0), inr h.1)
joined-Answered true (ready n) (d, some (failed e)) a v w h = (v, h.0)
joined-Answered true (ready n) (d, some pending) a v w h = ((v, h.0), inl w)
joined-Answered true (ready n) (d, some (ready m)) a v w h = ((v, h.0), inl w)

pub poll-Answered :
    (b : Bool) (fuel : ℕ) (c : BidiCopy) → BothOrderly c → Answered b (poll b fuel c)
unfolding poll
poll-Answered b fuel c v = go (transfer fuel c.a_to_b) (transfer-Leaves fuel c.a_to_b v.0)
  where
    go : (x : Direction × Option (Poll ℕ)) → Leaves x → Answered b (polled b fuel c.b_to_a x)
    go (a, none) h = (h, v.1)
    go (a, some (failed e)) h = (h.0, v.1)
    go (a, some pending) h =
        joined-Answered b pending _ a h.0 h.1 (transfer-Leaves fuel c.b_to_a v.1)
    go (a, some (ready n)) h =
        joined-Answered b (ready n) _ a h.0 h.1 (transfer-Leaves fuel c.b_to_a v.1)

await-Answered :
    (b : Bool) (fuel n : ℕ) (c : BidiCopy) → BothOrderly c → Answered b (await b fuel n c)
unfolding await
await-Answered b fuel zero c v = v
await-Answered b fuel (suc n) c v =
    go (poll b fuel c) (poll-Answered b fuel c v) (await-Answered b fuel n)
  where
    go :
        (x : BidiCopy × Option (Poll (ℕ × ℕ)))
        → Answered b x
        → ((e : BidiCopy) → BothOrderly e → Answered b (await b fuel n e))
        → Answered b (again x (await b fuel n))
    go (e, none) h k = h
    go (e, some pending) h k = k e h
    go (e, some (failed x)) h k = h
    go (e, some (ready r)) h k = h

-- From two valid buffers, with any fuel and any number of polls, and whatever the two streams
-- answer to each: a writer is shut down only after all that was received for it has been sent;
-- and where the copy is over with success, both directions have sent all they received, in order,
-- before their writers were shut down, and the answer is the two numbers of bytes modulo 2^64
-- (with the feature brutal-shutdown, this holds of one of the two directions at least).
pub bidi_copy_buf-Answered :
    (b : Bool) (fuel polls : ℕ) (x y : CopyBuffer) (sx sy : List (Poll (Unit {0})))
    → IsValid x
    → IsValid y
    → Answered b (bidi_copy_buf b fuel polls x y sx sy)
unfolding bidi_copy_buf
bidi_copy_buf-Answered b fuel polls x y sx sy v w =
    await-Answered b fuel polls _ ((v, refl), (w, refl))
