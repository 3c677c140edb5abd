-- ===== src/Io/BidiCopy.antt =====
-- realm_io/src/bidi_copy.rs: both directions between two streams.
mod Tests
pub mod Delivers
pub mod Returns
use realm.Base.{ℕ, zero, suc, List, [], ◌∷◌, Option, none, some, Bool, true, false, if◌then◌else◌}
use realm.Io.{IoError, Poll, pending, ready, failed}
use realm.Io.CopyBuffer.{CopyBuffer, poll_copy}

pub data TransferState : Type 0 where
  running : TransferState
  shutting_down done : ℕ → TransferState

-- One direction: its state, its buffer with the two streams, what the polls that shut its writer
-- down answer, and whether the writer is shut down. The buffer is of use in the state `running` only.
pub record Direction : Type 0 where
  pub state : TransferState
  pub copy : CopyBuffer
  pub shutdowns : List (Poll (Unit {0}))
  pub closed : Bool

abbrev pub shut_down : ℕ → Direction → Poll (Unit {0}) → Direction × Option (Poll ℕ)
shut_down n d pending = (d, some pending)
shut_down n d (failed e) = (d, some (failed e))
shut_down n d (ready u) = (record d { state = TransferState.done n; closed = true }, some (ready n))

-- `ready!(Pin::new(&mut *w).poll_shutdown(cx))?`
abbrev pub poll_shutdown : ℕ → Direction → List (Poll (Unit {0})) → Direction × Option (Poll ℕ)
poll_shutdown n d [] = (d, some pending)
poll_shutdown n d (p ∷ ps) = shut_down n (record d { shutdowns = ps }) p

-- After a poll of the copy: a copy that is over goes on to the shutdown in the same poll.
abbrev pub copied : Direction → CopyBuffer × Option (Poll ℕ) → Direction × Option (Poll ℕ)
copied d (b, none) = (record d { copy = b }, none)
copied d (b, some pending) = (record d { copy = b }, some pending)
copied d (b, some (failed e)) = (record d { copy = b }, some (failed e))
copied d (b, some (ready n)) =
    poll_shutdown n (record d { state = TransferState.shutting_down n; copy = b }) d.shutdowns

abbrev pub transfer_from : ℕ → Direction → TransferState → Direction × Option (Poll ℕ)
transfer_from fuel d TransferState.running = copied d (poll_copy fuel d.copy)
transfer_from fuel d (TransferState.shutting_down n) = poll_shutdown n d d.shutdowns
transfer_from fuel d (TransferState.done n) = (d, some (ready n))

-- The loop runs once for each state that is left; `none` is that the copy ran out of fuel.
unfoldable pub transfer : ℕ → Direction → Direction × Option (Poll ℕ)
transfer fuel d = transfer_from fuel d d.state

-- The same loop, with the types of the streams the other way round.
abbrev pub transfer2 : ℕ → Direction → Direction × Option (Poll ℕ)
transfer2 fuel d = transfer fuel d

pub record BidiCopy : Type 0 where
  pub a_to_b : Direction
  pub b_to_a : Direction

-- Without the feature brutal-shutdown: both directions have to be over.
abbrev pub graceful : Poll ℕ → Poll ℕ → Poll (ℕ × ℕ)
graceful (failed e) y = failed e
graceful pending (failed e) = failed e
graceful pending pending = pending
graceful pending (ready m) = pending
graceful (ready n) (failed e) = failed e
graceful (ready n) pending = pending
graceful (ready n) (ready m) = ready (n, m)

-- With it: one is enough.
abbrev pub brutal : Poll ℕ → Poll ℕ → Poll (ℕ × ℕ)
brutal (failed e) y = failed e
brutal pending (failed e) = failed e
brutal pending pending = pending
brutal pending (ready m) = ready (0, m)
brutal (ready n) (failed e) = failed e
brutal (ready n) pending = ready (n, 0)
brutal (ready n) (ready m) = ready (n, m)

abbrev pub joined :
    Bool → Poll ℕ → Direction × Option (Poll ℕ) → Direction → BidiCopy × Option (Poll (ℕ × ℕ))
joined b x (d, none) a = (record { a_to_b = a; b_to_a = d }, none)
joined b x (d, some y) a =
    (record { a_to_b = a; b_to_a = d }, some (if b then brutal x y else graceful x y))

-- A failure of the first direction returns before the second one is polled.
abbrev pub polled :
    Bool → ℕ → Direction → Direction × Option (Poll ℕ) → BidiCopy × Option (Poll (ℕ × ℕ))
polled b fuel d (a, none) = (record { a_to_b = a; b_to_a = d }, none)
polled b fuel d (a, some (failed e)) = (record { a_to_b = a; b_to_a = d }, some (failed e))
polled b fuel d (a, some pending) = joined b pending (transfer2 fuel d) a
polled b fuel d (a, some (ready n)) = joined b (ready n) (transfer2 fuel d) a

unfoldable pub poll : Bool → ℕ → BidiCopy → BidiCopy × Option (Poll (ℕ × ℕ))
unfolding transfer
poll b fuel c = polled b fuel c.b_to_a (transfer fuel c.a_to_b)

abbrev direction : CopyBuffer → List (Poll (Unit {0})) → Direction
direction buf ss = record {
  state = TransferState.running;
  copy = buf;
  shutdowns = ss;
  closed = false;
}

abbrev pub again :
    BidiCopy × Option (Poll (ℕ × ℕ))
    → (BidiCopy → BidiCopy × Option (Poll (ℕ × ℕ)))
    → BidiCopy × Option (Poll (ℕ × ℕ))
again (c, none) f = (c, none)
again (c, some pending) f = f c
again (c, some (failed e)) f = (c, some (failed e))
again (c, some (ready r)) f = (c, some (ready r))

-- `.await`: the copy is polled again after each poll that is pending, at most so many times.
unfoldable pub await : Bool → ℕ → ℕ → BidiCopy → BidiCopy × Option (Poll (ℕ × ℕ))
unfolding poll
await b fuel zero c = (c, some pending)
await b fuel (suc n) c = again (poll b fuel c) (await b fuel n)

unfoldable pub bidi_copy_buf :
    Bool
    → ℕ
    → ℕ
    → CopyBuffer
    → CopyBuffer
    → List (Poll (Unit {0}))
    → List (Poll (Unit {0}))
    → BidiCopy × Option (Poll (ℕ × ℕ))
unfolding await
bidi_copy_buf b fuel polls x y sx sy =
    await b fuel polls (record { a_to_b = direction x sx; b_to_a = direction y sy })
