-- ===== src/Io/CopyBuffer/Tests.antt =====
-- A copy of two reads, with a writer that takes less than it is given and is pending in between.
use realm.Base.{[], ◌∷◌, ◌≡◌, refl, true, false, some, is_some, arith}
use realm.Io.{ready}
use realm.Io.CopyBuffer.{CopyBuffer, poll_copy}
use realm.Io.CopyBuffer.Transfer.{Answers, poll_copy-Answers}
use realm.Io.CopyBuffer.Total.{poll_copy_returns}

abbrev copying : CopyBuffer
copying = record {
  read_done = false;
  need_flush = false;
  pos = 0;
  cap = 0;
  amt = 0;
  buf = 0 ∷ 0 ∷ 0 ∷ 0 ∷ [];
  reads = ready (1 ∷ 2 ∷ 3 ∷ []) ∷ ready (4 ∷ []) ∷ ready [] ∷ [];
  writes = ready 2 ∷ ready 9 ∷ ready 9 ∷ [];
  flushes = ready tt ∷ [];
  received = [];
  sent = [];
}

poll_copy-Answers_example : Answers (poll_copy 5 copying)
poll_copy-Answers_example =
    poll_copy-Answers 5 copying
      (record { ordered = omega arith; room = omega arith; stream = refl; counted = refl })

poll_copy_returns_example : is_some (poll_copy 5 copying).1 ≡ true
poll_copy_returns_example = poll_copy_returns 5 copying (omega arith) (omega arith)

four_bytes : (poll_copy 5 copying).1 ≡ some (ready 4)
unfolding poll_copy
four_bytes = refl
