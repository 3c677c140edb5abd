-- ===== src/Io/BidiCopy/Tests.antt =====
-- Three bytes one way and one the other.
use realm.Base.{[], ◌∷◌, ◌≡◌, refl, true, false, some, is_some, arith}
use realm.Io.{ready, pending}
use realm.Io.CopyBuffer.{CopyBuffer, poll_copy}
use realm.Io.CopyBuffer.Transfer.{IsValid}
use realm.Io.BidiCopy.{bidi_copy_buf, poll, await, transfer}
use realm.Io.BidiCopy.Delivers.{Answered, bidi_copy_buf-Answered}
use realm.Io.BidiCopy.Returns.{bidi_copy_buf_returns}

abbrev upload : CopyBuffer
upload = record {
  read_done = false;
  need_flush = false;
  pos = 0;
  cap = 0;
  amt = 0;
  buf = 0 ∷ 0 ∷ [];
  reads = ready (1 ∷ 2 ∷ []) ∷ pending ∷ ready (3 ∷ []) ∷ ready [] ∷ [];
  writes = ready 2 ∷ ready 9 ∷ [];
  flushes = ready tt ∷ ready tt ∷ [];
  received = [];
  sent = [];
}

abbrev download : CopyBuffer
download = record upload { reads = ready (7 ∷ []) ∷ ready [] ∷ []; writes = ready 1 ∷ [] }

upload-IsValid : IsValid upload
upload-IsValid = record { ordered = omega arith; room = omega arith; stream = refl; counted = refl }

download-IsValid : IsValid download
download-IsValid = record {
  ordered = omega arith;
  room = omega arith;
  stream = refl;
  counted = refl;
}

bidi_copy_buf-Answered_example :
    Answered false (bidi_copy_buf false 9 3 upload download (ready tt ∷ []) (ready tt ∷ []))
bidi_copy_buf-Answered_example =
    bidi_copy_buf-Answered false 9 3 upload download (ready tt ∷ []) (ready tt ∷ []) upload-IsValid
      download-IsValid

bidi_copy_buf_returns_example :
    is_some (bidi_copy_buf true 9 3 upload download (ready tt ∷ []) (ready tt ∷ [])).1 ≡ true
bidi_copy_buf_returns_example =
    bidi_copy_buf_returns 4 true 9 3 upload download (ready tt ∷ []) (ready tt ∷ []) upload-IsValid
      download-IsValid (omega arith) (omega arith) (omega arith)

three_and_one :
    (bidi_copy_buf false 9 3 upload download (ready tt ∷ []) (ready tt ∷ [])).1
    ≡ some (ready (3, 1))
unfolding bidi_copy_buf await poll transfer poll_copy
three_and_one = refl
