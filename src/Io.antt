-- ===== src/Io.antt =====
-- realm_io/src: copying between streams. A stream is the script of what its polls answer; a script
-- that has run out answers that nothing is ready.
pub mod CopyBuffer
pub mod BidiCopy
use realm.Base.{ℕ, List, Bool}

-- `std::io::Error`: the kind that the loop makes itself, and those of the streams, by a number.
pub data IoError : Type 0 where
  write_zero : IoError
  stream : ℕ → IoError

-- `Poll<Result<A>>`.
pub data Poll (A : Type 0) : Type 0 where
  pending : Poll A
  ready : A → Poll A
  failed : IoError → Poll A
