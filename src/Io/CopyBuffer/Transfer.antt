-- ===== src/Io/CopyBuffer/Transfer.antt =====
-- poll_copy of realm_io/src/buf.rs: the bytes written against the bytes read.
use realm.Base.{
  take, drop, ℕ, zero, suc, ◌+◌, ◌-◌, ◌%◌, ◌≤◌, List, [], ◌∷◌, ◌++◌, ◌≡◌, refl, sym, ap, ◌∙◌, Bool,
  true, false, ◌&&◌, not, if◌then◌else◌, length, length-append, nat_eq, ltb, Option, none, some,
  Bool-cases, inl, inr, arith,
}
use realm.Io.{Poll, pending, ready, failed}
use realm.Io.CopyBuffer.{
  CopyBuffer, u64_mod, Phase, go_on, return, flush, flushed_pending, reader_pending, filled, read,
  read_phase, wrote, write_loop, finished, finish_phase, and_then, iteration, continue, poll_copy,
}
use mathlib.Core.List.{append-nil, append_assoc}
use Prim.Native.Nat.{min}

module _ {ℓ} {A : Type ℓ} where
  take-nil : (n : ℕ) → take {A = A} n [] ≡ []
  take-nil zero = refl
  take-nil (suc n) = refl

  drop-nil : (n : ℕ) → drop {A = A} n [] ≡ []
  drop-nil zero = refl
  drop-nil (suc n) = refl

  drop-drop : (i n : ℕ) (xs : List A) → drop i (drop n xs) ≡ drop (n + i) xs
  drop-drop i zero xs = ap (λ k. drop k xs) (omega arith)
  drop-drop i (suc n) [] =
      drop-nil i ∙ sym (drop-nil (suc (n + i))) ∙ ap (λ k. drop {A = A} k []) step
    where
      step : suc (n + i) ≡ suc n + i
      step = omega arith
  drop-drop i (suc n) (x ∷ xs) = drop-drop i n xs ∙ ap (λ k. drop k (x ∷ xs)) step
    where
      step : suc (n + i) ≡ suc n + i
      step = omega arith

  take_split : (i k : ℕ) (xs : List A) → i ≤ k → take i xs ++ take (k - i) (drop i xs) ≡ take k xs
  take_split zero k xs h = ap (λ n. take n xs) (omega arith)
  take_split (suc i) zero xs h = absurd (omega arith)
  take_split (suc i) (suc k) [] h = take-nil (suc k - suc i)
  take_split (suc i) (suc k) (x ∷ xs) h =
      ap (λ n. x ∷ (take i xs ++ take n (drop i xs))) (omega arith)
      ∙ ap (λ l. x ∷ l) (take_split i k xs (omega arith))

  take-append : (xs ys : List A) → take (length xs) (xs ++ ys) ≡ xs
  take-append [] ys = refl
  take-append (x ∷ xs) ys = ap (◌∷◌ x) (take-append xs ys)

  length-take_le : (n : ℕ) (xs : List A) → n ≤ length xs → length (take n xs) ≡ n
  length-take_le zero xs h = refl
  length-take_le (suc n) [] h = absurd (omega arith)
  length-take_le (suc n) (x ∷ xs) h = ap suc (length-take_le n xs (omega arith))

  length-drop : (n : ℕ) (xs : List A) → length (drop n xs) ≡ length xs - n
  length-drop zero xs = omega arith
  length-drop (suc n) [] = omega arith
  length-drop (suc n) (x ∷ xs) = omega (arith, length-drop n xs)

-- The bytes that were read and not yet written.
abbrev pub unsent : CopyBuffer → List ℕ
unsent b = take (b.cap - b.pos) (drop b.pos b.buf)

pub record Holds (pos cap amt : ℕ) (buf received sent : List ℕ) : Type 0 where
  pub ordered : pos ≤ cap
  pub room : cap ≤ length buf
  pub stream : sent ++ take (cap - pos) (drop pos buf) ≡ received
  pub counted : amt ≡ length sent % u64_mod

-- The positions lie in the buffer, what is unsent is what was read after what was sent, and the
-- count is that of the bytes sent.
abbrev pub IsValid : CopyBuffer → Type 0
IsValid b = Holds b.pos b.cap b.amt b.buf b.received b.sent

wrote-stream :
    (i : ℕ) (b : CopyBuffer)
    → i ≤ b.cap - b.pos
    → (wrote i b).sent ++ unsent (wrote i b) ≡ b.sent ++ unsent b
wrote-stream i b h =
    append_assoc b.sent (take i (drop b.pos b.buf)) (unsent (wrote i b))
    ∙ ap (λ l. b.sent ++ l)
        (ap (λ l. take i (drop b.pos b.buf) ++ l) same
          ∙ take_split i (b.cap - b.pos) (drop b.pos b.buf) h)
  where
    same : unsent (wrote i b) ≡ take ((b.cap - b.pos) - i) (drop i (drop b.pos b.buf))
    same =
        ap (λ n. take n (drop (b.pos + i) b.buf)) (omega arith)
        ∙ ap (take ((b.cap - b.pos) - i)) (sym (drop-drop i b.pos b.buf))

wrote-IsValid : (i : ℕ) (b : CopyBuffer) → IsValid b → i ≤ b.cap - b.pos → IsValid (wrote i b)
wrote-IsValid i b v h = record {
  ordered = omega (arith, v.ordered);
  room = v.room;
  stream = wrote-stream i b h ∙ v.stream;
  counted = omega (
    arith,
    v.counted,
    length-append b.sent (take i (drop b.pos b.buf)),
    length-take_le i (drop b.pos b.buf) (omega (arith, length-drop b.pos b.buf, v.room)),
  );
}

-- What a phase leaves is valid, and a phase that ends the poll well left nothing behind.
abbrev pub Ends : CopyBuffer → Poll ℕ → Type 0
Ends b pending = Unit {0}
Ends b (failed e) = Unit {0}
Ends b (ready n) = (b.sent ≡ b.received) × (n ≡ length b.received % u64_mod)

abbrev pub Leaves : Phase → Type 0
Leaves (go_on b) = IsValid b
Leaves (return b p) = IsValid b × Ends b p

flush-Leaves : (b : CopyBuffer) (fs : List (Poll (Unit {0}))) → IsValid b → Leaves (flush b fs)
flush-Leaves b [] v = (v, tt)
flush-Leaves b (pending ∷ fs) v = (v, tt)
flush-Leaves b (ready u ∷ fs) v = v
flush-Leaves b (failed e ∷ fs) v = (v, tt)

flushed_pending-Leaves : (x : Phase) → Leaves x → Leaves (flushed_pending x)
flushed_pending-Leaves (go_on b) v = (v, tt)
flushed_pending-Leaves (return b p) v = v

if-Leaves : (c : Bool) (x y : Phase) → Leaves x → Leaves y → Leaves (if c then x else y)
if-Leaves true x y hx hy = hx
if-Leaves false x y hx hy = hy

reader_pending-Leaves : (b : CopyBuffer) → IsValid b → Leaves (reader_pending b)
unfolding reader_pending
reader_pending-Leaves b v =
    if-Leaves b.need_flush _ _ (flushed_pending-Leaves _ (flush-Leaves b b.flushes v)) (v, tt)

-- Nothing is left in the buffer.
emptied : (b : CopyBuffer) → IsValid b → b.pos ≡ b.cap → b.sent ≡ b.received
emptied b v e =
    sym (append-nil b.sent) ∙ ap (λ n. b.sent ++ take n (drop b.pos b.buf)) left ∙ v.stream
  where
    left : 0 ≡ b.cap - b.pos
    left = omega (arith, e)

filled-Leaves : (b : CopyBuffer) (xs : List ℕ) → IsValid b → b.pos ≡ b.cap → Leaves (filled b xs)
filled-Leaves b [] v e = v
filled-Leaves b (x ∷ xs) v e = record {
  ordered = omega arith;
  room = omega (arith, length-append (x ∷ xs) (drop (length (x ∷ xs)) b.buf));
  stream =
      ap (λ n. b.sent ++ take n ((x ∷ xs) ++ drop (length (x ∷ xs)) b.buf)) whole
      ∙ ap (λ l. b.sent ++ l) (take-append (x ∷ xs) (drop (length (x ∷ xs)) b.buf))
      ∙ ap (λ l. l ++ x ∷ xs) (emptied b v e);
  counted = v.counted;
}
  where
    whole : length (x ∷ xs) - 0 ≡ length (x ∷ xs)
    whole = omega arith

read-Leaves :
    (b : CopyBuffer) (rs : List (Poll (List ℕ))) → IsValid b → b.pos ≡ b.cap → Leaves (read b rs)
read-Leaves b [] v e = reader_pending-Leaves b v
read-Leaves b (pending ∷ rs) v e = reader_pending-Leaves _ (v)
read-Leaves b (ready xs ∷ rs) v e = filled-Leaves _ xs (v) e
read-Leaves b (failed x ∷ rs) v e = (v, tt)

read_phase-Leaves : (b : CopyBuffer) → IsValid b → Leaves (read_phase b)
unfolding read_phase
read_phase-Leaves b v = elim (Bool-cases (nat_eq b.pos b.cap && not b.read_done)) [
  | inl h ↦ rw h (read-Leaves b b.reads v (ground arith))
  | inr h ↦ rw h v
]

write_loop-Leaves : (ws : List (Poll ℕ)) (b : CopyBuffer) → IsValid b → Leaves (write_loop ws b)
unfolding write_loop
write_loop-Leaves [] b v = if-Leaves (ltb b.pos b.cap) _ _ (v, tt) (v)
write_loop-Leaves (pending ∷ ws) b v = if-Leaves (ltb b.pos b.cap) _ _ (v, tt) (v)
write_loop-Leaves (failed e ∷ ws) b v = if-Leaves (ltb b.pos b.cap) _ _ (v, tt) (v)
write_loop-Leaves (ready k ∷ ws) b v =
    if-Leaves (ltb b.pos b.cap) _ _
      (if-Leaves (nat_eq (min k (b.cap - b.pos)) 0) _ _ (v, tt)
        (write_loop-Leaves ws _ (wrote-IsValid (min k (b.cap - b.pos)) b v (omega arith))))
      (v)

flushed-Leaves :
    (b : CopyBuffer) (fs : List (Poll (Unit {0})))
    → IsValid b
    → b.pos ≡ b.cap
    → Leaves (finished (flush b fs))
flushed-Leaves b [] v e = (v, tt)
flushed-Leaves b (pending ∷ fs) v e = (v, tt)
flushed-Leaves b (failed x ∷ fs) v e = (v, tt)
flushed-Leaves b (ready u ∷ fs) v e =
    let same = emptied b v e in (v, (same, v.counted ∙ ap (λ l. length l % u64_mod) same))

finish_phase-Leaves : (b : CopyBuffer) → IsValid b → Leaves (finish_phase b)
unfolding finish_phase
finish_phase-Leaves b v = elim (Bool-cases (nat_eq b.pos b.cap && b.read_done)) [
  | inl h ↦ rw h (flushed-Leaves b b.flushes v (ground arith))
  | inr h ↦ rw h v
]

and_then-Leaves :
    (x : Phase) (f : CopyBuffer → Phase)
    → Leaves x
    → ((b : CopyBuffer) → IsValid b → Leaves (f b))
    → Leaves (and_then x f)
and_then-Leaves (go_on b) f v k = k b v
and_then-Leaves (return b p) f v k = v

iteration-Leaves : (b : CopyBuffer) → IsValid b → Leaves (iteration b)
unfolding iteration
iteration-Leaves b v =
    and_then-Leaves _ finish_phase
      (and_then-Leaves _ (λ c. write_loop c.writes c) (read_phase-Leaves b v)
        (λ c w. write_loop-Leaves c.writes c w))
      (λ c w. finish_phase-Leaves c w)

-- The answer of the poll, if there is one, leaves nothing behind when it is a success.
abbrev pub Answers : CopyBuffer × Option (Poll ℕ) → Type 0
Answers (b, none) = IsValid b
Answers (b, some p) = IsValid b × Ends b p

continue-Answers :
    (x : Phase) (f : CopyBuffer → CopyBuffer × Option (Poll ℕ))
    → Leaves x
    → ((b : CopyBuffer) → IsValid b → Answers (f b))
    → Answers (continue x f)
continue-Answers (go_on b) f v k = k b v
continue-Answers (return b p) f v k = v

-- From a valid buffer (the bytes sent and then the bytes of the buffer that are not yet
-- written are the bytes received, and the count is that of the bytes sent, modulo 2^64),
-- with any fuel and whatever the reader and the writer answer to each poll, the copy leaves
-- a valid buffer; and if it is over with success, the bytes sent are the bytes received, in
-- order, and the answer is their number modulo 2^64.
pub poll_copy-Answers : (fuel : ℕ) (b : CopyBuffer) → IsValid b → Answers (poll_copy fuel b)
unfolding poll_copy
poll_copy-Answers zero b v = v
poll_copy-Answers (suc fuel) b v =
    continue-Answers (iteration b) (poll_copy fuel) (iteration-Leaves b v)
      (λ c w. poll_copy-Answers fuel c w)
