-- ===== src/Conf/Decimal/Back.antt =====
-- Decimal numbers in texts: what is printed is parsed back, and nothing else is printed than digits.
use realm.Base.{
  ℕ, zero, suc, ◌+◌, ◌-◌, ◌*◌, ◌/◌, ◌%◌, ◌≤◌, ◌<◌, ltb, ltb→lt, lt→ltb, nat_eq, [], ◌∷◌, ◌++◌, none,
  some, all, Bool, true, false, Bool-cases, inl, inr, ◌≡◌, refl, ap, ◌∙◌, arith, length,
  length-append,
}
use realm.Lb.Text.{
  Text, between, digits, is_whitespace, keep, trim_start, trim_end, trim, split_once, first_part,
}
use realm.Conf.Decimal.{u16_mod, below_u16, parse_u16, show_on, show}

abbrev pub is_digit : ℕ → Bool
is_digit c = between 48 57 c

none-some : {k : ℕ} → none ≡ some k → ⊥
none-some e = cc

digits-snoc :
    (m k c : ℕ) (xs : Text)
    → digits m xs ≡ some k
    → is_digit c ≡ true
    → digits m (xs ++ (c ∷ [])) ≡ some (k * 10 + (c - 48))
digits-snoc m k c [] h d = ground (arith, h, d)
digits-snoc m k c (x ∷ xs) h d = elim (Bool-cases (is_digit x)) [
  | inl dx ↦ rw dx (digits-snoc (m * 10 + (x - 48)) k c xs (rw dx at h) d)
  | inr other ↦ absurd (none-some (rw other at h))
]

digit_char : (n : ℕ) → n < 10 → is_digit (48 + n) ≡ true
digit_char n h = ground arith

digits-show_on : (fuel n : ℕ) → n < fuel → digits 0 (show_on fuel n) ≡ some n
unfolding show_on
digits-show_on zero n h = absurd (omega (arith, h))
digits-show_on (suc fuel) n h = elim (Bool-cases (ltb n 10)) [
  | inl small ↦ rw small (ground (arith, digit_char n (ltb→lt n 10 small)))
  | inr large ↦ rw large (
      digits-snoc 0 (n / 10) (48 + n % 10) (show_on fuel (n / 10))
        (digits-show_on fuel (n / 10) (ground (arith, h, large)))
        (digit_char (n % 10) (omega arith))
      ∙ ap (λ z. some z) (omega arith))
]

all-append :
    (p : ℕ → Bool) (xs ys : Text) → all p xs ≡ true → all p ys ≡ true → all p (xs ++ ys) ≡ true
all-append p [] ys h k = k
all-append p (x ∷ xs) ys h k = ground (arith, all-append p xs ys)

show_on-digits : (fuel n : ℕ) → all is_digit (show_on fuel n) ≡ true
unfolding show_on
show_on-digits zero n = refl
show_on-digits (suc fuel) n = elim (Bool-cases (ltb n 10)) [
  | inl small ↦ rw small (ground (arith, digit_char n (ltb→lt n 10 small)))
  | inr large ↦ rw large (
      all-append is_digit (show_on fuel (n / 10)) ((48 + n % 10) ∷ [])
        (show_on-digits fuel (n / 10)) (ground (arith, digit_char (n % 10) (omega arith))))
]

length-show_on : (fuel n : ℕ) → n < fuel → 1 ≤ length (show_on fuel n)
unfolding show_on
length-show_on zero n h = absurd (omega (arith, h))
length-show_on (suc fuel) n h = elim (Bool-cases (ltb n 10)) [
  | inl small ↦ rw small (omega arith)
  | inr large ↦ rw large (omega (arith, length-append (show_on fuel (n / 10)) ((48 + n % 10) ∷ [])))
]

pub show-digits : (n : ℕ) → all is_digit (show n) ≡ true
unfolding show
show-digits n = show_on-digits (suc n) n

parse_u16-digits :
    (n : ℕ) (xs : Text)
    → all is_digit xs ≡ true
    → 1 ≤ length xs
    → digits 0 xs ≡ some n
    → n < u16_mod
    → parse_u16 xs ≡ some n
unfolding parse_u16
parse_u16-digits n [] d l e b = absurd (omega (arith, l))
parse_u16-digits n (c ∷ []) d l e b = ap below_u16 e ∙ rw (lt→ltb n u16_mod b) refl
parse_u16-digits n (c ∷ x ∷ xs) d l e b =
    let no_plus : nat_eq c 43 ≡ false = ground (arith, d) in
    rw no_plus (ap below_u16 e ∙ rw (lt→ltb n u16_mod b) refl)

-- A port is parsed back.
pub parse_u16-show : (n : ℕ) → n < u16_mod → parse_u16 (show n) ≡ some n
unfolding show
parse_u16-show n b =
    parse_u16-digits n (show_on (suc n) n) (show_on-digits (suc n) n)
      (length-show_on (suc n) n (omega arith)) (digits-show_on (suc n) n (omega arith)) b

digit_visible : (c : ℕ) → is_digit c ≡ true → is_whitespace c ≡ false
digit_visible c h = ground (arith, h)

trim_end-digits : (xs : Text) → all is_digit xs ≡ true → trim_end xs ≡ xs
unfolding trim_end
trim_end-digits [] h = refl
trim_end-digits (c ∷ []) h = rw (digit_visible c (ground (arith, h))) refl
trim_end-digits (c ∷ d ∷ xs) h = ap (keep c) (trim_end-digits (d ∷ xs) (ground (arith, h)))

pub trim-digits : (xs : Text) → all is_digit xs ≡ true → trim xs ≡ xs
unfolding trim trim_start trim_end
trim-digits [] h = refl
trim-digits (c ∷ xs) h = rw (digit_visible c (ground (arith, h))) (trim_end-digits (c ∷ xs) h)

pub split_once-digits :
    (d : ℕ) (xs ys : Text)
    → is_digit d ≡ false
    → all is_digit xs ≡ true
    → split_once d (xs ++ (d ∷ ys)) ≡ some (xs, ys)
unfolding split_once
split_once-digits d [] ys h k = rw (same d) refl
  where
    same : (d : ℕ) → nat_eq d d ≡ true
    same d = ground arith
split_once-digits d (x ∷ xs) ys h k =
    let other : nat_eq x d ≡ false = ground (arith, h, k) in
    rw other (ap (first_part x) (split_once-digits d xs ys h (ground (arith, k))))

pub split_once-none :
    (d : ℕ) (xs : Text) → is_digit d ≡ false → all is_digit xs ≡ true → split_once d xs ≡ none
unfolding split_once
split_once-none d [] h k = refl
split_once-none d (x ∷ xs) h k =
    let other : nat_eq x d ≡ false = ground (arith, h, k) in
    rw other (ap (first_part x) (split_once-none d xs h (ground (arith, k))))
