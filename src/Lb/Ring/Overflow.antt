-- ===== src/Lb/Ring/Overflow.antt =====
-- realm_lb/src/ip_hash.rs: where the unchecked arithmetic leaves the 32 bits.
use realm.Base.{
  ℕ, zero, suc, ◌*◌, ◌≤◌, ◌<◌, leb, List, [], ◌∷◌, ◌++◌, Option, none, some, length, true, false,
  ◌≡◌, refl, arith, Bool-cases, inl, inr,
}
use realm.Lb.{Token, IpHash}
use realm.Lb.Ring.{
  u32_mod, Lib, IsLib, suffix, replica_ratio, Built, built, panics, undefined, u32, start, chash,
  replicas, nodes_from, new, next,
}

-- What the language says of an unchecked operation that overflows.
abbrev pub unchecked : ℕ → Option ℕ
unchecked n = none

start_overflows : (n : ℕ) → 2 ≤ n → n < u32_mod → start unchecked n ≡ none
unfolding start u32
start_overflows n h l = ground arith

-- Every buffer of two bytes or more, and fewer than 2^32, makes the first multiplication overflow.
chash_overflows :
    (buf : List ℕ) → 2 ≤ length buf → length buf < u32_mod → chash unchecked buf ≡ none
unfolding chash
chash_overflows buf h l = rw (start_overflows (length buf) h l) refl

-- A ring that is built has one peer at most.
abbrev pub Small : Built → Type 0
Small (built h) = leb h.total 1 ≡ true
Small panics = Unit {0}
Small undefined = Unit {0}

module _ (lib : Lib) (k : IsLib lib) where
  label_overflows : chash unchecked (lib.digits 0 ++ suffix) ≡ none
  label_overflows = rw k.digits_zero (chash_overflows (48 ∷ suffix) (omega arith) (omega arith))

  replicas_overflow : (t : Token) (n : ℕ) → replicas unchecked lib t 0 n ≡ none
  unfolding replicas
  replicas_overflow t zero = rw label_overflows refl
  replicas_overflow t (suc n) = rw label_overflows refl

  nodes_overflow :
      (ratio : ℕ) (t : Token) (ws : List ℕ)
      → 1 ≤ length ws
      → nodes_from unchecked lib ratio t ws ≡ none
  unfolding nodes_from
  nodes_overflow ratio t [] h = absurd (omega (arith, h))
  nodes_overflow ratio t (w ∷ ws) h = rw (replicas_overflow t (w * ratio)) refl

  -- With two to 255 peers, whatever their weights, the ring cannot be built without undefined
  -- behaviour: the multiplication of the length of the first label overflows.
  pub new_undefined :
      (ws : List ℕ) → 2 ≤ length ws → length ws ≤ 255 → new unchecked lib ws ≡ undefined
  unfolding new
  new_undefined ws h l = rw (few, many, nodes_overflow (replica_ratio ws) 0 ws (omega arith)) refl
    where
      few : leb (length ws) 255 ≡ true
      few = ground arith

      many : leb (length ws) 1 ≡ false
      many = ground arith

  pub new-Small : (ws : List ℕ) → Small (new unchecked lib ws)
  unfolding new
  new-Small ws = elim (Bool-cases (leb (length ws) 255)) [
    | inr many ↦ rw many tt
    | inl few ↦ elim (Bool-cases (leb (length ws) 1)) [
      | inl one ↦ rw (few, one) one
      | inr more ↦ rw (new_undefined ws (ground arith) (ground arith)) tt
    ]
  ]

  -- A ring of one peer at most hashes nothing: it names peer 0.
  pub next-Small :
      (over : ℕ → Option ℕ) (b : IpHash) (octets : List ℕ)
      → leb b.total 1 ≡ true
      → next over lib b octets ≡ some 0
  unfolding next
  next-Small over b octets h = rw h refl
