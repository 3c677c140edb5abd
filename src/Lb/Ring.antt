-- ===== src/Lb/Ring.antt =====
-- realm_lb/src/ip_hash.rs. The additions and multiplications of the hash are unchecked: where the
-- result does not fit in 32 bits the program has no defined behaviour. What happens there is a
-- parameter, `over`: `none` stands for undefined behaviour.
pub mod Overflow
pub mod Tests
use realm.Base.{
  ℕ, zero, suc, ◌+◌, ◌-◌, ◌*◌, ◌/◌, ◌%◌, ltb, leb, nat_eq, if◌then◌else◌, List, [], ◌∷◌, ◌++◌,
  Option, none, some, Result, ok, err, length, nth, all, Bool, true, false, ◌≡◌, ◌<◌,
}
use realm.Lb.{Token, HashNode, IpHash}

abbrev pub u32_mod : ℕ
u32_mod = 4294967296

abbrev pub seed : ℕ
seed = 3164544308

abbrev pub multiplier : ℕ
multiplier = 3332679571

-- Bitwise exclusive or of the lowest bits.
abbrev xor_bits : ℕ → ℕ → ℕ → ℕ
xor_bits zero a b = 0
xor_bits (suc n) a b = let rest = xor_bits n (a / 2) (b / 2) in (a + b) % 2 + 2 * rest

unfoldable pub xor : ℕ → ℕ → ℕ
xor a b = xor_bits 32 a b

abbrev pub bind {ℓ κ} : {A : Type ℓ} → {B : Type κ} → Option A → (A → Option B) → Option B
bind none f = none
bind (some a) f = f a

-- `Result<usize, usize>` of a binary search is here `ok` for a hit and `err` for the place to insert.
pub record Lib : Type 0 where
  pub digits : ℕ → List ℕ
  pub align_to : List ℕ → List ℕ
  pub sort : List HashNode → List HashNode
  pub search : List HashNode → ℕ → Result ℕ ℕ

-- What the standard library promises of the printing of numbers: 0 is one digit.
pub record IsLib (lib : Lib) : Type 0 where
  pub digits_zero : lib.digits 0 ≡ 48 ∷ []

-- The bytes of " 114514".
abbrev pub suffix : List ℕ
suffix = 32 ∷ 49 ∷ 49 ∷ 52 ∷ 53 ∷ 49 ∷ 52 ∷ []

abbrev max_of : List ℕ → ℕ
max_of [] = 0
max_of (w ∷ ws) = let m = max_of ws in if ltb m w then w else m

-- 128 over the greatest weight, rounded up; the quotient by zero is cast to 255.
abbrev ratio_of : ℕ → ℕ
ratio_of zero = 255
ratio_of (suc n) = if leb 128 (suc n) then 1 else (128 + n) / suc n

unfoldable pub replica_ratio : List ℕ → ℕ
replica_ratio ws = ratio_of (max_of ws)

-- Where the search says that the address goes; past the end is the first node.
abbrev pub position : ℕ → Result ℕ ℕ → ℕ
position n (ok i) = i
position n (err i) = if leb n i then 0 else i

pub data Built : Type 0 where
  panics undefined : Built
  built : IpHash → Built

module _ (over : ℕ → Option ℕ) where
  unfoldable pub u32 : ℕ → Option ℕ
  u32 n = if ltb n u32_mod then some n else over n

  -- `SEED ^ c_mul!(buf.len() as u32, M)`
  unfoldable pub start : ℕ → Option ℕ
  unfolding u32
  start len = bind (u32 (len % u32_mod * multiplier)) (λ k. some (xor seed k))

  -- A word is added, and the sum multiplied and mixed.
  unfoldable pub mix : ℕ → ℕ → ℕ → Option ℕ
  unfolding u32
  mix shift h w =
      bind (u32 (h + w)) (λ s. bind (u32 (s * multiplier)) (λ m. some (xor m (m / shift))))

  -- What is left of the bytes, up to three.
  abbrev last_bytes : List ℕ → ℕ → Option ℕ
  last_bytes [] h = some h
  last_bytes (a ∷ []) h = mix 16777216 h a
  last_bytes (a ∷ b ∷ []) h = bind (u32 (h + b * 256)) (λ k. mix 16777216 k a)
  last_bytes (a ∷ b ∷ c ∷ bs) h =
      bind (u32 (h + c * 65536)) (λ k. bind (u32 (k + b * 256)) (λ l. mix 16777216 l a))

  -- `while len >= 4`
  abbrev pub words : List ℕ → ℕ → Option ℕ
  words (a ∷ b ∷ c ∷ d ∷ bs) h =
      bind (mix 65536 h (a + b * 256 + c * 65536 + d * 16777216)) (λ k. words bs k)
  words bs h = last_bytes bs h

  unfoldable pub chash : List ℕ → Option ℕ
  unfolding start mix u32
  chash buf = bind (start (length buf)) (words buf)

  abbrev pub mix_all : List ℕ → ℕ → Option ℕ
  mix_all [] h = some h
  mix_all (w ∷ ws) h = bind (mix 65536 h w) (λ k. mix_all ws k)

  module _ (lib : Lib) where
    unfoldable pub chash_for_ip : List ℕ → Option ℕ
    unfolding start mix
    chash_for_ip octets = bind (start (length octets)) (mix_all (lib.align_to octets))

    -- `for vidx in 0..=weight`, from one index on.
    unfoldable pub replicas : Token → ℕ → ℕ → Option (List HashNode)
    unfolding chash
    replicas t i zero =
        bind (chash (lib.digits i ++ suffix)) (λ h. some (record { hash = h; token = t } ∷ []))
    replicas t i (suc n) =
        bind (chash (lib.digits i ++ suffix))
          (λ h. bind (replicas t (i + 1) n) (λ ns. some (record { hash = h; token = t } ∷ ns)))

    unfoldable pub nodes_from : ℕ → Token → List ℕ → Option (List HashNode)
    unfolding replicas
    nodes_from ratio t [] = some []
    nodes_from ratio t (w ∷ ws) =
        bind (replicas t 0 (w * ratio))
          (λ ns. bind (nodes_from ratio (t + 1) ws) (λ ms. some (ns ++ ms)))

    abbrev pub built_from : ℕ → Option (List HashNode) → Built
    built_from total none = undefined
    built_from total (some ns) = built (record { nodes = lib.sort ns; total = total })

    unfoldable pub new : List ℕ → Built
    unfolding nodes_from replica_ratio
    new ws =
        if leb (length ws) 255
        then (if leb (length ws) 1
            then built (record { nodes = []; total = length ws })
            else built_from (length ws) (nodes_from (replica_ratio ws) 0 ws))
        else panics

    abbrev pub token_at : List HashNode → ℕ → Option Token
    token_at ns i = bind (nth ns i) (λ n. some n.token)

    -- `none` is a panic or undefined behaviour; the source gives a token in every other case.
    unfoldable pub next : IpHash → List ℕ → Option Token
    unfolding chash_for_ip
    next b octets =
        if leb b.total 1
        then some 0
        else bind (chash_for_ip octets)
            (λ h. token_at b.nodes (position (length b.nodes) (lib.search b.nodes h)))
