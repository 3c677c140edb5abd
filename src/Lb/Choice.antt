-- ===== src/Lb/Choice.antt =====
-- realm_lb/src/balancer.rs: the choice of a peer, `Balancer::next`, by whichever strategy.
use realm.Base.{
  ℕ, ◌-◌, ◌≤◌, ◌<◌, leb, List, Option, none, some, length, true, Bool-cases, inl, inr, ◌≡◌, refl,
  arith,
}
use realm.Lb.{Token, Strategy, Balancer, RoundRobin, total}
use realm.Lb.Rotation
use realm.Lb.Rotation.Pick.{IsValid, new-IsValid, next-IsValid}
use realm.Lb.Ring
use realm.Lb.Ring.{Lib, IsLib, Built, built}
use realm.Lb.Ring.Overflow.{unchecked, Small, new-Small, next-Small}
use realm.Lb.Text.{Made, made, made_rotation, made_ring, new}

-- `broken` is a pick of a ring that panics or has no defined behaviour.
pub data Pick : Type 0 where
  token : Token → Pick
  no_token broken : Pick

abbrev pub from_ring : Option Token → Pick
from_ring none = broken
from_ring (some t) = token t

abbrev pub from_rotation : RoundRobin × Option Token → Balancer × Pick
from_rotation (r, none) = (Balancer.roundrobin r, no_token)
from_rotation (r, some t) = (Balancer.roundrobin r, token t)

module _ (over : ℕ → Option ℕ) (lib : Lib) where
  -- For a client with such an address; a rotation moves on.
  unfoldable pub next : Balancer → List ℕ → Balancer × Pick
  next Balancer.off ip = (Balancer.off, token 0)
  next (Balancer.iphash h) ip = (Balancer.iphash h, from_ring (Ring.next over lib h ip))
  next (Balancer.roundrobin r) ip = from_rotation (Rotation.next r)

leb_le : (a b : ℕ) → leb a b ≡ true → a ≤ b
leb_le a b h = ground arith

module _ (lib : Lib) (k : IsLib lib) where
  -- A balancer as it is made of weights, or after picks: a ring of two peers or more is not made
  -- without undefined behaviour.
  abbrev pub Sound : Balancer → Type 0
  Sound Balancer.off = Unit {0}
  Sound (Balancer.iphash h) = leb h.total 1 ≡ true
  Sound (Balancer.roundrobin r) = 1 < r.total → IsValid r

  abbrev pub SoundMade : Made → Type 0
  SoundMade (made b) = Sound b
  SoundMade Made.panics = Unit {0}
  SoundMade Made.undefined = Unit {0}

  ring-SoundMade : (b : Built) → Small b → SoundMade (made_ring b)
  ring-SoundMade (built h) s = s
  ring-SoundMade Built.panics s = tt
  ring-SoundMade Built.undefined s = tt

  made-Sound :
      (o : Option RoundRobin) (r : RoundRobin)
      → o ≡ some r
      → IsValid r
      → SoundMade (made_rotation o)
  made-Sound none r e v = tt
  made-Sound (some q) r e v = λ h. rw (same e) v
    where
      same : some q ≡ some r → q ≡ r
      same e = cc

  rotation-SoundMade : (ws : List ℕ) → SoundMade (made_rotation (Rotation.new ws))
  unfolding Rotation.new
  rotation-SoundMade ws = elim (Bool-cases (leb (length ws) 255)) [
    | inl few ↦ elim (Bool-cases (leb (length ws) 1)) [
      | inl one ↦ rw (few, one) (λ h. absurd (omega (arith, h, leb_le (length ws) 1 one)))
      | inr more ↦
          let (r, e, v, t) = new-IsValid ws (ground arith) (ground arith) in
          made-Sound (Rotation.new ws) r e v
    ]
    | inr many ↦ rw many tt
  ]

  pub new-SoundMade : (s : Strategy) (ws : List ℕ) → SoundMade (new unchecked lib s ws)
  unfolding new
  new-SoundMade Strategy.off ws = tt
  new-SoundMade Strategy.iphash ws = ring-SoundMade (Ring.new unchecked lib ws) (new-Small lib k ws)
  new-SoundMade Strategy.roundrobin ws = rotation-SoundMade ws

  -- What a pick leaves: a token of one of the peers (0 where there is none), and a sound balancer with
  -- as many peers.
  abbrev pub Picked : ℕ → Balancer × Pick → Type 0
  Picked n (b, p) = (t : Token) × (p ≡ token t) × (t ≤ n - 1) × Sound b × (total b ≡ n)

  from_rotation-Picked :
      (n : ℕ) (x : RoundRobin × Option Token) (t : Token)
      → x.1 ≡ some t
      → t ≤ n - 1
      → (1 < x.0.total → IsValid x.0)
      → x.0.total ≡ n
      → Picked n (from_rotation x)
  unfolding total
  from_rotation-Picked n (r, none) t e less v same = cc
  from_rotation-Picked n (r, some u) t e less v same = (u, refl, ground arith, v, same)

  rotation-Picked :
      (r : RoundRobin)
      → (1 < r.total → IsValid r)
      → Picked r.total (from_rotation (Rotation.next r))
  unfolding total Rotation.next
  rotation-Picked r v = elim (Bool-cases (leb r.total 1)) [
    | inl one ↦
        from_rotation-Picked r.total (Rotation.next r) 0 (rw (one, Rotation.next) refl)
          (omega arith) (rw (one, Rotation.next) v) (rw (one, Rotation.next) refl)
    | inr more ↦
        let (t, e, less, w, same) = next-IsValid r (v (ground arith)) (ground arith) in
        from_rotation-Picked r.total (Rotation.next r) t e (omega (arith, less)) (λ h. w) same
  ]

  pub next-Picked :
      (b : Balancer) (ip : List ℕ) → Sound b → Picked (total b) (next unchecked lib b ip)
  unfolding next total
  next-Picked Balancer.off ip s = (0, refl, omega arith, tt, refl)
  next-Picked (Balancer.iphash h) ip s =
      (0, rw (next-Small lib k unchecked h ip s) refl, omega arith, s, refl)
  next-Picked (Balancer.roundrobin r) ip s = rotation-Picked r s
