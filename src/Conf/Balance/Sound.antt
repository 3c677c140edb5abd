-- ===== src/Conf/Balance/Sound.antt =====
-- src/conf/endpoint.rs: an accepted balancer names only remotes that the endpoint has.
use realm.Base.{
  ℕ, ◌+◌, ◌≤◌, nat_eq, List, Option, none, some, ◌&&◌, not, Bool-cases, inl, inr, arith,
}
use realm.Lb.{Balancer, Strategy, total}
use realm.Lb.Ring.{Lib, IsLib}
use realm.Lb.Ring.Overflow.{unchecked}
use realm.Lb.Choice.{Sound, SoundMade, new-SoundMade}
use realm.Lb.Text.{
  Text, comma, colon, trim, split, split_once, strategy_from, parsed_weights, Made, made, new_from,
  parse_parts, parse_from_str,
}
use realm.Conf.Balance.{
  Outcome, accepted, refused, is_strategy, given_of, against_peers, checked, build_parts,
  build_balancer,
}

module _ (lib : Lib) (k : IsLib lib) where
  -- Sound, with a peer for each remote at most.
  abbrev pub Usable : ℕ → Balancer → Type 0
  Usable extra b = Sound lib k b × (total b ≤ extra + 1)

  abbrev pub UsableOutcome : ℕ → Outcome → Type 0
  UsableOutcome extra (accepted b) = Usable extra b
  UsableOutcome extra (refused r) = Unit {0}
  UsableOutcome extra Outcome.panics = Unit {0}
  UsableOutcome extra Outcome.undefined = Unit {0}

  against_peers-Usable :
      (extra given : ℕ) (b : Balancer)
      → Sound lib k b
      → UsableOutcome extra (against_peers extra given b)
  against_peers-Usable extra given b s = elim (Bool-cases (nat_eq given (total b))) [
    | inr other ↦ rw other tt
    | inl same ↦ elim (Bool-cases (not (nat_eq given 0) && not (nat_eq given (extra + 1)))) [
      | inl wrong ↦ rw (same, wrong) tt
      | inr right ↦ rw (same, right) (s, ground arith)
    ]
  ]

  checked-Usable :
      (extra given : ℕ) (x : Made) → SoundMade lib k x → UsableOutcome extra (checked extra given x)
  checked-Usable extra given Made.panics s = tt
  checked-Usable extra given Made.undefined s = tt
  checked-Usable extra given (made b) s = against_peers-Usable extra given b s

  new_from-SoundMade :
      (o : Option Strategy) (ws : List ℕ) → SoundMade lib k (new_from unchecked lib o ws)
  new_from-SoundMade none ws = tt
  new_from-SoundMade (some s) ws = new-SoundMade lib k s ws

  parse_parts-SoundMade : (o : Option (Text × Text)) → SoundMade lib k (parse_parts unchecked lib o)
  parse_parts-SoundMade none = tt
  parse_parts-SoundMade (some (s, ws)) =
      new_from-SoundMade (strategy_from (trim s)) (parsed_weights (split comma (trim ws)))

  build_parts-Usable :
      (extra : ℕ) (s : Text) (o : Option (Text × Text))
      → UsableOutcome extra (build_parts unchecked lib extra s o)
  unfolding parse_from_str
  build_parts-Usable extra s none = tt
  build_parts-Usable extra s (some (a, b)) = elim (Bool-cases (is_strategy (trim a))) [
    | inl known ↦
        rw known
          (checked-Usable extra (given_of (trim b)) _ (parse_parts-SoundMade (split_once colon s)))
    | inr unknown ↦ rw unknown tt
  ]

  pub build_balancer-Usable :
      (o : Option Text) (extra : ℕ) → UsableOutcome extra (build_balancer unchecked lib o extra)
  unfolding build_balancer total
  build_balancer-Usable none extra = (tt, omega arith)
  build_balancer-Usable (some s) extra = build_parts-Usable extra s (split_once colon s)
