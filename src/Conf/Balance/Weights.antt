-- ===== src/Conf/Balance/Weights.antt =====
-- src/conf/endpoint.rs: what an accepted balancer stands for.
use realm.Base.{
  ℕ, ◌+◌, ◌≤◌, ◌<◌, nat_eq, leb, List, [], ◌∷◌, Option, none, some, is_some, true, false, ◌&&◌,
  ◌||◌, not, length, all, Bool-cases, inl, inr, ◌⊎◌, ◌≡◌, refl, arith,
}
use realm.Lb.{Balancer, Strategy, total, HashNode}
use realm.Lb.Rotation
use realm.Lb.Ring
use realm.Lb.Ring.{Lib, Built}
use realm.Lb.Text.{
  Text, comma, colon, trim, split, split_once, strategy_from, parse_u8, parsed_weights, Made, made,
  made_rotation, made_ring, new, new_from, parse_from_str,
}
use realm.Conf.Balance.{
  Outcome, accepted, refused, is_strategy, is_blank, count_given, given_of, against_peers, checked,
  build_parts, build_balancer,
}

-- Every piece that is not blank is a weight.
abbrev pub AllParse : List Text → Type 0
AllParse ps = all (λ p. is_blank (trim p) || is_some (parse_u8 (trim p))) ps ≡ true

blank_weight : (s : Text) → is_some (parse_u8 s) ≡ true → is_blank s ≡ false
unfolding parse_u8
blank_weight [] h = cc
blank_weight (c ∷ cs) h = refl

parsed_le : (ps : List Text) → length (parsed_weights ps) ≤ count_given ps
unfolding parsed_weights count_given
parsed_le [] = omega arith
parsed_le (p ∷ ps) = ground (arith, parsed_le ps, blank_weight (trim p))

-- Where as many pieces parse as are not blank, these are the same.
parsed-AllParse : (ps : List Text) → count_given ps ≡ length (parsed_weights ps) → AllParse ps
unfolding parsed_weights count_given
parsed-AllParse [] h = refl
parsed-AllParse (p ∷ ps) h = ground (arith, parsed_le ps, parsed-AllParse ps, blank_weight (trim p))

-- What is made has at most so many peers, and a panic means that there are more than 255 weights.
abbrev MadeOf : ℕ → Made → Type 0
MadeOf n (made b) = total b ≤ n
MadeOf n Made.panics = 255 < n
MadeOf n Made.undefined = Unit {0}

rotation-MadeOf : (ws : List ℕ) → MadeOf (length ws) (made_rotation (Rotation.new ws))
unfolding Rotation.new total
rotation-MadeOf ws = elim (Bool-cases (leb (length ws) 255)) [
  | inl few ↦ elim (Bool-cases (leb (length ws) 1)) [
    | inl one ↦ rw (few, one) (omega arith)
    | inr more ↦ rw (few, more) (omega arith)
  ]
  | inr many ↦ rw many (ground arith)
]

none_or_each :
    (g t n : ℕ)
    → nat_eq g t ≡ true
    → (not (nat_eq g 0) && not (nat_eq g n)) ≡ false
    → (t ≡ 0) ⊎ (t ≡ n)
none_or_each g t n same right = elim (Bool-cases (nat_eq g 0)) [
  | inl zero ↦ inl (ground arith)
  | inr more ↦ inr (ground arith)
]

module _ (over : ℕ → Option ℕ) (lib : Lib) where
  ring-MadeOf : (ws : List ℕ) → MadeOf (length ws) (made_ring (Ring.new over lib ws))
  unfolding Ring.new total
  ring-MadeOf ws = elim (Bool-cases (leb (length ws) 255)) [
    | inl few ↦ elim (Bool-cases (leb (length ws) 1)) [
      | inl one ↦ rw (few, one) (omega arith)
      | inr more ↦ rw (few, more) (go (Ring.nodes_from over lib (Ring.replica_ratio ws) 0 ws))
    ]
    | inr many ↦ rw many (ground arith)
  ]
    where
      go :
          (x : Option (List HashNode))
          → MadeOf (length ws) (made_ring (Ring.built_from over lib (length ws) x))
      go none = tt
      go (some ns) = omega arith

  new-MadeOf : (s : Strategy) (ws : List ℕ) → MadeOf (length ws) (new over lib s ws)
  unfolding new total
  new-MadeOf Strategy.off ws = omega arith
  new-MadeOf Strategy.iphash ws = ring-MadeOf ws
  new-MadeOf Strategy.roundrobin ws = rotation-MadeOf ws

  known_strategy : (t : Text) → is_strategy t ≡ true → is_some (strategy_from t) ≡ true
  unfolding strategy_from
  known_strategy t h = ground arith

  new_from-MadeOf :
      (o : Option Strategy) (ws : List ℕ)
      → is_some o ≡ true
      → MadeOf (length ws) (new_from over lib o ws)
  new_from-MadeOf none ws h = absurd (go h)
    where
      go : false ≡ true → ⊥
      go e = cc
  new_from-MadeOf (some s) ws h = new-MadeOf s ws

  -- What an outcome says of the pieces and of the number of further remotes.
  abbrev pub Justified : ℕ → List Text → Outcome → Type 0
  Justified extra ps (accepted b) =
      AllParse ps × (total b ≡ count_given ps) × ((total b ≡ 0) ⊎ (total b ≡ extra + 1))
  Justified extra ps (refused r) = Unit {0}
  Justified extra ps Outcome.panics = 255 < length (parsed_weights ps)
  Justified extra ps Outcome.undefined = Unit {0}

  against_peers-Justified :
      (extra : ℕ) (ps : List Text) (b : Balancer)
      → total b ≤ length (parsed_weights ps)
      → Justified extra ps (against_peers extra (count_given ps) b)
  against_peers-Justified extra ps b h = elim (Bool-cases (nat_eq (count_given ps) (total b))) [
    | inr other ↦ rw other tt
    | inl same ↦
        elim (Bool-cases
          (not (nat_eq (count_given ps) 0) && not (nat_eq (count_given ps) (extra + 1)))) [
            | inl wrong ↦ rw (same, wrong) tt
            | inr right ↦
                rw (same, right)
                  (
                    parsed-AllParse ps (ground (arith, parsed_le ps)),
                    ground arith,
                    none_or_each (count_given ps) (total b) (extra + 1) same right,
                  )
          ]
  ]

  checked-Justified :
      (extra : ℕ) (ps : List Text) (x : Made)
      → MadeOf (length (parsed_weights ps)) x
      → Justified extra ps (checked extra (count_given ps) x)
  checked-Justified extra ps Made.panics h = h
  checked-Justified extra ps Made.undefined h = tt
  checked-Justified extra ps (made b) h = against_peers-Justified extra ps b h

  given-count : (s : Text) → given_of s ≡ count_given (split comma s)
  unfolding given_of split count_given trim
  given-count [] = refl
  given-count (c ∷ cs) = refl

  parts-Justified :
      (extra : ℕ) (s a b : Text)
      → split_once colon s ≡ some (a, b)
      → Justified extra (split comma (trim b)) (build_parts over lib extra s (some (a, b)))
  unfolding parse_from_str
  parts-Justified extra s a b h = elim (Bool-cases (is_strategy (trim a))) [
    | inl known ↦
        rw (known, h, given-count (trim b))
          (checked-Justified extra (split comma (trim b)) _ (
            new_from-MadeOf (strategy_from (trim a)) (parsed_weights (split comma (trim b)))
              (known_strategy (trim a) known)))
    | inr unknown ↦ rw unknown tt
  ]

  -- A text with a separator: where its balancer is accepted, every piece of the weights that is not
  -- blank is a weight (none is dropped), the balancer has as many peers as there are such pieces, and
  -- these are none or one for each remote; and the construction panics only where there are more
  -- than 255 weights.
  pub build_balancer-Justified :
      (s : Text) (extra : ℕ) (a b : Text)
      → split_once colon s ≡ some (a, b)
      → Justified extra (split comma (trim b)) (build_balancer over lib (some s) extra)
  unfolding build_balancer
  build_balancer-Justified s extra a b h = rw h (parts-Justified extra s a b h)
