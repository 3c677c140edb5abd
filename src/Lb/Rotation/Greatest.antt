-- ===== src/Lb/Rotation/Greatest.antt =====
-- realm_lb/src/round_robin.rs: the current weight of a pick.
use realm.Base.{
  ℕ, ◌+◌, ◌<◌, ◌≡◌, refl, ap, ◌∙◌, leb, List, [], ◌∷◌, map, Option, none, some, is_some, length,
  true, false, Bool-cases, inl, inr, ◌⊎◌, arith,
}
use realm.Base.Int.{ℤ, pos, ltb_ℤ, ◌≤ℤ◌, add_i16}
use realm.Lb.{Token, RrNode, RoundRobin}
use realm.Lb.Rotation.{advance, better, scan, choose, next}
use realm.Lb.Rotation.Pick.{
  IsValid, Within, scan-Numbered, length-scan, scan-Within, scan-found, charge-Numbered, Numbered,
}

-- The weight is at least the other.
abbrev AtLeast : ℤ → Option (ℕ × ℤ) → Type 0
AtLeast z none = ⊥
AtLeast z (some (b, x)) = z ≤ℤ x

-- No node weighs more than the best one.
abbrev pub Below : Option (ℕ × ℤ) → List RrNode → Type 0
Below o [] = Unit {0}
Below o (p ∷ ps) = AtLeast p.cw o × Below o ps

-- The best one is a node of the list, which counts from `i`, with its weight.
abbrev pub Held : ℕ → List RrNode → Option (ℕ × ℤ) → Type 0
Held i [] o = ⊥
Held i (p ∷ ps) o = (o ≡ some (i, p.cw)) ⊎ Held (i + 1) ps o

better-keeps :
    (best : Option (ℕ × ℤ)) (i : ℕ) (cw z : ℤ) → AtLeast z best → AtLeast z (better best i cw)
better-keeps none i cw z h = absurd h
better-keeps (some (b, x)) i cw z h = ground (arith, h)

better-new : (best : Option (ℕ × ℤ)) (i : ℕ) (cw : ℤ) → AtLeast cw (better best i cw)
better-new none i cw = omega arith
better-new (some (b, x)) i cw = ground arith

better_either :
    (best : Option (ℕ × ℤ)) (i : ℕ) (cw : ℤ)
    → (better best i cw ≡ best) ⊎ (better best i cw ≡ some (i, cw))
better_either none i cw = inr refl
better_either (some (b, x)) i cw = elim (Bool-cases (ltb_ℤ x cw)) [
  | inl e ↦ inr (rw e refl)
  | inr e ↦ inl (rw e refl)
]

scan-keeps :
    (i : ℕ) (tw : ℤ) (best : Option (ℕ × ℤ)) (ps : List RrNode) (z : ℤ)
    → AtLeast z best
    → AtLeast z (scan i tw best ps).best
unfolding scan
scan-keeps i tw best [] z h = h
scan-keeps i tw best (p ∷ ps) z h =
    scan-keeps (i + 1) _ _ ps z (better-keeps best i (advance p).cw z h)

scan-Below :
    (i : ℕ) (tw : ℤ) (best : Option (ℕ × ℤ)) (ps : List RrNode)
    → Below (scan i tw best ps).best (map advance ps)
unfolding scan
scan-Below i tw best [] = tt
scan-Below i tw best (p ∷ ps) = (
  scan-keeps (i + 1) _ _ ps (advance p).cw (better-new best i (advance p).cw),
  scan-Below (i + 1) _ _ ps,
)

scan-Held :
    (i : ℕ) (tw : ℤ) (best : Option (ℕ × ℤ)) (ps : List RrNode)
    → ((scan i tw best ps).best ≡ best) ⊎ Held i (map advance ps) (scan i tw best ps).best
unfolding scan
scan-Held i tw best [] = inl refl
scan-Held i tw best (p ∷ ps) =
    elim (scan-Held (i + 1) (add_i16 tw (pos p.ew)) (better best i (advance p).cw) ps) [
      | inr h ↦ inr (inr h)
      | inl e ↦ elim (better_either best i (advance p).cw) [
        | inl k ↦ inl (e ∙ k)
        | inr k ↦ inr (inl (e ∙ k))
      ]
    ]

held :
    (o : Option (ℕ × ℤ)) (ps : List RrNode)
    → is_some o ≡ true
    → (o ≡ none) ⊎ Held 0 ps o
    → Held 0 ps o
held none ps s (inl e) = cc
held none ps s (inr h) = h
held (some b) ps s (inl e) = cc
held (some b) ps s (inr h) = h

choose-picked :
    (n : ℕ) (tw : ℤ) (ps qs : List RrNode) (o : Option (ℕ × ℤ))
    → is_some o ≡ true
    → Below o qs
    → Held 0 qs o
    → ((b : ℕ) (x : ℤ) → o ≡ some (b, x) → (choose tw ps o).1 ≡ some b)
    → (t : Token) × (x : ℤ) × ((choose tw ps o).1 ≡ some t)
      × Held 0 qs (some (t, x))
      × Below (some (t, x)) qs
choose-picked n tw ps qs none s b h k = cc
choose-picked n tw ps qs (some (t, x)) s b h k = (t, x, k t x refl, h, b)

choose-token :
    (tw : ℤ) (ps : List RrNode) (o : Option (ℕ × ℤ))
    → Numbered 0 ps
    → Within (length ps) o
    → (b : ℕ) (x : ℤ) → o ≡ some (b, x)
    → (choose tw ps o).1 ≡ some b
unfolding choose
choose-token tw ps none h w b x e = cc
choose-token tw ps (some (c, y)) h w b x e =
    let same : c ≡ b = ground (arith, e) in
    let index : 0 + c ≡ b = omega (arith, same) in (charge-Numbered 0 c tw ps h w).0 ∙ ap some index

-- From a valid state of at least two peers, the peer that is picked has the greatest current weight: after each node has
-- got its effective weight, the picked one is a node of its number, and no node weighs more.
pub next-Greatest :
    (r : RoundRobin)
    → IsValid r
    → 1 < r.total
    → (t : Token) × (x : ℤ) × ((next r).1 ≡ some t)
      × Held 0 (map advance r.nodes) (some (t, x))
      × Below (some (t, x)) (map advance r.nodes)
unfolding next
next-Greatest r v h =
    let many : leb r.total 1 ≡ false = ground arith in
    let s = scan 0 (pos 0) none r.nodes in
    let found = scan-found (pos 0) r.nodes (omega (arith, h, v.counted)) in
    rw (many, next)
      (choose-picked r.total s.tw s.nodes (map advance r.nodes) s.best found
        (scan-Below 0 (pos 0) none r.nodes)
        (held s.best (map advance r.nodes) found (scan-Held 0 (pos 0) none r.nodes))
        (choose-token s.tw s.nodes s.best (scan-Numbered 0 (pos 0) none r.nodes v.numbered)
          (within s.best (scan-Within 0 (pos 0) none r.nodes tt))))
  where
    within :
        (o : Option (ℕ × ℤ))
        → Within (0 + length r.nodes) o
        → Within (length (scan 0 (pos 0) none r.nodes).nodes) o
    within none w = tt
    within (some (b, x)) w = omega (arith, w, length-scan 0 (pos 0) none r.nodes)
