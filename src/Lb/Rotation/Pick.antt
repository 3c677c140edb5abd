-- ===== src/Lb/Rotation/Pick.antt =====
-- realm_lb/src/round_robin.rs: which token a pick is.
use realm.Base.{
  ℕ, zero, suc, ◌+◌, ◌<◌, ◌≤◌, ◌≡◌, refl, ◌∙◌, leb, List, [], ◌∷◌, Option, none, some, is_some,
  length, true, false, Bool-cases, inl, inr, arith,
}
use realm.Base.Int.{ℤ, pos, ltb_ℤ, add_i16}
use realm.Lb.{Token, RrNode, RoundRobin}
use realm.Lb.Rotation.{fresh_nodes, new, advance, better, scan, charge, choose, next}

-- The tokens are the indexes from `i` on, and no weight is on the way back to its value.
abbrev pub Numbered : ℕ → List RrNode → Type 0
Numbered i [] = Unit {0}
Numbered i (p ∷ ps) = (p.token ≡ i) × (p.ew ≡ p.weight) × Numbered (i + 1) ps

pub record IsValid (r : RoundRobin) : Type 0 where
  pub numbered : Numbered 0 r.nodes
  pub counted : length r.nodes ≡ r.total

fresh_nodes-Numbered : (i : ℕ) (ws : List ℕ) → Numbered i (fresh_nodes i ws)
unfolding fresh_nodes
fresh_nodes-Numbered i [] = tt
fresh_nodes-Numbered i (w ∷ ws) = (refl, refl, fresh_nodes-Numbered (i + 1) ws)

length-fresh_nodes : (i : ℕ) (ws : List ℕ) → length (fresh_nodes i ws) ≡ length ws
unfolding fresh_nodes
length-fresh_nodes i [] = refl
length-fresh_nodes i (w ∷ ws) = omega (arith, length-fresh_nodes (i + 1) ws)

pub scan-Numbered :
    (i : ℕ) (tw : ℤ) (best : Option (ℕ × ℤ)) (ps : List RrNode)
    → Numbered i ps
    → Numbered i (scan i tw best ps).nodes
unfolding scan advance
scan-Numbered i tw best [] h = tt
scan-Numbered i tw best (p ∷ ps) h = (h.0, ground (arith, h.1), scan-Numbered (i + 1) _ _ ps h.2)

pub length-scan :
    (i : ℕ) (tw : ℤ) (best : Option (ℕ × ℤ)) (ps : List RrNode)
    → length (scan i tw best ps).nodes ≡ length ps
unfolding scan
length-scan i tw best [] = refl
length-scan i tw best (p ∷ ps) =
    omega (arith, length-scan (i + 1) (add_i16 tw (pos p.ew)) (better best i (advance p).cw) ps)

-- The best node so far is one of the first `n`.
abbrev pub Within : ℕ → Option (ℕ × ℤ) → Type 0
Within n none = Unit {0}
Within n (some (b, x)) = b < n

better-Within :
    (best : Option (ℕ × ℤ)) (i : ℕ) (cw : ℤ) → Within i best → Within (i + 1) (better best i cw)
better-Within none i cw h = omega arith
better-Within (some (b, x)) i cw h = elim (Bool-cases (ltb_ℤ x cw)) [
  | inl e ↦ rw e (omega arith)
  | inr e ↦ rw e (omega (arith, h))
]

pub scan-Within :
    (i : ℕ) (tw : ℤ) (best : Option (ℕ × ℤ)) (ps : List RrNode)
    → Within i best
    → Within (i + length ps) (scan i tw best ps).best
unfolding scan
scan-Within i tw best [] h = widen best h
  where
    widen : (o : Option (ℕ × ℤ)) → Within i o → Within (i + 0) o
    widen none h = tt
    widen (some (b, x)) h = omega (arith, h)
scan-Within i tw best (p ∷ ps) h =
    widen (scan (i + 1) (add_i16 tw (pos p.ew)) (better best i (advance p).cw) ps).best
      (scan-Within (i + 1) _ _ ps (better-Within best i (advance p).cw h))
  where
    widen : (o : Option (ℕ × ℤ)) → Within (i + 1 + length ps) o → Within (i + length (p ∷ ps)) o
    widen none h = tt
    widen (some (b, x)) h = omega (arith, h)

pub charge-Numbered :
    (i b : ℕ) (tw : ℤ) (ps : List RrNode)
    → Numbered i ps
    → b < length ps
    → ((charge b tw ps).1 ≡ some (i + b))
      × Numbered i (charge b tw ps).0
      × (length (charge b tw ps).0 ≡ length ps)
unfolding charge
charge-Numbered i b tw [] h k = absurd (omega (arith, k))
charge-Numbered i zero tw (p ∷ ps) h k = (ground (arith, h.0), h, refl)
charge-Numbered i (suc b) tw (p ∷ ps) h k =
    let (t, n, l) = charge-Numbered (i + 1) b tw ps h.2 (omega (arith, k)) in
    (ground (arith, t), (h.0, h.1, n), omega (arith, l))

scan-some :
    (i : ℕ) (tw : ℤ) (best : Option (ℕ × ℤ)) (ps : List RrNode)
    → is_some best ≡ true
    → is_some (scan i tw best ps).best ≡ true
unfolding scan
scan-some i tw best [] h = h
scan-some i tw best (p ∷ ps) h = scan-some (i + 1) _ _ ps (better-some best)
  where
    better-some : (o : Option (ℕ × ℤ)) → is_some (better o i (advance p).cw) ≡ true
    better-some none = refl
    better-some (some (b, x)) = elim (Bool-cases (ltb_ℤ x (advance p).cw)) [
      | inl e ↦ rw e refl
      | inr e ↦ rw e refl
    ]

pub scan-found :
    (tw : ℤ) (ps : List RrNode) → 1 < length ps → is_some (scan 0 tw none ps).best ≡ true
unfolding scan
scan-found tw [] h = absurd (omega (arith, h))
scan-found tw (p ∷ ps) h = scan-some 1 _ _ ps refl

choose-Numbered :
    (n : ℕ) (tw : ℤ) (ps : List RrNode) (o : Option (ℕ × ℤ))
    → Numbered 0 ps
    → length ps ≡ n
    → Within n o
    → is_some o ≡ true
    → (t : Token) × ((choose tw ps o).1 ≡ some t)
      × (t < n)
      × Numbered 0 (choose tw ps o).0
      × (length (choose tw ps o).0 ≡ n)
unfolding choose
choose-Numbered n tw ps none h l w s = cc
choose-Numbered n tw ps (some (b, x)) h l w s =
    let (t, m, k) = charge-Numbered 0 b tw ps h (omega (arith, l, w)) in
    (0 + b, t, omega (arith, w), m, omega (arith, k, l))

-- From a valid state of at least two peers (its nodes are the peers in order, each with its effective weight at
-- its configured one) a pick is one of the peers, and the state is valid again, with as many peers.
pub next-IsValid :
    (r : RoundRobin)
    → IsValid r
    → 1 < r.total
    → (t : Token) × ((next r).1 ≡ some t)
      × (t < r.total)
      × IsValid (next r).0
      × ((next r).0.total ≡ r.total)
unfolding next
next-IsValid r v h =
    let many : leb r.total 1 ≡ false = ground arith in
    let s = scan 0 (pos 0) none r.nodes in
    let (t, e, k, m, l) =
      choose-Numbered r.total s.tw s.nodes s.best (scan-Numbered 0 _ none r.nodes v.numbered)
        (length-scan 0 _ none r.nodes ∙ v.counted) (within s.best (scan-Within 0 _ none r.nodes tt))
        (scan-found _ r.nodes (omega (arith, h, v.counted))) in
    rw (many, next) (t, e, k, record { numbered = m; counted = l }, refl)
  where
    within : (o : Option (ℕ × ℤ)) → Within (0 + length r.nodes) o → Within r.total o
    within none w = tt
    within (some (b, x)) w = omega (arith, w, v.counted)

-- A balancer that is made of two weights or more, and at most 255, is valid and has a peer for each.
pub new-IsValid :
    (ws : List ℕ)
    → 1 < length ws
    → length ws ≤ 255
    → (r : RoundRobin) × (new ws ≡ some r) × IsValid r × (r.total ≡ length ws)
unfolding new
new-IsValid ws h k =
    let few : leb (length ws) 255 ≡ true = ground arith in
    let many : leb (length ws) 1 ≡ false = ground arith in
    (
      record { nodes = fresh_nodes 0 ws; total = length ws },
      rw (few, many) refl,
      record { numbered = fresh_nodes-Numbered 0 ws; counted = length-fresh_nodes 0 ws },
      refl,
    )
