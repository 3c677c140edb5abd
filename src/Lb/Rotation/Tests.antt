-- ===== src/Lb/Rotation/Tests.antt =====
-- Three peers of unequal weights.
use realm.Base.{ℕ, [], ◌∷◌, map, ◌≡◌, ◌<◌, refl, some, arith}
use realm.Base.Int.{ℤ, pos}
use realm.Lb.{Token, RrNode, RoundRobin}
use realm.Lb.Rotation.{advance, next}
use realm.Lb.Rotation.Greatest.{Held, Below, next-Greatest}
use realm.Lb.Rotation.Pick.{IsValid, next-IsValid}

abbrev peer : ℕ → ℕ → RrNode
peer w t = record { cw = pos 0; ew = w; weight = w; token = t }

abbrev three : RoundRobin
three = record { nodes = peer 5 0 ∷ peer 1 1 ∷ peer 1 2 ∷ []; total = 3 }

next-IsValid_example :
    (t : Token) × ((next three).1 ≡ some t)
    × (t < 3)
    × IsValid (next three).0
    × ((next three).0.total ≡ 3)
next-IsValid_example =
    next-IsValid three
      (record { numbered = (refl, refl, (refl, refl, (refl, refl, tt))); counted = refl })
      (omega arith)

next-Greatest_example :
    (t : Token) × (x : ℤ) × ((next three).1 ≡ some t)
    × Held 0 (map advance three.nodes) (some (t, x))
    × Below (some (t, x)) (map advance three.nodes)
next-Greatest_example =
    next-Greatest three
      (record { numbered = (refl, refl, (refl, refl, (refl, refl, tt))); counted = refl })
      (omega arith)
