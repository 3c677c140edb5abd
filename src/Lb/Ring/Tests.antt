-- ===== src/Lb/Ring/Tests.antt =====
-- A ring of three peers.
use realm.Base.{
  ℕ, suc, ◌+◌, ◌%◌, ltb, nat_eq, if◌then◌else◌, List, [], ◌∷◌, Result, ok, err, ◌≡◌, refl, arith,
}
use realm.Lb.{HashNode}
use realm.Lb.Ring.{Lib, IsLib, undefined, new}
use realm.Lb.Ring.Overflow.{unchecked, new_undefined}

-- Insertion in the order of the hashes.
place : HashNode → List HashNode → List HashNode
place n [] = n ∷ []
place n (m ∷ ms) = let rest = place n ms in if ltb m.hash n.hash then m ∷ rest else n ∷ m ∷ ms

pub sorted : List HashNode → List HashNode
unfolding place
sorted [] = []
sorted (n ∷ ns) = place n (sorted ns)

found_later : Result ℕ ℕ → Result ℕ ℕ
found_later (ok i) = ok (suc i)
found_later (err i) = err (suc i)

pub search : List HashNode → ℕ → Result ℕ ℕ
unfolding found_later
search [] h = err 0
search (n ∷ ns) h =
    let rest = found_later (search ns h) in
    if ltb n.hash h then rest else if nat_eq n.hash h then ok 0 else err 0

abbrev pub lib : Lib
lib = record {
  digits = λ n. (48 + n % 10) ∷ [];
  align_to = λ octets. octets;
  sort = sorted;
  search = search;
}

pub lib-IsLib : IsLib lib
lib-IsLib = record { digits_zero = refl }

new_undefined_example : new unchecked lib (1 ∷ 2 ∷ 3 ∷ []) ≡ undefined
new_undefined_example = new_undefined lib lib-IsLib (1 ∷ 2 ∷ 3 ∷ []) (omega arith) (omega arith)
