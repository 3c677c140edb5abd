-- ===== src/Base/Map/Distinct.antt =====
-- Maps that hold each key once, and sums over their values.
use realm.Base.Map.{Key, Map, get, contains, insert, remove, replace, place}
use realm.Base.Tests.{if◌then◌else◌}
use Prim.Native.Nat.{ℕ, ◌+◌}
use mathlib.Core.Path.{◌≡◌, refl}
use mathlib.Core.Bool.{true, false}
use mathlib.Core.List.{[], ◌∷◌}
use mathlib.Core.Option.{Option, none, some}
use native.Mathlib.Omega.{arith}

abbrev pub weight {κ} : {V : Type κ} → (V → ℕ) → Option V → ℕ
weight f none = 0
weight f (some v) = f v

module _ {ℓ κ} {K : Type ℓ} {V : Type κ} ⦃o : Key K⦄ where
  abbrev pub Distinct : Map K V → Type 0
  Distinct [] = Unit
  Distinct ((k, v) ∷ m) = (contains m k ≡ false) × Distinct m

  contains-replace : (k i : K) (v : V) (m : Map K V) → contains (replace k v m) i ≡ contains m i
  unfolding contains replace
  contains-replace k i v [] = refl
  contains-replace k i v ((j, w) ∷ m) =
      ground (arith, contains-replace k i v m, o.keq_iff j k, o.keq_iff j i, o.keq_iff k i)

  contains-place :
      (k i : K) (v : V) (m : Map K V)
      → contains (place k v m) i ≡ (if o.keq k i then true else contains m i)
  unfolding contains place
  contains-place k i v [] = ground arith
  contains-place k i v ((j, w) ∷ m) = ground (arith, contains-place k i v m)

  pub contains-insert :
      (k i : K) (v : V) (m : Map K V)
      → contains (insert k v m) i ≡ (if o.keq k i then true else contains m i)
  unfolding insert
  contains-insert k i v m =
      ground (arith, contains-replace k i v m, contains-place k i v m, o.keq_iff k i)

  pub contains-remove :
      (k i : K) (m : Map K V)
      → contains (remove k m) i ≡ (if o.keq k i then false else contains m i)
  unfolding contains remove
  contains-remove k i [] = ground arith
  contains-remove k i ((j, w) ∷ m) =
      ground (arith, contains-remove k i m, o.keq_iff j k, o.keq_iff j i, o.keq_iff k i)

  replace-Distinct : (k : K) (v : V) (m : Map K V) → Distinct m → Distinct (replace k v m)
  unfolding replace
  replace-Distinct k v [] h = tt
  replace-Distinct k v ((j, w) ∷ m) h = ground (
    arith,
    replace-Distinct k v m h.1,
    contains-replace k j v m,
    contains-replace k k v m,
    o.keq_iff j k,
  )

  place-Distinct :
      (k : K) (v : V) (m : Map K V) → contains m k ≡ false → Distinct m → Distinct (place k v m)
  unfolding place contains
  place-Distinct k v [] n h = (refl, tt)
  place-Distinct k v ((j, w) ∷ m) n h =
      ground (arith, place-Distinct k v m, contains-place k j v m, o.keq_iff j k, o.keq_iff k j)

  pub insert-Distinct : (k : K) (v : V) (m : Map K V) → Distinct m → Distinct (insert k v m)
  unfolding insert
  insert-Distinct k v m h = ground (arith, replace-Distinct k v m h, place-Distinct k v m)

  pub remove-Distinct : (k : K) (m : Map K V) → Distinct m → Distinct (remove k m)
  unfolding remove
  remove-Distinct k [] h = tt
  remove-Distinct k ((j, w) ∷ m) h =
      ground (arith, remove-Distinct k m h.1, contains-remove k j m, o.keq_iff k j)

  pub contains-get : (k : K) (m : Map K V) → get m k ≡ none → contains m k ≡ false
  unfolding get contains
  contains-get k [] h = refl
  contains-get k ((j, w) ∷ m) h = ground (arith, contains-get k m)

  pub get-contains : (k : K) (m : Map K V) → contains m k ≡ false → get m k ≡ none
  unfolding get contains
  get-contains k [] h = refl
  get-contains k ((j, w) ∷ m) h = ground (arith, get-contains k m)

  -- The sum of a measure over the values.
  abbrev pub total : (V → ℕ) → Map K V → ℕ
  total f [] = 0
  total f ((k, v) ∷ m) = f v + total f m

  replace_absent : (k : K) (v : V) (m : Map K V) → contains m k ≡ false → replace k v m ≡ m
  unfolding replace contains
  replace_absent k v [] h = refl
  replace_absent k v ((j, w) ∷ m) h = ground (arith, replace_absent k v m)

  total-replace :
      (f : V → ℕ) (k : K) (v : V) (m : Map K V)
      → Distinct m
      → contains m k ≡ true
      → total f (replace k v m) + weight f (get m k) ≡ total f m + f v
  unfolding replace contains get
  total-replace f k v [] d h = ground arith
  total-replace f k v ((j, w) ∷ m) d h =
      ground (arith, total-replace f k v m d.1, replace_absent k v m, o.keq_iff j k)

  total-place : (f : V → ℕ) (k : K) (v : V) (m : Map K V) → total f (place k v m) ≡ total f m + f v
  unfolding place
  total-place f k v [] = ground arith
  total-place f k v ((j, w) ∷ m) = ground (arith, total-place f k v m)

  pub total-insert :
      (f : V → ℕ) (k : K) (v : V) (m : Map K V)
      → Distinct m
      → total f (insert k v m) + weight f (get m k) ≡ total f m + f v
  unfolding insert
  total-insert f k v m d =
      ground (arith, total-replace f k v m d, total-place f k v m, get-contains k m)

  remove_absent : (k : K) (m : Map K V) → contains m k ≡ false → remove k m ≡ m
  unfolding remove contains
  remove_absent k [] h = refl
  remove_absent k ((j, w) ∷ m) h = ground (arith, remove_absent k m)

  pub total-remove :
      (f : V → ℕ) (k : K) (m : Map K V)
      → Distinct m
      → total f (remove k m) + weight f (get m k) ≡ total f m
  unfolding remove get
  total-remove f k [] d = ground arith
  total-remove f k ((j, w) ∷ m) d =
      ground (arith, total-remove f k m d.1, remove_absent k m, o.keq_iff j k)
