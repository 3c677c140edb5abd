-- ===== src/Base/Map.antt =====
-- `BTreeMap` as an association list in key order: a write replaces the entry where the key is
-- present, and otherwise goes before the first greater key.
pub mod Distinct
use mathlib.Core.Path.{◌≡◌, refl}
use mathlib.Core.Logic.{◌↔◌}
use mathlib.Core.Bool.{Bool, true, false}
use mathlib.Core.List.{List, [], ◌∷◌, map}
use mathlib.Core.Option.{Option, none, some}
use native.Mathlib.Omega.{arith}
use realm.Base.Tests.{if◌then◌else◌}

-- `Ord` of a key: equality, and the order that fixes where a new key goes.
pub record Key {ℓ} (K : Type ℓ) : Type ℓ where
  pub keq : K → K → Bool
  pub klt : K → K → Bool
  pub keq_iff : (a b : K) → (keq a b ≡ true) ↔ (a ≡ b)

abbrev pub Map {ℓ κ} : Type ℓ → Type κ → Type (ℓ ⊔ κ)
Map K V = List (K × V)

module _ {ℓ κ} {K : Type ℓ} {V : Type κ} ⦃o : Key K⦄ where
  unfoldable pub get : Map K V → K → Option V
  get [] k = none
  get ((j, v) ∷ m) k = if o.keq j k then some v else get m k

  unfoldable pub contains : Map K V → K → Bool
  contains [] k = false
  contains ((j, v) ∷ m) k = if o.keq j k then true else contains m k

  replace : K → V → Map K V → Map K V
  replace k v [] = []
  replace k v ((j, w) ∷ m) = (if o.keq j k then (k, v) else (j, w)) ∷ replace k v m

  place : K → V → Map K V → Map K V
  place k v [] = (k, v) ∷ []
  place k v ((j, w) ∷ m) =
      let rest = place k v m in if o.klt k j then (k, v) ∷ (j, w) ∷ m else (j, w) ∷ rest

  unfoldable pub insert : K → V → Map K V → Map K V
  unfolding replace place contains
  insert k v m = if contains m k then replace k v m else place k v m

  unfoldable pub remove : K → Map K V → Map K V
  remove k [] = []
  remove k ((j, v) ∷ m) = let rest = remove k m in if o.keq j k then rest else (j, v) ∷ rest

  abbrev pub keys : Map K V → List K
  keys m = map (λ e. e.0) m

  get-replace :
      (k i : K) (v : V) (m : Map K V)
      → get (replace k v m) i
        ≡ (if o.keq k i then (if contains m k then some v else none) else get m i)
  unfolding get replace contains
  get-replace k i v [] = ground arith
  get-replace k i v ((j, w) ∷ m) =
      ground (arith, get-replace k i v m, o.keq_iff j k, o.keq_iff j i, o.keq_iff k i)

  get-place :
      (k i : K) (v : V) (m : Map K V)
      → contains m k ≡ false
      → get (place k v m) i ≡ (if o.keq k i then some v else get m i)
  unfolding get place contains
  get-place k i v [] h = refl
  get-place k i v ((j, w) ∷ m) h =
      ground (arith, get-place k i v m, o.keq_iff j k, o.keq_iff j i, o.keq_iff k i)

  pub get-insert :
      (k i : K) (v : V) (m : Map K V)
      → get (insert k v m) i ≡ (if o.keq k i then some v else get m i)
  unfolding insert
  get-insert k i v m = ground (arith, get-replace k i v m, get-place k i v m)

  pub get-remove :
      (k i : K) (m : Map K V) → get (remove k m) i ≡ (if o.keq k i then none else get m i)
  unfolding get remove
  get-remove k i [] = ground arith
  get-remove k i ((j, w) ∷ m) =
      ground (arith, get-remove k i m, o.keq_iff j k, o.keq_iff j i, o.keq_iff k i)

module _ {ℓ} {K : Type ℓ} ⦃o : Key K⦄ where
  pub keq_refl : (k : K) → o.keq k k ≡ true
  keq_refl k = (o.keq_iff k k).1 refl
