-- ===== src/Lifecycle/Store/Names.antt =====
-- realm_core/src/lifecycle/snapshot.rs: the name of the temporary file.
use realm.Base.{
  ℕ, zero, suc, ◌+◌, ◌%◌, ◌≤◌, ◌<◌, [], ◌∷◌, length, some, true, false, Bool-cases, inl, inr, ◌≡◌,
  refl, sym, ◌∙◌, arith,
}
use realm.Base.Map.{Map, contains, remove}
use realm.Lifecycle.Store.{Bytes, seq_key, u64_mod, free_name}

contains-remove_other : (k j : ℕ) (m : Map ℕ Bytes) → k < j → contains (remove k m) j ≡ contains m j
unfolding contains remove
contains-remove_other k j [] h = refl
contains-remove_other k j ((i, v) ∷ m) h = ground (arith, contains-remove_other k j m h)

length-remove_le : (k : ℕ) (m : Map ℕ Bytes) → length (remove k m) ≤ length m
unfolding remove
length-remove_le k [] = omega arith
length-remove_le k ((i, v) ∷ m) = ground (arith, length-remove_le k m)

length-remove_lt : (k : ℕ) (m : Map ℕ Bytes) → contains m k ≡ true → length (remove k m) < length m
unfolding contains remove
length-remove_lt k [] h = cc
length-remove_lt k ((i, v) ∷ m) h = ground (arith, length-remove_le k m, length-remove_lt k m)

next_counter : (k : ℕ) → k + 1 < u64_mod → (k + 1) % u64_mod ≡ k + 1
next_counter k h = omega (arith, h)

-- The names from a later number on are free or taken as without an earlier one.
free_name-remove :
    (fuel k j : ℕ) (m : Map ℕ Bytes)
    → k < j
    → j + fuel < u64_mod
    → free_name fuel j (remove k m) ≡ free_name fuel j m
unfolding free_name
free_name-remove zero k j m h b = refl
free_name-remove (suc fuel) k j m h b =
    let next = next_counter j (omega (arith, b)) in
    let rest = free_name-remove fuel k (j + 1) m (omega (arith, h)) (omega (arith, b)) in
    rw (contains-remove_other k j m h, next, rest) refl

-- As many rounds as there are files, and one more, find a free name.
pub free_name_found :
    (fuel k : ℕ) (m : Map ℕ Bytes)
    → length m < fuel
    → k + fuel < u64_mod
    → (seq : ℕ) × (next : ℕ) × (free_name fuel k m ≡ some (seq, next))
      × (contains m seq ≡ false)
      × (k ≤ seq)
unfolding free_name
free_name_found zero k m h b = absurd (omega (arith, h))
free_name_found (suc fuel) k m h b = elim (Bool-cases (contains m k)) [
  | inr free ↦ (k, (k + 1) % u64_mod, rw free refl, free, omega arith)
  | inl taken ↦
      let (seq, next, e, free, above) =
        free_name_found fuel (k + 1) (remove k m) (omega (arith, h, length-remove_lt k m taken))
          (omega (arith, b)) in
      let same = free_name-remove fuel k (k + 1) m (omega arith) (omega (arith, b)) in
      let low : k + 1 < u64_mod = omega (arith, b) in
      (
        seq,
        next,
        rw (taken, next_counter k low) (sym same ∙ e),
        sym (contains-remove_other k seq m (omega (arith, above))) ∙ free,
        omega (arith, above),
      )
]
