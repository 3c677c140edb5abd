-- ===== src/Lifecycle/Store/Atomic.antt =====
-- realm_core/src/lifecycle/snapshot.rs: what is loaded after a store, or after a crash within one.
use realm.Base.{
  ℕ, zero, suc, ◌+◌, ◌<◌, nat_eq, nat_eq_iff, List, [], ◌∷◌, ◌++◌, take, length, Option, none, some,
  Result, ok, err, Bool, true, false, String, Bool-cases, inl, inr, ◌≡◌, ◌⊎◌, refl, ap, sym, ◌∙◌,
  if◌then◌else◌,
}
use realm.Base.Map.{Map, get, contains, insert, remove, get-insert, get-remove}
use realm.Base.Map.Distinct.{get-contains}
use realm.Lifecycle.Reconcile.{Snapshot}
use realm.Lifecycle.Store.{
  Bytes, seq_key, Disk, snapshot_version, u64_mod, Envelope, Serde, Calls, load_at, load, Stored,
  with_tmp, growing, removed, cleaned, rename, sync, write, open_tmp, named, serialized, in_dir,
  store,
}
use realm.Lifecycle.Store.Names.{free_name_found}

-- What is written is read back.
abbrev pub ReadsBack : {S : Type 0} → Serde S → Type 0
ReadsBack {S} serde =
    (v : Envelope S) (bs : Bytes) → serde.to_vec v ≡ ok bs → serde.from_slice bs ≡ ok v

-- The same temporary files.
abbrev pub SameTmps : Disk → Disk → Type 0
SameTmps c d = (k : ℕ) → get c.tmps k ≡ get d.tmps k

-- The path holds what it did.
abbrev pub AllOld : Option Bytes → List Disk → Type 0
AllOld old [] = Unit {0}
AllOld old (y ∷ ys) = (y.at_path ≡ old) × AllOld old ys

AllOld-append :
    (old : Option Bytes) (xs : List Disk) (y : Disk)
    → AllOld old xs
    → y.at_path ≡ old
    → AllOld old (xs ++ (y ∷ []))
AllOld-append old [] y h e = (e, tt)
AllOld-append old (x ∷ xs) y (a, h) e = (a, AllOld-append old xs y h e)

growing-AllOld : (seq n : ℕ) (bs : Bytes) (d : Disk) → AllOld d.at_path (growing seq n bs d)
growing-AllOld seq zero bs d = (refl, tt)
growing-AllOld seq (suc n) bs d =
    AllOld-append d.at_path (growing seq n bs d) (with_tmp seq (take (suc n) bs) d)
      (growing-AllOld seq n bs d) refl

-- A name that was free is free again after its file is removed.
fresh_removed :
    (seq : ℕ) (bs : Bytes) (m : Map ℕ Bytes) (k : ℕ)
    → contains m seq ≡ false
    → get (remove seq (insert seq bs m)) k ≡ get m k
fresh_removed seq bs m k h =
    get-remove seq k (insert seq bs m)
    ∙ (ap (λ z. if nat_eq seq k then none else z) (get-insert seq k bs m)
        ∙ by_case (Bool-cases (nat_eq seq k)))
  where
    by_case :
        (nat_eq seq k ≡ true) ⊎ (nat_eq seq k ≡ false)
        → (if nat_eq seq k then none else (if nat_eq seq k then some bs else get m k)) ≡ get m k
    by_case (inl same) =
        rw same (sym (ap (get m) (sym ((nat_eq_iff seq k).0 same)) ∙ get-contains seq m h))
    by_case (inr other) = rw other refl

-- How a store ends, where the bytes of the snapshot are `r`.
abbrev Ends : Calls → Disk → Result Bytes String → Disk → Result (Unit {0}) String → Type 0
Ends calls d r y (ok u) = (bs : Bytes) × (r ≡ ok bs) × (y.at_path ≡ some bs) × SameTmps y d
Ends calls d r y (err e) = (y.at_path ≡ d.at_path) × (calls.remove_works ≡ true → SameTmps y d)

abbrev Leaves : Calls → Disk → Result Bytes String → Stored → Type 0
Leaves calls d r x = AllOld d.at_path x.passed × Ends calls d r x.disk x.answer

removed-Ends :
    (b : Bool) (seq : ℕ) (bs : Bytes) (d : Disk)
    → contains d.tmps seq ≡ false
    → ((removed b seq (with_tmp seq bs d)).at_path ≡ d.at_path)
      × (b ≡ true → SameTmps (removed b seq (with_tmp seq bs d)) d)
removed-Ends true seq bs d free = (refl, λ h k. fresh_removed seq bs d.tmps k free)
removed-Ends false seq bs d free = (refl, λ h. cc)

module _ (calls : Calls) (d : Disk) (r : Result Bytes String) (counter seq : ℕ) where
  cleaned-Leaves :
      (bs : Bytes) (ds : List Disk) (e : String)
      → contains d.tmps seq ≡ false
      → AllOld d.at_path ds
      → Leaves calls d r (cleaned calls counter seq (with_tmp seq bs d) ds e)
  cleaned-Leaves bs ds e free old = (
    AllOld-append d.at_path ds (with_tmp seq bs d) old refl,
    removed-Ends calls.remove_works seq bs d free,
  )

  rename-Leaves :
      (bs : Bytes) (ds : List Disk) (o : Option String)
      → r ≡ ok bs
      → contains d.tmps seq ≡ false
      → AllOld d.at_path ds
      → Leaves calls d r (rename calls counter seq bs (with_tmp seq bs d) ds o)
  rename-Leaves bs ds (some e) same free old = cleaned-Leaves bs ds e free old
  rename-Leaves bs ds none same free old = (
    AllOld-append d.at_path ds (with_tmp seq bs d) old refl,
    (bs, same, refl, λ k. fresh_removed seq bs d.tmps k free),
  )

  sync-Leaves :
      (bs : Bytes) (ds : List Disk) (o : Option String)
      → r ≡ ok bs
      → contains d.tmps seq ≡ false
      → AllOld d.at_path ds
      → Leaves calls d r (sync calls counter seq bs (with_tmp seq bs d) ds o)
  sync-Leaves bs ds (some e) same free old = cleaned-Leaves bs ds e free old
  sync-Leaves bs ds none same free old = rename-Leaves bs ds calls.rename_error same free old

  write-Leaves :
      (bs : Bytes) (o : Option (ℕ × String))
      → r ≡ ok bs
      → contains d.tmps seq ≡ false
      → Leaves calls d r (write calls counter seq bs d o)
  write-Leaves bs (some (n, e)) same free =
      cleaned-Leaves (take n bs) (growing seq n bs d) e free (growing-AllOld seq n bs d)
  write-Leaves bs none same free =
      sync-Leaves bs (growing seq (length bs) bs d) calls.sync_error same free
        (growing-AllOld seq (length bs) bs d)

  open_tmp-Leaves :
      (bs : Bytes) (o : Option String)
      → r ≡ ok bs
      → contains d.tmps seq ≡ false
      → Leaves calls d r (open_tmp calls counter seq bs d o)
  open_tmp-Leaves bs (some e) same free = (tt, (refl, λ h k. refl))
  open_tmp-Leaves bs none same free = write-Leaves bs calls.write_error same free

module _ {S : Type 0} (serde : Serde S) (calls : Calls) where
  abbrev bytes_of : Snapshot S → Result Bytes String
  bytes_of s = serde.to_vec (record { version = snapshot_version; snapshot = s })

  serialized-Leaves :
      (fuel counter : ℕ) (d : Disk) (r : Result Bytes String)
      → length d.tmps < fuel
      → counter + fuel < u64_mod
      → (x : Stored) × (serialized calls fuel counter d r ≡ some x) × Leaves calls d r x
  serialized-Leaves fuel counter d (err e) few low = (_, refl, (tt, (refl, λ h k. refl)))
  serialized-Leaves fuel counter d (ok bs) few low =
      let (seq, next, e, free, above) = free_name_found fuel counter d.tmps few low in
      (
        open_tmp calls next seq bs d (calls.open_error seq),
        ap (named calls bs d) e,
        open_tmp-Leaves calls d (ok bs) next seq bs (calls.open_error seq) refl free,
      )

  store-Leaves :
      (fuel counter : ℕ) (d : Disk) (s : Snapshot S)
      → length d.tmps < fuel
      → counter + fuel < u64_mod
      → (x : Stored) × (store calls serde fuel counter d s ≡ some x) × Leaves calls d (bytes_of s) x
  unfolding store
  store-Leaves fuel counter d s few low = go calls.create_dir_error
    where
      go :
          (o : Option String)
          → (x : Stored) × (in_dir calls fuel counter d (bytes_of s) o ≡ some x)
            × Leaves calls d (bytes_of s) x
      go (some e) = (_, refl, (tt, (refl, λ h k. refl)))
      go none = serialized-Leaves fuel counter d (bytes_of s) few low

  -- What is loaded, by the end of the store.
  abbrev pub Loads : Calls → Disk → Snapshot S → Disk → Result (Unit {0}) String → Type 0
  Loads later d s y (ok u) = (load serde later y ≡ ok (some s)) × SameTmps y d
  Loads later d s y (err e) =
      (load serde later y ≡ load serde later d) × (calls.remove_works ≡ true → SameTmps y d)

  abbrev pub AllLoadOld : Calls → Disk → List Disk → Type 0
  AllLoadOld later d [] = Unit {0}
  AllLoadOld later d (y ∷ ys) = (load serde later y ≡ load serde later d) × AllLoadOld later d ys

  AllOld-load :
      (later : Calls) (d : Disk) (ys : List Disk) → AllOld d.at_path ys → AllLoadOld later d ys
  unfolding load
  AllOld-load later d [] h = tt
  AllOld-load later d (y ∷ ys) (e, h) = (ap (load_at serde later) e, AllOld-load later d ys h)

  Ends-Loads :
      (later : Calls) (d : Disk) (s : Snapshot S) (y : Disk) (a : Result (Unit {0}) String)
      → ReadsBack serde
      → later.read_error ≡ none
      → Ends calls d (bytes_of s) y a
      → Loads later d s y a
  unfolding load
  Ends-Loads later d s y (ok u) back reads (bs, same, e, kept) =
      (ap (load_at serde later) e ∙ rw (reads, back _ bs same) refl, kept)
  Ends-Loads later d s y (err x) back reads (e, kept) = (ap (load_at serde later) e, kept)

  -- Where what is written is read back, later reads do not fail, the counter is far from its end and the
  -- fuel is more than the number of temporary files there are: a store comes to an end, and
  -- - at every point before it a crash leaves a disk from which the old snapshot is loaded, if there is one;
  -- - if it succeeds, the new snapshot is loaded, and there are the same temporary files as before;
  -- - if it fails, the old one is loaded, and there are the same temporary files if the removal works.
  pub store-IsAtomic :
      (fuel counter : ℕ) (d : Disk) (s : Snapshot S) (later : Calls)
      → ReadsBack serde
      → later.read_error ≡ none
      → length d.tmps < fuel
      → counter + fuel < u64_mod
      → (x : Stored) × (store calls serde fuel counter d s ≡ some x)
        × AllLoadOld later d x.passed
        × Loads later d s x.disk x.answer
  store-IsAtomic fuel counter d s later back reads few low =
      let (x, e, (old, ends)) = store-Leaves fuel counter d s few low in
      (x, e, AllOld-load later d x.passed old, Ends-Loads later d s x.disk x.answer back reads ends)
