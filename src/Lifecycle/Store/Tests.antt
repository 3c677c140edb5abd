-- ===== src/Lifecycle/Store/Tests.antt =====
-- realm_core/src/lifecycle/snapshot.rs with a format for snapshots without endpoints.
use realm.Base.{
  ℕ, zero, suc, [], ◌∷◌, none, some, Result, ok, err, Bool, true, false, String, ◌≡◌, refl, ap, sym,
  arith,
}
use realm.Base.Map
use realm.Base.Map.{Map}
use realm.Endpoint.{EndpointId}
use realm.Lifecycle.Reconcile.{Snapshot}
use realm.Lifecycle.Store.{
  Bytes, seq_key, Disk, Envelope, Serde, Calls, load, Stored, free_name, store, wrong_version,
}
use realm.Lifecycle.Store.Atomic.{ReadsBack, AllLoadOld, Loads, store-IsAtomic}

abbrev flag : Bool → ℕ
flag true = 1
flag false = 0

abbrev to_flag : ℕ → Bool
to_flag zero = false
to_flag (suc n) = true

abbrev write_empty : ℕ → ℕ → Bool → Map EndpointId ℕ → Result Bytes String
write_empty v g p [] = ok (v ∷ g ∷ flag p ∷ [])
write_empty v g p (e ∷ es) = err "unsupported"

abbrev to_vec : Envelope ℕ → Result Bytes String
to_vec e = write_empty e.version e.snapshot.generation e.snapshot.partial e.snapshot.endpoints

abbrev from_slice : Bytes → Result (Envelope ℕ) String
from_slice (v ∷ g ∷ p ∷ []) = ok (record {
  version = v;
  snapshot = record { generation = g; partial = to_flag p; endpoints = [] };
})
from_slice bs = err "malformed"

abbrev serde : Serde ℕ
serde = record { to_vec = to_vec; from_slice = from_slice }

ok_injective : {x y : Bytes} → Path (Result Bytes String) (ok x) (ok y) → x ≡ y
ok_injective e = cc

empty_back :
    (v g : ℕ) (p : Bool) (es : Map EndpointId ℕ) (bs : Bytes)
    → write_empty v g p es ≡ ok bs
    → from_slice bs
      ≡ ok (record {
        version = v;
        snapshot = record { generation = g; partial = p; endpoints = es };
      })
empty_back v g true [] bs h = ap from_slice (sym (ok_injective h))
empty_back v g false [] bs h = ap from_slice (sym (ok_injective h))
empty_back v g p (e ∷ es) bs h = cc

serde-ReadsBack : ReadsBack serde
serde-ReadsBack v bs h =
    empty_back v.version v.snapshot.generation v.snapshot.partial v.snapshot.endpoints bs h

abbrev quiet : Calls
quiet = record {
  read_error = none;
  create_dir_error = none;
  open_error = λ n. none;
  write_error = none;
  sync_error = none;
  rename_error = none;
  remove_works = true;
}

abbrev old : Bytes
old = 1 ∷ 4 ∷ 0 ∷ []

-- A file with the first name is there already.
abbrev disk : Disk
disk = record { at_path = some old; tmps = (0, 7 ∷ []) ∷ [] }

abbrev snapshot : Snapshot ℕ
snapshot = record { generation = 5; partial = true; endpoints = [] }

store-IsAtomic_example :
    (x : Stored) × (store quiet serde 2 0 disk snapshot ≡ some x)
    × AllLoadOld serde quiet quiet disk x.passed
    × Loads serde quiet quiet disk snapshot x.disk x.answer
store-IsAtomic_example =
    store-IsAtomic serde quiet 2 0 disk snapshot quiet serde-ReadsBack refl (omega arith)
      (omega arith)

-- A crash in the middle of the write, and an error of it.
full_disk :
    store (record quiet { write_error = some (1, "no space") }) serde 2 0 disk snapshot
    ≡ some (record {
      tmp_counter = 2;
      disk = disk;
      passed =
          record disk { tmps = (0, 7 ∷ []) ∷ (1, []) ∷ [] }
          ∷ record disk { tmps = (0, 7 ∷ []) ∷ (1, 1 ∷ []) ∷ [] }
          ∷ record disk { tmps = (0, 7 ∷ []) ∷ (1, 1 ∷ []) ∷ [] }
          ∷ [];
      answer = err "no space";
    })
unfolding store free_name Map.contains Map.insert Map.remove
full_disk = refl

future_version :
    load serde quiet (record disk { at_path = some (2 ∷ 4 ∷ 0 ∷ []) }) ≡ err wrong_version
unfolding load
future_version = refl
