-- ===== src/Lifecycle/Store.antt =====
-- realm_core/src/lifecycle/snapshot.rs: the file of the snapshot and its directory. The bytes of a
-- snapshot (serde) and the errors of the system are parameters.
pub mod Names
pub mod Atomic
mod Tests
use realm.Base.{
  ℕ, zero, suc, ◌+◌, ◌%◌, nat_eq, ltb, nat_eq_iff, if◌then◌else◌, List, [], ◌∷◌, ◌++◌, take, length,
  Option, none, some, Result, ok, err, Bool, true, false, String,
}
use realm.Base.Map
use realm.Base.Map.{Map, Key}
use realm.Lifecycle.Reconcile.{Snapshot}

abbrev pub Bytes : Type 0
Bytes = List ℕ

instance abbrev pub seq_key : Key ℕ
seq_key = record { keq = nat_eq; klt = ltb; keq_iff = nat_eq_iff }

-- What is at the path of the snapshot, and the temporary files by the number in their name. These
-- names are longer than that of the path, so they are others.
pub record Disk : Type 0 where
  pub at_path : Option Bytes
  pub tmps : Map ℕ Bytes

abbrev pub snapshot_version : ℕ
snapshot_version = 1

abbrev pub u64_mod : ℕ
u64_mod = 18446744073709551616

pub record Envelope (S : Type 0) : Type 0 where
  pub version : ℕ
  pub snapshot : Snapshot S

pub record Serde (S : Type 0) : Type 0 where
  pub to_vec : Envelope S → Result Bytes String
  pub from_slice : Bytes → Result (Envelope S) String

-- The errors of one call of `store` or `load`, if any; that of a write comes after so many bytes.
-- `remove_works` is whether the removal of the temporary file succeeds.
pub record Calls : Type 0 where
  pub read_error : Option String
  pub create_dir_error : Option String
  pub open_error : ℕ → Option String
  pub write_error : Option (ℕ × String)
  pub sync_error : Option String
  pub rename_error : Option String
  pub remove_works : Bool

abbrev pub wrong_version : String
wrong_version = "unsupported snapshot version"

abbrev pub checked : {S : Type 0} → Result (Envelope S) String → Result (Option (Snapshot S)) String
checked (err e) = err e
checked (ok v) =
    if nat_eq v.version snapshot_version then ok (some v.snapshot) else err wrong_version

module _ {S : Type 0} (serde : Serde S) (calls : Calls) where
  abbrev pub read_data : Bytes → Option String → Result (Option (Snapshot S)) String
  read_data bs (some e) = err e
  read_data bs none = checked (serde.from_slice bs)

  abbrev pub load_at : Option Bytes → Result (Option (Snapshot S)) String
  load_at none = ok none
  load_at (some bs) = read_data bs calls.read_error

  unfoldable pub load : Disk → Result (Option (Snapshot S)) String
  load d = load_at d.at_path

-- The counter of the handle, the disk, and the disks that a crash before the end could have left,
-- latest last.
pub record Stored : Type 0 where
  pub tmp_counter : ℕ
  pub disk : Disk
  pub passed : List Disk
  pub answer : Result (Unit {0}) String

-- The first number from the counter on whose name is free, and the counter behind it; on fuel.
unfoldable pub free_name : ℕ → ℕ → Map ℕ Bytes → Option (ℕ × ℕ)
free_name zero counter tmps = none
free_name (suc fuel) counter tmps =
    let next = (counter + 1) % u64_mod in
    let rest = free_name fuel next tmps in
    if Map.contains tmps counter then rest else some (counter, next)

abbrev pub with_tmp : ℕ → Bytes → Disk → Disk
with_tmp seq bs d = record d { tmps = Map.insert seq bs d.tmps }

-- The file as it grows by the bytes, from its first `n` on.
abbrev pub growing : ℕ → ℕ → Bytes → Disk → List Disk
growing seq zero bs d = with_tmp seq [] d ∷ []
growing seq (suc n) bs d = growing seq n bs d ++ (with_tmp seq (take (suc n) bs) d ∷ [])

abbrev pub removed : Bool → ℕ → Disk → Disk
removed true seq d = record d { tmps = Map.remove seq d.tmps }
removed false seq d = d

abbrev pub renamed : ℕ → Bytes → Disk → Disk
renamed seq bs d = record { at_path = some bs; tmps = Map.remove seq d.tmps }

abbrev pub stopped : ℕ → Disk → List Disk → String → Stored
stopped counter d ds e = record { tmp_counter = counter; disk = d; passed = ds; answer = err e }

module _ (calls : Calls) where
  -- The removal of a temporary file after an error.
  abbrev pub cleaned : ℕ → ℕ → Disk → List Disk → String → Stored
  cleaned counter seq d ds e = stopped counter (removed calls.remove_works seq d) (ds ++ (d ∷ [])) e

  abbrev pub rename : ℕ → ℕ → Bytes → Disk → List Disk → Option String → Stored
  rename counter seq bs d ds (some e) = cleaned counter seq d ds e
  rename counter seq bs d ds none = record {
    tmp_counter = counter;
    disk = renamed seq bs d;
    passed = ds ++ (d ∷ []);
    answer = ok tt;
  }

  abbrev pub sync : ℕ → ℕ → Bytes → Disk → List Disk → Option String → Stored
  sync counter seq bs d ds (some e) = cleaned counter seq d ds e
  sync counter seq bs d ds none = rename counter seq bs d ds calls.rename_error

  abbrev pub write : ℕ → ℕ → Bytes → Disk → Option (ℕ × String) → Stored
  write counter seq bs d (some (n, e)) =
      cleaned counter seq (with_tmp seq (take n bs) d) (growing seq n bs d) e
  write counter seq bs d none =
      sync counter seq bs (with_tmp seq bs d) (growing seq (length bs) bs d) calls.sync_error

  abbrev pub open_tmp : ℕ → ℕ → Bytes → Disk → Option String → Stored
  open_tmp counter seq bs d (some e) = stopped counter d [] e
  open_tmp counter seq bs d none = write counter seq bs d calls.write_error

  -- `none` is a name that was not found on the fuel.
  abbrev pub named : Bytes → Disk → Option (ℕ × ℕ) → Option Stored
  named bs d none = none
  named bs d (some (seq, counter)) = some (open_tmp counter seq bs d (calls.open_error seq))

  abbrev pub serialized : ℕ → ℕ → Disk → Result Bytes String → Option Stored
  serialized fuel counter d (err e) = some (stopped counter d [] e)
  serialized fuel counter d (ok bs) = named bs d (free_name fuel counter d.tmps)

  abbrev pub in_dir : ℕ → ℕ → Disk → Result Bytes String → Option String → Option Stored
  in_dir fuel counter d r (some e) = some (stopped counter d [] e)
  in_dir fuel counter d r none = serialized fuel counter d r

  unfoldable pub store : {S : Type 0} → Serde S → ℕ → ℕ → Disk → Snapshot S → Option Stored
  unfolding free_name
  store serde fuel counter d s =
      in_dir fuel counter d (serde.to_vec (record { version = snapshot_version; snapshot = s }))
        calls.create_dir_error
