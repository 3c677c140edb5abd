-- ===== src/Lifecycle/Reconcile/Restore.antt =====
-- The restore of a snapshot when the process starts, and the shutdown.
use realm.Base.{
  ℕ, ◌+◌, String, List, [], ◌∷◌, ◌++◌, Option, none, some, Bool, true, false, not, ◌||◌,
  if◌then◌else◌, find, unwrap_or, Result, ok, err,
}
use realm.Base.Map
use realm.Base.Map.{Map}
use realm.Endpoint.{EndpointId, id_key}
use realm.Lifecycle.Manager.Status
use realm.Lifecycle.Manager.Status.{EndpointStatus}
use realm.Lifecycle.Manager.{System, Manager, EndpointSpec, Generation, SlotOutcome, is_failed}
use realm.Lifecycle.Manager.Table.{ids}
use realm.Lifecycle.Manager.Apply
use realm.Lifecycle.Reconcile.{Source, Reconciler, Snapshot}

module _ {S : Type 0} (src : Source S) (sys : System) where
  -- What happened to one endpoint of a snapshot.
  pub record Restored : Type 0 where
    pub reconciler : Reconciler S
    pub restored : ℕ
    pub failed : List (EndpointId × String)

  abbrev pub failure : EndpointId → String → Restored → Restored
  failure id e a = record a { failed = a.failed ++ (id, e) ∷ [] }

  abbrev pub failure_text : Option SlotOutcome → Option String
  failure_text none = none
  failure_text (some o) = some (unwrap_or o.error "failed to start")

  abbrev pub restore_applied : EndpointId → S → Restored → Manager × List SlotOutcome → Restored
  restore_applied id spec a (m, os) =
      let r : Reconciler S = record (a.reconciler) { manager = m } in
      elim (failure_text (find (λ o. is_failed o.action) os)) [
        | some e ↦ failure id e (record a { reconciler = r })
        | none ↦ record a {
          reconciler = record r { applied = Map.insert id spec r.applied };
          restored = a.restored + 1;
        }
      ]

  abbrev pub counted : Restored → Restored
  counted a = let r = a.reconciler in record a { reconciler = record r { calls = r.calls + 1 } }

  abbrev pub restore_built :
      Generation → EndpointId → S → Restored → Result EndpointSpec String → Restored
  restore_built g id spec a (err e) = failure id e a
  restore_built g id spec a (ok built) =
      restore_applied id spec a (Apply.apply sys id g built (a.reconciler).manager)

  abbrev pub restore_refreshed : Generation → EndpointId → Restored → Result S String → Restored
  restore_refreshed g id a (err e) = failure id e a
  restore_refreshed g id a (ok spec) =
      restore_built g id spec (counted a) (src.build (a.reconciler).calls spec)

  unfoldable pub restore_each : Generation → Map EndpointId S → Restored → Restored
  restore_each g [] a = a
  restore_each g ((id, spec) ∷ es) a =
      restore_each g es (restore_refreshed g id (counted a) (src.refresh (a.reconciler).calls spec))

  pub record RestoreOutcome : Type 0 where
    pub generation : Option Generation
    pub restored : ℕ
    pub failed : List (EndpointId × String)
    pub partial : Bool

  abbrev pub nothing_restored : RestoreOutcome
  nothing_restored = record { generation = none; restored = 0; failed = []; partial = false }

  abbrev is_nonempty : List (EndpointId × String) → Bool
  is_nonempty [] = false
  is_nonempty (e ∷ es) = true

  abbrev pub restore_loaded : Reconciler S → Option (Snapshot S) → Reconciler S × RestoreOutcome
  restore_loaded r none = (record r { ready = true }, nothing_restored)
  restore_loaded r (some snap) =
      let a =
        restore_each snap.generation snap.endpoints
          (record { reconciler = r; restored = 0; failed = [] }) in
      let partial = snap.partial || is_nonempty a.failed in
      (
        record (a.reconciler) { active = some snap.generation; partial = partial; ready = true },
        record {
          generation = some snap.generation;
          restored = a.restored;
          failed = a.failed;
          partial = partial;
        },
      )

  -- `restore`, on what the store answers to a load.
  unfoldable pub restore :
      Result (Option (Snapshot S)) String
      → Reconciler S
      → Reconciler S × Result RestoreOutcome String
  unfolding restore_each
  restore loaded r =
      if not r.snapshot then (record r { ready = true }, ok nothing_restored) else elim loaded [
        | err e ↦ (r, err e)
        | ok s ↦ let (r', outcome) = restore_loaded r s in (r', ok outcome)
      ]

abbrev pub remove_each : List EndpointId → Manager → Manager
remove_each [] m = m
remove_each (id ∷ ids) m = remove_each ids (Apply.remove id m).0

unfoldable pub shutdown : {S : Type 0} → Reconciler S → Reconciler S
shutdown r = record r { manager = remove_each (ids r.manager) r.manager }

-- `Reconciler::status`.
unfoldable pub status : {S : Type 0} → Reconciler S → Reconciler S × List EndpointStatus
unfolding Status.status
status r = let (m, es) = Status.status r.manager in (record r { manager = m }, es)
