-- ===== src/Lifecycle/Manager/Apply.antt =====
-- The public operations of `EndpointManager`.
pub mod Account
pub mod Everywhere
pub mod Runs
pub mod Serves
pub mod Same
pub mod Ledger
pub mod Invariant
pub mod Frame
use realm.Base.{
  Result, String, ℕ, List, [], ◌∷◌, ◌++◌, Option, none, some, is_some, unwrap_or, if◌then◌else◌, ok,
  err, map, any, is_some,
}
use realm.Base.Map
use realm.Endpoint.{Proto, tcp, udp, EndpointId, proto_eq, id_key}
use realm.Lifecycle.Manager.{
  System, Os, Slot, Slots, Entry, Manager, SlotState, SlotAction, SlotOutcome, outcome_ok,
  outcome_rejected, DrainPolicy, EndpointSpec, Active, Draining, Generation, protos,
}
use realm.Lifecycle.Manager.Table.{
  entry, slot, put_slot, no_slots, update_slots, spawn_drain, validate, refresh, prune,
}
use realm.Lifecycle.Manager.Start.{stop_active}
use realm.Lifecycle.Manager.Replace.{apply_slot}

-- `if let Some(active) = slot.active.take()` of `stop_slot`: the drains that the slot holds then.
abbrev stopped_drains : Option ℕ → Slot → Option Active → List Draining
stopped_drains d s none = s.draining
stopped_drains d s (some a) = s.draining ++ spawn_drain a.cohort a.generation d ∷ []

abbrev stopped_os : Proto → Option Active → Os → Os
stopped_os p none os = os
stopped_os p (some a) os = stop_active p a os

-- The slot is gone: its listener is stopped, and the tasks of its cohorts go on by themselves.
unfoldable pub detach_slot : Proto → Option ℕ → Slot → Os → Os
detach_slot p d s os =
    let os' = stopped_os p s.active os in
    record os' { detached = os'.detached ++ stopped_drains d s s.active }

abbrev pub stop_found :
    EndpointId → Proto → Option ℕ → Manager → Option Slot → Manager × SlotOutcome
stop_found id p d m none = (m, outcome_ok p SlotAction.unchanged)
stop_found id p d m (some s) =
    let m' : Manager = record m { os = detach_slot p d s m.os } in
    (update_slots id (put_slot p none) m', outcome_ok p SlotAction.deleted)

unfoldable pub stop_slot : EndpointId → Proto → Option ℕ → Manager → Manager × SlotOutcome
stop_slot id p d m = stop_found id p d m (slot m id p)

abbrev pub push_outcome : List SlotOutcome → Manager × SlotOutcome → Manager × List SlotOutcome
push_outcome os (m, o) = (m, os ++ o ∷ [])

-- The description is recorded under the id: the entry is made where there is none.
abbrev pub admitted : DrainPolicy → Option Entry → Entry
admitted d none = record { slots = no_slots; drain = d }
admitted d (some e) = record e { drain = d }

unfoldable pub admit : EndpointId → DrainPolicy → Manager → Manager
admit id d m = record m { entries = Map.insert id (admitted d (entry m id)) m.entries }

module _ (sys : System) where
  -- The body of the loop of `apply` over the protocols.
  unfoldable pub apply_proto :
      EndpointId
      → Generation
      → EndpointSpec
      → DrainPolicy
      → Proto
      → Manager × List SlotOutcome
      → Manager × List SlotOutcome
  apply_proto id g spec d p (m, os) =
      if any (proto_eq p) (protos spec)
      then push_outcome os (apply_slot sys g spec p d id m)
      else if is_some (slot m id p)
      then push_outcome os (stop_slot id p d.on_delete m)
      else (m, os)

  unfoldable pub apply_valid :
      EndpointId → Generation → EndpointSpec → Manager → Manager × List SlotOutcome
  apply_valid id g spec m =
      let d = unwrap_or spec.drain m.policy in
      let r = apply_proto id g spec d udp (apply_proto id g spec d tcp (admit id d m, [])) in
      (prune id r.0, r.1)

  abbrev pub reported_protos : List Proto → List Proto
  reported_protos [] = tcp ∷ []
  reported_protos (p ∷ ps) = p ∷ ps

  abbrev pub apply_checked :
      EndpointId
      → Generation
      → EndpointSpec
      → Manager
      → Result (Unit {0}) String
      → Manager × List SlotOutcome
  apply_checked id g spec m (err e) =
      (m, map (λ p. outcome_rejected p e) (reported_protos (protos spec)))
  apply_checked id g spec m (ok _) = apply_valid id g spec m

  unfoldable pub apply :
      EndpointId → Generation → EndpointSpec → Manager → Manager × List SlotOutcome
  apply id g spec m = apply_checked id g spec (refresh m) (validate spec)

abbrev pub stop_each : EndpointId → Option ℕ → List Proto → Manager → Manager × List SlotOutcome
stop_each id d [] m = (m, [])
stop_each id d (p ∷ ps) m =
    let (m', o) = stop_slot id p d m in let (m'', os) = stop_each id d ps m' in (m'', o ∷ os)

-- The keys of the slots.
abbrev pub slot_protos : Slots → List Proto
slot_protos s = (if is_some s.tcp then tcp ∷ [] else []) ++ (if is_some s.udp then udp ∷ [] else [])

abbrev pub remove_found : EndpointId → Manager → Option Entry → Manager × List SlotOutcome
remove_found id m none = (m, [])
remove_found id m (some e) =
    let (m', os) = stop_each id e.drain.on_delete (slot_protos e.slots) m in
    (record m' { entries = Map.remove id m'.entries }, os)

unfoldable pub remove : EndpointId → Manager → Manager × List SlotOutcome
remove id m = let m' = refresh m in remove_found id m' (entry m' id)

-- `stop_accept` on a slot that serves.
abbrev pub stop_serving :
    EndpointId → Proto → Option ℕ → Manager → Slot → Option Active → Manager × Option SlotOutcome
stop_serving id p d m s none = (m, none)
stop_serving id p d m s (some a) =
    let s' : Slot = record s {
      state = SlotState.draining;
      active = none;
      draining = s.draining ++ spawn_drain a.cohort a.generation d ∷ [];
    } in
    let m' : Manager = record m { os = stop_active p a m.os } in
    (update_slots id (put_slot p (some s')) m', some (outcome_ok p SlotAction.draining))

abbrev pub stop_accept_found :
    EndpointId → Proto → Option ℕ → Manager → Option Slot → Manager × Option SlotOutcome
stop_accept_found id p d m none = (m, none)
stop_accept_found id p d m (some s) = stop_serving id p d m s s.active

unfoldable pub stop_accept : EndpointId → Proto → Option ℕ → Manager → Manager × Option SlotOutcome
stop_accept id p d m = stop_accept_found id p d m (slot m id p)
