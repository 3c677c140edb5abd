-- ===== src/Lifecycle/Manager/Replace.antt =====
-- `apply_slot` of realm_core/src/lifecycle/manager.rs: one slot is brought to a description.
pub mod Coherence
pub mod Account
pub mod Again
pub mod Printed
pub mod Reverted
use realm.Base.{
  String, [], ◌∷◌, ◌++◌, Option, none, some, Bool, ◌&&◌, if◌then◌else◌, Result, ok, err,
}
use realm.Endpoint.{Proto, EndpointId, addr_eq}
use realm.Lifecycle.Cohort.{Cohort}
use realm.Lifecycle.Manager.{
  System, Os, Slot, Manager, SlotState, SlotAction, SlotOutcome, outcome_ok, outcome_failed,
  DrainPolicy, EndpointSpec, Active, Generation,
}
use realm.Lifecycle.Manager.Table.{put_slot, slot, update_slots, spawn_drain}
use realm.Lifecycle.Manager.Start.{
  start_endpoint, endpoint_unchanged, stop_active, material_eq, vacate,
}

-- A slot after an operation, what it did to the system, and the outcome.
pub record Step : Type 0 where
  pub slot : Slot
  pub os : Os
  pub outcome : SlotOutcome

-- The slot that `insert_slot` leaves: the new values, and the cohorts that drained before.
abbrev pub merge_slot : Option Slot → Slot → Slot
merge_slot none s = s
merge_slot (some old) s = record s { draining = old.draining ++ s.draining }

abbrev pub ok_of : Result Active String → Option Active
ok_of (ok a) = some a
ok_of (err e) = none

module _ (sys : System) (g : Generation) (spec : EndpointSpec) (p : Proto)
    (drain : DrainPolicy) where
  abbrev fresh_slot : SlotState → Option Active → Slot
  fresh_slot st a = record {
    state = st;
    generation = g;
    endpoint = spec.endpoint;
    material = spec.material;
    active = a;
    draining = [];
  }

  -- Nothing is serving: a plain start, or a slot that records the failure.
  abbrev pub fresh : Option Slot → Result Active String × Os → Step
  fresh old (ok a, os) = record {
    slot = merge_slot old (fresh_slot SlotState.running (some a));
    os = os;
    outcome = outcome_ok p SlotAction.created;
  }
  fresh old (err e, os) = record {
    slot = merge_slot old (fresh_slot (SlotState.failed e) none);
    os = os;
    outcome = outcome_failed p e;
  }

  -- The new plane serves, and the old cohort drains under the update policy.
  abbrev pub superseded : Slot → Active → Cohort → Active → Slot
  superseded s old cohort new = record {
    state = SlotState.running;
    generation = g;
    endpoint = spec.endpoint;
    material = spec.material;
    active = some new;
    draining = s.draining ++ spawn_drain cohort old.generation drain.on_update ∷ [];
  }

  -- At the same address: after the attempt, with the old plane stopped already.
  unfoldable pub rebound : Slot → Active → Cohort → Result Active String × Os → Step
  rebound s old cohort (ok a, os) = record {
    slot = superseded s old cohort a;
    os = os;
    outcome = outcome_ok p SlotAction.updated;
  }
  rebound s old cohort (err e, os) =
      let (again, os') = start_endpoint sys s.endpoint p old.generation os in
      record {
        slot = record s {
          state = SlotState.failed e;
          active = ok_of again;
          draining = s.draining ++ spawn_drain cohort old.generation drain.on_update ∷ [];
        };
        os = os';
        outcome = outcome_failed p e;
      }

  unfoldable pub replace_same : Slot → Active → Os → Step
  unfolding stop_active
  replace_same s old os =
      let (cohort, os') = vacate p old (stop_active p old os) in
      rebound s old cohort (start_endpoint sys spec.endpoint p g os')

  -- At another address: after the attempt, with the old plane still serving.
  unfoldable pub moved : Slot → Active → Result Active String × Os → Step
  unfolding stop_active
  moved s old (ok a, os) = record {
    slot = superseded s old old.cohort a;
    os = stop_active p old os;
    outcome = outcome_ok p SlotAction.updated;
  }
  moved s old (err e, os) = record {
    slot = record s { active = some old; state = SlotState.failed e };
    os = os;
    outcome = outcome_failed p e;
  }

  unfoldable pub replace_moved : Slot → Active → Os → Step
  replace_moved s old os = moved s old (start_endpoint sys spec.endpoint p g os)

  unfoldable pub is_same : Slot → Bool
  is_same s =
      material_eq s.material spec.material && endpoint_unchanged sys s.endpoint spec.endpoint

  -- A slot that serves.
  unfoldable pub apply_active : Slot → Active → Os → Step
  apply_active s a os =
      if is_same s
      then record { slot = s; os = os; outcome = outcome_ok p SlotAction.unchanged }
      else if addr_eq a.laddr spec.endpoint.laddr
      then replace_same s a os
      else replace_moved s a os

  abbrev pub dispatch : Slot → Option Active → Os → Step
  dispatch s none os = fresh (some s) (start_endpoint sys spec.endpoint p g os)
  dispatch s (some a) os = apply_active s a os

  abbrev pub slot_step : Option Slot → Os → Step
  slot_step none os = fresh none (start_endpoint sys spec.endpoint p g os)
  slot_step (some s) os = dispatch s s.active os

  unfoldable pub apply_slot : EndpointId → Manager → Manager × SlotOutcome
  apply_slot id m =
      let r = slot_step (slot m id p) m.os in
      let m' : Manager = record m { os = r.os } in
      (update_slots id (put_slot p (some r.slot)) m', r.outcome)
