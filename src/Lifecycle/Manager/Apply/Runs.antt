-- ===== src/Lifecycle/Manager/Apply/Runs.antt =====
-- Which planes serve after the public operations of `EndpointManager`, where no task has ended.
use realm.Base.{
  ℕ, String, Option, none, some, Result, ok, err, arith, Bool, true, false, Bool-cases, inl, inr,
  is_some, ◌≡◌, refl, ap, ◌∙◌,
}
use realm.Base.Map
use realm.Endpoint.{Proto, tcp, udp, EndpointId, id_key}
use realm.Lifecycle.Cohort.{Cohort}
use realm.Lifecycle.Manager.{
  System, Os, Slot, Entry, Manager, DrainPolicy, EndpointSpec, Active, Generation,
}
use realm.Lifecycle.Manager.Table.{
  On, slot_active, entry, entry_slot, refresh, refresh_slot, refresh_entry, get-refresh, on_slot,
  prune, prune_found, kept_slots, is_vacant,
}
use realm.Lifecycle.Manager.Start.{start_endpoint, vacate, stop_active}
use realm.Lifecycle.Manager.Replace.{
  ok_of, fresh, rebound, replace_same, moved, replace_moved, apply_active, dispatch, slot_step,
}
use realm.Lifecycle.Manager.Apply.Everywhere.{Local, Everywhere, OnEntry}

-- The serving task of the plane runs.
abbrev pub PlaneLives : Option Active → Type 0
PlaneLives none = Unit {0}
PlaneLives (some a) = a.exited ≡ false

abbrev pub IsLive : Slot → Type 0
IsLive s = PlaneLives s.active

-- Whether a plane serves the protocol under the id.
abbrev pub runs_in : Option Entry → Proto → Bool
runs_in e p = is_some (slot_active (entry_slot e p))

abbrev pub runs : Manager → EndpointId → Proto → Bool
runs m id p = runs_in (entry m id) p

module _ (sys : System) (g : Generation) (spec : EndpointSpec) (p : Proto)
    (drain : DrainPolicy) where
  start-lives : (os : Os) → PlaneLives (ok_of (start_endpoint sys spec.endpoint p g os).0)
  unfolding start_endpoint
  start-lives os = ground arith

  fresh-IsLive :
      (old : Option Slot) (r : Result Active String × Os)
      → PlaneLives (ok_of r.0)
      → IsLive (fresh sys g spec p drain old r).slot
  fresh-IsLive none (ok a, os) h = h
  fresh-IsLive none (err e, os) h = tt
  fresh-IsLive (some s) (ok a, os) h = h
  fresh-IsLive (some s) (err e, os) h = tt

  rebound-IsLive :
      (s : Slot) (a : Active) (c : Cohort) (r : Result Active String × Os)
      → PlaneLives (ok_of r.0)
      → IsLive (rebound sys g spec p drain s a c r).slot
  unfolding rebound start_endpoint
  rebound-IsLive s a c (ok b, os) h = h
  rebound-IsLive s a c (err e, os) h = ground arith

  moved-IsLive :
      (s : Slot) (a : Active) (r : Result Active String × Os)
      → a.exited ≡ false
      → PlaneLives (ok_of r.0)
      → IsLive (moved sys g spec p drain s a r).slot
  unfolding moved
  moved-IsLive s a (ok b, os) k h = h
  moved-IsLive s a (err e, os) k h = k

  apply_active-IsLive :
      (s : Slot) (a : Active) (os : Os)
      → s.active ≡ some a
      → IsLive s
      → IsLive (apply_active sys g spec p drain s a os).slot
  unfolding apply_active replace_same replace_moved
  apply_active-IsLive s a os e h =
      let v = vacate p a (stop_active p a os) in
      let lives : a.exited ≡ false = rw e at h in
      ground (
        arith,
        rebound-IsLive s a v.0 (start_endpoint sys spec.endpoint p g v.1) (start-lives v.1),
        moved-IsLive s a (start_endpoint sys spec.endpoint p g os) lives (start-lives os),
      )

  dispatch-IsLive :
      (s : Slot) (a : Option Active) (os : Os)
      → s.active ≡ a
      → IsLive s
      → IsLive (dispatch sys g spec p drain s a os).slot
  dispatch-IsLive s none os e h = fresh-IsLive (some s) _ (start-lives os)
  dispatch-IsLive s (some a) os e h = apply_active-IsLive s a os e h

  slot_step-IsLive :
      (old : Option Slot) (os : Os)
      → On IsLive old
      → IsLive (slot_step sys g spec p drain old os).slot
  slot_step-IsLive none os h = fresh-IsLive none _ (start-lives os)
  slot_step-IsLive (some s) os h = dispatch-IsLive s s.active os refl h

refresh_slot-active : (d : Option ℕ) (s : Slot) → IsLive s → (refresh_slot d s).active ≡ s.active
unfolding refresh_slot
refresh_slot-active d s h = ground arith

refresh_slot-IsLive : (d : Option ℕ) (s : Slot) → IsLive s → IsLive (refresh_slot d s)
unfolding refresh_slot
refresh_slot-IsLive d s h = ground arith

pub IsLive-Local : Local IsLive
IsLive-Local = record {
  steps = slot_step-IsLive;
  refreshes = refresh_slot-IsLive;
  stops = λ s ds h. tt;
}

-- A check of the tasks finds every plane running.
on_slot-active :
    (d : Option ℕ) (s : Option Slot)
    → On IsLive s
    → slot_active (on_slot (refresh_slot d) s) ≡ slot_active s
on_slot-active d none h = refl
on_slot-active d (some s) h = refresh_slot-active d s h

pub refresh-runs :
    (m : Manager)
    → Everywhere IsLive m
    → (id : EndpointId) (p : Proto) → runs (refresh m) id p ≡ runs m id p
unfolding refresh
refresh-runs m h id p = ap (λ e. runs_in e p) (get-refresh m.entries id) ∙ go (entry m id) (h id) p
  where
    go :
        (x : Option Entry)
        → OnEntry IsLive x
        → (p : Proto)
        → runs_in (elim x [ none ↦ none | some e ↦ some (refresh_entry e) ]) p ≡ runs_in x p
    go none c p = refl
    go (some e) c tcp =
        unfold refresh_entry in ap is_some (on_slot-active e.drain.on_delete e.slots.tcp c.0)
    go (some e) c udp =
        unfold refresh_entry in ap is_some (on_slot-active e.drain.on_delete e.slots.udp c.1)

pub prune-runs : (id : EndpointId) (m : Manager) (p : Proto) → runs (prune id m) id p ≡ runs m id p
unfolding prune
prune-runs id m p = go (entry m id) refl
  where
    kept :
        (e : Entry)
        → runs_in (some (record e { slots = kept_slots e.slots })) p ≡ runs_in (some e) p
    kept e = ground arith

    vacant : (e : Entry) → is_vacant (kept_slots e.slots) ≡ true → false ≡ runs_in (some e) p
    vacant e v = ground arith

    go :
        (x : Option Entry)
        → entry m id ≡ x
        → runs (prune_found id m x) id p ≡ runs_in (entry m id) p
    go none e = refl
    go (some x) e = elim (Bool-cases (is_vacant (kept_slots x.slots))) [
      | inl v ↦ rw (v, Map.get-remove id id m.entries, Map.keq_refl id, e) (vacant x v)
      | inr v ↦
          rw
            (
              v,
              Map.get-insert id id (record x { slots = kept_slots x.slots }) m.entries,
              Map.keq_refl id,
              e,
            )
            (kept x)
    ]
