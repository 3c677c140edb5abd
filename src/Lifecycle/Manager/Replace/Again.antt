-- ===== src/Lifecycle/Manager/Replace/Again.antt =====
-- `apply_slot`: a description that comes again, and one that fails.
use realm.Base.{
  ℕ, String, ◌∷◌, ◌≡◌, refl, Option, none, some, Result, ok, err, arith, true, false, is_some,
}
use realm.Endpoint.{Proto, Endpoint, addr_eq}
use realm.Endpoint.Display.{show_endpoint}
use realm.Lifecycle.Cohort.{Cohort}
use realm.Lifecycle.Manager.{
  System, Os, Slot, SlotAction, outcome_ok, is_failed, DrainPolicy, EndpointSpec, Active,
  Generation, refused,
}
use realm.Lifecycle.Manager.Start.{
  start_endpoint, endpoint_unchanged, material_eq, vacate, stop_active,
}
use realm.Lifecycle.Manager.Replace.{
  Step, fresh, rebound, replace_same, moved, replace_moved, is_same, apply_active, dispatch,
  slot_step,
}
use text.Mathlib.TextPositions.{eq_refl}

pub material_eq_refl : (m : Option ℕ) → material_eq m m ≡ true
material_eq_refl none = refl
material_eq_refl (some a) = ground arith

pub endpoint_unchanged_refl : (sys : System) (e : Endpoint) → endpoint_unchanged sys e e ≡ true
unfolding endpoint_unchanged
endpoint_unchanged_refl sys e = eq_refl (show_endpoint sys.printer e)

module _ (sys : System) (spec : EndpointSpec) (p : Proto) (drain : DrainPolicy) where
  module _ (g : Generation) where
    -- The slot serves what is described.
    abbrev pub Serves : Slot → Type 0
    Serves s = (is_some s.active ≡ true) × (is_same sys g spec p drain s ≡ true)

    -- Unless the step failed, its slot serves what is described.
    abbrev pub Succeeds : Step → Type 0
    Succeeds q = is_failed q.outcome.action ≡ false → Serves q.slot

    described :
        (s : Slot)
        → s.endpoint ≡ spec.endpoint
        → s.material ≡ spec.material
        → is_same sys g spec p drain s ≡ true
    unfolding is_same
    described s e m =
        rw (e, m, material_eq_refl spec.material, endpoint_unchanged_refl sys spec.endpoint)

    fresh-Succeeds :
        (old : Option Slot) (r : Result Active String × Os)
        → Succeeds (fresh sys g spec p drain old r)
    fresh-Succeeds none (ok a, os) h = (refl, described _ refl refl)
    fresh-Succeeds none (err e, os) h = cc
    fresh-Succeeds (some s) (ok a, os) h = (refl, described _ refl refl)
    fresh-Succeeds (some s) (err e, os) h = cc

    rebound-Succeeds :
        (s : Slot) (a : Active) (c : Cohort) (r : Result Active String × Os)
        → Succeeds (rebound sys g spec p drain s a c r)
    unfolding rebound
    rebound-Succeeds s a c (ok b, os) h = (refl, described _ refl refl)
    rebound-Succeeds s a c (err e, os) h = cc

    moved-Succeeds :
        (s : Slot) (a : Active) (r : Result Active String × Os)
        → Succeeds (moved sys g spec p drain s a r)
    unfolding moved
    moved-Succeeds s a (ok b, os) h = (refl, described _ refl refl)
    moved-Succeeds s a (err e, os) h = cc

    apply_active-Succeeds :
        (s : Slot) (a : Active) (os : Os)
        → s.active ≡ some a
        → Succeeds (apply_active sys g spec p drain s a os)
    unfolding apply_active replace_same replace_moved
    apply_active-Succeeds s a os e =
        let v = vacate p a (stop_active p a os) in
        ground (
          arith,
          rebound-Succeeds s a v.0 (start_endpoint sys spec.endpoint p g v.1),
          moved-Succeeds s a (start_endpoint sys spec.endpoint p g os),
        )

    dispatch-Succeeds :
        (s : Slot) (a : Option Active) (os : Os)
        → s.active ≡ a
        → Succeeds (dispatch sys g spec p drain s a os)
    dispatch-Succeeds s none os e = fresh-Succeeds (some s) _
    dispatch-Succeeds s (some a) os e = apply_active-Succeeds s a os e

    -- If the outcome of bringing a slot to a description is not a failure, the slot serves,
    -- with the material of the description and with an endpoint that prints as the one
    -- described.
    pub slot_step-Serves :
        (old : Option Slot) (os : Os)
        → is_failed (slot_step sys g spec p drain old os).outcome.action ≡ false
        → Serves (slot_step sys g spec p drain old os).slot
    slot_step-Serves none os h = fresh-Succeeds none _ h
    slot_step-Serves (some s) os h = dispatch-Succeeds s s.active os refl h

  pub dispatch_serving :
      (g : Generation) (s : Slot) (a : Option Active) (os : Os)
      → is_some a ≡ true
      → is_same sys g spec p drain s ≡ true
      → dispatch sys g spec p drain s a os
        ≡ record { slot = s; os = os; outcome = outcome_ok p SlotAction.unchanged }
  unfolding apply_active
  dispatch_serving g s none os h k = cc
  dispatch_serving g s (some a) os h k = rw k

  -- A description that was applied to a slot without a failure is not applied to it again:
  -- at any later generation, and whatever the system did meanwhile, the slot and the system
  -- stay as they are, and the outcome is `unchanged`.
  pub slot_step_again :
      (g g' : Generation) (old : Option Slot) (os os' : Os)
      → is_failed (slot_step sys g spec p drain old os).outcome.action ≡ false
      → let s = (slot_step sys g spec p drain old os).slot in
        slot_step sys g' spec p drain (some s) os'
        ≡ record { slot = s; os = os'; outcome = outcome_ok p SlotAction.unchanged }
  unfolding is_same
  slot_step_again g g' old os os' h =
      let v = slot_step-Serves g old os h in dispatch_serving g' _ _ os' v.0 v.1

  -- What a step that failed leaves of a slot: its listener, its endpoint, its generation, its
  -- material and its drains; the system has seen one refused attempt and no release.
  pub record Keeps (s : Slot) (os : Os) (q : Step) : Type 0 where
    pub active : q.slot.active ≡ s.active
    pub generation : q.slot.generation ≡ s.generation
    pub endpoint : q.slot.endpoint ≡ s.endpoint
    pub material : q.slot.material ≡ s.material
    pub draining : q.slot.draining ≡ s.draining
    pub log : q.os.log ≡ refused (spec.endpoint.laddr, p) ∷ os.log

  moved-Keeps :
      (g : Generation) (s : Slot) (a : Active) (os : Os)
      → s.active ≡ some a
      → is_failed
          (moved sys g spec p drain s a (start_endpoint sys spec.endpoint p g os)).outcome.action
        ≡ true
      → Keeps s os (moved sys g spec p drain s a (start_endpoint sys spec.endpoint p g os))
  unfolding moved start_endpoint
  moved-Keeps g s a os e h = ground arith

  apply_active-Keeps :
      (g : Generation) (s : Slot) (a : Active) (os : Os)
      → s.active ≡ some a
      → addr_eq a.laddr spec.endpoint.laddr ≡ false
      → is_failed (apply_active sys g spec p drain s a os).outcome.action ≡ true
      → Keeps s os (apply_active sys g spec p drain s a os)
  unfolding apply_active replace_moved
  apply_active-Keeps g s a os e away h = ground (arith, moved-Keeps g s a os e)

  -- A slot serves at another address than the one described, and bringing it to the
  -- description fails: it keeps its listener, endpoint, generation, material and drains, and
  -- all that the system saw is one refused attempt to bind, so the listener was never
  -- stopped.
  pub slot_step-Keeps :
      (g : Generation) (s : Slot) (a : Active) (os : Os)
      → s.active ≡ some a
      → addr_eq a.laddr spec.endpoint.laddr ≡ false
      → is_failed (slot_step sys g spec p drain (some s) os).outcome.action ≡ true
      → Keeps s os (slot_step sys g spec p drain (some s) os)
  slot_step-Keeps g s a os e away h = go s.active e h
    where
      go :
          (b : Option Active)
          → b ≡ some a
          → is_failed (dispatch sys g spec p drain s b os).outcome.action ≡ true
          → Keeps s os (dispatch sys g spec p drain s b os)
      go none e' h' = cc
      go (some b) e' h' =
          let e'' : b ≡ a = cc in rw e'' (apply_active-Keeps g s a os e away (rw e'' at h'))
