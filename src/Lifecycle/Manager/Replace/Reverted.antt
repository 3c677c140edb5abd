-- ===== src/Lifecycle/Manager/Replace/Reverted.antt =====
-- An update that failed, and the return to the description that still serves.
use realm.Base.{◌≡◌, refl, Option, none, some, true, false, arith, is_some}
use realm.Endpoint.{Proto, addr_eq}
use realm.Lifecycle.Manager.{
  System, Os, Slot, SlotAction, outcome_ok, is_failed, DrainPolicy, EndpointSpec, Active,
  Generation,
}
use realm.Lifecycle.Manager.Table.{is_failed_state}
use realm.Lifecycle.Manager.Start.{start_endpoint}
use realm.Lifecycle.Manager.Replace.{
  Step, moved, replace_moved, is_same, apply_active, dispatch, slot_step,
}
use realm.Lifecycle.Manager.Replace.Again.{Keeps, slot_step-Keeps, dispatch_serving}

module _ (sys : System) (good bad : EndpointSpec) (p : Proto) (drain : DrainPolicy) where
  moved-failed :
      (g : Generation) (s : Slot) (a : Active) (os : Os)
      → is_failed
          (moved sys g bad p drain s a (start_endpoint sys bad.endpoint p g os)).outcome.action
        ≡ true
      → is_failed_state
          (moved sys g bad p drain s a (start_endpoint sys bad.endpoint p g os)).slot.state
        ≡ true
  unfolding moved start_endpoint
  moved-failed g s a os h = ground arith

  dispatch-failed :
      (g : Generation) (s : Slot) (a b : Option Active) (os : Os) (x : Active)
      → b ≡ some x
      → addr_eq x.laddr bad.endpoint.laddr ≡ false
      → is_failed (dispatch sys g bad p drain s b os).outcome.action ≡ true
      → is_failed_state (dispatch sys g bad p drain s b os).slot.state ≡ true
  unfolding apply_active replace_moved
  dispatch-failed g s a none os x e away h = cc
  dispatch-failed g s a (some y) os x e away h = ground (arith, moved-failed g s y os)

  same_endpoint :
      (g g' : Generation) (s : Slot) (os : Os) (q : Step)
      → Keeps sys bad p drain s os q
      → is_same sys g good p drain s ≡ true
      → is_same sys g' good p drain q.slot ≡ true
  unfolding is_same
  same_endpoint g g' s os q k h = rw (k.material, k.endpoint) h

  serves : (x : Option Active) (a : Active) → x ≡ some a → is_some x ≡ true
  serves none a h = cc
  serves (some b) a h = refl

  -- A slot serves what the good description says, and bringing it to a bad one, at another
  -- address, fails. When the good one is submitted next, the outcome is `unchanged` and the
  -- listener still serves, but the state of the slot is still that it failed.
  pub slot_step_reverted :
      (g g' : Generation) (s : Slot) (a : Active) (os os' : Os)
      → s.active ≡ some a
      → is_same sys g' good p drain s ≡ true
      → addr_eq a.laddr bad.endpoint.laddr ≡ false
      → is_failed (slot_step sys g bad p drain (some s) os).outcome.action ≡ true
      → let q =
          slot_step sys g' good p drain (some (slot_step sys g bad p drain (some s) os).slot) os' in
        (q.outcome ≡ outcome_ok p SlotAction.unchanged)
        × (q.slot.active ≡ some a)
        × (is_failed_state q.slot.state ≡ true)
  slot_step_reverted g g' s a os os' h same away fails =
      let k = slot_step-Keeps sys bad p drain g s a os h away fails in
      let r = slot_step sys g bad p drain (some s) os in
      let held : r.slot.active ≡ some a = cc (k.active, h) in
      let again =
        dispatch_serving sys good p drain g' r.slot r.slot.active os' (serves r.slot.active a held)
          (same_endpoint g' g' s os r k same) in
      rw again (refl, held, dispatch-failed g s s.active s.active os a h away fails)
