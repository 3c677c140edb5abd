-- ===== src/Lifecycle/Manager/Replace/Account.antt =====
-- `apply_slot`: what a slot does to the sockets, counted.
use realm.Base.{
  ℕ, ◌+◌, String, List, [], ◌∷◌, ◌≡◌, refl, Option, none, some, Result, ok, err, arith,
  if◌then◌else◌,
}
use realm.Endpoint.{Proto, Socket, socket_eq, Endpoint}
use realm.Lifecycle.Cohort.{Cohort}
use realm.Lifecycle.Manager.{
  System, Os, Event, bound, refused, joined, lost, associations_closed, Slot, DrainPolicy,
  EndpointSpec, Active, Generation,
}
use realm.Lifecycle.Manager.Table.{slot_active}
use realm.Lifecycle.Manager.Start.{start_endpoint, vacate, stop_active}
use realm.Lifecycle.Manager.Replace.{
  fresh, rebound, replace_same, moved, replace_moved, apply_active, dispatch, slot_step, ok_of,
}

pub hit : Socket → Socket → ℕ
hit t s = if socket_eq t s then 1 else 0

-- How often a listener was bound at the socket, and how often the serving task of one was joined
-- or found ended.
unfoldable pub opened : Socket → List Event → ℕ
opened t [] = 0
opened t (bound s l ∷ es) = hit t (l, s.1) + opened t es
opened t (refused s ∷ es) = opened t es
opened t (joined s ∷ es) = opened t es
opened t (lost s ∷ es) = opened t es
opened t (associations_closed s ∷ es) = opened t es

unfoldable pub closed : Socket → List Event → ℕ
closed t [] = 0
closed t (bound s l ∷ es) = closed t es
closed t (refused s ∷ es) = closed t es
closed t (joined s ∷ es) = hit t s + closed t es
closed t (lost s ∷ es) = hit t s + closed t es
closed t (associations_closed s ∷ es) = closed t es

abbrev pub plane : Socket → Proto → Option Active → ℕ
plane t p none = 0
plane t p (some a) = hit t (a.laddr, p)

-- The planes before and the binds in between are the planes after and the ends in between.
abbrev pub Accounts : Socket → Proto → Option Active → Os → Option Active → Os → Type 0
Accounts t p a os b os' =
    plane t p a + opened t os'.log + closed t os.log
    ≡ plane t p b + closed t os'.log + opened t os.log

module _ (t : Socket) (sys : System) (p : Proto) where
  start-Accounts :
      (e : Endpoint) (g : Generation) (os : Os)
      → let r = start_endpoint sys e p g os in Accounts t p none os (ok_of r.0) r.1
  unfolding start_endpoint opened closed
  start-Accounts e g os = ground arith

  vacate-Accounts :
      (a : Active) (os : Os) → Accounts t p (some a) os none (vacate p a (stop_active p a os)).1
  unfolding stop_active vacate opened closed
  vacate-Accounts a os = ground arith

  module _ (g : Generation) (spec : EndpointSpec) (drain : DrainPolicy) where
    fresh-Accounts :
        (old : Option Slot) (os : Os) (r : Result Active String × Os)
        → Accounts t p none os (ok_of r.0) r.1
        → let s = fresh sys g spec p drain old r in Accounts t p none os s.slot.active s.os
    fresh-Accounts none os (ok a, os') h = h
    fresh-Accounts none os (err e, os') h = h
    fresh-Accounts (some s) os (ok a, os') h = h
    fresh-Accounts (some s) os (err e, os') h = h

    rebound-Accounts :
        (s : Slot) (a : Active) (c : Cohort) (os : Os) (r : Result Active String × Os)
        → Accounts t p none os (ok_of r.0) r.1
        → let q = rebound sys g spec p drain s a c r in Accounts t p none os q.slot.active q.os
    unfolding rebound
    rebound-Accounts s a c os (ok b, os') h = h
    rebound-Accounts s a c os (err e, os') h =
        ground (arith, start-Accounts s.endpoint a.generation os')

    moved-Accounts :
        (s : Slot) (a : Active) (os : Os) (r : Result Active String × Os)
        → Accounts t p none os (ok_of r.0) r.1
        → let q = moved sys g spec p drain s a r in Accounts t p (some a) os q.slot.active q.os
    unfolding moved stop_active opened closed
    moved-Accounts s a os (ok b, os') h = ground arith
    moved-Accounts s a os (err e, os') h = ground arith

    apply_active-Accounts :
        (s : Slot) (a : Active) (os : Os)
        → s.active ≡ some a
        → let q = apply_active sys g spec p drain s a os in
          Accounts t p (some a) os q.slot.active q.os
    unfolding apply_active replace_same replace_moved
    apply_active-Accounts s a os e =
        let v = vacate p a (stop_active p a os) in
        ground (
          arith,
          vacate-Accounts a os,
          rebound-Accounts s a v.0 v.1 (start_endpoint sys spec.endpoint p g v.1)
              (start-Accounts spec.endpoint g v.1),
          moved-Accounts s a os (start_endpoint sys spec.endpoint p g os)
              (start-Accounts spec.endpoint g os),
        )

    dispatch-Accounts :
        (s : Slot) (a : Option Active) (os : Os)
        → s.active ≡ a
        → let q = dispatch sys g spec p drain s a os in Accounts t p a os q.slot.active q.os
    dispatch-Accounts s none os e = fresh-Accounts (some s) os _ (start-Accounts spec.endpoint g os)
    dispatch-Accounts s (some a) os e = apply_active-Accounts s a os e

    -- Bringing a slot to a description, whatever slot there was, if any, and whatever the
    -- system answers: at each socket, the plane that was held and the binds of the step
    -- are the plane that is held after it and the listeners that the step ended.
    pub slot_step-Accounts :
        (old : Option Slot) (os : Os)
        → let q = slot_step sys g spec p drain old os in
          Accounts t p (slot_active old) os q.slot.active q.os
    slot_step-Accounts none os = fresh-Accounts none os _ (start-Accounts spec.endpoint g os)
    slot_step-Accounts (some s) os = dispatch-Accounts s s.active os refl
