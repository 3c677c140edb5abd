-- ===== src/Lifecycle/Manager/Replace/Coherence.antt =====
-- `apply_slot`: what a slot says of itself against what it serves.
use realm.Base.{String, ◌≡◌, refl, Option, none, some, Result, ok, err, arith}
use realm.Endpoint.{Proto}
use realm.Lifecycle.Cohort.{Cohort}
use realm.Lifecycle.Manager.{
  System, Os, Slot, SlotState, DrainPolicy, EndpointSpec, Active, Generation,
}
use realm.Lifecycle.Manager.Start.{start_endpoint, vacate, stop_active}
use realm.Lifecycle.Manager.Replace.{
  ok_of, fresh, rebound, replace_same, moved, replace_moved, apply_active, slot_step, dispatch,
}

-- The generation of the serving plane, if there is one, is the slot's.
abbrev pub MatchesGeneration : Generation → Option Active → Type 0
MatchesGeneration g none = Unit {0}
MatchesGeneration g (some a) = a.generation ≡ g

-- A slot that claims to run is serving.
abbrev pub RunsIfClaimed : SlotState → Option Active → Type 0
RunsIfClaimed SlotState.running none = ⊥
RunsIfClaimed SlotState.running (some a) = Unit {0}
RunsIfClaimed SlotState.draining a = Unit {0}
RunsIfClaimed SlotState.stopped a = Unit {0}
RunsIfClaimed (SlotState.failed e) a = Unit {0}

pub record IsCoherent (s : Slot) : Type 0 where
  pub current : MatchesGeneration s.generation s.active
  pub honest : RunsIfClaimed s.state s.active

abbrev pub AllCoherent : Option Slot → Type 0
AllCoherent none = Unit {0}
AllCoherent (some s) = IsCoherent s

module _ (sys : System) (g : Generation) (spec : EndpointSpec) (p : Proto)
    (drain : DrainPolicy) where
  rebound-IsCoherent :
      (s : Slot) (old : Active) (c : Cohort) (r : Result Active String × Os)
      → MatchesGeneration g (ok_of r.0)
      → old.generation ≡ s.generation
      → IsCoherent (rebound sys g spec p drain s old c r).slot
  unfolding rebound start_endpoint
  rebound-IsCoherent s old c (ok a, os) h k = ground arith
  rebound-IsCoherent s old c (err e, os) h k = ground arith

  start-MatchesGeneration :
      (os : Os) → MatchesGeneration g (ok_of (start_endpoint sys spec.endpoint p g os).0)
  unfolding start_endpoint
  start-MatchesGeneration os = ground arith

  moved-IsCoherent :
      (s : Slot) (old : Active) (r : Result Active String × Os)
      → MatchesGeneration g (ok_of r.0)
      → old.generation ≡ s.generation
      → IsCoherent (moved sys g spec p drain s old r).slot
  unfolding moved
  moved-IsCoherent s old (ok a, os) h k = ground arith
  moved-IsCoherent s old (err e, os) h k = ground arith

  fresh-IsCoherent :
      (old : Option Slot) (r : Result Active String × Os)
      → MatchesGeneration g (ok_of r.0)
      → IsCoherent (fresh sys g spec p drain old r).slot
  fresh-IsCoherent none (ok a, os) h = ground arith
  fresh-IsCoherent none (err e, os) h = ground arith
  fresh-IsCoherent (some s) (ok a, os) h = ground arith
  fresh-IsCoherent (some s) (err e, os) h = ground arith

  apply_active-IsCoherent :
      (s : Slot) (a : Active) (os : Os)
      → IsCoherent s
      → s.active ≡ some a
      → IsCoherent (apply_active sys g spec p drain s a os).slot
  unfolding apply_active replace_same replace_moved
  apply_active-IsCoherent s a os h e =
      let same : a.generation ≡ s.generation = rw e at h.current in
      ground (
        arith,
        rebound-IsCoherent s a (vacate p a (stop_active p a os)).0
            (start_endpoint sys spec.endpoint p g (vacate p a (stop_active p a os)).1)
            (start-MatchesGeneration (vacate p a (stop_active p a os)).1) same,
        moved-IsCoherent s a (start_endpoint sys spec.endpoint p g os) (start-MatchesGeneration os)
            same,
      )

  slot_step_cases :
      (s : Slot) (os : Os) (a : Option Active)
      → s.active ≡ a
      → IsCoherent s
      → IsCoherent (dispatch sys g spec p drain s a os).slot
  slot_step_cases s os none e h = fresh-IsCoherent (some s) _ (start-MatchesGeneration os)
  slot_step_cases s os (some a) e h = apply_active-IsCoherent s a os h e

  -- Bringing a slot to a description, whatever coherent slot there was, if any, and whatever
  -- the system answers, leaves a slot that is coherent: if it claims to run it serves, and
  -- its listener is of the generation that it names.
  pub slot_step-IsCoherent :
      (old : Option Slot) (os : Os)
      → AllCoherent old
      → IsCoherent (slot_step sys g spec p drain old os).slot
  slot_step-IsCoherent none os h = fresh-IsCoherent none _ (start-MatchesGeneration os)
  slot_step-IsCoherent (some s) os h = slot_step_cases s os s.active refl h
