-- ===== src/Lifecycle/Cohort.antt =====
-- realm_core/src/lifecycle/cohort.rs. Clocks (`created`, `draining_since`) are not modelled.
use realm.Base.{ℕ, ◌+◌, ◌-◌, Bool, true, false}

-- `accepting` is whether the cohort still holds its own sender (`alive`); `count` is the number of
-- guards held; `cancelled` is the state of the token.
pub record Cohort : Type 0 where
  pub count : ℕ
  pub accepting : Bool
  pub cancelled : Bool

unfoldable pub new : Cohort
new = record { count = 0; accepting = true; cancelled = false }

unfoldable pub register : Cohort → Cohort
register c = record c { count = c.count + 1 }

-- The guard of a connection is dropped.
unfoldable pub release : Cohort → Cohort
release c = record c { count = c.count - 1 }

unfoldable pub start_draining : Cohort → Cohort
start_draining c = record c { accepting = false }

unfoldable pub cancel : Cohort → Cohort
unfolding start_draining
cancel c = record (start_draining c) { cancelled = true }

-- The state when the wait is over: every guard is gone.
unfoldable pub wait_drained : Cohort → Cohort
unfolding start_draining
wait_drained c = record (start_draining c) { count = 0 }
