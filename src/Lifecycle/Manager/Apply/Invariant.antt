-- ===== src/Lifecycle/Manager/Apply/Invariant.antt =====
-- The coherence of the slots under the public operations of `EndpointManager`.
use realm.Base.{ℕ, Option, arith}
use realm.Endpoint.{Proto, EndpointId}
use realm.Lifecycle.Manager.{System, Slot, Manager, EndpointSpec, Generation}
use realm.Lifecycle.Manager.Table.{refresh, refresh_slot}
use realm.Lifecycle.Manager.Replace.Coherence.{IsCoherent, slot_step-IsCoherent}
use realm.Lifecycle.Manager.Apply.{apply, remove, stop_accept}
use realm.Lifecycle.Manager.Apply.Everywhere.{
  Local, Everywhere, refresh-Everywhere, apply-Everywhere, remove-Everywhere,
  stop_accept-Everywhere,
}

-- Every slot of the manager is coherent.
abbrev pub Coherent : Manager → Type 0
Coherent = Everywhere IsCoherent

refresh_slot-IsCoherent : (d : Option ℕ) (s : Slot) → IsCoherent s → IsCoherent (refresh_slot d s)
unfolding refresh_slot
refresh_slot-IsCoherent d s h = ground arith

pub IsCoherent-Local : Local IsCoherent
IsCoherent-Local = record {
  steps = slot_step-IsCoherent;
  refreshes = refresh_slot-IsCoherent;
  stops = λ s ds h. record { current = tt; honest = tt };
}

pub refresh-Coherent : (m : Manager) → Coherent m → Coherent (refresh m)
refresh-Coherent = refresh-Everywhere IsCoherent IsCoherent-Local

-- A call of apply on a manager whose slots are all coherent (a slot that claims to run
-- serves, and its listener is of the generation that it names) leaves them all coherent,
-- whatever is described and whatever the system answers.
pub apply-Coherent :
    (sys : System) (id : EndpointId) (g : Generation) (spec : EndpointSpec) (m : Manager)
    → Coherent m
    → Coherent (apply sys id g spec m).0
apply-Coherent = apply-Everywhere IsCoherent IsCoherent-Local

-- A call of remove on a manager whose slots are all coherent leaves them all coherent.
pub remove-Coherent : (id : EndpointId) (m : Manager) → Coherent m → Coherent (remove id m).0
remove-Coherent = remove-Everywhere IsCoherent IsCoherent-Local

-- A call of stop_accept on a manager whose slots are all coherent leaves them all coherent,
-- under any deadline.
pub stop_accept-Coherent :
    (id : EndpointId) (p : Proto) (d : Option ℕ) (m : Manager)
    → Coherent m
    → Coherent (stop_accept id p d m).0
stop_accept-Coherent = stop_accept-Everywhere IsCoherent IsCoherent-Local
