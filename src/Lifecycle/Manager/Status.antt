-- ===== src/Lifecycle/Manager/Status.antt =====
-- realm_core/src/lifecycle/manager.rs: the report of `EndpointManager::status`, and `wait_drained`.
-- The clocks of a drain (its age, and since when it drains) are not modelled.
pub mod Reported
use realm.Base.{ℕ, List, [], ◌∷◌, ◌++◌, map, Option, none, some, false, ◌≡◌, refl, arith}
use realm.Base.Map.{Map}
use realm.Endpoint.{SocketAddr, Socket, Proto, tcp, udp, EndpointId}
use realm.Lifecycle.Manager.{Generation, SlotState, Slot, Entry, Manager, Active, Draining}
use realm.Lifecycle.Manager.Table.{
  On, slot, slot_found, put_slot, update_slots, entry, refresh, refresh_slot, refresh_entry,
  get-refresh, on_slot,
}
use realm.Lifecycle.Manager.Replace.Coherence.{IsCoherent, MatchesGeneration}
use realm.Lifecycle.Manager.Apply.Account.{IsAccounted, update-IsAccounted}
use realm.Lifecycle.Manager.Apply.Everywhere.{
  OnEntry, Everywhere, update-Everywhere, slot-Everywhere,
}
use realm.Lifecycle.Manager.Apply.Invariant.{Coherent}

pub record DrainingStatus : Type 0 where
  pub generation : Generation
  pub connections : ℕ

pub record SlotStatus : Type 0 where
  pub proto : Proto
  pub state : SlotState
  pub generation : Generation
  pub laddr : Option SocketAddr
  pub connections : ℕ
  pub draining : List DrainingStatus

pub record EndpointStatus : Type 0 where
  pub id : EndpointId
  pub slots : List SlotStatus

abbrev pub plane_laddr : Option Active → Option SocketAddr
plane_laddr none = none
plane_laddr (some a) = some a.laddr

abbrev plane_connections : Option Active → ℕ
plane_connections none = 0
plane_connections (some a) = a.cohort.count

abbrev draining_status : Draining → DrainingStatus
draining_status d = record { generation = d.generation; connections = d.cohort.count }

abbrev pub slot_status : Proto → Slot → SlotStatus
slot_status p s = record {
  proto = p;
  state = s.state;
  generation = s.generation;
  laddr = plane_laddr s.active;
  connections = plane_connections s.active;
  draining = map draining_status s.draining;
}

abbrev pub slot_reports : Proto → Option Slot → List SlotStatus
slot_reports p none = []
slot_reports p (some s) = slot_status p s ∷ []

abbrev pub entry_status : EndpointId → Entry → EndpointStatus
entry_status id e = record {
  id = id;
  slots = slot_reports tcp e.slots.tcp ++ slot_reports udp e.slots.udp;
}

abbrev pub reports : Map EndpointId Entry → List EndpointStatus
reports [] = []
reports ((id, e) ∷ m) = entry_status id e ∷ reports m

-- The planes whose task has ended are dropped first; the report is of what is left.
unfoldable pub status : Manager → Manager × List EndpointStatus
unfolding refresh
status m = (refresh m, reports (refresh m).entries)

abbrev await_found : EndpointId → Proto → Manager → Option Slot → Manager
await_found id p m none = m
await_found id p m (some s) = update_slots id (put_slot p (some (record s { draining = [] }))) m

abbrev awaited : EndpointId → Proto → Manager → Manager
awaited id p m = await_found id p m (slot m id p)

-- The state when every drain task of the id has been awaited.
unfoldable pub wait_drained : EndpointId → Manager → Manager
unfolding slot update_slots
wait_drained id m = awaited id udp (awaited id tcp m)

-- The plane has not ended by itself.
abbrev pub IsUp : Option Active → Type 0
IsUp none = Unit {0}
IsUp (some a) = a.exited ≡ false

-- A slot that claims to run has a plane.
abbrev pub HasPlane : SlotState → Option Active → Type 0
HasPlane SlotState.running none = ⊥
HasPlane SlotState.running (some a) = a.exited ≡ false
HasPlane SlotState.draining a = Unit {0}
HasPlane SlotState.stopped a = Unit {0}
HasPlane (SlotState.failed e) a = Unit {0}

-- A slot that claims to run has a plane whose task has not ended, and no plane that a slot holds
-- has; the plane is of the generation that the slot names.
pub record IsLive (s : Slot) : Type 0 where
  pub current : MatchesGeneration s.generation s.active
  pub up : IsUp s.active
  pub claims : HasPlane s.state s.active

refresh_slot-IsLive : (d : Option ℕ) (s : Slot) → IsCoherent s → IsLive (refresh_slot d s)
unfolding refresh_slot
refresh_slot-IsLive d s h = ground arith

refresh-IsLive : (m : Manager) → Coherent m → Everywhere IsLive (refresh m)
unfolding refresh
refresh-IsLive m h j = rw (get-refresh m.entries j) (go (entry m j) (h j))
  where
    one :
        (d : Option ℕ) (x : Option Slot) → On IsCoherent x → On IsLive (on_slot (refresh_slot d) x)
    one d none c = tt
    one d (some s) c = refresh_slot-IsLive d s c

    go :
        (x : Option Entry)
        → OnEntry IsCoherent x
        → OnEntry IsLive (elim x [ none ↦ none | some e ↦ some (refresh_entry e) ])
    go none c = tt
    go (some e) c =
        unfold refresh_entry in
        (one e.drain.on_delete e.slots.tcp c.0, one e.drain.on_delete e.slots.udp c.1)

pub status-IsLive : (m : Manager) → Coherent m → Everywhere IsLive (status m).0
unfolding status
status-IsLive m h = refresh-IsLive m h

awaited-IsAccounted :
    (t : Socket) (id : EndpointId) (p : Proto) (m : Manager)
    → IsAccounted t m
    → IsAccounted t (awaited id p m)
awaited-IsAccounted t id p m h = go (slot m id p) refl
  where
    go : (x : Option Slot) → slot m id p ≡ x → IsAccounted t (await_found id p m x)
    go none e = h
    go (some s) e =
        let (x, found, same) = slot_found m id p s e in
        update-IsAccounted t id p (some (record s { draining = [] })) m m.os x found h
          (rw same (omega arith))

pub wait_drained-IsAccounted :
    (t : Socket) (id : EndpointId) (m : Manager)
    → IsAccounted t m
    → IsAccounted t (wait_drained id m)
unfolding wait_drained
wait_drained-IsAccounted t id m h =
    awaited-IsAccounted t id udp (awaited id tcp m) (awaited-IsAccounted t id tcp m h)

awaited-Coherent :
    (id : EndpointId) (p : Proto) (m : Manager) → Coherent m → Coherent (awaited id p m)
awaited-Coherent id p m h = go (slot m id p) (slot-Everywhere IsCoherent m id p h)
  where
    go : (x : Option Slot) → On IsCoherent x → Coherent (await_found id p m x)
    go none c = h
    go (some s) c =
        update-Everywhere IsCoherent id p (some (record s { draining = [] })) m m.os
          (record { current = c.current; honest = c.honest }) h

pub wait_drained-Coherent :
    (id : EndpointId) (m : Manager) → Coherent m → Coherent (wait_drained id m)
unfolding wait_drained
wait_drained-Coherent id m h =
    awaited-Coherent id udp (awaited id tcp m) (awaited-Coherent id tcp m h)
