-- ===== src/Lifecycle/Manager/Status/Reported.antt =====
-- `EndpointManager::status`: what is read from the list of a report.
use realm.Base.{
  List, [], ◌∷◌, ◌++◌, Option, none, some, true, false, Bool-cases, inl, inr, ◌≡◌, refl, arith,
}
use realm.Base.Map
use realm.Base.Map.{Map}
use realm.Base.Map.Distinct.{Distinct}
use realm.Endpoint.{SocketAddr, Proto, tcp, udp, EndpointId, id_key}
use realm.Lifecycle.Manager.{SlotState, Slot, Entry, Manager, Active}
use realm.Lifecycle.Manager.Table.{On}
use realm.Lifecycle.Manager.Apply.Everywhere.{OnEntry, Everywhere}
use realm.Lifecycle.Manager.Status.{
  SlotStatus, EndpointStatus, plane_laddr, slot_reports, reports, HasPlane, IsLive,
}

-- A slot that is reported running is reported with its address.
abbrev pub Placed : SlotState → Option SocketAddr → Type 0
Placed SlotState.running none = ⊥
Placed SlotState.running (some a) = Unit {0}
Placed SlotState.draining a = Unit {0}
Placed SlotState.stopped a = Unit {0}
Placed (SlotState.failed e) a = Unit {0}

abbrev pub AllPlaced : List SlotStatus → Type 0
AllPlaced [] = Unit {0}
AllPlaced (x ∷ xs) = Placed x.state x.laddr × AllPlaced xs

abbrev pub ReportsPlaced : List EndpointStatus → Type 0
ReportsPlaced [] = Unit {0}
ReportsPlaced (x ∷ xs) = AllPlaced x.slots × ReportsPlaced xs

slot-Placed : (st : SlotState) (a : Option Active) → HasPlane st a → Placed st (plane_laddr a)
slot-Placed SlotState.running none h = h
slot-Placed SlotState.running (some a) h = tt
slot-Placed SlotState.draining a h = tt
slot-Placed SlotState.stopped a h = tt
slot-Placed (SlotState.failed e) a h = tt

slots-Placed :
    (p : Proto) (x : Option Slot) (xs : List SlotStatus)
    → On IsLive x
    → AllPlaced xs
    → AllPlaced (slot_reports p x ++ xs)
slots-Placed p none xs h k = k
slots-Placed p (some s) xs h k = (slot-Placed s.state s.active h.claims, k)

entry-Placed :
    (e : Entry)
    → OnEntry IsLive (some e)
    → AllPlaced (slot_reports tcp e.slots.tcp ++ slot_reports udp e.slots.udp)
entry-Placed e (a, b) = slots-Placed tcp e.slots.tcp _ a (only e.slots.udp b)
  where
    only : (x : Option Slot) → On IsLive x → AllPlaced (slot_reports udp x)
    only none h = tt
    only (some s) h = (slot-Placed s.state s.active h.claims, tt)

absent-get :
    (m : Map EndpointId Entry) (j : EndpointId) → Map.contains m j ≡ false → Map.get m j ≡ none
unfolding Map.contains Map.get
absent-get [] j h = refl
absent-get ((k, e) ∷ m) j h = ground (arith, absent-get m j)

reports-Placed :
    (m : Map EndpointId Entry)
    → Distinct m
    → ((j : EndpointId) → OnEntry IsLive (Map.get m j))
    → ReportsPlaced (reports m)
unfolding Map.get
reports-Placed [] d h = tt
reports-Placed ((id, e) ∷ m) (fresh, d) h =
    let held = h id in
    let here : OnEntry IsLive (some e) = rw (Map.keq_refl id) at held in
    (entry-Placed e here, reports-Placed m d later)
  where
    gone : (j : EndpointId) → id_key.keq id j ≡ true → Map.get m j ≡ none
    gone j same = absent-get m j (rw ((id_key.keq_iff id j).0 same) at fresh)

    later : (j : EndpointId) → OnEntry IsLive (Map.get m j)
    later j = elim (Bool-cases (id_key.keq id j)) [
      | inl same ↦ rw (gone j same) tt
      | inr other ↦ let there = h j in rw other at there
    ]

-- Where each id is held once.
pub live-Placed :
    (m : Manager) → Distinct m.entries → Everywhere IsLive m → ReportsPlaced (reports m.entries)
live-Placed m d h = reports-Placed m.entries d h
