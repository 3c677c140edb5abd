-- ===== src/Lifecycle/Manager/Table.antt =====
-- The slots of an entry, and the manager's questions about them.
use realm.Base.{
  ℕ, String, Option-cases, inl, inr, List, [], ◌∷◌, ◌++◌, Option, none, some, Bool, true, false,
  not, ◌||◌, is_some, if◌then◌else◌, Result, ok, err, retain, ◌≡◌, refl, arith,
}
use realm.Base.Map
use realm.Base.Map.{Map}
use realm.Endpoint.{Proto, tcp, udp, EndpointId, Endpoint, id_key}
use realm.Lifecycle.Cohort.{Cohort, start_draining}
use realm.Lifecycle.Manager.{
  Slot, Slots, Entry, Manager, SlotState, DrainPolicy, EndpointSpec, Draining, Active, Event, lost,
  Generation,
}

abbrev pub get_slot : Slots → Proto → Option Slot
get_slot s tcp = s.tcp
get_slot s udp = s.udp

abbrev pub put_slot : Proto → Option Slot → Slots → Slots
put_slot tcp x s = record s { tcp = x }
put_slot udp x s = record s { udp = x }

abbrev pub no_slots : Slots
no_slots = record { tcp = none; udp = none }

abbrev pub entry : Manager → EndpointId → Option Entry
entry m id = Map.get m.entries id

abbrev pub entry_slot : Option Entry → Proto → Option Slot
entry_slot none p = none
entry_slot (some e) p = get_slot e.slots p

-- `EndpointManager::slot`.
unfoldable pub slot : Manager → EndpointId → Proto → Option Slot
slot m id p = entry_slot (entry m id) p

-- The slot, if there is one, has the property.
abbrev pub On : (Slot → Type 0) → Option Slot → Type 0
On Q none = Unit {0}
On Q (some s) = Q s

abbrev pub slot_active : Option Slot → Option Active
slot_active none = none
slot_active (some s) = s.active

abbrev serving_endpoint : Option Slot → Option Endpoint
serving_endpoint none = none
serving_endpoint (some s) = if is_some s.active then some s.endpoint else none

unfoldable pub active_endpoint : Manager → EndpointId → Proto → Option Endpoint
unfolding slot
active_endpoint m id p = serving_endpoint (slot m id p)

unfoldable pub validate : EndpointSpec → Result (Unit {0}) String
validate s = if s.tcp || s.udp then ok tt else err "endpoint enables neither tcp nor udp"

unfoldable pub ids : Manager → List EndpointId
ids m = Map.keys m.entries

unfoldable pub contains : Manager → EndpointId → Bool
contains m id = Map.contains m.entries id

unfoldable pub drain_policy : Manager → EndpointId → Option DrainPolicy
drain_policy m id = elim (entry m id) [ none ↦ none | some e ↦ some e.drain ]

-- A change to the slots of one id; nothing where the id is not held.
unfoldable pub update_slots : EndpointId → (Slots → Slots) → Manager → Manager
update_slots id f m = elim (entry m id) [
  | none ↦ m
  | some e ↦ record m { entries = Map.insert id (record e { slots = f e.slots }) m.entries }
]

-- Hands a superseded cohort to a background task.
unfoldable pub spawn_drain : Cohort → Generation → Option ℕ → Draining
unfolding start_draining
spawn_drain c g d = record {
  generation = g;
  cohort = start_draining c;
  deadline = d;
  finished = false;
}

abbrev drain_exited : Option ℕ → Slot → Option Active → Slot
drain_exited d s none = s
drain_exited d s (some a) =
    if a.exited
    then record s {
      state = SlotState.failed "serving task exited unexpectedly";
      active = none;
      draining = s.draining ++ spawn_drain a.cohort a.generation d ∷ [];
    }
    else s

-- The body of the loop of `refresh`.
unfoldable pub refresh_slot : Option ℕ → Slot → Slot
unfolding spawn_drain
refresh_slot d s =
    let s' = drain_exited d s s.active in
    record s' { draining = retain (λ t. not t.finished) s'.draining }

abbrev pub on_slot : (Slot → Slot) → Option Slot → Option Slot
on_slot f none = none
on_slot f (some s) = some (f s)

unfoldable pub refresh_entry : Entry → Entry
unfolding refresh_slot
refresh_entry e =
    let f = refresh_slot e.drain.on_delete in
    record e { slots = record { tcp = on_slot f e.slots.tcp; udp = on_slot f e.slots.udp } }

unfoldable pub refresh_entries : Map EndpointId Entry → Map EndpointId Entry
unfolding refresh_entry
refresh_entries [] = []
refresh_entries ((id, e) ∷ m) = (id, refresh_entry e) ∷ refresh_entries m

-- The listeners that were closed by the end of their serving task.
abbrev pub lost_plane : Proto → Option Active → List Event
lost_plane p none = []
lost_plane p (some a) = if a.exited then lost (a.laddr, p) ∷ [] else []

abbrev pub lost_events : Map EndpointId Entry → List Event
lost_events [] = []
lost_events ((id, e) ∷ m) =
    lost_plane tcp (slot_active e.slots.tcp)
    ++ (lost_plane udp (slot_active e.slots.udp) ++ lost_events m)

unfoldable pub refresh : Manager → Manager
unfolding refresh_entries
refresh m =
    let os = m.os in
    record m {
      entries = refresh_entries m.entries;
      os = record os { log = lost_events m.entries ++ os.log };
    }

abbrev pub is_failed_state : SlotState → Bool
is_failed_state (SlotState.failed e) = true
is_failed_state SlotState.running = false
is_failed_state SlotState.draining = false
is_failed_state SlotState.stopped = false

abbrev is_empty {ℓ} : {A : Type ℓ} → List A → Bool
is_empty [] = true
is_empty (x ∷ xs) = false

-- Whether `prune` keeps a slot.
abbrev pub holds_something : Slot → Bool
holds_something s = is_some s.active || not (is_empty s.draining) || is_failed_state s.state

abbrev pub keep_slot : Option Slot → Option Slot
keep_slot none = none
keep_slot (some s) = if holds_something s then some s else none

abbrev pub kept_slots : Slots → Slots
kept_slots s = record { tcp = keep_slot s.tcp; udp = keep_slot s.udp }

abbrev pub is_vacant : Slots → Bool
is_vacant s = not (is_some s.tcp || is_some s.udp)

abbrev pub pruned : EndpointId → Entry → Map EndpointId Entry → Map EndpointId Entry
pruned id e m =
    let kept = kept_slots e.slots in
    if is_vacant kept then Map.remove id m else Map.insert id (record e { slots = kept }) m

abbrev pub prune_found : EndpointId → Manager → Option Entry → Manager
prune_found id m none = m
prune_found id m (some e) = record m { entries = pruned id e m.entries }

unfoldable pub prune : EndpointId → Manager → Manager
prune id m = prune_found id m (entry m id)

pub get-refresh :
    (m : Map EndpointId Entry) (id : EndpointId)
    → Map.get (refresh_entries m) id
      ≡ elim (Map.get m id) [ none ↦ none | some e ↦ some (refresh_entry e) ]
unfolding refresh_entries Map.get
get-refresh [] id = refl
get-refresh ((j, e) ∷ m) id = ground (arith, get-refresh m id)

pub update_slots_found :
    (id : EndpointId) (f : Slots → Slots) (m : Manager) (e : Entry)
    → entry m id ≡ some e
    → update_slots id f m
      ≡ record m { entries = Map.insert id (record e { slots = f e.slots }) m.entries }
unfolding update_slots
update_slots_found id f m e h = rw (h, update_slots)

pub slot_found :
    (m : Manager) (id : EndpointId) (p : Proto) (s : Slot)
    → slot m id p ≡ some s
    → (e : Entry) × (entry m id ≡ some e) × (get_slot e.slots p ≡ some s)
unfolding slot
slot_found m id p s h = go (entry m id) refl h
  where
    go :
        (o : Option Entry)
        → entry m id ≡ o
        → entry_slot o p ≡ some s
        → (e : Entry) × (entry m id ≡ some e) × (get_slot e.slots p ≡ some s)
    go none e h = cc
    go (some x) e h = (x, e, h)

pub slot-entry :
    (m : Manager) (id : EndpointId) (p : Proto) (e : Entry)
    → entry m id ≡ some e
    → slot m id p ≡ get_slot e.slots p
unfolding slot
slot-entry m id p e h = rw h

abbrev pub on_entry : (Slots → Slots) → Option Entry → Option Entry
on_entry f none = none
on_entry f (some e) = some (record e { slots = f e.slots })

-- Only the slots of the id change.
pub entry-update_slots :
    (id j : EndpointId) (f : Slots → Slots) (m : Manager)
    → entry (update_slots id f m) j
      ≡ (if id_key.keq id j then on_entry f (entry m id) else entry m j)
unfolding update_slots
entry-update_slots id j f m = elim (Option-cases (entry m id)) [
  | inl e ↦ rw (e, update_slots) (go e)
  | inr (x, e) ↦ rw (update_slots_found id f m x e, e) (Map.get-insert id j _ m.entries)
]
  where
    go : entry m id ≡ none → entry m j ≡ (if id_key.keq id j then none else entry m j)
    go e = ground (arith, id_key.keq_iff id j, e)
