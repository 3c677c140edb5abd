-- ===== src/Lifecycle/Manager/Apply/Everywhere.antt =====
-- A property of slots that the steps of one slot keep, under the public operations of
-- `EndpointManager`.
use realm.Base.{
  ℕ, String, List, [], ◌∷◌, Option, none, some, Result, ok, err, arith, if◌then◌else◌, Bool, true,
  false, Bool-cases, inl, inr, is_some, any,
}
use realm.Base.Map
use realm.Base.Map.{Map}
use realm.Endpoint.{Proto, tcp, udp, EndpointId, id_key, proto_eq}
use realm.Lifecycle.Manager.{
  System, Os, Slot, SlotState, Draining, Entry, Manager, DrainPolicy, EndpointSpec, Active,
  Generation, SlotOutcome, protos,
}
use realm.Lifecycle.Manager.Table.{
  On, put_slot, entry, slot, entry_slot, entry-update_slots, update_slots, refresh, refresh_slot,
  refresh_entry, get-refresh, on_entry, on_slot, prune, prune_found, kept_slots, is_vacant,
  validate,
}
use realm.Lifecycle.Manager.Replace.{slot_step, apply_slot}
use realm.Lifecycle.Manager.Apply.{
  stop_slot, stop_found, stop_accept, stop_accept_found, stop_serving, admit, admitted,
  apply_checked, apply_proto, apply_valid, apply, remove, stop_each, slot_protos, remove_found,
}

-- What the operations do to one slot keeps the property.
pub record Local (Q : Slot → Type 0) : Type 0 where
  pub steps :
      (sys : System) (g : Generation) (spec : EndpointSpec) (p : Proto) (d : DrainPolicy)
      (old : Option Slot) (os : Os)
      → On Q old
      → Q (slot_step sys g spec p d old os).slot
  pub refreshes : (d : Option ℕ) (s : Slot) → Q s → Q (refresh_slot d s)
  pub stops :
      (s : Slot) (ds : List Draining)
      → Q s
      → Q (record s { state = SlotState.draining; active = none; draining = ds })

module _ (Q : Slot → Type 0) where
  abbrev pub OnEntry : Option Entry → Type 0
  OnEntry none = Unit {0}
  OnEntry (some e) = On Q e.slots.tcp × On Q e.slots.udp

  -- Every slot of the manager has the property.
  abbrev pub Everywhere : Manager → Type 0
  Everywhere m = (id : EndpointId) → OnEntry (entry m id)

  entry_slot-Everywhere : (x : Option Entry) (p : Proto) → OnEntry x → On Q (entry_slot x p)
  entry_slot-Everywhere none p h = tt
  entry_slot-Everywhere (some e) tcp h = h.0
  entry_slot-Everywhere (some e) udp h = h.1

  pub slot-Everywhere :
      (m : Manager) (id : EndpointId) (p : Proto) → Everywhere m → On Q (slot m id p)
  unfolding slot
  slot-Everywhere m id p h = entry_slot-Everywhere (entry m id) p (h id)

  on_entry-coherent :
      (p : Proto) (x : Option Slot) (e : Option Entry)
      → On Q x
      → OnEntry e
      → OnEntry (on_entry (put_slot p x) e)
  on_entry-coherent p x none c h = tt
  on_entry-coherent tcp x (some e) c h = (c, h.1)
  on_entry-coherent udp x (some e) c h = (h.0, c)

  if-coherent :
      (b : Bool) (x y : Option Entry) → OnEntry x → OnEntry y → OnEntry (if b then x else y)
  if-coherent true x y h l = h
  if-coherent false x y h l = l

  pub update-Everywhere :
      (id : EndpointId) (p : Proto) (x : Option Slot) (m : Manager) (os : Os)
      → On Q x
      → Everywhere m
      → Everywhere (update_slots id (put_slot p x) (record m { os = os }))
  update-Everywhere id p x m os c h j =
      rw (entry-update_slots id j (put_slot p x) (record m { os = os })) (
        if-coherent (id_key.keq id j) _ (entry m j) (on_entry-coherent p x (entry m id) c (h id))
          (h j))

module _ (Q : Slot → Type 0) (k : Local Q) where
  refresh-on_slot : (d : Option ℕ) (s : Option Slot) → On Q s → On Q (on_slot (refresh_slot d) s)
  refresh-on_slot d none h = tt
  refresh-on_slot d (some s) h = k.refreshes d s h

  pub refresh-Everywhere : (m : Manager) → Everywhere Q m → Everywhere Q (refresh m)
  unfolding refresh
  refresh-Everywhere m h j = rw (get-refresh m.entries j) (go (entry m j) (h j))
    where
      go :
          (x : Option Entry)
          → OnEntry Q x
          → OnEntry Q (elim x [ none ↦ none | some e ↦ some (refresh_entry e) ])
      go none c = tt
      go (some e) c =
          unfold refresh_entry in
          (
            refresh-on_slot e.drain.on_delete e.slots.tcp c.0,
            refresh-on_slot e.drain.on_delete e.slots.udp c.1,
          )

  admit-Everywhere :
      (id : EndpointId) (d : DrainPolicy) (m : Manager)
      → Everywhere Q m
      → Everywhere Q (admit id d m)
  unfolding admit
  admit-Everywhere id d m h j =
      rw (Map.get-insert id j (admitted d (entry m id)) m.entries)
        (if-coherent Q (id_key.keq id j) _ (entry m j) (go (entry m id) (h id)) (h j))
    where
      go : (x : Option Entry) → OnEntry Q x → OnEntry Q (some (admitted d x))
      go none c = (tt, tt)
      go (some e) c = c

  apply_slot-Everywhere :
      (sys : System) (g : Generation) (spec : EndpointSpec) (p : Proto) (d : DrainPolicy)
      (id : EndpointId) (m : Manager)
      → Everywhere Q m
      → Everywhere Q (apply_slot sys g spec p d id m).0
  unfolding apply_slot
  apply_slot-Everywhere sys g spec p d id m h =
      update-Everywhere Q id p _ m _
        (k.steps sys g spec p d (slot m id p) m.os (slot-Everywhere Q m id p h)) h

  stop_slot-Everywhere :
      (id : EndpointId) (p : Proto) (d : Option ℕ) (m : Manager)
      → Everywhere Q m
      → Everywhere Q (stop_slot id p d m).0
  unfolding stop_slot
  stop_slot-Everywhere id p d m h = go (slot m id p)
    where
      go : (s : Option Slot) → Everywhere Q (stop_found id p d m s).0
      go none = h
      go (some s) = update-Everywhere Q id p none m _ tt h

  apply_proto-Everywhere :
      (sys : System) (id : EndpointId) (g : Generation) (spec : EndpointSpec) (d : DrainPolicy)
      (p : Proto) (r : Manager × List SlotOutcome)
      → Everywhere Q r.0
      → Everywhere Q (apply_proto sys id g spec d p r).0
  unfolding apply_proto
  apply_proto-Everywhere sys id g spec d p (m, os) h =
      elim (Bool-cases (any (proto_eq p) (protos spec))) [
        | inl wanted ↦ rw (wanted, apply_proto) (apply_slot-Everywhere sys g spec p d id m h)
        | inr other ↦ elim (Bool-cases (is_some (slot m id p))) [
          | inl there ↦ rw (other, there, apply_proto) (stop_slot-Everywhere id p d.on_delete m h)
          | inr absent ↦ rw (other, absent, apply_proto) h
        ]
      ]

  prune-Everywhere : (id : EndpointId) (m : Manager) → Everywhere Q m → Everywhere Q (prune id m)
  unfolding prune
  prune-Everywhere id m h = go (entry m id) (h id)
    where
      kept :
          (e : Entry)
          → OnEntry Q (some e)
          → OnEntry Q (some (record e { slots = kept_slots e.slots }))
      kept e c = ground arith

      go : (x : Option Entry) → OnEntry Q x → Everywhere Q (prune_found id m x)
      go none c = h
      go (some e) c = λ j. elim (Bool-cases (is_vacant (kept_slots e.slots))) [
        | inl vacant ↦
            rw (vacant, Map.get-remove id j m.entries)
              (if-coherent Q (id_key.keq id j) none (entry m j) tt (h j))
        | inr other ↦
            rw (other, Map.get-insert id j (record e { slots = kept_slots e.slots }) m.entries)
              (if-coherent Q (id_key.keq id j) _ (entry m j) (kept e c) (h j))
      ]

  pub apply-Everywhere :
      (sys : System) (id : EndpointId) (g : Generation) (spec : EndpointSpec) (m : Manager)
      → Everywhere Q m
      → Everywhere Q (apply sys id g spec m).0
  unfolding apply apply_valid
  apply-Everywhere sys id g spec m h = go (validate spec)
    where
      go :
          (r : Result (Unit {0}) String)
          → Everywhere Q (apply_checked sys id g spec (refresh m) r).0
      go (err e) = refresh-Everywhere m h
      go (ok x) = prune-Everywhere id _ (
          apply_proto-Everywhere sys id g spec _ udp _ (
            apply_proto-Everywhere sys id g spec _ tcp (_, [])
              (admit-Everywhere id _ (refresh m) (refresh-Everywhere m h))))

  stop_each-Everywhere :
      (id : EndpointId) (d : Option ℕ) (ps : List Proto) (m : Manager)
      → Everywhere Q m
      → Everywhere Q (stop_each id d ps m).0
  stop_each-Everywhere id d [] m h = h
  stop_each-Everywhere id d (p ∷ ps) m h =
      stop_each-Everywhere id d ps _ (stop_slot-Everywhere id p d m h)

  pub remove-Everywhere :
      (id : EndpointId) (m : Manager) → Everywhere Q m → Everywhere Q (remove id m).0
  unfolding remove
  remove-Everywhere id m h = go (entry (refresh m) id)
    where
      go : (x : Option Entry) → Everywhere Q (remove_found id (refresh m) x).0
      go none = refresh-Everywhere m h
      go (some e) = λ j.
          rw
            (Map.get-remove id j
              (stop_each id e.drain.on_delete (slot_protos e.slots) (refresh m)).0.entries)
            (if-coherent Q (id_key.keq id j) none _ tt (
              stop_each-Everywhere id e.drain.on_delete (slot_protos e.slots) (refresh m)
                (refresh-Everywhere m h) j))

  pub stop_accept-Everywhere :
      (id : EndpointId) (p : Proto) (d : Option ℕ) (m : Manager)
      → Everywhere Q m
      → Everywhere Q (stop_accept id p d m).0
  unfolding stop_accept
  stop_accept-Everywhere id p d m h = go (slot m id p) (slot-Everywhere Q m id p h)
    where
      serving : (s : Slot) (a : Option Active) → Q s → Everywhere Q (stop_serving id p d m s a).0
      serving s none q = h
      serving s (some a) q = update-Everywhere Q id p _ m _ (k.stops s _ q) h

      go : (x : Option Slot) → On Q x → Everywhere Q (stop_accept_found id p d m x).0
      go none q = h
      go (some s) q = serving s s.active q
