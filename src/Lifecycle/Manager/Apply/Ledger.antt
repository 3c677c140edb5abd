-- ===== src/Lifecycle/Manager/Apply/Ledger.antt =====
-- The account of the listeners over the calls that go through several slots.
use realm.Base.{
  ℕ, String, List, [], ◌∷◌, ◌≡◌, refl, Option, none, some, Result, ok, err, arith, true, Bool-cases,
  inl, inr, is_some, any, unwrap_or,
}
use realm.Base.Map
use realm.Base.Map.{Map}
use realm.Base.Map.Distinct.{total-insert, total-remove, insert-Distinct, remove-Distinct}
use realm.Endpoint.{Proto, tcp, udp, Socket, EndpointId, id_key, proto_eq}
use realm.Lifecycle.Manager.{
  System, Slot, Slots, Entry, Manager, DrainPolicy, EndpointSpec, Generation, SlotOutcome, protos,
}
use realm.Lifecycle.Manager.Table.{
  get_slot, put_slot, entry, slot, slot-entry, entry-update_slots, update_slots, refresh, prune,
  prune_found, no_slots, kept_slots, is_vacant, validate,
}
use realm.Lifecycle.Manager.Replace.{apply_slot}
use realm.Lifecycle.Manager.Replace.Account.{slot_step-Accounts}
use realm.Lifecycle.Manager.Apply.{
  detach_slot, slot_protos, stop_slot, stop_found, admit, admitted, apply_checked, apply_proto,
  apply_valid, apply, remove, stop_each, remove_found,
}
use realm.Lifecycle.Manager.Apply.Account.{
  planes, IsAccounted, update-IsAccounted, refresh-IsAccounted, admit-IsAccounted,
  stop_slot-IsAccounted,
}

module _ (t : Socket) where
  planes-kept : (e : Entry) → planes t (record e { slots = kept_slots e.slots }) ≡ planes t e
  planes-kept e = ground arith

  planes-vacant : (e : Entry) → is_vacant (kept_slots e.slots) ≡ true → planes t e ≡ 0
  planes-vacant e h = ground arith

  prune_found-IsAccounted :
      (id : EndpointId) (m : Manager) (x : Option Entry)
      → entry m id ≡ x
      → IsAccounted t m
      → IsAccounted t (prune_found id m x)
  prune_found-IsAccounted id m none h v = v
  prune_found-IsAccounted id m (some e) h v = elim (Bool-cases (is_vacant (kept_slots e.slots))) [
    | inl vacant ↦ rw vacant (record {
      distinct = remove-Distinct id m.entries v.distinct;
      balance = omega (
        arith,
        rw h at (total-remove (planes t) id m.entries v.distinct),
        planes-vacant e vacant,
        v.balance,
      );
    })
    | inr other ↦ rw other (record {
      distinct = insert-Distinct id _ m.entries v.distinct;
      balance = omega (
        arith,
        rw h at (
            total-insert (planes t) id (record e { slots = kept_slots e.slots }) m.entries
              v.distinct),
        planes-kept e,
        v.balance,
      );
    })
  ]

  prune-IsAccounted : (id : EndpointId) (m : Manager) → IsAccounted t m → IsAccounted t (prune id m)
  unfolding prune
  prune-IsAccounted id m v = prune_found-IsAccounted id m (entry m id) refl v

  module _ (sys : System) (g : Generation) (spec : EndpointSpec) (d : DrainPolicy)
      (id : EndpointId) where
    apply_slot-IsAccounted :
        (p : Proto) (m : Manager) (e : Entry)
        → entry m id ≡ some e
        → IsAccounted t m
        → IsAccounted t (apply_slot sys g spec p d id m).0
    unfolding apply_slot
    apply_slot-IsAccounted p m e h v = rw (slot-entry m id p e h) (
        update-IsAccounted t id p _ m _ e h v
          (slot_step-Accounts t sys p g spec d (get_slot e.slots p) m.os))

    -- The entry of the id is there, before and after.
    abbrev Held : Manager → Type 0
    Held m = (e : Entry) × (entry m id ≡ some e)

    update-Held : (f : Slots → Slots) (m : Manager) → Held m → Held (update_slots id f m)
    update-Held f m (e, h) =
        (record e { slots = f e.slots }, rw (entry-update_slots id id f m, h, Map.keq_refl id) refl)

    stop_slot-Held : (p : Proto) (x : Option ℕ) (m : Manager) → Held m → Held (stop_slot id p x m).0
    unfolding stop_slot
    stop_slot-Held p x m h = go (slot m id p)
      where
        go : (s : Option Slot) → Held (stop_found id p x m s).0
        go none = h
        go (some s) = update-Held _ _ h

    apply_proto-IsAccounted :
        (p : Proto) (r : Manager × List SlotOutcome)
        → Held r.0
        → IsAccounted t r.0
        → Held (apply_proto sys id g spec d p r).0
          × IsAccounted t (apply_proto sys id g spec d p r).0
    unfolding apply_proto
    apply_proto-IsAccounted p (m, os) h v = elim (Bool-cases (any (proto_eq p) (protos spec))) [
      | inl wanted ↦
          rw (wanted, apply_proto)
            (unfold apply_slot in update-Held _ _ h, apply_slot-IsAccounted p m h.0 h.1 v)
      | inr other ↦ elim (Bool-cases (is_some (slot m id p))) [
        | inl there ↦
            rw (other, there, apply_proto)
              (stop_slot-Held p d.on_delete m h, stop_slot-IsAccounted t id p d.on_delete m v)
        | inr absent ↦ rw (other, absent, apply_proto) (h, v)
      ]
    ]

  admit-Held :
      (id : EndpointId) (d : DrainPolicy) (m : Manager)
      → (e : Entry) × (entry (admit id d m) id ≡ some e)
  unfolding admit
  admit-Held id d m = (
    admitted d (entry m id),
    rw (Map.get-insert id id (admitted d (entry m id)) m.entries, Map.keq_refl id) refl,
  )

  apply_valid-IsAccounted :
      (sys : System) (id : EndpointId) (g : Generation) (spec : EndpointSpec) (m : Manager)
      → IsAccounted t m
      → IsAccounted t (apply_valid sys id g spec m).0
  unfolding apply_valid
  apply_valid-IsAccounted sys id g spec m v =
      let d = unwrap_or spec.drain m.policy in
      let (held, kept) =
        apply_proto-IsAccounted sys g spec d id tcp (admit id d m, []) (admit-Held id d m)
          (admit-IsAccounted t id d m v) in
      prune-IsAccounted id _ ((apply_proto-IsAccounted sys g spec d id udp _ held kept).1)

  -- A call of apply keeps the account of a socket: if its binds so far are the ends of
  -- serving tasks and the planes that slots hold, they are so after the call, whatever is described (also a
  -- rejected description) and whatever the system answers.
  pub apply-IsAccounted :
      (sys : System) (id : EndpointId) (g : Generation) (spec : EndpointSpec) (m : Manager)
      → IsAccounted t m
      → IsAccounted t (apply sys id g spec m).0
  unfolding apply
  apply-IsAccounted sys id g spec m v = go (validate spec)
    where
      go :
          (r : Result (Unit {0}) String)
          → IsAccounted t (apply_checked sys id g spec (refresh m) r).0
      go (err e) = refresh-IsAccounted t m v
      go (ok x) = apply_valid-IsAccounted sys id g spec (refresh m) (refresh-IsAccounted t m v)

  stop_each-IsAccounted :
      (id : EndpointId) (d : Option ℕ) (ps : List Proto) (m : Manager)
      → IsAccounted t m
      → IsAccounted t (stop_each id d ps m).0
  stop_each-IsAccounted id d [] m v = v
  stop_each-IsAccounted id d (p ∷ ps) m v =
      stop_each-IsAccounted id d ps _ (stop_slot-IsAccounted t id p d m v)

  stop_found-entry :
      (id : EndpointId) (p : Proto) (d : Option ℕ) (m : Manager) (e : Entry) (x : Option Slot)
      → entry m id ≡ some e
      → get_slot e.slots p ≡ x
      → entry (stop_found id p d m x).0 id ≡ some (record e { slots = put_slot p none e.slots })
  stop_found-entry id tcp d m e none h k = ground (arith, h)
  stop_found-entry id udp d m e none h k = ground (arith, h)
  stop_found-entry id p d m e (some s) h k =
      rw
        (
          entry-update_slots id id (put_slot p none) (record m { os = detach_slot p d s m.os }),
          h,
          Map.keq_refl id,
        )
        refl

  stop_slot-entry :
      (id : EndpointId) (p : Proto) (d : Option ℕ) (m : Manager) (e : Entry)
      → entry m id ≡ some e
      → entry (stop_slot id p d m).0 id ≡ some (record e { slots = put_slot p none e.slots })
  unfolding stop_slot
  stop_slot-entry id p d m e h =
      rw (slot-entry m id p e h) (stop_found-entry id p d m e (get_slot e.slots p) h refl)

  abbrev cleared : List Proto → Slots → Slots
  cleared [] s = s
  cleared (p ∷ ps) s = cleared ps (put_slot p none s)

  stop_each-entry :
      (id : EndpointId) (ps : List Proto) (d : Option ℕ) (m : Manager) (e : Entry)
      → entry m id ≡ some e
      → entry (stop_each id d ps m).0 id ≡ some (record e { slots = cleared ps e.slots })
  stop_each-entry id [] d m e h = h
  stop_each-entry id (p ∷ ps) d m e h =
      stop_each-entry id ps d _ (record e { slots = put_slot p none e.slots })
        (stop_slot-entry id p d m e h)

  cleared-slot_protos : (s : Slots) → cleared (slot_protos s) s ≡ no_slots
  cleared-slot_protos s = ground arith

  remove_found-IsAccounted :
      (id : EndpointId) (m : Manager) (x : Option Entry)
      → entry m id ≡ x
      → IsAccounted t m
      → IsAccounted t (remove_found id m x).0
  remove_found-IsAccounted id m none h v = v
  remove_found-IsAccounted id m (some e) h v =
      let ps = slot_protos e.slots in
      let m' = (stop_each id e.drain.on_delete ps m).0 in
      let v' = stop_each-IsAccounted id e.drain.on_delete ps m v in
      let gone : entry m' id ≡ some (record e { slots = no_slots }) =
        rw (cleared-slot_protos e.slots) at (stop_each-entry id ps e.drain.on_delete m e h) in
      record {
        distinct = remove-Distinct id m'.entries v'.distinct;
        balance =
            omega
              (arith, rw gone at (total-remove (planes t) id m'.entries v'.distinct), v'.balance);
      }

  -- A call of remove keeps the account of a socket: the planes of an entry that is forgotten
  -- were stopped.
  pub remove-IsAccounted :
      (id : EndpointId) (m : Manager) → IsAccounted t m → IsAccounted t (remove id m).0
  unfolding remove
  remove-IsAccounted id m v =
      remove_found-IsAccounted id (refresh m) _ refl (refresh-IsAccounted t m v)
