-- ===== src/Lifecycle/Manager/Apply/Frame.antt =====
-- What the calls on one id do to the others.
use realm.Base.{
  ℕ, String, List, [], ◌∷◌, ◌≡◌, refl, ◌∙◌, Option, none, some, is_some, Bool, true, false,
  Bool-cases, inl, inr, Result, ok, err, arith, if◌then◌else◌, any, unwrap_or,
}
use realm.Base.Map
use realm.Endpoint.{Proto, tcp, udp, EndpointId, proto_eq, id_key}
use realm.Lifecycle.Manager.{
  System, Slot, Slots, Entry, Manager, SlotOutcome, DrainPolicy, EndpointSpec, Generation, protos,
}
use realm.Lifecycle.Manager.Table.{
  entry, slot, update_slots, validate, refresh, prune, prune_found, kept_slots, is_vacant,
  entry-update_slots,
}
use realm.Lifecycle.Manager.Replace.{apply_slot}
use realm.Lifecycle.Manager.Apply.{
  stop_slot, stop_found, admit, apply_proto, apply_valid, apply_checked, apply, stop_each,
  slot_protos, remove_found, remove,
}

module _ (id j : EndpointId) (other : id_key.keq id j ≡ false) where
  pub update_slots_other :
      (f : Slots → Slots) (m : Manager) → entry (update_slots id f m) j ≡ entry m j
  update_slots_other f m = entry-update_slots id j f m ∙ rw other refl

  stop_slot_other :
      (p : Proto) (d : Option ℕ) (m : Manager) → entry (stop_slot id p d m).0 j ≡ entry m j
  unfolding stop_slot
  stop_slot_other p d m = go (slot m id p)
    where
      go : (x : Option Slot) → entry (stop_found id p d m x).0 j ≡ entry m j
      go none = refl
      go (some s) = update_slots_other _ _

  admit_other : (d : DrainPolicy) (m : Manager) → entry (admit id d m) j ≡ entry m j
  unfolding admit
  admit_other d m = Map.get-insert id j _ m.entries ∙ rw other refl

  prune_other : (m : Manager) → entry (prune id m) j ≡ entry m j
  unfolding prune
  prune_other m = go (entry m id)
    where
      kept :
          (e : Entry) (b : Bool)
          → Map.get
              (if b
                then Map.remove id m.entries
                else Map.insert id (record e { slots = kept_slots e.slots }) m.entries)
              j
            ≡ entry m j
      kept e true = Map.get-remove id j m.entries ∙ rw other refl
      kept e false = Map.get-insert id j _ m.entries ∙ rw other refl

      go : (x : Option Entry) → entry (prune_found id m x) j ≡ entry m j
      go none = refl
      go (some e) = kept e (is_vacant (kept_slots e.slots))

  module _ (sys : System) (g : Generation) (spec : EndpointSpec) where
    apply_slot_other :
        (p : Proto) (d : DrainPolicy) (m : Manager)
        → entry (apply_slot sys g spec p d id m).0 j ≡ entry m j
    unfolding apply_slot
    apply_slot_other p d m = update_slots_other _ _

    if_other :
        (b : Bool) (x y : Manager × List SlotOutcome) (e : Option Entry)
        → entry x.0 j ≡ e
        → entry y.0 j ≡ e
        → entry (if b then x else y).0 j ≡ e
    if_other true x y e hx hy = hx
    if_other false x y e hx hy = hy

    apply_proto_other :
        (d : DrainPolicy) (p : Proto) (x : Manager × List SlotOutcome)
        → entry (apply_proto sys id g spec d p x).0 j ≡ entry x.0 j
    unfolding apply_proto
    apply_proto_other d p (m, os) =
        if_other (any (proto_eq p) (protos spec)) _ _ _ (apply_slot_other p d m)
          (if_other (is_some (slot m id p)) _ _ _ (stop_slot_other p d.on_delete m) refl)

    -- A call of apply on one id leaves the entry of every other id as a check of the tasks
    -- (refresh) leaves it: whatever is described, rejected or fails to bind, the others keep
    -- their slots, listeners and policies.
    pub apply_other : (m : Manager) → entry (apply sys id g spec m).0 j ≡ entry (refresh m) j
    unfolding apply apply_valid
    apply_other m = go (validate spec)
      where
        go :
            (r : Result (Unit {0}) String)
            → entry (apply_checked sys id g spec (refresh m) r).0 j ≡ entry (refresh m) j
        go (err e) = refl
        go (ok x) =
            let d = unwrap_or spec.drain (refresh m).policy in
            let n = admit id d (refresh m) in
            prune_other _
            ∙ apply_proto_other d udp (apply_proto sys id g spec d tcp (n, []))
            ∙ apply_proto_other d tcp (n, [])
            ∙ admit_other d (refresh m)

  stop_each_other :
      (d : Option ℕ) (ps : List Proto) (m : Manager) → entry (stop_each id d ps m).0 j ≡ entry m j
  stop_each_other d [] m = refl
  stop_each_other d (p ∷ ps) m = stop_each_other d ps (stop_slot id p d m).0 ∙ stop_slot_other p d m

-- After a call of remove nothing is held under its id, and every other id is held as a check
-- of the tasks (refresh) leaves it.
pub entry-remove :
    (id j : EndpointId) (m : Manager)
    → entry (remove id m).0 j ≡ (if id_key.keq id j then none else entry (refresh m) j)
unfolding remove
entry-remove id j m = go (entry (refresh m) id) refl
  where
    go :
        (x : Option Entry)
        → entry (refresh m) id ≡ x
        → entry (remove_found id (refresh m) x).0 j
          ≡ (if id_key.keq id j then none else entry (refresh m) j)
    go none e = ground (arith, id_key.keq_iff id j, e)
    go (some s) e = elim (Bool-cases (id_key.keq id j)) [
      | inl same ↦ Map.get-remove id j _ ∙ rw same refl
      | inr other ↦
          Map.get-remove id j _
          ∙ rw other
              (stop_each_other id j other s.drain.on_delete (slot_protos s.slots) (refresh m))
    ]
