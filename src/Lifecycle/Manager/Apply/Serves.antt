-- ===== src/Lifecycle/Manager/Apply/Serves.antt =====
-- What an application without a failure serves.
use realm.Base.{
  String, List, [], ◌∷◌, ◌++◌, Option, none, some, Result, ok, err, arith, if◌then◌else◌, Bool,
  true, false, Bool-cases, inl, inr, is_some, any, map, ◌≡◌, refl, sym, ◌∙◌, unwrap_or,
}
use realm.Base.Map
use realm.Endpoint.{Proto, tcp, udp, EndpointId, id_key, proto_eq}
use realm.Lifecycle.Manager.{
  System, Os, Slot, Slots, Entry, Manager, DrainPolicy, EndpointSpec, Generation, SlotOutcome,
  outcome_rejected, is_failed, protos,
}
use realm.Lifecycle.Manager.Table.{
  slot_active, get_slot, put_slot, entry, slot, refresh, update_slots, entry-update_slots, validate,
}
use realm.Lifecycle.Manager.Replace.{slot_step, apply_slot}
use realm.Lifecycle.Manager.Replace.Again.{slot_step-Serves}
use realm.Lifecycle.Manager.Apply.{
  stop_slot, stop_found, admit, admitted, apply_proto, apply_valid, apply_checked, apply,
  reported_protos,
}
use realm.Lifecycle.Manager.Apply.Runs.{runs_in, runs, prune-runs}

abbrev pub any_failed : List SlotOutcome → Bool
any_failed os = any (λ o. is_failed o.action) os

any_failed-last :
    (os : List SlotOutcome) (o : SlotOutcome)
    → any_failed (os ++ o ∷ []) ≡ false
    → (any_failed os ≡ false) × (is_failed o.action ≡ false)
any_failed-last [] o h = ground arith
any_failed-last (x ∷ os) o h = ground (arith, any_failed-last os o)

-- The id has an entry.
abbrev Held : EndpointId → Manager → Type 0
Held id m = (e : Entry) × (entry m id ≡ some e)

update-runs :
    (id : EndpointId) (p : Proto) (x : Option Slot) (m : Manager) (os : Os) (e : Entry)
    → entry m id ≡ some e
    → (q : Proto)
    → runs (update_slots id (put_slot p x) (record m { os = os })) id q
      ≡ (if proto_eq p q then is_some (slot_active x) else runs_in (some e) q)
update-runs id p x m os e h q =
    rw (entry-update_slots id id (put_slot p x) (record m { os = os }), Map.keq_refl id, h) (go p q)
  where
    go :
        (p q : Proto)
        → is_some (slot_active (get_slot (put_slot p x e.slots) q)) ≡ (
            if proto_eq p q
            then is_some (slot_active x)
            else is_some (slot_active (get_slot e.slots q)))
    go tcp tcp = refl
    go tcp udp = refl
    go udp tcp = refl
    go udp udp = refl

update-Held :
    (id : EndpointId) (f : Slots → Slots) (m : Manager) → Held id m → Held id (update_slots id f m)
update-Held id f m (e, h) =
    (record e { slots = f e.slots }, rw (entry-update_slots id id f m, h, Map.keq_refl id) refl)

module _ (sys : System) (id : EndpointId) (g : Generation) (spec : EndpointSpec)
    (d : DrainPolicy) where
  -- What a protocol leaves behind: the entry, the other protocol, the earlier outcomes; and its own plane, if it is asked for.
  record Applied (p : Proto) (m : Manager) (os : List SlotOutcome) (r : Manager × List SlotOutcome)
      : Type 0 where
    held : Held id r.0
    earlier : any_failed r.1 ≡ false → any_failed os ≡ false
    others : (q : Proto) → proto_eq p q ≡ false → runs r.0 id q ≡ runs m id q
    own : any_failed r.1 ≡ false → any (proto_eq p) (protos spec) ≡ true → runs r.0 id p ≡ true

  same : (p : Proto) → proto_eq p p ≡ true
  same tcp = refl
  same udp = refl

  apply_slot-Applied :
      (p : Proto) (m : Manager) (os : List SlotOutcome)
      → Held id m
      → Applied p m os
          ((apply_slot sys g spec p d id m).0, os ++ (apply_slot sys g spec p d id m).1 ∷ [])
  unfolding apply_slot
  apply_slot-Applied p m os (e, h) =
      let r = slot_step sys g spec p d (slot m id p) m.os in
      record {
        held = update-Held id (put_slot p (some r.slot)) (record m { os = r.os }) (e, h);
        earlier = λ f. (any_failed-last os r.outcome f).0;
        others = λ q n. update-runs id p (some r.slot) m r.os e h q ∙ rw (n, h) refl;
        own = λ f w.
            update-runs id p (some r.slot) m r.os e h p
            ∙ rw (same p) (
                (slot_step-Serves sys spec p d g (slot m id p) m.os
                  (any_failed-last os r.outcome f).1).0);
      }

  stop_slot-runs :
      (p : Proto) (m : Manager)
      → Held id m
      → Held id (stop_slot id p d.on_delete m).0
        × ((q : Proto)
            → proto_eq p q ≡ false
            → runs (stop_slot id p d.on_delete m).0 id q ≡ runs m id q)
  unfolding stop_slot
  stop_slot-runs p m (e, h) = go (slot m id p)
    where
      go :
          (x : Option Slot)
          → Held id (stop_found id p d.on_delete m x).0
            × ((q : Proto)
                → proto_eq p q ≡ false
                → runs (stop_found id p d.on_delete m x).0 id q ≡ runs m id q)
      go none = ((e, h), λ q n. refl)
      go (some s) = (
        update-Held id (put_slot p none) _ (e, h),
        λ q n. update-runs id p none m _ e h q ∙ rw (n, h) refl,
      )

  absurd_of : {A : Type 0} (b : Bool) → b ≡ false → b ≡ true → A
  absurd_of b h k = absurd (go (sym h ∙ k))
    where
      go : false ≡ true → ⊥
      go e = cc

  apply_proto-Applied :
      (p : Proto) (m : Manager) (os : List SlotOutcome)
      → Held id m
      → Applied p m os (apply_proto sys id g spec d p (m, os))
  unfolding apply_proto
  apply_proto-Applied p m os h = elim (Bool-cases (any (proto_eq p) (protos spec))) [
    | inl wanted ↦ rw (wanted, apply_proto) (apply_slot-Applied p m os h)
    | inr other ↦ elim (Bool-cases (is_some (slot m id p))) [
      | inl there ↦
          let s = stop_slot-runs p m h in
          rw (other, there, apply_proto)
            (record {
              held = s.0;
              earlier = λ f. (any_failed-last os (stop_slot id p d.on_delete m).1 f).0;
              others = s.1;
              own = λ f w. absurd_of (any (proto_eq p) (protos spec)) other w;
            })
      | inr absent ↦
          rw (other, absent, apply_proto)
            (record {
              held = h;
              earlier = λ f. f;
              others = λ q n. refl;
              own = λ f w. absurd_of (any (proto_eq p) (protos spec)) other w;
            })
    ]
  ]

  protos-runs :
      (m : Manager) (q : Proto)
      → Held id m
      → any_failed (apply_proto sys id g spec d udp (apply_proto sys id g spec d tcp (m, []))).1
        ≡ false
      → any (proto_eq q) (protos spec) ≡ true
      → runs (apply_proto sys id g spec d udp (apply_proto sys id g spec d tcp (m, []))).0 id q
        ≡ true
  protos-runs m q h f w =
      let x = apply_proto sys id g spec d tcp (m, []) in
      let a = apply_proto-Applied tcp m [] h in
      let b = apply_proto-Applied udp x.0 x.1 a.held in
      elim q
          as (λ k.
            any (proto_eq k) (protos spec) ≡ true
            → runs (apply_proto sys id g spec d udp x).0 id k ≡ true) [
              | tcp ↦ λ v. b.others tcp refl ∙ a.own (b.earlier f) v
              | udp ↦ λ v. b.own f v
            ]
        w

rejected-any_failed :
    (sys : System) (e : String) (ps : List Proto)
    → any_failed (map (λ p. outcome_rejected p e) (reported_protos sys ps)) ≡ true
rejected-any_failed sys e [] = refl
rejected-any_failed sys e (p ∷ ps) = refl

admit-Held : (id : EndpointId) (d : DrainPolicy) (m : Manager) → Held id (admit id d m)
unfolding admit
admit-Held id d m =
    (admitted d (entry m id), Map.get-insert id id _ m.entries ∙ rw (Map.keq_refl id) refl)

module _ (sys : System) (id : EndpointId) (g : Generation) (spec : EndpointSpec) where
  apply_valid-runs :
      (m : Manager) (q : Proto)
      → any_failed (apply_valid sys id g spec m).1 ≡ false
      → any (proto_eq q) (protos spec) ≡ true
      → runs (apply_valid sys id g spec m).0 id q ≡ true
  unfolding apply_valid
  apply_valid-runs m q f w =
      let d = unwrap_or spec.drain m.policy in
      prune-runs id _ q ∙ protos-runs sys id g spec d (admit id d m) q (admit-Held id d m) f w

  -- An application that reports no failure leaves every protocol of the description served.
  pub apply-runs :
      (m : Manager) (q : Proto)
      → any_failed (apply sys id g spec m).1 ≡ false
      → any (proto_eq q) (protos spec) ≡ true
      → runs (apply sys id g spec m).0 id q ≡ true
  unfolding apply
  apply-runs m q = go (validate spec)
    where
      go :
          (r : Result (Unit {0}) String)
          → any_failed (apply_checked sys id g spec (refresh m) r).1 ≡ false
          → any (proto_eq q) (protos spec) ≡ true
          → runs (apply_checked sys id g spec (refresh m) r).0 id q ≡ true
      go (err e) f w =
          absurd_of sys id g spec (unwrap_or spec.drain m.policy)
            (any_failed (map (λ p. outcome_rejected p e) (reported_protos sys (protos spec)))) f
            (rejected-any_failed sys e (protos spec))
      go (ok x) f w = apply_valid-runs (refresh m) q f w
