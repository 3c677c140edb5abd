-- ===== src/Lifecycle/Reconcile/Converge/Released.antt =====
-- `release_contended_addresses` touches only the ids that are to be replaced or deleted.
use realm.Base.{
  List, [], ◌∷◌, ◌++◌, Option, none, some, Bool, true, false, Bool-cases, inl, inr, ◌≡◌, refl, sym,
  if◌then◌else◌, any,
}
use realm.Base.Map
use realm.Base.Map.{Map}
use realm.Base.Map.Distinct.{Distinct, get-contains}
use realm.Endpoint.{Proto, EndpointId, id_key, Socket, socket_eq}
use realm.Lifecycle.Manager.{Manager}
use realm.Lifecycle.Manager.Table.{active_endpoint}
use realm.Lifecycle.Manager.Apply.Same.{Same, refl-Same, trans-Same, stop_accept-Same}
use realm.Lifecycle.Reconcile.{Plan}
use realm.Lifecycle.Reconcile.Planning.{both}
use realm.Lifecycle.Reconcile.Release.{
  Releasing, leaving, releasing, releasing_protos, release_each, release_wanted,
  release_contended_addresses, wanted,
}

-- No release is of the id.
abbrev Avoids : EndpointId → List Releasing → Type 0
Avoids j [] = Unit {0}
Avoids j (r ∷ rs) = (id_key.keq r.id j ≡ false) × Avoids j rs

Avoids-append :
    (j : EndpointId) (xs ys : List Releasing) → Avoids j xs → Avoids j ys → Avoids j (xs ++ ys)
Avoids-append j [] ys a b = b
Avoids-append j (x ∷ xs) ys a b = (a.0, Avoids-append j xs ys a.1 b)

-- The plan leaves its id where it is until it is carried out.
abbrev pub Stays : Option Plan → Type 0
Stays none = Unit {0}
Stays (some Plan.unchanged) = Unit {0}
Stays (some (Plan.start b)) = Unit {0}
Stays (some (Plan.invalid e)) = Unit {0}
Stays (some (Plan.replace b)) = ⊥
Stays (some Plan.delete) = ⊥

Stays-leaving :
    (m : Manager) (id : EndpointId) (plan : Plan)
    → Stays (some plan)
    → (leaving m id plan).0 ≡ false
Stays-leaving m id Plan.unchanged h = refl
Stays-leaving m id (Plan.start b) h = refl
Stays-leaving m id (Plan.invalid e) h = refl
Stays-leaving m id (Plan.replace b) h = absurd h
Stays-leaving m id Plan.delete h = absurd h

releasing_protos-Avoids :
    (m : Manager) (id j : EndpointId) (b : Bool) (ps : List Proto)
    → id_key.keq id j ≡ false
    → Avoids j (releasing_protos m id b ps)
releasing_protos-Avoids m id j b [] n = tt
releasing_protos-Avoids m id j b (p ∷ ps) n =
    elim (active_endpoint m id p)
      as (λ x. Avoids j (elim x [
        | none ↦ releasing_protos m id b ps
        | some e ↦
            record { id = id; proto = p; laddr = e.laddr; deleting = b }
            ∷ releasing_protos m id b ps
      ])) [
        | none ↦ releasing_protos-Avoids m id j b ps n
        | some e ↦ (n, releasing_protos-Avoids m id j b ps n)
      ]

releasing-Avoids :
    (m : Manager) (j : EndpointId) (ps : Map EndpointId Plan)
    → Distinct ps
    → Stays (Map.get ps j)
    → Avoids j (releasing m ps)
unfolding releasing Map.get
releasing-Avoids m j [] d s = tt
releasing-Avoids m j ((id, plan) ∷ ps) d s = elim (Bool-cases (id_key.keq id j)) [
  | inl e ↦
      let same : id ≡ j = (id_key.keq_iff id j).0 e in
      let absent : Stays (Map.get ps j) = rw (sym same, get-contains id ps d.0) tt in
      let stays : Stays (some plan) = rw e at s in
      rw (Stays-leaving m id plan stays) (releasing-Avoids m j ps d.1 absent)
  | inr n ↦
      Avoids-append j _ (releasing m ps) (head n (leaving m id plan).0)
        (releasing-Avoids m j ps d.1 (rw n at s))
]
  where
    head :
        id_key.keq id j ≡ false
        → (b : Bool) → Avoids j (if b then releasing_protos m id (leaving m id plan).1 both else [])
    head n true = releasing_protos-Avoids m id j _ both n
    head n false = tt

release_each-Same :
    (j : EndpointId) (ws : List Socket) (rs : List Releasing) (m : Manager)
    → Avoids j rs
    → Same j m (release_each ws rs m).0
unfolding release_each
release_each-Same j ws [] m a = refl-Same j m
release_each-Same j ws (r ∷ rs) m a = elim (Bool-cases (any (socket_eq (r.laddr, r.proto)) ws)) [
  | inl hit ↦ rw hit (
      trans-Same j m _ _ (stop_accept-Same r.id j a.0 r.proto _ m)
        (release_each-Same j ws rs _ a.1))
  | inr miss ↦ rw miss (release_each-Same j ws rs m a.1)
]

pub release-Same :
    (m : Manager) (j : EndpointId) (ps : Map EndpointId Plan)
    → Distinct ps
    → Stays (Map.get ps j)
    → Same j m (release_contended_addresses m ps).0
unfolding release_contended_addresses
release-Same m j ps d s = go (wanted m ps)
  where
    go : (ws : List Socket) → Same j m (release_wanted m ps ws).0
    go [] = refl-Same j m
    go (w ∷ ws) = release_each-Same j (w ∷ ws) (releasing m ps) m (releasing-Avoids m j ps d s)
