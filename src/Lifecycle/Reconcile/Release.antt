-- ===== src/Lifecycle/Reconcile/Release.antt =====
-- `release_contended_addresses`: listeners whose address another endpoint of the generation is
-- about to take are stopped first.
use realm.Base.{
  List, [], ◌∷◌, ◌++◌, Option, none, some, Bool, true, false, not, ◌||◌, if◌then◌else◌, any,
  unwrap_or,
}
use realm.Base.Map.{Map}
use realm.Endpoint.{
  Proto, EndpointId, id_key, Socket, socket_eq, SocketAddr, addr_eq, proto_eq, Endpoint,
}
use realm.Lifecycle.Manager.{Manager, EndpointSpec, protos, default_policy}
use realm.Lifecycle.Manager.Table.{active_endpoint, drain_policy}
use realm.Lifecycle.Manager.Apply.{stop_accept}
use realm.Lifecycle.Reconcile.{Plan}
use realm.Lifecycle.Reconcile.Planning.{both, built_of}

-- Whether the id would bind the address anew: it does not serve there.
abbrev pub binds_anew : SocketAddr → Option Endpoint → Bool
binds_anew a none = true
binds_anew a (some e) = not (addr_eq e.laddr a)

abbrev pub wanted_protos : Manager → EndpointId → EndpointSpec → List Proto → List Socket
wanted_protos m id b [] = []
wanted_protos m id b (p ∷ ps) =
    let rest = wanted_protos m id b ps in
    if binds_anew b.endpoint.laddr (active_endpoint m id p)
    then (b.endpoint.laddr, p) ∷ rest
    else rest

abbrev pub wanted_by : Manager → EndpointId → Option EndpointSpec → List Socket
wanted_by m id none = []
wanted_by m id (some b) = wanted_protos m id b (protos b)

-- The addresses that the generation wants to bind.
unfoldable pub wanted : Manager → Map EndpointId Plan → List Socket
wanted m [] = []
wanted m ((id, plan) ∷ ps) = wanted_by m id (built_of plan) ++ wanted m ps

pub record Releasing : Type 0 where
  pub id : EndpointId
  pub proto : Proto
  pub laddr : SocketAddr
  pub deleting : Bool

abbrev pub leaves : EndpointSpec → Proto → Option Endpoint → Bool
leaves b p none = false
leaves b p (some e) = not (addr_eq e.laddr b.endpoint.laddr) || not (any (proto_eq p) (protos b))

-- Whether the plan takes the endpoint off an address, and whether it deletes it.
abbrev pub leaving : Manager → EndpointId → Plan → Bool × Bool
leaving m id Plan.delete = (true, true)
leaving m id (Plan.replace b) = (any (λ p. leaves b p (active_endpoint m id p)) both, false)
leaving m id Plan.unchanged = (false, false)
leaving m id (Plan.start b) = (false, false)
leaving m id (Plan.invalid e) = (false, false)

abbrev pub releasing_protos : Manager → EndpointId → Bool → List Proto → List Releasing
releasing_protos m id deleting [] = []
releasing_protos m id deleting (p ∷ ps) = elim (active_endpoint m id p) [
  | none ↦ releasing_protos m id deleting ps
  | some e ↦
      record { id = id; proto = p; laddr = e.laddr; deleting = deleting }
      ∷ releasing_protos m id deleting ps
]

unfoldable pub releasing : Manager → Map EndpointId Plan → List Releasing
releasing m [] = []
releasing m ((id, plan) ∷ ps) =
    let (leaves_, deleting) = leaving m id plan in
    (if leaves_ then releasing_protos m id deleting both else []) ++ releasing m ps

-- A delete keeps its deadline; a replaced endpoint drains under the update policy and may be
-- restored.
unfoldable pub release_each : List Socket → List Releasing → Manager → Manager × List EndpointId
release_each ws [] m = (m, [])
release_each ws (r ∷ rs) m =
    let policy = unwrap_or (drain_policy m r.id) default_policy in
    let deadline = if r.deleting then policy.on_delete else policy.on_update in
    let stopped = release_each ws rs (stop_accept r.id r.proto deadline m).0 in
    let passed = release_each ws rs m in
    if any (socket_eq (r.laddr, r.proto)) ws
    then (stopped.0, if r.deleting then stopped.1 else r.id ∷ stopped.1)
    else passed

abbrev pub release_wanted : Manager → Map EndpointId Plan → List Socket → Manager × List EndpointId
release_wanted m plans [] = (m, [])
release_wanted m plans (w ∷ ws) = release_each (w ∷ ws) (releasing m plans) m

unfoldable pub release_contended_addresses :
    Manager → Map EndpointId Plan → Manager × List EndpointId
unfolding wanted releasing release_each
release_contended_addresses m plans = release_wanted m plans (wanted m plans)
