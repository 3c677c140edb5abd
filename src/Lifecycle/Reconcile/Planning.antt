-- ===== src/Lifecycle/Reconcile/Planning.antt =====
-- What is decided before anything is applied: validation, and addresses that are asked for twice.
use realm.Base.{
  ℕ, ◌+◌, String, ◌<>◌, List, [], ◌∷◌, ◌++◌, Option, none, some, Bool, ◌&&◌, is_some, if◌then◌else◌,
  Result, ok, err, all, any, retain,
}
use realm.Base.Map
use realm.Base.Map.{Map}
use realm.Endpoint.{Proto, tcp, udp, EndpointId, id_key, Socket, socket_key, SocketAddr, as_str}
use realm.Lifecycle.Manager.{System, Manager, EndpointSpec, protos}
use realm.Lifecycle.Manager.Table.{active_endpoint}
use realm.Lifecycle.Reconcile.{Source, DesiredEndpoint, Plan}

abbrev pub both : List Proto
both = tcp ∷ udp ∷ []

-- Whether every protocol asked for is running.
unfoldable pub all_running : Manager → EndpointId → EndpointSpec → Bool
all_running m id built = all (λ p. is_some (active_endpoint m id p)) (protos built)

unfoldable pub protos_of : Manager → EndpointId → List Proto
protos_of m id = retain (λ p. is_some (active_endpoint m id p)) both

unfoldable pub serving : Manager → EndpointId → Bool
serving m id = any (λ p. is_some (active_endpoint m id p)) both

-- The state of the loop over the submitted endpoints.
pub record Draft (S : Type 0) : Type 0 where
  pub desired : Map EndpointId S
  pub plans : Map EndpointId Plan
  pub unrefreshed : Map EndpointId String
  pub calls : ℕ

module _ {S : Type 0} (src : Source S) (m : Manager) (applied : Map EndpointId S) where
  -- The decision for an endpoint that builds, by what is applied under its id.
  abbrev pub decide : EndpointId → S → EndpointSpec → Option S → Plan
  decide id spec built none = Plan.start built
  decide id spec built (some previous) =
      if src.same previous spec && all_running m id built
      then Plan.unchanged
      else Plan.replace built

  abbrev pub draft_built : EndpointId → S → Draft S → Result EndpointSpec String → Draft S
  draft_built id spec d (err e) = record d {
    plans = Map.insert id (Plan.invalid e) d.plans;
    calls = d.calls + 1;
  }
  draft_built id spec d (ok built) = record d {
    desired = Map.insert id spec d.desired;
    plans = Map.insert id (decide id spec built (Map.get applied id)) d.plans;
    calls = d.calls + 1;
  }

  abbrev pub draft_fresh : EndpointId → S → Draft S → Option String → Draft S
  draft_fresh id spec d (some e) = record d {
    plans = Map.insert id (Plan.invalid e) d.plans;
    unrefreshed = Map.remove id d.unrefreshed;
  }
  draft_fresh id spec d none = draft_built id spec d (src.build d.calls spec)

  -- The body of the loop.
  unfoldable pub draft_step : DesiredEndpoint S → Draft S → Draft S
  draft_step e d =
      if Map.contains d.plans e.id
      then record d {
        plans =
            Map.insert e.id
              (Plan.invalid ("duplicate endpoint id `" <> e.id <> "` in one generation")) d.plans;
      }
      else draft_fresh e.id e.spec d (Map.get d.unrefreshed e.id)

  unfoldable pub draft_all : List (DesiredEndpoint S) → Draft S → Draft S
  unfolding draft_step
  draft_all [] d = d
  draft_all (e ∷ es) d = draft_all es (draft_step e d)

-- The addresses still held by endpoints that stay as they are.
abbrev pub incumbent : Manager → EndpointId → Proto → Map Socket EndpointId → Map Socket EndpointId
incumbent m id p acc = elim (active_endpoint m id p) [
  | none ↦ acc
  | some ep ↦ Map.insert (ep.laddr, p) id acc
]

abbrev pub incumbents_of :
    Manager → EndpointId → Plan → Map Socket EndpointId → Map Socket EndpointId
incumbents_of m id Plan.unchanged acc = incumbent m id udp (incumbent m id tcp acc)
incumbents_of m id (Plan.start b) acc = acc
incumbents_of m id (Plan.replace b) acc = acc
incumbents_of m id Plan.delete acc = acc
incumbents_of m id (Plan.invalid e) acc = acc

unfoldable pub unchanged_incumbents :
    Manager → Map EndpointId Plan → Map Socket EndpointId → Map Socket EndpointId
unchanged_incumbents m [] acc = acc
unchanged_incumbents m ((id, plan) ∷ ps) acc =
    unchanged_incumbents m ps (incumbents_of m id plan acc)

-- `Plan::Start { built } | Plan::Replace { built }`.
abbrev pub built_of : Plan → Option EndpointSpec
built_of (Plan.start b) = some b
built_of (Plan.replace b) = some b
built_of Plan.unchanged = none
built_of Plan.delete = none
built_of (Plan.invalid e) = none

abbrev pub push_seen :
    Socket → EndpointId → Map Socket (List EndpointId) → Map Socket (List EndpointId)
push_seen s id seen = elim (Map.get seen s) [
  | none ↦ Map.insert s (id ∷ []) seen
  | some ids ↦ Map.insert s (ids ++ id ∷ []) seen
]

unfoldable pub see_protos :
    SocketAddr
    → EndpointId
    → List Proto
    → Map Socket (List EndpointId)
    → Map Socket (List EndpointId)
see_protos a id [] seen = seen
see_protos a id (p ∷ ps) seen = see_protos a id ps (push_seen (a, p) id seen)

unfoldable pub see_plans :
    Map EndpointId Plan → Map Socket (List EndpointId) → Map Socket (List EndpointId)
see_plans [] seen = seen
see_plans ((id, plan) ∷ ps) seen =
    see_plans ps (elim (built_of plan) [
      | none ↦ seen
      | some b ↦ see_protos b.endpoint.laddr id (protos b) seen
    ])

abbrev pub fail_all : String → List EndpointId → Map EndpointId Plan → Map EndpointId Plan
fail_all e [] plans = plans
fail_all e (id ∷ ids) plans = fail_all e ids (Map.insert id (Plan.invalid e) plans)

module _ (sys : System) (incumbents : Map Socket EndpointId) where
  abbrev duplicate_error : Socket → String
  duplicate_error (a, p) =
      "duplicate listen address "
      <> sys.printer.show_addr a
      <> " for "
      <> as_str p
      <> " in one generation"

  abbrev served_error : Socket → EndpointId → String
  served_error (a, p) id =
      "duplicate listen address "
      <> sys.printer.show_addr a
      <> " for "
      <> as_str p
      <> ": already served by endpoint `"
      <> id
      <> "`"

  abbrev pub against_incumbent :
      Socket → EndpointId → Option EndpointId → Map EndpointId Plan → Map EndpointId Plan
  against_incumbent s id none plans = plans
  against_incumbent s id (some other) plans =
      if id_key.keq id other
      then plans
      else Map.insert id (Plan.invalid (served_error s other)) plans

  -- The ids that ask for one socket.
  abbrev pub mark_socket : Socket → List EndpointId → Map EndpointId Plan → Map EndpointId Plan
  mark_socket s [] plans = plans
  mark_socket s (id ∷ []) plans = against_incumbent s id (Map.get incumbents s) plans
  mark_socket s (id ∷ id' ∷ ids) plans = fail_all (duplicate_error s) (id ∷ id' ∷ ids) plans

  unfoldable pub mark_sockets :
      Map Socket (List EndpointId) → Map EndpointId Plan → Map EndpointId Plan
  mark_sockets [] plans = plans
  mark_sockets ((s, ids) ∷ seen) plans = mark_sockets seen (mark_socket s ids plans)

  unfoldable pub mark_duplicates : Map EndpointId Plan → Map EndpointId Plan
  unfolding mark_sockets see_plans see_protos
  mark_duplicates plans = mark_sockets (see_plans plans []) plans

-- Every id that is held and not declared is deleted.
unfoldable pub plan_deletes : List EndpointId → Map EndpointId Plan → Map EndpointId Plan
plan_deletes [] plans = plans
plan_deletes (id ∷ ids) plans =
    plan_deletes ids (if Map.contains plans id then plans else Map.insert id Plan.delete plans)
