-- ===== src/Lifecycle/Reconcile/Apply.antt =====
-- `apply_generation`: the plans are carried out one by one, in the order of their ids.
use realm.Base.{
  ℕ, ◌+◌, String, ◌<>◌, List, [], ◌∷◌, ◌++◌, Option, none, some, Bool, false, not, ◌&&◌,
  if◌then◌else◌, any, map, Result, ok, err,
}
use realm.Base.Map
use realm.Base.Map.{Map}
use realm.Endpoint.{Proto, tcp, EndpointId, id_key, proto_eq}
use realm.Lifecycle.Manager.{
  System, Manager, EndpointSpec, Generation, SlotAction, SlotOutcome, is_failed,
}
use realm.Lifecycle.Manager.Table.{contains, ids}
use realm.Lifecycle.Manager.Apply
use realm.Lifecycle.Reconcile.{
  Source, DesiredEndpoint, Plan, Reconciler, EndpointResult, ReconcileResponse, GenerationState,
  applied, partially_applied,
}
use realm.Lifecycle.Reconcile.Planning.{
  Draft, draft_all, unchanged_incumbents, mark_duplicates, plan_deletes, protos_of, serving,
}
use realm.Lifecycle.Reconcile.Release.{release_contended_addresses}

abbrev pub into_result : EndpointId → SlotOutcome → EndpointResult
into_result id o = record {
  id = id;
  proto = o.proto;
  action = o.action;
  error = o.error;
  retryable = o.retryable;
}

unfoldable pub into_results : EndpointId → List SlotOutcome → List EndpointResult
into_results id [] = []
into_results id (o ∷ os) = into_result id o ∷ into_results id os

abbrev pub unchanged_result : EndpointId → Proto → EndpointResult
unchanged_result id p = record {
  id = id;
  proto = p;
  action = SlotAction.unchanged;
  error = none;
  retryable = none;
}

abbrev pub invalid_result : EndpointId → String → Proto → EndpointResult
invalid_result id e p = record {
  id = id;
  proto = p;
  action = SlotAction.failed;
  error = some e;
  retryable = some false;
}

abbrev pub or_tcp : List Proto → List Proto
or_tcp [] = tcp ∷ []
or_tcp (p ∷ ps) = p ∷ ps

-- The state of the application loop.
pub record Run (S : Type 0) : Type 0 where
  pub manager : Manager
  pub desired : Map EndpointId S
  pub results : List EndpointResult
  pub calls : ℕ

abbrev pub restored_error : Option String → String
restored_error (some e) = e <> " (previous listener restored)"
restored_error none = "move failed, previous listener restored"

-- The failures of the id whose protocol is served again say so.
unfoldable pub annotate : EndpointId → List Proto → List EndpointResult → List EndpointResult
annotate id ps [] = []
annotate id ps (r ∷ rs) =
    let rest = annotate id ps rs in
    (if id_key.keq r.id id && any (proto_eq r.proto) ps && is_failed r.action
      then record r { error = some (restored_error r.error) }
      else r)
    ∷ rest

abbrev pub outcome_failed : List SlotOutcome → Bool
outcome_failed os = any (λ o. is_failed o.action) os

module _ {S : Type 0} (sys : System) (src : Source S) (old : Map EndpointId S) (g : Generation)
    (released : List EndpointId) where
  abbrev pub restore_applied : EndpointId → Run S → Manager × List SlotOutcome → Run S
  restore_applied id r (m, os) =
      if outcome_failed os
      then record r { manager = m }
      else record r { manager = m; results = annotate id (map (λ o. o.proto) os) r.results }

  abbrev pub restore_built : EndpointId → Run S → Result EndpointSpec String → Run S
  restore_built id r (err e) = r
  restore_built id r (ok built) = restore_applied id r (Apply.apply sys id g built r.manager)

  unfoldable pub restore_released : EndpointId → Option S → Run S → Run S
  unfolding annotate
  restore_released id none r = r
  restore_released id (some previous) r =
      restore_built id (record r { calls = r.calls + 1 }) (src.build r.calls previous)

  -- What stays applied under an id whose application failed.
  abbrev pub keep_desired : EndpointId → Option S → Run S → Run S
  keep_desired id none r =
      if serving r.manager id then r else record r { desired = Map.remove id r.desired }
  keep_desired id (some prev) r = record r {
    desired =
        if serving r.manager id then Map.insert id prev r.desired else Map.remove id r.desired;
  }

  unfoldable pub after_failure : EndpointId → Run S → Run S
  after_failure id r =
      let previous = Map.get old id in
      keep_desired id previous (
        if any (id_key.keq id) released && not (serving r.manager id)
        then restore_released id previous r
        else r)

  unfoldable pub run_built : EndpointId → EndpointSpec → Run S → Run S
  unfolding after_failure into_results
  run_built id built r =
      let (m, os) = Apply.apply sys id g built r.manager in
      let r' : Run S = record r { manager = m; results = r.results ++ into_results id os } in
      if outcome_failed os then after_failure id r' else r'

  abbrev pub keep_invalid : EndpointId → Run S → Map EndpointId S
  keep_invalid id r =
      if not (contains r.manager id)
      then Map.remove id r.desired
      else elim (Map.get old id) [ none ↦ r.desired | some prev ↦ Map.insert id prev r.desired ]

  unfoldable pub run_plan : EndpointId → Plan → Run S → Run S
  unfolding run_built into_results
  run_plan id Plan.unchanged r = record r {
    results = r.results ++ map (unchanged_result id) (protos_of r.manager id);
  }
  run_plan id (Plan.invalid e) r = record r {
    desired = keep_invalid id r;
    results = r.results ++ map (invalid_result id e) (or_tcp (protos_of r.manager id));
  }
  run_plan id (Plan.start built) r = run_built id built r
  run_plan id (Plan.replace built) r = run_built id built r
  run_plan id Plan.delete r =
      let (m, os) = Apply.remove id r.manager in
      record r {
        manager = m;
        desired = Map.remove id r.desired;
        results = r.results ++ into_results id os;
      }

  unfoldable pub run_plans : Map EndpointId Plan → Run S → Run S
  unfolding run_plan
  run_plans [] r = r
  run_plans ((id, plan) ∷ ps) r = run_plans ps (run_plan id plan r)

abbrev pub generation_state : List EndpointResult → GenerationState
generation_state rs = if any (λ r. is_failed r.action) rs then partially_applied else applied

module _ {S : Type 0} (sys : System) (src : Source S) where
  -- The plans of a generation, and the state of the loop that drew them up.
  unfoldable pub planned : Manager → Map EndpointId S → List (DesiredEndpoint S) → Draft S → Draft S
  planned m old endpoints start =
      let d = draft_all src m old endpoints start in
      let marked = mark_duplicates sys (unchanged_incumbents m d.plans []) d.plans in
      record d { plans = plan_deletes (ids m) marked }

  unfoldable pub apply_generation :
      Generation
      → List (DesiredEndpoint S)
      → Map EndpointId String
      → Reconciler S
      → Reconciler S × ReconcileResponse
  unfolding planned
  apply_generation g endpoints unrefreshed r =
      let start : Draft S = record {
        desired = [];
        plans = [];
        unrefreshed = unrefreshed;
        calls = r.calls;
      } in
      let d = planned r.manager r.applied endpoints start in
      let (m, released) = release_contended_addresses r.manager d.plans in
      let first : Run S = record {
        manager = m;
        desired = d.desired;
        results = [];
        calls = d.calls;
      } in
      let done = run_plans sys src r.applied g released d.plans first in
      (
        record r { manager = done.manager; applied = done.desired; calls = done.calls },
        record { generation = g; state = generation_state done.results; results = done.results },
      )
