-- ===== src/Control/Api/Tests.antt =====
-- Requests to the control interface.
use realm.Base.{[], ◌∷◌, refl, true, false, none, ok}
use mathlib.Core.List.Memᴰ
use realm.Base.Map
use realm.Lifecycle.Cohort.{start_draining}
use realm.Lifecycle.Manager.{EndpointSpec, new, protos}
use realm.Lifecycle.Manager.Table.{
  slot, validate, update_slots, spawn_drain, ids, active_endpoint, refresh_slot, refresh_entry,
  refresh_entries, refresh, prune,
}
use realm.Lifecycle.Manager.Start.{start_endpoint}
use realm.Lifecycle.Manager.Replace.{apply_slot}
use realm.Lifecycle.Manager.Apply
use realm.Lifecycle.Manager.Apply.Same.{AllLive}
use realm.Lifecycle.Reconcile.{Source}
use realm.Lifecycle.Reconcile.Planning.{
  all_running, protos_of, serving, draft_step, draft_all, unchanged_incumbents, see_protos,
  see_plans, mark_sockets, mark_duplicates, plan_deletes,
}
use realm.Lifecycle.Reconcile.Release.{wanted, releasing, release_each, release_contended_addresses}
use realm.Lifecycle.Reconcile.Apply.{
  into_results, annotate, restore_released, after_failure, run_built, run_plan, run_plans, planned,
  apply_generation,
}
use realm.Lifecycle.Reconcile.Submit.{
  fresh, place_pair, sorted_pairs, persist, digest_of, refresh_all, serializes_alike,
  material_drifted, replayed, commit, admitted, reconcile,
}
use realm.Lifecycle.Reconcile.Converge.{Wholly}
use realm.Lifecycle.Reconcile.Converge.Drafts.{BuildsTo}
use realm.Lifecycle.Tests.{system, described}
use realm.Conf.Full.{EndpointConf, normalized}
use realm.Conf.Tests.{slow, rule}
use realm.Control.Api.{Http, ApiState, DesiredStateDto, handle, json, request_of, submit_desired}
use realm.Control.Api.Answers.{IsHonest, handle-IsHonest}
use realm.Control.Api.Serves.{SaysApplied, put_desired, handle-serves}

-- Every description builds to one listener on port 1.
abbrev source : Source EndpointConf
source = record {
  same = λ a b. true;
  refresh = λ n s. ok s;
  build = λ n s. ok (described 1);
  to_vec = λ s. none;
  to_vec_all = λ es. none;
  hash = λ bytes. 0;
}

abbrev document : DesiredStateDto
document = record { generation = 1; endpoints = record { id = "a"; conf = rule } ∷ [] }

abbrev http : Http
http = record {
  from_slice = λ bytes. ok document;
  too_long = "length limit exceeded";
  writes = λ body. true;
  transport_capabilities = [];
}

abbrev state : ApiState
state = record { reconciler = fresh true false; global = slow }

handle-IsHonest_example :
    IsHonest state (handle http system.printer source system state (put_desired (1 ∷ [])))
handle-IsHonest_example =
    handle-IsHonest http system.printer state source system (put_desired (1 ∷ []))

new-AllLive : AllLive new
unfolding Map.get
new-AllLive id = tt

says_applied : SaysApplied (handle http system.printer source system state (put_desired (1 ∷ []))).1
unfolding Map.get Map.contains Map.insert Map.remove start_draining protos slot validate
    update_slots spawn_drain refresh_slot refresh_entry refresh_entries refresh prune start_endpoint
    apply_slot Apply.admit Apply.apply_proto Apply.apply_valid Apply.apply all_running protos_of
    serving draft_step draft_all unchanged_incumbents see_protos see_plans mark_sockets
    mark_duplicates plan_deletes wanted releasing release_each release_contended_addresses
    into_results annotate restore_released after_failure run_built run_plan run_plans planned
    apply_generation place_pair sorted_pairs persist digest_of refresh_all serializes_alike
    material_drifted replayed commit admitted reconcile ids active_endpoint handle json
    submit_desired request_of
says_applied = (_, refl, refl)

handle-serves_example :
    (b : EndpointSpec) × BuildsTo source
      (state.reconciler).manager
      (state.reconciler).applied
      (normalized slow rule)
      b
    × Wholly
        ((handle http system.printer source system state (put_desired (1 ∷ []))).0.reconciler
          ).manager
        "a"
        b
unfolding refresh_all request_of
handle-serves_example =
    handle-serves http system.printer source system state (1 ∷ []) document refl refl new-AllLive
      refl says_applied (record { id = "a"; spec = normalized slow rule }) (Memᴰ.head refl)
