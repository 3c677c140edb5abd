-- ===== src/Lifecycle/Tests/Converges.antt =====
-- Submissions that are answered `applied`.
use realm.Base.{ℕ, [], ◌∷◌, ◌≡◌, refl, false, none, ok}
use mathlib.Core.List.Memᴰ
use realm.Base.Map
use realm.Endpoint.{tcp}
use realm.Lifecycle.Cohort.{start_draining}
use realm.Lifecycle.Manager.{SlotAction, EndpointSpec, new, protos}
use realm.Lifecycle.Manager.Table.{
  entry, slot, validate, update_slots, spawn_drain, ids, active_endpoint, refresh_slot,
  refresh_entry, refresh_entries, refresh, prune, drain_policy,
}
use realm.Lifecycle.Manager.Start.{start_endpoint, stop_active}
use realm.Lifecycle.Manager.Replace.{apply_slot}
use realm.Lifecycle.Manager.Apply
use realm.Lifecycle.Manager.Apply.{stop_slot, detach_slot}
use realm.Lifecycle.Manager.Apply.Same.{AllLive}
use realm.Lifecycle.Reconcile.{ReconcileRequest, ReconcileResponse, applied}
use realm.Lifecycle.Reconcile.Planning.{
  all_running, protos_of, serving, draft_step, draft_all, unchanged_incumbents, see_protos,
  see_plans, mark_sockets, mark_duplicates, plan_deletes,
}
use realm.Lifecycle.Reconcile.Release.{wanted, releasing, release_each, release_contended_addresses}
use realm.Lifecycle.Reconcile.Apply.{
  into_results, annotate, restore_released, after_failure, run_built, run_plan, run_plans, planned,
  apply_generation,
}
use realm.Lifecycle.Reconcile.Submit.{
  place_pair, sorted_pairs, persist, digest_of, refresh_all, serializes_alike, material_drifted,
  replayed, commit, admitted, reconcile, is_active,
}
use realm.Lifecycle.Reconcile.Submit.Listeners.{reconcile-kept}
use realm.Lifecycle.Reconcile.Converge.{Wholly, live_Kept}
use realm.Lifecycle.Reconcile.Converge.Drafts.{BuildsTo}
use realm.Lifecycle.Reconcile.Converge.Submitted.{reconcile-serves, reconcile-deletes}
use realm.Lifecycle.Tests.{system}
use realm.Lifecycle.Tests.Submissions.{source, wants, start, started, accepted, first_accepted}

new-AllLive : AllLive new
unfolding Map.get
new-AllLive id = tt

started-AllLive : AllLive started.manager
started-AllLive =
    reconcile-kept system AllLive (live_Kept system) source (wants 1 1) start new-AllLive

reconcile-serves_example :
    (b : EndpointSpec) × BuildsTo source start.manager start.applied 1 b
    × Wholly (reconcile source system (wants 1 1) start).0.manager "a" b
unfolding refresh_all
reconcile-serves_example =
    reconcile-serves source system (wants 1 1) start accepted new-AllLive refl first_accepted refl
      (record { id = "a"; spec = 1 }) (Memᴰ.head refl)

-- A generation without endpoints.
abbrev nothing : ReconcileRequest ℕ
nothing = record { generation = 2; endpoints = [] }

abbrev emptied : ReconcileResponse
emptied = record {
  generation = 2;
  state = applied;
  results =
      record { id = "a"; proto = tcp; action = SlotAction.deleted; error = none; retryable = none }
      ∷ [];
}

emptied_accepted : (reconcile source system nothing started).1 ≡ ok emptied
unfolding Map.get Map.contains Map.insert Map.remove start_draining protos slot validate
    update_slots spawn_drain refresh_slot refresh_entry refresh_entries refresh prune start_endpoint
    apply_slot Apply.admit Apply.apply_proto Apply.apply_valid Apply.apply all_running protos_of
    serving draft_step draft_all unchanged_incumbents see_protos see_plans mark_sockets
    mark_duplicates plan_deletes wanted releasing release_each release_contended_addresses
    into_results annotate restore_released after_failure run_built run_plan run_plans planned
    apply_generation place_pair sorted_pairs persist digest_of refresh_all serializes_alike
    material_drifted replayed commit admitted reconcile ids active_endpoint Apply.remove stop_slot
    detach_slot stop_active drain_policy
emptied_accepted = refl

active_one : is_active source started.active 2 ≡ false
unfolding Map.get Map.contains Map.insert Map.remove start_draining protos slot validate
    update_slots spawn_drain refresh_slot refresh_entry refresh_entries refresh prune start_endpoint
    apply_slot Apply.admit Apply.apply_proto Apply.apply_valid Apply.apply all_running protos_of
    serving draft_step draft_all unchanged_incumbents see_protos see_plans mark_sockets
    mark_duplicates plan_deletes wanted releasing release_each release_contended_addresses
    into_results annotate restore_released after_failure run_built run_plan run_plans planned
    apply_generation place_pair sorted_pairs persist digest_of refresh_all serializes_alike
    material_drifted replayed commit admitted reconcile ids active_endpoint Apply.remove stop_slot
    detach_slot stop_active drain_policy
active_one = refl

reconcile-deletes_example : entry (reconcile source system nothing started).0.manager "a" ≡ none
reconcile-deletes_example =
    reconcile-deletes source system nothing started emptied started-AllLive active_one
      emptied_accepted refl "a" refl
