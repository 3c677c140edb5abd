-- ===== src/Lifecycle/Tests/Submissions.antt =====
-- Submissions of descriptions that are port numbers.
use realm.Base.{
  ℕ, ◌+◌, ◌≤◌, ◌*◌, List, [], ◌∷◌, ◌≡◌, refl, true, false, some, none, ok, err, nat_eq,
  if◌then◌else◌,
}
use realm.Endpoint.{tcp, EndpointId}
use realm.Lifecycle.Manager.{SlotAction}
use realm.Lifecycle.Manager.Apply.Account.{IsAccounted}
use realm.Lifecycle.Manager.Apply.Everywhere.{Everywhere}
use realm.Lifecycle.Manager.Status.{IsLive}
use realm.Lifecycle.Manager.Status.Reported.{ReportsPlaced}
use realm.Lifecycle.Reconcile.{
  Source, ReconcileRequest, Reconciler, ReconcileResponse, applied, stale, not_ready,
}
use realm.Lifecycle.Reconcile.Submit.{fresh, refreshed}
use realm.Lifecycle.Reconcile.Restore.{shutdown, status}
use realm.Lifecycle.Reconcile.Submit.Refusals.{reconcile_refused}
use realm.Lifecycle.Reconcile.Submit.Record.{Recorded, reconcile-Accepts, reconcile-Advances}
use realm.Lifecycle.Reconcile.Submit.Replay.{reconcile_again}
use realm.Lifecycle.Reconcile.Submit.Reuse.{reconcile-reused}
use realm.Base.Map
use realm.Lifecycle.Cohort.{start_draining}
use realm.Lifecycle.Manager.{protos}
use realm.Lifecycle.Manager.Table.{
  entry, slot, validate, update_slots, spawn_drain, ids, active_endpoint, refresh_slot,
  refresh_entry, refresh_entries, refresh, prune,
}
use realm.Lifecycle.Manager.Start.{start_endpoint}
use realm.Lifecycle.Manager.Replace.{apply_slot}
use realm.Lifecycle.Manager.Apply
use realm.Lifecycle.Reconcile.Planning.{
  all_running, protos_of, serving, draft_step, draft_all, unchanged_incumbents, see_protos,
  see_plans, mark_sockets, mark_duplicates, plan_deletes,
}
use realm.Lifecycle.Reconcile.Release.{wanted, releasing, release_each, release_contended_addresses}
use realm.Lifecycle.Reconcile.Apply.{
  into_results, annotate, restore_released, after_failure, run_built, run_plan, run_plans, planned,
  apply_generation,
}
use realm.Lifecycle.Reconcile.Submit.{
  place_pair, sorted_pairs, persist, digest_of, refresh_all, serializes_alike, material_drifted,
  replayed, commit, admitted, reconcile,
}
use realm.Lifecycle.Manager.Replace.Account.{opened, closed}
use realm.Lifecycle.Reconcile.Reach.{Reachable, tasks_end}
use realm.Lifecycle.Reconcile.Reach.Lasts.{Reachable-IsAccounted, status-Live}
use realm.Lifecycle.Reconcile.Reach.Answers.{Reachable-Recorded}
use realm.Lifecycle.Reconcile.Reach.Shutdown.{shutdown_joins}
use realm.Lifecycle.Tests.{system, described}
use realm.Lifecycle.Tests.Tables.{place}

abbrev sum : List (EndpointId × ℕ) → ℕ
sum [] = 0
sum ((id, s) ∷ es) = s + 10 * sum es

abbrev first : List ℕ → ℕ
first [] = 0
first (n ∷ ns) = n

abbrev pub source : Source ℕ
source = record {
  same = nat_eq;
  refresh = λ n s. ok s;
  build = λ n s. if nat_eq s 0 then err "no such port" else ok (described s);
  to_vec = λ s. some (s ∷ []);
  to_vec_all = λ es. some (sum es ∷ []);
  hash = first;
}

abbrev pub wants : ℕ → ℕ → ReconcileRequest ℕ
wants g port = record { generation = g; endpoints = record { id = "a"; spec = port } ∷ [] }

abbrev pub start : Reconciler ℕ
start = fresh true true

abbrev pub started : Reconciler ℕ
started = (reconcile source system (wants 1 1) start).0

abbrev pub accepted : ReconcileResponse
accepted = record {
  generation = 1;
  state = applied;
  results =
      record { id = "a"; proto = tcp; action = SlotAction.created; error = none; retryable = none }
      ∷ [];
}

reconcile_refused_example :
    (reconcile source system (wants 1 1) (fresh false true)).0 ≡ record (fresh false true) {
      calls = ((reconcile source system (wants 1 1) (fresh false true)).0).calls;
    }
unfolding reconcile
reconcile_refused_example =
    reconcile_refused source system (wants 1 1) (fresh false true) not_ready refl

-- The first submission is accepted.
pub first_accepted : (reconcile source system (wants 1 1) start).1 ≡ ok accepted
unfolding Map.get Map.contains Map.insert Map.remove start_draining protos slot validate
    update_slots spawn_drain refresh_slot refresh_entry refresh_entries refresh prune start_endpoint
    apply_slot Apply.admit Apply.apply_proto Apply.apply_valid Apply.apply all_running protos_of
    serving draft_step draft_all unchanged_incumbents see_protos see_plans mark_sockets
    mark_duplicates plan_deletes wanted releasing release_each release_contended_addresses
    into_results annotate restore_released after_failure run_built run_plan run_plans planned
    apply_generation place_pair sorted_pairs persist digest_of refresh_all serializes_alike
    material_drifted replayed commit admitted reconcile ids active_endpoint
first_accepted = refl

started-Recorded : Recorded started started.last
unfolding reconcile replayed commit
started-Recorded = (reconcile-Accepts source system (wants 1 1) start tt).3

nothing_drifted :
    material_drifted source started.applied (refreshed source system (wants 1 1) started).endpoints
    ≡ none
unfolding Map.get Map.contains Map.insert Map.remove start_draining protos slot validate
    update_slots spawn_drain refresh_slot refresh_entry refresh_entries refresh prune start_endpoint
    apply_slot Apply.admit Apply.apply_proto Apply.apply_valid Apply.apply all_running protos_of
    serving draft_step draft_all unchanged_incumbents see_protos see_plans mark_sockets
    mark_duplicates plan_deletes wanted releasing release_each release_contended_addresses
    into_results annotate restore_released after_failure run_built run_plan run_plans planned
    apply_generation place_pair sorted_pairs persist digest_of refresh_all serializes_alike
    material_drifted replayed commit admitted reconcile ids active_endpoint
nothing_drifted = refl

reconcile_again_example :
    reconcile source system (wants 1 1) started
    ≡ (record started { calls = (refreshed source system (wants 1 1) started).calls }, ok accepted)
unfolding refresh_all
reconcile_again_example =
    reconcile_again source system (wants 1 1) start accepted tt first_accepted refl nothing_drifted

advanced : ((reconcile source system (wants 2 3) started).0).active ≡ some 2
unfolding Map.get Map.contains Map.insert Map.remove start_draining protos slot validate
    update_slots spawn_drain refresh_slot refresh_entry refresh_entries refresh prune start_endpoint
    apply_slot Apply.admit Apply.apply_proto Apply.apply_valid Apply.apply all_running protos_of
    serving draft_step draft_all unchanged_incumbents see_protos see_plans mark_sockets
    mark_duplicates plan_deletes wanted releasing release_each release_contended_addresses
    into_results annotate restore_released after_failure run_built run_plan run_plans planned
    apply_generation place_pair sorted_pairs persist digest_of refresh_all serializes_alike
    material_drifted replayed commit admitted reconcile ids active_endpoint
advanced = refl

started_active : started.active ≡ some 1
unfolding Map.get Map.contains Map.insert Map.remove start_draining protos slot validate
    update_slots spawn_drain refresh_slot refresh_entry refresh_entries refresh prune start_endpoint
    apply_slot Apply.admit Apply.apply_proto Apply.apply_valid Apply.apply all_running protos_of
    serving draft_step draft_all unchanged_incumbents see_protos see_plans mark_sockets
    mark_duplicates plan_deletes wanted releasing release_each release_contended_addresses
    into_results annotate restore_released after_failure run_built run_plan run_plans planned
    apply_generation place_pair sorted_pairs persist digest_of refresh_all serializes_alike
    material_drifted replayed commit admitted reconcile ids active_endpoint
started_active = refl

reconcile-Advances_example : 1 ≤ 2
reconcile-Advances_example =
    reconcile-Advances source system (wants 2 3) started 1 2 started-Recorded started_active
      advanced

other_digest :
    nat_eq (digest_of source (wants 1 1).endpoints) (digest_of source (wants 1 2).endpoints) ≡ false
unfolding digest_of sorted_pairs place_pair
other_digest = refl

reconcile-reused_example : reconcile source system (wants 1 2) started ≡ (
  record started { calls = (refreshed source system (wants 1 2) started).calls },
  err (stale 1),
)
unfolding refresh_all
reconcile-reused_example =
    reconcile-reused source system (wants 1 1) (wants 1 2).endpoints start accepted tt
      first_accepted other_digest refl

-- One rule is submitted, its serving task ends, another generation comes, and a status report.
abbrev later : Reconciler ℕ
later =
    (status
      (reconcile source system (wants 2 2)
        (record started { manager = tasks_end "a" tcp true (λ d. false) started.manager })).0).0

later-Reachable : Reachable source system later
later-Reachable = Reachable.reported (
    Reachable.submitted (wants 2 2) (
      Reachable.ended "a" tcp true (λ d. false)
        (Reachable.submitted (wants 1 1) (Reachable.started true true))))

Reachable-IsAccounted_example : IsAccounted place later.manager
Reachable-IsAccounted_example = Reachable-IsAccounted place source system later later-Reachable

status-Live_example : Everywhere IsLive (status later).0.manager × ReportsPlaced (status later).1
status-Live_example = status-Live source system later later-Reachable

Reachable-Recorded_example : Recorded later later.last
Reachable-Recorded_example = Reachable-Recorded source system later later-Reachable

shutdown_joins_example :
    ((j : EndpointId) → entry (shutdown later).manager j ≡ none)
    × (closed place (shutdown later).manager.os.log ≡ opened place (shutdown later).manager.os.log)
shutdown_joins_example = shutdown_joins source system later place later-Reachable
