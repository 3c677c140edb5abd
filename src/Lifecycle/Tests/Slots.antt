-- ===== src/Lifecycle/Tests/Slots.antt =====
-- Runs of one slot.
use realm.Base.{◌≡◌, refl, some, none, true}
use realm.Endpoint.{tcp, udp}
use realm.Lifecycle.Manager.{SlotAction, outcome_ok, default_policy}
use realm.Lifecycle.Manager.Replace.{
  slot_step, apply_active, is_same, replace_same, replace_moved, moved, rebound,
}
use realm.Lifecycle.Manager.Replace.Again.{Keeps, slot_step_again, slot_step-Keeps}
use realm.Lifecycle.Manager.Replace.Printed.{slot_step-rebalanced}
use realm.Lifecycle.Manager.Table.{is_failed_state}
use realm.Lifecycle.Manager.Replace.Reverted.{slot_step_reverted}
use realm.Lb.{strategy}
use realm.Endpoint.Display.{
  show_endpoint, show_remote, show_extra, show_bind_opts, show_connect_opts, show_proxy_opts,
}
use realm.Lifecycle.Manager.Start.{start_endpoint, endpoint_unchanged, stop_active}
use realm.Lifecycle.Tests.{
  system, rule, balanced, described, no_events, serving_plane, serving_slot,
}

slot_step_again_example :
    slot_step system 3
      (described 1)
      udp
      default_policy
      (some (slot_step system 2 (described 1) udp default_policy none no_events).slot)
      no_events
    ≡ record {
      slot = (slot_step system 2 (described 1) udp default_policy none no_events).slot;
      os = no_events;
      outcome = outcome_ok udp SlotAction.unchanged;
    }
unfolding start_endpoint apply_active is_same endpoint_unchanged show_endpoint show_remote
    show_extra show_bind_opts show_connect_opts show_proxy_opts strategy replace_same replace_moved
    moved rebound stop_active
slot_step_again_example =
    slot_step_again system (described 1) udp default_policy 2 3 none no_events no_events refl

slot_step-Keeps_example :
    Keeps system
      (described 3)
      tcp
      default_policy
      serving_slot
      no_events
      (slot_step system 2 (described 3) tcp default_policy (some serving_slot) no_events)
unfolding start_endpoint apply_active is_same endpoint_unchanged show_endpoint show_remote
    show_extra show_bind_opts show_connect_opts show_proxy_opts strategy replace_same replace_moved
    moved rebound stop_active
slot_step-Keeps_example =
    slot_step-Keeps system (described 3) tcp default_policy 2 serving_slot serving_plane no_events
      refl refl refl

slot_step-rebalanced_example :
    slot_step system 2
      (record (described 1) { endpoint = rule 1 (balanced 2 1) })
      tcp
      default_policy
      (some serving_slot)
      no_events
    ≡ record { slot = serving_slot; os = no_events; outcome = outcome_ok tcp SlotAction.unchanged }
unfolding strategy
slot_step-rebalanced_example =
    slot_step-rebalanced system (record (described 1) { endpoint = rule 1 (balanced 2 1) }) tcp
      default_policy 2 (balanced 1 1) serving_slot serving_plane no_events refl refl refl refl

slot_step_reverted_example :
    let q =
      slot_step system 3
        (described 1)
        tcp
        default_policy
        (some
          (slot_step system 2 (described 3) tcp default_policy (some serving_slot) no_events).slot)
        no_events in
    (q.outcome ≡ outcome_ok tcp SlotAction.unchanged)
    × (q.slot.active ≡ some serving_plane)
    × (is_failed_state q.slot.state ≡ true)
unfolding start_endpoint apply_active is_same endpoint_unchanged show_endpoint show_remote
    show_extra show_bind_opts show_connect_opts show_proxy_opts strategy replace_same replace_moved
    moved rebound stop_active
slot_step_reverted_example =
    slot_step_reverted system (described 1) (described 3) tcp default_policy 2 3 serving_slot
      serving_plane no_events no_events refl refl refl refl
