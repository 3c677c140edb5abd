-- ===== src/Lifecycle/Manager/Replace/Printed.antt =====
-- What the comparison of the printed endpoints cannot see.
use realm.Base.{◌≡◌, refl, is_some, Option, none, some, true}
use realm.Lb.{Balancer, strategy}
use realm.Endpoint.{Proto, Endpoint}
use realm.Endpoint.Display.{Printer, show_endpoint, show_connect_opts}
use realm.Lifecycle.Manager.{
  System, Os, Slot, SlotAction, outcome_ok, DrainPolicy, EndpointSpec, Active, Generation,
}
use realm.Lifecycle.Manager.Start.{endpoint_unchanged}
use realm.Lifecycle.Manager.Replace.{is_same, slot_step}
use realm.Lifecycle.Manager.Replace.Again.{
  dispatch_serving, material_eq_refl, endpoint_unchanged_refl,
}

-- The endpoint with another balancer.
abbrev pub rebalanced : Balancer → Endpoint → Endpoint
rebalanced b e = record e { conn_opts = record (e.conn_opts) { balancer = b } }

show-rebalanced :
    (io : Printer) (b : Balancer) (e : Endpoint)
    → strategy b ≡ strategy e.conn_opts.balancer
    → show_endpoint io (rebalanced b e) ≡ show_endpoint io e
unfolding show_endpoint show_connect_opts
show-rebalanced io b e h = rw h refl

module _ (sys : System) (spec : EndpointSpec) (p : Proto) (drain : DrainPolicy) where
  is_some_of : (x : Option Active) (a : Active) → x ≡ some a → is_some x ≡ true
  is_some_of none a h = cc
  is_some_of (some b) a h = refl

  rebalanced-is_same :
      (g : Generation) (b : Balancer) (s : Slot)
      → s.material ≡ spec.material
      → s.endpoint ≡ rebalanced b spec.endpoint
      → strategy b ≡ strategy spec.endpoint.conn_opts.balancer
      → is_same sys g spec p drain s ≡ true
  unfolding is_same endpoint_unchanged
  rebalanced-is_same g b s m e h =
      rw (m, e, material_eq_refl spec.material, show-rebalanced sys.printer b spec.endpoint h)
        (unfold endpoint_unchanged in endpoint_unchanged_refl sys spec.endpoint)

  -- A slot serves an endpoint that differs from the one described in nothing but the
  -- balancer, which follows the same strategy (with other weights, say), and the material
  -- agrees: bringing it to the description does nothing, the slot keeps the old balancer,
  -- and the outcome is `unchanged`.
  pub slot_step-rebalanced :
      (g : Generation) (b : Balancer) (s : Slot) (a : Active) (os : Os)
      → s.active ≡ some a
      → s.material ≡ spec.material
      → s.endpoint ≡ rebalanced b spec.endpoint
      → strategy b ≡ strategy spec.endpoint.conn_opts.balancer
      → slot_step sys g spec p drain (some s) os
        ≡ record { slot = s; os = os; outcome = outcome_ok p SlotAction.unchanged }
  slot_step-rebalanced g b s a os h m e k =
      dispatch_serving sys spec p drain g s s.active os (is_some_of s.active a h)
        (rebalanced-is_same g b s m e k)
