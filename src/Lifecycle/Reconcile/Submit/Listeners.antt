-- ===== src/Lifecycle/Reconcile/Submit/Listeners.antt =====
-- `reconcile`: properties of the manager that its own calls keep.
use realm.Base.{
  ℕ, ◌+◌, String, List, [], ◌∷◌, Option, none, some, Bool, true, false, not, Bool-cases, inl, inr,
  Result, ok, err, if◌then◌else◌, ◌&&◌, any,
}
use realm.Base.Map
use realm.Base.Map.{Map}
use realm.Endpoint.{EndpointId, Proto, Socket, socket_eq, id_key}
use realm.Lifecycle.Manager.{System, Manager, EndpointSpec, Generation, SlotOutcome}
use realm.Lifecycle.Manager.Apply
use realm.Lifecycle.Manager.Apply.Account.{IsAccounted, stop_accept-IsAccounted}
use realm.Lifecycle.Manager.Apply.Ledger.{apply-IsAccounted, remove-IsAccounted}
use realm.Lifecycle.Manager.Apply.Invariant.{
  Coherent, apply-Coherent, remove-Coherent, stop_accept-Coherent,
}
use realm.Lifecycle.Reconcile.{
  Source, DesiredEndpoint, ReconcileRequest, Reconciler, ReconcileResponse, ReconcileError, Plan,
}
use realm.Lifecycle.Reconcile.Planning.{serving}
use realm.Lifecycle.Reconcile.Release.{
  Releasing, releasing, release_each, release_wanted, release_contended_addresses, wanted,
}
use realm.Lifecycle.Reconcile.Apply.{
  Run, apply_generation, run_plan, run_plans, run_built, after_failure, restore_released,
  restore_applied, restore_built, keep_desired, outcome_failed,
}
use realm.Lifecycle.Reconcile.Submit.{
  Refreshed, reconcile, admitted, submit, commit, persist, replayed, digest_of, refreshed, is_older,
  gated,
}

-- A property of managers that their calls keep.
pub record Kept (sys : System) (P : Manager → Type 0) : Type 0 where
  pub applies :
      (id : EndpointId) (g : Generation) (spec : EndpointSpec) (m : Manager)
      → P m
      → P (Apply.apply sys id g spec m).0
  pub removes : (id : EndpointId) (m : Manager) → P m → P (Apply.remove id m).0
  pub stops :
      (id : EndpointId) (p : Proto) (d : Option ℕ) (m : Manager)
      → P m
      → P (Apply.stop_accept id p d m).0

module _ (sys : System) (P : Manager → Type 0) (k : Kept sys P) where
  release_each-kept :
      (ws : List Socket) (rs : List Releasing) (m : Manager) → P m → P (release_each ws rs m).0
  unfolding release_each
  release_each-kept ws [] m h = h
  release_each-kept ws (r ∷ rs) m h = elim (Bool-cases (any (socket_eq (r.laddr, r.proto)) ws)) [
    | inl hit ↦ rw hit (release_each-kept ws rs _ (k.stops r.id r.proto _ m h))
    | inr miss ↦ rw miss (release_each-kept ws rs m h)
  ]

  pub release-kept :
      (m : Manager) (ps : Map EndpointId Plan) → P m → P (release_contended_addresses m ps).0
  unfolding release_contended_addresses
  release-kept m ps h = go (wanted m ps)
    where
      go : (ws : List Socket) → P (release_wanted m ps ws).0
      go [] = h
      go (w ∷ ws) = release_each-kept (w ∷ ws) (releasing m ps) m h

  module _ {S : Type 0} (src : Source S) (old : Map EndpointId S) (g : Generation)
      (released : List EndpointId) where
    if-kept : (b : Bool) (x y : Run S) → P x.manager → P y.manager → P (if b then x else y).manager
    if-kept true x y hx hy = hx
    if-kept false x y hx hy = hy

    restore_applied-kept :
        (id : EndpointId) (r : Run S) (x : Manager × List SlotOutcome)
        → P x.0
        → P (restore_applied sys src old g released id r x).manager
    restore_applied-kept id r (m, os) h = if-kept (outcome_failed os) _ _ h h

    restore_built-kept :
        (id : EndpointId) (r : Run S) (b : Result EndpointSpec String)
        → P r.manager
        → P (restore_built sys src old g released id r b).manager
    restore_built-kept id r (err e) h = h
    restore_built-kept id r (ok b) h =
        restore_applied-kept id r (Apply.apply sys id g b r.manager) (k.applies id g b r.manager h)

    restore-kept :
        (id : EndpointId) (s : Option S) (r : Run S)
        → P r.manager
        → P (restore_released sys src old g released id s r).manager
    unfolding restore_released
    restore-kept id none r h = h
    restore-kept id (some s) r h =
        restore_built-kept id (record r { calls = r.calls + 1 }) (src.build r.calls s) h

    keep_desired-kept :
        (id : EndpointId) (s : Option S) (r : Run S)
        → P r.manager
        → P (keep_desired sys src old g released id s r).manager
    keep_desired-kept id none r h = if-kept (serving r.manager id) r _ h h
    keep_desired-kept id (some s) r h = h

    after_failure-kept :
        (id : EndpointId) (r : Run S)
        → P r.manager
        → P (after_failure sys src old g released id r).manager
    unfolding after_failure
    after_failure-kept id r h = keep_desired-kept id (Map.get old id) _ (
        if-kept (any (id_key.keq id) released && not (serving r.manager id)) _ r
          (restore-kept id (Map.get old id) r h) h)

    run_built-kept :
        (id : EndpointId) (b : EndpointSpec) (r : Run S)
        → P r.manager
        → P (run_built sys src old g released id b r).manager
    unfolding run_built
    run_built-kept id b r h =
        let applied = k.applies id g b r.manager h in
        if-kept (outcome_failed (Apply.apply sys id g b r.manager).1) _ _
          (after_failure-kept id _ applied) applied

    pub run_plan-kept :
        (id : EndpointId) (p : Plan) (r : Run S)
        → P r.manager
        → P (run_plan sys src old g released id p r).manager
    unfolding run_plan
    run_plan-kept id Plan.unchanged r h = h
    run_plan-kept id (Plan.invalid e) r h = h
    run_plan-kept id (Plan.start b) r h = run_built-kept id b r h
    run_plan-kept id (Plan.replace b) r h = run_built-kept id b r h
    run_plan-kept id Plan.delete r h = k.removes id r.manager h

    run_plans-kept :
        (ps : Map EndpointId Plan) (r : Run S)
        → P r.manager
        → P (run_plans sys src old g released ps r).manager
    unfolding run_plans
    run_plans-kept [] r h = h
    run_plans-kept ((id, p) ∷ ps) r h = run_plans-kept ps _ (run_plan-kept id p r h)

  module _ {S : Type 0} (src : Source S) where
    apply_generation-kept :
        (g : Generation) (es : List (DesiredEndpoint S)) (u : Map EndpointId String)
        (r : Reconciler S)
        → P r.manager
        → P ((apply_generation sys src g es u r).0).manager
    unfolding apply_generation
    apply_generation-kept g es u r h =
        run_plans-kept src r.applied g _ _ _ (release-kept r.manager _ h)

    if-manager :
        (b : Bool) (x y : Reconciler S) → P x.manager → P y.manager → P (if b then x else y).manager
    if-manager true x y hx hy = hx
    if-manager false x y hx hy = hy

    commit-kept :
        (g : Generation) (d : ℕ) (x : Reconciler S × ReconcileResponse)
        → P (x.0).manager
        → P ((commit src sys g d x).0).manager
    unfolding commit persist
    commit-kept g d (r, a) h = if-manager r.snapshot _ _ h h

    submit-kept :
        (q : ReconcileRequest S) (r : Reconciler S) (d : ℕ) (f : Refreshed S)
        (a : Option (Result ReconcileResponse ReconcileError))
        → P r.manager
        → P ((submit src sys q r d f a).0).manager
    submit-kept q r d f (some a) h = h
    submit-kept q r d f none h = commit-kept q.generation d _ (
        apply_generation-kept q.generation f.endpoints f.unrefreshed (record r { calls = f.calls })
          h)

    gated-kept :
        (q : ReconcileRequest S) (r : Reconciler S) (b c : Bool)
        → P r.manager
        → P ((gated src sys q r b c).0).manager
    unfolding admitted
    gated-kept q r false c h = h
    gated-kept q r true true h = h
    gated-kept q r true false h =
        let f = refreshed src sys q r in
        let d = digest_of src q.endpoints in submit-kept q r d f (replayed src r q.generation d f) h

    pub reconcile-kept :
        (q : ReconcileRequest S) (r : Reconciler S)
        → P r.manager
        → P ((reconcile src sys q r).0).manager
    unfolding reconcile
    reconcile-kept q r h = gated-kept q r r.ready (is_older src q.generation r.active) h

module _ {S : Type 0} (src : Source S) (sys : System) (q : ReconcileRequest S)
    (r : Reconciler S) where
  -- Whatever a submission declares, however it is answered, and whatever the system answers
  -- to each attempt to bind: where the listeners of the manager at a socket are accounted
  -- for (the binds of the socket so far are the ends of serving tasks and the planes that are held),
  -- they are accounted for after it.
  pub reconcile-IsAccounted :
      (t : Socket) → IsAccounted t r.manager → IsAccounted t ((reconcile src sys q r).0).manager
  reconcile-IsAccounted t =
      reconcile-kept sys (IsAccounted t)
        (record {
          applies = λ id g spec m h. apply-IsAccounted t sys id g spec m h;
          removes = λ id m h. remove-IsAccounted t id m h;
          stops = λ id p d m h. stop_accept-IsAccounted t id p d m h;
        })
        src q r

  -- A submission keeps every slot coherent, however it is answered: a slot that claims to
  -- run serves, and the listener of a slot is of the generation that the slot names.
  pub reconcile-Coherent : Coherent r.manager → Coherent ((reconcile src sys q r).0).manager
  reconcile-Coherent =
      reconcile-kept sys Coherent
        (record {
          applies = λ id g spec m h. apply-Coherent sys id g spec m h;
          removes = λ id m h. remove-Coherent id m h;
          stops = λ id p d m h. stop_accept-Coherent id p d m h;
        })
        src q r
