-- ===== src/Lifecycle/Reconcile/Converge/Outcome.antt =====
-- A generation answered `applied`: the processes serve what it declares, and nothing else.
use realm.Base.{
  String, List, [], Option, none, some, true, false, Bool-cases, inl, inr, ◌≡◌, refl, sym, ◌∙◌, any,
  arith,
}
use mathlib.Core.List.{Memᴰ}
use realm.Base.Map
use realm.Base.Map.{Map}
use realm.Base.Map.Distinct.{Distinct}
use realm.Endpoint.{tcp, udp, EndpointId, id_key}
use realm.Lifecycle.Manager.{System, Manager, EndpointSpec, Generation, protos}
use realm.Lifecycle.Manager.Table.{entry, slot, active_endpoint, ids}
use realm.Lifecycle.Manager.Apply.Same.{AllLive, Same, trans-Same}
use realm.Lifecycle.Reconcile.{
  Source, DesiredEndpoint, Plan, Reconciler, applied, partially_applied, EndpointResult,
}
use realm.Lifecycle.Reconcile.Planning.{
  Draft, draft_all, unchanged_incumbents, mark_duplicates, all_running,
}
use realm.Lifecycle.Reconcile.Release.{release_contended_addresses}
use realm.Lifecycle.Reconcile.Apply.{Run, run_plans, planned, apply_generation, generation_state}
use realm.Lifecycle.Reconcile.Submit.Listeners.{release-kept}
use realm.Lifecycle.Reconcile.Converge.{any_bad, Wholly, Achieves, live_Kept}
use realm.Lifecycle.Reconcile.Converge.Carried.{AllCarried, run_plans-AllCarried}
use realm.Lifecycle.Reconcile.Converge.Released.{release-Same}
use realm.Lifecycle.Reconcile.Converge.Plans.{
  mark-P, mark-Distinct, plan_deletes-Distinct, plan_deletes-held, plan_deletes-covers,
  plan_deletes-IsOff, IsOff,
}
use realm.Lifecycle.Reconcile.Converge.Drafts.{
  BuildsTo, Fits, draft_all-Fits, draft_all-Distinct, draft_all-absent,
}

applied_clean : (rs : List EndpointResult) → generation_state rs ≡ applied → any_bad rs ≡ false
applied_clean rs h = elim (Bool-cases (any_bad rs)) [
  | inl b ↦ absurd (go (sym (rw b refl) ∙ h))
  | inr b ↦ b
]
  where
    go : partially_applied ≡ applied → ⊥
    go e = cc

-- Where every protocol of the description has a plane, every protocol of it is served.
all_running-Wholly :
    (m : Manager) (id : EndpointId) (b : EndpointSpec) → all_running m id b ≡ true → Wholly m id b
unfolding all_running active_endpoint slot protos
all_running-Wholly m id b h tcp w = ground arith
all_running-Wholly m id b h udp w = ground arith

module _ {S : Type 0} (sys : System) (src : Source S) (g : Generation)
    (es : List (DesiredEndpoint S)) (u : Map EndpointId String) (r : Reconciler S) where
  abbrev drafted : Draft S
  drafted =
      draft_all src r.manager r.applied es
        (record { desired = []; plans = []; unrefreshed = u; calls = r.calls })

  abbrev plans : Map EndpointId Plan
  plans =
      (planned sys src r.manager r.applied es
        (record { desired = []; plans = []; unrefreshed = u; calls = r.calls })).plans

  plans-Distinct : Distinct plans
  unfolding planned
  plans-Distinct =
      plan_deletes-Distinct (ids r.manager) _
        (mark-Distinct sys _ drafted.plans (draft_all-Distinct src r.manager r.applied es _ tt))

  abbrev marked : Map EndpointId Plan
  marked = mark_duplicates sys (unchanged_incumbents r.manager drafted.plans []) drafted.plans

  abbrev first : Run S
  first = record {
    manager = (release_contended_addresses r.manager plans).0;
    desired = drafted.desired;
    results = [];
    calls = drafted.calls;
  }

  abbrev final : Manager
  final = ((apply_generation sys src g es u r).0).manager

  carried :
      AllLive r.manager
      → ((apply_generation sys src g es u r).1).state ≡ applied
      → AllCarried sys src r.applied g (release_contended_addresses r.manager plans).1 plans first (
          run_plans sys src r.applied g (release_contended_addresses r.manager plans).1 plans first)
  unfolding apply_generation
  carried l h =
      run_plans-AllCarried sys src r.applied g _ plans first plans-Distinct
        (release-kept sys AllLive (live_Kept sys) r.manager plans l)
        (applied_clean
          (run_plans sys src r.applied g (release_contended_addresses r.manager plans).1 plans
            first).results
          h)

  before_release :
      (n : Manager) (id : EndpointId) (plan : Plan)
      → Map.get plans id ≡ some plan
      → Achieves first.manager n id plan
      → Achieves r.manager n id plan
  before_release n id Plan.unchanged e h =
      λ p. h p ∙ (release-Same r.manager id plans plans-Distinct (rw e tt)).serves p
  before_release n id (Plan.start b) e h = h
  before_release n id (Plan.replace b) e h = h
  before_release n id Plan.delete e h = h
  before_release n id (Plan.invalid x) e h = h

  achieved :
      AllLive r.manager
      → ((apply_generation sys src g es u r).1).state ≡ applied
      → (id : EndpointId) (plan : Plan) → Map.get plans id ≡ some plan
      → Achieves r.manager final id plan
  unfolding apply_generation
  achieved l h id plan e = before_release final id plan e ((carried l h).achieved id plan e)

  untouched :
      AllLive r.manager
      → ((apply_generation sys src g es u r).1).state ≡ applied
      → (id : EndpointId) → Map.get plans id ≡ none
      → Same id r.manager final
  unfolding apply_generation
  untouched l h id e =
      trans-Same id r.manager first.manager final
        (release-Same r.manager id plans plans-Distinct (rw e tt)) ((carried l h).others id e)

  wholly :
      (id : EndpointId) (spec : S) (plan : Plan)
      → Fits src r.manager r.applied id spec (some plan)
      → Achieves r.manager final id plan
      → (b : EndpointSpec) × BuildsTo src r.manager r.applied spec b × Wholly final id b
  wholly id spec Plan.unchanged (b, n, run) a =
      (b, n, λ p w. a p ∙ all_running-Wholly r.manager id b run p w)
  wholly id spec (Plan.start b) n a = (b, n, a)
  wholly id spec (Plan.replace b) n a = (b, n, a)
  wholly id spec Plan.delete f a = absurd f
  wholly id spec (Plan.invalid e) f a = absurd a

  -- From a manager whose planes run: where a generation is answered applied, every endpoint that
  -- it declares builds, and every protocol of what it builds to is served under its id.
  pub applied-serves :
      AllLive r.manager
      → ((apply_generation sys src g es u r).1).state ≡ applied
      → (e : DesiredEndpoint S) → Memᴰ e es
      → (b : EndpointSpec) × BuildsTo src r.manager r.applied e.spec b × Wholly final e.id b
  unfolding planned
  applied-serves l h e t = go (Map.get marked e.id) refl (
      mark-P sys _ e.id (Fits src r.manager r.applied e.id e.spec) (λ x. tt) drafted.plans
        (draft_all-Fits src r.manager r.applied es _ e t))
    where
      go :
          (o : Option Plan)
          → Map.get marked e.id ≡ o
          → Fits src r.manager r.applied e.id e.spec o
          → (b : EndpointSpec) × BuildsTo src r.manager r.applied e.spec b × Wholly final e.id b
      go none q f = absurd f
      go (some plan) q f =
          wholly e.id e.spec plan f
            (achieved l h e.id plan (plan_deletes-held (ids r.manager) marked e.id plan q))

  off :
      (id : EndpointId) (o : Option Plan)
      → IsOff o
      → Map.get plans id ≡ o
      → AllLive r.manager
      → ((apply_generation sys src g es u r).1).state ≡ applied
      → entry final id ≡ none
  unfolding planned ids Map.get
  off id none f q l h =
      (untouched l h id q).gone (plan_deletes-covers r.manager.entries marked id q)
  off id (some Plan.delete) f q l h = achieved l h id Plan.delete q
  off id (some (Plan.invalid e)) f q l h = absurd (achieved l h id (Plan.invalid e) q)
  off id (some Plan.unchanged) f q l h = absurd f
  off id (some (Plan.start b)) f q l h = absurd f
  off id (some (Plan.replace b)) f q l h = absurd f

  -- From a manager whose planes run: where a generation is answered applied, nothing is held
  -- under an id that it does not declare.
  pub applied-deletes :
      AllLive r.manager
      → ((apply_generation sys src g es u r).1).state ≡ applied
      → (id : EndpointId) → any (λ e. id_key.keq e.id id) es ≡ false
      → entry final id ≡ none
  unfolding planned ids Map.get
  applied-deletes l h id n =
      off id (Map.get plans id)
        (plan_deletes-IsOff (ids r.manager) marked id (
          mark-P sys _ id IsOff (λ x. tt) drafted.plans
            (rw (draft_all-absent src r.manager r.applied es _ id n) tt)))
        refl l h
