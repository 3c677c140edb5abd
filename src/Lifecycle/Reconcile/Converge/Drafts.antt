-- ===== src/Lifecycle/Reconcile/Converge/Drafts.antt =====
-- The loop over the submitted endpoints: the plan that each of them gets.
use realm.Base.{
  ℕ, String, List, [], ◌∷◌, Option, none, some, true, false, Bool-cases, inl, inr, ◌≡◌, refl, sym,
  ◌∙◌, Result, ok, err, any, arith,
}
use mathlib.Core.List.{Memᴰ}
use realm.Base.Map
use realm.Base.Map.{Map}
use realm.Base.Map.Distinct.{Distinct, insert-Distinct, get-contains}
use realm.Endpoint.{EndpointId, id_key}
use realm.Lifecycle.Manager.{Manager, EndpointSpec}
use realm.Lifecycle.Reconcile.{Source, Plan, DesiredEndpoint}
use realm.Lifecycle.Reconcile.Planning.{
  Draft, decide, draft_built, draft_fresh, draft_step, draft_all, all_running,
}
use realm.Lifecycle.Reconcile.Converge.Plans.{insert-P}

module _ {S : Type 0} (src : Source S) (m : Manager) (applied : Map EndpointId S) where
  -- The description builds to this, at some call.
  abbrev pub BuildsTo : S → EndpointSpec → Type 0
  BuildsTo spec b = (n : ℕ) × (src.build n spec ≡ ok b)

  -- The plan is drawn up from what the description builds to.
  abbrev pub Fits : EndpointId → S → Option Plan → Type 0
  Fits id spec none = ⊥
  Fits id spec (some Plan.unchanged) =
      (b : EndpointSpec) × BuildsTo spec b × (all_running m id b ≡ true)
  Fits id spec (some (Plan.start b)) = BuildsTo spec b
  Fits id spec (some (Plan.replace b)) = BuildsTo spec b
  Fits id spec (some Plan.delete) = ⊥
  Fits id spec (some (Plan.invalid e)) = Unit {0}

  abbrev IsInvalid : Plan → Type 0
  IsInvalid Plan.unchanged = ⊥
  IsInvalid (Plan.start b) = ⊥
  IsInvalid (Plan.replace b) = ⊥
  IsInvalid Plan.delete = ⊥
  IsInvalid (Plan.invalid e) = Unit {0}

  decide-Fits :
      (id : EndpointId) (spec : S) (b : EndpointSpec) (o : Option S)
      → BuildsTo spec b
      → Fits id spec (some (decide src m applied id spec b o))
  decide-Fits id spec b none h = h
  decide-Fits id spec b (some prev) h = elim (Bool-cases (src.same prev spec)) [
    | inl s ↦ elim (Bool-cases (all_running m id b)) [
      | inl r ↦ rw (s, r) (b, h, r)
      | inr r ↦ rw (s, r) h
    ]
    | inr s ↦ rw s h
  ]

  -- One plan is written: an invalid one where the id has a plan already.
  record Drafted (e : DesiredEndpoint S) (d n : Draft S) : Type 0 where
    plan : Plan
    inserted : n.plans ≡ Map.insert e.id plan d.plans
    fits : Fits e.id e.spec (some plan)
    again : Map.contains d.plans e.id ≡ true → IsInvalid plan

  draft_fresh-Drafted :
      (e : DesiredEndpoint S) (d : Draft S) (o : Option String)
      → Map.contains d.plans e.id ≡ false
      → Drafted e d (draft_fresh src m applied e.id e.spec d o)
  draft_fresh-Drafted e d (some x) c = record {
    plan = Plan.invalid x;
    inserted = refl;
    fits = tt;
    again = λ k. tt;
  }
  draft_fresh-Drafted e d none c = go (src.build d.calls e.spec) refl
    where
      go :
          (r : Result EndpointSpec String)
          → src.build d.calls e.spec ≡ r
          → Drafted e d (draft_built src m applied e.id e.spec d r)
      go (err x) h = record { plan = Plan.invalid x; inserted = refl; fits = tt; again = λ k. tt }
      go (ok b) h = record {
        plan = decide src m applied e.id e.spec b (Map.get applied e.id);
        inserted = refl;
        fits = decide-Fits e.id e.spec b (Map.get applied e.id) (d.calls, h);
        again = λ k. absurd (contra (sym c ∙ k));
      }
        where
          contra : false ≡ true → ⊥
          contra x = cc

  draft_step-Drafted :
      (e : DesiredEndpoint S) (d : Draft S) → Drafted e d (draft_step src m applied e d)
  unfolding draft_step
  draft_step-Drafted e d = elim (Bool-cases (Map.contains d.plans e.id)) [
    | inl c ↦
        rw (c, draft_step)
          (record { plan = Plan.invalid _; inserted = refl; fits = tt; again = λ k. tt })
    | inr c ↦ rw (c, draft_step) (draft_fresh-Drafted e d (Map.get d.unrefreshed e.id) c)
  ]

  Fits-held :
      (id : EndpointId) (spec : S) (ps : Map EndpointId Plan)
      → Fits id spec (Map.get ps id)
      → Map.contains ps id ≡ true
  Fits-held id spec ps h = elim (Bool-cases (Map.contains ps id)) [
    | inl c ↦ c
    | inr c ↦ absurd (rw (get-contains id ps c) at h)
  ]

  invalid-Fits :
      (id : EndpointId) (spec : S) (plan : Plan) → IsInvalid plan → Fits id spec (some plan)
  invalid-Fits id spec Plan.unchanged h = absurd h
  invalid-Fits id spec (Plan.start b) h = absurd h
  invalid-Fits id spec (Plan.replace b) h = absurd h
  invalid-Fits id spec Plan.delete h = absurd h
  invalid-Fits id spec (Plan.invalid e) h = tt

  draft_step-Fits :
      (e : DesiredEndpoint S) (d : Draft S) (id : EndpointId) (spec : S)
      → Fits id spec (Map.get d.plans id)
      → Fits id spec (Map.get (draft_step src m applied e d).plans id)
  draft_step-Fits e d id spec h =
      let t = draft_step-Drafted e d in
      rw t.inserted (
        insert-P (Fits id spec) id e.id t.plan d.plans
          (λ s.
            invalid-Fits id spec t.plan
              (t.again (rw ((id_key.keq_iff e.id id).0 s) (Fits-held id spec d.plans h))))
          (λ o. h))

  draft_all-kept :
      (es : List (DesiredEndpoint S)) (d : Draft S) (id : EndpointId) (spec : S)
      → Fits id spec (Map.get d.plans id)
      → Fits id spec (Map.get (draft_all src m applied es d).plans id)
  unfolding draft_all
  draft_all-kept [] d id spec h = h
  draft_all-kept (e ∷ es) d id spec h = draft_all-kept es _ id spec (draft_step-Fits e d id spec h)

  draft_step-own :
      (e : DesiredEndpoint S) (d : Draft S)
      → Fits e.id e.spec (Map.get (draft_step src m applied e d).plans e.id)
  draft_step-own e d =
      let t = draft_step-Drafted e d in
      rw (t.inserted, Map.get-insert e.id e.id t.plan d.plans, Map.keq_refl e.id) t.fits

  pub draft_all-Fits :
      (es : List (DesiredEndpoint S)) (d : Draft S) (e : DesiredEndpoint S)
      → Memᴰ e es
      → Fits e.id e.spec (Map.get (draft_all src m applied es d).plans e.id)
  unfolding draft_all
  draft_all-Fits [] d e h = elim h [ ]
  draft_all-Fits (x ∷ es) d e (Memᴰ.head q) =
      rw q (draft_all-kept es _ x.id x.spec (draft_step-own x d))
  draft_all-Fits (x ∷ es) d e (Memᴰ.tail t) = draft_all-Fits es _ e t

  pub draft_all-Distinct :
      (es : List (DesiredEndpoint S)) (d : Draft S)
      → Distinct d.plans
      → Distinct (draft_all src m applied es d).plans
  unfolding draft_all
  draft_all-Distinct [] d h = h
  draft_all-Distinct (e ∷ es) d h =
      let t = draft_step-Drafted e d in
      draft_all-Distinct es _ (rw t.inserted (insert-Distinct e.id t.plan d.plans h))

  -- An id that no endpoint names gets no plan.
  pub draft_all-absent :
      (es : List (DesiredEndpoint S)) (d : Draft S) (id : EndpointId)
      → any (λ e. id_key.keq e.id id) es ≡ false
      → Map.get (draft_all src m applied es d).plans id ≡ Map.get d.plans id
  unfolding draft_all
  draft_all-absent [] d id h = refl
  draft_all-absent (e ∷ es) d id h =
      let t = draft_step-Drafted e d in
      let n : id_key.keq e.id id ≡ false = ground arith in
      let k : any (λ x. id_key.keq x.id id) es ≡ false = ground arith in
      draft_all-absent es _ id k ∙ rw (t.inserted, Map.get-insert e.id id t.plan d.plans, n) refl
