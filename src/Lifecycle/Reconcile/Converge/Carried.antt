-- ===== src/Lifecycle/Reconcile/Converge/Carried.antt =====
-- The loop over the plans: a failure is never taken back, and without one each plan is achieved.
use realm.Base.{
  ◌+◌, String, List, [], ◌∷◌, ◌++◌, ◌||◌, ◌&&◌, not, Option, none, some, Bool, true, false,
  Bool-cases, inl, inr, ◌≡◌, refl, sym, ◌∙◌, Result, ok, err, if◌then◌else◌, any, arith,
}
use realm.Base.Map
use realm.Base.Map.{Map}
use realm.Base.Map.Distinct.{Distinct, get-contains}
use realm.Endpoint.{EndpointId, id_key}
use realm.Lifecycle.Manager.{System, EndpointSpec, Generation, SlotOutcome}
use realm.Lifecycle.Manager.Apply
use realm.Lifecycle.Manager.Apply.Frame.{entry-remove}
use realm.Lifecycle.Manager.Apply.Serves.{apply-runs}
use realm.Lifecycle.Manager.Apply.Same.{
  AllLive, Same, refl-Same, trans-Same, apply-Same, remove-Same,
}
use realm.Lifecycle.Reconcile.{Source, Plan, EndpointResult}
use realm.Lifecycle.Reconcile.Planning.{protos_of, serving}
use realm.Lifecycle.Reconcile.Apply.{
  Run, into_results, outcome_failed, restore_built, restore_released, keep_desired, after_failure,
  run_built, run_plan, run_plans,
}
use realm.Lifecycle.Reconcile.Submit.Listeners.{run_plan-kept}
use realm.Lifecycle.Reconcile.Converge.{
  any_bad, any_bad-append, any_bad-into_results, any_bad-annotate, any_bad-invalid, Wholly,
  Achieves, Achieves-later, Achieves-from, live_Kept,
}

or-false : (a b : Bool) → (a || b) ≡ false → (a ≡ false) × (b ≡ false)
or-false a b h = ground arith

appended_bad :
    (xs ys : List EndpointResult)
    → any_bad (xs ++ ys) ≡ false
    → (any_bad xs ≡ false) × (any_bad ys ≡ false)
appended_bad xs ys h = or-false (any_bad xs) (any_bad ys) (sym (any_bad-append xs ys) ∙ h)

module _ {S : Type 0} (sys : System) (src : Source S) (old : Map EndpointId S) (g : Generation)
    (released : List EndpointId) where
  if-bad :
      (b : Bool) (x y : Run S) (c : Bool)
      → any_bad x.results ≡ c
      → any_bad y.results ≡ c
      → any_bad (if b then x else y).results ≡ c
  if-bad true x y c hx hy = hx
  if-bad false x y c hx hy = hy

  restore_built-bad :
      (id : EndpointId) (r : Run S) (b : Result EndpointSpec String)
      → any_bad (restore_built sys src old g released id r b).results ≡ any_bad r.results
  restore_built-bad id r (err e) = refl
  restore_built-bad id r (ok b) =
      if-bad (outcome_failed (Apply.apply sys id g b r.manager).1) _ _ (any_bad r.results) refl
        (any_bad-annotate id _ r.results)

  restore_released-bad :
      (id : EndpointId) (s : Option S) (r : Run S)
      → any_bad (restore_released sys src old g released id s r).results ≡ any_bad r.results
  unfolding restore_released
  restore_released-bad id none r = refl
  restore_released-bad id (some s) r =
      restore_built-bad id (record r { calls = r.calls + 1 }) (src.build r.calls s)

  keep_desired-bad :
      (id : EndpointId) (s : Option S) (r : Run S)
      → any_bad (keep_desired sys src old g released id s r).results ≡ any_bad r.results
  keep_desired-bad id none r = if-bad (serving r.manager id) r _ (any_bad r.results) refl refl
  keep_desired-bad id (some s) r = refl

  after_failure-bad :
      (id : EndpointId) (r : Run S)
      → any_bad (after_failure sys src old g released id r).results ≡ any_bad r.results
  unfolding after_failure
  after_failure-bad id r =
      keep_desired-bad id (Map.get old id) _
      ∙ if-bad (any (id_key.keq id) released && not (serving r.manager id)) _ r (any_bad r.results)
          (restore_released-bad id (Map.get old id) r) refl

  -- What a plan without a failure leaves behind, from a manager whose planes run.
  record Carried (id : EndpointId) (plan : Plan) (r n : Run S) : Type 0 where
    earlier : any_bad r.results ≡ false
    achieved : Achieves r.manager n.manager id plan
    others : (j : EndpointId) → id_key.keq id j ≡ false → Same j r.manager n.manager

  built-bad :
      (id : EndpointId) (r : Run S) (os : List SlotOutcome)
      → outcome_failed os ≡ true
      → any_bad (r.results ++ into_results id os) ≡ false
      → false ≡ true
  built-bad id r os f h =
      sym ((appended_bad r.results (into_results id os) h).1) ∙ any_bad-into_results id os ∙ f

  run_built-Carried :
      (id : EndpointId) (b : EndpointSpec) (r : Run S)
      → AllLive r.manager
      → any_bad (run_built sys src old g released id b r).results ≡ false
      → (any_bad r.results ≡ false)
        × Wholly (run_built sys src old g released id b r).manager id b
        × ((j : EndpointId)
            → id_key.keq id j ≡ false
            → Same j r.manager (run_built sys src old g released id b r).manager)
  unfolding run_built
  run_built-Carried id b r l h =
      let x = Apply.apply sys id g b r.manager in
      let n : Run S = record r { manager = x.0; results = r.results ++ into_results id x.1 } in
      elim (Bool-cases (outcome_failed x.1)) [
        | inl f ↦
            absurd
              (contra (built-bad id r x.1 f (sym (after_failure-bad id n) ∙ sym (rw f refl) ∙ h)))
        | inr f ↦
            rw (f, run_built)
              (
                (appended_bad r.results (into_results id x.1) (sym (rw f refl) ∙ h)).0,
                (λ p w. apply-runs sys id g b r.manager p f w),
                λ j o. apply-Same id j o sys g b r.manager l,
              )
      ]
    where
      contra : false ≡ true → ⊥
      contra e = cc

  run_plan-Carried :
      (id : EndpointId) (plan : Plan) (r : Run S)
      → AllLive r.manager
      → any_bad (run_plan sys src old g released id plan r).results ≡ false
      → Carried id plan r (run_plan sys src old g released id plan r)
  unfolding run_plan
  run_plan-Carried id Plan.unchanged r l h = record {
    earlier = (appended_bad r.results _ h).0;
    achieved = λ p. refl;
    others = λ j o. refl-Same j r.manager;
  }
  run_plan-Carried id (Plan.invalid e) r l h = record {
    earlier = (appended_bad r.results _ h).0;
    achieved =
        contra
          (sym ((appended_bad r.results _ h).1) ∙ any_bad-invalid id e (protos_of r.manager id));
    others = λ j o. refl-Same j r.manager;
  }
    where
      contra : false ≡ true → ⊥
      contra e = cc
  run_plan-Carried id (Plan.start b) r l h =
      let c = run_built-Carried id b r l h in record { earlier = c.0; achieved = c.1; others = c.2 }
  run_plan-Carried id (Plan.replace b) r l h =
      let c = run_built-Carried id b r l h in record { earlier = c.0; achieved = c.1; others = c.2 }
  run_plan-Carried id Plan.delete r l h = record {
    earlier = (appended_bad r.results _ h).0;
    achieved = entry-remove id id r.manager ∙ rw (Map.keq_refl id) refl;
    others = λ j o. remove-Same id j o r.manager l;
  }

  -- What the plans leave behind.
  pub record AllCarried (ps : Map EndpointId Plan) (r n : Run S) : Type 0 where
    pub earlier : any_bad r.results ≡ false
    pub achieved :
        (id : EndpointId) (plan : Plan)
        → Map.get ps id ≡ some plan
        → Achieves r.manager n.manager id plan
    pub others : (j : EndpointId) → Map.get ps j ≡ none → Same j r.manager n.manager

  next-Carried :
      (id : EndpointId) (plan : Plan) (ps : Map EndpointId Plan) (r m n : Run S)
      → Map.get ps id ≡ none
      → Carried id plan r m
      → AllCarried ps m n
      → AllCarried ((id, plan) ∷ ps) r n
  unfolding Map.get
  next-Carried id plan ps r m n fresh c a = record {
    earlier = c.earlier;
    achieved = λ j q h. elim (Bool-cases (id_key.keq id j)) [
      | inl e ↦
          rw (sym ((id_key.keq_iff id j).0 e), held q (sym (rw e refl) ∙ h))
            (Achieves-later r.manager m.manager n.manager id plan (a.others id fresh) c.achieved)
      | inr o ↦
          Achieves-from r.manager m.manager n.manager j q (c.others j o)
            (a.achieved j q (sym (rw o refl) ∙ h))
    ];
    others = λ j h. elim (Bool-cases (id_key.keq id j)) [
      | inl e ↦ absurd (absent (sym (rw e refl) ∙ h))
      | inr o ↦
          trans-Same j r.manager m.manager n.manager (c.others j o)
            (a.others j (sym (rw o refl) ∙ h))
    ];
  }
    where
      held : (q : Plan) → some plan ≡ some q → q ≡ plan
      held q e = cc

      absent : some plan ≡ none → ⊥
      absent e = cc

  -- From a manager whose planes run, the plans of distinct ids that end without a failure are
  -- achieved, and no other id is touched.
  pub run_plans-AllCarried :
      (ps : Map EndpointId Plan) (r : Run S)
      → Distinct ps
      → AllLive r.manager
      → any_bad (run_plans sys src old g released ps r).results ≡ false
      → AllCarried ps r (run_plans sys src old g released ps r)
  unfolding run_plans Map.get
  run_plans-AllCarried [] r d l h = record {
    earlier = h;
    achieved = λ id plan e. absurd (contra plan e);
    others = λ j e. refl-Same j r.manager;
  }
    where
      contra : (plan : Plan) → none ≡ some plan → ⊥
      contra plan e = cc
  run_plans-AllCarried ((id, plan) ∷ ps) r d l h =
      let a =
        run_plans-AllCarried ps (run_plan sys src old g released id plan r) d.1
          (run_plan-kept sys AllLive (live_Kept sys) src old g released id plan r l) h in
      next-Carried id plan ps r _ _ (get-contains id ps d.0)
        (run_plan-Carried id plan r l a.earlier) a
