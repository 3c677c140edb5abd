-- ===== src/Lifecycle/Reconcile/Reach/Answers.antt =====
-- The kept answer in every state that a reconciler reaches.
use realm.Base.{
  ℕ, List, [], ◌∷◌, ◌≡◌, refl, ◌∙◌, String, find, Option, none, some, true, false, Result, ok, err,
  inl, inr, Option-cases,
}
use realm.Base.Map.{Map}
use realm.Endpoint.{EndpointId}
use realm.Lifecycle.Manager.{System, Manager, EndpointSpec, SlotOutcome, is_failed}
use realm.Lifecycle.Manager.Apply
use realm.Lifecycle.Reconcile.{
  Source, Reconciler, ReconcileResponse, ReconcileError, ReconcileRequest, Snapshot,
}
use realm.Lifecycle.Reconcile.Submit.{fresh, set_ready, reconcile}
use realm.Lifecycle.Reconcile.Restore.{
  restore, restore_each, Restored, restore_refreshed, restore_built, restore_applied, failure_text,
  counted, shutdown, status,
}
use realm.Lifecycle.Reconcile.Submit.Record.{Recorded, Accepts, reconcile-Accepts}
use realm.Lifecycle.Reconcile.Reach.{
  Reachable, started, restored, submitted, readied, ended, reported, called, stopped,
}

module _ {S : Type 0} (src : Source S) (sys : System) where
  restore_each-last :
      (g : ℕ) (es : Map EndpointId S) (a : Restored src sys)
      → ((restore_each src sys g es a).reconciler).last ≡ (a.reconciler).last
  unfolding restore_each
  restore_each-last g [] a = refl
  restore_each-last g ((id, spec) ∷ es) a =
      restore_each-last g es _ ∙ refreshed (src.refresh (a.reconciler).calls spec)
    where
      applied_ :
          (spec' : S) (b : Restored src sys) (x : Manager × List SlotOutcome)
          → ((restore_applied src sys id spec' b x).reconciler).last ≡ (b.reconciler).last
      applied_ spec' b (m, os) =
          elim (Option-cases (failure_text src sys (find (λ o. is_failed o.action) os))) [
            | inl h ↦ rw (h, restore_applied) refl
            | inr (e, h) ↦ rw (h, restore_applied) refl
          ]

      built :
          (spec' : S) (b : Restored src sys) (x : Result EndpointSpec String)
          → ((restore_built src sys g id spec' b x).reconciler).last ≡ (b.reconciler).last
      built spec' b (err e) = refl
      built spec' b (ok d) = applied_ spec' b (Apply.apply sys id g d (b.reconciler).manager)

      refreshed :
          (x : Result S String)
          → ((restore_refreshed src sys g id (counted src sys a) x).reconciler).last
            ≡ (a.reconciler).last
      refreshed (err e) = refl
      refreshed (ok spec') =
          built spec' (counted src sys (counted src sys a))
            (src.build ((counted src sys a).reconciler).calls spec')

  restore-last :
      (loaded : Result (Option (Snapshot S)) String)
      → ((restore src sys loaded (fresh false true)).0).last ≡ none
  unfolding restore
  restore-last (err e) = refl
  restore-last (ok none) = refl
  restore-last (ok (some s)) =
      restore_each-last s.generation s.endpoints
        (record { reconciler = fresh false true; restored = 0; failed = [] })

  Accepts-Recorded :
      (q : ReconcileRequest S) (x : Reconciler S × Result ReconcileResponse ReconcileError)
      → Accepts src sys q x
      → Recorded x.0 (x.0).last
  Accepts-Recorded q (r, ok a) h = h.3
  Accepts-Recorded q (r, err e) h = h

  none-Recorded : (r : Reconciler S) (l : Option ReconcileResponse) → l ≡ none → Recorded r l
  none-Recorded r none h = tt
  none-Recorded r (some l) h = cc

  -- In every state that a reconciler reaches, an answer that is kept for a repeated submission is
  -- that of the active generation, and the partial flag and its state are what its results give.
  pub Reachable-Recorded : (r : Reconciler S) → Reachable src sys r → Recorded r r.last
  unfolding set_ready shutdown status
  Reachable-Recorded _ (started ready snapshot) = tt
  Reachable-Recorded _ (restored loaded) =
      none-Recorded (restore src sys loaded (fresh false true)).0 _ (restore-last loaded)
  Reachable-Recorded _ (submitted {r} q h) =
      Accepts-Recorded q (reconcile src sys q r)
        (reconcile-Accepts src sys q r (Reachable-Recorded r h))
  Reachable-Recorded _ (readied {r} b h) = Reachable-Recorded r h
  Reachable-Recorded _ (ended {r} id p gone f h) = Reachable-Recorded r h
  Reachable-Recorded _ (reported {r} h) = Reachable-Recorded r h
  Reachable-Recorded _ (called {r} c h) = Reachable-Recorded r h
  Reachable-Recorded _ (stopped {r} h) = Reachable-Recorded r h
