-- ===== src/Lifecycle/Reconcile/Converge/Submitted.antt =====
-- A submission answered `applied`.
use realm.Base.{
  ℕ, String, List, [], ◌∷◌, Option, none, some, Bool, true, false, ◌≡◌, refl, Result, ok, err, any,
  any_append, arith,
}
use mathlib.Core.List.{Memᴰ}
use realm.Endpoint.{EndpointId, id_key}
use realm.Lifecycle.Manager.{System, EndpointSpec}
use realm.Lifecycle.Manager.Table.{entry}
use realm.Lifecycle.Manager.Apply.Same.{AllLive}
use realm.Lifecycle.Reconcile.{
  Source, DesiredEndpoint, ReconcileRequest, Reconciler, ReconcileResponse, ReconcileError, applied,
  not_ready,
}
use realm.Lifecycle.Reconcile.Apply.{apply_generation}
use realm.Lifecycle.Reconcile.Submit.{
  Refreshed, reconcile, gated, admitted, submit, commit, persist, replayed, digest_of, refreshed,
  refresh_all, refresh_one, is_older, is_active,
}
use realm.Lifecycle.Reconcile.Converge.{Wholly}
use realm.Lifecycle.Reconcile.Converge.Drafts.{BuildsTo}
use realm.Lifecycle.Reconcile.Converge.Outcome.{applied-serves, applied-deletes}

one_answer :
    (x : Result ReconcileResponse ReconcileError) (b a : ReconcileResponse)
    → x ≡ ok b
    → x ≡ ok a
    → b ≡ a
one_answer x b a e h = cc

not_both :
    (x : Result ReconcileResponse ReconcileError) (e : ReconcileError) (a : ReconcileResponse)
    → x ≡ err e
    → x ≡ ok a
    → ⊥
not_both x e a k h = cc

module _ {S : Type 0} (src : Source S) (sys : System) (q : ReconcileRequest S)
    (r : Reconciler S) where
  abbrev generation : Reconciler S × ReconcileResponse
  generation =
      apply_generation sys src q.generation (refreshed src sys q r).endpoints
        (refreshed src sys q r).unrefreshed (record r { calls = (refreshed src sys q r).calls })

  -- The submission went through the application of its generation, and this is its answer.
  abbrev Went : ReconcileResponse → Reconciler S × Result ReconcileResponse ReconcileError → Type 0
  Went a x = (x.0.manager ≡ (generation.0).manager) × (generation.1 ≡ a)

  persist-manager : (x : Reconciler S) → (persist x).manager ≡ x.manager
  unfolding persist
  persist-manager x = ground arith

  submitted :
      (d : ℕ) (o : Option (Result ReconcileResponse ReconcileError)) (a : ReconcileResponse)
      → o ≡ none
      → (submit src sys q r d (refreshed src sys q r) o).1 ≡ ok a
      → Went a (submit src sys q r d (refreshed src sys q r) o)
  unfolding commit
  submitted d (some x) a n h = absurd (go x n)
    where
      go : (x : Result ReconcileResponse ReconcileError) → some x ≡ none → ⊥
      go x e = cc
  submitted d none a n h = (persist-manager _, one_answer (ok generation.1) generation.1 a refl h)

  gated-Went :
      (ready older : Bool) (a : ReconcileResponse)
      → is_active src r.active q.generation ≡ false
      → (gated src sys q r ready older).1 ≡ ok a
      → Went a (gated src sys q r ready older)
  unfolding admitted replayed
  gated-Went false older a n h = absurd (not_both _ not_ready a refl h)
  gated-Went true true a n h = absurd (not_both _ _ a refl h)
  gated-Went true false a n h = submitted (digest_of src q.endpoints) _ a (rw n refl) h

  reconcile-Went :
      (a : ReconcileResponse)
      → is_active src r.active q.generation ≡ false
      → (reconcile src sys q r).1 ≡ ok a
      → Went a (reconcile src sys q r)
  unfolding reconcile
  reconcile-Went a n h = gated-Went r.ready (is_older src q.generation r.active) a n h

  -- From a manager whose planes run: where a submission of a generation that is not the active one
  -- is answered with the state applied, every endpoint that it declares (as refreshed) builds, and
  -- every protocol of what it builds to is served under its id.
  pub reconcile-serves :
      (a : ReconcileResponse)
      → AllLive r.manager
      → is_active src r.active q.generation ≡ false
      → (reconcile src sys q r).1 ≡ ok a
      → a.state ≡ applied
      → (e : DesiredEndpoint S) → Memᴰ e (refreshed src sys q r).endpoints
      → (b : EndpointSpec) × BuildsTo src r.manager r.applied e.spec b
        × Wholly (reconcile src sys q r).0.manager e.id b
  reconcile-serves a l n h s e t =
      let w = reconcile-Went a n h in
      rw w.0 (
        applied-serves sys src q.generation (refreshed src sys q r).endpoints
          (refreshed src sys q r).unrefreshed (record r { calls = (refreshed src sys q r).calls }) l
          (rw w.1 s) e t)

  refresh_all-ids :
      (id : EndpointId) (es : List (DesiredEndpoint S)) (acc : Refreshed S)
      → any (λ e. id_key.keq e.id id) acc.endpoints ≡ false
      → any (λ e. id_key.keq e.id id) es ≡ false
      → any (λ e. id_key.keq e.id id) (refresh_all src es acc).endpoints ≡ false
  unfolding refresh_all
  refresh_all-ids id [] acc h k = h
  refresh_all-ids id (e ∷ es) acc h k =
      let head : (id_key.keq e.id id) ≡ false = ground arith in
      let rest : any (λ x. id_key.keq x.id id) es ≡ false = ground arith in
      refresh_all-ids id es _ (one head (src.refresh acc.calls e.spec)) rest
    where
      one :
          id_key.keq e.id id ≡ false
          → (x : Result S String)
          → any (λ y. id_key.keq y.id id) (refresh_one src e acc x).endpoints ≡ false
      one n (ok spec) = any_append _ acc.endpoints (record e { spec = spec } ∷ []) h (ground arith)
      one n (err x) = any_append _ acc.endpoints (e ∷ []) h (ground arith)

  -- From a manager whose planes run: where a submission of a generation that is not the active one
  -- is answered with the state applied, nothing is held under an id that it does not declare.
  pub reconcile-deletes :
      (a : ReconcileResponse)
      → AllLive r.manager
      → is_active src r.active q.generation ≡ false
      → (reconcile src sys q r).1 ≡ ok a
      → a.state ≡ applied
      → (id : EndpointId) → any (λ e. id_key.keq e.id id) q.endpoints ≡ false
      → entry (reconcile src sys q r).0.manager id ≡ none
  reconcile-deletes a l n h s id k =
      let w = reconcile-Went a n h in
      rw w.0 (
        applied-deletes sys src q.generation (refreshed src sys q r).endpoints
          (refreshed src sys q r).unrefreshed (record r { calls = (refreshed src sys q r).calls }) l
          (rw w.1 s) id (refresh_all-ids id q.endpoints _ refl k))
