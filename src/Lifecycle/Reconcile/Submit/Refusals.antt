-- ===== src/Lifecycle/Reconcile/Submit/Refusals.antt =====
-- What a refused submission leaves, and which generation is active after any submission.
use realm.Base.{ℕ, ◌≡◌, refl, ap, Option, none, some, Bool, true, false, Result, ok, err}
use realm.Lifecycle.Manager.{System}
use realm.Lifecycle.Reconcile.{
  Source, ReconcileRequest, Reconciler, ReconcileResponse, ReconcileError,
}
use realm.Lifecycle.Reconcile.Submit.{
  Refreshed, reconcile, admitted, submit, commit, replayed, digest_of, refreshed, is_older, gated,
}

module _ {S : Type 0} (src : Source S) (sys : System) (q : ReconcileRequest S) where
  abbrev Answer : Type 0
  Answer = Result ReconcileResponse ReconcileError

  -- A refusal leaves everything but the count of calls as it was.
  abbrev RefusalKeeps : Reconciler S → Reconciler S × Answer → Type 0
  RefusalKeeps r (r', ok a) = Unit {0}
  RefusalKeeps r (r', err e) = r' ≡ record r { calls = r'.calls }

  submit-RefusalKeeps :
      (r : Reconciler S) (d : ℕ) (f : Refreshed S) (a : Option Answer)
      → RefusalKeeps r (submit src sys q r d f a)
  unfolding commit
  submit-RefusalKeeps r d f (some (ok a)) = tt
  submit-RefusalKeeps r d f (some (err e)) = refl
  submit-RefusalKeeps r d f none = tt

  gated-RefusalKeeps : (r : Reconciler S) (b c : Bool) → RefusalKeeps r (gated src sys q r b c)
  unfolding admitted
  gated-RefusalKeeps r false c = refl
  gated-RefusalKeeps r true true = refl
  gated-RefusalKeeps r true false =
      let f = refreshed src sys q r in
      let d = digest_of src q.endpoints in
      submit-RefusalKeeps r d f (replayed src r q.generation d f)

  refusal :
      (r r' : Reconciler S) (a : Answer) (e : ReconcileError)
      → RefusalKeeps r (r', a)
      → a ≡ err e
      → r' ≡ record r { calls = r'.calls }
  refusal r r' (ok a) e h k = cc
  refusal r r' (err x) e h k = h

  -- A submission that is answered by an error, whichever, changes nothing but the count of
  -- calls of the blocking pool: no endpoint, no applied description, no active generation,
  -- no kept answer, no snapshot.
  pub reconcile_refused :
      (r : Reconciler S) (e : ReconcileError)
      → (reconcile src sys q r).1 ≡ err e
      → (reconcile src sys q r).0 ≡ record r { calls = ((reconcile src sys q r).0).calls }
  unfolding reconcile
  reconcile_refused r e h =
      refusal r _ _ e (gated-RefusalKeeps r r.ready (is_older src q.generation r.active)) h

  pub admitted_refused :
      (r : Reconciler S) (e : ReconcileError)
      → (admitted src sys q r).1 ≡ err e
      → ((admitted src sys q r).0).active ≡ r.active
  admitted_refused r e h =
      ap (λ (x : Reconciler S). x.active) (refusal r _ _ e (gated-RefusalKeeps r true false) h)
