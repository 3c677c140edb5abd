-- ===== src/Lifecycle/Reconcile/Submit/Reuse.antt =====
-- A generation that is submitted again with other contents.
use realm.Base.{ℕ, List, ◌≡◌, Option, none, some, true, false, ok, err, nat_eq, arith}
use realm.Lifecycle.Manager.{System}
use realm.Lifecycle.Reconcile.{
  Source, DesiredEndpoint, ReconcileRequest, Reconciler, ReconcileResponse, stale,
}
use realm.Lifecycle.Reconcile.Submit.{
  reconcile, replayed, digest_of, refreshed, no_errors, digest_matches,
}
use realm.Lifecycle.Reconcile.Submit.Record.{Recorded}
use realm.Lifecycle.Reconcile.Submit.Replay.{Repeats, accepted-Repeats, not_older, here_again}

module _ {S : Type 0} (src : Source S) (sys : System) (q : ReconcileRequest S)
    (es : List (DesiredEndpoint S)) where
  abbrev pub reused : ReconcileRequest S
  reused = record q { endpoints = es }

  other_digest :
      (kept : Option ℕ) (x y : ℕ)
      → digest_matches src kept x ≡ true
      → nat_eq x y ≡ false
      → digest_matches src kept y ≡ false
  other_digest none x y h k = cc
  other_digest (some z) x y h k = ground arith

  conflict :
      (r : Reconciler S) (a : ReconcileResponse)
      → Repeats src sys q r a
      → nat_eq (digest_of src q.endpoints) (digest_of src es) ≡ false
      → no_errors src (refreshed src sys reused r).unrefreshed ≡ true
      → reconcile src sys reused r
        ≡ (record r { calls = (refreshed src sys reused r).calls }, err (stale q.generation))
  unfolding reconcile
  conflict r a v other clean = simp (v.ready, not_older src sys reused r.active v.active, refuses)
    where
      differs : digest_matches src r.last_digest (digest_of src es) ≡ false
      differs =
          other_digest r.last_digest (digest_of src q.endpoints) (digest_of src es) v.digest other

      refuses :
          replayed src r q.generation (digest_of src es) (refreshed src sys reused r)
          ≡ some (err (stale q.generation))
      refuses =
          unfold replayed in
          simp (here_again src sys reused r.active v.active, clean, v.last, differs)

  -- After a submission was accepted by a reconciler whose kept answer is that of its active generation,
  -- a submission of the same generation with endpoints of another digest, all of which can be refreshed,
  -- is refused as stale, and nothing changes but the count of calls.
  pub reconcile-reused :
      (r : Reconciler S) (a : ReconcileResponse)
      → Recorded r r.last
      → (reconcile src sys q r).1 ≡ ok a
      → nat_eq (digest_of src q.endpoints) (digest_of src es) ≡ false
      → no_errors src (refreshed src sys reused (reconcile src sys q r).0).unrefreshed ≡ true
      → reconcile src sys reused (reconcile src sys q r).0 ≡ (
        record ((reconcile src sys q r).0) {
          calls = (refreshed src sys reused (reconcile src sys q r).0).calls;
        },
        err (stale q.generation),
      )
  reconcile-reused r a h e other clean =
      conflict (reconcile src sys q r).0 a (accepted-Repeats src sys q r a h e) other clean
