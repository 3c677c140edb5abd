-- ===== src/Lifecycle/Reconcile/Submit/Replay.antt =====
-- A submission that comes again: the first answer.
use realm.Base.{
  ℕ, String, List, ◌≡◌, refl, ◌∙◌, Option, none, some, Bool, true, false, Bool-cases, inl, inr,
  Result, ok, err, arith, ◌&&◌,
}
use realm.Base.Map.{Map}
use realm.Endpoint.{EndpointId}
use realm.Lifecycle.Manager.{System, Generation}
use realm.Lifecycle.Reconcile.{
  Source, DesiredEndpoint, ReconcileRequest, Reconciler, ReconcileResponse, ReconcileError, stale,
}
use realm.Lifecycle.Reconcile.Apply.{apply_generation}
use realm.Lifecycle.Reconcile.Submit.{
  Refreshed, reconcile, admitted, submit, commit, persist, replayed, digest_of, refreshed, is_older,
  is_active, gated, replay, no_errors, digest_matches, material_drifted,
}
use realm.Lifecycle.Reconcile.Submit.Record.{Recorded, Accepts, reconcile-Accepts}

module _ {S : Type 0} (src : Source S) (sys : System) (q : ReconcileRequest S) where
  abbrev Answer : Type 0
  Answer = Result ReconcileResponse ReconcileError

  -- After an accepted submission the process is ready, and the digest that is kept is its.
  abbrev Digests : Reconciler S × Answer → Type 0
  Digests (r, ok a) =
      (r.ready ≡ true) × (digest_matches src r.last_digest (digest_of src q.endpoints) ≡ true)
  Digests (r, err e) = Unit {0}

  commit-Digests :
      (x : Reconciler S × ReconcileResponse)
      → (x.0).ready ≡ true
      → Digests (commit src sys q.generation (digest_of src q.endpoints) x)
  unfolding commit persist
  commit-Digests (r, a) h = ground arith

  apply_generation-ready :
      (es : List (DesiredEndpoint S)) (u : Map EndpointId String) (r : Reconciler S)
      → ((apply_generation sys src q.generation es u r).0).ready ≡ r.ready
  unfolding apply_generation
  apply_generation-ready es u r = refl

  applied-Digests :
      (r : Reconciler S) (f : Refreshed S)
      → r.ready ≡ true
      → Digests (submit src sys q r (digest_of src q.endpoints) f none)
  applied-Digests r f h =
      commit-Digests _
        (apply_generation-ready f.endpoints f.unrefreshed (record r { calls = f.calls }) ∙ h)

  repeated-Digests :
      (r : Reconciler S) (f : Refreshed S) (l : Option ReconcileResponse)
      → r.ready ≡ true
      → let d = digest_of src q.endpoints in
        Digests (submit src sys q r d f (replay src r q.generation d f.endpoints l))
  repeated-Digests r f none h = applied-Digests r f h
  repeated-Digests r f (some l) h =
      elim (Bool-cases (digest_matches src r.last_digest (digest_of src q.endpoints))) [
        | inl same ↦ rw same (go (material_drifted src r.applied f.endpoints) same)
        | inr other ↦ rw other tt
      ]
    where
      go :
          (x : Option EndpointId)
          → digest_matches src r.last_digest (digest_of src q.endpoints) ≡ true
          → Digests (
              submit src sys q r
                (digest_of src q.endpoints)
                f
                (some (elim x [ none ↦ ok l | some id ↦ err (stale q.generation) ])))
      go none same = (h, same)
      go (some id) same = tt

  admitted-Digests : (r : Reconciler S) → r.ready ≡ true → Digests (admitted src sys q r)
  unfolding admitted replayed
  admitted-Digests r h =
      let d = digest_of src q.endpoints in
      let f = refreshed src sys q r in
      elim (Bool-cases (is_active src r.active q.generation && no_errors src f.unrefreshed)) [
        | inl here ↦ simp here (repeated-Digests r f r.last h)
        | inr other ↦ simp other (applied-Digests r f h)
      ]

  gated-Digests : (r : Reconciler S) (b c : Bool) → r.ready ≡ b → Digests (gated src sys q r b c)
  gated-Digests r false c h = tt
  gated-Digests r true true h = tt
  gated-Digests r true false h = admitted-Digests r h

  -- A ready reconciler whose active generation is the one submitted, with nothing in the way.
  pub record Repeats (r : Reconciler S) (a : ReconcileResponse) : Type 0 where
    pub ready : r.ready ≡ true
    pub last : r.last ≡ some a
    pub active : r.active ≡ some q.generation
    pub digest : digest_matches src r.last_digest (digest_of src q.endpoints) ≡ true

  Repeats-of :
      (x : Reconciler S × Answer) (a : ReconcileResponse)
      → Accepts src sys q x
      → Digests x
      → x.1 ≡ ok a
      → Repeats x.0 a
  Repeats-of (r, ok b) a h d e =
      let same : b ≡ a = cc in
      record { ready = d.0; last = rw same at h.0; active = h.1; digest = d.1 }
  Repeats-of (r, err x) a h d e = cc

  pub not_older :
      (a : Option Generation) → a ≡ some q.generation → is_older src q.generation a ≡ false
  not_older none e = cc
  not_older (some g) e = ground arith

  pub here_again :
      (a : Option Generation) → a ≡ some q.generation → is_active src a q.generation ≡ true
  here_again none e = cc
  here_again (some g) e = ground arith

  replay_last :
      (r : Reconciler S) (d : ℕ) (f : Refreshed S) (a : ReconcileResponse)
      (l : Option ReconcileResponse)
      → l ≡ some a
      → digest_matches src r.last_digest d ≡ true
      → material_drifted src r.applied f.endpoints ≡ none
      → replay src r q.generation d f.endpoints l ≡ some (ok a)
  replay_last r d f a none e m same = cc
  replay_last r d f a (some l) e m same = ground arith

  replayed_last :
      (r : Reconciler S) (f : Refreshed S) (a : ReconcileResponse)
      → Repeats r a
      → no_errors src f.unrefreshed ≡ true
      → material_drifted src r.applied f.endpoints ≡ none
      → replayed src r q.generation (digest_of src q.endpoints) f ≡ some (ok a)
  unfolding replayed
  replayed_last r f a v clean same =
      simp (here_again r.active v.active, clean)
        (replay_last r (digest_of src q.endpoints) f a r.last v.last v.digest same)

  repeat_answer :
      (r : Reconciler S) (a : ReconcileResponse)
      → Repeats r a
      → no_errors src (refreshed src sys q r).unrefreshed ≡ true
      → material_drifted src r.applied (refreshed src sys q r).endpoints ≡ none
      → reconcile src sys q r ≡ (record r { calls = (refreshed src sys q r).calls }, ok a)
  unfolding reconcile
  repeat_answer r a v clean same =
      simp (
        v.ready,
        not_older r.active v.active,
        replayed_last r (refreshed src sys q r) a v clean same,
      )

  pub accepted-Repeats :
      (r : Reconciler S) (a : ReconcileResponse)
      → Recorded r r.last
      → (reconcile src sys q r).1 ≡ ok a
      → Repeats (reconcile src sys q r).0 a
  accepted-Repeats r a h e =
      Repeats-of (reconcile src sys q r) a (reconcile-Accepts src sys q r h) (digests r) e
    where
      digests : (s : Reconciler S) → Digests (reconcile src sys q s)
      digests s = unfold reconcile in gated-Digests s s.ready _ refl

  -- A submission is accepted by a reconciler whose kept answer is that of its active
  -- generation, and comes again; nothing fails to be refreshed then, and the material of no
  -- applied description drifted. It gets the first answer, and nothing changes but the count
  -- of calls.
  pub reconcile_again :
      (r : Reconciler S) (a : ReconcileResponse)
      → Recorded r r.last
      → (reconcile src sys q r).1 ≡ ok a
      → no_errors src (refreshed src sys q (reconcile src sys q r).0).unrefreshed ≡ true
      → material_drifted src
          ((reconcile src sys q r).0).applied
          (refreshed src sys q (reconcile src sys q r).0).endpoints
        ≡ none
      → reconcile src sys q (reconcile src sys q r).0 ≡ (
        record ((reconcile src sys q r).0) {
          calls = (refreshed src sys q (reconcile src sys q r).0).calls;
        },
        ok a,
      )
  reconcile_again r a h e clean same = repeat_answer _ a (accepted-Repeats r a h e) clean same
