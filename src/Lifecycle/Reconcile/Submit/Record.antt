-- ===== src/Lifecycle/Reconcile/Submit/Record.antt =====
-- The answer that is kept for a repeated submission, and the active generation.
use realm.Base.{
  ℕ, String, List, ◌≡◌, ◌≤◌, refl, sym, ◌∙◌, Option, none, some, Bool, true, false, Bool-cases, inl,
  inr, Result, ok, err, arith, if◌then◌else◌,
}
use realm.Base.Map.{Map}
use realm.Endpoint.{EndpointId}
use realm.Lifecycle.Manager.{System, Generation}
use realm.Lifecycle.Reconcile.{
  Source, DesiredEndpoint, ReconcileRequest, Reconciler, ReconcileResponse, ReconcileError, stale,
}
use realm.Lifecycle.Reconcile.Apply.{apply_generation, generation_state}
use realm.Lifecycle.Reconcile.Submit.{
  Refreshed, reconcile, admitted, submit, commit, persist, replayed, digest_of, refreshed, is_older,
  is_active, gated, replay, is_partial_state, no_errors,
}
use realm.Lifecycle.Reconcile.Submit.Refusals.{admitted_refused}

-- The kept answer is the active generation's, and says whether it was applied in full.
abbrev pub Recorded : {S : Type 0} → Reconciler S → Option ReconcileResponse → Type 0
Recorded r none = Unit {0}
Recorded r (some l) =
    (r.active ≡ some l.generation)
    × (r.partial ≡ is_partial_state l.state)
    × (l.state ≡ generation_state l.results)

module _ {S : Type 0} (src : Source S) (sys : System) (q : ReconcileRequest S) where
  abbrev Answer : Type 0
  Answer = Result ReconcileResponse ReconcileError

  -- An accepted submission is the kept one, and the active generation is the one submitted.
  abbrev pub Accepts : Reconciler S × Answer → Type 0
  Accepts (r, ok a) =
      (r.last ≡ some a)
      × (r.active ≡ some q.generation)
      × (a.generation ≡ q.generation)
      × Recorded r r.last
  Accepts (r, err e) = Recorded r r.last

  persist-same :
      (r : Reconciler S)
      → ((persist r).last ≡ r.last)
        × ((persist r).active ≡ r.active)
        × ((persist r).partial ≡ r.partial)
  unfolding persist
  persist-same r = ground arith

  commit-Accepts :
      (d : ℕ) (x : Reconciler S × ReconcileResponse)
      → (x.1).generation ≡ q.generation
      → (x.1).state ≡ generation_state (x.1).results
      → Accepts (commit src sys q.generation d x)
  unfolding commit persist
  commit-Accepts d (r, a) h k = ground arith

  apply_generation-answers :
      (es : List (DesiredEndpoint S)) (u : Map EndpointId String) (r : Reconciler S)
      → let a = (apply_generation sys src q.generation es u r).1 in
        (a.generation ≡ q.generation) × (a.state ≡ generation_state a.results)
  unfolding apply_generation
  apply_generation-answers es u r = (refl, refl)

  is_active-eq :
      (a : Option Generation) → is_active src a q.generation ≡ true → a ≡ some q.generation
  is_active-eq none h = cc
  is_active-eq (some g) h = ground arith

  applied-Accepts :
      (r : Reconciler S) (d : ℕ) (f : Refreshed S) → Accepts (submit src sys q r d f none)
  applied-Accepts r d f =
      let w = apply_generation-answers f.endpoints f.unrefreshed (record r { calls = f.calls }) in
      commit-Accepts d _ w.0 w.1

  -- The three ways in which a repeated submission is answered.
  repeated-Accepts :
      (r : Reconciler S) (d : ℕ) (f : Refreshed S) (l : ReconcileResponse) (b : Bool)
      (x : Option EndpointId)
      → r.last ≡ some l
      → Recorded r (some l)
      → r.active ≡ some q.generation
      → Accepts (
          submit src sys q r d f (
            if b
            then some (elim x [ none ↦ ok l | some id ↦ err (stale q.generation) ])
            else some (err (stale q.generation))))
  repeated-Accepts r d f l true none e h a = (e, a, ground arith, rw e h)
  repeated-Accepts r d f l true (some id) e h a = rw e h
  repeated-Accepts r d f l false x e h a = rw e h

  submit-Accepts :
      (r : Reconciler S) (d : ℕ) (f : Refreshed S) (l : Option ReconcileResponse)
      → r.last ≡ l
      → Recorded r l
      → r.active ≡ some q.generation
      → Accepts (submit src sys q r d f (replay src r q.generation d f.endpoints l))
  submit-Accepts r d f none e h a = applied-Accepts r d f
  submit-Accepts r d f (some l) e h a = repeated-Accepts r d f l _ _ e h a

  admitted-Accepts : (r : Reconciler S) → Recorded r r.last → Accepts (admitted src sys q r)
  unfolding admitted replayed
  admitted-Accepts r h =
      let d = digest_of src q.endpoints in
      let f = refreshed src sys q r in
      elim (Bool-cases (is_active src r.active q.generation)) [
        | inl here ↦ elim (Bool-cases (no_errors src f.unrefreshed)) [
          | inl clean ↦
              simp (here, clean) (submit-Accepts r d f r.last refl h (is_active-eq r.active here))
          | inr failed ↦ simp (here, failed) (applied-Accepts r d f)
        ]
        | inr other ↦ simp other (applied-Accepts r d f)
      ]

  gated-Accepts :
      (r : Reconciler S) (b c : Bool) → Recorded r r.last → Accepts (gated src sys q r b c)
  gated-Accepts r false c h = h
  gated-Accepts r true true h = h
  gated-Accepts r true false h = admitted-Accepts r h

  -- Where the kept answer is that of the active generation, with the partial flag that its
  -- state and its results give, it is so after any submission. An accepted submission is the
  -- kept answer, and its generation is the active one.
  pub reconcile-Accepts : (r : Reconciler S) → Recorded r r.last → Accepts (reconcile src sys q r)
  unfolding reconcile
  reconcile-Accepts r h = gated-Accepts r r.ready (is_older src q.generation r.active) h

  older-le :
      (a : Option Generation) (g : Generation)
      → is_older src q.generation a ≡ false
      → a ≡ some g
      → g ≤ q.generation
  older-le none g h e = cc
  older-le (some a) g h e = ground arith

  abbrev Advances : Reconciler S → Reconciler S → Type 0
  Advances r r' = (g g' : Generation) → r.active ≡ some g → r'.active ≡ some g' → g ≤ g'

  Advances-same : (r r' : Reconciler S) → r'.active ≡ r.active → Advances r r'
  Advances-same r r' e g g' h k = let x : some g ≡ some g' = sym h ∙ (sym e ∙ k) in ground arith

  gated-Advances :
      (r : Reconciler S) (b c : Bool)
      → is_older src q.generation r.active ≡ c
      → Recorded r r.last
      → Advances r (gated src sys q r b c).0
  gated-Advances r false c o h = Advances-same r r refl
  gated-Advances r true true o h = Advances-same r r refl
  gated-Advances r true false o h =
      go (admitted src sys q r).0 (admitted src sys q r).1 refl (admitted-Accepts r h)
        (admitted_refused src sys q r)
    where
      go :
          (r' : Reconciler S) (a : Answer)
          → admitted src sys q r ≡ (r', a)
          → Accepts (r', a)
          → ((e : ReconcileError) → a ≡ err e → r'.active ≡ r.active)
          → Advances r r'
      go r' (err e) w x keep = Advances-same r r' (keep e refl)
      go r' (ok a) w x keep = λ g g' i j.
          let y : some q.generation ≡ some g' = sym (x.1) ∙ j in
          ground (arith, older-le r.active g o i)

  -- Where the kept answer is that of the active generation, the generation that is active
  -- after a submission is not below the one that was active before it.
  pub reconcile-Advances :
      (r : Reconciler S) (g g' : Generation)
      → Recorded r r.last
      → r.active ≡ some g
      → ((reconcile src sys q r).0).active ≡ some g'
      → g ≤ g'
  unfolding reconcile
  reconcile-Advances r g g' h =
      gated-Advances r r.ready (is_older src q.generation r.active) refl h g g'
