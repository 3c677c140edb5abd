-- ===== src/Control/Api/Serves.antt =====
-- src/control/api.rs: a submission over the control interface that is answered `applied`.
use realm.Base.{
  ℕ, String, List, Option, Bool, true, false, if◌then◌else◌, Result, ok, err, ltb, length, ◌≡◌,
  refl, ap, ◌∙◌,
}
use mathlib.Core.List.{Memᴰ}
use realm.Endpoint.Display.{Printer}
use realm.Lifecycle.Manager.{System, EndpointSpec}
use realm.Lifecycle.Manager.Apply.Same.{AllLive}
use realm.Lifecycle.Reconcile.{
  Source, DesiredEndpoint, Reconciler, ReconcileResponse, ReconcileError, stale, not_ready,
  internal, GenerationState, applied, partially_applied,
}
use realm.Lifecycle.Reconcile.Submit.{reconcile, refreshed, is_active}
use realm.Lifecycle.Reconcile.Converge.{Wholly}
use realm.Lifecycle.Reconcile.Converge.Drafts.{BuildsTo}
use realm.Lifecycle.Reconcile.Converge.Submitted.{reconcile-serves}
use realm.Conf.Full.{EndpointConf}
use realm.Control.Api.{
  Http, ApiState, Request, Response, DesiredStateDto, ReconcileResponseDto, reconciled, error,
  unserialized, put, json, error_response, reconcile_error, reconciled_response, show_state,
  submitted, submit_desired, handle, request_of, max_body_bytes,
}

-- The body is a reconcile response whose state is `applied`.
abbrev pub SaysApplied : Response → Type 0
SaysApplied r = (d : ReconcileResponseDto) × (r.body ≡ reconciled d) × (d.state ≡ "applied")

abbrev pub put_desired : List ℕ → Request
put_desired bytes = record { method = put; path = "/v1/desired-state"; body = ok bytes }

show_state-applied : (g : GenerationState) → show_state g ≡ "applied" → g ≡ applied
show_state-applied applied h = refl
show_state-applied partially_applied h = cc

module _ (http : Http) (io : Printer) where
  error-body :
      (code : ℕ) (kind : String) (b : Bool) (message : String) (active : Option ℕ)
      → SaysApplied (error_response http io code kind b message active)
      → ⊥
  unfolding error_response json
  error-body code kind b message active (d, h, s) = go (http.writes (error _)) h
    where
      answer : Bool → Response
      answer w =
          if w
          then record {
            code = code;
            body = error (record {
              kind = kind;
              retryable = b;
              message = message;
              active_generation = active;
            });
          }
          else record { code = 500; body = unserialized }

      go : (w : Bool) → (answer w).body ≡ reconciled d → ⊥
      go true e = cc
      go false e = cc

  reconcile_error-body : (e : ReconcileError) → SaysApplied (reconcile_error http io e) → ⊥
  unfolding reconcile_error
  reconcile_error-body (stale active) h = error-body _ _ _ _ _ h
  reconcile_error-body not_ready h = error-body _ _ _ _ _ h
  reconcile_error-body (internal e) h = error-body _ _ _ _ _ h

  written :
      (x d : ReconcileResponseDto) → (json http io 200 (reconciled x)).body ≡ reconciled d → x ≡ d
  unfolding json
  written x d = go (http.writes (reconciled x))
    where
      answer : Bool → Response
      answer w =
          if w
          then record { code = 200; body = reconciled x }
          else record { code = 500; body = unserialized }

      go : (w : Bool) → (answer w).body ≡ reconciled d → x ≡ d
      go true e = cc
      go false e = cc

  says :
      (a : Result ReconcileResponse ReconcileError)
      → SaysApplied (reconciled_response http io a)
      → (r : ReconcileResponse) × (a ≡ ok r) × (r.state ≡ applied)
  says (err e) h = absurd (reconcile_error-body e h)
  says (ok r) h = (
    r,
    refl,
    show_state-applied r.state
        (ap (λ (x : ReconcileResponseDto). x.state) (written _ h.0 h.1) ∙ h.2),
  )

  module _ (src : Source EndpointConf) (sys : System) (s : ApiState) (bytes : List ℕ)
      (dto : DesiredStateDto) where
    abbrev outcome : Reconciler EndpointConf × Result ReconcileResponse ReconcileError
    outcome = reconcile src sys (request_of s.global dto) s.reconciler

    handled :
        ltb max_body_bytes (length bytes) ≡ false
        → http.from_slice bytes ≡ ok dto
        → handle http io src sys s (put_desired bytes) ≡ submitted http io src sys s outcome
    unfolding handle submit_desired
    handled h e = rw (h, e) refl

    -- A document that is sent to the control interface, is no longer than the limit and parses: where
    -- the planes run, its generation is not the active one and the answer says `applied`, every
    -- endpoint of the document (normalized by the process-wide options, and refreshed) builds, and
    -- every protocol of what it builds to is served under its id.
    pub handle-serves :
        ltb max_body_bytes (length bytes) ≡ false
        → http.from_slice bytes ≡ ok dto
        → AllLive s.reconciler.manager
        → is_active src s.reconciler.active dto.generation ≡ false
        → SaysApplied (handle http io src sys s (put_desired bytes)).1
        → (e : DesiredEndpoint EndpointConf)
        → Memᴰ e (refreshed src sys (request_of s.global dto) s.reconciler).endpoints
        → (b : EndpointSpec) × BuildsTo src s.reconciler.manager s.reconciler.applied e.spec b
          × Wholly (handle http io src sys s (put_desired bytes)).0.reconciler.manager e.id b
    unfolding request_of
    handle-serves h p l n a e t =
        let step = handled h p in
        let told : SaysApplied (submitted http io src sys s outcome).1 = rw step at a in
        let (r, answered, is_applied) = says outcome.1 told in
        rw step (
          reconcile-serves src sys (request_of s.global dto) s.reconciler r l n answered is_applied
            e t)
