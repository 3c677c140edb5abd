-- ===== src/Control/Api/Answers.antt =====
-- src/control/api.rs: what the answers of the control interface mean.
use realm.Base.{
  ℕ, String, List, Option, Bool, true, false, if◌then◌else◌, Result, ok, err, ltb, leb, Bool-cases,
  inl, inr, ◌≡◌, refl, ◌||◌,
}
use text.Mathlib.Text.{◌==◌}
use realm.Endpoint.Display.{Printer}
use realm.Lifecycle.Manager.{System}
use realm.Lifecycle.Reconcile.{
  Source, Reconciler, ReconcileResponse, ReconcileError, stale, not_ready, internal,
}
use realm.Lifecycle.Reconcile.Submit.{reconcile}
use realm.Lifecycle.Reconcile.Restore
use realm.Lifecycle.Manager.Table.{refresh}
use realm.Lifecycle.Manager.Status
use realm.Lifecycle.Reconcile.Submit.Refusals.{reconcile_refused}
use realm.Conf.Full.{EndpointConf}
use realm.Control.Api.{
  Http, ApiState, Request, Response, Body, DesiredStateDto, reconciled, readiness, status, version,
  error, unserialized, Method, put, post, get, other, json, error_response, reconcile_error,
  readiness_response, status_response, reported, not_found, not_allowed, limited, submitted, parsed,
  collected, submit_desired, on_write, on_get, handle, request_of,
}

-- Nothing but the count of calls of the blocking pool is changed.
abbrev pub Untouched : ApiState → ApiState → Type 0
Untouched s t =
    (t.reconciler ≡ record (s.reconciler) { calls = (t.reconciler).calls }) × (t.global ≡ s.global)

-- Nothing but the slots, which were refreshed, is changed.
abbrev pub Refreshed : ApiState → ApiState → Type 0
Refreshed s t =
    (t.reconciler ≡ record (s.reconciler) { manager = refresh s.reconciler.manager })
    × (t.global ≡ s.global)

abbrev pub Tells : ApiState → ApiState → ℕ → Body → Type 0
Tells s t code (error e) = (e.retryable ≡ leb 500 code) × (leb 400 code ≡ true) × Untouched s t
Tells s t code (reconciled d) = code ≡ 200
Tells s t code (readiness d) = (t ≡ s) × (d.ready ≡ ltb code 300)
Tells s t code (status d) =
    (code ≡ 200)
    × Refreshed s t
    × (d.ready ≡ s.reconciler.ready)
    × (d.active_generation ≡ s.reconciler.active)
Tells s t code (version v cs) = (t ≡ s) × (code ≡ 200)
Tells s t code unserialized = code ≡ 500

-- An answer keeps to what its body says.
abbrev pub IsHonest : ApiState → ApiState × Response → Type 0
IsHonest s (t, r) = Tells s t r.code r.body

module _ (http : Http) (io : Printer) (s : ApiState) where
  json-IsHonest :
      (t : ApiState) (code : ℕ) (body : Body)
      → Tells s t code body
      → IsHonest s (t, json http io code body)
  unfolding json
  json-IsHonest t code body h = elim (Bool-cases (http.writes body)) [
    | inl w ↦ rw w h
    | inr n ↦ rw n refl
  ]

  error-IsHonest :
      (t : ApiState) (code : ℕ) (kind : String) (retryable : Bool) (message : String)
      (active : Option ℕ)
      → retryable ≡ leb 500 code
      → leb 400 code ≡ true
      → Untouched s t
      → IsHonest s (t, error_response http io code kind retryable message active)
  unfolding error_response
  error-IsHonest t code kind retryable message active h k u =
      json-IsHonest t code
        (error (record {
          kind = kind;
          retryable = retryable;
          message = message;
          active_generation = active;
        }))
        (h, k, u)

  reconcile_error-IsHonest :
      (t : ApiState) (e : ReconcileError)
      → Untouched s t
      → IsHonest s (t, reconcile_error http io e)
  unfolding reconcile_error
  reconcile_error-IsHonest t (stale active) u = error-IsHonest t 409 _ false _ _ refl refl u
  reconcile_error-IsHonest t not_ready u = error-IsHonest t 503 _ true _ _ refl refl u
  reconcile_error-IsHonest t (internal e) u = error-IsHonest t 500 _ true _ _ refl refl u

  not_found-IsHonest : (q : Request) → IsHonest s (s, not_found http io q)
  not_found-IsHonest q = error-IsHonest s 404 _ false _ _ refl refl (refl, refl)

  readiness-IsHonest : IsHonest s (s, readiness_response http io s.reconciler)
  unfolding readiness_response
  readiness-IsHonest = json-IsHonest s _ (readiness _) (refl, code s.reconciler.ready)
    where
      code : (b : Bool) → b ≡ ltb (if b then 200 else 503) 300
      code true = refl
      code false = refl

  status-IsHonest : IsHonest s (reported http io s (Restore.status s.reconciler))
  unfolding status_response Restore.status Status.status
  status-IsHonest =
      json-IsHonest (reported http io s (Restore.status s.reconciler)).0 200 (status _)
        (refl, (refl, refl), refl, refl)

  if-IsHonest :
      (b : Bool) (x y : ApiState × Response)
      → IsHonest s x
      → IsHonest s y
      → IsHonest s (if b then x else y)
  if-IsHonest true x y h k = h
  if-IsHonest false x y h k = k

  module _ (src : Source EndpointConf) (sys : System) where
    submitted-IsHonest :
        (x : Reconciler EndpointConf × Result ReconcileResponse ReconcileError)
        → ((e : ReconcileError) → x.1 ≡ err e → x.0 ≡ record (s.reconciler) { calls = (x.0).calls })
        → IsHonest s (submitted http io src sys s x)
    submitted-IsHonest (r, ok a) h =
        json-IsHonest (record s { reconciler = r }) 200 (reconciled _) refl
    submitted-IsHonest (r, err e) h =
        reconcile_error-IsHonest (record s { reconciler = r }) e (h e refl, refl)

    parsed-IsHonest : (d : Result DesiredStateDto String) → IsHonest s (parsed http io src sys s d)
    parsed-IsHonest (err e) = error-IsHonest s 400 _ false _ _ refl refl (refl, refl)
    parsed-IsHonest (ok dto) =
        submitted-IsHonest (reconcile src sys (request_of s.global dto) s.reconciler)
          (λ e h. reconcile_refused src sys (request_of s.global dto) s.reconciler e h)

    collected-IsHonest : (b : Result (List ℕ) String) → IsHonest s (collected http io src sys s b)
    collected-IsHonest (err e) = error-IsHonest s 413 _ false _ _ refl refl (refl, refl)
    collected-IsHonest (ok bytes) = parsed-IsHonest (http.from_slice bytes)

    on_write-IsHonest : (q : Request) → IsHonest s (on_write http io src sys s q)
    unfolding submit_desired
    on_write-IsHonest q = elim (Bool-cases (q.path == "/v1/desired-state")) [
      | inl w ↦ rw w (collected-IsHonest (limited http io q.body))
      | inr n ↦ rw n (not_found-IsHonest q)
    ]

    -- Whatever the request: an error is declared retryable exactly where its code is of the class of
    -- the server's (500 and above), its code is 400 or above, and it changed nothing but the count of
    -- calls; an answer to a submission has the code 200; readiness has a code below 300 exactly
    -- where the process is ready, and with the version changes nothing; a status has the code 200, tells
    -- whether the process is ready and the active generation, and changes nothing but that the slots
    -- are refreshed; and a body that could not be written is answered by 500.
    pub handle-IsHonest : (q : Request) → IsHonest s (handle http io src sys s q)
    unfolding handle
    handle-IsHonest q = go q.method
      where
        go :
            (m : Method)
            → IsHonest s (elim m [
              | put ↦ on_write http io src sys s q
              | post ↦ on_write http io src sys s q
              | get ↦ on_get http io src sys s q
              | other x ↦ (s, not_allowed http io q)
            ])
        go put = on_write-IsHonest q
        go post = on_write-IsHonest q
        go get = if-IsHonest (q.path == "/v1/status") _ _ status-IsHonest (
            if-IsHonest (q.path == "/v1/readiness") _ _ readiness-IsHonest (
              if-IsHonest (q.path == "/v1/version" || q.path == "/v1/capabilities") _ _
                (json-IsHonest s 200 (version _ _) (refl, refl)) (not_found-IsHonest q)))
        go (other x) = error-IsHonest s 405 _ false _ _ refl refl (refl, refl)
