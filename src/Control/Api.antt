-- ===== src/Control/Api.antt =====
-- src/control/api.rs: the routes over the reconciler. HTTP and the JSON of the bodies are libraries:
-- what they give is a parameter. A status report is the refresh of the manager with the report of it, and
-- the generation asked for next, with no other message handled in between; the settings of the
-- process, which are in it, are left out.
pub mod Answers
pub mod Report
pub mod Serves
mod Tests
use realm.Base.{
  ℕ, String, ◌<>◌, List, [], ◌∷◌, Option, none, some, Bool, true, false, if◌then◌else◌, Result, ok,
  err, ltb, length, map, ◌||◌, ◌++◌,
}
use text.Mathlib.Text.{◌==◌}
use realm.Endpoint.{Proto, EndpointId, as_str}
use realm.Endpoint.Display.{Printer}
use realm.Lifecycle.Manager.{System, Generation, SlotAction}
use realm.Lifecycle.Reconcile.{
  Source, DesiredEndpoint, ReconcileRequest, Reconciler, ReconcileResponse, ReconcileError, stale,
  not_ready, internal, GenerationState, applied, partially_applied, EndpointResult,
}
use realm.Lifecycle.Reconcile.Submit.{reconcile}
use realm.Lifecycle.Reconcile.Restore
use realm.Lifecycle.Manager.Status.{EndpointStatus}
use realm.Control.Api.Report.{EndpointStatusDto, endpoint_status}
use realm.Conf.Net.{NetConf}
use realm.Conf.Full.{EndpointConf, normalized}

abbrev pub max_body_bytes : ℕ
max_body_bytes = 8388608

abbrev pub schema_version : ℕ
schema_version = 1

abbrev pub capabilities : List String
capabilities =
    "desired-state-reconcile" ∷ "stable-endpoint-ids" ∷ "per-protocol-results"
    ∷ "connection-preserving-tcp-update" ∷ "udp-association-rebuild" ∷ "per-endpoint-drain-timeout"
    ∷ "draining-cohort-status" ∷ "snapshot-restore" ∷ []

pub data Method : Type 0 where
  put post get : Method
  other : String → Method

abbrev pub show_method : Method → String
show_method put = "PUT"
show_method post = "POST"
show_method get = "GET"
show_method (other m) = m

pub record DesiredEndpointDto : Type 0 where
  pub id : String
  pub conf : EndpointConf

pub record DesiredStateDto : Type 0 where
  pub generation : ℕ
  pub endpoints : List DesiredEndpointDto

-- A request with what reading its body gives.
pub record Request : Type 0 where
  pub method : Method
  pub path : String
  pub body : Result (List ℕ) String

pub record EndpointResultDto : Type 0 where
  pub id : String
  pub protocol : String
  pub action : String
  pub error : Option String
  pub retryable : Option Bool

pub record ReconcileResponseDto : Type 0 where
  pub generation : ℕ
  pub state : String
  pub results : List EndpointResultDto

pub record ErrorBodyDto : Type 0 where
  pub kind : String
  pub retryable : Bool
  pub message : String
  pub active_generation : Option ℕ

pub record ReadinessDto : Type 0 where
  pub ready : Bool
  pub active_generation : Option ℕ
  pub partial : Bool

pub record StatusDto : Type 0 where
  pub active_generation : Option ℕ
  pub generation_state : Option String
  pub ready : Bool
  pub endpoints : List EndpointStatusDto

-- The bodies; `unserialized` is the one that stands for a body that serde could not write.
pub data Body : Type 0 where
  reconciled : ReconcileResponseDto → Body
  readiness : ReadinessDto → Body
  status : StatusDto → Body
  version : ℕ → List String → Body
  error : ErrorBodyDto → Body
  unserialized : Body

pub record Response : Type 0 where
  pub code : ℕ
  pub body : Body

-- hyper and serde: the parse of a document, the error of a body that is too long, whether a body
-- can be written, and the tokens of the transport feature, where it is compiled in.
pub record Http : Type 0 where
  pub from_slice : List ℕ → Result DesiredStateDto String
  pub too_long : String
  pub writes : Body → Bool
  pub transport_capabilities : List String

pub record ApiState : Type 0 where
  pub reconciler : Reconciler EndpointConf
  pub global : NetConf

abbrev pub action_str : SlotAction → String
action_str SlotAction.unchanged = "unchanged"
action_str SlotAction.created = "created"
action_str SlotAction.updated = "updated"
action_str SlotAction.draining = "draining"
action_str SlotAction.deleted = "deleted"
action_str SlotAction.failed = "failed"

abbrev pub show_state : GenerationState → String
show_state applied = "applied"
show_state partially_applied = "partially-applied"

abbrev pub result_dto : EndpointResult → EndpointResultDto
result_dto r = record {
  id = r.id;
  protocol = as_str r.proto;
  action = action_str r.action;
  error = r.error;
  retryable = r.retryable;
}

-- The request that a document becomes: the process-wide network options fill what it leaves out.
unfoldable pub request_of : NetConf → DesiredStateDto → ReconcileRequest EndpointConf
request_of global dto = record {
  generation = dto.generation;
  endpoints = map (λ e. record { id = e.id; spec = normalized global e.conf }) dto.endpoints;
}

module _ (http : Http) (io : Printer) where
  unfoldable pub json : ℕ → Body → Response
  json code body =
      if http.writes body
      then record { code = code; body = body }
      else record { code = 500; body = unserialized }

  unfoldable pub error_response : ℕ → String → Bool → String → Option ℕ → Response
  unfolding json
  error_response code kind retryable message active = json code (
      error (record {
        kind = kind;
        retryable = retryable;
        message = message;
        active_generation = active;
      }))

  unfoldable pub reconcile_error : ReconcileError → Response
  unfolding error_response
  reconcile_error (stale active) =
      error_response 409 "stale-generation" false
        ("stale generation, active generation is " <> io.show_num active) (some active)
  reconcile_error not_ready =
      error_response 503 "not-ready" true "not ready: snapshot restore has not finished" none
  reconcile_error (internal e) = error_response 500 "internal" true ("internal error: " <> e) none

  abbrev pub reconciled_response : Result ReconcileResponse ReconcileError → Response
  reconciled_response (err e) = reconcile_error e
  reconciled_response (ok r) = json 200 (
      reconciled (record {
        generation = r.generation;
        state = show_state r.state;
        results = map result_dto r.results;
      }))

  abbrev not_found : Request → Response
  not_found q =
      error_response 404 "unknown-route" false
        ("no route for " <> show_method q.method <> " " <> q.path) none

  abbrev not_allowed : Request → Response
  not_allowed q =
      error_response 405 "method-not-allowed" false
        (show_method q.method <> " is not allowed on " <> q.path) none

  unfoldable pub readiness_response : Reconciler EndpointConf → Response
  unfolding json
  readiness_response r =
      json (if r.ready then 200 else 503)
        (readiness (record { ready = r.ready; active_generation = r.active; partial = r.partial }))

  abbrev generation_state : Reconciler EndpointConf → Option ℕ → Option String
  generation_state r none = none
  generation_state r (some g) = some (if r.partial then "partially-applied" else "applied")

  unfoldable pub status_response : Reconciler EndpointConf → List EndpointStatus → Response
  unfolding json endpoint_status
  status_response r es = json 200 (
      status (record {
        active_generation = r.active;
        generation_state = generation_state r r.active;
        ready = r.ready;
        endpoints = map (endpoint_status io) es;
      }))

  abbrev pub reported :
      ApiState → Reconciler EndpointConf × List EndpointStatus → ApiState × Response
  reported s (r, es) = (record s { reconciler = r }, status_response r es)

  abbrev pub too_large : String → Response
  too_large e =
      error_response 413 "request-too-large" false
        ("request body exceeds " <> io.show_num max_body_bytes <> " bytes: " <> e) none

  -- `Limited`: a body that is longer than the limit is an error.
  abbrev pub limited : Result (List ℕ) String → Result (List ℕ) String
  limited (err e) = err e
  limited (ok bytes) = if ltb max_body_bytes (length bytes) then err http.too_long else ok bytes

  module _ (src : Source EndpointConf) (sys : System) where
    abbrev pub submitted :
        ApiState
        → Reconciler EndpointConf × Result ReconcileResponse ReconcileError
        → ApiState × Response
    submitted s (r, a) = (record s { reconciler = r }, reconciled_response a)

    abbrev pub parsed : ApiState → Result DesiredStateDto String → ApiState × Response
    parsed s (err e) = (
      s,
      error_response 400 "malformed-request" false ("cannot parse the desired state: " <> e) none,
    )
    parsed s (ok dto) = submitted s (reconcile src sys (request_of s.global dto) s.reconciler)

    abbrev pub collected : ApiState → Result (List ℕ) String → ApiState × Response
    collected s (err e) = (s, too_large e)
    collected s (ok bytes) = parsed s (http.from_slice bytes)

    unfoldable pub submit_desired : ApiState → Request → ApiState × Response
    unfolding json error_response reconcile_error request_of
    submit_desired s q = collected s (limited q.body)

    -- `handle`, by the method.
    abbrev pub on_get : ApiState → Request → ApiState × Response
    on_get s q =
        if q.path == "/v1/status"
        then reported s (Restore.status s.reconciler)
        else if q.path == "/v1/readiness"
        then (s, readiness_response s.reconciler)
        else if q.path == "/v1/version" || q.path == "/v1/capabilities"
        then (s, json 200 (version schema_version (capabilities ++ http.transport_capabilities)))
        else (s, not_found q)

    abbrev pub on_write : ApiState → Request → ApiState × Response
    on_write s q = if q.path == "/v1/desired-state" then submit_desired s q else (s, not_found q)

    unfoldable pub handle : ApiState → Request → ApiState × Response
    unfolding submit_desired status_response readiness_response Restore.status
    handle s q = elim q.method [
      | put ↦ on_write s q
      | post ↦ on_write s q
      | get ↦ on_get s q
      | other m ↦ (s, not_allowed q)
    ]
