-- ===== src/Lifecycle/Reconcile.antt =====
-- realm_core/src/lifecycle/reconcile.rs: the data of the reconciler. The consumer of the queue takes
-- one message at a time, so a submission is one call.
pub mod Planning
pub mod Release
pub mod Apply
pub mod Submit
pub mod Restore
pub mod Reach
pub mod Converge
use realm.Base.{
  ℕ, ◌+◌, String, ◌<>◌, List, [], ◌∷◌, Option, none, some, Bool, true, false, ◌&&◌, not,
  if◌then◌else◌, Result, ok, err, nat_eq,
}
use realm.Base.Map.{Map}
use realm.Base.Map
use realm.Endpoint.{Proto, tcp, udp, EndpointId, id_key}
use realm.Lifecycle.Manager.{System, Manager, EndpointSpec, Generation, SlotAction, SlotOutcome}

pub record DesiredEndpoint (S : Type 0) : Type 0 where
  pub id : EndpointId
  pub spec : S

pub record ReconcileRequest (S : Type 0) : Type 0 where
  pub generation : Generation
  pub endpoints : List (DesiredEndpoint S)

pub data GenerationState : Type 0 where
  applied partially_applied : GenerationState

pub record EndpointResult : Type 0 where
  pub id : EndpointId
  pub proto : Proto
  pub action : SlotAction
  pub error : Option String
  pub retryable : Option Bool

pub record ReconcileResponse : Type 0 where
  pub generation : Generation
  pub state : GenerationState
  pub results : List EndpointResult

pub data ReconcileError : Type 0 where
  stale : Generation → ReconcileError
  not_ready : ReconcileError
  internal : String → ReconcileError

unfoldable pub is_retryable : ReconcileError → Bool
is_retryable (stale active) = false
is_retryable not_ready = true
is_retryable (internal e) = true

-- What a description is to the reconciler (`EndpointSource`), with the libraries that it goes
-- through: serde's bytes, the hasher, and the n-th call on the blocking pool, which may fail.
pub record Source (S : Type 0) : Type 0 where
  pub same : S → S → Bool
  pub refresh : ℕ → S → Result S String
  pub build : ℕ → S → Result EndpointSpec String
  pub to_vec : S → Option (List ℕ)
  pub to_vec_all : List (EndpointId × S) → Option (List ℕ)
  pub hash : List ℕ → ℕ

pub data Plan : Type 0 where
  unchanged : Plan
  start replace : EndpointSpec → Plan
  delete : Plan
  invalid : String → Plan

-- `Snapshot<S>` of realm_core/src/lifecycle/snapshot.rs.
pub record Snapshot (S : Type 0) : Type 0 where
  pub generation : Generation
  pub partial : Bool
  pub endpoints : Map EndpointId S

-- The reconciler, with the number of calls of the blocking pool so far and the snapshots that it
-- handed to its store, latest first; `snapshot` is whether it has one.
pub record Reconciler (S : Type 0) : Type 0 where
  pub manager : Manager
  pub applied : Map EndpointId S
  pub active : Option Generation
  pub last : Option ReconcileResponse
  pub last_digest : Option ℕ
  pub partial : Bool
  pub ready : Bool
  pub snapshot : Bool
  pub calls : ℕ
  pub writes : List (Snapshot S)
