-- ===== src/Lifecycle/Manager.antt =====
-- realm_core/src/lifecycle/manager.rs: the endpoint state machines. The operating system answers
-- each attempt to bind; the answers are a parameter, and the state counts the attempts and records
-- what is done to the sockets, in order.
pub mod Table
pub mod Replace
pub mod Apply
pub mod Start
pub mod Status
use realm.Base.{
  ℕ, String, List, [], ◌∷◌, ◌++◌, Option, none, some, Bool, true, false, if◌then◌else◌, Result,
}
use realm.Base.Map.{Map}
use realm.Endpoint.{SocketAddr, Proto, Socket, EndpointId, Endpoint}
use realm.Endpoint.Display.{Printer}
use realm.Lifecycle.Cohort.{Cohort}

abbrev pub Generation : Type 0
Generation = ℕ

pub data SlotState : Type 0 where
  running draining stopped : SlotState
  failed : String → SlotState

pub data SlotAction : Type 0 where
  unchanged created updated draining deleted failed : SlotAction

abbrev pub is_failed : SlotAction → Bool
is_failed SlotAction.failed = true
is_failed SlotAction.unchanged = false
is_failed SlotAction.created = false
is_failed SlotAction.updated = false
is_failed SlotAction.draining = false
is_failed SlotAction.deleted = false

pub record SlotOutcome : Type 0 where
  pub proto : Proto
  pub action : SlotAction
  pub error : Option String
  pub retryable : Option Bool

-- `SlotOutcome::ok`, `failed`, `rejected`.
abbrev pub outcome_ok : Proto → SlotAction → SlotOutcome
outcome_ok p a = record { proto = p; action = a; error = none; retryable = none }

abbrev pub outcome_failed : Proto → String → SlotOutcome
outcome_failed p e = record {
  proto = p;
  action = SlotAction.failed;
  error = some e;
  retryable = some true;
}

abbrev pub outcome_rejected : Proto → String → SlotOutcome
outcome_rejected p e = record {
  proto = p;
  action = SlotAction.failed;
  error = some e;
  retryable = some false;
}

-- Deadlines in seconds; `none` drains without end.
pub record DrainPolicy : Type 0 where
  pub on_update : Option ℕ
  pub on_delete : Option ℕ

abbrev pub default_delete_drain : ℕ
default_delete_drain = 30

abbrev pub default_policy : DrainPolicy
default_policy = record { on_update = none; on_delete = some default_delete_drain }

pub record EndpointSpec : Type 0 where
  pub endpoint : Endpoint
  pub tcp : Bool
  pub udp : Bool
  pub drain : Option DrainPolicy
  pub material : Option ℕ

unfoldable pub protos : EndpointSpec → List Proto
protos s = (if s.tcp then Proto.tcp ∷ [] else []) ++ (if s.udp then Proto.udp ∷ [] else [])

-- A running data plane. `exited` is whether its serving task has finished on its own.
pub record Active : Type 0 where
  pub generation : Generation
  pub laddr : SocketAddr
  pub cohort : Cohort
  pub exited : Bool

-- A superseded cohort with its deadline. `finished` is whether its task has finished.
pub record Draining : Type 0 where
  pub generation : Generation
  pub cohort : Cohort
  pub deadline : Option ℕ
  pub finished : Bool

pub record Slot : Type 0 where
  pub state : SlotState
  pub generation : Generation
  pub endpoint : Endpoint
  pub material : Option ℕ
  pub active : Option Active
  pub draining : List Draining

-- `BTreeMap<Proto, Slot>`: the key has two values.
pub record Slots : Type 0 where
  pub tcp : Option Slot
  pub udp : Option Slot

pub record Entry : Type 0 where
  pub slots : Slots
  pub drain : DrainPolicy

-- What is done to the listeners: an attempt to bind with its result, a listener whose serving task
-- was stopped and joined, one whose serving task was found ended, the associations of a udp listener
-- closed and awaited. The end of its serving task closes a tcp listener; the socket of a udp listener
-- stays open while associations that drain hold it.
pub data Event : Type 0 where
  bound : Socket → SocketAddr → Event
  refused : Socket → Event
  joined : Socket → Event
  lost : Socket → Event
  associations_closed : Socket → Event

-- The operating system as the manager meets it: the attempts to bind so far, what was done to the
-- sockets (latest first), and the drain tasks whose handle was dropped, which go on by themselves.
pub record Os : Type 0 where
  pub attempts : ℕ
  pub log : List Event
  pub detached : List Draining

pub record Manager : Type 0 where
  pub entries : Map EndpointId Entry
  pub policy : DrainPolicy
  pub os : Os

-- The answer of the operating system to the n-th attempt: the error text, or the address that
-- the socket reports (another than the one asked for where the port is 0).
pub record System : Type 0 where
  pub printer : Printer
  pub bind : ℕ → Socket → Result SocketAddr String

abbrev pub with_policy : DrainPolicy → Manager
with_policy p = record {
  entries = [];
  policy = p;
  os = record { attempts = 0; log = []; detached = [] };
}

abbrev pub new : Manager
new = with_policy default_policy
