-- ===== src/Control/Api/Report.antt =====
-- src/control/api.rs: the endpoints in the answer to GET /v1/status. The ages of drains, which are
-- read from a clock, are left out.
use realm.Base.{ℕ, String, List, map, Option, none, some}
use realm.Endpoint.{SocketAddr, as_str}
use realm.Endpoint.Display.{Printer}
use realm.Lifecycle.Manager.{SlotState}
use realm.Lifecycle.Manager.Status.{DrainingStatus, SlotStatus, EndpointStatus}

pub record DrainingDto : Type 0 where
  pub generation : ℕ
  pub connections : ℕ

pub record SlotStatusDto : Type 0 where
  pub protocol : String
  pub state : String
  pub error : Option String
  pub generation : ℕ
  pub listen : Option String
  pub connections : ℕ
  pub draining : List DrainingDto

pub record EndpointStatusDto : Type 0 where
  pub id : String
  pub slots : List SlotStatusDto

abbrev pub state_str : SlotState → String
state_str SlotState.running = "running"
state_str SlotState.draining = "draining"
state_str SlotState.stopped = "stopped"
state_str (SlotState.failed e) = "failed"

abbrev failure : SlotState → Option String
failure (SlotState.failed e) = some e
failure SlotState.running = none
failure SlotState.draining = none
failure SlotState.stopped = none

abbrev draining_dto : DrainingStatus → DrainingDto
draining_dto d = record { generation = d.generation; connections = d.connections }

module _ (io : Printer) where
  abbrev shown : Option SocketAddr → Option String
  shown none = none
  shown (some a) = some (io.show_addr a)

  abbrev pub slot_status_dto : SlotStatus → SlotStatusDto
  slot_status_dto s = record {
    protocol = as_str s.proto;
    state = state_str s.state;
    error = failure s.state;
    generation = s.generation;
    listen = shown s.laddr;
    connections = s.connections;
    draining = map draining_dto s.draining;
  }

  unfoldable pub endpoint_status : EndpointStatus → EndpointStatusDto
  endpoint_status e = record { id = e.id; slots = map slot_status_dto e.slots }
