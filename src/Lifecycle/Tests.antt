-- ===== src/Lifecycle/Tests.antt =====
-- A system, descriptions and slots to run the lifecycle on.
mod Slots
mod Tables
mod Submissions
mod Converges
use realm.Base.{
  ℕ, zero, suc, if◌then◌else◌, ◌+◌, String, ◌<>◌, List, [], ◌∷◌, Option, none, some, Bool, true,
  false, Result, ok, err, nat_eq, map,
}
use realm.Lb.{Balancer, roundrobin, RoundRobin, RrNode}
use realm.Base.Int.{pos}
use realm.Endpoint.{
  SocketAddr, addr_eq, v4, v6, Proto, tcp, udp, Socket, EndpointId, Endpoint, socket_addr,
}
use realm.Endpoint.Display.{Printer}
use realm.Lifecycle.Cohort
use realm.Lifecycle.Manager.{
  System, Os, Slot, SlotState, Active, Entry, Manager, DrainPolicy, default_policy, EndpointSpec,
  new,
}
use realm.Lifecycle.Reconcile.{Source, DesiredEndpoint, ReconcileRequest, Reconciler}

-- The digit of a number up to three.
abbrev digit : ℕ → String
digit zero = "0"
digit (suc zero) = "1"
digit (suc (suc zero)) = "2"
digit (suc (suc (suc n))) = "3"

abbrev addr_text : SocketAddr → String
addr_text (v4 a p) = digit a <> ":" <> digit p
addr_text (v6 a p f s) = "[" <> digit a <> "]:" <> digit p

abbrev plain : Printer
plain = record {
  show_addr = addr_text;
  show_num = digit;
  show_accept = digit;
  show_connect = digit;
}

-- Every attempt succeeds but one at port 3.
abbrev answers : Socket → Result SocketAddr String
answers (a, p) = if addr_eq a (v4 0 3) then err "in use" else ok a

abbrev pub system : System
system = record { printer = plain; bind = λ n s. answers s }

abbrev weights : ℕ → ℕ → RoundRobin
weights a b = record {
  nodes =
      record { cw = pos 0; ew = a; weight = a; token = 0 }
      ∷ record { cw = pos 0; ew = b; weight = b; token = 1 }
      ∷ [];
  total = 2;
}

abbrev pub rule : ℕ → Balancer → Endpoint
rule port b = record {
  laddr = v4 0 port;
  raddr = socket_addr (v4 1 1);
  bind_opts = record { ipv6_only = false; accept_mptcp = false; bind_interface = none };
  conn_opts = record {
    send_mptcp = false;
    connect_timeout = 2;
    associate_timeout = 3;
    tcp_keepalive = 1;
    tcp_keepalive_probe = 3;
    bind_address = none;
    bind_interface = none;
    proxy_opts = record {
      send_proxy = false;
      accept_proxy = false;
      send_proxy_version = 2;
      accept_proxy_timeout = 2;
    };
    transport = none;
    balancer = b;
  };
  extra_raddrs = socket_addr (v4 1 2) ∷ [];
}

abbrev pub balanced : ℕ → ℕ → Balancer
balanced a b = Balancer.roundrobin (weights a b)

abbrev pub described : ℕ → EndpointSpec
described port = record {
  endpoint = rule port (balanced 1 1);
  tcp = true;
  udp = false;
  drain = none;
  material = none;
}

abbrev pub no_events : Os
no_events = record { attempts = 0; log = []; detached = [] }

abbrev pub serving_plane : Active
serving_plane = record { generation = 1; laddr = v4 0 1; cohort = Cohort.new; exited = false }

abbrev pub serving_slot : Slot
serving_slot = record {
  state = SlotState.running;
  generation = 1;
  endpoint = rule 1 (balanced 1 1);
  material = none;
  active = some serving_plane;
  draining = [];
}

-- A manager that holds nothing but the slot.
abbrev pub holding : Manager
holding = record new {
  entries =
      (
        "a",
        record { slots = record { tcp = some serving_slot; udp = none }; drain = default_policy },
      )
      ∷ [];
}
