-- ===== src/Udp/Middle.antt =====
-- realm_core/src/udp/middle.rs: one batch of datagrams from the clients, sent on. The resolver, the
-- sockets and their errors are parameters; each socket that is asked for comes with a task for its
-- answers (`send_back`).
pub mod Delivery
pub mod Batch
mod Tests
use realm.Base.{List, [], ◌∷◌, ◌++◌, map, Option, none, some, Result, ok, err, String, ℕ}
use realm.Endpoint.{SocketAddr, RemoteAddr}
use realm.Udp.SockMap.{State, find_or_insert}
use realm.Udp.Registry.{Packet, Registry, batched_recv_on, group_by_addr, group_iter}

pub data Answer : Type 0 where
  done panics : Answer
  failed : String → Answer

-- The packets of one client that were all sent, by the socket that they are sent through.
pub record Sent (T : Type 0) : Type 0 where
  pub socket : T
  pub client : SocketAddr
  pub to : SocketAddr
  pub pkts : List Packet

pub record Relay (T : Type 0) : Type 0 where
  pub registry : Registry
  pub table : State T
  pub sent : List (Sent T)

-- The answers of the system: what is received, the resolution, the sockets and the sending.
pub record Calls (T : Type 0) : Type 0 where
  pub recv : Result (List Packet) String
  pub resolve_addr : RemoteAddr → Result (List SocketAddr) String
  pub associate : ℕ → Result T String
  pub send_all : T → List Packet → Option String

module _ {T : Type 0} (calls : Calls T) where
  abbrev pub send_group :
      SocketAddr → SocketAddr → List Packet → T → Option String → Relay T → Relay T × Answer
  send_group to client pkts t (some e) s = (s, failed e)
  send_group to client pkts t none s = (
    record s {
      sent = s.sent ++ (record { socket = t; client = client; to = to; pkts = pkts } ∷ []);
    },
    done,
  )

  abbrev pub with_socket :
      SocketAddr → SocketAddr → List Packet → State T × Result T String → Relay T → Relay T × Answer
  with_socket to client pkts (table, err e) s = (record s { table = table }, failed e)
  with_socket to client pkts (table, ok t) s =
      send_group to client pkts t (calls.send_all t pkts) (record s { table = table })

  -- The body of the loop over the groups; an empty group has no first packet.
  unfoldable pub relay_group : SocketAddr → List Packet → Relay T → Relay T × Answer
  unfolding find_or_insert
  relay_group to [] s = (s, panics)
  relay_group to (p ∷ ps) s =
      with_socket to p.addr (p ∷ ps) (find_or_insert calls.associate p.addr s.table) s

  abbrev pub and_then : (Relay T → Relay T × Answer) → Relay T × Answer → Relay T × Answer
  and_then f (s, done) = f s
  and_then f (s, panics) = (s, panics)
  and_then f (s, failed e) = (s, failed e)

  unfoldable pub relay_groups : SocketAddr → List (List Packet) → Relay T → Relay T × Answer
  unfolding relay_group
  relay_groups to [] s = (s, done)
  relay_groups to (g ∷ gs) s = and_then (relay_groups to gs) (relay_group to g s)

  abbrev pub grouped : SocketAddr → Option Registry → Relay T → Relay T × Answer
  grouped to none s = (s, panics)
  grouped to (some r) s = relay_groups to (group_iter r) (record s { registry = r })

  abbrev pub resolved : Result (List SocketAddr) String → Relay T → Relay T × Answer
  resolved (err e) s = (s, failed e)
  resolved (ok []) s = (s, failed "resolved to no address")
  resolved (ok (a ∷ others)) s = grouped a (group_by_addr s.registry) s

  abbrev pub received : RemoteAddr → Result (List Packet) String → Relay T → Relay T × Answer
  received raddr (err e) s = (s, failed e)
  received raddr (ok pkts) s =
      resolved (calls.resolve_addr raddr) (record s { registry = batched_recv_on pkts s.registry })

  unfoldable pub associate_and_relay : RemoteAddr → Relay T → Relay T × Answer
  unfolding batched_recv_on group_by_addr group_iter relay_groups
  associate_and_relay raddr s = received raddr calls.recv s
