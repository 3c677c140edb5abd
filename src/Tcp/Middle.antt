-- ===== src/Tcp/Middle.antt =====
-- realm_core/src/tcp/middle.rs, with the features of the default build (no hook): one connection, from
-- the choice of its remote to the relay.
pub mod Chosen
pub mod Configured
mod Tests
use realm.Base.{
  ℕ, zero, suc, List, [], ◌∷◌, nth, Option, none, some, Result, ok, err, Bool, true, false, ◌||◌,
  String,
}
use realm.Lb.{Balancer}
use realm.Lb.Ring.{Lib}
use realm.Lb.Choice.{Pick, token, no_token, next}
use realm.Endpoint.{SocketAddr, RemoteAddr, ProxyOpts, TcpRuntime}
use realm.Tcp.Connect
use realm.Tcp.Connect.{connect}
use realm.Tcp.Proxy
use realm.Tcp.Proxy.{Codec, Streams, handle_proxy}

-- How a connection ends: `unknown_remote` is the error "balancer selected an unknown remote", and
-- `broken` a pick that has no result.
pub data Answer : Type 0 where
  done panics unknown_remote broken : Answer
  failed : String → Answer

-- What is answered to the calls for one connection. An error of the log line is there only where the
-- line is written.
pub record Conn : Type 0 where
  pub peer_addr : Result SocketAddr String
  pub sockets : Connect.Calls
  pub log_error : Option String
  pub proxy : Proxy.Calls
  pub relay : Option (ℕ × ℕ) → Streams → Streams × Option String
  pub streams : Streams

-- The balancer moves on; the remote is that of the attempt to connect.
pub record Relayed : Type 0 where
  pub runtime : TcpRuntime
  pub remote : Option RemoteAddr
  pub streams : Streams
  pub answer : Answer

pub data Selected : Type 0 where
  remote : RemoteAddr → Selected
  unknown_remote broken : Selected

abbrev pub extra_remote : Option RemoteAddr → Selected
extra_remote none = Selected.unknown_remote
extra_remote (some r) = Selected.remote r

unfoldable pub select : TcpRuntime → Pick → Selected
select rt no_token = Selected.remote rt.raddr
select rt (token zero) = Selected.remote rt.raddr
select rt (token (suc i)) = extra_remote (nth rt.extra_raddrs i)
select rt Pick.broken = Selected.broken

unfoldable pub enabled : ProxyOpts → Bool
enabled o = o.send_proxy || o.accept_proxy

abbrev pub moved : TcpRuntime → Balancer → TcpRuntime
moved rt b = record rt { conn_opts = record rt.conn_opts { balancer = b } }

abbrev pub ended : TcpRuntime → Option RemoteAddr → Streams → Answer → Relayed
ended rt r s a = record { runtime = rt; remote = r; streams = s; answer = a }

module _ (codec : Codec) (conn : Conn) where
  -- An error of the relay is ignored.
  abbrev pub relayed : TcpRuntime → RemoteAddr → Streams → Relayed
  relayed rt r s = ended rt (some r) (conn.relay rt.conn_opts.transport s).0 done

  abbrev pub after_proxy : TcpRuntime → RemoteAddr → Streams × Proxy.Answer → Relayed
  after_proxy rt r (s, Proxy.done) = relayed rt r s
  after_proxy rt r (s, Proxy.timed_out) = ended rt (some r) s (failed "timeout")
  after_proxy rt r (s, Proxy.panics) = ended rt (some r) s panics
  after_proxy rt r (s, Proxy.failed e) = ended rt (some r) s (failed e)

  abbrev pub proxied : TcpRuntime → RemoteAddr → Bool → Relayed
  proxied rt r true =
      after_proxy rt r (handle_proxy codec conn.proxy rt.conn_opts.proxy_opts conn.streams)
  proxied rt r false = relayed rt r conn.streams

  abbrev pub logged : TcpRuntime → RemoteAddr → Option String → Relayed
  logged rt r (some e) = ended rt (some r) conn.streams (failed e)
  logged rt r none = proxied rt r (enabled rt.conn_opts.proxy_opts)

  abbrev pub connected_to : TcpRuntime → RemoteAddr → Result SocketAddr String → Relayed
  connected_to rt r (err e) = ended rt (some r) conn.streams (failed e)
  connected_to rt r (ok a) = logged rt r conn.log_error

  abbrev pub to_selected : TcpRuntime → Selected → Relayed
  to_selected rt Selected.unknown_remote = ended rt none conn.streams unknown_remote
  to_selected rt Selected.broken = ended rt none conn.streams broken
  to_selected rt (Selected.remote r) = connected_to rt r (connect conn.sockets rt.conn_opts r)

  abbrev pub to_picked : TcpRuntime → Balancer × Pick → Relayed
  to_picked rt (b, p) = to_selected (moved rt b) (select rt p)

module _ (over : ℕ → Option ℕ) (lib : Lib) (octets : SocketAddr → List ℕ) (codec : Codec) where
  abbrev pub for_peer : Conn → TcpRuntime → Result SocketAddr String → Relayed
  for_peer conn rt (err e) = ended rt none conn.streams (failed e)
  for_peer conn rt (ok a) = to_picked codec conn rt (next over lib rt.conn_opts.balancer (octets a))

  unfoldable pub connect_and_relay : Conn → TcpRuntime → Relayed
  unfolding select enabled handle_proxy connect next
  connect_and_relay conn rt = for_peer conn rt conn.peer_addr

  -- The connections of one runtime, in the order in which their remotes are chosen.
  unfoldable pub run : List Conn → TcpRuntime → List Relayed
  unfolding connect_and_relay
  run [] rt = []
  run (c ∷ cs) rt = let x = connect_and_relay c rt in x ∷ run cs x.runtime
