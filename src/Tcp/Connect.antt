-- ===== src/Tcp/Connect.antt =====
-- realm_core/src/tcp/socket.rs: the connection to a remote, and the resolution of its name by
-- realm_core/src/dns/mod.rs. The resolver and the calls on sockets are parameters.
pub mod Tried
pub mod Tests
use realm.Base.{
  ℕ, zero, suc, ◌%◌, List, [], ◌∷◌, Option, none, some, Result, ok, err, String, unwrap_or, map,
}
use realm.Endpoint.{SocketAddr, v4, v6, RemoteAddr, socket_addr, domain_name, ConnectOpts}

pub data IpAddr : Type 0 where
  ip4 ip6 : ℕ → IpAddr

-- `SocketAddr::new`
abbrev pub with_port : ℕ → IpAddr → SocketAddr
with_port p (ip4 a) = v4 a p
with_port p (ip6 a) = v6 a p 0 0

abbrev pub looked_up : ℕ → Result (List IpAddr) String → Result (List SocketAddr) String
looked_up p (err e) = err e
looked_up p (ok ips) = ok (map (with_port p) ips)

module _ (resolve_ip : String → Result (List IpAddr) String) where
  -- All that the iterator over the result gives.
  unfoldable pub resolve_addr : RemoteAddr → Result (List SocketAddr) String
  resolve_addr (socket_addr a) = ok (a ∷ [])
  resolve_addr (domain_name host p) = looked_up p (resolve_ip host)

-- `TcpKeepalive`: the seconds of idleness and between probes, and the number of probes as u32.
abbrev pub Keepalive : Type 0
Keepalive = ℕ × ℕ

abbrev pub u32_mod : ℕ
u32_mod = 4294967296

abbrev pub keepalive_for : ℕ → ℕ → Option Keepalive
keepalive_for zero probe = none
keepalive_for (suc n) probe = some (suc n, probe % u32_mod)

unfoldable pub build_keepalive : ConnectOpts → Option Keepalive
build_keepalive o = keepalive_for o.tcp_keepalive o.tcp_keepalive_probe

-- How `connect` under its timeout ends.
pub data Attempt : Type 0 where
  connected timed_out : Attempt
  refused : String → Attempt

-- The calls on a fresh socket; all but `connect` give their error, if any.
pub record Calls : Type 0 where
  pub resolve_ip : String → Result (List IpAddr) String
  pub new_socket : SocketAddr → Option String
  pub bind : SocketAddr → Option String
  pub bind_to_device : String → Option String
  pub set_tcp_keepalive : Keepalive → Option String
  pub connect : SocketAddr → Attempt

-- A call that is made where an option is set; the first error counts.
abbrev pub if_set {ℓ} : {A : Type ℓ} → (A → Option String) → Option A → Option String
if_set f none = none
if_set f (some a) = f a

abbrev pub or_else : Option String → Option String → Option String
or_else none o = o
or_else (some e) o = some e

abbrev pub default_error : String
default_error = "could not connect to any address"

module _ (calls : Calls) (opts : ConnectOpts) where
  -- The error of the preparation of a socket, if any.
  unfoldable pub prepare : SocketAddr → Option String
  unfolding build_keepalive
  prepare a = or_else (calls.new_socket a) (
      or_else (if_set calls.bind opts.bind_address) (
        or_else (if_set calls.bind_to_device opts.bind_interface)
          (if_set calls.set_tcp_keepalive (build_keepalive opts))))

  abbrev pub connect_step :
      SocketAddr
      → Option String
      → (Option String → Result SocketAddr String)
      → Option String
      → Attempt
      → Result SocketAddr String
  connect_step a last rest (some e) x = err e
  connect_step a last rest none connected = ok a
  connect_step a last rest none (refused e) = rest (some e)
  connect_step a last rest none timed_out = rest last

  -- The loop over the addresses, with the last error so far.
  unfoldable pub try_addresses : List SocketAddr → Option String → Result SocketAddr String
  unfolding prepare
  try_addresses [] last = err (unwrap_or last default_error)
  try_addresses (a ∷ addrs) last =
      connect_step a last (try_addresses addrs) (prepare a) (calls.connect a)

  abbrev pub connect_to : Result (List SocketAddr) String → Result SocketAddr String
  connect_to (err e) = err e
  connect_to (ok addrs) = try_addresses addrs none

  unfoldable pub connect : RemoteAddr → Result SocketAddr String
  unfolding resolve_addr try_addresses
  connect r = connect_to (resolve_addr calls.resolve_ip r)
