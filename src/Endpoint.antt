-- ===== src/Endpoint.antt =====
-- realm_core/src/endpoint.rs, and the two vocabularies it shares with the lifecycle: listen
-- addresses (std's `SocketAddr`) and the protocols of realm_core/src/lifecycle/manager.rs.
-- What the code prints through libraries (addresses, numbers, transports) is a parameter.
pub mod Display
use realm.Base.{
  ℕ, String, List, Option, Bool, true, false, ◌&&◌, ◌||◌, ◌≡◌, ◌↔◌, refl, arith, nat_eq, ltb,
}
use realm.Base.Map.{Key}
use realm.Lb.{Balancer}
use text.Mathlib.Text.{◌==◌ as text_eq, is_lt}
use text.Mathlib.TextEquality.{eq_iff}
use Prim.Native.String.{compare}

-- std's `SocketAddr`: address and port; a v6 address also has its flow information and scope.
pub data SocketAddr : Type 0 where
  v4 : ℕ → ℕ → SocketAddr
  v6 : ℕ → ℕ → ℕ → ℕ → SocketAddr

abbrev pub addr_eq : SocketAddr → SocketAddr → Bool
addr_eq (v4 a p) (v4 b q) = nat_eq a b && nat_eq p q
addr_eq (v4 a p) (v6 b q g t) = false
addr_eq (v6 a p f s) (v4 b q) = false
addr_eq (v6 a p f s) (v6 b q g t) = nat_eq a b && nat_eq p q && nat_eq f g && nat_eq s t

pub addr_eq_iff : (a b : SocketAddr) → (addr_eq a b ≡ true) ↔ (a ≡ b)
addr_eq_iff (v4 a p) (v4 b q) = ground arith
addr_eq_iff (v4 a p) (v6 b q g t) = ground arith
addr_eq_iff (v6 a p f s) (v4 b q) = ground arith
addr_eq_iff (v6 a p f s) (v6 b q g t) = ground arith

-- v4 before v6, then field by field.
abbrev pub addr_lt : SocketAddr → SocketAddr → Bool
addr_lt (v4 a p) (v4 b q) = ltb a b || nat_eq a b && ltb p q
addr_lt (v4 a p) (v6 b q g t) = true
addr_lt (v6 a p f s) (v4 b q) = false
addr_lt (v6 a p f s) (v6 b q g t) =
    ltb a b || nat_eq a b && (ltb p q || nat_eq p q && (ltb f g || nat_eq f g && ltb s t))

-- One data plane of a rule.
pub data Proto : Type 0 where
  tcp udp : Proto

abbrev pub proto_eq : Proto → Proto → Bool
proto_eq tcp tcp = true
proto_eq tcp udp = false
proto_eq udp tcp = false
proto_eq udp udp = true

pub proto_eq_iff : (a b : Proto) → (proto_eq a b ≡ true) ↔ (a ≡ b)
proto_eq_iff tcp tcp = ground arith
proto_eq_iff tcp udp = ground arith
proto_eq_iff udp tcp = ground arith
proto_eq_iff udp udp = ground arith

abbrev pub as_str : Proto → String
as_str tcp = "tcp"
as_str udp = "udp"

abbrev pub Socket : Type 0
Socket = SocketAddr × Proto

abbrev pub socket_eq : Socket → Socket → Bool
socket_eq (a, p) (b, q) = addr_eq a b && proto_eq p q

pub socket_eq_iff : (a b : Socket) → (socket_eq a b ≡ true) ↔ (a ≡ b)
socket_eq_iff (a, p) (b, q) = ground (arith, addr_eq_iff a b, proto_eq_iff p q)

-- tcp before udp at one address.
abbrev pub socket_lt : Socket → Socket → Bool
socket_lt (a, tcp) (b, udp) = addr_lt a b || addr_eq a b
socket_lt (a, tcp) (b, tcp) = addr_lt a b
socket_lt (a, udp) (b, q) = addr_lt a b

instance abbrev pub socket_key : Key Socket
socket_key = record { keq = socket_eq; klt = socket_lt; keq_iff = socket_eq_iff }

abbrev pub EndpointId : Type 0
EndpointId = String

instance abbrev pub id_key : Key EndpointId
id_key = record { keq = text_eq; klt = λ s t. is_lt (compare s t); keq_iff = eq_iff }

pub data RemoteAddr : Type 0 where
  socket_addr : SocketAddr → RemoteAddr
  domain_name : String → ℕ → RemoteAddr

pub record ProxyOpts : Type 0 where
  pub send_proxy : Bool
  pub accept_proxy : Bool
  pub send_proxy_version : ℕ
  pub accept_proxy_timeout : ℕ

-- A pair of kaminari transports is named by two numbers.
pub record ConnectOpts : Type 0 where
  pub send_mptcp : Bool
  pub connect_timeout : ℕ
  pub associate_timeout : ℕ
  pub tcp_keepalive : ℕ
  pub tcp_keepalive_probe : ℕ
  pub bind_address : Option SocketAddr
  pub bind_interface : Option String
  pub proxy_opts : ProxyOpts
  pub transport : Option (ℕ × ℕ)
  pub balancer : Balancer

pub record BindOpts : Type 0 where
  pub ipv6_only : Bool
  pub accept_mptcp : Bool
  pub bind_interface : Option String

pub record Endpoint : Type 0 where
  pub laddr : SocketAddr
  pub raddr : RemoteAddr
  pub bind_opts : BindOpts
  pub conn_opts : ConnectOpts
  pub extra_raddrs : List RemoteAddr

pub record TcpRuntime : Type 0 where
  pub raddr : RemoteAddr
  pub conn_opts : ConnectOpts
  pub extra_raddrs : List RemoteAddr

pub record UdpRuntime : Type 0 where
  pub raddr : RemoteAddr
  pub conn_opts : ConnectOpts

unfoldable pub tcp_runtime : Endpoint → TcpRuntime
tcp_runtime e = record { raddr = e.raddr; conn_opts = e.conn_opts; extra_raddrs = e.extra_raddrs }

unfoldable pub udp_runtime : Endpoint → UdpRuntime
udp_runtime e = record { raddr = e.raddr; conn_opts = e.conn_opts }
