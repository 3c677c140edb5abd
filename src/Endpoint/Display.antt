-- ===== src/Endpoint/Display.antt =====
-- The `Display` implementations of realm_core/src/endpoint.rs.
use realm.Base.{ℕ, String, ◌<>◌, List, [], ◌∷◌, Option, none, some, Bool, true, false}
use realm.Endpoint.{
  SocketAddr, RemoteAddr, socket_addr, domain_name, ProxyOpts, ConnectOpts, BindOpts, Endpoint,
}
use realm.Lb.{Strategy, strategy}

-- How the libraries print an address, a number and kaminari's transports.
pub record Printer : Type 0 where
  pub show_addr : SocketAddr → String
  pub show_num : ℕ → String
  pub show_accept : ℕ → String
  pub show_connect : ℕ → String

abbrev show_bool : Bool → String
show_bool true = "true"
show_bool false = "false"

abbrev pub show_strategy : Strategy → String
show_strategy Strategy.off = "off"
show_strategy Strategy.iphash = "iphash"
show_strategy Strategy.roundrobin = "roundrobin"

module _ (io : Printer) where
  open io use {show_addr, show_num, show_accept, show_connect}

  unfoldable pub show_remote : RemoteAddr → String
  show_remote (socket_addr a) = show_addr a
  show_remote (domain_name host port) = host <> ":" <> show_num port

  unfoldable pub show_extra : List RemoteAddr → String
  show_extra [] = ""
  show_extra (r ∷ rs) = "|" <> show_remote r <> show_extra rs

  show_field : String → Option String → String
  show_field name none = ""
  show_field name (some v) = name <> v <> ", "

  unfoldable pub show_bind_opts : BindOpts → String
  unfolding show_field
  show_bind_opts o =
      show_field "listen-iface=" o.bind_interface
      <> "ipv6-only="
      <> show_bool o.ipv6_only
      <> ", accept-mptcp="
      <> show_bool o.accept_mptcp

  show_through : Option SocketAddr → String
  show_through none = ""
  show_through (some a) = "send-through=" <> show_addr a <> ", "

  unfoldable pub show_proxy_opts : ProxyOpts → String
  show_proxy_opts o =
      "send-proxy="
      <> show_bool o.send_proxy
      <> ", send-proxy-version="
      <> show_num o.send_proxy_version
      <> ", accept-proxy="
      <> show_bool o.accept_proxy
      <> ", accept-proxy-timeout="
      <> show_num o.accept_proxy_timeout
      <> "s; "

  show_transport : Option (ℕ × ℕ) → String
  show_transport none = ""
  show_transport (some (ac, cc)) = "transport=" <> show_accept ac <> "||" <> show_connect cc <> "; "

  unfoldable pub show_connect_opts : ConnectOpts → String
  unfolding show_field show_through show_transport show_proxy_opts strategy
  show_connect_opts o =
      show_field "send-iface=" o.bind_interface
      <> show_through o.bind_address
      <> "send-mptcp="
      <> show_bool o.send_mptcp
      <> "; "
      <> show_proxy_opts o.proxy_opts
      <> "tcp-keepalive="
      <> show_num o.tcp_keepalive
      <> "s["
      <> show_num o.tcp_keepalive_probe
      <> "] connect-timeout="
      <> show_num o.connect_timeout
      <> "s, associate-timeout="
      <> show_num o.associate_timeout
      <> "s; "
      <> show_transport o.transport
      <> "balance="
      <> show_strategy (strategy o.balancer)

  unfoldable pub show_endpoint : Endpoint → String
  unfolding show_remote show_extra show_bind_opts show_connect_opts
  show_endpoint e =
      show_addr e.laddr
      <> " -> ["
      <> show_remote e.raddr
      <> show_extra e.extra_raddrs
      <> "]; options: "
      <> show_bind_opts e.bind_opts
      <> "; "
      <> show_connect_opts e.conn_opts
