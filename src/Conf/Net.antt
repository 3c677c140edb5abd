-- ===== src/Conf/Net.antt =====
-- src/conf/net.rs, with the defaults of src/consts.rs.
use realm.Base.{
  ℕ, String, Bool, true, false, ◌&&◌, ◌≡◌, refl, Option, none, some, unwrap_or, if◌then◌else◌,
  arith,
}
use realm.Endpoint.{BindOpts, ConnectOpts}
use realm.Lb.{Balancer}
use realm.Conf.{
  rst, take, absent, ArgMatches, rst-take, take_assoc, take_idem, take-absent, rst-absent,
}

abbrev pub tcp_timeout_default : ℕ
tcp_timeout_default = 5

abbrev pub udp_timeout_default : ℕ
udp_timeout_default = 30

abbrev pub tcp_keepalive_default : ℕ
tcp_keepalive_default = 15

abbrev pub tcp_keepalive_probe_default : ℕ
tcp_keepalive_probe_default = 3

abbrev pub proxy_protocol_version : ℕ
proxy_protocol_version = 2

abbrev pub proxy_protocol_timeout : ℕ
proxy_protocol_timeout = 5

pub record NetConf : Type 0 where
  pub no_tcp : Option Bool
  pub use_udp : Option Bool
  pub ipv6_only : Option Bool
  pub send_mptcp : Option Bool
  pub accept_mptcp : Option Bool
  pub send_proxy : Option Bool
  pub accept_proxy : Option Bool
  pub send_proxy_version : Option ℕ
  pub accept_proxy_timeout : Option ℕ
  pub tcp_keepalive : Option ℕ
  pub tcp_keepalive_probe : Option ℕ
  pub tcp_timeout : Option ℕ
  pub udp_timeout : Option ℕ

abbrev pub rst_field : NetConf → NetConf → NetConf
rst_field this other = record {
  no_tcp = rst this.no_tcp other.no_tcp;
  use_udp = rst this.use_udp other.use_udp;
  ipv6_only = rst this.ipv6_only other.ipv6_only;
  send_mptcp = rst this.send_mptcp other.send_mptcp;
  accept_mptcp = rst this.accept_mptcp other.accept_mptcp;
  send_proxy = rst this.send_proxy other.send_proxy;
  accept_proxy = rst this.accept_proxy other.accept_proxy;
  send_proxy_version = rst this.send_proxy_version other.send_proxy_version;
  accept_proxy_timeout = rst this.accept_proxy_timeout other.accept_proxy_timeout;
  tcp_keepalive = rst this.tcp_keepalive other.tcp_keepalive;
  tcp_keepalive_probe = rst this.tcp_keepalive_probe other.tcp_keepalive_probe;
  tcp_timeout = rst this.tcp_timeout other.tcp_timeout;
  udp_timeout = rst this.udp_timeout other.udp_timeout;
}

abbrev pub take_field : NetConf → NetConf → NetConf
take_field this other = record {
  no_tcp = take this.no_tcp other.no_tcp;
  use_udp = take this.use_udp other.use_udp;
  ipv6_only = take this.ipv6_only other.ipv6_only;
  send_mptcp = take this.send_mptcp other.send_mptcp;
  accept_mptcp = take this.accept_mptcp other.accept_mptcp;
  send_proxy = take this.send_proxy other.send_proxy;
  accept_proxy = take this.accept_proxy other.accept_proxy;
  send_proxy_version = take this.send_proxy_version other.send_proxy_version;
  accept_proxy_timeout = take this.accept_proxy_timeout other.accept_proxy_timeout;
  tcp_keepalive = take this.tcp_keepalive other.tcp_keepalive;
  tcp_keepalive_probe = take this.tcp_keepalive_probe other.tcp_keepalive_probe;
  tcp_timeout = take this.tcp_timeout other.tcp_timeout;
  udp_timeout = take this.udp_timeout other.udp_timeout;
}

unfoldable pub is_empty : NetConf → Bool
is_empty this =
    absent this.no_tcp
    && absent this.use_udp
    && absent this.ipv6_only
    && absent this.send_mptcp
    && absent this.accept_mptcp
    && absent this.send_proxy
    && absent this.accept_proxy
    && absent this.send_proxy_version
    && absent this.accept_proxy_timeout
    && absent this.tcp_keepalive
    && absent this.tcp_keepalive_probe
    && absent this.tcp_timeout
    && absent this.udp_timeout

pub record NetInfo : Type 0 where
  pub bind_opts : BindOpts
  pub conn_opts : ConnectOpts
  pub no_tcp : Bool
  pub use_udp : Bool

unfoldable pub build : NetConf → NetInfo
build this = record {
  bind_opts = record {
    ipv6_only = unwrap_or this.ipv6_only false;
    accept_mptcp = unwrap_or this.accept_mptcp false;
    bind_interface = none;
  };
  conn_opts = record {
    send_mptcp = unwrap_or this.send_mptcp false;
    connect_timeout = unwrap_or this.tcp_timeout tcp_timeout_default;
    associate_timeout = unwrap_or this.udp_timeout udp_timeout_default;
    tcp_keepalive = unwrap_or this.tcp_keepalive tcp_keepalive_default;
    tcp_keepalive_probe = unwrap_or this.tcp_keepalive_probe tcp_keepalive_probe_default;
    bind_address = none;
    bind_interface = none;
    proxy_opts = record {
      send_proxy = unwrap_or this.send_proxy false;
      accept_proxy = unwrap_or this.accept_proxy false;
      send_proxy_version = unwrap_or this.send_proxy_version proxy_protocol_version;
      accept_proxy_timeout = unwrap_or this.accept_proxy_timeout proxy_protocol_timeout;
    };
    transport = none;
    balancer = Balancer.off;
  };
  no_tcp = unwrap_or this.no_tcp false;
  use_udp = unwrap_or this.use_udp false;
}

-- std's `parse` at the types of the options.
pub record Parse : Type 0 where
  pub usize : String → Option ℕ
  pub bool : String → Option Bool

abbrev unpack_flag : ArgMatches → String → Option Bool
unpack_flag m key = if m.get_flag key then some true else none

abbrev and_then {ℓ} : {A : Type ℓ} → Option String → (String → Option A) → Option A
and_then none f = none
and_then (some x) f = f x

unfoldable pub from_cmd_args : Parse → ArgMatches → NetConf
from_cmd_args parse m =
    let use_mptcp = unpack_flag m "use_mptcp" in
    record {
      no_tcp = unpack_flag m "no_tcp";
      use_udp = unpack_flag m "use_udp";
      ipv6_only = unpack_flag m "ipv6_only";
      send_mptcp = use_mptcp;
      accept_mptcp = use_mptcp;
      send_proxy = and_then (m.get_one "send_proxy") parse.bool;
      accept_proxy = and_then (m.get_one "accept_proxy") parse.bool;
      send_proxy_version = and_then (m.get_one "send_proxy_version") parse.usize;
      accept_proxy_timeout = and_then (m.get_one "accept_proxy_timeout") parse.usize;
      tcp_keepalive = and_then (m.get_one "tcp_keepalive") parse.usize;
      tcp_keepalive_probe = and_then (m.get_one "tcp_keepalive") parse.usize;
      tcp_timeout = and_then (m.get_one "tcp_timeout") parse.usize;
      udp_timeout = and_then (m.get_one "udp_timeout") parse.usize;
    }

-- The number of keepalive probes that the command line sets is the keepalive interval, whatever the arguments
-- are: two command lines that differ in the argument of the probes alone set the same options.
pub from_cmd_args-probe :
    (parse : Parse) (m m' : ArgMatches)
    → m'.get_one "tcp_keepalive" ≡ m.get_one "tcp_keepalive"
    → (from_cmd_args parse m').tcp_keepalive_probe ≡ (from_cmd_args parse m).tcp_keepalive
unfolding from_cmd_args
from_cmd_args-probe parse m m' h = rw h refl

pub rst_field-take_field : (a b : NetConf) → rst_field a b ≡ take_field b a
rst_field-take_field a b = λ i. record {
  no_tcp = rst-take a.no_tcp b.no_tcp i;
  use_udp = rst-take a.use_udp b.use_udp i;
  ipv6_only = rst-take a.ipv6_only b.ipv6_only i;
  send_mptcp = rst-take a.send_mptcp b.send_mptcp i;
  accept_mptcp = rst-take a.accept_mptcp b.accept_mptcp i;
  send_proxy = rst-take a.send_proxy b.send_proxy i;
  accept_proxy = rst-take a.accept_proxy b.accept_proxy i;
  send_proxy_version = rst-take a.send_proxy_version b.send_proxy_version i;
  accept_proxy_timeout = rst-take a.accept_proxy_timeout b.accept_proxy_timeout i;
  tcp_keepalive = rst-take a.tcp_keepalive b.tcp_keepalive i;
  tcp_keepalive_probe = rst-take a.tcp_keepalive_probe b.tcp_keepalive_probe i;
  tcp_timeout = rst-take a.tcp_timeout b.tcp_timeout i;
  udp_timeout = rst-take a.udp_timeout b.udp_timeout i;
}

pub take_field_assoc :
    (a b c : NetConf) → take_field (take_field a b) c ≡ take_field a (take_field b c)
take_field_assoc a b c = λ i. record {
  no_tcp = take_assoc a.no_tcp b.no_tcp c.no_tcp i;
  use_udp = take_assoc a.use_udp b.use_udp c.use_udp i;
  ipv6_only = take_assoc a.ipv6_only b.ipv6_only c.ipv6_only i;
  send_mptcp = take_assoc a.send_mptcp b.send_mptcp c.send_mptcp i;
  accept_mptcp = take_assoc a.accept_mptcp b.accept_mptcp c.accept_mptcp i;
  send_proxy = take_assoc a.send_proxy b.send_proxy c.send_proxy i;
  accept_proxy = take_assoc a.accept_proxy b.accept_proxy c.accept_proxy i;
  send_proxy_version = take_assoc a.send_proxy_version b.send_proxy_version c.send_proxy_version i;
  accept_proxy_timeout =
      take_assoc a.accept_proxy_timeout b.accept_proxy_timeout c.accept_proxy_timeout i;
  tcp_keepalive = take_assoc a.tcp_keepalive b.tcp_keepalive c.tcp_keepalive i;
  tcp_keepalive_probe =
      take_assoc a.tcp_keepalive_probe b.tcp_keepalive_probe c.tcp_keepalive_probe i;
  tcp_timeout = take_assoc a.tcp_timeout b.tcp_timeout c.tcp_timeout i;
  udp_timeout = take_assoc a.udp_timeout b.udp_timeout c.udp_timeout i;
}

pub take_field_idem : (a b : NetConf) → take_field (take_field a b) b ≡ take_field a b
take_field_idem a b = λ i. record {
  no_tcp = take_idem a.no_tcp b.no_tcp i;
  use_udp = take_idem a.use_udp b.use_udp i;
  ipv6_only = take_idem a.ipv6_only b.ipv6_only i;
  send_mptcp = take_idem a.send_mptcp b.send_mptcp i;
  accept_mptcp = take_idem a.accept_mptcp b.accept_mptcp i;
  send_proxy = take_idem a.send_proxy b.send_proxy i;
  accept_proxy = take_idem a.accept_proxy b.accept_proxy i;
  send_proxy_version = take_idem a.send_proxy_version b.send_proxy_version i;
  accept_proxy_timeout = take_idem a.accept_proxy_timeout b.accept_proxy_timeout i;
  tcp_keepalive = take_idem a.tcp_keepalive b.tcp_keepalive i;
  tcp_keepalive_probe = take_idem a.tcp_keepalive_probe b.tcp_keepalive_probe i;
  tcp_timeout = take_idem a.tcp_timeout b.tcp_timeout i;
  udp_timeout = take_idem a.udp_timeout b.udp_timeout i;
}

all_absent :
    (b : NetConf)
    → is_empty b ≡ true
    → (absent b.no_tcp ≡ true)
      × (absent b.use_udp ≡ true)
      × (absent b.ipv6_only ≡ true)
      × (absent b.send_mptcp ≡ true)
      × (absent b.accept_mptcp ≡ true)
      × (absent b.send_proxy ≡ true)
      × (absent b.accept_proxy ≡ true)
      × (absent b.send_proxy_version ≡ true)
      × (absent b.accept_proxy_timeout ≡ true)
      × (absent b.tcp_keepalive ≡ true)
      × (absent b.tcp_keepalive_probe ≡ true)
      × (absent b.tcp_timeout ≡ true)
      × (absent b.udp_timeout ≡ true)
unfolding is_empty
all_absent b h = ground arith

-- An empty set of options, which is left out where a configuration is written, changes nothing
-- where it is merged, as the global options or as those of the command line.
pub is_empty-merge :
    (a b : NetConf) → is_empty b ≡ true → (take_field a b ≡ a) × (rst_field a b ≡ a)
is_empty-merge a b e =
    let h = all_absent b e in
    (
      (λ i. record {
        no_tcp = take-absent a.no_tcp b.no_tcp h.0 i;
        use_udp = take-absent a.use_udp b.use_udp h.1 i;
        ipv6_only = take-absent a.ipv6_only b.ipv6_only h.2 i;
        send_mptcp = take-absent a.send_mptcp b.send_mptcp h.3 i;
        accept_mptcp = take-absent a.accept_mptcp b.accept_mptcp h.4 i;
        send_proxy = take-absent a.send_proxy b.send_proxy h.5 i;
        accept_proxy = take-absent a.accept_proxy b.accept_proxy h.6 i;
        send_proxy_version = take-absent a.send_proxy_version b.send_proxy_version h.7 i;
        accept_proxy_timeout = take-absent a.accept_proxy_timeout b.accept_proxy_timeout h.8 i;
        tcp_keepalive = take-absent a.tcp_keepalive b.tcp_keepalive h.9 i;
        tcp_keepalive_probe = take-absent a.tcp_keepalive_probe b.tcp_keepalive_probe h.10 i;
        tcp_timeout = take-absent a.tcp_timeout b.tcp_timeout h.11 i;
        udp_timeout = take-absent a.udp_timeout b.udp_timeout h.12 i;
      }),
      (λ i. record {
        no_tcp = rst-absent a.no_tcp b.no_tcp h.0 i;
        use_udp = rst-absent a.use_udp b.use_udp h.1 i;
        ipv6_only = rst-absent a.ipv6_only b.ipv6_only h.2 i;
        send_mptcp = rst-absent a.send_mptcp b.send_mptcp h.3 i;
        accept_mptcp = rst-absent a.accept_mptcp b.accept_mptcp h.4 i;
        send_proxy = rst-absent a.send_proxy b.send_proxy h.5 i;
        accept_proxy = rst-absent a.accept_proxy b.accept_proxy h.6 i;
        send_proxy_version = rst-absent a.send_proxy_version b.send_proxy_version h.7 i;
        accept_proxy_timeout = rst-absent a.accept_proxy_timeout b.accept_proxy_timeout h.8 i;
        tcp_keepalive = rst-absent a.tcp_keepalive b.tcp_keepalive h.9 i;
        tcp_keepalive_probe = rst-absent a.tcp_keepalive_probe b.tcp_keepalive_probe h.10 i;
        tcp_timeout = rst-absent a.tcp_timeout b.tcp_timeout h.11 i;
        udp_timeout = rst-absent a.udp_timeout b.udp_timeout h.12 i;
      }),
    )
