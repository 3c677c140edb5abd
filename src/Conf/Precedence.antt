-- ===== src/Conf/Precedence.antt =====
-- src/conf/mod.rs: which of the options of the command line, of an endpoint and of the whole
-- configuration take effect, described apart from the merges.
use realm.Base.{List, [], ◌∷◌, map, Option, none, some, ◌≡◌, refl, ◌∙◌}
use realm.Conf.{rst, take}
use realm.Conf.Net.{NetConf}
use realm.Conf.Log.{LogConf}
use realm.Conf.Dns.{DnsConf}
use realm.Conf.Full.{
  EndpointConf, CmdOverride, FullConf, apply_cmd_opts, apply_global_opts,
  apply_cmd_opts-apply_global_opts, override, take_global,
}

-- The first of the values that is set.
abbrev pub first_set {ℓ} : {A : Type ℓ} → List (Option A) → Option A
first_set [] = none
first_set (some a ∷ os) = some a
first_set (none ∷ os) = first_set os

-- Field by field, the value of the command line, else of the endpoint, else the global one.
abbrev pub net_of : NetConf → NetConf → NetConf → NetConf
net_of cmd own global = record {
  no_tcp = first_set (cmd.no_tcp ∷ own.no_tcp ∷ global.no_tcp ∷ []);
  use_udp = first_set (cmd.use_udp ∷ own.use_udp ∷ global.use_udp ∷ []);
  ipv6_only = first_set (cmd.ipv6_only ∷ own.ipv6_only ∷ global.ipv6_only ∷ []);
  send_mptcp = first_set (cmd.send_mptcp ∷ own.send_mptcp ∷ global.send_mptcp ∷ []);
  accept_mptcp = first_set (cmd.accept_mptcp ∷ own.accept_mptcp ∷ global.accept_mptcp ∷ []);
  send_proxy = first_set (cmd.send_proxy ∷ own.send_proxy ∷ global.send_proxy ∷ []);
  accept_proxy = first_set (cmd.accept_proxy ∷ own.accept_proxy ∷ global.accept_proxy ∷ []);
  send_proxy_version =
      first_set (cmd.send_proxy_version ∷ own.send_proxy_version ∷ global.send_proxy_version ∷ []);
  accept_proxy_timeout =
      first_set
        (cmd.accept_proxy_timeout ∷ own.accept_proxy_timeout ∷ global.accept_proxy_timeout ∷ []);
  tcp_keepalive = first_set (cmd.tcp_keepalive ∷ own.tcp_keepalive ∷ global.tcp_keepalive ∷ []);
  tcp_keepalive_probe =
      first_set
        (cmd.tcp_keepalive_probe ∷ own.tcp_keepalive_probe ∷ global.tcp_keepalive_probe ∷ []);
  tcp_timeout = first_set (cmd.tcp_timeout ∷ own.tcp_timeout ∷ global.tcp_timeout ∷ []);
  udp_timeout = first_set (cmd.udp_timeout ∷ own.udp_timeout ∷ global.udp_timeout ∷ []);
}

abbrev pub log_of : LogConf → LogConf → LogConf
log_of cmd own = record {
  level = first_set (cmd.level ∷ own.level ∷ []);
  output = first_set (cmd.output ∷ own.output ∷ []);
}

abbrev pub dns_of : DnsConf → DnsConf → DnsConf
dns_of cmd own = record {
  mode = first_set (cmd.mode ∷ own.mode ∷ []);
  min_ttl = first_set (cmd.min_ttl ∷ own.min_ttl ∷ []);
  max_ttl = first_set (cmd.max_ttl ∷ own.max_ttl ∷ []);
  cache_size = first_set (cmd.cache_size ∷ own.cache_size ∷ []);
  protocol = first_set (cmd.protocol ∷ own.protocol ∷ []);
  nameservers = first_set (cmd.nameservers ∷ own.nameservers ∷ []);
}

abbrev pub endpoint_of : NetConf → NetConf → EndpointConf → EndpointConf
endpoint_of cmd global x = record x { network = net_of cmd x.network global }

-- The configuration that takes effect.
abbrev pub effective : CmdOverride → FullConf → FullConf
effective opts c = record {
  log = log_of opts.log c.log;
  dns = dns_of opts.dns c.dns;
  network = c.network;
  endpoints = map (endpoint_of opts.network c.network) c.endpoints;
}

module _ {ℓ} {A : Type ℓ} where
  rst_first : (own cmd : Option A) → rst own cmd ≡ first_set (cmd ∷ own ∷ [])
  rst_first none none = refl
  rst_first none (some b) = refl
  rst_first (some a) none = refl
  rst_first (some a) (some b) = refl

  take-rst_first :
      (own cmd global : Option A) → take (rst own cmd) global ≡ first_set (cmd ∷ own ∷ global ∷ [])
  take-rst_first none none none = refl
  take-rst_first none none (some c) = refl
  take-rst_first none (some b) none = refl
  take-rst_first none (some b) (some c) = refl
  take-rst_first (some a) none none = refl
  take-rst_first (some a) none (some c) = refl
  take-rst_first (some a) (some b) none = refl
  take-rst_first (some a) (some b) (some c) = refl

take_override :
    (cmd global : NetConf) (x : EndpointConf)
    → take_global global (override cmd x) ≡ endpoint_of cmd global x
take_override cmd global x = λ i. record x {
  network = record {
    no_tcp = take-rst_first x.network.no_tcp cmd.no_tcp global.no_tcp i;
    use_udp = take-rst_first x.network.use_udp cmd.use_udp global.use_udp i;
    ipv6_only = take-rst_first x.network.ipv6_only cmd.ipv6_only global.ipv6_only i;
    send_mptcp = take-rst_first x.network.send_mptcp cmd.send_mptcp global.send_mptcp i;
    accept_mptcp = take-rst_first x.network.accept_mptcp cmd.accept_mptcp global.accept_mptcp i;
    send_proxy = take-rst_first x.network.send_proxy cmd.send_proxy global.send_proxy i;
    accept_proxy = take-rst_first x.network.accept_proxy cmd.accept_proxy global.accept_proxy i;
    send_proxy_version =
        take-rst_first x.network.send_proxy_version cmd.send_proxy_version global.send_proxy_version
          i;
    accept_proxy_timeout =
        take-rst_first x.network.accept_proxy_timeout cmd.accept_proxy_timeout
          global.accept_proxy_timeout i;
    tcp_keepalive = take-rst_first x.network.tcp_keepalive cmd.tcp_keepalive global.tcp_keepalive i;
    tcp_keepalive_probe =
        take-rst_first x.network.tcp_keepalive_probe cmd.tcp_keepalive_probe
          global.tcp_keepalive_probe i;
    tcp_timeout = take-rst_first x.network.tcp_timeout cmd.tcp_timeout global.tcp_timeout i;
    udp_timeout = take-rst_first x.network.udp_timeout cmd.udp_timeout global.udp_timeout i;
  };
}

override_all :
    (cmd global : NetConf) (xs : List EndpointConf)
    → map (take_global global) (map (override cmd) xs) ≡ map (endpoint_of cmd global) xs
override_all cmd global [] = refl
override_all cmd global (x ∷ xs) = rw (take_override cmd global x, override_all cmd global xs) refl

globals_after :
    (opts : CmdOverride) (c : FullConf)
    → apply_global_opts (apply_cmd_opts opts c) ≡ effective opts c
unfolding apply_cmd_opts apply_global_opts
globals_after opts c = λ i. record {
  log = record {
    level = rst_first c.log.level opts.log.level i;
    output = rst_first c.log.output opts.log.output i;
  };
  dns = record {
    mode = rst_first c.dns.mode opts.dns.mode i;
    min_ttl = rst_first c.dns.min_ttl opts.dns.min_ttl i;
    max_ttl = rst_first c.dns.max_ttl opts.dns.max_ttl i;
    cache_size = rst_first c.dns.cache_size opts.dns.cache_size i;
    protocol = rst_first c.dns.protocol opts.dns.protocol i;
    nameservers = rst_first c.dns.nameservers opts.dns.nameservers i;
  };
  network = c.network;
  endpoints = override_all opts.network c.network c.endpoints i;
}

-- Whichever of the two merges comes first, the configuration that takes effect is the same: each of
-- the thirteen network options of each endpoint is the one of the command line where that is set, else
-- the endpoint's, else the global one; each option of the log and of the resolver is the one of the
-- command line where that is set, else the configuration's; and nothing else changes.
pub apply_cmd_opts-effective :
    (opts : CmdOverride) (c : FullConf)
    → (apply_cmd_opts opts (apply_global_opts c) ≡ effective opts c)
      × (apply_global_opts (apply_cmd_opts opts c) ≡ effective opts c)
apply_cmd_opts-effective opts c =
    (apply_cmd_opts-apply_global_opts opts c ∙ globals_after opts c, globals_after opts c)
