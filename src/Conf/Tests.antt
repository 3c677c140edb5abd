-- ===== src/Conf/Tests.antt =====
-- Configurations at concrete inputs.
use realm.Base.{String, [], ◌∷◌, true, false, ◌≡◌, Option, none, some}
use realm.Conf.{ArgMatches}
use realm.Conf.Net.{NetConf, Parse}
use realm.Conf.Dns.{DnsProtocol}
use realm.Conf.Dns
use realm.Conf.Precedence.{effective, apply_cmd_opts-effective}
use realm.Conf.Full.{EndpointConf, FullConf, CmdOverride, apply_cmd_opts, apply_global_opts}

abbrev no_options : NetConf
no_options = record {
  no_tcp = none;
  use_udp = none;
  ipv6_only = none;
  send_mptcp = none;
  accept_mptcp = none;
  send_proxy = none;
  accept_proxy = none;
  send_proxy_version = none;
  accept_proxy_timeout = none;
  tcp_keepalive = none;
  tcp_keepalive_probe = none;
  tcp_timeout = none;
  udp_timeout = none;
}

abbrev pub slow : NetConf
slow = record no_options { tcp_timeout = some 60; use_udp = some true }

abbrev pub rule : EndpointConf
rule = record {
  listen = "0.0.0.0:1";
  remote = "localhost:2";
  extra_remotes = [];
  balance = none;
  through = none;
  interface = none;
  listen_interface = none;
  listen_transport = none;
  remote_transport = none;
  update_drain_timeout = none;
  delete_drain_timeout = none;
  network = record no_options { tcp_timeout = some 1 };
  material_digest = none;
}

abbrev whole : FullConf
whole = record {
  log = record { level = none; output = some "stderr" };
  dns = Dns.empty;
  network = slow;
  endpoints = rule ∷ record rule { network = no_options } ∷ [];
}

abbrev command_line : CmdOverride
command_line = record {
  log = record { level = none; output = none };
  dns = Dns.empty;
  network = record no_options { use_udp = some false };
}

abbrev probes : String → Option String
probes key = some "7"

abbrev arguments : ArgMatches
arguments = record { get_flag = λ k. false; get_one = probes }

abbrev parse : Parse
parse = record { usize = λ s. some 7; bool = λ s. none }

apply_cmd_opts-effective_example :
    (apply_cmd_opts command_line (apply_global_opts whole) ≡ effective command_line whole)
    × (apply_global_opts (apply_cmd_opts command_line whole) ≡ effective command_line whole)
apply_cmd_opts-effective_example = apply_cmd_opts-effective command_line whole
