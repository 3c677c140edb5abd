-- ===== src/Conf/Build/Tests.antt =====
-- src/conf/endpoint.rs at an endpoint with two remotes.
use realm.Base.{
  true, false, length, ℕ, [], ◌∷◌, none, some, ok, err, ◌≡◌, refl, arith, if◌then◌else◌,
}
use realm.Base.Int.{pos}
use realm.Lb.{Balancer, total}
use realm.Lb.Text
use realm.Lb.Rotation
use realm.Lb.Text.{
  Text, split, split_once, trim, trim_start, trim_end, strategy_from, parse_u8, parsed_weights,
  parse_from_str,
}
use text.Mathlib.Text.{◌==◌ as text_eq}
use realm.Conf.Balance.Tests.{written}
use realm.Lb.{RrNode}
use realm.Lb.Ring.Overflow.{unchecked}
use realm.Lb.Ring.Tests.{lib}
use realm.Endpoint.{v4, domain_name}
use realm.Conf.Net
use realm.Conf.Full.{EndpointConf}
use realm.Conf.Decimal.{parse_u16}
use realm.Conf.Legacy.{with_port, default_net}
use realm.Conf.Balance.{build_balancer, given_of, count_given}
use realm.Conf.Build.{
  Std, Kaminari, built, rejected, build_error, rsplit_once, build_local, build_remote_x,
  build_send_through, build_transport, EndpointInfo, assemble, build,
}
use realm.Conf.Build.Spec.{drain_policy, build_spec}
use realm.Conf.Build.Material.{Material, read_material, digest_material, refresh}
use realm.Conf.Build.Remote.{build_remote_x-with_port}

abbrev pub std : Std
std = record {
  chars = λ s. if text_eq s "roundrobin: 1, 2" then written else 97 ∷ 58 ∷ 56 ∷ [];
  string = λ t. "a";
  parse_socket_addr = λ t. none;
  parse_ip = λ t. none;
  to_socket_addrs = λ t. ok (v4 0 443 ∷ []);
}

abbrev pub kam : Kaminari
kam = record {
  get_ws_conf = λ s. ok none;
  get_tls_server_conf = λ s. err "no certificate";
  get_tls_client_conf = λ s. ok none;
  new_accept = λ w t. ok 0;
  new_connect = λ w t. ok 0;
}

build_remote_x-with_port_example :
    build_remote_x std "remote" (with_port (97 ∷ []) 8080) ≡ built (domain_name "a" 8080)
build_remote_x-with_port_example =
    build_remote_x-with_port std "remote" 97 [] 8080 (omega arith) refl

abbrev pub peer : ℕ → ℕ → RrNode
peer w t = record { cw = pos 0; ew = w; weight = w; token = t }

abbrev pub conf : EndpointConf
conf = record {
  listen = "";
  remote = "a:8";
  extra_remotes = "a:8" ∷ [];
  balance = some "roundrobin: 1, 2";
  through = none;
  interface = none;
  listen_interface = none;
  listen_transport = none;
  remote_transport = none;
  update_drain_timeout = none;
  delete_drain_timeout = none;
  network = default_net;
  material_digest = none;
}

abbrev pub info : EndpointInfo
unfolding assemble
info =
    assemble conf (v4 0 443) (domain_name "a" 8) (domain_name "a" 8 ∷ []) none
      (Balancer.roundrobin (record { nodes = peer 1 0 ∷ peer 2 1 ∷ []; total = 2 })) none

pub conf-build : build unchecked lib std kam conf ≡ built info
unfolding build build_local build_remote_x build_send_through build_transport assemble rsplit_once
    parse_u16 Net.build build_balancer given_of count_given split split_once trim trim_start
    trim_end parse_from_str total Text.new strategy_from parse_u8 parsed_weights Rotation.new
    Rotation.fresh_nodes
conf-build = refl

-- A panic of kaminari in the options of a transport is a refusal.
certificate_missing :
    build unchecked lib std kam (record conf { listen_transport = some "tls" })
    ≡ rejected (build_error "listen_transport" (97 ∷ 58 ∷ 56 ∷ []) "no certificate")
unfolding build build_local build_remote_x build_send_through build_transport assemble rsplit_once
    parse_u16 Net.build build_balancer given_of count_given split split_once trim trim_start
    trim_end parse_from_str total Text.new strategy_from parse_u8 parsed_weights Rotation.new
    Rotation.fresh_nodes
certificate_missing = refl

-- One deadline that is set, and the default of the other.
update_deadline :
    drain_policy (record conf { update_drain_timeout = some 5 })
    ≡ some (record { on_update = some 5; on_delete = some 30 })
unfolding drain_policy
update_deadline = refl

tcp_only :
    build_spec unchecked lib std kam conf
    ≡ built (record {
      endpoint = info.endpoint;
      tcp = true;
      udp = false;
      drain = none;
      material = none;
    })
unfolding build_spec drain_policy build build_local build_remote_x build_send_through
    build_transport assemble rsplit_once parse_u16 Net.build build_balancer given_of count_given
    split split_once trim trim_start trim_end parse_from_str total Text.new strategy_from parse_u8
    parsed_weights Rotation.new Rotation.fresh_nodes
tcp_only = refl

-- A file that cannot be read is told apart from an option that is absent; the hash counts the pieces.
abbrev material : Material
material = record {
  has_tls = λ s. true;
  get_opt = λ s o. if text_eq o "ca" then some "ca.pem" else none;
  read_file = λ p. none;
  hash = λ ps. length ps;
}

unreadable_bundle :
    (refresh material (record conf { remote_transport = some "tls;ca=ca.pem" })).material_digest
    ≡ some 11
unfolding refresh digest_material read_material
unreadable_bundle = refl

no_material : digest_material material conf ≡ none
unfolding digest_material
no_material = refl
