-- ===== src/Tcp/Middle/Tests.antt =====
-- realm_core/src/tcp/middle.rs at a runtime of two remotes under "roundrobin: 1, 2".
use realm.Base.{ℕ, List, [], ◌∷◌, none, some, ok, ◌≡◌, refl, map, inr}
use realm.Base.Int.{pos, add_i16, wrap_i16, ◌+ℤ◌, sub_i16, ◌-ℤ◌}
use realm.Lb.{Balancer, RrNode}
use realm.Lb.Rotation
use realm.Lb.Ring.Overflow.{unchecked}
use realm.Lb.Ring.Tests.{lib, lib-IsLib}
use realm.Lb.Choice.{next}
use realm.Endpoint.{SocketAddr, v4, RemoteAddr, socket_addr, TcpRuntime}
use realm.Tcp.Connect.{connect, resolve_addr, try_addresses, prepare, build_keepalive}
use realm.Tcp.Connect.Tests.{calls, opts}
use realm.Tcp.Proxy.{seen}
use realm.Tcp.Proxy.Tests.{codec}
use realm.Tcp.Middle.{Conn, select, enabled, connect_and_relay, run}
use realm.Tcp.Middle.Chosen.{AllServed}
use realm.Tcp.Middle.Configured.{built_endpoint-AllServed}
use realm.Conf.Build.Tests.{std, kam, conf, info, conf-build}
use realm.Endpoint.{tcp_runtime}

abbrev octets : SocketAddr → List ℕ
octets a = 10 ∷ 0 ∷ 0 ∷ 1 ∷ []

abbrev peer : ℕ → ℕ → RrNode
peer w t = record { cw = pos 0; ew = w; weight = w; token = t }

abbrev first : RemoteAddr
first = socket_addr (v4 1 80)

abbrev second : RemoteAddr
second = socket_addr (v4 1 81)

abbrev runtime : TcpRuntime
runtime = record {
  raddr = first;
  conn_opts = record opts {
    balancer = Balancer.roundrobin (record { nodes = peer 1 0 ∷ peer 2 1 ∷ []; total = 2 });
  };
  extra_raddrs = second ∷ [];
}

abbrev conn : Conn
conn = record {
  peer_addr = ok (v4 7 40000);
  sockets = calls;
  log_error = none;
  proxy = record {
    peek = seen 0;
    read_error = none;
    peer_addr = ok (v4 7 40000);
    write_error = none;
  };
  relay = λ t s. (s, none);
  streams = record { src = []; dst = [] };
}

built_endpoint-AllServed_example :
    AllServed
      (tcp_runtime info.endpoint)
      (run unchecked lib octets codec (conn ∷ conn ∷ conn ∷ []) (tcp_runtime info.endpoint))
built_endpoint-AllServed_example =
    built_endpoint-AllServed lib lib-IsLib std kam octets codec conf info (conn ∷ conn ∷ conn ∷ [])
      conf-build (inr refl)

-- The second remote has twice the weight.
remotes_in_turn :
    map (λ x. x.remote) (run unchecked lib octets codec (conn ∷ conn ∷ conn ∷ []) runtime)
    ≡ some second ∷ some first ∷ some second ∷ []
unfolding run connect_and_relay select enabled connect resolve_addr try_addresses prepare
    build_keepalive next Rotation.next Rotation.scan Rotation.advance Rotation.choose
    Rotation.charge add_i16 wrap_i16 ◌+ℤ◌ sub_i16 ◌-ℤ◌
remotes_in_turn = refl
