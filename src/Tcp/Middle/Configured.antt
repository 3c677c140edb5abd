-- ===== src/Tcp/Middle/Configured.antt =====
-- The connections of an endpoint that was built from the configuration: src/conf/endpoint.rs,
-- realm_lb/src and realm_core/src/tcp/middle.rs together.
use realm.Base.{ℕ, List, unwrap_or, ◌≡◌}
use realm.Lb.Ring.{Lib, IsLib}
use realm.Lb.Ring.Overflow.{unchecked}
use realm.Endpoint.{SocketAddr, tcp_runtime}
use realm.Conf.Net.{proxy_protocol_version}
use realm.Conf.Full.{EndpointConf}
use realm.Conf.Build.{Std, Kaminari, Built, built, EndpointInfo, build}
use realm.Conf.Build.Peers.{Holds, HasPeers, build-HasPeers}
use realm.Tcp.Proxy.{Codec}
use realm.Tcp.Proxy.Header.{Known}
use realm.Tcp.Middle.{Conn, run}
use realm.Tcp.Middle.Chosen.{AllServed, run-AllServed}

module _ (lib : Lib) (k : IsLib lib) (std : Std) (kam : Kaminari) (octets : SocketAddr → List ℕ)
    (codec : Codec) where
  of_built :
      (conf : EndpointConf) (info : EndpointInfo) (x : Built EndpointInfo)
      → x ≡ built info
      → Holds (HasPeers lib k std kam conf) x
      → HasPeers lib k std kam conf info
  of_built conf info x e h = rw e at h

  -- With the documented printing, and overflow of the unchecked arithmetic undefined: an endpoint that
  -- the configuration builds in a defined way, with a version to send that is 1 or 2 or left to the default, serves every
  -- sequence of connections: each ends in success or in an error of a call, never in a panic or for want
  -- of a remote, and is connected to one of the remotes of the endpoint.
  pub built_endpoint-AllServed :
      (conf : EndpointConf) (info : EndpointInfo) (conns : List Conn)
      → build unchecked lib std kam conf ≡ built info
      → Known (unwrap_or conf.network.send_proxy_version proxy_protocol_version)
      → AllServed
          (tcp_runtime info.endpoint)
          (run unchecked lib octets codec conns (tcp_runtime info.endpoint))
  unfolding tcp_runtime
  built_endpoint-AllServed conf info conns e known =
      let (usable, same, version) = of_built conf info _ e (build-HasPeers lib k std kam conf) in
      run-AllServed lib k octets codec conns (tcp_runtime info.endpoint) (usable, rw version known)
