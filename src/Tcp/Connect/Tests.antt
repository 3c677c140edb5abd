-- ===== src/Tcp/Connect/Tests.antt =====
-- realm_core/src/tcp/socket.rs at a name with three addresses, the second of which answers.
use realm.Base.{zero, suc, List, [], ◌∷◌, none, some, Result, ok, err, String, ◌≡◌, refl, false}
use realm.Lb.{Balancer}
use realm.Endpoint.{SocketAddr, v4, v6, RemoteAddr, domain_name, ConnectOpts}
use realm.Tcp.Connect.{
  IpAddr, ip4, resolve_addr, build_keepalive, Attempt, connected, timed_out, refused, Calls,
  prepare, try_addresses, connect,
}
use realm.Tcp.Connect.Tried.{Answers, connect-Answers}

abbrev pub resolve_ip : String → Result (List IpAddr) String
resolve_ip host = ok (ip4 0 ∷ ip4 1 ∷ ip4 2 ∷ [])

abbrev pub attempt : SocketAddr → Attempt
attempt (v4 zero p) = timed_out
attempt (v4 (suc zero) p) = connected
attempt (v4 (suc (suc n)) p) = refused "refused"
attempt (v6 a p f s) = refused "refused"

abbrev pub calls : Calls
calls = record {
  resolve_ip = resolve_ip;
  new_socket = λ a. none;
  bind = λ a. some "in use";
  bind_to_device = λ i. none;
  set_tcp_keepalive = λ k. none;
  connect = attempt;
}

abbrev pub opts : ConnectOpts
opts = record {
  send_mptcp = false;
  connect_timeout = 5;
  associate_timeout = 30;
  tcp_keepalive = 15;
  tcp_keepalive_probe = 3;
  bind_address = none;
  bind_interface = none;
  proxy_opts = record {
    send_proxy = false;
    accept_proxy = false;
    send_proxy_version = 2;
    accept_proxy_timeout = 5;
  };
  transport = none;
  balancer = Balancer.off;
}

abbrev remote : RemoteAddr
remote = domain_name "example.com" 443

connect-Answers_example :
    Answers calls opts (resolve_addr calls.resolve_ip remote) (connect calls opts remote)
connect-Answers_example = connect-Answers calls opts remote

second_address : connect calls opts remote ≡ ok (v4 1 443)
unfolding connect resolve_addr try_addresses prepare build_keepalive
second_address = refl

bind_fails : connect calls (record opts { bind_address = some (v4 9 0) }) remote ≡ err "in use"
unfolding connect resolve_addr try_addresses prepare build_keepalive
bind_fails = refl
