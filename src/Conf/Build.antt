-- ===== src/Conf/Build.antt =====
-- src/conf/endpoint.rs: what an endpoint of the configuration is built to, and its description for the
-- reconciler. The parsers of the standard library, the options of kaminari and certificate files are
-- parameters; texts are lists of characters.
pub mod Remote
pub mod Peers
mod Spec
mod Material
pub mod Tests
use realm.Base.{
  ℕ, suc, leb, nat_eq, if◌then◌else◌, String, List, [], ◌∷◌, ◌++◌, length, Option, none, some,
  is_some, unwrap_or, Result, ok, err, Bool, true, false, ◌&&◌, ◌||◌, not, map,
}
use realm.Lb.{Balancer}
use realm.Lb.Ring.{Lib}
use realm.Lb.Text.{Text, colon}
use realm.Endpoint.{
  SocketAddr, RemoteAddr, socket_addr, domain_name, BindOpts, ConnectOpts, Endpoint,
}
use realm.Conf.Net.{NetConf, NetInfo}
use realm.Conf.Net
use realm.Conf.Full.{EndpointConf}
use realm.Conf.Decimal.{parse_u16}
use realm.Conf.Balance
use realm.Conf.Balance.{Outcome, accepted, refused, Reason, build_balancer}
use realm.Lifecycle.Manager.{DrainPolicy, default_policy, EndpointSpec}
use realm.Tcp.Connect.{IpAddr, with_port}

-- What is used of the standard library.
pub record Std : Type 0 where
  pub chars : String → Text
  pub string : Text → String
  pub parse_socket_addr : Text → Option SocketAddr
  pub parse_ip : Text → Option IpAddr
  pub to_socket_addrs : Text → Result (List SocketAddr) String

-- What is used of kaminari. The error of an option's parser is the message of its panic.
pub record Kaminari : Type 0 where
  pub get_ws_conf : String → Result (Option ℕ) String
  pub get_tls_server_conf : String → Result (Option ℕ) String
  pub get_tls_client_conf : String → Result (Option ℕ) String
  pub new_accept : Option ℕ → Option ℕ → Result ℕ String
  pub new_connect : Option ℕ → Option ℕ → Result ℕ String

-- `BuildError`: field, value and reason.
pub data BuildError : Type 0 where
  build_error : String → Text → String → BuildError
  balance_error : Reason → BuildError

pub data Built {ℓ} (A : Type ℓ) : Type ℓ where
  built : A → Built A
  rejected : BuildError → Built A
  panics undefined : Built A

abbrev pub and_then {ℓ κ} : {A : Type ℓ} {B : Type κ} → Built A → (A → Built B) → Built B
and_then (built a) f = f a
and_then (rejected e) f = rejected e
and_then Built.panics f = Built.panics
and_then Built.undefined f = Built.undefined

abbrev pub resolves : Text → Result (List SocketAddr) String → Built SocketAddr
resolves s (err e) = rejected (build_error "listen" s e)
resolves s (ok []) = rejected (build_error "listen" s "resolved to no address")
resolves s (ok (a ∷ others)) = built a

abbrev pub or_here : ℕ → ℕ → Text → Option (Text × Text) → Option (Text × Text)
or_here d c cs (some (a, b)) = some (c ∷ a, b)
or_here d c cs none = if nat_eq c d then some ([], cs) else none

-- At the last separator.
unfoldable pub rsplit_once : ℕ → Text → Option (Text × Text)
rsplit_once d [] = none
rsplit_once d (c ∷ cs) = or_here d c cs (rsplit_once d cs)

module _ (std : Std) where
  unfoldable pub build_local : EndpointConf → Built SocketAddr
  build_local this =
      let listen = std.chars this.listen in resolves listen (std.to_socket_addrs listen)

  abbrev pub named_host : String → Text → Text → Option ℕ → Built RemoteAddr
  named_host field remote host none = rejected (build_error field remote "invalid port")
  named_host field remote [] (some p) = rejected (build_error field remote "missing host part")
  named_host field remote (c ∷ cs) (some p) = built (domain_name (std.string (c ∷ cs)) p)

  abbrev pub host_and_port : String → Text → Option (Text × Text) → Built RemoteAddr
  host_and_port field remote none = rejected (build_error field remote "missing `:port` suffix")
  host_and_port field remote (some (host, port)) = named_host field remote host (parse_u16 port)

  abbrev pub parsed_or_named : String → Text → Option SocketAddr → Built RemoteAddr
  parsed_or_named field remote (some a) = built (socket_addr a)
  parsed_or_named field remote none = host_and_port field remote (rsplit_once colon remote)

  unfoldable pub build_remote_x : String → Text → Built RemoteAddr
  unfolding rsplit_once
  build_remote_x field remote = parsed_or_named field remote (std.parse_socket_addr remote)

  abbrev pub build_all : String → List String → Built (List RemoteAddr)
  build_all field [] = built []
  build_all field (r ∷ rs) =
      and_then (build_remote_x field (std.chars r))
        (λ a. and_then (build_all field rs) (λ addrs. built (a ∷ addrs)))

  abbrev pub without_brackets : Text → Text
  without_brackets [] = []
  without_brackets (c ∷ cs) =
      let rest = without_brackets cs in if nat_eq c 91 || nat_eq c 93 then rest else c ∷ rest

  abbrev pub from_ip : Text → Option IpAddr → Built (Option SocketAddr)
  from_ip s none = rejected (build_error "through" s "neither an address nor an ip")
  from_ip s (some ip) = built (some (with_port 0 ip))

  abbrev pub first_or_ip : Text → Result (List SocketAddr) String → Built (Option SocketAddr)
  first_or_ip s (ok (a ∷ others)) = built (some a)
  first_or_ip s (ok []) = from_ip s (std.parse_ip (without_brackets s))
  first_or_ip s (err e) = from_ip s (std.parse_ip (without_brackets s))

  abbrev pub through_addr : Option String → Built (Option SocketAddr)
  through_addr none = built none
  through_addr (some t) = let s = std.chars t in first_or_ip s (std.to_socket_addrs s)

  unfoldable pub build_send_through : EndpointConf → Built (Option SocketAddr)
  build_send_through this = through_addr this.through

  -- `guard` and `returned`: a panic or an error of kaminari is a refusal.
  abbrev pub guarded {ℓ} : {A : Type ℓ} → String → Option String → Result A String → Built A
  guarded field value (ok a) = built a
  guarded field value (err e) = rejected (build_error field (std.chars (unwrap_or value "")) e)

  abbrev pub option_of :
      (String → Result (Option ℕ) String) → Option String → Result (Option ℕ) String
  option_of f none = ok none
  option_of f (some s) = f s

  abbrev pub shared :
      Kaminari → EndpointConf → Option ℕ → Option ℕ → Option ℕ → Option ℕ → Built (Option (ℕ × ℕ))
  shared kam this listen_ws listen_tls remote_ws remote_tls =
      if is_some listen_ws || is_some listen_tls || is_some remote_ws || is_some remote_tls
      then and_then
          (guarded "listen_transport" this.listen_transport (kam.new_accept listen_ws listen_tls))
          (λ ac.
            and_then
              (guarded "remote_transport" this.remote_transport
                (kam.new_connect remote_ws remote_tls))
              (λ cc'. built (some (ac, cc'))))
      else built none

  unfoldable pub build_transport : Kaminari → EndpointConf → Built (Option (ℕ × ℕ))
  build_transport kam this =
      and_then
        (guarded "listen_transport" this.listen_transport
          (option_of kam.get_ws_conf this.listen_transport))
        (λ listen_ws.
          and_then
            (guarded "listen_transport" this.listen_transport
              (option_of kam.get_tls_server_conf this.listen_transport))
            (λ listen_tls.
              and_then
                (guarded "remote_transport" this.remote_transport
                  (option_of kam.get_ws_conf this.remote_transport))
                (λ remote_ws.
                  and_then
                    (guarded "remote_transport" this.remote_transport
                      (option_of kam.get_tls_client_conf this.remote_transport))
                    (λ remote_tls. shared kam this listen_ws listen_tls remote_ws remote_tls))))

-- The balancer as a step of the build.
abbrev pub balanced : Outcome → Built Balancer
balanced (accepted b) = built b
balanced (refused r) = rejected (balance_error r)
balanced Outcome.panics = Built.panics
balanced Outcome.undefined = Built.undefined

pub record EndpointInfo : Type 0 where
  pub no_tcp : Bool
  pub use_udp : Bool
  pub endpoint : Endpoint

abbrev pub text_option : (String → Text) → Option String → Option Text
text_option f none = none
text_option f (some s) = some (f s)

-- The last part of `build`, from all that was built before.
unfoldable pub assemble :
    EndpointConf
    → SocketAddr
    → RemoteAddr
    → List RemoteAddr
    → Option SocketAddr
    → Balancer
    → Option (ℕ × ℕ)
    → EndpointInfo
unfolding Net.build
assemble this laddr raddr extra through balancer transport =
    let net = Net.build this.network in
    record {
      no_tcp = net.no_tcp;
      use_udp = net.use_udp;
      endpoint = record {
        laddr = laddr;
        raddr = raddr;
        bind_opts = record net.bind_opts { bind_interface = this.listen_interface };
        conn_opts = record net.conn_opts {
          balancer = balancer;
          transport = transport;
          bind_address = through;
          bind_interface = this.interface;
        };
        extra_raddrs = extra;
      };
    }

module _ (over : ℕ → Option ℕ) (lib : Lib) (std : Std) (kam : Kaminari) where
  unfoldable pub build : EndpointConf → Built EndpointInfo
  unfolding build_local build_remote_x build_send_through build_balancer assemble build_transport
  build this = and_then (build_local std this) (λ laddr.
      and_then (build_remote_x std "remote" (std.chars this.remote)) (λ raddr.
        and_then (build_all std "extra_remotes" this.extra_remotes) (λ extra.
          and_then (build_send_through std this) (λ through.
            and_then
              (balanced (
                build_balancer over lib (text_option std.chars this.balance)
                  (length this.extra_remotes)))
              (λ balancer. and_then (build_transport std kam this) (λ transport.
                built (assemble this laddr raddr extra through balancer transport)))))))
