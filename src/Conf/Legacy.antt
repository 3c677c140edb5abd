-- ===== src/Conf/Legacy.antt =====
-- src/conf/legacy/mod.rs: the configuration of old versions. Texts are lists of characters; how a text
-- becomes a string, and the errors' texts, are left to the standard library.
pub mod Ports
pub mod Pairs
mod Tests
use realm.Base.{
  ℕ, zero, suc, ◌+◌, ◌-◌, ltb, if◌then◌else◌, String, List, [], ◌∷◌, ◌++◌, map, length, Option,
  none, some, Result, ok, err,
}
use realm.Lb.Text.{Text, colon, trim, split_once}
use realm.Conf.Net.{NetConf}
use realm.Conf.Full.{EndpointConf}
use realm.Conf.Decimal.{parse_u16, show}

pub record LegacyConf : Type 0 where
  pub listen_addrs : List Text
  pub listen_ports : List Text
  pub remote_addrs : List Text
  pub remote_ports : List Text

-- `BuildError`, by its reason and value.
pub data BuildError : Type 0 where
  not_a_port reversed_range : Text → BuildError
  no_port no_address : BuildError

abbrev pub hyphen : ℕ
hyphen = 45

abbrev pub or_not_a_port : Text → Option ℕ → Result ℕ BuildError
or_not_a_port s none = err (not_a_port s)
or_not_a_port s (some p) = ok p

unfoldable pub parse_port : Text → Result ℕ BuildError
parse_port s = or_not_a_port s (parse_u16 (trim s))

-- `start..=end`, by the number of its elements.
abbrev pub range_from : ℕ → ℕ → List ℕ
range_from start zero = []
range_from start (suc n) = start ∷ range_from (start + 1) n

abbrev pub bind {ℓ κ} :
    {A : Type ℓ} {B : Type κ}
    → Result A BuildError
    → (A → Result B BuildError)
    → Result B BuildError
bind (ok a) f = f a
bind (err e) f = err e

-- The end of a range, which is its start where there is none.
abbrev pub end_of : ℕ → Option Text → Result ℕ BuildError
end_of start none = ok start
end_of start (some s) = parse_port s

abbrev pub parts_of : Text → Option (Text × Text) → Text × Option Text
parts_of range none = (range, none)
parts_of range (some (a, b)) = (a, some b)

abbrev pub ports_between : Text → ℕ → ℕ → Result (List ℕ) BuildError
ports_between range start end =
    if ltb end start then err (reversed_range range) else ok (range_from start (end + 1 - start))

unfoldable pub ports_of : Text → Result (List ℕ) BuildError
unfolding parse_port
ports_of range =
    let parts = parts_of range (split_once hyphen range) in
    bind (parse_port parts.0)
      (λ start. bind (end_of start parts.1) (λ end. ports_between range start end))

unfoldable pub flatten_ports : List Text → Result (List ℕ) BuildError
unfolding ports_of
flatten_ports [] = ok []
flatten_ports (r ∷ rs) = bind (ports_of r) (λ ps. bind (flatten_ports rs) (λ qs. ok (ps ++ qs)))

-- `take(len).chain(repeat(first)).take(len)`
abbrev pub fill {ℓ} : {A : Type ℓ} → ℕ → A → List A → List A
fill zero first xs = []
fill (suc n) first [] = first ∷ fill n first []
fill (suc n) first (x ∷ xs) = x ∷ fill n first xs

abbrev pub with_port : Text → ℕ → Text
with_port addr port = addr ++ (colon ∷ show port)

abbrev pub zip_with {ℓ} : {A B C : Type ℓ} → (A → B → C) → List A → List B → List C
zip_with f [] ys = []
zip_with f (x ∷ xs) [] = []
zip_with f (x ∷ xs) (y ∷ ys) = f x y ∷ zip_with f xs ys

unfoldable pub join_addr_port : List Text → List ℕ → ℕ → Result (List Text) BuildError
join_addr_port addrs [] len = err no_port
join_addr_port [] (p ∷ ps) len = err no_address
join_addr_port (a ∷ addrs) (p ∷ ps) len =
    ok (zip_with with_port (fill len a (a ∷ addrs)) (fill len p (p ∷ ps)))

-- The texts of the endpoints.
unfoldable pub pairs_of : LegacyConf → Result (List (Text × Text)) BuildError
unfolding flatten_ports join_addr_port
pairs_of x = bind (flatten_ports x.listen_ports) (λ listen_ports.
    bind (flatten_ports x.remote_ports) (λ remote_ports.
      let len = length listen_ports in
      bind (join_addr_port x.listen_addrs listen_ports len) (λ listen.
        bind (join_addr_port x.remote_addrs remote_ports len)
          (λ remote. ok (zip_with (λ l r. (l, r)) listen remote)))))

abbrev pub default_net : NetConf
default_net = record {
  no_tcp = none;
  use_udp = none;
  ipv6_only = none;
  send_mptcp = none;
  accept_mptcp = none;
  send_proxy = none;
  accept_proxy = none;
  send_proxy_version = none;
  accept_proxy_timeout = none;
  tcp_keepalive = none;
  tcp_keepalive_probe = none;
  tcp_timeout = none;
  udp_timeout = none;
}

module _ (string : Text → String) where
  abbrev pub endpoint_of : Text × Text → EndpointConf
  endpoint_of (listen, remote) = record {
    listen = string listen;
    remote = string remote;
    extra_remotes = [];
    balance = none;
    through = none;
    interface = none;
    listen_interface = none;
    listen_transport = none;
    remote_transport = none;
    update_drain_timeout = none;
    delete_drain_timeout = none;
    network = default_net;
    material_digest = none;
  }

  -- `FullConf::try_from`: the endpoints; all else is the default.
  unfoldable pub try_from : LegacyConf → Result (List EndpointConf) BuildError
  unfolding pairs_of
  try_from x = bind (pairs_of x) (λ ps. ok (map endpoint_of ps))
