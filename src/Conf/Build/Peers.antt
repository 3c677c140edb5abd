-- ===== src/Conf/Build/Peers.antt =====
-- src/conf/endpoint.rs: the remotes of an endpoint that is built, and its balancer.
use realm.Base.{ℕ, suc, String, List, [], ◌∷◌, length, Option, unwrap_or, ◌≡◌, refl, ap, arith}
use realm.Lb.{Balancer}
use realm.Lb.Ring.{Lib, IsLib}
use realm.Lb.Ring.Overflow.{unchecked}
use realm.Endpoint.{SocketAddr, RemoteAddr}
use realm.Conf.Net.{proxy_protocol_version}
use realm.Conf.Full.{EndpointConf}
use realm.Conf.Balance.{Outcome, accepted, refused}
use realm.Conf.Balance.Sound.{Usable, UsableOutcome, build_balancer-Usable}
use realm.Conf.Build.{
  Std, Kaminari, Built, built, rejected, and_then, build_local, build_remote_x, build_all,
  build_send_through, build_transport, balanced, EndpointInfo, assemble, text_option, build,
}

-- What is built has the property.
abbrev pub Holds {ℓ} : {A : Type ℓ} → (A → Type 0) → Built A → Type 0
Holds P (built a) = P a
Holds P (rejected e) = Unit {0}
Holds P Built.panics = Unit {0}
Holds P Built.undefined = Unit {0}

pub and_then-Holds {ℓ κ} :
    {A : Type ℓ} {B : Type κ} (P : A → Type 0) (Q : B → Type 0) (m : Built A) (f : A → Built B)
    → Holds P m
    → ((a : A) → P a → Holds Q (f a))
    → Holds Q (and_then m f)
and_then-Holds P Q (built a) f h k = k a h
and_then-Holds P Q (rejected e) f h k = tt
and_then-Holds P Q Built.panics f h k = tt
and_then-Holds P Q Built.undefined f h k = tt

abbrev Any {ℓ} : {A : Type ℓ} → A → Type 0
Any a = Unit {0}

Any-Holds {ℓ} : {A : Type ℓ} (m : Built A) → Holds Any m
Any-Holds (built a) = tt
Any-Holds (rejected e) = tt
Any-Holds Built.panics = tt
Any-Holds Built.undefined = tt

module _ (std : Std) where
  build_all-length :
      (field : String) (rs : List String)
      → Holds (λ addrs. length addrs ≡ length rs) (build_all std field rs)
  build_all-length field [] = refl
  build_all-length field (r ∷ rs) =
      let rest = build_all-length field rs in
      and_then-Holds Any (λ addrs. length addrs ≡ suc (length rs))
        (build_remote_x std field (std.chars r)) _ (Any-Holds _)
        (λ a h.
          and_then-Holds (λ addrs. length addrs ≡ length rs)
            (λ addrs. length addrs ≡ suc (length rs)) (build_all std field rs) _ rest
            (λ addrs e. ap suc e))

module _ (lib : Lib) (k : IsLib lib) (std : Std) (kam : Kaminari) where
  balanced-Usable :
      (extra : ℕ) (x : Outcome)
      → UsableOutcome lib k extra x
      → Holds (Usable lib k extra) (balanced x)
  balanced-Usable extra (accepted b) h = h
  balanced-Usable extra (refused r) h = tt
  balanced-Usable extra Outcome.panics h = tt
  balanced-Usable extra Outcome.undefined h = tt

  -- The balancer names remotes of the endpoint only, of which there are as many as are written, and the
  -- version of the PROXY protocol is the one of the configuration.
  abbrev pub HasPeers : EndpointConf → EndpointInfo → Type 0
  HasPeers this info =
      Usable lib k (length info.endpoint.extra_raddrs) info.endpoint.conn_opts.balancer
      × (length info.endpoint.extra_raddrs ≡ length this.extra_remotes)
      × (info.endpoint.conn_opts.proxy_opts.send_proxy_version
          ≡ unwrap_or this.network.send_proxy_version proxy_protocol_version)

  pub build-HasPeers :
      (this : EndpointConf) → Holds (HasPeers this) (build unchecked lib std kam this)
  unfolding build
  build-HasPeers this =
      let Q = HasPeers this in
      and_then-Holds Any Q (build_local std this) _ (Any-Holds _) (λ laddr u.
        and_then-Holds Any Q (build_remote_x std "remote" (std.chars this.remote)) _ (Any-Holds _)
          (λ raddr v.
            and_then-Holds (λ addrs. length addrs ≡ length this.extra_remotes) Q
              (build_all std "extra_remotes" this.extra_remotes) _
              (build_all-length std "extra_remotes" this.extra_remotes)
              (λ extra same.
                and_then-Holds Any Q (build_send_through std this) _ (Any-Holds _) (λ through w.
                  and_then-Holds (Usable lib k (length this.extra_remotes)) Q _ _
                    (balanced-Usable (length this.extra_remotes) _ (
                      build_balancer-Usable lib k (text_option std.chars this.balance)
                        (length this.extra_remotes)))
                    (λ balancer usable.
                      and_then-Holds Any Q (build_transport std kam this) _ (Any-Holds _)
                        (λ transport x.
                          peers laddr raddr extra through balancer transport same usable))))))
    where
      peers :
          (laddr : SocketAddr) (raddr : RemoteAddr) (extra : List RemoteAddr)
          (through : Option SocketAddr) (balancer : Balancer) (transport : Option (ℕ × ℕ))
          → length extra ≡ length this.extra_remotes
          → Usable lib k (length this.extra_remotes) balancer
          → HasPeers this (assemble this laddr raddr extra through balancer transport)
      peers laddr raddr extra through balancer transport same usable =
          ((usable.0, omega (arith, usable.1, same)), same, refl)
