-- ===== src/Tcp/Proxy/Header.antt =====
-- realm_core/src/tcp/proxy.rs: the headers that are made, and what is taken from them.
use realm.Base.{
  ℕ, Option, none, some, Result, ok, err, true, false, String, ◌≡◌, ◌⊎◌, inl, inr, refl, sym,
}
use realm.Endpoint.{SocketAddr, v4, v6}
use realm.Tcp.Proxy.{
  AddressesV1, AddressesV2, unknown, Command, local, proxy, Transport, datagram, ProxyHeader,
  version1, version2, other, is_ipv4, make_header_v1, make_header_v2, make_header, handle_header_v1,
  handle_addresses, handle_header_v2, handle_header, unspecified_like, addresses,
}

-- Both are IPv4, or both IPv6.
abbrev pub SameFamily : SocketAddr → SocketAddr → Type 0
SameFamily a b = is_ipv4 a ≡ is_ipv4 b

abbrev pub Known : ℕ → Type 0
Known v = (v ≡ 1) ⊎ (v ≡ 2)

mixed_families : true ≡ false → ⊥
mixed_families e = cc

handle-make_header_v1 :
    (c d : SocketAddr)
    → SameFamily c d
    → (h : ProxyHeader) × (make_header_v1 c d ≡ some h) × (handle_header h ≡ some (c, d))
unfolding make_header_v1 handle_header handle_header_v1
handle-make_header_v1 (v4 a p) (v4 b q) e = (version1 (AddressesV1.ipv4 (a, p) (b, q)), refl, refl)
handle-make_header_v1 (v4 a p) (v6 b q g t) e = absurd (mixed_families e)
handle-make_header_v1 (v6 a p f s) (v4 b q) e = absurd (mixed_families (sym e))
handle-make_header_v1 (v6 a p f s) (v6 b q g t) e =
    (version1 (AddressesV1.ipv6 (a, p, f, s) (b, q, g, t)), refl, refl)

handle-make_header_v2 :
    (c d : SocketAddr)
    → SameFamily c d
    → (h : ProxyHeader) × (make_header_v2 c d ≡ some h) × (handle_header h ≡ some (c, d))
unfolding make_header_v2 handle_header handle_header_v2
handle-make_header_v2 (v4 a p) (v4 b q) e =
    (version2 proxy Transport.stream (AddressesV2.ipv4 (a, p) (b, q)), refl, refl)
handle-make_header_v2 (v4 a p) (v6 b q g t) e = absurd (mixed_families e)
handle-make_header_v2 (v6 a p f s) (v4 b q) e = absurd (mixed_families (sym e))
handle-make_header_v2 (v6 a p f s) (v6 b q g t) e =
    (version2 proxy Transport.stream (AddressesV2.ipv6 (a, p, f, s) (b, q, g, t)), refl, refl)

-- A header of version 1 or 2 is made of any two addresses of one family, and these two are what is
-- taken from it.
pub handle-make_header :
    (c d : SocketAddr) (v : ℕ)
    → SameFamily c d
    → Known v
    → (h : ProxyHeader) × (make_header c d v ≡ some h) × (handle_header h ≡ some (c, d))
unfolding make_header
handle-make_header c d v e (inl one) = rw one (handle-make_header_v1 c d e)
handle-make_header c d v e (inr two) = rw two (handle-make_header_v2 c d e)

-- The addresses of a pair are of one family.
abbrev pub OneFamily : Option (SocketAddr × SocketAddr) → Type 0
OneFamily none = Unit {0}
OneFamily (some (c, d)) = SameFamily c d

handle_header_v1-OneFamily : (a : AddressesV1) → OneFamily (handle_header_v1 a)
unfolding handle_header_v1
handle_header_v1-OneFamily unknown = tt
handle_header_v1-OneFamily (AddressesV1.ipv4 a b) = refl
handle_header_v1-OneFamily (AddressesV1.ipv6 a b) = refl

handle_addresses-OneFamily : (a : AddressesV2) → OneFamily (handle_addresses a)
handle_addresses-OneFamily (AddressesV2.ipv4 a b) = refl
handle_addresses-OneFamily (AddressesV2.ipv6 a b) = refl
handle_addresses-OneFamily AddressesV2.unspec = tt
handle_addresses-OneFamily AddressesV2.unix = tt

handle_header_v2-OneFamily :
    (c : Command) (t : Transport) (a : AddressesV2) → OneFamily (handle_header_v2 c t a)
unfolding handle_header_v2
handle_header_v2-OneFamily local t a = tt
handle_header_v2-OneFamily proxy Transport.stream a = handle_addresses-OneFamily a
handle_header_v2-OneFamily proxy Transport.unspec a = tt
handle_header_v2-OneFamily proxy datagram a = tt

pub handle_header-OneFamily : (h : ProxyHeader) → OneFamily (handle_header h)
unfolding handle_header
handle_header-OneFamily (version1 a) = handle_header_v1-OneFamily a
handle_header-OneFamily (version2 c t a) = handle_header_v2-OneFamily c t a
handle_header-OneFamily other = tt

unspecified_like-SameFamily : (a : SocketAddr) → SameFamily a (unspecified_like a)
unspecified_like-SameFamily (v4 a p) = refl
unspecified_like-SameFamily (v6 a p f s) = refl

-- The addresses that a header is made of are of one family.
abbrev pub Sendable : Result (SocketAddr × SocketAddr) String → Type 0
Sendable (ok (c, d)) = SameFamily c d
Sendable (err e) = Unit {0}

pub addresses-Sendable :
    (fwd : Option (SocketAddr × SocketAddr)) (peer : Result SocketAddr String)
    → OneFamily fwd
    → Sendable (addresses fwd peer)
addresses-Sendable (some p) peer h = h
addresses-Sendable none (ok a) h = unspecified_like-SameFamily a
addresses-Sendable none (err e) h = tt
