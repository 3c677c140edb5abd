-- ===== src/Tcp/Proxy/Tests.antt =====
-- realm_core/src/tcp/proxy.rs with a codec that writes each number of an address as one byte.
use realm.Base.{
  ℕ, zero, suc, List, [], ◌∷◌, ◌++◌, none, some, Result, ok, err, true, String, ◌≡◌, refl, inl, inr,
  ap, sym, arith,
}
use realm.Endpoint.{SocketAddr, v4, ProxyOpts}
use realm.Tcp.Proxy.{
  AddressesV1, AddressesV2, unknown, local, proxy, Transport, datagram, SockV4, SockV6, ProxyHeader,
  version1, version2, other, streamed, make_header_v1, make_header_v2, make_header,
  handle_header_v1, handle_header_v2, handle_header, Codec, seen, Calls, Streams, done, panics,
  send, accept, handle_proxy,
}
use realm.Tcp.Proxy.Header.{handle-make_header}
use realm.Tcp.Proxy.Stream.{IsCalm, handle_proxy-IsCalm}
use realm.Tcp.Proxy.Taken.{Advances, shown, Consumes, handle_proxy-Consumes}
use realm.Tcp.Proxy.Relay.{ReadsBack, handle_proxy_announced}

abbrev pub Bytes : Type 0
Bytes = List ℕ

abbrev pub Parsed : Type 0
Parsed = Result (ProxyHeader × Bytes) String

abbrev pub read_v4 : (SockV4 → SockV4 → ProxyHeader) → Bytes → Parsed
read_v4 f (a ∷ p ∷ b ∷ q ∷ bs) = ok (f (a, p) (b, q), bs)
read_v4 f bs = err "short"

abbrev pub read_v6 : (SockV6 → SockV6 → ProxyHeader) → Bytes → Parsed
read_v6 f (a ∷ p ∷ l ∷ s ∷ b ∷ q ∷ m ∷ t ∷ bs) = ok (f (a, p, l, s) (b, q, m, t), bs)
read_v6 f bs = err "short"

abbrev pub parse : Bytes → Parsed
parse (zero ∷ bs) = read_v4 (λ a b. version1 (AddressesV1.ipv4 a b)) bs
parse (suc zero ∷ bs) = read_v6 (λ a b. version1 (AddressesV1.ipv6 a b)) bs
parse (suc (suc zero) ∷ bs) = read_v4 (λ a b. streamed (AddressesV2.ipv4 a b)) bs
parse (suc (suc (suc n)) ∷ bs) = read_v6 (λ a b. streamed (AddressesV2.ipv6 a b)) bs
parse [] = err "short"

abbrev pub encode : ProxyHeader → Result Bytes String
encode (version1 (AddressesV1.ipv4 (a, p) (b, q))) = ok (0 ∷ a ∷ p ∷ b ∷ q ∷ [])
encode (version1 (AddressesV1.ipv6 (a, p, l, s) (b, q, m, t))) =
    ok (1 ∷ a ∷ p ∷ l ∷ s ∷ b ∷ q ∷ m ∷ t ∷ [])
encode (version1 unknown) = err "unsupported"
encode (version2 proxy Transport.stream (AddressesV2.ipv4 (a, p) (b, q))) =
    ok (2 ∷ a ∷ p ∷ b ∷ q ∷ [])
encode (version2 proxy Transport.stream (AddressesV2.ipv6 (a, p, l, s) (b, q, m, t))) =
    ok (3 ∷ a ∷ p ∷ l ∷ s ∷ b ∷ q ∷ m ∷ t ∷ [])
encode (version2 c t a) = err "unsupported"
encode other = err "unsupported"

abbrev pub codec : Codec
codec = record { parse = parse; encode = encode }

read_v4-Advances :
    (f : SockV4 → SockV4 → ProxyHeader) (bs rest : Bytes) (h : ProxyHeader)
    → read_v4 f bs ≡ ok (h, rest)
    → (p : Bytes) × (bs ≡ p ++ rest)
read_v4-Advances f (a ∷ p ∷ b ∷ q ∷ bs) rest h e = (a ∷ p ∷ b ∷ q ∷ [], cc)
read_v4-Advances f (a ∷ p ∷ b ∷ []) rest h e = cc
read_v4-Advances f (a ∷ p ∷ []) rest h e = cc
read_v4-Advances f (a ∷ []) rest h e = cc
read_v4-Advances f [] rest h e = cc

read_v6-Advances :
    (f : SockV6 → SockV6 → ProxyHeader) (bs rest : Bytes) (h : ProxyHeader)
    → read_v6 f bs ≡ ok (h, rest)
    → (p : Bytes) × (bs ≡ p ++ rest)
read_v6-Advances f (a ∷ p ∷ l ∷ s ∷ b ∷ q ∷ m ∷ t ∷ bs) rest h e =
    (a ∷ p ∷ l ∷ s ∷ b ∷ q ∷ m ∷ t ∷ [], cc)
read_v6-Advances f (a ∷ p ∷ l ∷ s ∷ b ∷ q ∷ m ∷ []) rest h e = cc
read_v6-Advances f (a ∷ p ∷ l ∷ s ∷ b ∷ q ∷ []) rest h e = cc
read_v6-Advances f (a ∷ p ∷ l ∷ s ∷ b ∷ []) rest h e = cc
read_v6-Advances f (a ∷ p ∷ l ∷ s ∷ []) rest h e = cc
read_v6-Advances f (a ∷ p ∷ l ∷ []) rest h e = cc
read_v6-Advances f (a ∷ p ∷ []) rest h e = cc
read_v6-Advances f (a ∷ []) rest h e = cc
read_v6-Advances f [] rest h e = cc

after_tag :
    (n : ℕ) (bs rest : Bytes) → (p : Bytes) × (bs ≡ p ++ rest) → (p : Bytes) × (n ∷ bs ≡ p ++ rest)
after_tag n bs rest (p, e) = (n ∷ p, ap (λ z. n ∷ z) e)

codec-Advances : Advances codec
codec-Advances (zero ∷ bs) rest h e =
    after_tag _ bs rest (read_v4-Advances (λ a b. version1 (AddressesV1.ipv4 a b)) bs rest h e)
codec-Advances (suc zero ∷ bs) rest h e =
    after_tag _ bs rest (read_v6-Advances (λ a b. version1 (AddressesV1.ipv6 a b)) bs rest h e)
codec-Advances (suc (suc zero) ∷ bs) rest h e =
    after_tag _ bs rest (read_v4-Advances (λ a b. streamed (AddressesV2.ipv4 a b)) bs rest h e)
codec-Advances (suc (suc (suc n)) ∷ bs) rest h e =
    after_tag _ bs rest (read_v6-Advances (λ a b. streamed (AddressesV2.ipv6 a b)) bs rest h e)
codec-Advances [] rest h e = cc

ok_injective : {x y : Bytes} → Path (Result Bytes String) (ok x) (ok y) → x ≡ y
ok_injective e = cc

reread :
    (x bs rest : Bytes)
    → Path (Result Bytes String) (ok x) (ok bs)
    → parse (bs ++ rest) ≡ parse (x ++ rest)
reread x bs rest e = ap (λ z. parse (z ++ rest)) (sym (ok_injective e))

read_back :
    (h : ProxyHeader) (bs rest : Bytes) → encode h ≡ ok bs → parse (bs ++ rest) ≡ ok (h, rest)
read_back (version1 (AddressesV1.ipv4 (a, p) (b, q))) bs rest e = reread _ bs rest e
read_back (version1 (AddressesV1.ipv6 (a, p, l, s) (b, q, m, t))) bs rest e = reread _ bs rest e
read_back (version1 unknown) bs rest e = cc
read_back (version2 local t a) bs rest e = cc
read_back (version2 proxy Transport.unspec a) bs rest e = cc
read_back (version2 proxy datagram a) bs rest e = cc
read_back (version2 proxy Transport.stream AddressesV2.unspec) bs rest e = cc
read_back (version2 proxy Transport.stream AddressesV2.unix) bs rest e = cc
read_back (version2 proxy Transport.stream (AddressesV2.ipv4 (a, p) (b, q))) bs rest e =
    reread _ bs rest e
read_back (version2 proxy Transport.stream (AddressesV2.ipv6 (a, p, l, s) (b, q, m, t))) bs rest e =
    reread _ bs rest e
read_back other bs rest e = cc

codec-ReadsBack : ReadsBack codec
codec-ReadsBack c d v h bs rest pc pd made sent = read_back h bs rest sent

abbrev client : SocketAddr
client = v4 7 40000

abbrev server : SocketAddr
server = v4 9 443

abbrev first_hop : Bytes
first_hop = 0 ∷ 7 ∷ 40000 ∷ 9 ∷ 443 ∷ []

abbrev second_hop : Bytes
second_hop = 2 ∷ 7 ∷ 40000 ∷ 9 ∷ 443 ∷ []

abbrev opts : ProxyOpts
opts = record {
  send_proxy = true;
  accept_proxy = true;
  send_proxy_version = 2;
  accept_proxy_timeout = 5;
}

abbrev calls : Calls
calls = record { peek = seen 7; read_error = none; peer_addr = ok (v4 8 555); write_error = none }

abbrev streams : Streams
streams = record { src = first_hop ++ (71 ∷ 69 ∷ 84 ∷ []); dst = [] }

first_made :
    (h : ProxyHeader) × (make_header client server 1 ≡ some h) × (codec.encode h ≡ ok first_hop)
unfolding make_header make_header_v1 make_header_v2
first_made = (_, refl, refl)

second_made :
    (h : ProxyHeader) × (make_header client server 2 ≡ some h) × (codec.encode h ≡ ok second_hop)
unfolding make_header make_header_v1 make_header_v2
second_made = (_, refl, refl)

handle-make_header_example :
    (h : ProxyHeader) × (make_header client server 2 ≡ some h)
    × (handle_header h ≡ some (client, server))
handle-make_header_example = handle-make_header client server 2 refl (inr refl)

handle_proxy_announced_example :
    handle_proxy codec calls opts (record { src = first_hop ++ (71 ∷ 69 ∷ 84 ∷ []); dst = [] })
    ≡ (record { src = 71 ∷ 69 ∷ 84 ∷ []; dst = [] ++ second_hop }, done)
handle_proxy_announced_example =
    handle_proxy_announced codec calls opts client server 1 7 first_hop second_hop
      (71 ∷ 69 ∷ 84 ∷ []) [] codec-ReadsBack refl tt tt (inl refl) first_made second_made refl refl
      refl refl (omega arith) (omega arith)

handle_proxy-Consumes_example :
    Consumes codec
      (shown calls.peek streams.src)
      opts.accept_proxy
      streams
      (handle_proxy codec calls opts streams)
handle_proxy-Consumes_example = handle_proxy-Consumes codec calls opts streams codec-Advances

handle_proxy-IsCalm_example : IsCalm (handle_proxy codec calls opts streams).1
handle_proxy-IsCalm_example = handle_proxy-IsCalm codec calls opts streams (inr refl)

-- A version that no check of the configuration refuses.
version_3_panics :
    (handle_proxy codec calls (record opts { send_proxy_version = 3 }) streams).1 ≡ panics
unfolding handle_proxy accept send make_header handle_header handle_header_v1 handle_header_v2
version_3_panics = refl

-- A header of version 1 is accepted, and one of version 2 sent with the same addresses.
v1_to_v2 :
    handle_proxy codec calls opts streams
    ≡ (record { src = 71 ∷ 69 ∷ 84 ∷ []; dst = second_hop }, done)
unfolding handle_proxy accept send make_header make_header_v1 make_header_v2 handle_header
    handle_header_v1 handle_header_v2
v1_to_v2 = refl
