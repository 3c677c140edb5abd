-- ===== src/Tcp/Proxy/Relay.antt =====
-- realm_core/src/tcp/proxy.rs: two relays in a row, one of which sends the header that the other accepts.
use realm.Base.{
  ℕ, ◌-◌, ◌≤◌, List, [], ◌++◌, length, min, none, some, ok, Bool, true, false, ◌≡◌, refl, ap, sym,
  ◌∙◌, arith, take_append_more, drop-append, length-append, append-nil,
}
use realm.Endpoint.{SocketAddr, v4, v6, ProxyOpts}
use realm.Tcp.Proxy.{
  ProxyHeader, make_header, handle_header, Codec, seen, Calls, Streams, done, capacity, send,
  send_if, accept, handle_proxy,
}
use realm.Tcp.Proxy.Header.{SameFamily, Known, handle-make_header}

-- A header does not carry the flow information and the scope of an IPv6 address.
abbrev pub IsPlain : SocketAddr → Type 0
IsPlain (v4 a p) = Unit {0}
IsPlain (v6 a p f s) = (f ≡ 0) × (s ≡ 0)

-- The bytes that announce a connection from the first address to the second.
abbrev pub Announces : Codec → SocketAddr → SocketAddr → ℕ → List ℕ → Type 0
Announces codec c d v bs =
    (h : ProxyHeader) × (make_header c d v ≡ some h) × (codec.encode h ≡ ok bs)

-- The bytes of a header are read back as that header, whatever follows them.
abbrev pub ReadsBack : Codec → Type 0
ReadsBack codec =
    (c d : SocketAddr) (v : ℕ) (h : ProxyHeader) (bs rest : List ℕ)
    → IsPlain c
    → IsPlain d
    → make_header c d v ≡ some h
    → codec.encode h ≡ ok bs
    → codec.parse (bs ++ rest) ≡ ok (h, rest)

-- What the relay passes on in front of the data.
abbrev pub passed_on : Bool → List ℕ → List ℕ
passed_on true bs = bs
passed_on false bs = []

handle-Announced :
    (c d : SocketAddr) (v : ℕ) (h : ProxyHeader)
    → SameFamily c d
    → Known v
    → make_header c d v ≡ some h
    → handle_header h ≡ some (c, d)
handle-Announced c d v h same known made =
    let (k, e, back) = handle-make_header c d v same known in
    ap handle_header (some_injective (sym made ∙ e)) ∙ back
  where
    some_injective : {k l : ProxyHeader} → some k ≡ some l → k ≡ l
    some_injective e = cc

module _ (codec : Codec) (calls : Calls) (opts : ProxyOpts) where
  send_if-Announces :
      (b : Bool) (c d : SocketAddr) (bs : List ℕ) (s : Streams)
      → calls.write_error ≡ none
      → Announces codec c d opts.send_proxy_version bs
      → send_if codec calls opts b (some (c, d)) s
        ≡ (record s { dst = s.dst ++ passed_on b bs }, done)
  unfolding send
  send_if-Announces true c d bs s quiet (h, made, sent) = rw (made, sent, quiet) refl
  send_if-Announces false c d bs s quiet a =
      ap (λ o. (record s { dst = o }, done)) (sym (append-nil s.dst))

  -- Where the bytes of a header are read back as that header: the client's bytes are a header of
  -- version 1 or 2 for two addresses of one family, without flow information and scope, and then data;
  -- the header is at most 256 bytes, all of them are shown by the peek, a header is accepted, one for
  -- the same addresses can be encoded, and no call fails. Then exactly the header is taken, and what is
  -- written to the server is nothing, or, where the relay sends a header, a header for the same two
  -- addresses; the data is left.
  pub handle_proxy_announced :
      (c d : SocketAddr) (v n : ℕ) (bs bs' payload dst : List ℕ)
      → ReadsBack codec
      → SameFamily c d
      → IsPlain c
      → IsPlain d
      → Known v
      → Announces codec c d v bs
      → Announces codec c d opts.send_proxy_version bs'
      → opts.accept_proxy ≡ true
      → calls.peek ≡ seen n
      → calls.read_error ≡ none
      → calls.write_error ≡ none
      → length bs ≤ n
      → length bs ≤ capacity
      → handle_proxy codec calls opts (record { src = bs ++ payload; dst = dst })
        ≡ (record { src = payload; dst = dst ++ passed_on opts.send_proxy bs' }, done)
  unfolding handle_proxy accept
  handle_proxy_announced c d v n bs bs' payload dst rb same pc pd known (h, made, sent) out on peek
        quiet ready fits cap =
      let (zs, shown) = take_append_more (min n capacity) bs payload (ground (arith, fits, cap)) in
      let read = rb c d v h bs zs pc pd made sent in
      let count : length (bs ++ zs) - length zs ≡ length bs = omega (arith, length-append bs zs) in
      rw
        (
          on,
          peek,
          shown,
          read,
          quiet,
          count,
          drop-append bs payload,
          handle-Announced c d v h same known made,
        )
        (send_if-Announces opts.send_proxy c d bs' (record { src = payload; dst = dst }) ready out)
