-- ===== src/Tcp/Proxy/Stream.antt =====
-- realm_core/src/tcp/proxy.rs: handling the protocol does not panic.
use realm.Base.{
  ℕ, ◌-◌, List, length, Option, none, some, Result, ok, err, true, false, Bool, String, Bool-cases,
  inl, inr,
}
use realm.Endpoint.{SocketAddr, ProxyOpts}
use realm.Tcp.Proxy.{
  ProxyHeader, handle_header, Codec, Peek, seen, Calls, Streams, Answer, done, panics, addresses,
  write_all, write_header, send_from, send, send_if, remove_header, accept_parsed, accept,
  handle_proxy,
}
use realm.Tcp.Proxy.Header.{
  Known, handle-make_header, OneFamily, handle_header-OneFamily, Sendable, addresses-Sendable,
}

-- Not the failed `unreachable!`.
abbrev pub IsCalm : Answer → Type 0
IsCalm panics = ⊥
IsCalm done = Unit {0}
IsCalm Answer.timed_out = Unit {0}
IsCalm (Answer.failed e) = Unit {0}

module _ (codec : Codec) (calls : Calls) (opts : ProxyOpts) where
  write_all-IsCalm :
      (o : Option (ℕ × String)) (bs : List ℕ) (s : Streams) → IsCalm (write_all o bs s).1
  write_all-IsCalm none bs s = tt
  write_all-IsCalm (some (n, e)) bs s = tt

  write_header-IsCalm :
      (r : Result (List ℕ) String) (s : Streams) → IsCalm (write_header calls r s).1
  write_header-IsCalm (ok bs) s = write_all-IsCalm calls.write_error bs s
  write_header-IsCalm (err e) s = tt

  send_from-IsCalm :
      (r : Result (SocketAddr × SocketAddr) String) (s : Streams)
      → Known opts.send_proxy_version
      → Sendable r
      → IsCalm (send_from codec calls opts r s).1
  send_from-IsCalm (err e) s known h = tt
  send_from-IsCalm (ok (c, d)) s known h =
      let (made, e, back) = handle-make_header c d opts.send_proxy_version h known in
      rw e (write_header-IsCalm (codec.encode made) s)

  send-IsCalm :
      (fwd : Option (SocketAddr × SocketAddr)) (s : Streams)
      → Known opts.send_proxy_version
      → OneFamily fwd
      → IsCalm (send codec calls opts fwd s).1
  unfolding send
  send-IsCalm fwd s known h =
      send_from-IsCalm (addresses fwd calls.peer_addr) s known
        (addresses-Sendable fwd calls.peer_addr h)

  send_if-IsCalm :
      (b : Bool) (fwd : Option (SocketAddr × SocketAddr)) (s : Streams)
      → Known opts.send_proxy_version
      → OneFamily fwd
      → IsCalm (send_if codec calls opts b fwd s).1
  send_if-IsCalm true fwd s known h = send-IsCalm fwd s known h
  send_if-IsCalm false fwd s known h = tt

  remove_header-IsCalm :
      (o : Option (ℕ × String)) (n : ℕ) (h : ProxyHeader) (s : Streams)
      → Known opts.send_proxy_version
      → IsCalm (remove_header codec calls opts o n (handle_header h) s).1
  remove_header-IsCalm (some (k, e)) n h s known = tt
  remove_header-IsCalm none n h s known =
      send_if-IsCalm opts.send_proxy (handle_header h) _ known (handle_header-OneFamily h)

  accept_parsed-IsCalm :
      (buf : List ℕ) (r : Result (ProxyHeader × List ℕ) String) (s : Streams)
      → Known opts.send_proxy_version
      → IsCalm (accept_parsed codec calls opts buf r s).1
  accept_parsed-IsCalm buf (err e) s known = tt
  accept_parsed-IsCalm buf (ok (h, rest)) s known =
      remove_header-IsCalm calls.read_error (length buf - length rest) h s known

  accept-IsCalm :
      (k : Peek) (s : Streams)
      → Known opts.send_proxy_version
      → IsCalm (accept codec calls opts k s).1
  unfolding accept
  accept-IsCalm Peek.timed_out s known = tt
  accept-IsCalm (Peek.failed e) s known = tt
  accept-IsCalm (seen n) s known = accept_parsed-IsCalm _ _ s known

  -- Where the version to send is 1 or 2, no answer of the sockets or of the codec makes the handling of
  -- the protocol panic: the addresses that it makes a header of are of one family.
  pub handle_proxy-IsCalm :
      (s : Streams) → Known opts.send_proxy_version → IsCalm (handle_proxy codec calls opts s).1
  unfolding handle_proxy
  handle_proxy-IsCalm s known = elim (Bool-cases opts.accept_proxy) [
    | inl on ↦ rw on (accept-IsCalm calls.peek s known)
    | inr off ↦ rw off (send-IsCalm none s known tt)
  ]
