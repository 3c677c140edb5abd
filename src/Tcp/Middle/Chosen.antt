-- ===== src/Tcp/Middle/Chosen.antt =====
-- realm_core/src/tcp/middle.rs on a balancer that the configuration accepted: the remotes of its
-- connections.
use realm.Base.{
  ℕ, zero, suc, ◌≤◌, ◌<◌, List, [], ◌∷◌, nth, length, Option, none, some, Result, ok, err, Bool,
  true, false, String, ◌≡◌, ◌⊎◌, inl, inr, refl, sym, ap, ◌∙◌, arith,
}
use realm.Lb.{Balancer, total}
use realm.Lb.Ring.{Lib, IsLib}
use realm.Lb.Ring.Overflow.{unchecked}
use realm.Lb.Choice.{Pick, token, Picked, next-Picked}
use realm.Endpoint.{SocketAddr, RemoteAddr, TcpRuntime}
use realm.Conf.Balance.Sound.{Usable}
use realm.Tcp.Connect.{connect}
use realm.Tcp.Proxy
use realm.Tcp.Proxy.{Codec, Streams, handle_proxy}
use realm.Tcp.Proxy.Header.{Known}
use realm.Tcp.Proxy.Stream.{IsCalm, handle_proxy-IsCalm}
use realm.Tcp.Middle.{
  Answer, done, panics, failed, Conn, Relayed, Selected, select, enabled, moved, after_proxy,
  proxied, logged, connected_to, to_picked, for_peer, connect_and_relay, run,
}

-- Nothing but success or an error of a call.
abbrev pub IsOrdinary : Answer → Type 0
IsOrdinary done = Unit {0}
IsOrdinary (failed e) = Unit {0}
IsOrdinary panics = ⊥
IsOrdinary Answer.unknown_remote = ⊥
IsOrdinary Answer.broken = ⊥

-- A remote of the runtime, if any.
abbrev pub IsListed : TcpRuntime → Option RemoteAddr → Type 0
IsListed rt none = Unit {0}
IsListed rt (some r) = (r ≡ rt.raddr) ⊎ ((i : ℕ) × (nth rt.extra_raddrs i ≡ some r))

abbrev pub IsServed : TcpRuntime → Relayed → Type 0
IsServed rt x = IsOrdinary x.answer × IsListed rt x.remote

abbrev pub AllServed : TcpRuntime → List Relayed → Type 0
AllServed rt [] = Unit {0}
AllServed rt (x ∷ xs) = IsServed rt x × AllServed rt xs

nth-some : {A : Type 0} (xs : List A) (i : ℕ) → i < length xs → (a : A) × (nth xs i ≡ some a)
nth-some [] i h = absurd (omega (arith, h))
nth-some (x ∷ xs) zero h = (x, refl)
nth-some (x ∷ xs) (suc i) h = nth-some xs i (omega (arith, h))

-- A token of a peer selects a remote.
select-token :
    (rt : TcpRuntime) (t : ℕ)
    → t ≤ length rt.extra_raddrs
    → (r : RemoteAddr) × (select rt (token t) ≡ Selected.remote r) × IsListed rt (some r)
unfolding select
select-token rt zero h = (rt.raddr, refl, inl refl)
select-token rt (suc i) h =
    let (r, e) = nth-some rt.extra_raddrs i (omega (arith, h)) in (r, rw e refl, inr (i, e))

module _ (codec : Codec) (conn : Conn) (rt : TcpRuntime) (r : RemoteAddr) where
  after_proxy-IsOrdinary :
      (x : Streams × Proxy.Answer) → IsCalm x.1 → IsOrdinary (after_proxy codec conn rt r x).answer
  after_proxy-IsOrdinary (s, Proxy.done) h = tt
  after_proxy-IsOrdinary (s, Proxy.timed_out) h = tt
  after_proxy-IsOrdinary (s, Proxy.panics) h = h
  after_proxy-IsOrdinary (s, Proxy.failed e) h = tt

  after_proxy-remote :
      (x : Streams × Proxy.Answer) → (after_proxy codec conn rt r x).remote ≡ some r
  after_proxy-remote (s, Proxy.done) = refl
  after_proxy-remote (s, Proxy.timed_out) = refl
  after_proxy-remote (s, Proxy.panics) = refl
  after_proxy-remote (s, Proxy.failed e) = refl

  -- All goes on in the same runtime.
  after_proxy-runtime : (x : Streams × Proxy.Answer) → (after_proxy codec conn rt r x).runtime ≡ rt
  after_proxy-runtime (s, Proxy.done) = refl
  after_proxy-runtime (s, Proxy.timed_out) = refl
  after_proxy-runtime (s, Proxy.panics) = refl
  after_proxy-runtime (s, Proxy.failed e) = refl

  abbrev Goes : Relayed → Type 0
  Goes x = IsOrdinary x.answer × (x.remote ≡ some r) × (x.runtime ≡ rt)

  proxied-Goes :
      (b : Bool)
      → Known rt.conn_opts.proxy_opts.send_proxy_version
      → Goes (proxied codec conn rt r b)
  proxied-Goes true known =
      let x = handle_proxy codec conn.proxy rt.conn_opts.proxy_opts conn.streams in
      (
        after_proxy-IsOrdinary x
            (handle_proxy-IsCalm codec conn.proxy rt.conn_opts.proxy_opts conn.streams known),
        after_proxy-remote x,
        after_proxy-runtime x,
      )
  proxied-Goes false known = (tt, refl, refl)

  logged-Goes :
      (o : Option String)
      → Known rt.conn_opts.proxy_opts.send_proxy_version
      → Goes (logged codec conn rt r o)
  logged-Goes (some e) known = (tt, refl, refl)
  logged-Goes none known = proxied-Goes (enabled rt.conn_opts.proxy_opts) known

  connected_to-Goes :
      (x : Result SocketAddr String)
      → Known rt.conn_opts.proxy_opts.send_proxy_version
      → Goes (connected_to codec conn rt r x)
  connected_to-Goes (err e) known = (tt, refl, refl)
  connected_to-Goes (ok a) known = logged-Goes conn.log_error known

module _ (lib : Lib) (k : IsLib lib) (octets : SocketAddr → List ℕ) (codec : Codec) where
  -- The balancer names remotes of the runtime only, and the version to send is one that can be made.
  abbrev pub IsReady : TcpRuntime → Type 0
  IsReady rt =
      Usable lib k (length rt.extra_raddrs) rt.conn_opts.balancer
      × Known rt.conn_opts.proxy_opts.send_proxy_version

  -- Served by one of the remotes, and ready for the next connection, with the same remotes.
  abbrev Carries : TcpRuntime → Relayed → Type 0
  Carries rt x =
      IsServed rt x
      × IsReady x.runtime
      × (x.runtime.raddr ≡ rt.raddr)
      × (x.runtime.extra_raddrs ≡ rt.extra_raddrs)

  to_picked-Carries :
      (conn : Conn) (rt : TcpRuntime) (x : Balancer × Pick)
      → IsReady rt
      → Picked lib k (total rt.conn_opts.balancer) x
      → Carries rt (to_picked codec conn rt x)
  to_picked-Carries conn rt (b, p) ((sound, few), known) (t, e, less, s, same) =
      let (r, chosen, listed) = select-token rt t (omega (arith, few, less)) in
      let (ordinary, to, kept) =
        connected_to-Goes codec conn (moved rt b) r (connect conn.sockets (moved rt b).conn_opts r)
          known in
      let ready : IsReady (moved rt b) = ((s, omega (arith, same, few)), known) in
      rw (e, chosen) ((ordinary, rw to listed), rw kept ready, rw kept refl, rw kept refl)

  connect_and_relay-Carries :
      (conn : Conn) (rt : TcpRuntime)
      → IsReady rt
      → Carries rt (connect_and_relay unchecked lib octets codec conn rt)
  unfolding connect_and_relay
  connect_and_relay-Carries conn rt h = go conn.peer_addr
    where
      go :
          (p : Result SocketAddr String)
          → Carries rt (for_peer unchecked lib octets codec conn rt p)
      go (err e) = ((tt, tt), h, refl, refl)
      go (ok a) =
          to_picked-Carries conn rt _ h (next-Picked lib k rt.conn_opts.balancer (octets a) h.0.0)

  widen-IsListed :
      (rt rt' : TcpRuntime) (o : Option RemoteAddr)
      → rt'.raddr ≡ rt.raddr
      → rt'.extra_raddrs ≡ rt.extra_raddrs
      → IsListed rt' o
      → IsListed rt o
  widen-IsListed rt rt' none e f h = tt
  widen-IsListed rt rt' (some r) e f (inl h) = inl (h ∙ e)
  widen-IsListed rt rt' (some r) e f (inr (i, h)) = inr (i, sym (ap (λ z. nth z i) f) ∙ h)

  widen-AllServed :
      (rt rt' : TcpRuntime) (xs : List Relayed)
      → rt'.raddr ≡ rt.raddr
      → rt'.extra_raddrs ≡ rt.extra_raddrs
      → AllServed rt' xs
      → AllServed rt xs
  widen-AllServed rt rt' [] e f h = tt
  widen-AllServed rt rt' (x ∷ xs) e f ((ordinary, listed), h) =
      ((ordinary, widen-IsListed rt rt' x.remote e f listed), widen-AllServed rt rt' xs e f h)

  pub run-AllServed :
      (conns : List Conn) (rt : TcpRuntime)
      → IsReady rt
      → AllServed rt (run unchecked lib octets codec conns rt)
  unfolding run
  run-AllServed [] rt h = tt
  run-AllServed (c ∷ cs) rt h =
      let (served, ready, e, f) = connect_and_relay-Carries c rt h in
      (
        served,
        widen-AllServed rt (connect_and_relay unchecked lib octets codec c rt).runtime _ e f
            (run-AllServed cs (connect_and_relay unchecked lib octets codec c rt).runtime ready),
      )
