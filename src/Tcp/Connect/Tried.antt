-- ===== src/Tcp/Connect/Tried.antt =====
-- realm_core/src/tcp/socket.rs: which address a connection is to, or why there is none.
use realm.Base.{
  List, [], ◌∷◌, ◌++◌, Option, none, some, Result, ok, err, String, unwrap_or, ◌≡◌, ◌⊎◌, inl, inr,
  refl, ap,
}
use realm.Endpoint.{SocketAddr, RemoteAddr, ConnectOpts}
use realm.Tcp.Connect.{
  resolve_addr, Attempt, connected, timed_out, refused, Calls, prepare, default_error, connect_step,
  try_addresses, connect_to, connect,
}

abbrev pub IsUnreached : Attempt → Type 0
IsUnreached connected = ⊥
IsUnreached timed_out = Unit {0}
IsUnreached (refused e) = Unit {0}

module _ (calls : Calls) (opts : ConnectOpts) where
  -- Each socket was prepared, and each connection refused or timed out.
  abbrev pub Unreached : List SocketAddr → Type 0
  Unreached [] = Unit {0}
  Unreached (a ∷ addrs) =
      (prepare calls opts a ≡ none) × IsUnreached (calls.connect a) × Unreached addrs

  -- The error of the last refusal.
  abbrev pub noted : Option String → Attempt → Option String
  noted last connected = last
  noted last timed_out = last
  noted last (refused e) = some e

  abbrev pub last_refusal : Option String → List SocketAddr → Option String
  last_refusal last [] = last
  last_refusal last (a ∷ addrs) = last_refusal (noted last (calls.connect a)) addrs

  -- How the addresses were tried up to the result.
  abbrev pub Explains : Option String → List SocketAddr → Result SocketAddr String → Type 0
  Explains last addrs (ok a) =
      (before : List SocketAddr) × (after : List SocketAddr) × (addrs ≡ before ++ a ∷ after)
      × Unreached before
      × (prepare calls opts a ≡ none)
      × (calls.connect a ≡ connected)
  Explains last addrs (err e) =
      (Unreached addrs × (e ≡ unwrap_or (last_refusal last addrs) default_error))
      ⊎ ((before : List SocketAddr) × (a : SocketAddr) × (after : List SocketAddr) × (addrs
            ≡ before ++ a ∷ after)
          × Unreached before
          × (prepare calls opts a ≡ some e))

  later :
      (last : Option String) (a : SocketAddr) (addrs : List SocketAddr)
      (r : Result SocketAddr String)
      → prepare calls opts a ≡ none
      → IsUnreached (calls.connect a)
      → Explains (noted last (calls.connect a)) addrs r
      → Explains last (a ∷ addrs) r
  later last a addrs (ok b) ready missed (before, after, e, u, p, c) =
      (a ∷ before, after, ap (λ z. a ∷ z) e, (ready, missed, u), p, c)
  later last a addrs (err x) ready missed (inl (u, e)) = inl ((ready, missed, u), e)
  later last a addrs (err x) ready missed (inr (before, b, after, e, u, p)) =
      inr (a ∷ before, b, after, ap (λ z. a ∷ z) e, (ready, missed, u), p)

  connect_step-Explains :
      (last : Option String) (a : SocketAddr) (addrs : List SocketAddr)
      (rest : Option String → Result SocketAddr String) (o : Option String) (x : Attempt)
      → ((l : Option String) → Explains l addrs (rest l))
      → prepare calls opts a ≡ o
      → calls.connect a ≡ x
      → Explains last (a ∷ addrs) (connect_step calls opts a last rest o x)
  connect_step-Explains last a addrs rest (some e) x h p c = inr ([], a, addrs, refl, tt, p)
  connect_step-Explains last a addrs rest none connected h p c = ([], addrs, refl, tt, p, c)
  connect_step-Explains last a addrs rest none timed_out h p c =
      later last a addrs (rest last) p (rw c tt) (rw c (h last))
  connect_step-Explains last a addrs rest none (refused e) h p c =
      later last a addrs (rest (some e)) p (rw c tt) (rw c (h (some e)))

  try_addresses-Explains :
      (addrs : List SocketAddr) (last : Option String)
      → Explains last addrs (try_addresses calls opts addrs last)
  unfolding try_addresses
  try_addresses-Explains [] last = inl (tt, refl)
  try_addresses-Explains (a ∷ addrs) last =
      connect_step-Explains last a addrs _ _ _ (try_addresses-Explains addrs) refl refl

  -- What a connection comes to, by the result of the resolution.
  abbrev pub Answers : Result (List SocketAddr) String → Result SocketAddr String → Type 0
  Answers (err e) r = r ≡ err e
  Answers (ok addrs) r = Explains none addrs r

  -- Whatever the sockets answer: a connection is to the first resolved address that can be reached,
  -- after one socket was prepared for each address before it and its connection was refused or timed
  -- out; an error is that of the resolution, or of the first preparation that failed after such
  -- attempts, or, where every attempt was made in vain, that of the last refusal (or the default one
  -- where there was none).
  pub connect-Answers :
      (r : RemoteAddr) → Answers (resolve_addr calls.resolve_ip r) (connect calls opts r)
  unfolding connect
  connect-Answers r = go (resolve_addr calls.resolve_ip r)
    where
      go : (x : Result (List SocketAddr) String) → Answers x (connect_to calls opts x)
      go (err e) = refl
      go (ok addrs) = try_addresses-Explains addrs none
