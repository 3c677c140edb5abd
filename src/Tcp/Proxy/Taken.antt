-- ===== src/Tcp/Proxy/Taken.antt =====
-- realm_core/src/tcp/proxy.rs: what handling the protocol takes from the client and
-- writes to the server.
use realm.Base.{
  ℕ, zero, suc, ◌-◌, ◌≤◌, List, [], ◌∷◌, ◌++◌, length, take, drop, min, Option, none, some, Result,
  ok, err, true, false, Bool, String, Bool-cases, ◌≡◌, ◌⊎◌, inl, inr, refl, ap, sym, ◌∙◌, arith,
  take-drop, append_assoc, append-nil, length-append, drop-append,
}
use realm.Endpoint.{SocketAddr, ProxyOpts}
use realm.Tcp.Proxy.{
  ProxyHeader, make_header, handle_header, Codec, Peek, seen, Calls, Streams, Answer, done, panics,
  capacity, addresses, write_all, write_header, send_made, send_from, send, send_if, remove_header,
  accept_parsed, accept, handle_proxy,
}

-- Reading a header drops bytes from the front.
abbrev pub Advances : Codec → Type 0
Advances codec =
    (bs rest : List ℕ) (h : ProxyHeader)
    → codec.parse bs ≡ ok (h, rest)
    → (p : List ℕ) × (bs ≡ p ++ rest)

-- The bytes that the peek shows.
abbrev pub shown : Peek → List ℕ → List ℕ
shown (seen n) bs = take (min n capacity) bs
shown Peek.timed_out bs = []
shown (Peek.failed e) bs = []

-- An answer that may come before a header is read at all, where one is accepted.
abbrev pub Untaken : Bool → Answer → Type 0
Untaken false a = Unit {0}
Untaken true done = ⊥
Untaken true panics = ⊥
Untaken true Answer.timed_out = Unit {0}
Untaken true (Answer.failed e) = Unit {0}

-- The answer is an error of a call.
abbrev pub HasFailed : Answer → Type 0
HasFailed done = ⊥
HasFailed panics = ⊥
HasFailed Answer.timed_out = ⊥
HasFailed (Answer.failed e) = Unit {0}

-- Nothing, where that is an answer before any header; or a header at the front of the bytes, of
-- which a part may be missing where a call failed.
abbrev pub IsHeaderOf : Codec → List ℕ → Bool → Answer → List ℕ → Type 0
IsHeaderOf codec buf accepts a p =
    ((p ≡ []) × Untaken accepts a)
    ⊎ ((h : ProxyHeader) × (rest : List ℕ) × (q : List ℕ) × (codec.parse buf ≡ ok (h, rest))
        × (buf ≡ p ++ (q ++ rest))
        × ((q ≡ []) ⊎ HasFailed a))

-- What is gone from the client's bytes is a header or nothing, and the server's bytes grow.
abbrev pub Consumes : Codec → List ℕ → Bool → Streams → Streams × Answer → Type 0
Consumes codec buf accepts s x =
    (p : List ℕ) × (out : List ℕ) × (s.src ≡ p ++ x.0.src)
    × IsHeaderOf codec buf accepts x.1 p
    × (x.0.dst ≡ s.dst ++ out)

drop_front : (j : ℕ) (xs ys : List ℕ) → j ≤ length xs → drop j (xs ++ ys) ≡ drop j xs ++ ys
drop_front zero xs ys h = refl
drop_front (suc j) [] ys h = absurd (omega (arith, h))
drop_front (suc j) (x ∷ xs) ys h = drop_front j xs ys (omega (arith, h))

-- The client's bytes are the same, and the server's grow.
abbrev Writes : Streams → Streams → Type 0
Writes s t = (out : List ℕ) × (t.src ≡ s.src) × (t.dst ≡ s.dst ++ out)

same-Writes : (s : Streams) → Writes s s
same-Writes s = ([], refl, sym (append-nil s.dst))

write_all-Writes :
    (o : Option (ℕ × String)) (bs : List ℕ) (s : Streams) → Writes s (write_all o bs s).0
write_all-Writes none bs s = (bs, refl, refl)
write_all-Writes (some (n, e)) bs s = (take n bs, refl, refl)

module _ (codec : Codec) (calls : Calls) (opts : ProxyOpts) where
  send_made-Writes :
      (o : Option ProxyHeader) (s : Streams) → Writes s (send_made codec calls opts o s).0
  send_made-Writes none s = same-Writes s
  send_made-Writes (some h) s = go (codec.encode h)
    where
      go : (r : Result (List ℕ) String) → Writes s (write_header calls r s).0
      go (ok bs) = write_all-Writes calls.write_error bs s
      go (err e) = same-Writes s

  send-Writes :
      (fwd : Option (SocketAddr × SocketAddr)) (s : Streams)
      → Writes s (send codec calls opts fwd s).0
  unfolding send
  send-Writes fwd s = go (addresses fwd calls.peer_addr)
    where
      go :
          (r : Result (SocketAddr × SocketAddr) String)
          → Writes s (send_from codec calls opts r s).0
      go (ok (c, d)) = send_made-Writes (make_header c d opts.send_proxy_version) s
      go (err e) = same-Writes s

  send_if-Writes :
      (b : Bool) (fwd : Option (SocketAddr × SocketAddr)) (s : Streams)
      → Writes s (send_if codec calls opts b fwd s).0
  send_if-Writes true fwd s = send-Writes fwd s
  send_if-Writes false fwd s = same-Writes s

  Writes-Consumes :
      (buf : List ℕ) (accepts : Bool) (s : Streams) (x : Streams × Answer)
      → Untaken accepts x.1
      → Writes s x.0
      → Consumes codec buf accepts s x
  Writes-Consumes buf accepts s x u (out, e, f) = ([], out, sym e, inl (refl, u), f)

  -- The header is `p`, in front of what is left of the bytes that were shown and of those behind.
  remove_header-Consumes :
      (n : ℕ) (p rest : List ℕ) (h : ProxyHeader) (o : Option (ℕ × String)) (s : Streams)
      → codec.parse (take n s.src) ≡ ok (h, rest)
      → take n s.src ≡ p ++ rest
      → Consumes codec (take n s.src) true s (
          remove_header codec calls opts o
            (length (take n s.src) - length rest)
            (handle_header h)
            s)
  remove_header-Consumes n p rest h (some (k, e)) s parsed cut =
      let whole : s.src ≡ p ++ (rest ++ drop n s.src) =
        sym (take-drop n s.src)
        ∙ (ap (λ z. z ++ drop n s.src) cut ∙ append_assoc p rest (drop n s.src)) in
      let count : length (take n s.src) - length rest ≡ length p =
        ap (λ z. length z - length rest) cut ∙ omega (arith, length-append p rest) in
      let j = min k (length p) in
      let parts : p ≡ take j p ++ drop j p = sym (take-drop j p) in
      let left : drop (min k (length (take n s.src) - length rest)) s.src
          ≡ drop j p ++ (rest ++ drop n s.src) =
        ap (λ c. drop (min k c) s.src) count
        ∙ (ap (λ z. drop j z) whole ∙ drop_front j p (rest ++ drop n s.src) (ground arith)) in
      let read : s.src ≡ take j p ++ (drop j p ++ (rest ++ drop n s.src)) =
        whole
        ∙ (ap (λ z. z ++ (rest ++ drop n s.src)) parts
            ∙ append_assoc (take j p) (drop j p) (rest ++ drop n s.src)) in
      let shown_parts : take n s.src ≡ take j p ++ (drop j p ++ rest) =
        cut ∙ (ap (λ z. z ++ rest) parts ∙ append_assoc (take j p) (drop j p) rest) in
      (
        take j p,
        [],
        read ∙ ap (λ z. take j p ++ z) (sym left),
        inr (h, rest, drop j p, parsed, shown_parts, inr tt),
        sym (append-nil s.dst),
      )
  remove_header-Consumes n p rest h none s parsed cut =
      let whole : s.src ≡ p ++ (rest ++ drop n s.src) =
        sym (take-drop n s.src)
        ∙ (ap (λ z. z ++ drop n s.src) cut ∙ append_assoc p rest (drop n s.src)) in
      let count : length (take n s.src) - length rest ≡ length p =
        ap (λ z. length z - length rest) cut ∙ omega (arith, length-append p rest) in
      let left : drop (length (take n s.src) - length rest) s.src ≡ rest ++ drop n s.src =
        ap (λ k. drop k s.src) count
        ∙ (ap (λ z. drop (length p) z) whole ∙ drop-append p (rest ++ drop n s.src)) in
      let cut_src = drop (length (take n s.src) - length rest) s.src in
      let (out, e, f) =
        send_if-Writes opts.send_proxy (handle_header h) (record s { src = cut_src }) in
      (
        p,
        out,
        whole ∙ ap (λ z. p ++ z) (sym left ∙ sym e),
        inr (h, rest, [], parsed, cut, inl refl),
        f,
      )

  accept_parsed-Consumes :
      (n : ℕ) (s : Streams) (r : Result (ProxyHeader × List ℕ) String)
      → Advances codec
      → codec.parse (take n s.src) ≡ r
      → Consumes codec (take n s.src) true s (accept_parsed codec calls opts (take n s.src) r s)
  accept_parsed-Consumes n s (err e) a parsed =
      Writes-Consumes (take n s.src) true s (s, Answer.failed e) tt (same-Writes s)
  accept_parsed-Consumes n s (ok (h, rest)) a parsed =
      let (p, cut) = a (take n s.src) rest h parsed in
      remove_header-Consumes n p rest h calls.read_error s parsed cut

  accept-Consumes :
      (k : Peek) (s : Streams)
      → Advances codec
      → Consumes codec (shown k s.src) true s (accept codec calls opts k s)
  unfolding accept
  accept-Consumes Peek.timed_out s a =
      Writes-Consumes [] true s (s, Answer.timed_out) tt (same-Writes s)
  accept-Consumes (Peek.failed e) s a =
      Writes-Consumes [] true s (s, Answer.failed e) tt (same-Writes s)
  accept-Consumes (seen n) s a = accept_parsed-Consumes (min n capacity) s _ a refl

  -- Whatever the sockets and the codec answer, where reading a header only drops bytes from the front
  -- of its input: what handling the protocol takes from the client's bytes is nothing, or the header
  -- that was read from the bytes that the peek showed, or, where a call failed, a part of it from its
  -- front; where a header is accepted, an answer but a timeout or an error means exactly the header.
  -- And it only appends to the server's bytes.
  pub handle_proxy-Consumes :
      (s : Streams)
      → Advances codec
      → Consumes codec
          (shown calls.peek s.src)
          opts.accept_proxy
          s
          (handle_proxy codec calls opts s)
  unfolding handle_proxy
  handle_proxy-Consumes s a = elim (Bool-cases opts.accept_proxy) [
    | inl on ↦ rw on (accept-Consumes calls.peek s a)
    | inr off ↦ rw off (
        Writes-Consumes (shown calls.peek s.src) false s (send codec calls opts none s) tt
          (send-Writes none s))
  ]
