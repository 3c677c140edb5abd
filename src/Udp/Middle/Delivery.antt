-- ===== src/Udp/Middle/Delivery.antt =====
-- realm_core/src/udp/middle.rs: where the packets of a batch go.
use realm.Base.{
  ℕ, ◌≤◌, List, [], ◌∷◌, ◌++◌, map, length, Option, none, some, Result, ok, err, String, Bool,
  Bool-cases, inl, inr, ◌≡◌, refl, ap, sym, ◌∙◌, arith, append_assoc, append-nil,
}
use realm.Base.Map
use realm.Base.Map.{Map}
use realm.Endpoint.{SocketAddr, addr_eq, addr_eq_iff}
use realm.Udp.SockMap.{State, find, insert, addr_key, opened, found, find_or_insert}
use realm.Udp.Registry.{Packet}
use realm.Udp.Registry.Blocks.{count, from, AllFrom, Rearranges}
use realm.Udp.Registry.Grouped.{concat, OnePerSender}
use realm.Udp.Middle.{
  Answer, done, panics, failed, Sent, Relay, Calls, send_group, with_socket, relay_group, and_then,
  relay_groups,
}

-- The sockets that clients have stay.
abbrev Keeps : {T : Type 0} → Map SocketAddr T → Map SocketAddr T → Type 0
Keeps {T} m n = (a : SocketAddr) (t : T) → find m a ≡ some t → find n a ≡ some t

insert-Keeps :
    {T : Type 0} (m : Map SocketAddr T) (b : SocketAddr) (u : T)
    → find m b ≡ none
    → Keeps m (insert b u m)
unfolding find insert
insert-Keeps m b u h a t e = elim (Bool-cases (addr_eq b a)) [
  | inl same ↦ absurd (clash (sym (ap (Map.get m) ((addr_eq_iff b a).0 same)) ∙ h) e)
  | inr other ↦ Map.get-insert b a u m ∙ rw other e
]
  where
    clash : Map.get m a ≡ none → Map.get m a ≡ some t → ⊥
    clash x y = cc

insert-find :
    {T : Type 0} (m : Map SocketAddr T) (b : SocketAddr) (u : T) → find (insert b u m) b ≡ some u
unfolding find insert
insert-find m b u = Map.get-insert b b u m ∙ rw ((addr_eq_iff b b).1 refl) refl

-- What `find_or_insert` leaves: the socket that it answers is in the map.
abbrev Holds : {T : Type 0} → SocketAddr → State T → State T × Result T String → Type 0
Holds a s (s', ok t) = Keeps s.sockets s'.sockets × (find s'.sockets a ≡ some t)
Holds a s (s', err e) = Unit {0}

find_or_insert-Holds :
    {T : Type 0} (f : ℕ → Result T String) (a : SocketAddr) (s : State T)
    → Holds a s (find_or_insert f a s)
unfolding find_or_insert
find_or_insert-Holds {T} f a s = go (find s.sockets a) refl
  where
    open_new : (r : Result T String) → find s.sockets a ≡ none → Holds a s (opened f a s r)
    open_new (ok t) h = (insert-Keeps s.sockets a t h, insert-find s.sockets a t)
    open_new (err e) h = tt

    go : (o : Option T) → find s.sockets a ≡ o → Holds a s (found f a s o)
    go (some t) h = ((λ b u e. e), h)
    go none h = open_new (f s.calls) h

count_le : (p : Packet → Bool) (xs : List Packet) → count p xs ≤ length xs
count_le p [] = omega arith
count_le p (x ∷ xs) = ground (arith, count_le p xs)

-- The first packet of a group names its sender.
first-AllFrom :
    (a : SocketAddr) (p : Packet) (ps : List Packet) → AllFrom a (p ∷ ps) → AllFrom p.addr (p ∷ ps)
first-AllFrom a p ps h = elim (Bool-cases (from a p)) [
  | inl same ↦ ap (λ z. count (from z) (p ∷ ps)) ((addr_eq_iff p.addr a).0 same) ∙ h
  | inr other ↦ absurd (ground (arith, count_le (from a) ps))
]

module _ {T : Type 0} (calls : Calls T) (to : SocketAddr) where
  -- Each entry goes to the remote, and is of one client, whose socket in the map it is sent through.
  abbrev pub AllRouted : Map SocketAddr T → List (Sent T) → Type 0
  AllRouted m [] = Unit {0}
  AllRouted m (x ∷ xs) =
      ((x.to ≡ to) × AllFrom x.client x.pkts × (find m x.client ≡ some x.socket)) × AllRouted m xs

  -- Where the loop comes to its end, every group was sent.
  abbrev pub Delivers : Relay T → List (List Packet) → Relay T × Answer → Type 0
  Delivers s gs (s', done) =
      (new : List (Sent T)) × (s'.sent ≡ s.sent ++ new)
      × (map (λ x. x.pkts) new ≡ gs)
      × AllRouted s'.table.sockets new
      × Keeps s.table.sockets s'.table.sockets
  Delivers s gs (s', panics) = ⊥
  Delivers s gs (s', failed e) = Unit {0}

  relay_group-Delivers :
      (p : Packet) (ps : List Packet) (s : Relay T)
      → AllFrom p.addr (p ∷ ps)
      → Delivers s ((p ∷ ps) ∷ []) (relay_group calls to (p ∷ ps) s)
  unfolding relay_group
  relay_group-Delivers p ps s h =
      go (find_or_insert calls.associate p.addr s.table)
        (find_or_insert-Holds calls.associate p.addr s.table)
    where
      deliver :
          (t : T) (table : State T) (o : Option String)
          → Keeps s.table.sockets table.sockets
          → find table.sockets p.addr ≡ some t
          → Delivers s
              ((p ∷ ps) ∷ [])
              (send_group calls to p.addr (p ∷ ps) t o (record s { table = table }))
      deliver t table (some e) k f = tt
      deliver t table none k f = (_, refl, refl, ((refl, h, f), tt), k)

      go :
          (x : State T × Result T String)
          → Holds p.addr s.table x
          → Delivers s ((p ∷ ps) ∷ []) (with_socket calls to p.addr (p ∷ ps) x s)
      go (table, err e) held = tt
      go (table, ok t) (k, f) = deliver t table (calls.send_all t (p ∷ ps)) k f

  AllRouted-Keeps :
      (m n : Map SocketAddr T) (xs : List (Sent T)) → Keeps m n → AllRouted m xs → AllRouted n xs
  AllRouted-Keeps m n [] k h = tt
  AllRouted-Keeps m n (x ∷ xs) k ((a, f, e), h) =
      ((a, f, k x.client x.socket e), AllRouted-Keeps m n xs k h)

  AllRouted-append :
      (m : Map SocketAddr T) (xs ys : List (Sent T))
      → AllRouted m xs
      → AllRouted m ys
      → AllRouted m (xs ++ ys)
  AllRouted-append m [] ys h k = k
  AllRouted-append m (x ∷ xs) ys (a, h) k = (a, AllRouted-append m xs ys h k)

  map-pkts :
      (xs ys : List (Sent T)) (g : List Packet) (gs : List (List Packet))
      → map (λ x. x.pkts) xs ≡ g ∷ []
      → map (λ x. x.pkts) ys ≡ gs
      → map (λ x. x.pkts) (xs ++ ys) ≡ g ∷ gs
  map-pkts [] ys g gs h k = cc
  map-pkts (x ∷ []) ys g gs h k = cc
  map-pkts (x ∷ y ∷ xs) ys g gs h k = cc

  and_then-Delivers :
      (s : Relay T) (g : List Packet) (gs : List (List Packet)) (x : Relay T × Answer)
      (f : Relay T → Relay T × Answer)
      → ((t : Relay T) → Delivers t gs (f t))
      → Delivers s (g ∷ []) x
      → Delivers s (g ∷ gs) (and_then calls f x)
  and_then-Delivers s g gs (t, failed e) f h d = tt
  and_then-Delivers s g gs (t, panics) f h d = d
  and_then-Delivers s g gs (t, done) f h (new, sent, pkts, routed, k) = go (f t) (h t)
    where
      go : (y : Relay T × Answer) → Delivers t gs y → Delivers s (g ∷ gs) y
      go (u, failed e) d = tt
      go (u, panics) d = d
      go (u, done) (more, sent', pkts', routed', k') = (
        new ++ more,
        sent' ∙ (ap (λ z. z ++ more) sent ∙ append_assoc s.sent new more),
        map-pkts new more g gs pkts pkts',
        AllRouted-append u.table.sockets new more
            (AllRouted-Keeps t.table.sockets u.table.sockets new k' routed) routed',
        λ a v e. k' a v (k a v e),
      )

  pub relay_groups-Delivers :
      (gs : List (List Packet)) (s : Relay T)
      → OnePerSender gs
      → Delivers s gs (relay_groups calls to gs s)
  unfolding relay_groups
  relay_groups-Delivers [] s h = ([], sym (append-nil s.sent), refl, tt, λ a t e. e)
  relay_groups-Delivers ([] ∷ gs) s ((a, few, all_from, alone), h) = absurd (omega (arith, few))
  relay_groups-Delivers ((p ∷ ps) ∷ gs) s ((a, few, all_from, alone), h) =
      and_then-Delivers s (p ∷ ps) gs (relay_group calls to (p ∷ ps) s) (relay_groups calls to gs)
        (λ t. relay_groups-Delivers gs t h)
        (relay_group-Delivers p ps s (first-AllFrom a p ps all_from))

  -- All that was received is sent.
  abbrev pub Forwards : Relay T → List Packet → Relay T × Answer → Type 0
  Forwards s got (s', done) =
      (new : List (Sent T)) × (s'.sent ≡ s.sent ++ new)
      × Rearranges (concat (map (λ x. x.pkts) new)) got
      × AllRouted s'.table.sockets new
  Forwards s got (s', panics) = ⊥
  Forwards s got (s', failed e) = Unit {0}

  pub Delivers-Forwards :
      (s : Relay T) (gs : List (List Packet)) (got : List Packet) (x : Relay T × Answer)
      → Rearranges (concat gs) got
      → Delivers s gs x
      → Forwards s got x
  Delivers-Forwards s gs got (t, failed e) r d = tt
  Delivers-Forwards s gs got (t, panics) r d = d
  Delivers-Forwards s gs got (t, done) r (new, sent, pkts, routed, k) =
      (new, sent, (λ p. ap (λ z. count p (concat z)) pkts ∙ r p), routed)
