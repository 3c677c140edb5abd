-- ===== src/Udp/Middle/Batch.antt =====
-- realm_core/src/udp/middle.rs: a batch from its receipt to its delivery.
use realm.Base.{
  ℕ, suc, ◌≤◌, List, [], ◌∷◌, ◌++◌, length, take, drop, ok, ◌≡◌, refl, ap, ◌∙◌, arith, take-append,
  zero, length-append,
}
use realm.Endpoint.{SocketAddr, RemoteAddr}
use realm.Udp.SockMap.{addr_key}
use realm.Udp.Registry.{Packet, Registry, batched_recv_on, group_by_addr, group_iter, iter}
use realm.Udp.Registry.Blocks.{count}
use realm.Udp.Registry.Batch.{group_by_addr-IsGrouped}
use realm.Udp.Middle.{
  Answer, Relay, Calls, relay_groups, grouped, resolved, received, associate_and_relay,
}
use realm.Udp.Middle.Delivery.{Forwards, Delivers-Forwards, relay_groups-Delivers}

take_all : (n : ℕ) (xs : List Packet) → length xs ≤ n → take n xs ≡ xs
take_all zero [] h = refl
take_all (suc n) [] h = refl
take_all zero (x ∷ xs) h = absurd (omega (arith, h))
take_all (suc n) (x ∷ xs) h = ap (λ z. x ∷ z) (take_all n xs (omega (arith, h)))

-- The registry after a batch that fits.
abbrev filled : Registry → List Packet → Registry
filled r got = record r { pkts = got ++ drop (length got) r.pkts; cursor = length got }

recv-filled :
    (r : Registry) (got : List Packet)
    → length got ≤ length r.pkts
    → batched_recv_on got r ≡ filled r got
unfolding batched_recv_on
recv-filled r got h =
    ap (λ z. record r { pkts = z ++ drop (length got) r.pkts; cursor = length z })
      (take_all (length r.pkts) got h)

module _ {T : Type 0} (calls : Calls T) where
  filled-Forwards :
      (to : SocketAddr) (got : List Packet) (s : Relay T)
      → 1 ≤ length got
      → Forwards calls to s got (
          grouped calls to
            (group_by_addr (filled s.registry got))
            (record s { registry = filled s.registry got }))
  unfolding iter
  filled-Forwards to got s some_packet =
      let r = filled s.registry got in
      let (g, e, (one, same, behind, count_kept)) =
        group_by_addr-IsGrouped r some_packet
          (omega (arith, length-append got (drop (length got) s.registry.pkts))) in
      let batch : iter r ≡ got = take-append got (drop (length got) s.registry.pkts) in
      rw e (
        Delivers-Forwards calls to s (group_iter g) got
          (relay_groups calls to (group_iter g) (record s { registry = g }))
          (λ p. same p ∙ ap (count p) batch)
          (relay_groups-Delivers calls to (group_iter g) (record s { registry = g }) one))

  same-Forwards :
      (to : SocketAddr) (s : Relay T) (got : List Packet) (x y : Relay T × Answer)
      → x ≡ y
      → Forwards calls to s got y
      → Forwards calls to s got x
  same-Forwards to s got x y e h = rw e h

  -- A batch of one packet or more, no more than the buffer holds, and a name that is resolved: unless a
  -- socket or a send fails, every packet of the batch, each once and none twice, was sent to the first
  -- address of the remote, the packets of each client together and through the socket that the map then
  -- has for it; and nothing is read or written out of range.
  pub associate_and_relay-Forwards :
      (raddr : RemoteAddr) (to : SocketAddr) (others : List SocketAddr) (got : List Packet)
      (s : Relay T)
      → calls.recv ≡ ok got
      → calls.resolve_addr raddr ≡ ok (to ∷ others)
      → 1 ≤ length got
      → length got ≤ length s.registry.pkts
      → Forwards calls to s got (associate_and_relay calls raddr s)
  unfolding associate_and_relay
  associate_and_relay-Forwards raddr to others got s receives resolves some_packet fits =
      same-Forwards to s got _ _
        (ap (λ z. received calls raddr z s) receives
          ∙ (ap (λ z. resolved calls z (record s { registry = batched_recv_on got s.registry }))
                resolves
              ∙ ap (λ r. grouped calls to (group_by_addr r) (record s { registry = r }))
                  (recv-filled s.registry got fits)))
        (filled-Forwards to got s some_packet)
