-- ===== src/Udp/Registry/Tests.antt =====
-- realm_core/src/udp/middle.rs at a batch of four packets from two clients.
use realm.Base.{[], ◌∷◌, some, ◌≡◌, refl, arith}
use realm.Endpoint.{SocketAddr, v4}
use realm.Udp.Registry.{
  Packet, set, swap, probe_loop, group_loop, group_by_inner, Registry, group_by_addr,
}
use realm.Udp.Registry.Batch.{IsGrouped, group_by_addr-IsGrouped}

abbrev client_a : SocketAddr
client_a = v4 1 1000

abbrev client_b : SocketAddr
client_b = v4 2 2000

abbrev pub a1 : Packet
a1 = record { buf = 1 ∷ []; addr = client_a }

abbrev pub a2 : Packet
a2 = record { buf = 2 ∷ []; addr = client_a }

abbrev pub b1 : Packet
b1 = record { buf = 3 ∷ []; addr = client_b }

abbrev pub b2 : Packet
b2 = record { buf = 4 ∷ []; addr = client_b }

abbrev pub received : Registry
received = record { pkts = a1 ∷ b1 ∷ b2 ∷ a2 ∷ a1 ∷ []; groups = []; cursor = 4 }

group_by_addr-IsGrouped_example :
    (s : Registry) × (group_by_addr received ≡ some s) × IsGrouped received s
group_by_addr-IsGrouped_example = group_by_addr-IsGrouped received (omega arith) (omega arith)

-- The packets of the second client change their order.
second_client_reordered :
    group_by_addr received
    ≡ some
        (record { pkts = a1 ∷ a2 ∷ b2 ∷ b1 ∷ a1 ∷ []; groups = (0, 2) ∷ (2, 4) ∷ []; cursor = 4 })
unfolding group_by_addr group_by_inner group_loop probe_loop swap set
second_client_reordered = refl

-- A call that receives nothing would give a group of a packet that is not of the batch.
none_received :
    group_by_addr (record received { cursor = 0 })
    ≡ some (record received { cursor = 0; groups = (0, 1) ∷ [] })
unfolding group_by_addr group_by_inner group_loop
none_received = refl
