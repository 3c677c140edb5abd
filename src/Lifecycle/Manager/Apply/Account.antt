-- ===== src/Lifecycle/Manager/Apply/Account.antt =====
-- The listeners of a whole manager against what was done to the sockets.
use realm.Base.{ℕ, ◌+◌, List, [], ◌∷◌, ◌++◌, ◌≡◌, refl, ◌∙◌, Option, none, some, arith}
use realm.Base.Map
use realm.Base.Map.{Map}
use realm.Base.Map.Distinct.{Distinct, total, weight, total-insert, insert-Distinct}
use realm.Endpoint.{Proto, tcp, udp, Socket, EndpointId, id_key}
use realm.Lifecycle.Manager.{Os, Event, Slot, Entry, Manager, DrainPolicy, Active}
use realm.Lifecycle.Manager.Table.{
  slot_active, get_slot, put_slot, entry, slot, slot_found, update_slots, update_slots_found,
  refresh, refresh_entries, refresh_entry, refresh_slot, lost_events, lost_plane, on_slot,
}
use realm.Lifecycle.Manager.Start.{stop_active}
use realm.Lifecycle.Manager.Replace.Account.{opened, closed, plane, Accounts}
use realm.Lifecycle.Manager.Apply.{
  detach_slot, stop_slot, stop_found, stop_serving, stop_accept_found, admit, admitted, stop_accept,
}

-- The planes that the slots of an entry hold at the socket.
abbrev pub planes : Socket → Entry → ℕ
planes t e = plane t tcp (slot_active e.slots.tcp) + plane t udp (slot_active e.slots.udp)

-- At the socket: the listeners bound are those whose serving task was joined or found ended, and
-- those of the planes that slots hold.
pub record IsAccounted (t : Socket) (m : Manager) : Type 0 where
  pub distinct : Distinct m.entries
  pub balance : total (planes t) m.entries + closed t m.os.log ≡ opened t m.os.log

module _ (t : Socket) where
  planes-put :
      (e : Entry) (p : Proto) (x : Option Slot)
      → planes t (record e { slots = put_slot p x e.slots })
          + plane t p (slot_active (get_slot e.slots p))
        ≡ planes t e + plane t p (slot_active x)
  planes-put e tcp x = omega arith
  planes-put e udp x = omega arith

  pub update-IsAccounted :
      (id : EndpointId) (p : Proto) (x : Option Slot) (m : Manager) (os : Os) (e : Entry)
      → entry m id ≡ some e
      → IsAccounted t m
      → Accounts t p (slot_active (get_slot e.slots p)) m.os (slot_active x) os
      → IsAccounted t (update_slots id (put_slot p x) (record m { os = os }))
  update-IsAccounted id p x m os e found v h =
      let e' : Entry = record e { slots = put_slot p x e.slots } in
      rw (update_slots_found id (put_slot p x) (record m { os = os }) e found) (record {
        distinct = insert-Distinct id e' m.entries v.distinct;
        balance =
            let moved : total (planes t) (Map.insert id e' m.entries) + planes t e
                ≡ total (planes t) m.entries + planes t e' =
              rw found at (total-insert (planes t) id e' m.entries v.distinct) in
            omega (arith, moved, planes-put e p x, v.balance);
      })

  closed-append : (es fs : List Event) → closed t (es ++ fs) ≡ closed t es + closed t fs
  unfolding closed
  closed-append [] fs = omega arith
  closed-append (e ∷ es) fs = ground (arith, closed-append es fs)

  opened-append : (es fs : List Event) → opened t (es ++ fs) ≡ opened t es + opened t fs
  unfolding opened
  opened-append [] fs = omega arith
  opened-append (e ∷ es) fs = ground (arith, opened-append es fs)

  lost-plane :
      (d : Option ℕ) (p : Proto) (s : Option Slot)
      → (plane t p (slot_active (on_slot (refresh_slot d) s))
            + closed t (lost_plane p (slot_active s))
          ≡ plane t p (slot_active s))
        × (opened t (lost_plane p (slot_active s)) ≡ 0)
  unfolding refresh_slot closed opened
  lost-plane d p none = ground arith
  lost-plane d p (some s) = ground arith

  contains-refresh :
      (m : Map EndpointId Entry) (id : EndpointId)
      → Map.contains (refresh_entries m) id ≡ Map.contains m id
  unfolding refresh_entries Map.contains
  contains-refresh [] id = refl
  contains-refresh ((j, e) ∷ m) id = ground (arith, contains-refresh m id)

  refresh-Distinct : (m : Map EndpointId Entry) → Distinct m → Distinct (refresh_entries m)
  unfolding refresh_entries
  refresh-Distinct [] d = tt
  refresh-Distinct ((j, e) ∷ m) d = (contains-refresh m j ∙ d.0, refresh-Distinct m d.1)

  total-refresh :
      (m : Map EndpointId Entry)
      → (total (planes t) (refresh_entries m) + closed t (lost_events m) ≡ total (planes t) m)
        × (opened t (lost_events m) ≡ 0)
  unfolding refresh_entries refresh_entry
  total-refresh [] = (unfold closed in omega arith, unfold opened in omega arith)
  total-refresh ((j, e) ∷ m) =
      let d = e.drain.on_delete in
      let a = lost_plane tcp (slot_active e.slots.tcp) in
      let b = lost_plane udp (slot_active e.slots.udp) in
      omega (
        arith,
        total-refresh m,
        lost-plane d tcp e.slots.tcp,
        lost-plane d udp e.slots.udp,
        closed-append a (b ++ lost_events m),
        closed-append b (lost_events m),
        opened-append a (b ++ lost_events m),
        opened-append b (lost_events m),
      )

  pub refresh-IsAccounted : (m : Manager) → IsAccounted t m → IsAccounted t (refresh m)
  unfolding refresh
  refresh-IsAccounted m v = record {
    distinct = refresh-Distinct m.entries v.distinct;
    balance = omega (
      arith,
      v.balance,
      total-refresh m.entries,
      closed-append (lost_events m.entries) m.os.log,
      opened-append (lost_events m.entries) m.os.log,
    );
  }

  planes-admitted :
      (d : DrainPolicy) (e : Option Entry) → planes t (admitted d e) ≡ weight (planes t) e
  planes-admitted d none = refl
  planes-admitted d (some e) = refl

  pub admit-IsAccounted :
      (id : EndpointId) (d : DrainPolicy) (m : Manager)
      → IsAccounted t m
      → IsAccounted t (admit id d m)
  unfolding admit
  admit-IsAccounted id d m v = record {
    distinct = insert-Distinct id _ m.entries v.distinct;
    balance = omega (
      arith,
      total-insert (planes t) id (admitted d (entry m id)) m.entries v.distinct,
      planes-admitted d (entry m id),
      v.balance,
    );
  }

  detach-Accounts :
      (p : Proto) (d : Option ℕ) (s : Slot) (os : Os)
      → Accounts t p s.active os none (detach_slot p d s os)
  unfolding detach_slot stop_active opened closed
  detach-Accounts p d s os = ground arith

  stop_found-IsAccounted :
      (id : EndpointId) (p : Proto) (d : Option ℕ) (m : Manager) (x : Option Slot)
      → slot m id p ≡ x
      → IsAccounted t m
      → IsAccounted t (stop_found id p d m x).0
  stop_found-IsAccounted id p d m none h v = v
  stop_found-IsAccounted id p d m (some s) h v =
      let f = slot_found m id p s h in
      update-IsAccounted id p none m (detach_slot p d s m.os) f.0 f.1 v
        (rw (f.2) (detach-Accounts p d s m.os))

  pub stop_slot-IsAccounted :
      (id : EndpointId) (p : Proto) (d : Option ℕ) (m : Manager)
      → IsAccounted t m
      → IsAccounted t (stop_slot id p d m).0
  unfolding stop_slot
  stop_slot-IsAccounted id p d m v = stop_found-IsAccounted id p d m (slot m id p) refl v

  stop_serving-IsAccounted :
      (id : EndpointId) (p : Proto) (d : Option ℕ) (m : Manager) (s : Slot) (a : Option Active)
      → slot m id p ≡ some s
      → s.active ≡ a
      → IsAccounted t m
      → IsAccounted t (stop_serving id p d m s a).0
  unfolding stop_active
  stop_serving-IsAccounted id p d m s none h e v = v
  stop_serving-IsAccounted id p d m s (some a) h e v =
      let f = slot_found m id p s h in
      update-IsAccounted id p _ m (stop_active p a m.os) f.0 f.1 v
        (rw (f.2, e) (unfold opened closed in omega arith))

  stop_accept_found-IsAccounted :
      (id : EndpointId) (p : Proto) (d : Option ℕ) (m : Manager) (x : Option Slot)
      → slot m id p ≡ x
      → IsAccounted t m
      → IsAccounted t (stop_accept_found id p d m x).0
  stop_accept_found-IsAccounted id p d m none h v = v
  stop_accept_found-IsAccounted id p d m (some s) h v =
      stop_serving-IsAccounted id p d m s s.active h refl v

  -- A call of stop_accept keeps the account of a socket: the serving task of the plane that it takes
  -- from a slot is joined.
  pub stop_accept-IsAccounted :
      (id : EndpointId) (p : Proto) (d : Option ℕ) (m : Manager)
      → IsAccounted t m
      → IsAccounted t (stop_accept id p d m).0
  unfolding stop_accept
  stop_accept-IsAccounted id p d m v = stop_accept_found-IsAccounted id p d m (slot m id p) refl v
