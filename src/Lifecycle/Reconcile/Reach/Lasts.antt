-- ===== src/Lifecycle/Reconcile/Reach/Lasts.antt =====
-- What holds in every state that a reconciler reaches.
use realm.Base.{◌≡◌, refl, Option, none, some, Bool, arith}
use realm.Base.Map
use realm.Base.Map.{Map}
use realm.Endpoint.{EndpointId, Proto, tcp, Socket, v4}
use realm.Lifecycle.Manager.{System, Manager, Slot, Active, Draining, new}
use realm.Lifecycle.Manager.Table.{slot, slot_found, refresh}
use realm.Lifecycle.Manager.Replace.Account.{opened, closed, plane}
use realm.Lifecycle.Manager.Replace.Coherence.{
  IsCoherent, AllCoherent, MatchesGeneration, RunsIfClaimed,
}
use realm.Lifecycle.Manager.Apply.Account.{
  IsAccounted, update-IsAccounted, stop_accept-IsAccounted, refresh-IsAccounted,
}
use realm.Lifecycle.Manager.Apply.Ledger.{apply-IsAccounted, remove-IsAccounted}
use realm.Lifecycle.Manager.Apply.Invariant.{
  Coherent, apply-Coherent, remove-Coherent, stop_accept-Coherent, refresh-Coherent,
}
use realm.Lifecycle.Manager.Apply.Everywhere.{update-Everywhere, slot-Everywhere}
use realm.Lifecycle.Manager.Apply.Everywhere.{Everywhere}
use realm.Lifecycle.Manager.Status
use realm.Lifecycle.Manager.Status.Reported.{ReportsPlaced, live-Placed}
use realm.Lifecycle.Manager.Status.{
  IsLive, status-IsLive, wait_drained-IsAccounted, wait_drained-Coherent,
}
use realm.Lifecycle.Reconcile.{Source, Reconciler}
use realm.Lifecycle.Reconcile.Restore.{status}
use realm.Lifecycle.Reconcile.Reach.{
  Reachable, slot_ends, plane_ends, tasks_found, tasks_end, Reachable-kept, reported,
}

module _ (t : Socket) where
  plane-plane_ends :
      (p : Proto) (gone : Bool) (x : Option Active) → plane t p (plane_ends gone x) ≡ plane t p x
  plane-plane_ends p gone none = refl
  plane-plane_ends p gone (some a) = refl

  tasks_end-IsAccounted :
      (id : EndpointId) (p : Proto) (gone : Bool) (f : Draining → Bool) (m : Manager)
      → IsAccounted t m
      → IsAccounted t (tasks_end id p gone f m)
  unfolding tasks_end
  tasks_end-IsAccounted id p gone f m h = go (slot m id p) refl
    where
      go : (x : Option Slot) → slot m id p ≡ x → IsAccounted t (tasks_found id p gone f m x)
      go none e = h
      go (some s) e =
          let (x, found, same) = slot_found m id p s e in
          update-IsAccounted t id p (some (slot_ends gone f s)) m m.os x found h
            (rw same (omega (arith, plane-plane_ends p gone s.active)))

  new-IsAccounted : IsAccounted t new
  unfolding opened closed
  new-IsAccounted = record { distinct = tt; balance = refl }

  -- In every state that a reconciler reaches, at every socket, the listeners bound so far are those
  -- whose serving task was joined or found ended and those of the planes that slots hold (a plane
  -- whose task has ended by itself is held until it is found).
  pub Reachable-IsAccounted :
      {S : Type 0} (src : Source S) (sys : System) (r : Reconciler S)
      → Reachable src sys r
      → IsAccounted t r.manager
  Reachable-IsAccounted src sys r h =
      Reachable-kept sys (IsAccounted t)
        (record {
          first = new-IsAccounted;
          calls = record {
            applies = λ id g spec m v. apply-IsAccounted t sys id g spec m v;
            removes = λ id m v. remove-IsAccounted t id m v;
            stops = λ id p d m v. stop_accept-IsAccounted t id p d m v;
          };
          refreshes = λ m v. refresh-IsAccounted t m v;
          waits = λ id m v. wait_drained-IsAccounted t id m v;
          ends = λ id p gone f m v. tasks_end-IsAccounted id p gone f m v;
        })
        src r h

ends-IsCoherent :
    (gone : Bool) (f : Draining → Bool) (s : Slot) → IsCoherent s → IsCoherent (slot_ends gone f s)
ends-IsCoherent gone f s h = go s.active h.current h.honest
  where
    go :
        (x : Option Active)
        → MatchesGeneration s.generation x
        → RunsIfClaimed s.state x
        → IsCoherent
            (record s { active = plane_ends gone x; draining = (slot_ends gone f s).draining })
    go none c i = record { current = c; honest = i }
    go (some a) c i = record { current = c; honest = ground (arith, i) }

tasks_end-Coherent :
    (id : EndpointId) (p : Proto) (gone : Bool) (f : Draining → Bool) (m : Manager)
    → Coherent m
    → Coherent (tasks_end id p gone f m)
unfolding tasks_end
tasks_end-Coherent id p gone f m h = go (slot m id p) (slot-Everywhere IsCoherent m id p h)
  where
    go : (x : Option Slot) → AllCoherent x → Coherent (tasks_found id p gone f m x)
    go none c = h
    go (some s) c =
        update-Everywhere IsCoherent id p (some (slot_ends gone f s)) m m.os
          (ends-IsCoherent gone f s c) h

new-Coherent : Coherent new
unfolding Map.get
new-Coherent id = tt

Reachable-Coherent :
    {S : Type 0} (src : Source S) (sys : System) (r : Reconciler S)
    → Reachable src sys r
    → Coherent r.manager
Reachable-Coherent src sys r h =
    Reachable-kept sys Coherent
      (record {
        first = new-Coherent;
        calls = record {
          applies = λ id g spec m v. apply-Coherent sys id g spec m v;
          removes = λ id m v. remove-Coherent id m v;
          stops = λ id p d m v. stop_accept-Coherent id p d m v;
        };
        refreshes = refresh-Coherent;
        waits = wait_drained-Coherent;
        ends = λ id p gone f m v. tasks_end-Coherent id p gone f m v;
      })
      src r h

-- A status report in any state that a reconciler reaches leaves every slot live: a slot that claims
-- to run has a plane whose task had not ended when the report was made, no slot holds a plane whose
-- task had, and the plane of a slot is of the generation that the slot names. And every slot that is
-- reported running is reported with the address of a plane.
pub status-Live :
    {S : Type 0} (src : Source S) (sys : System) (r : Reconciler S)
    → Reachable src sys r
    → Everywhere IsLive (status r).0.manager × ReportsPlaced (status r).1
unfolding status Status.status
status-Live src sys r h =
    let live : Everywhere IsLive (refresh r.manager) =
      status-IsLive r.manager (Reachable-Coherent src sys r h) in
    let once = (Reachable-IsAccounted (v4 0 0, tcp) src sys (status r).0 (reported h)).distinct in
    (live, live-Placed (refresh r.manager) once live)
