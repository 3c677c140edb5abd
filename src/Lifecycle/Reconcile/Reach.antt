-- ===== src/Lifecycle/Reconcile/Reach.antt =====
-- The states that a reconciler reaches: from its start or a restored snapshot, by submissions, by
-- the ends of tasks that nobody awaits, by status reports, by calls of the manager itself, which
-- `manager_mut` hands out, and by the shutdown.
pub mod Lasts
pub mod Answers
pub mod Shutdown
use realm.Base.{
  ℕ, ◌+◌, String, List, [], ◌∷◌, ◌≡◌, refl, Option, none, some, Bool, true, false, not, ◌||◌, ◌&&◌,
  Bool-cases, inl, inr, if◌then◌else◌, map, find, is_some, Result, ok, err, arith, unwrap_or,
}
use realm.Base.Map
use realm.Base.Map.{Map}
use realm.Endpoint.{EndpointId, Proto, tcp, udp, Socket, id_key}
use realm.Lifecycle.Manager.{
  System, Manager, Slot, Entry, Active, Draining, EndpointSpec, SlotOutcome, is_failed, Generation,
  new,
}
use realm.Lifecycle.Manager.Table.{
  slot, slot_active, get_slot, put_slot, update_slots, slot_found, entry, ids,
}
use realm.Lifecycle.Manager.Apply
use realm.Lifecycle.Manager.Table.{refresh}
use realm.Lifecycle.Manager.Status
use realm.Lifecycle.Manager.Replace.Account.{opened, closed, plane, Accounts}
use realm.Lifecycle.Manager.Replace.Coherence.{
  IsCoherent, AllCoherent, MatchesGeneration, RunsIfClaimed,
}
use realm.Lifecycle.Manager.Apply.Account.{IsAccounted, update-IsAccounted, stop_accept-IsAccounted}
use realm.Lifecycle.Manager.Apply.Ledger.{apply-IsAccounted, remove-IsAccounted}
use realm.Lifecycle.Manager.Apply.Invariant.{
  Coherent, apply-Coherent, remove-Coherent, stop_accept-Coherent,
}
use realm.Lifecycle.Reconcile.{Source, ReconcileRequest, Reconciler, Snapshot, ReconcileResponse}
use realm.Lifecycle.Reconcile.Submit.{fresh, set_ready, reconcile}
use realm.Lifecycle.Reconcile.Restore.{
  restore, restore_each, Restored, restore_refreshed, restore_built, restore_applied,
  restore_loaded, failure_text, failure, counted, RestoreOutcome, remove_each, shutdown, status,
}
use realm.Lifecycle.Reconcile.Submit.Listeners.{Kept, reconcile-kept}
use realm.Lifecycle.Reconcile.Submit.Record.{Recorded, Accepts, reconcile-Accepts}

abbrev plane_ends : Bool → Option Active → Option Active
plane_ends gone none = none
plane_ends gone (some a) = some (record a { exited = a.exited || gone })

-- The serving task of a slot ends by itself, if `gone`, and some of its drain tasks do.
abbrev pub slot_ends : Bool → (Draining → Bool) → Slot → Slot
slot_ends gone f s = record s {
  active = plane_ends gone s.active;
  draining = map {A = Draining} (λ d. record d { finished = d.finished || f d }) s.draining;
}

abbrev tasks_found : EndpointId → Proto → Bool → (Draining → Bool) → Manager → Option Slot → Manager
tasks_found id p gone f m none = m
tasks_found id p gone f m (some s) = update_slots id (put_slot p (some (slot_ends gone f s))) m

unfoldable pub tasks_end : EndpointId → Proto → Bool → (Draining → Bool) → Manager → Manager
tasks_end id p gone f m = tasks_found id p gone f m (slot m id p)

-- The calls of a manager by others.
pub data Call : Type 0 where
  apply : EndpointId → Generation → EndpointSpec → Call
  remove wait_drained : EndpointId → Call
  stop_accept : EndpointId → Proto → Option ℕ → Call
  report : Call

unfoldable pub call : System → Call → Manager → Manager
unfolding Status.status Status.wait_drained
call sys (Call.apply id g spec) m = (Apply.apply sys id g spec m).0
call sys (Call.remove id) m = (Apply.remove id m).0
call sys (Call.wait_drained id) m = Status.wait_drained id m
call sys (Call.stop_accept id p d) m = (Apply.stop_accept id p d m).0
call sys Call.report m = (Status.status m).0

pub data Reachable {S : Type 0} (src : Source S) (sys : System) : Reconciler S → Type 0 where
  started : (ready snapshot : Bool) → Reachable src sys (fresh ready snapshot)
  restored :
      (loaded : Result (Option (Snapshot S)) String)
      → Reachable src sys (restore src sys loaded (fresh false true)).0
  submitted :
      {r : Reconciler S} (q : ReconcileRequest S)
      → Reachable src sys r
      → Reachable src sys (reconcile src sys q r).0
  readied : {r : Reconciler S} (b : Bool) → Reachable src sys r → Reachable src sys (set_ready b r)
  ended :
      {r : Reconciler S} (id : EndpointId) (p : Proto) (gone : Bool) (f : Draining → Bool)
      → Reachable src sys r
      → Reachable src sys (record r { manager = tasks_end id p gone f r.manager })
  reported : {r : Reconciler S} → Reachable src sys r → Reachable src sys (status r).0
  called :
      {r : Reconciler S} (c : Call)
      → Reachable src sys r
      → Reachable src sys (record r { manager = call sys c r.manager })
  stopped : {r : Reconciler S} → Reachable src sys r → Reachable src sys (shutdown r)

-- A property of managers that they start with, that their calls keep, and the ends of tasks.
pub record Lasting (sys : System) (P : Manager → Type 0) : Type 0 where
  first : P new
  calls : Kept sys P
  refreshes : (m : Manager) → P m → P (refresh m)
  waits : (id : EndpointId) (m : Manager) → P m → P (Status.wait_drained id m)
  ends :
      (id : EndpointId) (p : Proto) (gone : Bool) (f : Draining → Bool) (m : Manager)
      → P m
      → P (tasks_end id p gone f m)

module _ (sys : System) (P : Manager → Type 0) (k : Lasting sys P) where
  remove_each-kept : (is : List EndpointId) (m : Manager) → P m → P (remove_each is m)
  remove_each-kept [] m h = h
  remove_each-kept (id ∷ is) m h = remove_each-kept is _ ((k.calls).removes id m h)

  call-kept : (c : Call) (m : Manager) → P m → P (call sys c m)
  unfolding call Status.status
  call-kept (Call.apply id g spec) m h = (k.calls).applies id g spec m h
  call-kept (Call.remove id) m h = (k.calls).removes id m h
  call-kept (Call.wait_drained id) m h = k.waits id m h
  call-kept (Call.stop_accept id p d) m h = (k.calls).stops id p d m h
  call-kept Call.report m h = k.refreshes m h

  module _ {S : Type 0} (src : Source S) where
    restore_applied-kept :
        (id : EndpointId) (spec : S) (a : Restored src sys) (x : Manager × List SlotOutcome)
        → P x.0
        → P ((restore_applied src sys id spec a x).reconciler).manager
    restore_applied-kept id spec a (m, os) h =
        go (failure_text src sys (find (λ o. is_failed o.action) os))
      where
        go :
            (t : Option String)
            → P
                ((elim t as (λ _. Restored src sys) [
                  | some e ↦
                      failure src sys id e
                        (record a { reconciler = record (a.reconciler) { manager = m } })
                  | none ↦ record a {
                    reconciler = record (a.reconciler) {
                      manager = m;
                      applied = Map.insert id spec (a.reconciler).applied;
                    };
                    restored = a.restored + 1;
                  }
                ]).reconciler
                  ).manager
        go none = h
        go (some e) = h

    restore_each-kept :
        (g : Generation) (es : Map EndpointId S) (a : Restored src sys)
        → P (a.reconciler).manager
        → P ((restore_each src sys g es a).reconciler).manager
    unfolding restore_each
    restore_each-kept g [] a h = h
    restore_each-kept g ((id, spec) ∷ es) a h =
        restore_each-kept g es _ (refreshed (src.refresh (a.reconciler).calls spec) h)
      where
        built :
            (spec' : S) (b : Restored src sys) (x : Result EndpointSpec String)
            → P (b.reconciler).manager
            → P ((restore_built src sys g id spec' b x).reconciler).manager
        built spec' b (err e) h' = h'
        built spec' b (ok d) h' =
            restore_applied-kept id spec' b (Apply.apply sys id g d (b.reconciler).manager)
              ((k.calls).applies id g d (b.reconciler).manager h')

        refreshed :
            (x : Result S String)
            → P (a.reconciler).manager
            → P ((restore_refreshed src sys g id (counted src sys a) x).reconciler).manager
        refreshed (err e) h' = h'
        refreshed (ok spec') h' =
            built spec' (counted src sys (counted src sys a))
              (src.build ((counted src sys a).reconciler).calls spec') h'

    if-pair :
        {X : Type 0} (b : Bool) (x y : Reconciler S × X)
        → P (x.0).manager
        → P (y.0).manager
        → P ((if b then x else y).0).manager
    if-pair true x y hx hy = hx
    if-pair false x y hx hy = hy

    loaded-kept :
        (r : Reconciler S) (s : Option (Snapshot S))
        → P r.manager
        → P ((restore_loaded src sys r s).0).manager
    loaded-kept r none h = h
    loaded-kept r (some s) h =
        restore_each-kept s.generation s.endpoints
          (record { reconciler = r; restored = 0; failed = [] }) h

    restore-kept :
        (loaded : Result (Option (Snapshot S)) String) (r : Reconciler S)
        → P r.manager
        → P ((restore src sys loaded r).0).manager
    unfolding restore
    restore-kept loaded r h = if-pair (not r.snapshot) _ _ h (go loaded)
      where
        go :
            (x : Result (Option (Snapshot S)) String)
            → P
                ((elim x as (λ _. Reconciler S × Result (RestoreOutcome src sys) String) [
                  | err e ↦ (r, err e)
                  | ok s ↦ ((restore_loaded src sys r s).0, ok (restore_loaded src sys r s).1)
                ]).0
                  ).manager
        go (err e) = h
        go (ok s) = loaded-kept r s h

    pub Reachable-kept : (r : Reconciler S) → Reachable src sys r → P r.manager
    unfolding set_ready shutdown status Status.status
    Reachable-kept _ (started ready snapshot) = k.first
    Reachable-kept _ (restored loaded) = restore-kept loaded (fresh false true) k.first
    Reachable-kept _ (submitted {r} q h) = reconcile-kept sys P k.calls src q r (Reachable-kept r h)
    Reachable-kept _ (readied {r} b h) = Reachable-kept r h
    Reachable-kept _ (ended {r} id p gone f h) = k.ends id p gone f r.manager (Reachable-kept r h)
    Reachable-kept _ (reported {r} h) = k.refreshes r.manager (Reachable-kept r h)
    Reachable-kept _ (called {r} c h) = call-kept c r.manager (Reachable-kept r h)
    Reachable-kept _ (stopped {r} h) =
        remove_each-kept (ids r.manager) r.manager (Reachable-kept r h)
