-- ===== src/Lifecycle/Manager/Start.antt =====
-- Binding and stopping one data plane.
use realm.Base.{
  ℕ, ◌+◌, String, ◌<>◌, ◌∷◌, Bool, Option, none, some, true, false, nat_eq, Result, ok, err,
}
use realm.Endpoint.{SocketAddr, Proto, tcp, udp, Socket, Endpoint}
use realm.Endpoint.Display.{show_endpoint}
use realm.Lifecycle.Cohort.{Cohort}
use realm.Lifecycle.Cohort
use realm.Lifecycle.Manager.{
  System, Os, Event, bound, refused, joined, associations_closed, Active, Generation,
}
use text.Mathlib.Text.{◌==◌ as text_eq}

abbrev pub record_event : Event → Os → Os
record_event e os = record os { log = e ∷ os.log }

module _ (sys : System) where
  abbrev bind_error : SocketAddr → String → String
  bind_error a e = "failed to bind " <> sys.printer.show_addr a <> ": " <> e

  -- What an attempt to bind leads to: a running data plane or the error.
  abbrev pub started :
      Generation → Socket → Os → Result SocketAddr String → Result Active String × Os
  started g sock os (ok l) =
      let plane : Active = record {
        generation = g;
        laddr = l;
        cohort = Cohort.new;
        exited = false;
      } in
      (ok plane, record os { attempts = os.attempts + 1; log = bound sock l ∷ os.log })
  started g sock os (err e) = (
    err (bind_error sock.0 e),
    record os { attempts = os.attempts + 1; log = refused sock ∷ os.log },
  )

  unfoldable pub start_endpoint : Endpoint → Proto → Generation → Os → Result Active String × Os
  start_endpoint e p g os = started g (e.laddr, p) os (sys.bind os.attempts (e.laddr, p))

  -- `endpoint_unchanged`: the printed forms agree.
  unfoldable pub endpoint_unchanged : Endpoint → Endpoint → Bool
  endpoint_unchanged a b = text_eq (show_endpoint sys.printer a) (show_endpoint sys.printer b)

-- The serving task is stopped and joined: a tcp listener is closed by it, the socket of a udp one
-- only when its associations, which hold it, have ended. The cohort is what is left.
unfoldable pub stop_active : Proto → Active → Os → Os
stop_active p a os = record_event (joined (a.laddr, p)) os

abbrev pub material_eq : Option ℕ → Option ℕ → Bool
material_eq none none = true
material_eq none (some b) = false
material_eq (some a) none = false
material_eq (some a) (some b) = nat_eq a b

-- Before a rebind of the same address the associations of a udp cohort are closed and awaited.
unfoldable pub vacate : Proto → Active → Os → Cohort × Os
vacate tcp a os = (a.cohort, os)
vacate udp a os = (
  Cohort.wait_drained (Cohort.cancel a.cohort),
  record_event (associations_closed (a.laddr, udp)) os,
)
