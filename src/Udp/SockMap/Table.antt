-- ===== src/Udp/SockMap/Table.antt =====
-- realm_core/src/udp/sockmap.rs against a table: a function from addresses.
use realm.Base.{
  ℕ, ◌+◌, List, [], ◌∷◌, Option, none, some, Result, ok, err, if◌then◌else◌, ◌≡◌, refl, sym, ap,
  ◌∙◌,
}
use realm.Base.Map
use realm.Base.Map.{Map}
use realm.Endpoint.{SocketAddr, addr_eq}
use realm.Udp.SockMap.{
  addr_key, find, insert, remove, clear, State, opened, found, find_or_insert, Op, insert_op,
  find_or_insert_op, remove_op, clear_op, add_answer, step, run,
}

abbrev pub Table : Type 0 → Type 0
Table T = SocketAddr → Option T

module _ {T E : Type 0} (open_socket : ℕ → Result T E) where
  pub record Spec : Type 0 where
    pub table : Table T
    pub calls : ℕ
    pub answers : List (Result T E)

  abbrev set : SocketAddr → Option T → Table T → Table T
  set a x t b = if addr_eq a b then x else t b

  -- A socket is asked for only where the table has none; an error leaves the table.
  abbrev ask : SocketAddr → Spec → Result T E → Spec
  ask a s (ok t) = record {
    table = set a (some t) s.table;
    calls = s.calls + 1;
    answers = ok t ∷ s.answers;
  }
  ask a s (err e) = record s { calls = s.calls + 1; answers = err e ∷ s.answers }

  abbrev look : SocketAddr → Spec → Option T → Spec
  look a s (some t) = record s { answers = ok t ∷ s.answers }
  look a s none = ask a s (open_socket s.calls)

  abbrev pub spec_step : Op T → Spec → Spec
  spec_step (insert_op a t) s = record s { table = set a (some t) s.table }
  spec_step (find_or_insert_op a) s = look a s (s.table a)
  spec_step (remove_op a) s = record s { table = set a none s.table }
  spec_step clear_op s = record s { table = λ a. none }

  abbrev pub spec_run : List (Op T) → Spec → Spec
  spec_run [] s = s
  spec_run (o ∷ os) s = spec_run os (spec_step o s)

  pub record Refines (x : State T × List (Result T E)) (s : Spec) : Type 0 where
    pub finds : (a : SocketAddr) → find (x.0).sockets a ≡ s.table a
    pub asked : (x.0).calls ≡ s.calls
    pub answered : x.1 ≡ s.answers

  insert-set :
      (a : SocketAddr) (t : T) (m : Map SocketAddr T) (f : Table T)
      → ((b : SocketAddr) → find m b ≡ f b)
      → (b : SocketAddr) → find (insert a t m) b ≡ set a (some t) f b
  unfolding find insert
  insert-set a t m f h b =
      Map.get-insert a b t m ∙ ap (λ x. if addr_eq a b then some t else x) (h b)

  ask-Refines :
      (a : SocketAddr) (x : State T × List (Result T E)) (s : Spec) (r : Result T E)
      → Refines x s
      → Refines (add_answer open_socket x.1 (opened open_socket a x.0 r)) (ask a s r)
  ask-Refines a x s (ok t) h = record {
    finds = insert-set a t (x.0).sockets s.table h.finds;
    asked = ap (λ n. n + 1) h.asked;
    answered = ap (λ rs. ok t ∷ rs) h.answered;
  }
  ask-Refines a x s (err e) h = record {
    finds = h.finds;
    asked = ap (λ n. n + 1) h.asked;
    answered = ap (λ rs. err e ∷ rs) h.answered;
  }

  look-Refines :
      (a : SocketAddr) (x : State T × List (Result T E)) (s : Spec) (o : Option T)
      → Refines x s
      → Refines (add_answer open_socket x.1 (found open_socket a x.0 o)) (look a s o)
  look-Refines a x s (some t) h = record {
    finds = h.finds;
    asked = h.asked;
    answered = ap (λ rs. ok t ∷ rs) h.answered;
  }
  look-Refines a x s none h = go s.calls h.asked
    where
      go :
          (n : ℕ)
          → (x.0).calls ≡ n
          → Refines
              (add_answer open_socket x.1 (opened open_socket a x.0 (open_socket (x.0).calls)))
              (ask a s (open_socket n))
      go n e = rw (sym e) (ask-Refines a x s (open_socket (x.0).calls) h)

  step-Refines :
      (o : Op T) (x : State T × List (Result T E)) (s : Spec)
      → Refines x s
      → Refines (step open_socket o x) (spec_step o s)
  unfolding find_or_insert remove clear Map.get
  step-Refines (insert_op a t) x s h = record {
    finds = insert-set a t (x.0).sockets s.table h.finds;
    asked = h.asked;
    answered = h.answered;
  }
  step-Refines (find_or_insert_op a) x s h =
      rw (sym (h.finds a)) (look-Refines a x s (find (x.0).sockets a) h)
  step-Refines (remove_op a) x s h = record {
    finds = λ b.
        Map.get-remove a b (x.0).sockets ∙ ap (λ y. if addr_eq a b then none else y) (h.finds b);
    asked = h.asked;
    answered = h.answered;
  }
  step-Refines clear_op x s h = record { finds = λ b. refl; asked = h.asked; answered = h.answered }

  -- Any operations, on a map and a table with the same sockets, calls and answers: the map finds what
  -- the table has, a socket was asked for as often, and every caller was answered the same. A socket
  -- is asked for only at an address that has none, and an error inserts nothing.
  pub run-Refines :
      (os : List (Op T)) (x : State T × List (Result T E)) (s : Spec)
      → Refines x s
      → Refines (run open_socket os x) (spec_run os s)
  unfolding run
  run-Refines [] x s h = h
  run-Refines (o ∷ os) x s h =
      run-Refines os (step open_socket o x) (spec_step o s) (step-Refines o x s h)
