-- ===== src/Udp/SockMap.antt =====
-- realm_core/src/udp/sockmap.rs. The lock is held within one operation; `find_or_insert` takes it
-- twice, so its two halves are one step only where nothing else writes in between.
pub mod Table
mod Tests
use realm.Base.{ℕ, ◌+◌, List, [], ◌∷◌, Option, none, some, Result, ok, err, Bool, false}
use realm.Base.Map
use realm.Base.Map.{Map, Key}
use realm.Endpoint.{SocketAddr, addr_eq, addr_eq_iff, addr_lt}

-- A hash map has no order; the one of the list is not observed.
instance abbrev pub addr_key : Key SocketAddr
addr_key = record { keq = addr_eq; klt = addr_lt; keq_iff = addr_eq_iff }

module _ {T : Type 0} where
  abbrev pub new : Map SocketAddr T
  new = []

  unfoldable pub find : Map SocketAddr T → SocketAddr → Option T
  find m a = Map.get m a

  unfoldable pub insert : SocketAddr → T → Map SocketAddr T → Map SocketAddr T
  insert a t m = Map.insert a t m

  unfoldable pub remove : SocketAddr → Map SocketAddr T → Map SocketAddr T
  remove a m = Map.remove a m

  unfoldable pub clear : Map SocketAddr T → Map SocketAddr T
  clear m = []

-- The map with the number of sockets that were asked for.
pub record State (T : Type 0) : Type 0 where
  pub sockets : Map SocketAddr T
  pub calls : ℕ

module _ {T E : Type 0} (open_socket : ℕ → Result T E) where
  -- `let socket = f()?; self.insert(...)`: the n-th socket that is asked for, or its error.
  abbrev pub opened : SocketAddr → State T → Result T E → State T × Result T E
  opened a s (err e) = (record s { calls = s.calls + 1 }, err e)
  opened a s (ok t) = (record { sockets = insert a t s.sockets; calls = s.calls + 1 }, ok t)

  abbrev pub found : SocketAddr → State T → Option T → State T × Result T E
  found a s (some t) = (s, ok t)
  found a s none = opened a s (open_socket s.calls)

  unfoldable pub find_or_insert : SocketAddr → State T → State T × Result T E
  unfolding find insert
  find_or_insert a s = found a s (find s.sockets a)

-- The operations as values.
pub data Op (T : Type 0) : Type 0 where
  insert_op : SocketAddr → T → Op T
  find_or_insert_op remove_op : SocketAddr → Op T
  clear_op : Op T

module _ {T E : Type 0} (open_socket : ℕ → Result T E) where
  abbrev pub add_answer : List (Result T E) → State T × Result T E → State T × List (Result T E)
  add_answer rs (s, r) = (s, r ∷ rs)

  abbrev pub step : Op T → State T × List (Result T E) → State T × List (Result T E)
  step (insert_op a t) (s, rs) = (record s { sockets = insert a t s.sockets }, rs)
  step (find_or_insert_op a) (s, rs) = add_answer rs (find_or_insert open_socket a s)
  step (remove_op a) (s, rs) = (record s { sockets = remove a s.sockets }, rs)
  step clear_op (s, rs) = (record s { sockets = clear s.sockets }, rs)

  -- The answers of `find_or_insert`, latest first.
  unfoldable pub run : List (Op T) → State T × List (Result T E) → State T × List (Result T E)
  unfolding find_or_insert remove clear
  run [] x = x
  run (o ∷ os) x = run os (step o x)
