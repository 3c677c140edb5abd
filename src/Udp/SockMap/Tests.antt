-- ===== src/Udp/SockMap/Tests.antt =====
-- Sockets for two addresses; the second socket that is asked for fails.
use realm.Base.{
  ℕ, ◌+◌, String, List, [], ◌∷◌, none, Result, ok, err, nat_eq, if◌then◌else◌, ◌≡◌, refl,
}
use realm.Base.Map
use realm.Endpoint.{SocketAddr, v4}
use realm.Udp.SockMap.{
  new, find, State, Op, find_or_insert_op, remove_op, run, find_or_insert, insert, remove, clear,
}
use realm.Udp.SockMap.Table.{Spec, spec_run, Refines, run-Refines}

abbrev open_socket : ℕ → Result ℕ String
open_socket n = if nat_eq n 1 then err "no descriptor left" else ok (100 + n)

abbrev one : SocketAddr
one = v4 1 53

abbrev two : SocketAddr
two = v4 2 53

abbrev ops : List (Op ℕ)
ops =
    find_or_insert_op one
    ∷ find_or_insert_op two
    ∷ find_or_insert_op one
    ∷ remove_op one
    ∷ find_or_insert_op one
    ∷ []

abbrev empty : State ℕ × List (Result ℕ String)
empty = (record { sockets = new; calls = 0 }, [])

abbrev no_table : Spec open_socket
no_table = record { table = λ a. none; calls = 0; answers = [] }

empty-Refines : Refines open_socket empty no_table
unfolding find Map.get
empty-Refines = record { finds = λ a. refl; asked = refl; answered = refl }

run-Refines_example :
    Refines open_socket (run open_socket ops empty) (spec_run open_socket ops no_table)
run-Refines_example = run-Refines open_socket ops empty no_table empty-Refines

answers : (run open_socket ops empty).1 ≡ ok 102 ∷ ok 100 ∷ err "no descriptor left" ∷ ok 100 ∷ []
unfolding run find_or_insert find insert remove clear Map.get Map.insert Map.remove Map.contains
answers = refl
