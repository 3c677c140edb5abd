-- ===== src/Lifecycle/Tests/Tables.antt =====
-- Calls of the manager.
use realm.Base.{◌≡◌, refl}
use realm.Base.Map
use realm.Endpoint.{tcp, v4, Socket, id_key}
use realm.Lifecycle.Manager.{Manager, new}
use realm.Lifecycle.Manager.Table.{entry, refresh}
use realm.Lifecycle.Manager.Replace.Account.{opened, closed}
use realm.Lifecycle.Manager.Apply
use realm.Lifecycle.Manager.Apply.Account.{IsAccounted}
use realm.Lifecycle.Manager.Apply.Ledger.{apply-IsAccounted}
use realm.Lifecycle.Manager.Apply.Invariant.{Coherent}
use realm.Lifecycle.Manager.Apply.Frame.{apply_other}
use realm.Lifecycle.Tests.{system, described}

abbrev pub place : Socket
place = (v4 0 1, tcp)

-- One rule was applied.
abbrev pub one_rule : Manager
one_rule = (Apply.apply system "a" 1 (described 1) new).0

pub new-IsAccounted : (t : Socket) → IsAccounted t new
unfolding opened closed
new-IsAccounted t = record { distinct = tt; balance = refl }

pub new-Coherent : Coherent new
unfolding Map.get
new-Coherent id = tt

one_rule-IsAccounted : IsAccounted place one_rule
one_rule-IsAccounted =
    apply-IsAccounted place system "a" 1 (described 1) new (new-IsAccounted place)

apply_other_example :
    entry (Apply.apply system "b" 2 (described 3) one_rule).0 "a" ≡ entry (refresh one_rule) "a"
apply_other_example = apply_other "b" "a" refl system 2 (described 3) one_rule
