-- ===== src/Lifecycle/Reconcile/Reach/Shutdown.antt =====
-- `shutdown` of realm_core/src/lifecycle/reconcile.rs, in the states that are reached.
use realm.Base.{
  List, [], ◌∷◌, ◌≡◌, refl, sym, ◌∙◌, none, some, false, arith, any, Bool-cases, inl, inr,
}
use realm.Base.Map
use realm.Base.Map.{Map}
use realm.Base.Map.Distinct.{total}
use realm.Endpoint.{EndpointId, Socket, id_key}
use realm.Lifecycle.Manager.{System, Manager, Entry}
use realm.Lifecycle.Manager.Table.{entry, refresh, get-refresh, ids}
use realm.Lifecycle.Manager.Replace.Account.{opened, closed}
use realm.Lifecycle.Manager.Apply
use realm.Lifecycle.Manager.Apply.Account.{planes}
use realm.Lifecycle.Manager.Apply.Frame.{entry-remove}
use realm.Lifecycle.Reconcile.{Source, Reconciler}
use realm.Lifecycle.Reconcile.Restore.{remove_each, shutdown}
use realm.Lifecycle.Reconcile.Reach.{Reachable, stopped}
use realm.Lifecycle.Reconcile.Reach.Lasts.{Reachable-IsAccounted}

-- Every id that is held is among those.
abbrev Covers : List EndpointId → Manager → Type 0
Covers is m = (j : EndpointId) → any (λ i. id_key.keq i j) is ≡ false → entry m j ≡ none

refresh_none : (m : Manager) (j : EndpointId) → entry m j ≡ none → entry (refresh m) j ≡ none
unfolding refresh
refresh_none m j h = get-refresh m.entries j ∙ rw h refl

remove-Covers :
    (id : EndpointId) (is : List EndpointId) (m : Manager)
    → Covers (id ∷ is) m
    → Covers is (Apply.remove id m).0
remove-Covers id is m h j e = elim (Bool-cases (id_key.keq id j)) [
  | inl same ↦ entry-remove id j m ∙ rw same refl
  | inr other ↦ entry-remove id j m ∙ rw other (refresh_none m j (h j (rw other e)))
]

remove_each-Covers :
    (is : List EndpointId) (m : Manager) → Covers is m → Covers [] (remove_each is m)
remove_each-Covers [] m h = h
remove_each-Covers (id ∷ is) m h = remove_each-Covers is _ (remove-Covers id is m h)

keys-get :
    (m : Map EndpointId Entry) (j : EndpointId)
    → any (λ i. id_key.keq i j) (Map.keys m) ≡ false
    → Map.get m j ≡ none
unfolding Map.get
keys-get [] j h = refl
keys-get ((k, v) ∷ m) j h = ground (arith, keys-get m j)

nothing_held :
    (t : Socket) (m : Map EndpointId Entry)
    → ((j : EndpointId) → Map.get m j ≡ none)
    → total (planes t) m ≡ 0
unfolding Map.get
nothing_held t [] h = refl
nothing_held t ((k, v) ∷ m) h =
    let found : Map.get ((k, v) ∷ m) k ≡ some v = rw (Map.keq_refl k) refl in
    absurd (go (sym found ∙ h k))
  where
    go : some v ≡ none → ⊥
    go e = cc

-- After the shutdown of a reconciler in any state that it reaches, nothing is held under any id,
-- and at every socket as many serving tasks were joined or found ended as listeners were bound: none
-- is left that accepts. (The socket of a udp listener may be held by associations that drain.)
pub shutdown_joins :
    {S : Type 0} (src : Source S) (sys : System) (r : Reconciler S) (t : Socket)
    → Reachable src sys r
    → ((j : EndpointId) → entry (shutdown r).manager j ≡ none)
      × (closed t (shutdown r).manager.os.log ≡ opened t (shutdown r).manager.os.log)
unfolding shutdown ids
shutdown_joins src sys r t h =
    let empty : (j : EndpointId) → entry (shutdown r).manager j ≡ none = λ j.
      remove_each-Covers (ids r.manager) r.manager (λ i e. keys-get r.manager.entries i e) j refl in
    let v = Reachable-IsAccounted t src sys (shutdown r) (stopped h) in
    (empty, omega (arith, v.balance, nothing_held t (shutdown r).manager.entries empty))
