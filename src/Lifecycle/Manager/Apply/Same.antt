-- ===== src/Lifecycle/Manager/Apply/Same.antt =====
-- What the calls on one id leave to another: the planes that serve, and the absence of an entry.
use realm.Base.{ℕ, Option, none, some, ◌≡◌, refl, ap, ◌∙◌, false}
use realm.Endpoint.{Proto, EndpointId, id_key}
use realm.Lifecycle.Manager.{System, Slot, Manager, EndpointSpec, Active, Generation}
use realm.Lifecycle.Manager.Table.{entry, slot, refresh, get-refresh}
use realm.Lifecycle.Manager.Apply.{apply, remove, stop_accept, stop_accept_found, stop_serving}
use realm.Lifecycle.Manager.Apply.Everywhere.{Everywhere}
use realm.Lifecycle.Manager.Apply.Frame.{apply_other, entry-remove, update_slots_other}
use realm.Lifecycle.Manager.Apply.Runs.{IsLive, runs, runs_in, refresh-runs}

-- Every plane of the manager runs.
abbrev pub AllLive : Manager → Type 0
AllLive m = Everywhere IsLive m

pub record Same (j : EndpointId) (m n : Manager) : Type 0 where
  pub serves : (p : Proto) → runs n j p ≡ runs m j p
  pub gone : entry m j ≡ none → entry n j ≡ none

pub refl-Same : (j : EndpointId) (m : Manager) → Same j m m
refl-Same j m = record { serves = λ p. refl; gone = λ h. h }

pub trans-Same : (j : EndpointId) (l m n : Manager) → Same j l m → Same j m n → Same j l n
trans-Same j l m n a b = record {
  serves = λ p. b.serves p ∙ a.serves p;
  gone = λ h. b.gone (a.gone h);
}

Same-entry : (j : EndpointId) (m n : Manager) → entry n j ≡ entry m j → Same j m n
Same-entry j m n e = record { serves = λ p. ap (λ x. runs_in x p) e; gone = λ h. e ∙ h }

Same-refreshed :
    (j : EndpointId) (m n : Manager) → AllLive m → entry n j ≡ entry (refresh m) j → Same j m n
unfolding refresh
Same-refreshed j m n l e = record {
  serves = λ p. ap (λ x. runs_in x p) e ∙ refresh-runs m l j p;
  gone = λ h. e ∙ refreshed_none h;
}
  where
    refreshed_none : entry m j ≡ none → entry (refresh m) j ≡ none
    refreshed_none h = get-refresh m.entries j ∙ rw h refl

module _ (id j : EndpointId) (other : id_key.keq id j ≡ false) where
  pub apply-Same :
      (sys : System) (g : Generation) (spec : EndpointSpec) (m : Manager)
      → AllLive m
      → Same j m (apply sys id g spec m).0
  apply-Same sys g spec m l = Same-refreshed j m _ l (apply_other id j other sys g spec m)

  pub remove-Same : (m : Manager) → AllLive m → Same j m (remove id m).0
  remove-Same m l = Same-refreshed j m _ l (entry-remove id j m ∙ rw other refl)

  pub stop_accept-Same :
      (p : Proto) (d : Option ℕ) (m : Manager) → Same j m (stop_accept id p d m).0
  unfolding stop_accept
  stop_accept-Same p d m = go (slot m id p)
    where
      serving : (s : Slot) (a : Option Active) → Same j m (stop_serving id p d m s a).0
      serving s none = refl-Same j m
      serving s (some a) = Same-entry j m _ (update_slots_other id j other _ _)

      go : (x : Option Slot) → Same j m (stop_accept_found id p d m x).0
      go none = refl-Same j m
      go (some s) = serving s s.active
