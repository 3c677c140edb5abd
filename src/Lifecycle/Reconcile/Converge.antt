-- ===== src/Lifecycle/Reconcile/Converge.antt =====
-- `apply_generation`: what the plans of a generation achieve where no result is a failure.
pub mod Carried
pub mod Released
pub mod Plans
pub mod Drafts
pub mod Outcome
pub mod Submitted
use realm.Base.{
  ℕ, ◌+◌, String, List, [], ◌∷◌, ◌++◌, ◌||◌, ◌&&◌, not, Option, none, some, Bool, true, false,
  Bool-cases, inl, inr, ◌≡◌, refl, ap, sym, ◌∙◌, Result, ok, err, if◌then◌else◌, any, map, arith,
}
use realm.Base.Map
use realm.Base.Map.{Map}
use realm.Base.Map.Distinct.{Distinct}
use realm.Endpoint.{Proto, EndpointId, id_key, proto_eq}
use realm.Lifecycle.Manager.{
  System, Manager, EndpointSpec, Generation, SlotOutcome, is_failed, protos,
}
use realm.Lifecycle.Manager.Table.{entry, contains}
use realm.Lifecycle.Manager.Apply
use realm.Lifecycle.Manager.Apply.Frame.{entry-remove}
use realm.Lifecycle.Manager.Apply.Everywhere.{
  apply-Everywhere, remove-Everywhere, stop_accept-Everywhere,
}
use realm.Lifecycle.Manager.Apply.Runs.{runs, IsLive-Local, IsLive}
use realm.Lifecycle.Manager.Apply.Serves.{apply-runs}
use realm.Lifecycle.Manager.Apply.Same.{
  AllLive, Same, refl-Same, trans-Same, apply-Same, remove-Same,
}
use realm.Lifecycle.Reconcile.{Source, Plan, EndpointResult}
use realm.Lifecycle.Reconcile.Planning.{protos_of, serving}
use realm.Lifecycle.Reconcile.Apply.{
  Run, into_results, unchanged_result, invalid_result, or_tcp, annotate, outcome_failed,
  restore_applied, restore_built, restore_released, keep_desired, after_failure, run_built,
  run_plan, run_plans,
}
use realm.Lifecycle.Reconcile.Submit.Listeners.{Kept, run_plan-kept}

abbrev pub any_bad : List EndpointResult → Bool
any_bad rs = any (λ r. is_failed r.action) rs

any_bad-append : (xs ys : List EndpointResult) → any_bad (xs ++ ys) ≡ (any_bad xs || any_bad ys)
any_bad-append [] ys = refl
any_bad-append (x ∷ xs) ys = ground (arith, any_bad-append xs ys)

any_bad-into_results :
    (id : EndpointId) (os : List SlotOutcome) → any_bad (into_results id os) ≡ outcome_failed os
unfolding into_results
any_bad-into_results id [] = refl
any_bad-into_results id (o ∷ os) = ap (λ b. is_failed o.action || b) (any_bad-into_results id os)

any_bad-annotate :
    (id : EndpointId) (ps : List Proto) (rs : List EndpointResult)
    → any_bad (annotate id ps rs) ≡ any_bad rs
unfolding annotate
any_bad-annotate id ps [] = refl
any_bad-annotate id ps (r ∷ rs) = ground (arith, any_bad-annotate id ps rs)

any_bad-invalid :
    (id : EndpointId) (e : String) (ps : List Proto)
    → any_bad (map (invalid_result id e) (or_tcp ps)) ≡ true
any_bad-invalid id e [] = refl
any_bad-invalid id e (p ∷ ps) = refl

-- Every protocol of the description is served under the id.
abbrev pub Wholly : Manager → EndpointId → EndpointSpec → Type 0
Wholly m id b = (p : Proto) → any (proto_eq p) (protos b) ≡ true → runs m id p ≡ true

-- What a plan is to leave under its id, seen from the manager that it starts from.
abbrev pub Achieves : Manager → Manager → EndpointId → Plan → Type 0
Achieves before after id Plan.unchanged = (p : Proto) → runs after id p ≡ runs before id p
Achieves before after id (Plan.start b) = Wholly after id b
Achieves before after id (Plan.replace b) = Wholly after id b
Achieves before after id Plan.delete = entry after id ≡ none
Achieves before after id (Plan.invalid e) = ⊥

Achieves-later :
    (l m n : Manager) (id : EndpointId) (plan : Plan)
    → Same id m n
    → Achieves l m id plan
    → Achieves l n id plan
Achieves-later l m n id Plan.unchanged s h = λ p. s.serves p ∙ h p
Achieves-later l m n id (Plan.start b) s h = λ p w. s.serves p ∙ h p w
Achieves-later l m n id (Plan.replace b) s h = λ p w. s.serves p ∙ h p w
Achieves-later l m n id Plan.delete s h = s.gone h
Achieves-later l m n id (Plan.invalid e) s h = h

Achieves-from :
    (l m n : Manager) (id : EndpointId) (plan : Plan)
    → Same id l m
    → Achieves m n id plan
    → Achieves l n id plan
Achieves-from l m n id Plan.unchanged s h = λ p. h p ∙ s.serves p
Achieves-from l m n id (Plan.start b) s h = h
Achieves-from l m n id (Plan.replace b) s h = h
Achieves-from l m n id Plan.delete s h = h
Achieves-from l m n id (Plan.invalid e) s h = h

pub live_Kept : (sys : System) → Kept sys AllLive
live_Kept sys = record {
  applies = λ id g spec m h. apply-Everywhere IsLive IsLive-Local sys id g spec m h;
  removes = λ id m h. remove-Everywhere IsLive IsLive-Local id m h;
  stops = λ id p d m h. stop_accept-Everywhere IsLive IsLive-Local id p d m h;
}
