-- ===== src/Conf/Balance.antt =====
-- src/conf/endpoint.rs: the balancer of an endpoint, `build_balancer`.
pub mod Weights
pub mod Sound
pub mod Tests
use realm.Base.{
  ℕ, suc, ◌+◌, nat_eq, if◌then◌else◌, List, [], ◌∷◌, Option, none, some, Bool, true, false, ◌&&◌,
  ◌||◌, not, length,
}
use realm.Lb.{Balancer, total}
use realm.Lb.Ring.{Lib}
use realm.Lb.Text.{
  Text, comma, colon, trim, split, split_once, text_eq, off_text, iphash_text, roundrobin_text,
  Made, made, parse_from_str,
}

-- Why a text is refused.
pub data Reason : Type 0 where
  no_separator : Reason
  unknown_strategy : Text → Reason
  invalid_weight : Reason
  wrong_count : ℕ → ℕ → Reason

pub data Outcome : Type 0 where
  accepted : Balancer → Outcome
  refused : Reason → Outcome
  panics undefined : Outcome

abbrev pub is_strategy : Text → Bool
is_strategy s = text_eq s off_text || text_eq s iphash_text || text_eq s roundrobin_text

abbrev pub is_blank : Text → Bool
is_blank [] = true
is_blank (c ∷ cs) = false

-- The pieces that are not blank.
unfoldable pub count_given : List Text → ℕ
count_given [] = 0
count_given (p ∷ ps) = let rest = count_given ps in if is_blank (trim p) then rest else suc rest

unfoldable pub given_of : Text → ℕ
unfolding count_given
given_of s = if is_blank s then 0 else count_given (split comma s)

-- The balancer against the weights that were given, and those against the peers.
abbrev pub against_peers : ℕ → ℕ → Balancer → Outcome
against_peers extra given b =
    if not (nat_eq given (total b))
    then refused invalid_weight
    else if not (nat_eq given 0) && not (nat_eq given (extra + 1))
    then refused (wrong_count (extra + 1) given)
    else accepted b

abbrev pub checked : ℕ → ℕ → Made → Outcome
checked extra given Made.panics = Outcome.panics
checked extra given Made.undefined = Outcome.undefined
checked extra given (made b) = against_peers extra given b

module _ (over : ℕ → Option ℕ) (lib : Lib) where
  abbrev pub build_parts : ℕ → Text → Option (Text × Text) → Outcome
  build_parts extra s none = refused no_separator
  build_parts extra s (some (strategy, weights)) =
      if is_strategy (trim strategy)
      then checked extra (given_of (trim weights)) (parse_from_str over lib s)
      else refused (unknown_strategy (trim strategy))

  -- By the text, if there is one, and the number of further remotes.
  unfoldable pub build_balancer : Option Text → ℕ → Outcome
  unfolding given_of split split_once trim parse_from_str total
  build_balancer none extra = accepted Balancer.off
  build_balancer (some s) extra = build_parts extra s (split_once colon s)
