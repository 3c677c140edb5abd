-- ===== src/Conf.antt =====
-- src/conf/mod.rs: how two configurations are merged, field by field.
pub mod Net
pub mod Log
pub mod Dns
pub mod Full
pub mod Precedence
pub mod Balance
pub mod Decimal
pub mod Legacy
pub mod Build
pub mod Tests
use realm.Base.{
  String, Bool, true, false, ◌&&◌, not, ◌≡◌, refl, Option, none, some, is_some, if◌then◌else◌,
}

-- The macros `rst`, `take` and `empty`, on one field.
abbrev pub rst {ℓ} : {A : Type ℓ} → Option A → Option A → Option A
rst this other = if is_some other then other else this

abbrev pub take {ℓ} : {A : Type ℓ} → Option A → Option A → Option A
take this other = if not (is_some this) && is_some other then other else this

abbrev pub absent {ℓ} : {A : Type ℓ} → Option A → Bool
absent x = not (is_some x)

-- The arguments of the command line, as clap matched them, and std's `parse`.
pub record ArgMatches : Type 0 where
  pub get_flag : String → Bool
  pub get_one : String → Option String

module _ {ℓ} {A : Type ℓ} where
  pub rst-take : (x y : Option A) → rst x y ≡ take y x
  rst-take none none = refl
  rst-take none (some b) = refl
  rst-take (some a) none = refl
  rst-take (some a) (some b) = refl

  pub take_assoc : (x y z : Option A) → take (take x y) z ≡ take x (take y z)
  take_assoc none none none = refl
  take_assoc none none (some c) = refl
  take_assoc none (some b) none = refl
  take_assoc none (some b) (some c) = refl
  take_assoc (some a) none none = refl
  take_assoc (some a) none (some c) = refl
  take_assoc (some a) (some b) none = refl
  take_assoc (some a) (some b) (some c) = refl

  pub take_idem : (x y : Option A) → take (take x y) y ≡ take x y
  take_idem none none = refl
  take_idem none (some b) = refl
  take_idem (some a) none = refl
  take_idem (some a) (some b) = refl

  pub none-take : (x : Option A) → take none x ≡ x
  none-take none = refl
  none-take (some a) = refl

  pub take-absent : (x y : Option A) → absent y ≡ true → take x y ≡ x
  take-absent none none h = refl
  take-absent none (some b) h = cc
  take-absent (some a) y h = refl

  pub rst-absent : (x y : Option A) → absent y ≡ true → rst x y ≡ x
  rst-absent x none h = refl
  rst-absent x (some b) h = cc
