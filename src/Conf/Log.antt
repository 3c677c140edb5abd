-- ===== src/Conf/Log.antt =====
-- src/conf/log.rs: the data and its merge. Opening the output is input and output.
use realm.Base.{String, Bool, ◌&&◌, ◌≡◌, Option}
use realm.Conf.{rst, take, absent, rst-take, take_assoc, take_idem}

pub data LogLevel : Type 0 where
  off error warn info debug trace : LogLevel

pub record LogConf : Type 0 where
  pub level : Option LogLevel
  pub output : Option String

abbrev pub rst_field : LogConf → LogConf → LogConf
rst_field this other = record {
  level = rst this.level other.level;
  output = rst this.output other.output;
}

abbrev pub take_field : LogConf → LogConf → LogConf
take_field this other = record {
  level = take this.level other.level;
  output = take this.output other.output;
}

unfoldable pub is_empty : LogConf → Bool
is_empty this = absent this.level && absent this.output

pub rst_field-take_field : (a b : LogConf) → rst_field a b ≡ take_field b a
rst_field-take_field a b =
    λ i. record { level = rst-take a.level b.level i; output = rst-take a.output b.output i }

pub take_field_assoc :
    (a b c : LogConf) → take_field (take_field a b) c ≡ take_field a (take_field b c)
take_field_assoc a b c = λ i. record {
  level = take_assoc a.level b.level c.level i;
  output = take_assoc a.output b.output c.output i;
}

pub take_field_idem : (a b : LogConf) → take_field (take_field a b) b ≡ take_field a b
take_field_idem a b =
    λ i. record { level = take_idem a.level b.level i; output = take_idem a.output b.output i }
