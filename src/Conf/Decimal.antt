-- ===== src/Conf/Decimal.antt =====
-- Decimal numbers in texts, as the standard library prints and parses them; a text is the list of its
-- characters. src/conf/legacy/mod.rs and src/conf/endpoint.rs write and read ports so.
pub mod Back
use realm.Base.{
  ℕ, zero, suc, ◌+◌, ◌-◌, ◌*◌, ◌/◌, ◌%◌, ltb, leb, nat_eq, if◌then◌else◌, List, [], ◌∷◌, ◌++◌,
  Option, none, some,
}
use realm.Lb.Text.{Text, digits}

abbrev pub u16_mod : ℕ
u16_mod = 65536

abbrev pub below_u16 : Option ℕ → Option ℕ
below_u16 none = none
below_u16 (some n) = if ltb n u16_mod then some n else none

-- `parse::<u16>`: digits, one at least, after at most one plus sign.
unfoldable pub parse_u16 : Text → Option ℕ
parse_u16 [] = none
parse_u16 (c ∷ []) = below_u16 (digits 0 (c ∷ []))
parse_u16 (c ∷ d ∷ cs) =
    below_u16 (if nat_eq c 43 then digits 0 (d ∷ cs) else digits 0 (c ∷ d ∷ cs))

-- A number in decimal; it has fewer digits than the fuel, which is the number and one more.
unfoldable pub show_on : ℕ → ℕ → Text
show_on zero n = []
show_on (suc fuel) n =
    let rest = show_on fuel (n / 10) in
    if ltb n 10 then (48 + n) ∷ [] else rest ++ ((48 + n % 10) ∷ [])

unfoldable pub show : ℕ → Text
unfolding show_on
show n = show_on (suc n) n
