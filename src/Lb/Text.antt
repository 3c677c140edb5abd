-- ===== src/Lb/Text.antt =====
-- realm_lb/src/balancer.rs: a balancer written as text, `strategy: weight, ...`. A text is the list of
-- its characters, by their numbers.
use realm.Base.{
  ℕ, ◌+◌, ◌-◌, ◌*◌, ltb, leb, nat_eq, if◌then◌else◌, List, [], ◌∷◌, Option, none, some, Bool, true,
  false, ◌&&◌, ◌||◌,
}
use realm.Lb.{Balancer, Strategy, RoundRobin}
use realm.Lb.Rotation
use realm.Lb.Ring
use realm.Lb.Ring.{Lib, Built}

abbrev pub Text : Type 0
Text = List ℕ

abbrev pub comma : ℕ
comma = 44

abbrev pub colon : ℕ
colon = 58

abbrev pub between : ℕ → ℕ → ℕ → Bool
between a b c = leb a c && leb c b

-- `char::is_whitespace`.
abbrev pub is_whitespace : ℕ → Bool
is_whitespace c =
    between 9 13 c
    || nat_eq c 32
    || nat_eq c 133
    || nat_eq c 160
    || nat_eq c 5760
    || between 8192 8202 c
    || between 8232 8233 c
    || nat_eq c 8239
    || nat_eq c 8287
    || nat_eq c 12288

unfoldable pub trim_start : Text → Text
trim_start [] = []
trim_start (c ∷ cs) = let rest = trim_start cs in if is_whitespace c then rest else c ∷ cs

abbrev pub keep : ℕ → Text → Text
keep c [] = if is_whitespace c then [] else c ∷ []
keep c (d ∷ ds) = c ∷ d ∷ ds

unfoldable pub trim_end : Text → Text
trim_end [] = []
trim_end (c ∷ cs) = keep c (trim_end cs)

unfoldable pub trim : Text → Text
unfolding trim_start trim_end
trim s = trim_end (trim_start s)

abbrev pub push_front : ℕ → List Text → List Text
push_front c [] = (c ∷ []) ∷ []
push_front c (p ∷ ps) = (c ∷ p) ∷ ps

-- `split`: one piece more than there are separators.
unfoldable pub split : ℕ → Text → List Text
split d [] = [] ∷ []
split d (c ∷ cs) = let rest = split d cs in if nat_eq c d then [] ∷ rest else push_front c rest

abbrev pub first_part : ℕ → Option (Text × Text) → Option (Text × Text)
first_part c none = none
first_part c (some (a, b)) = some (c ∷ a, b)

unfoldable pub split_once : ℕ → Text → Option (Text × Text)
split_once d [] = none
split_once d (c ∷ cs) =
    let rest = split_once d cs in if nat_eq c d then some ([], cs) else first_part c rest

abbrev pub digits : ℕ → Text → Option ℕ
digits n [] = some n
digits n (c ∷ cs) = if between 48 57 c then digits (n * 10 + (c - 48)) cs else none

abbrev pub below_256 : Option ℕ → Option ℕ
below_256 none = none
below_256 (some n) = if ltb n 256 then some n else none

-- `parse::<u8>`: digits, one at least, after at most one plus sign.
unfoldable pub parse_u8 : Text → Option ℕ
parse_u8 [] = none
parse_u8 (c ∷ []) = below_256 (digits 0 (c ∷ []))
parse_u8 (c ∷ d ∷ cs) = below_256 (if nat_eq c 43 then digits 0 (d ∷ cs) else digits 0 (c ∷ d ∷ cs))

abbrev pub text_eq : Text → Text → Bool
text_eq [] [] = true
text_eq [] (d ∷ ds) = false
text_eq (c ∷ cs) [] = false
text_eq (c ∷ cs) (d ∷ ds) = nat_eq c d && text_eq cs ds

abbrev pub off_text : Text
off_text = 111 ∷ 102 ∷ 102 ∷ []

abbrev pub iphash_text : Text
iphash_text = 105 ∷ 112 ∷ 104 ∷ 97 ∷ 115 ∷ 104 ∷ []

abbrev pub roundrobin_text : Text
roundrobin_text = 114 ∷ 111 ∷ 117 ∷ 110 ∷ 100 ∷ 114 ∷ 111 ∷ 98 ∷ 105 ∷ 110 ∷ []

-- `Strategy::from`; `none` is its panic.
unfoldable pub strategy_from : Text → Option Strategy
strategy_from s =
    if text_eq s off_text
    then some Strategy.off
    else if text_eq s iphash_text
    then some Strategy.iphash
    else if text_eq s roundrobin_text
    then some Strategy.roundrobin
    else none

-- `filter_map(|s| s.trim().parse().ok())`
unfoldable pub parsed_weights : List Text → List ℕ
parsed_weights [] = []
parsed_weights (p ∷ ps) =
    let rest = parsed_weights ps in elim (parse_u8 (trim p)) [ none ↦ rest | some w ↦ w ∷ rest ]

pub data Made : Type 0 where
  panics undefined : Made
  made : Balancer → Made

abbrev pub made_rotation : Option RoundRobin → Made
made_rotation none = Made.panics
made_rotation (some r) = made (Balancer.roundrobin r)

abbrev pub made_ring : Built → Made
made_ring Built.panics = Made.panics
made_ring Built.undefined = Made.undefined
made_ring (Built.built b) = made (Balancer.iphash b)

module _ (over : ℕ → Option ℕ) (lib : Lib) where
  unfoldable pub new : Strategy → List ℕ → Made
  new Strategy.off ws = made Balancer.off
  new Strategy.iphash ws = made_ring (Ring.new over lib ws)
  new Strategy.roundrobin ws = made_rotation (Rotation.new ws)

  abbrev pub new_from : Option Strategy → List ℕ → Made
  new_from none ws = Made.panics
  new_from (some s) ws = new s ws

  abbrev pub parse_parts : Option (Text × Text) → Made
  parse_parts none = Made.panics
  parse_parts (some (s, ws)) =
      new_from (strategy_from (trim s)) (parsed_weights (split comma (trim ws)))

  unfoldable pub parse_from_str : Text → Made
  unfolding new strategy_from parsed_weights split split_once trim
  parse_from_str s = parse_parts (split_once colon s)
