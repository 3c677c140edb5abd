-- ===== src/Conf/Legacy/Ports.antt =====
-- src/conf/legacy/mod.rs: the ports that a list of ranges stands for.
use realm.Base.{
  ℕ, ◌+◌, ◌-◌, ◌≤◌, ◌<◌, ltb, List, [], ◌∷◌, ◌++◌, map, ok, false, ◌≡◌, refl, ap, ◌∙◌, arith,
}
use realm.Lb.Text.{Text}
use realm.Conf.Decimal.{u16_mod, parse_u16, show}
use realm.Conf.Decimal.Back.{
  parse_u16-show, show-digits, trim-digits, split_once-digits, split_once-none,
}
use realm.Conf.Legacy.{hyphen, or_not_a_port, parse_port, range_from, ports_of, flatten_ports}

-- A port, or a range of them, as a user writes it.
pub data Written : Type 0 where
  port : ℕ → Written
  range : ℕ → ℕ → Written

abbrev pub text_of : Written → Text
text_of (port p) = show p
text_of (range a b) = show a ++ (hyphen ∷ show b)

abbrev pub meant : Written → List ℕ
meant (port p) = p ∷ []
meant (range a b) = range_from a (b + 1 - a)

abbrev pub AllProper : List Written → Type 0
AllProper [] = Unit {0}
AllProper (port p ∷ ws) = (p < u16_mod) × AllProper ws
AllProper (range a b ∷ ws) = (a ≤ b) × (b < u16_mod) × AllProper ws

abbrev pub meant_all : List Written → List ℕ
meant_all [] = []
meant_all (w ∷ ws) = meant w ++ meant_all ws

parse_port-show : (p : ℕ) → p < u16_mod → parse_port (show p) ≡ ok p
unfolding parse_port
parse_port-show p h =
    ap (or_not_a_port (show p))
      (ap parse_u16 (trim-digits (show p) (show-digits p)) ∙ parse_u16-show p h)

port-ports_of : (p : ℕ) → p < u16_mod → ports_of (show p) ≡ ok (p ∷ [])
unfolding ports_of
port-ports_of p h =
    let whole = split_once-none hyphen (show p) refl (show-digits p) in
    let start = parse_port-show p h in
    let proper : ltb p p ≡ false = ground arith in
    let one : p + 1 - p ≡ 1 = omega arith in rw (whole, start, proper, one) refl

range-ports_of :
    (a b : ℕ)
    → a ≤ b
    → b < u16_mod
    → ports_of (show a ++ (hyphen ∷ show b)) ≡ ok (range_from a (b + 1 - a))
unfolding ports_of
range-ports_of a b h k =
    let parts = split_once-digits hyphen (show a) (show b) refl (show-digits a) in
    let start = parse_port-show a (omega (arith, h, k)) in
    let end = parse_port-show b k in
    let proper : ltb b a ≡ false = ground (arith, h) in rw (parts, start, end, proper) refl

-- Ports and ranges, none of which ends before it starts or is above 65535, written in decimal and with a
-- hyphen between the ends of a range, stand for exactly their ports, in their order.
pub flatten_ports_written :
    (ws : List Written) → AllProper ws → flatten_ports (map text_of ws) ≡ ok (meant_all ws)
unfolding flatten_ports
flatten_ports_written [] h = refl
flatten_ports_written (port p ∷ ws) (h, k) = rw (port-ports_of p h, flatten_ports_written ws k) refl
flatten_ports_written (range a b ∷ ws) (h, k, l) =
    rw (range-ports_of a b h k, flatten_ports_written ws l) refl
