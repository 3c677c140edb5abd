-- ===== src/Conf/Legacy/Tests.antt =====
-- src/conf/legacy/mod.rs at two addresses and a range of ports.
use realm.Base.{String, List, [], ◌∷◌, map, ok, err, ◌≡◌, refl, arith}
use realm.Lb.Text.{Text, trim, trim_start, trim_end, split_once}
use realm.Conf.Decimal.{parse_u16, show, show_on}
use realm.Conf.Legacy.{
  LegacyConf, reversed_range, parse_port, ports_of, flatten_ports, join_addr_port, pairs_of,
  try_from, endpoint_of,
}
use realm.Conf.Legacy.Ports.{Written, port, range, text_of, meant_all, flatten_ports_written}
use realm.Conf.Legacy.Pairs.{IsPaired, pairs_of-IsPaired}

abbrev written : List Written
written = port 443 ∷ range 8080 8082 ∷ []

flatten_ports_written_example : flatten_ports (map text_of written) ≡ ok (meant_all written)
flatten_ports_written_example =
    flatten_ports_written written (omega arith, (omega arith, omega arith, tt))

-- "a", "1-3" and " 7 ".
abbrev host : Text
host = 97 ∷ []

abbrev one_to_three : Text
one_to_three = 49 ∷ 45 ∷ 51 ∷ []

abbrev seven : Text
seven = 32 ∷ 55 ∷ 32 ∷ []

abbrev conf : LegacyConf
conf = record {
  listen_addrs = host ∷ [];
  listen_ports = one_to_three ∷ [];
  remote_addrs = host ∷ (98 ∷ []) ∷ [];
  remote_ports = seven ∷ [];
}

pairs_of-IsPaired_example : IsPaired conf (pairs_of conf)
pairs_of-IsPaired_example = pairs_of-IsPaired conf

-- "a:1", "a:2", "a:3" to "a:7", "b:7", "a:7".
three_endpoints :
    pairs_of conf
    ≡ ok (
        (97 ∷ 58 ∷ 49 ∷ [], 97 ∷ 58 ∷ 55 ∷ [])
        ∷ (97 ∷ 58 ∷ 50 ∷ [], 98 ∷ 58 ∷ 55 ∷ [])
        ∷ (97 ∷ 58 ∷ 51 ∷ [], 97 ∷ 58 ∷ 55 ∷ [])
        ∷ [])
unfolding pairs_of flatten_ports ports_of parse_port join_addr_port trim trim_start trim_end
    split_once parse_u16 show show_on
three_endpoints = refl

backwards : flatten_ports ((51 ∷ 45 ∷ 49 ∷ []) ∷ []) ≡ err (reversed_range (51 ∷ 45 ∷ 49 ∷ []))
unfolding flatten_ports ports_of parse_port trim trim_start trim_end split_once parse_u16
backwards = refl

abbrev written_as : Text → String
written_as t = "a"

three_converted :
    try_from written_as conf
    ≡ ok (
        endpoint_of written_as (host, host)
        ∷ endpoint_of written_as (host, host)
        ∷ endpoint_of written_as (host, host)
        ∷ [])
unfolding try_from pairs_of flatten_ports ports_of parse_port join_addr_port trim trim_start
    trim_end split_once parse_u16 show show_on
three_converted = refl
