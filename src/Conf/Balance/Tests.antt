-- ===== src/Conf/Balance/Tests.antt =====
-- "roundrobin: 1, 2", and texts that are refused.
use realm.Base.{[], ◌∷◌, ◌≡◌, refl, some}
use realm.Lb.{total}
use realm.Lb.Rotation.{new}
use realm.Lb.Text
use realm.Lb.Text.{
  Text, comma, colon, trim, split, split_once, trim_start, trim_end, strategy_from, parse_u8,
  parsed_weights, roundrobin_text, parse_from_str,
}
use realm.Lb.Ring.Overflow.{unchecked}
use realm.Lb.Ring.Tests.{lib}
use realm.Conf.Balance.{refused, wrong_count, count_given, given_of, build_balancer}
use realm.Conf.Balance.Weights.{Justified, build_balancer-Justified}

abbrev pub weights : Text
weights = 32 ∷ 49 ∷ 44 ∷ 32 ∷ 50 ∷ []

abbrev pub written : Text
written = 114 ∷ 111 ∷ 117 ∷ 110 ∷ 100 ∷ 114 ∷ 111 ∷ 98 ∷ 105 ∷ 110 ∷ 58 ∷ weights

two_parts : split_once colon written ≡ some (roundrobin_text, weights)
unfolding split_once
two_parts = refl

build_balancer-Justified_example :
    Justified unchecked lib 1
      (split comma (trim weights))
      (build_balancer unchecked lib (some written) 1)
build_balancer-Justified_example =
    build_balancer-Justified unchecked lib written 1 roundrobin_text weights two_parts

-- With two further remotes a weight is missing.
one_missing : build_balancer unchecked lib (some written) 2 ≡ refused (wrong_count 3 2)
unfolding build_balancer given_of count_given split split_once trim trim_start trim_end
    parse_from_str total Text.new strategy_from parse_u8 parsed_weights new
one_missing = refl
