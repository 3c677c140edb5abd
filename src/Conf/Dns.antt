-- ===== src/Conf/Dns.antt =====
-- src/conf/dns.rs: the data and its merge. The resolver that it builds is another crate's.
use realm.Base.{ℕ, List, String, Bool, true, ◌&&◌, ◌≡◌, refl, Option, none}
use realm.Conf.{rst, take, absent, rst-take, take_assoc, take_idem, none-take}

pub data DnsMode : Type 0 where
  ipv4_only ipv6_only ipv4_and_ipv6 ipv4_then_ipv6 ipv6_then_ipv4 : DnsMode

pub data DnsProtocol : Type 0 where
  tcp udp tcp_and_udp : DnsProtocol

pub record DnsConf : Type 0 where
  pub mode : Option DnsMode
  pub min_ttl : Option ℕ
  pub max_ttl : Option ℕ
  pub cache_size : Option ℕ
  pub protocol : Option DnsProtocol
  pub nameservers : Option (List String)

abbrev pub rst_field : DnsConf → DnsConf → DnsConf
rst_field this other = record {
  mode = rst this.mode other.mode;
  min_ttl = rst this.min_ttl other.min_ttl;
  max_ttl = rst this.max_ttl other.max_ttl;
  cache_size = rst this.cache_size other.cache_size;
  protocol = rst this.protocol other.protocol;
  nameservers = rst this.nameservers other.nameservers;
}

abbrev pub take_field : DnsConf → DnsConf → DnsConf
take_field this other = record {
  mode = take this.mode other.mode;
  min_ttl = take this.min_ttl other.min_ttl;
  max_ttl = take this.max_ttl other.max_ttl;
  cache_size = take this.cache_size other.cache_size;
  protocol = take this.protocol other.protocol;
  nameservers = take this.nameservers other.nameservers;
}

unfoldable pub is_empty : DnsConf → Bool
is_empty this =
    absent this.mode && absent this.min_ttl && absent this.max_ttl && absent this.cache_size

abbrev pub empty : DnsConf
empty = record {
  mode = none;
  min_ttl = none;
  max_ttl = none;
  cache_size = none;
  protocol = none;
  nameservers = none;
}

-- A configuration that sets the protocol or the name servers and nothing else counts as empty,
-- though an empty configuration takes both from it.
pub is_empty-servers :
    (p : Option DnsProtocol) (servers : Option (List String))
    → let c = record empty { protocol = p; nameservers = servers } in
      (is_empty c ≡ true)
      × ((take_field empty c).protocol ≡ p)
      × ((take_field empty c).nameservers ≡ servers)
unfolding is_empty
is_empty-servers p servers = (refl, none-take p, none-take servers)

pub rst_field-take_field : (a b : DnsConf) → rst_field a b ≡ take_field b a
rst_field-take_field a b = λ i. record {
  mode = rst-take a.mode b.mode i;
  min_ttl = rst-take a.min_ttl b.min_ttl i;
  max_ttl = rst-take a.max_ttl b.max_ttl i;
  cache_size = rst-take a.cache_size b.cache_size i;
  protocol = rst-take a.protocol b.protocol i;
  nameservers = rst-take a.nameservers b.nameservers i;
}

pub take_field_assoc :
    (a b c : DnsConf) → take_field (take_field a b) c ≡ take_field a (take_field b c)
take_field_assoc a b c = λ i. record {
  mode = take_assoc a.mode b.mode c.mode i;
  min_ttl = take_assoc a.min_ttl b.min_ttl c.min_ttl i;
  max_ttl = take_assoc a.max_ttl b.max_ttl c.max_ttl i;
  cache_size = take_assoc a.cache_size b.cache_size c.cache_size i;
  protocol = take_assoc a.protocol b.protocol c.protocol i;
  nameservers = take_assoc a.nameservers b.nameservers c.nameservers i;
}

pub take_field_idem : (a b : DnsConf) → take_field (take_field a b) b ≡ take_field a b
take_field_idem a b = λ i. record {
  mode = take_idem a.mode b.mode i;
  min_ttl = take_idem a.min_ttl b.min_ttl i;
  max_ttl = take_idem a.max_ttl b.max_ttl i;
  cache_size = take_idem a.cache_size b.cache_size i;
  protocol = take_idem a.protocol b.protocol i;
  nameservers = take_idem a.nameservers b.nameservers i;
}
