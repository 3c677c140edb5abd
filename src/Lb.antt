-- ===== src/Lb.antt =====
-- realm_lb/src: the data of the load balancers, and realm_lb/src/balancer.rs.
pub mod Rotation
pub mod Ring
pub mod Text
pub mod Choice
use realm.Base.{ℕ, List, Option}
use realm.Base.Int.{ℤ}

-- `Token(u8)`: the index of a peer.
abbrev pub Token : Type 0
Token = ℕ

pub data Strategy : Type 0 where
  off iphash roundrobin : Strategy

-- `Node` of round_robin.rs: current, effective and configured weight.
pub record RrNode : Type 0 where
  pub cw : ℤ
  pub ew : ℕ
  pub weight : ℕ
  pub token : Token

pub record RoundRobin : Type 0 where
  pub nodes : List RrNode
  pub total : ℕ

-- `Node` of ip_hash.rs.
pub record HashNode : Type 0 where
  pub hash : ℕ
  pub token : Token

pub record IpHash : Type 0 where
  pub nodes : List HashNode
  pub total : ℕ

pub data Balancer : Type 0 where
  off : Balancer
  iphash : IpHash → Balancer
  roundrobin : RoundRobin → Balancer

unfoldable pub strategy : Balancer → Strategy
strategy Balancer.off = Strategy.off
strategy (Balancer.iphash h) = Strategy.iphash
strategy (Balancer.roundrobin r) = Strategy.roundrobin

unfoldable pub total : Balancer → ℕ
total Balancer.off = 0
total (Balancer.iphash h) = h.total
total (Balancer.roundrobin r) = r.total
