-- ===== src/Udp/Registry.antt =====
-- realm_core/src/udp/middle.rs: the batch of packets of a receive loop, grouped by their senders. A
-- packet (realm_core/src/udp/batched.rs) is its bytes and its address. An index out of range is `none`. A buffer
-- has at most 128 packets, so the casts of indexes to u16 change nothing.
pub mod Swap
pub mod Blocks
pub mod Grouped
pub mod Batch
pub mod Tests
use realm.Base.{
  ℕ, zero, suc, ◌+◌, ◌-◌, ltb, if◌then◌else◌, List, [], ◌∷◌, ◌++◌, map, length, nth, take, drop,
  Option, none, some, Bool, true, false,
}
use realm.Endpoint.{SocketAddr, v4, addr_eq}

pub record Packet : Type 0 where
  pub buf : List ℕ
  pub addr : SocketAddr

-- `Packet::new`
abbrev pub empty_packet : Packet
empty_packet = record { buf = []; addr = v4 0 0 }

abbrev pub same_addr : Packet → Packet → Bool
same_addr a b = addr_eq a.addr b.addr

-- From the first index on, before the second.
abbrev pub Range : Type 0
Range = ℕ × ℕ

abbrev pub bind {ℓ κ} : {A : Type ℓ} {B : Type κ} → Option A → (A → Option B) → Option B
bind none f = none
bind (some a) f = f a

module _ {ℓ} {T : Type ℓ} where
  unfoldable pub set : ℕ → T → List T → List T
  set i x [] = []
  set zero x (y ∷ ys) = x ∷ ys
  set (suc i) x (y ∷ ys) = y ∷ set i x ys

  abbrev pub put_both : ℕ → ℕ → List T → T → T → List T
  put_both i j xs a b = set j a (set i b xs)

  -- `slice::swap`
  unfoldable pub swap : ℕ → ℕ → List T → Option (List T)
  unfolding set
  swap i j xs = bind (nth xs i) (λ a. bind (nth xs j) (λ b. some (put_both i j xs a b)))

  module _ (eq : T → T → Bool) where
    abbrev pub eq_at : List T → ℕ → ℕ → Option Bool
    eq_at xs i j = bind (nth xs i) (λ a. bind (nth xs j) (λ b. some (eq a b)))

    -- What a probe does: the packet goes to the end of the group, which grows.
    abbrev pub probed : ℕ → List T → ℕ → Bool → Option (List T × ℕ)
    probed probe xs end true = bind (swap probe end xs) (λ ys. some (ys, end + 1))
    probed probe xs end false = some (xs, end)

    -- `while probe < maxn`, with the number of probes that are left.
    unfoldable pub probe_loop : ℕ → ℕ → ℕ → List T → ℕ → Option (List T × ℕ)
    unfolding swap
    probe_loop zero probe beg xs end = some (xs, end)
    probe_loop (suc left) probe beg xs end =
        bind (eq_at xs probe beg)
          (λ b. bind (probed probe xs end b) (λ y. probe_loop left (probe + 1) beg y.0 y.1))

    -- `while end < maxn`, on fuel; `none` is also the want of it.
    unfoldable pub group_loop : ℕ → List T → List Range → ℕ → ℕ → Option (List T × List Range)
    unfolding probe_loop
    group_loop zero xs groups beg end = none
    group_loop (suc fuel) xs groups beg end =
        if ltb end (length xs)
        then bind (eq_at xs end beg) (λ b. elim b [
          | true ↦ group_loop fuel xs groups beg (end + 1)
          | false ↦
              bind (probe_loop (length xs - (end + 1)) (end + 1) beg xs end)
                (λ y. group_loop fuel y.0 (groups ++ ((beg, y.1) ∷ [])) y.1 (y.1 + 1))
        ])
        else some (xs, groups ++ ((beg, end) ∷ []))

    unfoldable pub group_by_inner : List T → Option (List T × List Range)
    unfolding group_loop
    group_by_inner xs = group_loop (length xs + 1) xs [] 0 1

  -- `&data[start..end]`
  abbrev pub slice : List T → Range → List T
  slice xs (start, end) = take (end - start) (drop start xs)

pub record Registry : Type 0 where
  pub pkts : List Packet
  pub groups : List Range
  pub cursor : ℕ

abbrev pub empty_packets : ℕ → List Packet
empty_packets zero = []
empty_packets (suc n) = empty_packet ∷ empty_packets n

unfoldable pub new : ℕ → Registry
new npkts = record { pkts = empty_packets npkts; groups = []; cursor = 0 }

-- The packets that one call of the system receives go to the front of the buffer.
unfoldable pub batched_recv_on : List Packet → Registry → Registry
batched_recv_on got r = record r {
  pkts = take (length r.pkts) got ++ drop (length got) r.pkts;
  cursor = length (take (length r.pkts) got);
}

abbrev pub regrouped : Registry → Option (List Packet × List Range) → Option Registry
regrouped r none = none
regrouped r (some (xs, gs)) = some (record r { pkts = xs ++ drop r.cursor r.pkts; groups = gs })

unfoldable pub group_by_addr : Registry → Option Registry
unfolding group_by_inner
group_by_addr r = regrouped r (group_by_inner same_addr (take r.cursor r.pkts))

-- All that the iterator gives.
unfoldable pub group_iter : Registry → List (List Packet)
group_iter r = map (slice r.pkts) r.groups

unfoldable pub iter : Registry → List Packet
iter r = take r.cursor r.pkts
