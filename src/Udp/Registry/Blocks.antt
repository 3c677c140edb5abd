-- ===== src/Udp/Registry/Blocks.antt =====
-- realm_core/src/udp/middle.rs: the probes for the packets of one sender.
use realm.Base.{
  ℕ, suc, ◌+◌, ◌≤◌, List, [], ◌∷◌, ◌++◌, length, nth, Option, some, Bool, true, false, ◌≡◌, refl,
  ap, sym, ◌∙◌, arith, append_assoc, append-nil, length-append, if◌then◌else◌, Bool-cases, inl, inr,
}
use realm.Endpoint.{SocketAddr, addr_eq}
use realm.Udp.Registry.{Packet, same_addr, bind, swap, eq_at, probe_loop}
use realm.Udp.Registry.Swap.{nth-append, swap-append}

-- How many elements pass the test.
abbrev pub count {ℓ} : {A : Type ℓ} → (A → Bool) → List A → ℕ
count p [] = 0
count p (x ∷ xs) = let rest = count p xs in if p x then suc rest else rest

pub count-append {ℓ} :
    {A : Type ℓ} (p : A → Bool) (xs ys : List A) → count p (xs ++ ys) ≡ count p xs + count p ys
count-append p [] ys = omega arith
count-append p (x ∷ xs) ys = ground (arith, count-append p xs ys)

-- The same elements, each as often: no test tells the lists apart.
abbrev pub Rearranges {ℓ} : {A : Type ℓ} → List A → List A → Type ℓ
Rearranges xs ys = (p : _ → Bool) → count p xs ≡ count p ys

abbrev pub from : SocketAddr → Packet → Bool
from a x = addr_eq x.addr a

-- All, and none, of the packets are of the sender.
abbrev pub AllFrom : SocketAddr → List Packet → Type 0
AllFrom a xs = count (from a) xs ≡ length xs

abbrev pub NoneFrom : SocketAddr → List Packet → Type 0
NoneFrom a xs = count (from a) xs ≡ 0

-- What is done; the group; the packets that are probed and of others; those to probe.
abbrev pub layout : List Packet → Packet → List Packet → List Packet → List Packet → List Packet
layout pre first more oths rest = pre ++ (first ∷ (more ++ (oths ++ rest)))

-- How the probes end.
abbrev pub Splits : List Packet → Packet → List Packet → Option (List Packet × ℕ) → Type 0
Splits pre first xs r =
    (more : List Packet) × (oths : List Packet) × (r
      ≡ some (pre ++ (first ∷ (more ++ oths)), length pre + (1 + length more)))
    × (length more + length oths ≡ length xs)
    × AllFrom first.addr more
    × NoneFrom first.addr oths
    × (1 ≤ length oths)
    × Rearranges (more ++ oths) xs

Splits-rearranged :
    (pre : List Packet) (first : Packet) (xs ys : List Packet) (r : Option (List Packet × ℕ))
    → Rearranges xs ys
    → length xs ≡ length ys
    → Splits pre first xs r
    → Splits pre first ys r
Splits-rearranged pre first xs ys r p l (more, oths, e, n, a, o, some_other, q) =
    (more, oths, e, n ∙ l, a, o, some_other, λ t. q t ∙ p t)

-- The front of the layout up to the packet to probe.
probed_at :
    (pre : List Packet) (first : Packet) (more oths rest : List Packet) (y : Packet)
    → layout pre first more oths (y ∷ rest) ≡ (pre ++ (first ∷ (more ++ oths))) ++ (y ∷ rest)
probed_at pre first more oths rest y = sym (
    append_assoc pre (first ∷ (more ++ oths)) (y ∷ rest)
    ∙ ap (λ z. pre ++ (first ∷ z)) (append_assoc more oths (y ∷ rest)))

pub eq_at-layout :
    (probe : ℕ) (pre : List Packet) (first : Packet) (more oths rest : List Packet) (y : Packet)
    → probe ≡ length pre + (1 + length more) + length oths
    → eq_at same_addr (layout pre first more oths (y ∷ rest)) probe (length pre)
      ≡ some (same_addr y first)
eq_at-layout probe pre first more oths rest y e =
    let whole : List Packet = layout pre first more oths (y ∷ rest) in
    let front : List Packet = pre ++ (first ∷ (more ++ oths)) in
    let place : probe ≡ length front =
      omega (arith, e, length-append pre (first ∷ (more ++ oths)), length-append more oths) in
    let here : nth whole probe ≡ some y =
      ap (λ z. nth z probe) (probed_at pre first more oths rest y)
      ∙ (ap (λ k. nth (front ++ (y ∷ rest)) k) place ∙ nth-append front y rest) in
    let start : nth whole (length pre) ≡ some first =
      nth-append pre first (more ++ (oths ++ (y ∷ rest))) in
    ap (λ o. bind o (λ a. bind (nth whole (length pre)) (λ b. some (same_addr a b)))) here
    ∙ ap (λ o. bind o (λ b. some (same_addr y b))) start

-- A packet of others joins those probed.
joins_others :
    (pre : List Packet) (first : Packet) (more oths rest : List Packet) (y : Packet)
    → layout pre first more oths (y ∷ rest) ≡ layout pre first more (oths ++ (y ∷ [])) rest
joins_others pre first more oths rest y =
    ap (λ z. pre ++ (first ∷ (more ++ z))) (sym (append_assoc oths (y ∷ []) rest))

-- A packet of the sender changes places with the first of the others.
joins_group :
    (probe end : ℕ) (pre : List Packet) (first : Packet) (more : List Packet) (x : Packet)
    (oths rest : List Packet) (y : Packet)
    → end ≡ length pre + (1 + length more)
    → probe ≡ length pre + (1 + length more) + (1 + length oths)
    → swap probe end (layout pre first more (x ∷ oths) (y ∷ rest))
      ≡ some (layout pre first (more ++ (y ∷ [])) (oths ++ (x ∷ [])) rest)
joins_group probe end pre first more x oths rest y e f =
    let front : List Packet = pre ++ (first ∷ more) in
    let long : length front ≡ length pre + (1 + length more) =
      omega (arith, length-append pre (first ∷ more)) in
    ap (λ z. swap probe end z) (sym (append_assoc pre (first ∷ more) (x ∷ (oths ++ (y ∷ rest)))))
    ∙ (swap-append end probe front x oths y rest (omega (arith, e, long)) (omega (arith, f, long))
        ∙ ap (λ z. some z)
            (append_assoc pre (first ∷ more) (y ∷ (oths ++ (x ∷ rest)))
              ∙ ap (λ z. pre ++ (first ∷ z))
                  (ap (λ z. more ++ (y ∷ z)) (sym (append_assoc oths (x ∷ []) rest))
                    ∙ sym (append_assoc more (y ∷ []) ((oths ++ (x ∷ [])) ++ rest)))))

exchange :
    (more oths rest : List Packet) (x y : Packet)
    → Rearranges
        ((more ++ (y ∷ [])) ++ ((oths ++ (x ∷ [])) ++ rest))
        (more ++ ((x ∷ oths) ++ (y ∷ rest)))
exchange more oths rest x y p = ground (
  arith,
  count-append p (more ++ (y ∷ [])) ((oths ++ (x ∷ [])) ++ rest),
  count-append p more (y ∷ []),
  count-append p (oths ++ (x ∷ [])) rest,
  count-append p oths (x ∷ []),
  count-append p more ((x ∷ oths) ++ (y ∷ rest)),
  count-append p oths (y ∷ rest),
)

exchange_length :
    (more oths rest : List Packet) (x y : Packet)
    → length ((more ++ (y ∷ [])) ++ ((oths ++ (x ∷ [])) ++ rest))
      ≡ length (more ++ ((x ∷ oths) ++ (y ∷ rest)))
exchange_length more oths rest x y = omega (
  arith,
  length-append (more ++ (y ∷ [])) ((oths ++ (x ∷ [])) ++ rest),
  length-append more (y ∷ []),
  length-append (oths ++ (x ∷ [])) rest,
  length-append oths (x ∷ []),
  length-append more ((x ∷ oths) ++ (y ∷ rest)),
  length-append oths (y ∷ rest),
)

pub grown :
    (a : SocketAddr) (more : List Packet) (y : Packet)
    → from a y ≡ true
    → AllFrom a more
    → AllFrom a (more ++ (y ∷ []))
grown a more y h k =
    ground (arith, count-append (from a) more (y ∷ []), length-append more (y ∷ []))

rotated :
    (a : SocketAddr) (oths : List Packet) (x : Packet)
    → NoneFrom a (x ∷ oths)
    → NoneFrom a (oths ++ (x ∷ []))
rotated a oths x h = ground (arith, count-append (from a) oths (x ∷ []))

kept_out :
    (a : SocketAddr) (oths : List Packet) (y : Packet)
    → from a y ≡ false
    → NoneFrom a oths
    → NoneFrom a (oths ++ (y ∷ []))
kept_out a oths y h k = ground (arith, count-append (from a) oths (y ∷ []))

-- All that is probed or to probe is split into the rest of the group and the others.
pub probe_loop-Splits :
    (rest : List Packet) (probe end : ℕ) (xs pre : List Packet) (first : Packet)
    (more oths : List Packet)
    → xs ≡ layout pre first more oths rest
    → end ≡ length pre + (1 + length more)
    → probe ≡ length pre + (1 + length more) + length oths
    → 1 ≤ length oths
    → AllFrom first.addr more
    → NoneFrom first.addr oths
    → Splits pre first
        (more ++ (oths ++ rest))
        (probe_loop same_addr (length rest) probe (length pre) xs end)
unfolding probe_loop
probe_loop-Splits [] probe end xs pre first more oths laid e f some_other all_from none_from = (
  more,
  oths,
  ap (λ z. some z)
      (ap (λ z. (z, end)) (laid ∙ ap (λ z. pre ++ (first ∷ (more ++ z))) (append-nil oths))
        ∙ ap (λ k. (pre ++ (first ∷ (more ++ oths)), k)) e),
  omega (arith, length-append more (oths ++ []), length-append oths []),
  all_from,
  none_from,
  some_other,
  λ p.
      omega
        (arith, count-append p more (oths ++ []), count-append p more oths, count-append p oths []),
)
probe_loop-Splits (y ∷ rest) probe end xs pre first more [] laid e f some_other all_from none_from =
    absurd (omega (arith, some_other))
probe_loop-Splits (y ∷ rest) probe end xs pre first more (x ∷ oths) laid e f some_other all_from
      none_from =
    let seen : eq_at same_addr xs probe (length pre) ≡ some (same_addr y first) =
      ap (λ z. eq_at same_addr z probe (length pre)) laid
      ∙ eq_at-layout probe pre first more (x ∷ oths) rest y f in
    elim (Bool-cases (same_addr y first)) [
      | inl same ↦
          let moved : swap probe end xs
              ≡ some (layout pre first (more ++ (y ∷ [])) (oths ++ (x ∷ [])) rest) =
            ap (λ z. swap probe end z) laid
            ∙ joins_group probe end pre first more x oths rest y e (omega (arith, f)) in
          rw (seen, same, moved)
            (Splits-rearranged pre first ((more ++ (y ∷ [])) ++ ((oths ++ (x ∷ [])) ++ rest))
              (more ++ ((x ∷ oths) ++ (y ∷ rest))) _ (exchange more oths rest x y)
              (exchange_length more oths rest x y)
              (probe_loop-Splits rest (probe + 1) (end + 1) _ pre first (more ++ (y ∷ []))
                (oths ++ (x ∷ [])) refl (omega (arith, e, length-append more (y ∷ [])))
                (omega (arith, f, length-append more (y ∷ []), length-append oths (x ∷ [])))
                (omega (arith, length-append oths (x ∷ []))) (grown first.addr more y same all_from)
                (rotated first.addr oths x none_from)))
      | inr other ↦
          rw (seen, other)
            (Splits-rearranged pre first (more ++ (((x ∷ oths) ++ (y ∷ [])) ++ rest))
              (more ++ ((x ∷ oths) ++ (y ∷ rest))) _
              (λ p. ap (λ z. count p (more ++ z)) (append_assoc (x ∷ oths) (y ∷ []) rest))
              (ap (λ z. length (more ++ z)) (append_assoc (x ∷ oths) (y ∷ []) rest))
              (probe_loop-Splits rest (probe + 1) end xs pre first more ((x ∷ oths) ++ (y ∷ []))
                (laid ∙ joins_others pre first more (x ∷ oths) rest y) e
                (omega (arith, f, length-append (x ∷ oths) (y ∷ [])))
                (omega (arith, length-append (x ∷ oths) (y ∷ []))) all_from
                (kept_out first.addr (x ∷ oths) y other none_from)))
    ]
