-- ===== src/Udp/Registry/Grouped.antt =====
-- realm_core/src/udp/middle.rs: the groups of a batch.
use realm.Base.{
  ℕ, zero, suc, ◌+◌, ◌-◌, ◌≤◌, ◌<◌, ltb, lt→ltb, List, [], ◌∷◌, ◌++◌, length, Option, some, true,
  false, ◌≡◌, refl, ap, sym, ◌∙◌, arith, append_assoc, append-nil, length-append, Bool-cases, inl,
  inr,
}
use realm.Endpoint.{SocketAddr, addr_eq_iff}
use realm.Udp.Registry.{Packet, Range, same_addr, bind, eq_at, probe_loop, group_loop}
use realm.Udp.Registry.Blocks.{
  count, count-append, Rearranges, from, AllFrom, NoneFrom, eq_at-layout, probe_loop-Splits, grown,
}

abbrev pub concat {ℓ} : {A : Type ℓ} → List (List A) → List A
concat [] = []
concat (b ∷ bs) = b ++ concat bs

-- The ranges of blocks that lie one behind the other from an index on.
abbrev pub ranges {ℓ} : {A : Type ℓ} → ℕ → List (List A) → List Range
ranges i [] = []
ranges i (b ∷ bs) = (i, i + length b) ∷ ranges (i + length b) bs

-- Each block has a packet, and all the packets of one sender and no other.
abbrev pub OnePerSender : List (List Packet) → Type 0
OnePerSender [] = Unit {0}
OnePerSender (b ∷ bs) =
    ((a : SocketAddr) × (1 ≤ length b) × AllFrom a b × NoneFrom a (concat bs)) × OnePerSender bs

abbrev pub Groups :
    List Packet → List Range → List Packet → Option (List Packet × List Range) → Type 0
Groups pre gs xs r =
    (bs : List (List Packet)) × (r ≡ some (pre ++ concat bs, gs ++ ranges (length pre) bs))
    × OnePerSender bs
    × Rearranges (concat bs) xs

same-Groups :
    (pre : List Packet) (gs : List Range) (xs ys : List Packet)
    (r : Option (List Packet × List Range))
    → ys ≡ xs
    → Groups pre gs xs r
    → Groups pre gs ys r
same-Groups pre gs xs ys r e (bs, found, good, moved) =
    (bs, found, good, λ p. moved p ∙ ap (count p) (sym e))

pub nonempty :
    (xs : List Packet) → 1 ≤ length xs → (y : Packet) × (ys : List Packet) × (xs ≡ y ∷ ys)
nonempty [] h = absurd (omega (arith, h))
nonempty (y ∷ ys) h = (y, ys, refl)

addr_refl : (x : Packet) → from x.addr x ≡ true
addr_refl x = (addr_eq_iff x.addr x.addr).1 refl

-- A finished group in front of the groups of the rest.
finished :
    (pre : List Packet) (gs : List Range) (first : Packet) (more oths xs : List Packet)
    (beg end : ℕ) (r : Option (List Packet × List Range))
    → beg ≡ length pre
    → end ≡ length pre + (1 + length more)
    → AllFrom first.addr more
    → NoneFrom first.addr oths
    → Rearranges (more ++ oths) xs
    → Groups (pre ++ (first ∷ more)) (gs ++ ((beg, end) ∷ [])) oths r
    → Groups pre gs (first ∷ xs) r
finished pre gs first more oths xs beg end r b e all_from none_from same (bs, found, good, moved) =
    let pre_end : length (pre ++ (first ∷ more)) ≡ length pre + (1 + length more) =
      omega (arith, length-append pre (first ∷ more)) in
    let range : ranges (length pre) ((first ∷ more) ∷ bs)
        ≡ (beg, end) ∷ ranges (length (pre ++ (first ∷ more))) bs =
      ap (λ k. (length pre, length pre + length (first ∷ more)) ∷ ranges k bs)
        (omega (arith, pre_end))
      ∙ ap (λ z. z ∷ ranges (length (pre ++ (first ∷ more))) bs)
          (ap (λ k. (k, length pre + length (first ∷ more))) (sym b)
            ∙ ap (λ k. (beg, k)) (omega (arith, e))) in
    (
      (first ∷ more) ∷ bs,
      found
          ∙ ap (λ z. some z)
              (ap
                  (λ z.
                    (z, (gs ++ ((beg, end) ∷ [])) ++ ranges (length (pre ++ (first ∷ more))) bs))
                  (append_assoc pre (first ∷ more) (concat bs))
                ∙ ap (λ z. (pre ++ ((first ∷ more) ++ concat bs), z))
                    (append_assoc gs ((beg, end) ∷ []) (ranges (length (pre ++ (first ∷ more))) bs)
                      ∙ ap (λ z. gs ++ z) (sym range))),
      (
        (
          first.addr,
          omega arith,
          ground (arith, addr_refl first, all_from),
          moved (from first.addr) ∙ none_from,
        ),
        good,
      ),
      λ p.
          ground
            (arith, count-append p more (concat bs), moved p, same p, count-append p more oths),
    )

-- A list of one group.
last_group :
    (pre : List Packet) (gs : List Range) (first : Packet) (more : List Packet) (beg end : ℕ)
    → beg ≡ length pre
    → end ≡ length pre + (1 + length more)
    → AllFrom first.addr more
    → Groups pre gs (first ∷ more) (some (pre ++ (first ∷ more), gs ++ ((beg, end) ∷ [])))
last_group pre gs first more beg end b e all_from =
    finished pre gs first more [] more beg end _ b e all_from refl
      (λ p. ap (λ z. count p z) (append-nil more))
      (
        [],
        ap (λ z. some z)
            (ap (λ z. (z, gs ++ ((beg, end) ∷ []))) (sym (append-nil (pre ++ (first ∷ more))))
              ∙ ap (λ z. ((pre ++ (first ∷ more)) ++ [], z))
                  (sym (append-nil (gs ++ ((beg, end) ∷ []))))),
        tt,
        λ p. refl,
      )

-- Where the packets of the sender are split off, its group is no shorter than it was.
no_shorter :
    (a : SocketAddr) (more rest more' oths : List Packet)
    → AllFrom a more
    → AllFrom a more'
    → NoneFrom a oths
    → Rearranges (more' ++ oths) (more ++ rest)
    → length more ≤ length more'
no_shorter a more rest more' oths h k n p =
    omega (
      arith,
      h,
      k,
      n,
      p (from a),
      count-append (from a) more rest,
      count-append (from a) more' oths,
    )

-- The groups of a list whose first packet starts a group.
abbrev Starts : ℕ → Type 0
Starts fuel =
    (z : Packet) (zs ys pre : List Packet) (gs : List Range) (beg end : ℕ)
    → ys ≡ pre ++ (z ∷ zs)
    → beg ≡ length pre
    → end ≡ length pre + (1 + 0)
    → AllFrom z.addr []
    → length zs < fuel
    → Groups pre gs (z ∷ zs) (group_loop same_addr fuel ys gs beg end)

split_group :
    (fuel : ℕ) (rest xs pre : List Packet) (gs : List Range) (first : Packet) (more : List Packet)
    (y : Packet) (end : ℕ)
    → xs ≡ pre ++ (first ∷ (more ++ (y ∷ rest)))
    → end ≡ length pre + (1 + length more)
    → AllFrom first.addr more
    → same_addr y first ≡ false
    → length rest < fuel
    → Starts fuel
    → Groups pre gs (first ∷ (more ++ (y ∷ rest))) (
        bind
          (probe_loop same_addr (length rest) (end + 1) (length pre) xs end)
          (λ r. group_loop same_addr fuel r.0 (gs ++ ((length pre, r.1) ∷ [])) r.1 (r.1 + 1)))
split_group fuel rest xs pre gs first more y end laid e all_from other enough ih =
    let (more', oths, found, n, a, o, some_other, p) =
      probe_loop-Splits rest (end + 1) end xs pre first more (y ∷ []) laid e (omega (arith, e))
        (omega arith) all_from (ground (arith, other)) in
    let (z, zs, ez) = nonempty oths some_other in
    let front : List Packet = pre ++ (first ∷ more') in
    let long : length front ≡ length pre + (1 + length more') =
      omega (arith, length-append pre (first ∷ more')) in
    let cut : pre ++ (first ∷ (more' ++ oths)) ≡ front ++ (z ∷ zs) =
      sym (append_assoc pre (first ∷ more') oths) ∙ ap (λ t. front ++ t) ez in
    let few : length zs < fuel = omega (
      arith,
      n,
      enough,
      ap length ez,
      length-append more (y ∷ rest),
      no_shorter first.addr more (y ∷ rest) more' oths all_from a o p,
    ) in
    let h =
      ih z zs (pre ++ (first ∷ (more' ++ oths))) front
        (gs ++ ((length pre, length pre + (1 + length more')) ∷ []))
        (length pre + (1 + length more')) (length pre + (1 + length more') + 1) cut (sym long)
        (omega (arith, long)) refl few in
    rw found (
      finished pre gs first more' oths (more ++ (y ∷ rest)) (length pre)
        (length pre + (1 + length more')) _ refl refl a o p
        (same-Groups front _ (z ∷ zs) oths _ ez h))

pub group_loop-Groups :
    (fuel : ℕ) (rest xs pre : List Packet) (gs : List Range) (first : Packet) (more : List Packet)
    (beg end : ℕ)
    → xs ≡ pre ++ (first ∷ (more ++ rest))
    → beg ≡ length pre
    → end ≡ length pre + (1 + length more)
    → AllFrom first.addr more
    → length rest < fuel
    → Groups pre gs (first ∷ (more ++ rest)) (group_loop same_addr fuel xs gs beg end)
unfolding group_loop
group_loop-Groups zero rest xs pre gs first more beg end laid b e all_from enough =
    absurd (omega (arith, enough))
group_loop-Groups (suc fuel) [] xs pre gs first more beg end laid b e all_from enough =
    let whole : xs ≡ pre ++ (first ∷ more) =
      laid ∙ ap (λ z. pre ++ (first ∷ z)) (append-nil more) in
    let at_end : ltb end (length xs) ≡ false =
      ground (arith, e, ap length whole, length-append pre (first ∷ more)) in
    rw (at_end, whole, append-nil more) (last_group pre gs first more beg end b e all_from)
group_loop-Groups (suc fuel) (y ∷ rest) xs pre gs first more beg end laid b e all_from enough =
    let long : length xs ≡ length pre + (1 + (length more + (1 + length rest))) =
      ap length laid
      ∙ omega (
        arith,
        length-append pre (first ∷ (more ++ (y ∷ rest))),
        length-append more (y ∷ rest),
      ) in
    let inside : ltb end (length xs) ≡ true = lt→ltb _ _ (omega (arith, e, long)) in
    let seen : eq_at same_addr xs end beg ≡ some (same_addr y first) =
      ap (λ z. eq_at same_addr z end beg) laid
      ∙ (ap (λ k. eq_at same_addr (pre ++ (first ∷ (more ++ (y ∷ rest)))) end k) b
          ∙ eq_at-layout end pre first more [] rest y (omega (arith, e))) in
    elim (Bool-cases (same_addr y first)) [
      | inl same ↦
          rw (inside, seen, same)
            (let h =
                group_loop-Groups fuel rest xs pre gs first (more ++ (y ∷ [])) beg (end + 1)
                  (laid ∙ ap (λ z. pre ++ (first ∷ z)) (sym (append_assoc more (y ∷ []) rest))) b
                  (omega (arith, e, length-append more (y ∷ [])))
                  (grown first.addr more y same all_from) (omega (arith, enough)) in
              rw (append_assoc more (y ∷ []) rest) at h)
      | inr other ↦
          let left : length xs - (end + 1) ≡ length rest = omega (arith, e, long) in
          rw (inside, seen, other, left, b)
            (split_group fuel rest xs pre gs first more y end laid e all_from other
              (omega (arith, enough))
              (λ z zs ys pre' gs' beg' end'. group_loop-Groups fuel zs ys pre' gs' z [] beg' end'))
    ]
