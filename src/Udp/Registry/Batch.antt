-- ===== src/Udp/Registry/Batch.antt =====
-- realm_core/src/udp/middle.rs: what `group_by_addr` leaves of a batch.
use realm.Base.{
  ℕ, zero, suc, ◌+◌, ◌≤◌, List, [], ◌∷◌, ◌++◌, map, length, take, drop, some, ◌≡◌, refl, ap, sym,
  ◌∙◌, arith, append_assoc, length-append, drop-append, take-append,
}
use realm.Udp.Registry.{
  Packet, same_addr, slice, group_by_inner, Registry, regrouped, group_by_addr, group_iter, iter,
}
use realm.Udp.Registry.Blocks.{count, Rearranges}
use realm.Udp.Registry.Grouped.{concat, ranges, OnePerSender, Groups, group_loop-Groups}

slice-ranges :
    (i : ℕ) (pre : List Packet) (bs : List (List Packet)) (post : List Packet)
    → i ≡ length pre
    → map (slice (pre ++ (concat bs ++ post))) (ranges i bs) ≡ bs
slice-ranges i pre [] post e = refl
slice-ranges i pre (b ∷ bs) post e =
    let whole : pre ++ ((b ++ concat bs) ++ post) ≡ (pre ++ b) ++ (concat bs ++ post) =
      ap (λ z. pre ++ z) (append_assoc b (concat bs) post)
      ∙ sym (append_assoc pre b (concat bs ++ post)) in
    let first : slice (pre ++ ((b ++ concat bs) ++ post)) (i, i + length b) ≡ b =
      ap (λ n. take n (drop i (pre ++ ((b ++ concat bs) ++ post)))) (omega arith)
      ∙ (ap (λ k. take (length b) (drop k (pre ++ ((b ++ concat bs) ++ post)))) e
          ∙ (ap (λ z. take (length b) z) (drop-append pre ((b ++ concat bs) ++ post))
              ∙ (ap (λ z. take (length b) z) (append_assoc b (concat bs) post)
                  ∙ take-append b (concat bs ++ post)))) in
    ap (λ z. z ∷ map (slice (pre ++ ((b ++ concat bs) ++ post))) (ranges (i + length b) bs)) first
    ∙ ap (λ z. b ∷ z)
        (ap (λ z. map (slice z) (ranges (i + length b) bs)) whole
          ∙ slice-ranges (i + length b) (pre ++ b) bs post (omega (arith, e, length-append pre b)))

-- The batch as it is received, and a registry whose groups are those of its packets by sender.
abbrev pub IsGrouped : Registry → Registry → Type 0
IsGrouped r s =
    OnePerSender (group_iter s)
    × Rearranges (concat (group_iter s)) (iter r)
    × (concat (group_iter s) ++ drop r.cursor r.pkts ≡ s.pkts)
    × (s.cursor ≡ r.cursor)

length-take_most : (n : ℕ) (xs : List Packet) → n ≤ length xs → length (take n xs) ≡ n
length-take_most zero xs h = refl
length-take_most (suc n) [] h = absurd (omega (arith, h))
length-take_most (suc n) (x ∷ xs) h = omega (arith, length-take_most n xs (omega (arith, h)))

inner-Groups : (xs : List Packet) → 1 ≤ length xs → Groups [] [] xs (group_by_inner same_addr xs)
unfolding group_by_inner
inner-Groups [] h = absurd (omega (arith, h))
inner-Groups (x ∷ xs) h =
    group_loop-Groups (length (x ∷ xs) + 1) xs (x ∷ xs) [] [] x [] 0 1 refl refl refl refl
      (omega arith)

-- A batch of one packet or more, no more than the buffer holds: grouping it never reads or writes out
-- of range, and the groups that are iterated over are the packets of the batch, each once and none
-- twice, in one group for each sender; what is behind the batch in the buffer stays.
pub group_by_addr-IsGrouped :
    (r : Registry)
    → 1 ≤ r.cursor
    → r.cursor ≤ length r.pkts
    → (s : Registry) × (group_by_addr r ≡ some s) × IsGrouped r s
unfolding group_by_addr group_iter iter
group_by_addr-IsGrouped r some_packet fits =
    let batch : List Packet = take r.cursor r.pkts in
    let (bs, found, good, same) =
      inner-Groups batch (omega (arith, length-take_most r.cursor r.pkts fits, some_packet)) in
    let s : Registry = record r {
      pkts = concat bs ++ drop r.cursor r.pkts;
      groups = ranges 0 bs;
    } in
    let sliced : map (slice s.pkts) s.groups ≡ bs =
      slice-ranges 0 [] bs (drop r.cursor r.pkts) refl in
    (
      s,
      ap (regrouped r) found,
      (
        rw sliced good,
        (λ p. ap (λ z. count p (concat z)) sliced ∙ same p),
        ap (λ z. concat z ++ drop r.cursor r.pkts) sliced,
        refl,
      ),
    )
