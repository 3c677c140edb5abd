-- ===== src/Udp/Registry/Swap.antt =====
-- realm_core/src/udp/middle.rs: elements at the front of the parts of a list, and their exchange.
use realm.Base.{
  ℕ, suc, ◌+◌, List, [], ◌∷◌, ◌++◌, length, nth, some, ◌≡◌, refl, ap, sym, ◌∙◌, append_assoc,
  length-append,
}
use realm.Udp.Registry.{bind, set, put_both, swap}

module _ {ℓ} {T : Type ℓ} where
  pub nth-append :
      (pre : List T) (x : T) (post : List T) → nth (pre ++ x ∷ post) (length pre) ≡ some x
  nth-append [] x post = refl
  nth-append (y ∷ pre) x post = nth-append pre x post

  set-append :
      (pre : List T) (x y : T) (post : List T)
      → set (length pre) y (pre ++ x ∷ post) ≡ pre ++ y ∷ post
  unfolding set
  set-append [] x y post = refl
  set-append (z ∷ pre) x y post = ap (λ zs. z ∷ zs) (set-append pre x y post)

  -- The two elements at the ends of `mid`.
  pub swap-append :
      (i j : ℕ) (pre : List T) (x : T) (mid : List T) (y : T) (post : List T)
      → i ≡ length pre
      → j ≡ length pre + suc (length mid)
      → swap j i (pre ++ (x ∷ (mid ++ (y ∷ post)))) ≡ some (pre ++ (y ∷ (mid ++ (x ∷ post))))
  unfolding swap
  swap-append i j pre x mid y post e f =
      let whole : List T = pre ++ (x ∷ (mid ++ (y ∷ post))) in
      let front : List T = pre ++ (x ∷ mid) in
      let place : j ≡ length front = f ∙ sym (length-append pre (x ∷ mid)) in
      let cut : whole ≡ front ++ (y ∷ post) = sym (append_assoc pre (x ∷ mid) (y ∷ post)) in
      let low : nth whole i ≡ some x =
        ap (λ k. nth whole k) e ∙ nth-append pre x (mid ++ (y ∷ post)) in
      let high : nth whole j ≡ some y =
        ap (λ z. nth z j) cut
        ∙ (ap (λ k. nth (front ++ (y ∷ post)) k) place ∙ nth-append front y post) in
      let above : set j x whole ≡ pre ++ (x ∷ (mid ++ (x ∷ post))) =
        ap (λ z. set j x z) cut
        ∙ (ap (λ k. set k x (front ++ (y ∷ post))) place
            ∙ (set-append front y x post ∙ append_assoc pre (x ∷ mid) (x ∷ post))) in
      let below : set i y (set j x whole) ≡ pre ++ (y ∷ (mid ++ (x ∷ post))) =
        ap (λ z. set i y z) above
        ∙ (ap (λ k. set k y (pre ++ (x ∷ (mid ++ (x ∷ post))))) e
            ∙ set-append pre x y (mid ++ (x ∷ post))) in
      ap (λ o. bind o (λ a. bind (nth whole i) (λ b. some (put_both j i whole a b)))) high
      ∙ (ap (λ o. bind o (λ b. some (put_both j i whole y b))) low ∙ ap (λ z. some z) below)
