-- ===== src/Conf/Legacy/Pairs.antt =====
-- src/conf/legacy/mod.rs: which address and port go together.
use realm.Base.{
  ℕ, zero, suc, ◌<◌, List, [], ◌∷◌, length, nth, Option, none, some, Result, ok, err, ◌≡◌, refl, ap,
  sym, ◌∙◌, arith,
}
use realm.Lb.Text.{Text}
use realm.Conf.Legacy.{
  LegacyConf, BuildError, bind, flatten_ports, fill, with_port, zip_with, join_addr_port, pairs_of,
}

-- The element at an index, or the first where there is none.
abbrev pub or_else {ℓ} : {A : Type ℓ} → Option A → Option A → Option A
or_else none y = y
or_else (some a) y = some a

abbrev pub or_first {ℓ} : {A : Type ℓ} → List A → ℕ → Option A
or_first xs i = or_else (nth xs i) (nth xs 0)

abbrev pub both {ℓ} : {A B C : Type ℓ} → (A → B → C) → Option A → Option B → Option C
both f none y = none
both f (some a) none = none
both f (some a) (some b) = some (f a b)

both-none {ℓ} : {A B C : Type ℓ} (f : A → B → C) (o : Option A) → both f o none ≡ none
both-none f none = refl
both-none f (some a) = refl

nth-fill {ℓ} :
    {A : Type ℓ} (n : ℕ) (d : A) (xs : List A) (i : ℕ)
    → i < n
    → nth (fill n d xs) i ≡ or_else (nth xs i) (some d)
nth-fill zero d xs i h = absurd (omega (arith, h))
nth-fill (suc n) d [] zero h = refl
nth-fill (suc n) d [] (suc i) h = nth-fill n d [] i (omega (arith, h))
nth-fill (suc n) d (x ∷ xs) zero h = refl
nth-fill (suc n) d (x ∷ xs) (suc i) h = nth-fill n d xs i (omega (arith, h))

length-fill {ℓ} : {A : Type ℓ} (n : ℕ) (d : A) (xs : List A) → length (fill n d xs) ≡ n
length-fill zero d xs = refl
length-fill (suc n) d [] = ap suc (length-fill n d [])
length-fill (suc n) d (x ∷ xs) = ap suc (length-fill n d xs)

nth-zip_with {ℓ} :
    {A B C : Type ℓ} (f : A → B → C) (xs : List A) (ys : List B) (i : ℕ)
    → nth (zip_with f xs ys) i ≡ both f (nth xs i) (nth ys i)
nth-zip_with f [] ys i = refl
nth-zip_with f (x ∷ xs) [] i = sym (both-none f (nth (x ∷ xs) i))
nth-zip_with f (x ∷ xs) (y ∷ ys) zero = refl
nth-zip_with f (x ∷ xs) (y ∷ ys) (suc i) = nth-zip_with f xs ys i

length-zip_with {ℓ} :
    {A B C : Type ℓ} (f : A → B → C) (xs : List A) (ys : List B)
    → length xs ≡ length ys
    → length (zip_with f xs ys) ≡ length xs
length-zip_with f [] ys h = refl
length-zip_with f (x ∷ xs) [] h = absurd (omega (arith, h))
length-zip_with f (x ∷ xs) (y ∷ ys) h = ap suc (length-zip_with f xs ys (omega (arith, h)))

-- The text of one side at an index.
abbrev pub side : List Text → List ℕ → ℕ → Option Text
side addrs ports i = both with_port (or_first addrs i) (or_first ports i)

-- One side is as long as it is wanted, and each of its texts is an address with a port.
abbrev Joins : List Text → List ℕ → ℕ → Result (List Text) BuildError → Type 0
Joins addrs ports len (err e) = Unit {0}
Joins addrs ports len (ok ts) =
    (length ts ≡ len) × ((i : ℕ) → i < len → nth ts i ≡ side addrs ports i)

join_addr_port-Joins :
    (addrs : List Text) (ports : List ℕ) (len : ℕ)
    → Joins addrs ports len (join_addr_port addrs ports len)
unfolding join_addr_port
join_addr_port-Joins addrs [] len = tt
join_addr_port-Joins [] (p ∷ ps) len = tt
join_addr_port-Joins (a ∷ addrs) (p ∷ ps) len = (
  length-zip_with with_port (fill len a (a ∷ addrs)) (fill len p (p ∷ ps))
        (length-fill len a (a ∷ addrs) ∙ sym (length-fill len p (p ∷ ps)))
      ∙ length-fill len a (a ∷ addrs),
  λ i h.
      nth-zip_with with_port (fill len a (a ∷ addrs)) (fill len p (p ∷ ps)) i
      ∙ (ap (λ z. both with_port z (nth (fill len p (p ∷ ps)) i)) (nth-fill len a (a ∷ addrs) i h)
          ∙ ap (λ z. both with_port (or_first (a ∷ addrs) i) z) (nth-fill len p (p ∷ ps) i h)),
)

-- What the endpoints are, by the ports of the two sides.
abbrev pub Paired : LegacyConf → List ℕ → List ℕ → List (Text × Text) → Type 0
Paired x listen remote ps =
    (length ps ≡ length listen)
    × ((i : ℕ)
        → i < length listen
        → nth ps i
          ≡ both (λ l r. (l, r)) (side x.listen_addrs listen i) (side x.remote_addrs remote i))

abbrev pub IsPaired : LegacyConf → Result (List (Text × Text)) BuildError → Type 0
IsPaired x (err e) = Unit {0}
IsPaired x (ok ps) =
    (listen : List ℕ) × (remote : List ℕ) × (flatten_ports x.listen_ports ≡ ok listen)
    × (flatten_ports x.remote_ports ≡ ok remote)
    × Paired x listen remote ps

sides-IsPaired :
    (x : LegacyConf) (listen remote : List ℕ) (ls rs : Result (List Text) BuildError)
    → flatten_ports x.listen_ports ≡ ok listen
    → flatten_ports x.remote_ports ≡ ok remote
    → Joins x.listen_addrs listen (length listen) ls
    → Joins x.remote_addrs remote (length listen) rs
    → IsPaired x (bind ls (λ l. bind rs (λ r. ok (zip_with (λ a b. (a, b)) l r))))
sides-IsPaired x listen remote (err e) rs h k j m = tt
sides-IsPaired x listen remote (ok ls) (err e) h k j m = tt
sides-IsPaired x listen remote (ok ls) (ok rs) h k (same, each) (same', each') = (
  listen,
  remote,
  h,
  k,
  (
    length-zip_with (λ a b. (a, b)) ls rs (same ∙ sym same') ∙ same,
    λ i less.
        nth-zip_with (λ a b. (a, b)) ls rs i
        ∙ (ap (λ z. both (λ a b. (a, b)) z (nth rs i)) (each i less)
            ∙ ap (λ z. both (λ a b. (a, b)) (side x.listen_addrs listen i) z) (each' i less)),
  ),
)

-- Where an old configuration is converted, its port texts are ranges of ports, there are as many
-- endpoints as listening ports, and the addresses and ports of an endpoint are those at its place in
-- their lists, or the first where a list has none.
pub pairs_of-IsPaired : (x : LegacyConf) → IsPaired x (pairs_of x)
unfolding pairs_of
pairs_of-IsPaired x = listening (flatten_ports x.listen_ports) refl
  where
    remotes :
        (listen : List ℕ) (r : Result (List ℕ) BuildError)
        → flatten_ports x.listen_ports ≡ ok listen
        → flatten_ports x.remote_ports ≡ r
        → IsPaired x (
            bind r (λ remote. bind (join_addr_port x.listen_addrs listen (length listen)) (λ l.
              bind
                (join_addr_port x.remote_addrs remote (length listen))
                (λ m. ok (zip_with (λ a b. (a, b)) l m)))))
    remotes listen (err e) h k = tt
    remotes listen (ok remote) h k =
        sides-IsPaired x listen remote _ _ h k
          (join_addr_port-Joins x.listen_addrs listen (length listen))
          (join_addr_port-Joins x.remote_addrs remote (length listen))

    listening :
        (l : Result (List ℕ) BuildError)
        → flatten_ports x.listen_ports ≡ l
        → IsPaired x (
            bind l (λ listen. bind (flatten_ports x.remote_ports) (λ remote.
              bind (join_addr_port x.listen_addrs listen (length listen)) (λ l.
                bind
                  (join_addr_port x.remote_addrs remote (length listen))
                  (λ m. ok (zip_with (λ a b. (a, b)) l m))))))
    listening (err e) h = tt
    listening (ok listen) h = remotes listen (flatten_ports x.remote_ports) h refl
