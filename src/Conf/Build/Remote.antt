-- ===== src/Conf/Build/Remote.antt =====
-- src/conf/endpoint.rs: a remote that is written as a host and a port.
use realm.Base.{
  ℕ, ◌<◌, nat_eq, String, [], ◌∷◌, ◌++◌, none, some, all, true, false, ◌≡◌, refl, ap, ◌∙◌, arith,
}
use realm.Lb.Text.{Text, colon}
use realm.Endpoint.{domain_name}
use realm.Conf.Decimal.{u16_mod, show}
use realm.Conf.Decimal.Back.{is_digit, parse_u16-show, show-digits}
use realm.Conf.Legacy.{with_port}
use realm.Conf.Build.{
  Std, built, or_here, rsplit_once, named_host, host_and_port, parsed_or_named, build_remote_x,
}

rsplit_once-none : (xs : Text) → all is_digit xs ≡ true → rsplit_once colon xs ≡ none
unfolding rsplit_once
rsplit_once-none [] h = refl
rsplit_once-none (x ∷ xs) h =
    let other : nat_eq x colon ≡ false = ground (arith, h) in
    ap (or_here colon x xs) (rsplit_once-none xs (ground (arith, h))) ∙ rw other refl

rsplit_once-digits :
    (host xs : Text)
    → all is_digit xs ≡ true
    → rsplit_once colon (host ++ (colon ∷ xs)) ≡ some (host, xs)
unfolding rsplit_once
rsplit_once-digits [] xs h = ap (or_here colon colon xs) (rsplit_once-none xs h)
rsplit_once-digits (c ∷ host) xs h =
    ap (or_here colon c (host ++ (colon ∷ xs))) (rsplit_once-digits host xs h)

module _ (std : Std) where
  -- A host that is not empty, a colon and a port below 65536 in decimal, which together are not an
  -- address of a socket, are built to the domain name of that host with that port; the host may have colons.
  pub build_remote_x-with_port :
      (field : String) (c : ℕ) (host : Text) (port : ℕ)
      → port < u16_mod
      → std.parse_socket_addr (with_port (c ∷ host) port) ≡ none
      → build_remote_x std field (with_port (c ∷ host) port)
        ≡ built (domain_name (std.string (c ∷ host)) port)
  unfolding build_remote_x
  build_remote_x-with_port field c host port h e =
      ap (parsed_or_named std field (with_port (c ∷ host) port)) e
      ∙ (ap (host_and_port std field (with_port (c ∷ host) port))
            (rsplit_once-digits (c ∷ host) (show port) (show-digits port))
          ∙ ap (named_host std field (with_port (c ∷ host) port) (c ∷ host))
              (parse_u16-show port h))
