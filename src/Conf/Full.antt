-- ===== src/Conf/Full.antt =====
-- The whole configuration of src/conf/mod.rs, and `EndpointConf` of src/conf/endpoint.rs.
use realm.Base.{ℕ, String, List, [], ◌∷◌, ◌++◌, Option, ◌≡◌, refl, sym, ◌∙◌, ap, map}
use mathlib.Core.List.{append_assoc}
use realm.Conf.Net.{NetConf}
use realm.Conf.Net
use realm.Conf.Log.{LogConf}
use realm.Conf.Log
use realm.Conf.Dns.{DnsConf}
use realm.Conf.Dns

pub record EndpointConf : Type 0 where
  pub listen : String
  pub remote : String
  pub extra_remotes : List String
  pub balance : Option String
  pub through : Option String
  pub interface : Option String
  pub listen_interface : Option String
  pub listen_transport : Option String
  pub remote_transport : Option String
  pub update_drain_timeout : Option ℕ
  pub delete_drain_timeout : Option ℕ
  pub network : NetConf
  pub material_digest : Option ℕ

unfoldable pub normalized : NetConf → EndpointConf → EndpointConf
normalized global conf = record conf { network = Net.take_field conf.network global }

pub record CmdOverride : Type 0 where
  pub log : LogConf
  pub dns : DnsConf
  pub network : NetConf

pub record FullConf : Type 0 where
  pub log : LogConf
  pub dns : DnsConf
  pub network : NetConf
  pub endpoints : List EndpointConf

-- A part of a configuration that is spread over files.
unfoldable pub take_fields : FullConf → FullConf → FullConf
take_fields this other = record {
  log = Log.take_field this.log other.log;
  dns = Dns.take_field this.dns other.dns;
  network = Net.take_field this.network other.network;
  endpoints = this.endpoints ++ other.endpoints;
}

unfoldable pub add_endpoint : EndpointConf → FullConf → FullConf
add_endpoint e this = record this { endpoints = this.endpoints ++ e ∷ [] }

abbrev pub override : NetConf → EndpointConf → EndpointConf
override network x = record x { network = Net.rst_field x.network network }

abbrev pub take_global : NetConf → EndpointConf → EndpointConf
take_global network x = record x { network = Net.take_field x.network network }

unfoldable pub apply_cmd_opts : CmdOverride → FullConf → FullConf
apply_cmd_opts opts this = record this {
  log = Log.rst_field this.log opts.log;
  dns = Dns.rst_field this.dns opts.dns;
  endpoints = map (override opts.network) this.endpoints;
}

unfoldable pub apply_global_opts : FullConf → FullConf
apply_global_opts this = record this { endpoints = map (take_global this.network) this.endpoints }

override-take_global :
    (c g : NetConf) (x : EndpointConf) → override c (take_global g x) ≡ take_global g (override c x)
override-take_global c g x =
    ap (λ n. record x { network = n })
      (Net.rst_field-take_field (Net.take_field x.network g) c
        ∙ sym (Net.take_field_assoc c x.network g)
        ∙ ap (λ n. Net.take_field n g) (sym (Net.rst_field-take_field x.network c)))

map_swap :
    (f g : EndpointConf → EndpointConf)
    → ((x : EndpointConf) → f (g x) ≡ g (f x))
    → (xs : List EndpointConf) → map f (map g xs) ≡ map g (map f xs)
map_swap f g h [] = refl
map_swap f g h (x ∷ xs) = rw (h x, map_swap f g h xs) refl

-- It does not matter whether the global options are given to the endpoints before the options of
-- the command line override them, or after: the options of the command line come first, then the
-- endpoint's, then the global ones.
pub apply_cmd_opts-apply_global_opts :
    (opts : CmdOverride) (c : FullConf)
    → apply_cmd_opts opts (apply_global_opts c) ≡ apply_global_opts (apply_cmd_opts opts c)
unfolding apply_cmd_opts apply_global_opts
apply_cmd_opts-apply_global_opts opts c =
    ap
      (λ es. record c {
        log = Log.rst_field c.log opts.log;
        dns = Dns.rst_field c.dns opts.dns;
        endpoints = es;
      })
      (map_swap (override opts.network) (take_global c.network)
        (override-take_global opts.network c.network) c.endpoints)

map_twice :
    (f : EndpointConf → EndpointConf)
    → ((x : EndpointConf) → f (f x) ≡ f x)
    → (xs : List EndpointConf) → map f (map f xs) ≡ map f xs
map_twice f h [] = refl
map_twice f h (x ∷ xs) = rw (h x, map_twice f h xs) refl

-- An endpoint that the control plane sends and its normalized form are the same to a second
-- normalization, and the endpoints of the static configuration are normalized by its global options.
pub normalized-apply_global_opts :
    (c : FullConf)
    → ((apply_global_opts c).endpoints ≡ map (normalized c.network) c.endpoints)
      × (map (normalized c.network) (apply_global_opts c).endpoints
          ≡ (apply_global_opts c).endpoints)
unfolding apply_global_opts normalized
normalized-apply_global_opts c = (
  refl,
  map_twice (take_global c.network)
      (λ x. ap (λ n. record x { network = n }) (Net.take_field_idem x.network c.network))
      c.endpoints,
)

-- Three files are merged to the same configuration however they are grouped.
pub take_fields_assoc :
    (a b c : FullConf) → take_fields (take_fields a b) c ≡ take_fields a (take_fields b c)
unfolding take_fields
take_fields_assoc a b c = λ i. record {
  log = Log.take_field_assoc a.log b.log c.log i;
  dns = Dns.take_field_assoc a.dns b.dns c.dns i;
  network = Net.take_field_assoc a.network b.network c.network i;
  endpoints = append_assoc a.endpoints b.endpoints c.endpoints i;
}
