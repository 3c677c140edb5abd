-- ===== src/Conf/Build/Spec.antt =====
-- src/conf/endpoint.rs: the description of an endpoint for the reconciler.
use realm.Base.{ℕ, if◌then◌else◌, Option, none, some, is_some, not, ◌&&◌}
use realm.Lb.Ring.{Lib}
use realm.Conf.Full.{EndpointConf}
use realm.Conf.Build.{Std, Kaminari, Built, built, and_then, build}
use realm.Lifecycle.Manager.{DrainPolicy, default_policy, EndpointSpec}

abbrev pub or_default : Option ℕ → Option ℕ → Option ℕ
or_default none d = d
or_default (some n) d = some n

unfoldable pub drain_policy : EndpointConf → Option DrainPolicy
drain_policy this =
    if not (is_some this.update_drain_timeout) && not (is_some this.delete_drain_timeout)
    then none
    else some (record {
      on_update = or_default this.update_drain_timeout default_policy.on_update;
      on_delete = or_default this.delete_drain_timeout default_policy.on_delete;
    })

module _ (over : ℕ → Option ℕ) (lib : Lib) (std : Std) (kam : Kaminari) where
  -- `EndpointSource::build`
  unfoldable pub build_spec : EndpointConf → Built EndpointSpec
  unfolding build drain_policy
  build_spec this = and_then (build over lib std kam this) (λ info. built (record {
    endpoint = info.endpoint;
    tcp = not info.no_tcp;
    udp = info.use_udp;
    drain = drain_policy this;
    material = this.material_digest;
  }))
