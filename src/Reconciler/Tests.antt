-- ===== src/Reconciler/Tests.antt =====
-- A `Deploy` to a cluster that has nothing and accepts everything.
use orchestration_service.Base.{refl, ◌≡◌, Option, none, some, [], ◌∷◌, if◌then◌else◌}
use orchestration_service.Base.Int.{pos}
use orchestration_service.Text.{Text, codes, trim, trim_space, to_lower, decimal}
use orchestration_service.Errors.{GoError, status, not_found, chain_any}
use orchestration_service.Config.Samples.{config}
use orchestration_service.Names.{
  DeployRequest, build_ingress_host, sanitize_dns_label, target_for_request, labels_for_request,
}
use orchestration_service.Names.Samples.{no_table, request, shop, target_for_request_run}
use orchestration_service.Reconciler.Api.{
  Cluster, World, M, failed, stop, timed_out, has_reason, get_object, create_object, rerun,
  RetriesOnConflict,
}
use orchestration_service.Reconciler.Deploy.{deploy}
use orchestration_service.Reconciler.Desired.{
  is_reserved, build_resource_requirements, platform_port_env,
}
use orchestration_service.Reconciler.Environment.{
  IsDistinct, env_names, find_env, platform_port_env-IsDistinct,
}
use orchestration_service.Reconciler.Namespaces.{ensure_namespace}
use orchestration_service.Reconciler.Registry.{
  registry_credentials_configured, ensure_registry_pull_secret,
}
use orchestration_service.Reconciler.Apply.{ensure_deployment, ensure_service, ensure_ingress}
use orchestration_service.Reconciler.Ownership.{Guarded, deploy-Guarded}
use orchestration_service.Reconciler.Outcome.{Applied, deploy-Applied}

abbrev bare : Cluster
bare = record {
  State = Unit;
  get = λ kind namespace name s. (failed (status not_found (codes "not found")), s);
  create = λ kind namespace object s. (none, s);
  update = λ kind namespace object s. (none, s);
  delete = λ kind namespace name s. (none, s);
  schedule = λ s. stop timed_out;
}

abbrev retry : M bare (Option GoError) → M bare (Option GoError)
retry = rerun bare 4

retry-law : RetriesOnConflict bare retry
retry-law = record { at = λ m w. (4, refl) }

abbrev valid : Text → Option GoError
valid t = none

abbrev start : World bare
start = record { state = tt; log = [] }

abbrev wanted : DeployRequest
wanted = record request {
  environment =
      record { name = codes "PORT"; value = codes "1" }
      ∷ record { name = codes "A"; value = codes "x" }
      ∷ record { name = codes "A"; value = codes "y" }
      ∷ [];
}

deploy-Guarded_example :
    Guarded shop.namespace
      (labels_for_request no_table request)
      (deploy bare retry no_table valid config request start).1.log
deploy-Guarded_example =
    deploy-Guarded bare retry retry-law no_table valid config request shop start
      target_for_request_run refl

deploy-Applied_example :
    Applied valid config request shop
      (labels_for_request no_table request)
      (deploy bare retry no_table valid config request start).1.log
unfolding deploy target_for_request sanitize_dns_label trim trim_space to_lower has_reason
    ensure_namespace ensure_registry_pull_secret ensure_deployment ensure_service ensure_ingress
    build_ingress_host get_object chain_any create_object registry_credentials_configured
    build_resource_requirements
deploy-Applied_example =
    deploy-Applied bare retry retry-law no_table valid config request shop start
      target_for_request_run refl

platform_port_env-IsDistinct_example :
    IsDistinct (env_names (platform_port_env wanted (pos 3000)))
    × ((n : Text)
        → find_env n (platform_port_env wanted (pos 3000))
          ≡ (if is_reserved n then some (decimal (pos 3000)) else find_env n wanted.environment))
platform_port_env-IsDistinct_example = platform_port_env-IsDistinct wanted (pos 3000)
