-- ===== src/Reconciler/PullSecret.antt =====
-- The name that `ensureRegistryPullSecret` returns.
use orchestration_service.Base.{◌≡◌, refl, Bool, true, false, Option, none, [], if◌then◌else◌}
use orchestration_service.Text.{Text, is_empty}
use orchestration_service.Json.{Json}
use orchestration_service.Errors.{GoError, not_found}
use orchestration_service.Config.{Config}
use orchestration_service.Reconciler.Objects.{SecretObject}
use orchestration_service.Reconciler.Api.{Cluster, M, Reply, found, failed, has_reason, pure}
use orchestration_service.Reconciler.Desired.{Result, ok, err}
use orchestration_service.Reconciler.Registry.{
  Named, registry_credentials_configured, write_secret, with_credentials,
  ensure_registry_pull_secret, docker_config_json,
}
use orchestration_service.Reconciler.Triples.{On, Triple, Triple-bind, Triple-if}
use orchestration_service.Reconciler.Writes.{Anything}

abbrev if_configured : Text → Result Bool → Text
if_configured name (err e) = []
if_configured name (ok false) = []
if_configured name (ok true) = name

-- The pull secret that the pods are given: the one of the configuration, if it comes with credentials.
abbrev pub used_secret : Config → Text
used_secret cfg =
    if is_empty cfg.image_pull_secret_name
    then []
    else if_configured cfg.image_pull_secret_name (registry_credentials_configured cfg.registry)

module _ (k : Cluster) (retry : M k (Option GoError) → M k (Option GoError)) (cfg : Config) where
  -- If there is no error, the name is `name`.
  abbrev pub Names : Text → Named → On
  Names name n log = n.1 ≡ none → n.0 ≡ name

  write_secret-Names :
      (namespace name : Text) (payload : Json) (r : Reply SecretObject)
      → Triple Anything (write_secret k retry namespace name payload r) (Names name)
  unfolding write_secret
  write_secret-Names namespace name payload (found o) = record { at = λ w q p. refl }
  write_secret-Names namespace name payload (failed e) =
      Triple-if Anything (Names name) (has_reason not_found e) _ _
        (λ _. record { at = λ w q p. refl }) λ _. record { at = λ w q p. cc }

  with_credentials-Names :
      (namespace : Text) (r : Result Bool)
      → Triple Anything
          (with_credentials k retry cfg namespace r)
          (Names (if_configured cfg.image_pull_secret_name r))
  unfolding with_credentials
  with_credentials-Names namespace (err e) = record { at = λ w q p. refl }
  with_credentials-Names namespace (ok false) = record { at = λ w q p. refl }
  with_credentials-Names namespace (ok true) =
      Triple-bind Anything (λ _. Anything) (Names cfg.image_pull_secret_name) _ _
        (record { at = λ w q. tt })
        (write_secret-Names namespace cfg.image_pull_secret_name (docker_config_json cfg.registry))

  unless_blank-Names :
      (namespace : Text) (blank : Bool)
      → Triple Anything
          (if blank
            then pure ([], none)
            else with_credentials k retry cfg namespace
                (registry_credentials_configured cfg.registry))
          (Names (
            if blank
            then []
            else if_configured cfg.image_pull_secret_name
                (registry_credentials_configured cfg.registry)))
  unless_blank-Names namespace true = record { at = λ w q p. refl }
  unless_blank-Names namespace false = with_credentials-Names namespace _

  pub ensure_registry_pull_secret-Names :
      (namespace : Text)
      → Triple Anything
          (ensure_registry_pull_secret k retry cfg namespace)
          (Names (used_secret cfg))
  unfolding ensure_registry_pull_secret
  ensure_registry_pull_secret-Names namespace =
      unless_blank-Names namespace (is_empty cfg.image_pull_secret_name)
