-- ===== src/Reconciler/Deploy.antt =====
-- `Deploy`: the five steps, in order, up to the first that fails.
use orchestration_service.Base.{ℕ, Option, none, some}
use orchestration_service.Text.{Text, codes}
use orchestration_service.Errors.{GoError, plain, wrapped}
use orchestration_service.Config.{Config}
use orchestration_service.Names.{
  DeploymentTarget, no_target, DeployRequest, target_for_request, labels_for_request,
}
use orchestration_service.Reconciler.Objects.{Labels}
use orchestration_service.Reconciler.Api.{Cluster, M, ◌>>=◌, pure, check, fail_with}
use orchestration_service.Reconciler.Registry.{Named, ensure_registry_pull_secret}
use orchestration_service.Reconciler.Namespaces.{ensure_namespace}
use orchestration_service.Reconciler.Apply.{ensure_deployment, ensure_service, ensure_ingress}

module _ (k : Cluster) (retry : M k (Option GoError) → M k (Option GoError)) (table : ℕ → ℕ)
    (parse_quantity : Text → Option GoError) where
  -- `if err := m; err != nil { return target, fmt.Errorf("<what>: %w", err) }`, and on.
  abbrev pub step : Text → M k (Option GoError) → M k (Option GoError) → M k (Option GoError)
  step what m next = check m (λ err. fail_with (wrapped what err)) next

  unfoldable pub with_secret :
      Config → DeployRequest → DeploymentTarget → Labels → Named → M k (Option GoError)
  with_secret cfg request target labels (name, some err) =
      fail_with (wrapped (codes "ensure registry pull secret: ") err)
  with_secret cfg request target labels (name, none) =
      step (codes "ensure deployment: ")
        (ensure_deployment k retry table parse_quantity cfg request target labels name)
        (step (codes "ensure service: ") (ensure_service k retry table target labels) (
          step (codes "ensure ingress: ") (ensure_ingress k retry table cfg target labels)
            (pure none)))

  -- The steps for a target.
  unfoldable pub deploy_to :
      Config → DeployRequest → DeploymentTarget → Labels → M k (Option GoError)
  unfolding with_secret
  deploy_to cfg request target labels =
      step (codes "ensure namespace: ") (ensure_namespace k target.namespace labels) (
        ensure_registry_pull_secret k retry cfg target.namespace
        >>= with_secret cfg request target labels)

  unfoldable pub with_target :
      Config → DeployRequest → Option DeploymentTarget → M k (DeploymentTarget × Option GoError)
  unfolding deploy_to
  with_target cfg request none =
      pure (no_target, some (plain (codes "missing PLATFORM_BASE_DOMAIN")))
  with_target cfg request (some target) =
      deploy_to cfg request target (labels_for_request table request) >>= λ e. pure (target, e)

  unfoldable pub deploy : Config → DeployRequest → M k (DeploymentTarget × Option GoError)
  unfolding with_target
  deploy cfg request = with_target cfg request (target_for_request table cfg request)
