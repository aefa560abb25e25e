-- ===== src/Reconciler/Apply.antt =====
-- `ensureDeployment` with `recreateDeployment`, `ensureService` and `ensureIngress`. The source writes the
-- resource version of the object that it read into the object that it asks for, in place: an object that
-- is created again after a refused update carries that version.
use orchestration_service.Base.{
  ℕ, Bool, true, false, ◌&&◌, ◌||◌, ◌==◌, ◌++◌, Option, none, some, [], ◌∷◌, if◌then◌else◌,
}
use orchestration_service.Text.{Text, codes, is_empty, to_lower}
use orchestration_service.Errors.{GoError, plain, wrapped, error_text, not_found, invalid}
use orchestration_service.Config.{Config}
use orchestration_service.Names.{DeploymentTarget, DeployRequest}
use orchestration_service.Reconciler.Objects.{
  Labels, maps_equal, ResourceRequirements, DeploymentObject, ServiceObject, IngressObject,
  deployments, services, ingresses,
}
use orchestration_service.Reconciler.Api.{
  Cluster, M, Reply, found, failed, has_reason, Stop, context_done, timed_out, Schedule, stop, tick,
  ◌>>=◌, pure, check, fail_with, get_object, create_object, update_object, delete_object,
}
use orchestration_service.Reconciler.Desired.{
  Result, ok, err, build_resource_requirements, desired_deployment, desired_service,
  desired_ingress,
}

unfoldable pub starts_with : Text → Text → Bool
starts_with [] s = true
starts_with (c ∷ p) [] = false
starts_with (c ∷ p) (d ∷ s) = c == d && starts_with p s

-- `strings.Contains(s, part)`.
unfoldable pub contains : Text → Text → Bool
unfolding starts_with
contains part [] = is_empty part
contains part (c ∷ s) = starts_with part (c ∷ s) || contains part s

abbrev pub match_labels : Option Labels → Labels
match_labels none = []
match_labels (some m) = m

module _ (k : Cluster) (retry : M k (Option GoError) → M k (Option GoError)) (table : ℕ → ℕ) where
  abbrev pub stop_error : Text → Stop → GoError
  stop_error name (context_done e) = e
  stop_error name timed_out =
      plain (codes "timed out waiting for deployment " ++ (name ++ codes " deletion"))

  -- A look of the wait: the deployment is gone, or there is an error, or the wait goes on.
  unfoldable pub after_look :
      Text → M k (Option GoError) → Reply DeploymentObject → M k (Option GoError)
  after_look name next (found d) = next
  after_look name next (failed e) =
      if has_reason not_found e
      then pure none
      else fail_with (wrapped (codes "wait for deployment " ++ (name ++ codes " deletion: ")) e)

  unfoldable pub wait_deleted : Text → Text → Schedule → M k (Option GoError)
  unfolding after_look
  wait_deleted namespace name (stop s) =
      get_object k deployments namespace name >>= after_look name (fail_with (stop_error name s))
  wait_deleted namespace name (tick rest) =
      let next = wait_deleted namespace name rest in
      get_object k deployments namespace name >>= after_look name next

  abbrev pub unless_missing : Option GoError → Option GoError
  unless_missing none = none
  unless_missing (some e) = if has_reason not_found e then none else some e

  abbrev pub read_schedule : M k Schedule
  read_schedule w = (k.schedule w.state, w)

  unfoldable pub recreate_deployment : Text → Text → DeploymentObject → M k (Option GoError)
  unfolding wait_deleted
  recreate_deployment namespace name desired =
      check (delete_object k deployments namespace name >>= λ e. pure (unless_missing e))
        (λ e.
          fail_with
            (wrapped (codes "delete deployment " ++ (name ++ codes " for selector change: ")) e))
        (read_schedule >>= λ rounds.
          check (wait_deleted namespace name rounds) fail_with
            (create_object k deployments namespace desired))

  -- `apierrors.IsInvalid(err) && strings.Contains(strings.ToLower(err.Error()), "selector")`.
  abbrev pub refuses_selector : GoError → Bool
  refuses_selector e =
      has_reason invalid e && contains (codes "selector") (to_lower table (error_text e))

  unfoldable pub after_update :
      Text → Text → DeploymentObject → Option GoError → M k (Option GoError)
  unfolding recreate_deployment contains
  after_update namespace name desired none = pure none
  after_update namespace name desired (some e) =
      if refuses_selector e then recreate_deployment namespace name desired else fail_with e

  unfoldable pub over_latest_deployment :
      Text → Text → DeploymentObject → Reply DeploymentObject → M k (Option GoError)
  unfolding after_update
  over_latest_deployment namespace name desired (failed e) = fail_with e
  over_latest_deployment namespace name desired (found latest) =
      let next = record desired { resource_version = latest.resource_version } in
      update_object k deployments namespace next >>= after_update namespace name next

  unfoldable pub update_deployment : Text → Text → DeploymentObject → M k (Option GoError)
  unfolding over_latest_deployment
  update_deployment namespace name desired =
      get_object k deployments namespace name >>= over_latest_deployment namespace name desired

  unfoldable pub write_deployment :
      Text → Text → DeploymentObject → Reply DeploymentObject → M k (Option GoError)
  unfolding update_deployment recreate_deployment
  write_deployment namespace name desired (found existing) =
      if maps_equal (match_labels existing.selector) (match_labels desired.selector)
      then retry (update_deployment namespace name desired)
      else recreate_deployment namespace name desired
  write_deployment namespace name desired (failed e) =
      if has_reason not_found e then create_object k deployments namespace desired else fail_with e

  unfoldable pub apply_deployment : Text → Text → DeploymentObject → M k (Option GoError)
  unfolding write_deployment
  apply_deployment namespace name desired =
      get_object k deployments namespace name >>= write_deployment namespace name desired

  unfoldable pub with_resources :
      Config
      → DeployRequest
      → DeploymentTarget
      → Labels
      → Text
      → Result ResourceRequirements
      → M k (Option GoError)
  unfolding apply_deployment
  with_resources cfg request target labels secret (err e) = fail_with e
  with_resources cfg request target labels secret (ok resources) =
      apply_deployment target.namespace target.deployment_name
        (desired_deployment cfg request target labels secret resources)

  -- `parse_quantity` is the error of `resource.ParseQuantity`.
  unfoldable pub ensure_deployment :
      (Text → Option GoError)
      → Config
      → DeployRequest
      → DeploymentTarget
      → Labels
      → Text
      → M k (Option GoError)
  unfolding with_resources
  ensure_deployment parse_quantity cfg request target labels secret =
      with_resources cfg request target labels secret
        (build_resource_requirements parse_quantity cfg.resource_defaults)

  unfoldable pub over_latest_service :
      Text → ServiceObject → Reply ServiceObject → M k (Option GoError)
  over_latest_service namespace desired (failed e) = fail_with e
  over_latest_service namespace desired (found latest) =
      update_object k services namespace
        (record desired { resource_version = latest.resource_version; address = latest.address })

  unfoldable pub update_service : Text → Text → ServiceObject → M k (Option GoError)
  unfolding over_latest_service
  update_service namespace name desired =
      get_object k services namespace name >>= over_latest_service namespace desired

  unfoldable pub write_service :
      Text → Text → ServiceObject → Reply ServiceObject → M k (Option GoError)
  unfolding update_service
  write_service namespace name desired (found current) =
      retry (update_service namespace name desired)
  write_service namespace name desired (failed e) =
      if has_reason not_found e then create_object k services namespace desired else fail_with e

  unfoldable pub ensure_service : DeploymentTarget → Labels → M k (Option GoError)
  unfolding write_service
  ensure_service target labels =
      get_object k services target.namespace target.service_name
      >>= write_service target.namespace target.service_name (desired_service target labels)

  unfoldable pub over_latest_ingress :
      Text → IngressObject → Reply IngressObject → M k (Option GoError)
  over_latest_ingress namespace desired (failed e) = fail_with e
  over_latest_ingress namespace desired (found latest) =
      update_object k ingresses namespace
        (record desired { resource_version = latest.resource_version })

  unfoldable pub update_ingress : Text → Text → IngressObject → M k (Option GoError)
  unfolding over_latest_ingress
  update_ingress namespace name desired =
      get_object k ingresses namespace name >>= over_latest_ingress namespace desired

  unfoldable pub write_ingress :
      Text → Text → IngressObject → Reply IngressObject → M k (Option GoError)
  unfolding update_ingress
  write_ingress namespace name desired (found current) =
      retry (update_ingress namespace name desired)
  write_ingress namespace name desired (failed e) =
      if has_reason not_found e then create_object k ingresses namespace desired else fail_with e

  unfoldable pub ensure_ingress : Config → DeploymentTarget → Labels → M k (Option GoError)
  unfolding write_ingress
  ensure_ingress cfg target labels =
      get_object k ingresses target.namespace target.ingress_name
      >>= write_ingress target.namespace target.ingress_name (desired_ingress cfg target labels)
