-- ===== src/Reconciler/Steps.antt =====
-- Which predicates on the log the steps of `Deploy` keep: those that calls of their kind in the namespace
-- of the target keep.
use orchestration_service.Base.{ℕ, Bool, true, false, Option, none, some}
use orchestration_service.Text.{Text}
use orchestration_service.Json.{Json}
use orchestration_service.Errors.{GoError}
use orchestration_service.Config.{Config}
use orchestration_service.Names.{DeploymentTarget, DeployRequest}
use orchestration_service.Reconciler.Objects.{
  secrets, deployments, services, ingresses, Labels, ResourceRequirements, SecretObject,
  DeploymentObject, ServiceObject, IngressObject,
}
use orchestration_service.Reconciler.Api.{
  Cluster, M, Reply, found, failed, Schedule, stop, tick, get_object, RetriesOnConflict,
}
use orchestration_service.Reconciler.Desired.{
  Result, ok, err, desired_deployment, desired_service, desired_ingress,
}
use orchestration_service.Reconciler.Registry.{
  write_latest, update_secret, write_secret, with_credentials, ensure_registry_pull_secret,
}
use orchestration_service.Reconciler.Apply.{
  after_look, wait_deleted, read_schedule, recreate_deployment, after_update,
  over_latest_deployment, update_deployment, write_deployment, apply_deployment, with_resources,
  ensure_deployment, over_latest_service, update_service, write_service, ensure_service,
  over_latest_ingress, update_ingress, write_ingress, ensure_ingress,
}
use orchestration_service.Reconciler.Triples.{On}
use orchestration_service.Reconciler.Frames.{Allows, Keeps, frame_rules, Keeps-bind, get-Keeps}

module _ (k : Cluster) (Q : On) (retry : M k (Option GoError) → M k (Option GoError))
    (law : RetriesOnConflict k retry) (table : ℕ → ℕ) (namespace : Text) where
  module _ (allows : Allows Q secrets namespace) where
    write_latest-Keeps :
        (payload : Json) (r : Reply SecretObject)
        → Keeps Q (write_latest k retry namespace payload r)
    unfolding write_latest
    write_latest-Keeps payload (found s) = search (frame_rules, allows)
    write_latest-Keeps payload (failed e) = search frame_rules

    update_secret-Keeps :
        (name : Text) (payload : Json) → Keeps Q (update_secret k retry namespace name payload)
    unfolding update_secret
    update_secret-Keeps name payload = search (frame_rules, allows, write_latest-Keeps)

    write_secret-Keeps :
        (name : Text) (payload : Json) (r : Reply SecretObject)
        → Keeps Q (write_secret k retry namespace name payload r)
    unfolding write_secret
    write_secret-Keeps name payload (found s) = search (frame_rules, law, update_secret-Keeps)
    write_secret-Keeps name payload (failed e) = search (frame_rules, allows)

    with_credentials-Keeps :
        (cfg : Config) (r : Result Bool) → Keeps Q (with_credentials k retry cfg namespace r)
    unfolding with_credentials
    with_credentials-Keeps cfg (err e) = search frame_rules
    with_credentials-Keeps cfg (ok false) = search frame_rules
    with_credentials-Keeps cfg (ok true) = search (frame_rules, allows, write_secret-Keeps)

    pub ensure_registry_pull_secret-Keeps :
        (cfg : Config) → Keeps Q (ensure_registry_pull_secret k retry cfg namespace)
    unfolding ensure_registry_pull_secret
    ensure_registry_pull_secret-Keeps cfg = search (frame_rules, with_credentials-Keeps)

  module _ (allows : Allows Q deployments namespace) where
    after_look-Keeps :
        (name : Text) (next : M k (Option GoError)) (r : Reply DeploymentObject)
        → Keeps Q next
        → Keeps Q (after_look k retry table name next r)
    unfolding after_look
    after_look-Keeps name next (found d) t = t
    after_look-Keeps name next (failed e) t = search frame_rules

    wait_deleted-Keeps :
        (name : Text) (s : Schedule) → Keeps Q (wait_deleted k retry table namespace name s)
    unfolding wait_deleted
    wait_deleted-Keeps name (stop s) = search (frame_rules, allows, after_look-Keeps)
    wait_deleted-Keeps name (tick s) =
        let next = wait_deleted k retry table namespace name s in
        Keeps-bind k Q (get_object k deployments namespace name)
          (after_look k retry table name next) (get-Keeps k Q deployments namespace allows name)
          λ r. after_look-Keeps name next r (wait_deleted-Keeps name s)

    read_schedule-Keeps : Keeps Q (read_schedule k retry table)
    read_schedule-Keeps = record { at = λ w q. q }

    pub recreate_deployment-Keeps :
        (name : Text) (d : DeploymentObject)
        → Keeps Q (recreate_deployment k retry table namespace name d)
    unfolding recreate_deployment
    recreate_deployment-Keeps name d =
        search (frame_rules, allows, wait_deleted-Keeps, read_schedule-Keeps) depth 8

    after_update-Keeps :
        (name : Text) (d : DeploymentObject) (e : Option GoError)
        → Keeps Q (after_update k retry table namespace name d e)
    unfolding after_update
    after_update-Keeps name d none = search frame_rules
    after_update-Keeps name d (some e) = search (frame_rules, recreate_deployment-Keeps)

    over_latest_deployment-Keeps :
        (name : Text) (d : DeploymentObject) (r : Reply DeploymentObject)
        → Keeps Q (over_latest_deployment k retry table namespace name d r)
    unfolding over_latest_deployment
    over_latest_deployment-Keeps name d (failed e) = search frame_rules
    over_latest_deployment-Keeps name d (found l) = search (frame_rules, allows, after_update-Keeps)

    update_deployment-Keeps :
        (name : Text) (d : DeploymentObject)
        → Keeps Q (update_deployment k retry table namespace name d)
    unfolding update_deployment
    update_deployment-Keeps name d = search (frame_rules, allows, over_latest_deployment-Keeps)

    write_deployment-Keeps :
        (name : Text) (d : DeploymentObject) (r : Reply DeploymentObject)
        → Keeps Q (write_deployment k retry table namespace name d r)
    unfolding write_deployment
    write_deployment-Keeps name d (found l) =
        search (frame_rules, law, update_deployment-Keeps, recreate_deployment-Keeps)
    write_deployment-Keeps name d (failed e) = search (frame_rules, allows)

    pub apply_deployment-Keeps :
        (name : Text) (d : DeploymentObject)
        → Keeps Q (apply_deployment k retry table namespace name d)
    unfolding apply_deployment
    apply_deployment-Keeps name d = search (frame_rules, allows, write_deployment-Keeps)

  module _ (allows : Allows Q services namespace) where
    over_latest_service-Keeps :
        (d : ServiceObject) (r : Reply ServiceObject)
        → Keeps Q (over_latest_service k retry table namespace d r)
    unfolding over_latest_service
    over_latest_service-Keeps d (failed e) = search frame_rules
    over_latest_service-Keeps d (found l) = search (frame_rules, allows)

    update_service-Keeps :
        (name : Text) (d : ServiceObject) → Keeps Q (update_service k retry table namespace name d)
    unfolding update_service
    update_service-Keeps name d = search (frame_rules, allows, over_latest_service-Keeps)

    pub write_service-Keeps :
        (name : Text) (d : ServiceObject) (r : Reply ServiceObject)
        → Keeps Q (write_service k retry table namespace name d r)
    unfolding write_service
    write_service-Keeps name d (found l) = search (frame_rules, law, update_service-Keeps)
    write_service-Keeps name d (failed e) = search (frame_rules, allows)

  module _ (allows : Allows Q ingresses namespace) where
    over_latest_ingress-Keeps :
        (d : IngressObject) (r : Reply IngressObject)
        → Keeps Q (over_latest_ingress k retry table namespace d r)
    unfolding over_latest_ingress
    over_latest_ingress-Keeps d (failed e) = search frame_rules
    over_latest_ingress-Keeps d (found l) = search (frame_rules, allows)

    update_ingress-Keeps :
        (name : Text) (d : IngressObject) → Keeps Q (update_ingress k retry table namespace name d)
    unfolding update_ingress
    update_ingress-Keeps name d = search (frame_rules, allows, over_latest_ingress-Keeps)

    pub write_ingress-Keeps :
        (name : Text) (d : IngressObject) (r : Reply IngressObject)
        → Keeps Q (write_ingress k retry table namespace name d r)
    unfolding write_ingress
    write_ingress-Keeps name d (found l) = search (frame_rules, law, update_ingress-Keeps)
    write_ingress-Keeps name d (failed e) = search (frame_rules, allows)

module _ (k : Cluster) (Q : On) (retry : M k (Option GoError) → M k (Option GoError))
    (law : RetriesOnConflict k retry) (table : ℕ → ℕ) (target : DeploymentTarget) where
  with_resources-Keeps :
      (cfg : Config) (request : DeployRequest) (labels : Labels) (secret : Text)
      (r : Result ResourceRequirements)
      → Allows Q deployments target.namespace
      → Keeps Q (with_resources k retry table cfg request target labels secret r)
  unfolding with_resources
  with_resources-Keeps cfg request labels secret (err e) a = search frame_rules
  with_resources-Keeps cfg request labels secret (ok r) a =
      apply_deployment-Keeps k Q retry law table target.namespace a target.deployment_name
        (desired_deployment cfg request target labels secret r)

  pub ensure_deployment-Keeps :
      (parse_quantity : Text → Option GoError) (cfg : Config) (request : DeployRequest)
      (labels : Labels) (secret : Text)
      → Allows Q deployments target.namespace
      → Keeps Q (ensure_deployment k retry table parse_quantity cfg request target labels secret)
  unfolding ensure_deployment
  ensure_deployment-Keeps parse_quantity cfg request labels secret a =
      with_resources-Keeps cfg request labels secret _ a

  pub ensure_service-Keeps :
      (labels : Labels)
      → Allows Q services target.namespace
      → Keeps Q (ensure_service k retry table target labels)
  unfolding ensure_service
  ensure_service-Keeps labels a =
      Keeps-bind k Q _ _ (get-Keeps k Q services target.namespace a target.service_name) λ r.
        write_service-Keeps k Q retry law table target.namespace a target.service_name
          (desired_service target labels) r

  pub ensure_ingress-Keeps :
      (cfg : Config) (labels : Labels)
      → Allows Q ingresses target.namespace
      → Keeps Q (ensure_ingress k retry table cfg target labels)
  unfolding ensure_ingress
  ensure_ingress-Keeps cfg labels a =
      Keeps-bind k Q _ _ (get-Keeps k Q ingresses target.namespace a target.ingress_name) λ r.
        write_ingress-Keeps k Q retry law table target.namespace a target.ingress_name
          (desired_ingress cfg target labels) r
