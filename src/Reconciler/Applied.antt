-- ===== src/Reconciler/Applied.antt =====
-- What the steps for the deployment, the service and the ingress leave when they return no error.
use orchestration_service.Base.{ℕ, ◌≡◌, refl, Option, none, some, ◌++◌}
use orchestration_service.Text.{Text, codes}
use orchestration_service.Errors.{GoError, wrapped, not_found}
use orchestration_service.Reconciler.Objects.{
  deployments, services, ingresses, DeploymentObject, ServiceObject, IngressObject,
}
use orchestration_service.Reconciler.Api.{
  Cluster, M, Reply, found, failed, has_reason, ◌>>=◌, pure, check, fail_with, create_object,
  delete_object, RetriesOnConflict,
}
use orchestration_service.Reconciler.Apply.{
  recreate_deployment, wait_deleted, read_schedule, unless_missing, after_update,
  over_latest_deployment, update_deployment, write_deployment, over_latest_service, update_service,
  write_service, over_latest_ingress, update_ingress, write_ingress,
}
use orchestration_service.Reconciler.Triples.{
  On, Triple, Triple-bind, Triple-pure, Triple-if, Triple-weaken,
}
use orchestration_service.Reconciler.Writes.{
  Anything, Ends, Wrote, fail_Ends, check-Ends, last_deployment, last_service, last_ingress,
  content, last_deployment-Tracks, last_service-Tracks, last_ingress-Tracks, create-Wrote,
  update-Wrote, after_read, create_if_Wrote, retry-Wrote,
}

module _ (k : Cluster) (retry : M k (Option GoError) → M k (Option GoError))
    (law : RetriesOnConflict k retry) (table : ℕ → ℕ) (namespace : Text) where
  module _ (d : ServiceObject) where
    over_latest_service-Wrote :
        (r : Reply ServiceObject)
        → Triple Anything
            (over_latest_service k retry table namespace d r)
            (Ends (Wrote services last_service d))
    unfolding over_latest_service
    over_latest_service-Wrote (failed e) = fail_Ends Anything (Wrote services last_service d) e
    over_latest_service-Wrote (found l) =
        update-Wrote k services last_service last_service-Tracks namespace d _ refl

    pub write_service-Wrote :
        (name : Text) (r : Reply ServiceObject)
        → Triple Anything
            (write_service k retry table namespace name d r)
            (Ends (Wrote services last_service d))
    unfolding write_service update_service
    write_service-Wrote name (found l) =
        retry-Wrote k services last_service last_service-Tracks namespace d retry _ law (
          after_read k services last_service last_service-Tracks namespace d name _
            over_latest_service-Wrote)
    write_service-Wrote name (failed e) =
        create_if_Wrote k services last_service last_service-Tracks namespace d
          (has_reason not_found e) e

  module _ (d : IngressObject) where
    over_latest_ingress-Wrote :
        (r : Reply IngressObject)
        → Triple Anything
            (over_latest_ingress k retry table namespace d r)
            (Ends (Wrote ingresses last_ingress d))
    unfolding over_latest_ingress
    over_latest_ingress-Wrote (failed e) = fail_Ends Anything (Wrote ingresses last_ingress d) e
    over_latest_ingress-Wrote (found l) =
        update-Wrote k ingresses last_ingress last_ingress-Tracks namespace d _ refl

    pub write_ingress-Wrote :
        (name : Text) (r : Reply IngressObject)
        → Triple Anything
            (write_ingress k retry table namespace name d r)
            (Ends (Wrote ingresses last_ingress d))
    unfolding write_ingress update_ingress
    write_ingress-Wrote name (found l) =
        retry-Wrote k ingresses last_ingress last_ingress-Tracks namespace d retry _ law (
          after_read k ingresses last_ingress last_ingress-Tracks namespace d name _
            over_latest_ingress-Wrote)
    write_ingress-Wrote name (failed e) =
        create_if_Wrote k ingresses last_ingress last_ingress-Tracks namespace d
          (has_reason not_found e) e

  module _ (d : DeploymentObject) where
    abbrev DeploymentIs : On
    DeploymentIs = Wrote deployments last_deployment d

    anything : {A : Type 0} (m : M k A) → Triple Anything m (λ _. Anything)
    anything m = record { at = λ w q. tt }

    recreate_deployment-Wrote :
        (name : Text) (n : DeploymentObject)
        → content deployments n ≡ content deployments d
        → Triple Anything (recreate_deployment k retry table namespace name n) (Ends DeploymentIs)
    unfolding recreate_deployment
    recreate_deployment-Wrote name n same =
        check-Ends Anything DeploymentIs
          (delete_object k deployments namespace name >>= λ e.
            pure (unless_missing k retry table e))
          (wrapped (codes "delete deployment " ++ (name ++ codes " for selector change: ")))
          (read_schedule k retry table >>= λ rounds.
            check (wait_deleted k retry table namespace name rounds) fail_with
              (create_object k deployments namespace n))
          Anything (record { at = λ w q p. tt })
          (Triple-bind Anything (λ _. Anything) (Ends DeploymentIs) (read_schedule k retry table) _
            (record { at = λ w q. tt })
            λ rounds.
              check-Ends Anything DeploymentIs (wait_deleted k retry table namespace name rounds)
                (λ e. e) _ Anything (record { at = λ w q p. tt })
                (create-Wrote k deployments last_deployment last_deployment-Tracks namespace d n
                  same))

    after_update-Wrote :
        (name : Text) (n : DeploymentObject) (e : Option GoError)
        → content deployments n ≡ content deployments d
        → Triple
            (Ends DeploymentIs e)
            (after_update k retry table namespace name n e)
            (Ends DeploymentIs)
    unfolding after_update
    after_update-Wrote name n none same =
        Triple-pure (Ends DeploymentIs none) (Ends DeploymentIs) none λ log q. q
    after_update-Wrote name n (some e) same =
        Triple-if (Ends DeploymentIs (some e)) (Ends DeploymentIs) _ _ _
          (λ _.
            Triple-weaken Anything _ (Ends DeploymentIs) _ _ (λ log q. tt) (λ a log u. u)
              (recreate_deployment-Wrote name n same))
          λ _. fail_Ends (Ends DeploymentIs (some e)) DeploymentIs e

    over_latest_deployment-Wrote :
        (name : Text) (r : Reply DeploymentObject)
        → Triple Anything
            (over_latest_deployment k retry table namespace name d r)
            (Ends DeploymentIs)
    unfolding over_latest_deployment
    over_latest_deployment-Wrote name (failed e) = fail_Ends Anything DeploymentIs e
    over_latest_deployment-Wrote name (found l) =
        Triple-bind Anything (Ends DeploymentIs) (Ends DeploymentIs) _ _
          (update-Wrote k deployments last_deployment last_deployment-Tracks namespace d _ refl)
          λ e. after_update-Wrote name (record d { resource_version = l.resource_version }) e refl

    pub write_deployment-Wrote :
        (name : Text) (r : Reply DeploymentObject)
        → Triple Anything (write_deployment k retry table namespace name d r) (Ends DeploymentIs)
    unfolding write_deployment update_deployment
    write_deployment-Wrote name (found l) =
        Triple-if Anything (Ends DeploymentIs) _ _ _
          (λ _.
            retry-Wrote k deployments last_deployment last_deployment-Tracks namespace d retry _ law
              (after_read k deployments last_deployment last_deployment-Tracks namespace d name _
                (over_latest_deployment-Wrote name)))
          λ _. recreate_deployment-Wrote name d refl
    write_deployment-Wrote name (failed e) =
        create_if_Wrote k deployments last_deployment last_deployment-Tracks namespace d
          (has_reason not_found e) e
