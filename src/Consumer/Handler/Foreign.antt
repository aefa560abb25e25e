-- ===== src/Consumer/Handler/Foreign.antt =====
-- The handler on a `Deploy` of the reconciler into a namespace of another owner.
use orchestration_service.Base.{
  ◌≡◌, refl, ap, ◌∙◌, Bool, false, Option, none, some, if◌then◌else◌, [],
}
use orchestration_service.Text.{Text}
use orchestration_service.Errors.{GoError, is_retriable_deploy_error, chain_any}
use orchestration_service.Names.{
  DeploymentTarget, DeployRequest, target_for_request, labels_for_request,
}
use orchestration_service.Reconciler.Objects.{namespaces, NamespaceObject}
use orchestration_service.Reconciler.Api.{Cluster, found}
use orchestration_service.Reconciler.Api
use orchestration_service.Reconciler.Namespaces.{owns}
use orchestration_service.Reconciler.Deploy.{deploy}
use orchestration_service.Reconciler.Refusal.{refusal, deploy-foreign}
use orchestration_service.Consumer.World.{
  Environment, Consumer, World, DeployReply, applied, rejected, call_deploy,
}
use orchestration_service.Consumer.Handler.{
  BuildEvent, requeue_with, complete_failure, after_deploy, deploy_and_wait,
}

-- What a `Deploy` of the reconciler answers to the handler.
abbrev pub as_reply : DeploymentTarget × Option GoError → DeployReply
as_reply (t, none) = applied t
as_reply (t, some e) = rejected e

module _ (env : Environment) (c : Consumer) (event : BuildEvent) (target : DeploymentTarget) where
  after_deploy-rejected :
      (reply : DeployReply) (e : GoError) (w : World)
      → reply ≡ rejected e
      → is_retriable_deploy_error e ≡ false
      → after_deploy env c event target reply w ≡ complete_failure env c event target e w
  unfolding after_deploy
  after_deploy-rejected reply e w h r =
      ap (λ a. after_deploy env c event target a w) h
      ∙ ap
          (λ (b : Bool).
            (if b
                then requeue_with "deploy resources: " e
                else complete_failure env c event target e)
              w)
          r

refusal-final : (t : DeploymentTarget) → is_retriable_deploy_error (refusal t) ≡ false
unfolding is_retriable_deploy_error chain_any
refusal-final t = refl

-- If the handler calls the reconciler, and the namespace of the target is read with other owner labels
-- than the request's, then the handler does what it does to complete the deployment as a failure with
-- the ownership error.
pub deploy_and_wait-foreign :
    (env : Environment) (c : Consumer) (event : BuildEvent) (request : DeployRequest)
    (target : DeploymentTarget) (w : World) (k : Cluster)
    (retry : Api.M k (Option GoError) → Api.M k (Option GoError))
    (parse_quantity : Text → Option GoError) (cluster : Api.World k) (o : NamespaceObject)
    → env.deploy_reply w.tick
      ≡ as_reply (deploy k retry env.lower_table parse_quantity c.cfg request cluster).0
    → target_for_request env.lower_table c.cfg request ≡ some target
    → owns (labels_for_request env.lower_table request) o.labels ≡ false
    → (k.get namespaces [] target.namespace cluster.state).0 ≡ found o
    → deploy_and_wait env c event request target w
      ≡ complete_failure env c event target (refusal target) (call_deploy env request w).1
unfolding deploy_and_wait call_deploy
deploy_and_wait-foreign env c event request target w k retry parse_quantity cluster o calls has h
      e =
    let (refused, made) =
      deploy-foreign k retry env.lower_table parse_quantity c.cfg request target o cluster has h
        e in
    after_deploy-rejected env c event target (env.deploy_reply w.tick) (refusal target)
      (call_deploy env request w).1 (calls ∙ ap as_reply refused) (refusal-final target)
