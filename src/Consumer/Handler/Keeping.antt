-- ===== src/Consumer/Handler/Keeping.antt =====
-- The handler keeps a predicate on the log, if its calls of the cluster, its progress events and the
-- three ways in which it settles a stage do.
use orchestration_service.Base.{Bool, Option, none, some}
use orchestration_service.Base.Int.{ℤ}
use orchestration_service.Text.{Text}
use orchestration_service.Json.{Json}
use orchestration_service.Errors.{GoError}
use orchestration_service.Names.{DeploymentTarget, DeployRequest}
use orchestration_service.Ledger.{
  ClaimReply, claimed, refused, claim_acquired, claim_completed, claim_busy, claim_failed,
}
use orchestration_service.Events.Wire.{decode_event}
use orchestration_service.Consumer.World.{
  World, Environment, Consumer, M, deployed, awaited, renewal_started, renewal_stopped, DeployReply,
  applied, rejected, Context,
}
use orchestration_service.Consumer.Rules.{
  Endures, Keeps, Allows, keeps_rules, Keeps-bind, Keeps-pure, Keeps-if, Keeps-effect,
  ledger_claim-Keeps, call_deploy-Keeps, call_rollout-Keeps,
}
use orchestration_service.Consumer.Publishing.{publish_progress_event, with_renewal}
use orchestration_service.Consumer.Handler.{
  BuildEvent, publish_rollout_success, complete_failure, publish_stored, announce_pending,
  grace_check, after_wait, with_target, with_event, await_rollout, after_deploy, deploy_and_wait,
  orchestrate, on_claim, take_stage, handle_event, handle_message,
}

pub record Steps (Q : World → Type 0) (env : Environment) (c : Consumer) (event : BuildEvent)
    : Type 0 where
  pub endures : Endures Q
  pub deploys : (r : DeployRequest) → Allows Q (deployed r)
  pub awaits : (t : DeploymentTarget) → Allows Q (awaited t)
  pub starts : (d : ℤ) → Allows Q (renewal_started d)
  pub stops : Allows Q renewal_stopped
  pub progress : (x k : Text) (j : Json) → Keeps Q (publish_progress_event env c x k j)
  pub success :
      (target : DeploymentTarget) (ctx : Context)
      → Keeps Q (publish_rollout_success env c event target ctx)
  pub failure :
      (target : DeploymentTarget) (err : GoError)
      → Keeps Q (complete_failure env c event target err)

module _ (Q : World → Type 0) (env : Environment) (c : Consumer) (event : BuildEvent)
    (steps : Steps Q env c event) where
  announce_pending-Keeps :
      (target : DeploymentTarget) (err : GoError)
      → Keeps Q (announce_pending env c event target err)
  unfolding announce_pending
  announce_pending-Keeps target err = search (keeps_rules, steps.progress)

  grace_check-Keeps :
      (target : DeploymentTarget) (err : GoError) → Keeps Q (grace_check env c event target err)
  unfolding grace_check
  grace_check-Keeps target err = search (
    keeps_rules, steps.success, announce_pending-Keeps, call_rollout-Keeps, steps.awaits,
    steps.endures,
  )

  after_wait-Keeps :
      (target : DeploymentTarget) (expired : Bool) (err : Option GoError)
      → Keeps Q (after_wait env c event target expired err)
  unfolding after_wait
  after_wait-Keeps target expired none = steps.success target _
  after_wait-Keeps target expired (some err) =
      search (keeps_rules, steps.failure, grace_check-Keeps)

  await_rollout-Keeps : (target : DeploymentTarget) → Keeps Q (await_rollout env c event target)
  unfolding await_rollout
  await_rollout-Keeps target =
      search (keeps_rules, call_rollout-Keeps, steps.awaits, steps.endures, after_wait-Keeps)

  after_deploy-Keeps :
      (target : DeploymentTarget) (reply : DeployReply)
      → Keeps Q (after_deploy env c event target reply)
  unfolding after_deploy
  after_deploy-Keeps target (rejected err) = search (keeps_rules, steps.failure)
  after_deploy-Keeps target (applied t) = search (keeps_rules, steps.progress, await_rollout-Keeps)

  deploy_and_wait-Keeps :
      (request : DeployRequest) (target : DeploymentTarget)
      → Keeps Q (deploy_and_wait env c event request target)
  unfolding deploy_and_wait
  deploy_and_wait-Keeps request target =
      search (keeps_rules, call_deploy-Keeps, steps.deploys, steps.endures, after_deploy-Keeps)

  with_renewal-Keeps : {A : Type 0} (m : M A) → Keeps Q m → Keeps Q (with_renewal c m)
  unfolding with_renewal
  with_renewal-Keeps m k =
      Keeps-if Q c.has_ledger _ m
        (Keeps-bind Q _ _ (Keeps-effect Q _ (steps.starts _)) λ _.
          Keeps-bind Q m _ k
            λ a. Keeps-bind Q _ _ (Keeps-effect Q _ steps.stops) λ _. Keeps-pure Q a)
        k

  -- From the started event on.
  pub orchestrate-Keeps :
      (request : DeployRequest) (target : DeploymentTarget)
      → Keeps Q (orchestrate env c event request target)
  unfolding orchestrate
  orchestrate-Keeps request target =
      search (keeps_rules, steps.progress, with_renewal-Keeps, deploy_and_wait-Keeps)

  module _ (stored : (raw : Option Json) → Keeps Q (publish_stored env c raw)) where
    on_claim-Keeps :
        (request : DeployRequest) (target : DeploymentTarget) (reply : ClaimReply)
        → Keeps Q (on_claim env c event request target reply)
    unfolding on_claim
    on_claim-Keeps request target (refused err) = search keeps_rules
    on_claim-Keeps request target (claimed claim_completed r) = stored r.result_json
    on_claim-Keeps request target (claimed claim_failed r) = stored r.result_json
    on_claim-Keeps request target (claimed claim_busy r) = search keeps_rules
    on_claim-Keeps request target (claimed claim_acquired r) = orchestrate-Keeps request target

    take_stage-Keeps :
        (request : DeployRequest) (target : DeploymentTarget)
        → Keeps Q (take_stage env c event request target)
    unfolding take_stage
    take_stage-Keeps request target =
        search (keeps_rules, steps.endures, ledger_claim-Keeps, on_claim-Keeps, orchestrate-Keeps)

    with_target-Keeps :
        (request : DeployRequest) (t : Option DeploymentTarget)
        → Keeps Q (with_target env c event request t)
    unfolding with_target
    with_target-Keeps request none = search keeps_rules
    with_target-Keeps request (some t) = search (keeps_rules, take_stage-Keeps)

module _ (Q : World → Type 0) (env : Environment) (c : Consumer)
    (steps : (event : BuildEvent) → Steps Q env c event)
    (stored : (raw : Option Json) → Keeps Q (publish_stored env c raw)) where
  handle_event-Keeps : (event : BuildEvent) → Keeps Q (handle_event env c event)
  unfolding handle_event
  handle_event-Keeps event =
      let rest = with_target-Keeps Q env c event (steps event) stored in search (keeps_rules, rest)

  with_event-Keeps : (e : Option BuildEvent) → Keeps Q (with_event env c e)
  unfolding with_event
  with_event-Keeps none = search keeps_rules
  with_event-Keeps (some event) = handle_event-Keeps event

  pub handle_message-Keeps : (body : Option Json) → Keeps Q (handle_message env c body)
  unfolding handle_message
  handle_message-Keeps body = with_event-Keeps (decode_event body)
