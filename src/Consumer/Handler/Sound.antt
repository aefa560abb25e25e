-- ===== src/Consumer/Handler/Sound.antt =====
-- The outcomes of the handler.
use orchestration_service.Base.{◌≡◌, ◌≢◌, refl, Bool, true, false, Option, none, some}
use orchestration_service.Json.{Json}
use orchestration_service.Text.{Text}
use orchestration_service.Errors.{GoError}
use orchestration_service.Names.{DeploymentTarget, DeployRequest}
use orchestration_service.Ledger.{
  ClaimReply, claimed, refused, claim_acquired, claim_completed, claim_busy, claim_failed,
}
use orchestration_service.Events.Wire.{decode_event}
use orchestration_service.Events.Stored.{decode_result, DeployResultEvents}
use orchestration_service.Consumer.World.{
  Environment, Consumer, M, DeployReply, applied, rejected, Context,
}
use orchestration_service.Consumer.Outcomes.{Yields, yields_rules, Yields-if}
use orchestration_service.Consumer.Publishing.{
  Outcome, action_ack, action_nack_drop, action_nack_requeue, with_renewal,
}
use orchestration_service.Consumer.Handler.{
  BuildEvent, publish_rollout_success, complete_failure, publish_bundle, with_bundle,
  publish_stored, announce_pending, grace_check, after_wait, await_rollout, after_deploy,
  deploy_and_wait, orchestrate, on_claim, take_stage, with_target, with_event, handle_event,
  handle_message,
}

-- Nothing is both acknowledged and asked for again, and what is not acknowledged carries an error.
pub record IsSound (o : Outcome) : Type 0 where
  pub exclusive : o.0.requeue ≡ true → o.0.ack ≡ false
  pub explained : o.0.ack ≡ false → o.1 ≢ none

IsSound-ack : (e : Option GoError) → IsSound (action_ack, e)
IsSound-ack e = record { exclusive = λ h. cc; explained = λ h. cc }

IsSound-drop : (e : GoError) → IsSound (action_nack_drop, some e)
IsSound-drop e = record { exclusive = λ h. refl; explained = λ h k. cc }

IsSound-requeue : (e : GoError) → IsSound (action_nack_requeue, some e)
IsSound-requeue e = record { exclusive = λ h. refl; explained = λ h k. cc }

ruleset sound_rules = (yields_rules, IsSound-ack, IsSound-drop, IsSound-requeue)

module _ (env : Environment) (c : Consumer) where
  success-IsSound :
      (event : BuildEvent) (target : DeploymentTarget) (ctx : Context)
      → Yields IsSound (publish_rollout_success env c event target ctx)
  unfolding publish_rollout_success
  success-IsSound event target ctx = search sound_rules depth 8

  failure-IsSound :
      (event : BuildEvent) (target : DeploymentTarget) (err : GoError)
      → Yields IsSound (complete_failure env c event target err)
  unfolding complete_failure
  failure-IsSound event target err = search sound_rules depth 8

  publish_bundle-IsSound :
      (sk pk : Text) (s p : Option Json) → Yields IsSound (publish_bundle env c sk pk s p)
  unfolding publish_bundle
  publish_bundle-IsSound sk pk none p = search sound_rules
  publish_bundle-IsSound sk pk (some s) none = search sound_rules
  publish_bundle-IsSound sk pk (some s) (some p) = search sound_rules

  with_bundle-IsSound : (b : Option DeployResultEvents) → Yields IsSound (with_bundle env c b)
  unfolding with_bundle
  with_bundle-IsSound none = search sound_rules
  with_bundle-IsSound (some b) = publish_bundle-IsSound _ _ b.service_event b.progress_event

  publish_stored-IsSound : (raw : Option Json) → Yields IsSound (publish_stored env c raw)
  unfolding publish_stored
  publish_stored-IsSound raw = with_bundle-IsSound (decode_result raw)

  announce_pending-IsSound :
      (event : BuildEvent) (target : DeploymentTarget) (err : GoError)
      → Yields IsSound (announce_pending env c event target err)
  unfolding announce_pending
  announce_pending-IsSound event target err = search sound_rules

  grace_check-IsSound :
      (event : BuildEvent) (target : DeploymentTarget) (err : GoError)
      → Yields IsSound (grace_check env c event target err)
  unfolding grace_check
  grace_check-IsSound event target err =
      search (sound_rules, success-IsSound, announce_pending-IsSound)

  after_wait-IsSound :
      (event : BuildEvent) (target : DeploymentTarget) (expired : Bool) (err : Option GoError)
      → Yields IsSound (after_wait env c event target expired err)
  unfolding after_wait
  after_wait-IsSound event target expired none = success-IsSound event target _
  after_wait-IsSound event target expired (some err) =
      search (sound_rules, failure-IsSound, grace_check-IsSound)

  after_deploy-IsSound :
      (event : BuildEvent) (target : DeploymentTarget) (reply : DeployReply)
      → Yields IsSound (after_deploy env c event target reply)
  unfolding after_deploy await_rollout
  after_deploy-IsSound event target (rejected err) = search (sound_rules, failure-IsSound)
  after_deploy-IsSound event target (applied t) = search (sound_rules, after_wait-IsSound)

  with_renewal-IsSound : (m : M Outcome) → Yields IsSound m → Yields IsSound (with_renewal c m)
  unfolding with_renewal
  with_renewal-IsSound m k = Yields-if IsSound c.has_ledger _ m (record { at = λ w. k.at _ }) k

  orchestrate-IsSound :
      (event : BuildEvent) (request : DeployRequest) (target : DeploymentTarget)
      → Yields IsSound (orchestrate env c event request target)
  unfolding orchestrate deploy_and_wait
  orchestrate-IsSound event request target =
      search (sound_rules, with_renewal-IsSound, after_deploy-IsSound)

  on_claim-IsSound :
      (event : BuildEvent) (request : DeployRequest) (target : DeploymentTarget)
      (reply : ClaimReply)
      → Yields IsSound (on_claim env c event request target reply)
  unfolding on_claim
  on_claim-IsSound event request target (refused err) = search sound_rules
  on_claim-IsSound event request target (claimed claim_completed r) =
      publish_stored-IsSound r.result_json
  on_claim-IsSound event request target (claimed claim_failed r) =
      publish_stored-IsSound r.result_json
  on_claim-IsSound event request target (claimed claim_busy r) = search sound_rules
  on_claim-IsSound event request target (claimed claim_acquired r) =
      orchestrate-IsSound event request target

  with_target-IsSound :
      (event : BuildEvent) (request : DeployRequest) (t : Option DeploymentTarget)
      → Yields IsSound (with_target env c event request t)
  unfolding with_target take_stage
  with_target-IsSound event request none = search sound_rules
  with_target-IsSound event request (some t) =
      search (sound_rules, on_claim-IsSound, orchestrate-IsSound)

  with_event-IsSound : (e : Option BuildEvent) → Yields IsSound (with_event env c e)
  unfolding with_event handle_event
  with_event-IsSound none = search sound_rules
  with_event-IsSound (some event) = search (sound_rules, with_target-IsSound)

  -- Whatever the message and the world, the outcome of the handler is sound: it never asks for an
  -- acknowledgement and a requeue at once, and it carries an error unless it acknowledges.
  pub handle_message-IsSound : (body : Option Json) → Yields IsSound (handle_message env c body)
  unfolding handle_message
  handle_message-IsSound body = with_event-IsSound (decode_event body)
