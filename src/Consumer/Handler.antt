-- ===== src/Consumer/Handler.antt =====
-- `handleMessage` and what it calls: a build event is checked, its stage claimed, its resources
-- applied, its rollout awaited, and the outcome persisted and published.
pub mod Keeping
pub mod Backing
pub mod Ordering
pub mod Quiet
pub mod Sound
pub mod Replay
pub mod Refusals
pub mod Grace
pub mod Written
pub mod Running
pub mod Lifecycle
pub mod Success
pub mod Foreign
mod Tests
use orchestration_service.Base.{
  Bool, true, false, ◌||◌, ◌&&◌, ◌++◌, Option, none, some, is_none, String, if◌then◌else◌,
}
use orchestration_service.Base.Int.{ℤ}
use orchestration_service.Text.{Text, codes, is_empty, trim_space, decimal}
use orchestration_service.Json.{Json}
use orchestration_service.Errors.{
  GoError, plain, wrapped, canceled, deadline_exceeded, lease_busy, error_text, chain_any,
  is_rollout_timeout, is_rollout_failed, is_deadline, is_retriable_deploy_error,
  is_transient_rollout_check_error,
}
use orchestration_service.Names.{
  DeploymentTarget, DeployRequest, deploy_request_from_event, target_for_request,
}
use orchestration_service.Ledger.{
  ClaimReply, claimed, refused, ClaimDisposition, claim_acquired, claim_completed, claim_busy,
  claim_failed,
}
use orchestration_service.Ledger.Calls.{completes, fails}
use orchestration_service.Events.Types.{ServiceEvent, BuildSucceededPayload}
use orchestration_service.Events.Build.{
  orchestration_stage, new_deploy_succeeded_event, new_deploy_failed_event,
  new_orchestration_started_event, new_orchestration_deployed_event,
  new_orchestration_running_event, new_orchestration_failed_event,
  new_orchestration_rollout_pending_event,
}
use orchestration_service.Events.Wire.{succeeded_json, failed_json, progress_json, decode_event}
use orchestration_service.Events.Stored.{
  DeployResultEvents, make_deploy_result_events, result_json, decode_result,
}
use orchestration_service.Consumer.World.{
  Environment, Consumer, M, ◌>>=◌, ◌>>◌, pure, check, Context, live, ended, ledger_claim,
  ledger_update, call_deploy, call_rollout, read_stamp, DeployReply, applied, rejected,
  RolloutReply,
}
use orchestration_service.Consumer.Publishing.{
  DeliveryAction, action_ack, action_nack_drop, action_nack_requeue, Outcome, publish_event,
  publish_progress_event, with_renewal,
}

abbrev pub BuildEvent : Type 0
BuildEvent = ServiceEvent BuildSucceededPayload

abbrev pub requeue_with : String → GoError → M Outcome
requeue_with prefix err = pure (action_nack_requeue, some (wrapped (codes prefix) err))

module _ (env : Environment) (c : Consumer) where
  -- `if c.ledger != nil { … }` around a ledger statement.
  persist : M (Option GoError) → M (Option GoError)
  persist m = if c.has_ledger then m else pure none

  -- `publishRolloutSuccess`, behind the making of its bundle.
  announce_success : BuildEvent → DeploymentTarget → Context → Json → Json → M Outcome
  announce_success event target ctx success progress =
      let bundle = result_json (
        make_deploy_result_events c.cfg.deploy_succeeded_routing_key success
          c.cfg.orchestration_running_routing_key progress) in
      check
        (persist (
          ledger_update env ctx (record {
            id = event.deployment_id;
            stage = orchestration_stage;
            verb = completes bundle;
          })))
        (requeue_with "persist orchestration result: ")
        (check
          (publish_event env c c.cfg.rabbitmq_exchange c.cfg.deploy_succeeded_routing_key success)
          (requeue_with "publish deploy succeeded event: ")
          (check
            (publish_progress_event env c c.cfg.deployment_exchange
              c.cfg.orchestration_running_routing_key progress)
            (requeue_with "publish orchestration running event: ") (pure (action_ack, none))))

  unfoldable pub publish_rollout_success : BuildEvent → DeploymentTarget → Context → M Outcome
  unfolding announce_success persist
  publish_rollout_success event target ctx = do
    now ← read_stamp env
    announce_success event target ctx
        (succeeded_json (new_deploy_succeeded_event env.digest now event target))
        (progress_json (new_orchestration_running_event env.digest now event target))

  -- `fmt.Errorf("%v; <text>: %w", deployErr, err)`.
  abbrev pub and_then : GoError → Text → GoError → GoError
  and_then deploy_err text err = wrapped (error_text deploy_err ++ text) err

  announce_failure : BuildEvent → GoError → Json → Json → M Outcome
  announce_failure event deploy_err failure progress =
      let bundle = result_json (
        make_deploy_result_events c.cfg.deploy_failed_routing_key failure
          c.cfg.orchestration_failed_routing_key progress) in
      check
        (persist (
          ledger_update env live (record {
            id = event.deployment_id;
            stage = orchestration_stage;
            verb = fails bundle;
          })))
        (requeue_with "persist deploy failure: ")
        (check (publish_event env c c.cfg.rabbitmq_exchange c.cfg.deploy_failed_routing_key failure)
          (λ err. pure (
            action_nack_requeue,
            some (and_then deploy_err (codes "; publish deploy failed event: ") err),
          ))
          (check
            (publish_progress_event env c c.cfg.deployment_exchange
              c.cfg.orchestration_failed_routing_key progress)
            (λ err. pure (
              action_nack_requeue,
              some (and_then deploy_err (codes "; publish orchestration failed event: ") err),
            ))
            (pure (action_ack, some deploy_err))))

  unfoldable pub complete_failure : BuildEvent → DeploymentTarget → GoError → M Outcome
  unfolding announce_failure persist
  complete_failure event target deploy_err = do
    now ← read_stamp env
    announce_failure event deploy_err
        (failed_json (new_deploy_failed_event env.digest now event target deploy_err))
        (progress_json (new_orchestration_failed_event env.digest now event target deploy_err))

  abbrev unreadable : M Outcome
  unreadable = pure (action_nack_drop, some (plain env.decode_error))

  republish : Text → Json → Text → Json → M Outcome
  republish service_key s progress_key p =
      check (publish_event env c c.cfg.rabbitmq_exchange service_key s)
        (λ e. pure (action_nack_requeue, some e))
        (check (publish_progress_event env c c.cfg.deployment_exchange progress_key p)
          (λ e. pure (action_nack_requeue, some e)) (pure (action_ack, none)))

  publish_bundle : Text → Text → Option Json → Option Json → M Outcome
  unfolding republish
  publish_bundle sk pk none p = unreadable
  publish_bundle sk pk (some s) none = unreadable
  publish_bundle sk pk (some s) (some p) = republish sk s pk p

  with_bundle : Option DeployResultEvents → M Outcome
  unfolding publish_bundle
  with_bundle none = unreadable
  with_bundle (some b) =
      publish_bundle b.service_routing_key b.progress_routing_key b.service_event b.progress_event

  unfoldable pub publish_stored : Option Json → M Outcome
  unfolding with_bundle
  publish_stored raw = with_bundle (decode_result raw)

  unfoldable pub announce_pending : BuildEvent → DeploymentTarget → GoError → M Outcome
  announce_pending event target err = do
    now ← read_stamp env
    check
        (publish_progress_event env c c.cfg.deployment_exchange
          c.cfg.orchestration_retrying_routing_key
          (progress_json (new_orchestration_rollout_pending_event env.digest now event target err)))
        (requeue_with "publish rollout pending event: ") (pure (action_ack, none))

  -- `ctx.Err()` behind the cancel function's call: a deadline that has passed before it stays the error.
  abbrev pub cancel_error : Bool → GoError
  cancel_error expired = if expired then deadline_exceeded else canceled

  -- The rollout has not been seen to finish: one more look, of 15 seconds. The context of that look is
  -- cancelled before it is handed on.
  unfoldable pub grace_check : BuildEvent → DeploymentTarget → GoError → M Outcome
  unfolding announce_pending
  grace_check event target err = do
    second ← call_rollout env target
    (if is_none second.error || (c.on_kubernetes && is_transient_rollout_check_error second.error)
        then publish_rollout_success event target (ended (cancel_error second.expired))
        else announce_pending event target err)

  abbrev ready_hint : DeploymentTarget → GoError → GoError
  ready_hint target err =
      if chain_any is_rollout_timeout err || chain_any is_rollout_failed err
      then wrapped
          (codes "app did not become ready on port "
            ++ (decimal target.container_port ++ codes "; ensure it listens on $PORT: "))
          err
      else err

  -- What follows the wait for the rollout, by its error and by whether its deadline has passed.
  after_wait : BuildEvent → DeploymentTarget → Bool → Option GoError → M Outcome
  unfolding grace_check
  after_wait event target expired none = publish_rollout_success event target live
  after_wait event target expired (some err) =
      if chain_any is_rollout_timeout err || chain_any is_deadline err || expired
      then grace_check event target err
      else if is_retriable_deploy_error err
      then requeue_with "wait for rollout: " err
      else complete_failure event target (ready_hint target err)

  await_rollout : BuildEvent → DeploymentTarget → M Outcome
  unfolding after_wait
  await_rollout event target = do
    first ← call_rollout env target
    after_wait event target first.expired first.error

  after_deploy : BuildEvent → DeploymentTarget → DeployReply → M Outcome
  unfolding await_rollout
  after_deploy event target (rejected err) =
      if is_retriable_deploy_error err
      then requeue_with "deploy resources: " err
      else complete_failure event target err
  after_deploy event target (applied deployed_target) = do
    now ← read_stamp env
    check
        (publish_progress_event env c c.cfg.deployment_exchange
          c.cfg.orchestration_deployed_routing_key
          (progress_json (new_orchestration_deployed_event env.digest now event deployed_target)))
        (requeue_with "publish orchestration deployed event: ")
        (await_rollout event deployed_target)

  pub deploy_and_wait : BuildEvent → DeployRequest → DeploymentTarget → M Outcome
  unfolding after_deploy
  deploy_and_wait event request target = do
    reply ← call_deploy env request
    after_deploy event target reply

  -- From the started event on.
  unfoldable pub orchestrate : BuildEvent → DeployRequest → DeploymentTarget → M Outcome
  unfolding deploy_and_wait with_renewal
  orchestrate event request target = do
    now ← read_stamp env
    check
        (publish_progress_event env c c.cfg.deployment_exchange
          c.cfg.orchestration_started_routing_key
          (progress_json (new_orchestration_started_event env.digest now event)))
        (requeue_with "publish orchestration started event: ")
        (with_renewal c (deploy_and_wait event request target))

  on_claim : BuildEvent → DeployRequest → DeploymentTarget → ClaimReply → M Outcome
  on_claim event request target (refused err) = requeue_with "claim orchestration stage: " err
  on_claim event request target (claimed claim_completed r) = publish_stored r.result_json
  on_claim event request target (claimed claim_failed r) = publish_stored r.result_json
  on_claim event request target (claimed claim_busy r) = pure (action_nack_requeue, some lease_busy)
  on_claim event request target (claimed claim_acquired r) = orchestrate event request target

  unfoldable pub take_stage : BuildEvent → DeployRequest → DeploymentTarget → M Outcome
  unfolding on_claim
  take_stage event request target =
      if c.has_ledger
      then ledger_claim env event.deployment_id orchestration_stage c.cfg.lease_duration
        >>= on_claim event request target
      else orchestrate event request target

  abbrev drop_with : Text → M Outcome
  drop_with message = pure (action_nack_drop, some (plain message))

  with_target : BuildEvent → DeployRequest → Option DeploymentTarget → M Outcome
  unfolding take_stage
  with_target event request none = drop_with (codes "missing PLATFORM_BASE_DOMAIN")
  with_target event request (some target) =
      if is_empty (trim_space request.image_tag)
      then drop_with (codes "missing imageTag in build.succeeded event")
      else take_stage event request target

  unfoldable pub handle_event : BuildEvent → M Outcome
  unfolding with_target
  handle_event event =
      if is_empty (trim_space event.deployment_id)
      then drop_with (codes "missing deploymentId")
      else (let request = deploy_request_from_event c.cfg event in
          with_target event request (target_for_request env.lower_table c.cfg request))

  with_event : Option BuildEvent → M Outcome
  unfolding handle_event
  with_event none =
      pure
        (action_nack_drop, some (wrapped (codes "decode deploy event: ") (plain env.decode_error)))
  with_event (some event) = handle_event event

  unfoldable pub handle_message : Option Json → M Outcome
  unfolding with_event
  handle_message body = with_event (decode_event body)
