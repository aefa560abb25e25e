-- ===== src/Consumer/Handler/Grace.antt =====
-- The final look at a rollout that was not seen to finish in time.
use orchestration_service.Base.{◌≡◌, true, none, some, ◌∷◌, arith, if◌then◌else◌}
use orchestration_service.Text.{codes}
use orchestration_service.Errors.{GoError, wrapped, canceled, deadline_exceeded}
use orchestration_service.Names.{DeploymentTarget}
use orchestration_service.Consumer.World.{
  Environment, Consumer, World, ended, awaited, call_rollout, ledger_update, advance,
}
use orchestration_service.Consumer.Publishing.{action_nack_requeue}
use orchestration_service.Consumer.Handler.{
  BuildEvent, publish_rollout_success, announce_success, persist, grace_check, cancel_error,
}
use orchestration_service.Consumer.Handler.Replay.{Leaves}

module _ (env : Environment) (c : Consumer) where
  success-refused :
      (event : BuildEvent) (target : DeploymentTarget) (ended_by : GoError) (w : World)
      → c.has_ledger ≡ true
      → Leaves
          (publish_rollout_success env c event target (ended ended_by))
          w
          (action_nack_requeue, some (wrapped (codes "persist orchestration result: ") ended_by))
          w.log
  unfolding publish_rollout_success announce_success persist ledger_update advance
  success-refused event target ended_by w ledgered = ground arith

  -- With a ledger, a final look that finds the rollout ready settles nothing: the context of the look is
  -- cancelled before the result is persisted under it, so the result is not stored, no event is
  -- published, and the message is to be retried. The error is that of the context: its cancellation, or its
  -- deadline if that has passed by the end of the look.
  pub grace_check-unsettled :
      (event : BuildEvent) (target : DeploymentTarget) (err : GoError) (w : World)
      → c.has_ledger ≡ true
      → (env.rollout_reply w.tick).error ≡ none
      → Leaves
          (grace_check env c event target err)
          w
          (
            action_nack_requeue,
            some (
                wrapped
                  (codes "persist orchestration result: ")
                  (if (env.rollout_reply w.tick).expired then deadline_exceeded else canceled)),
          )
          (awaited target ∷ w.log)
  unfolding grace_check call_rollout advance
  grace_check-unsettled event target err w ledgered ready = rw ready (
      success-refused event target (cancel_error env c (env.rollout_reply w.tick).expired)
        (call_rollout env target w).1 ledgered)
