-- ===== src/Consumer/Delivery/Keeping.antt =====
-- Which predicates on the log the retries and the dead letter copy of `processDelivery` keep.
use orchestration_service.Base.{refl, Bool, Option, none, some}
use orchestration_service.Base.Int.{ℤ}
use orchestration_service.Text.{Text}
use orchestration_service.Json.{Json}
use orchestration_service.Errors.{GoError}
use orchestration_service.Consumer.World.{
  World, Environment, Consumer, Headers, queued, read_back, live,
}
use orchestration_service.Consumer.Rules.{
  Endures, Keeps, keeps_rules, Keeps-pure, Keeps-if, send-Keeps, ledger_update-Keeps,
}
use orchestration_service.Consumer.Publishing.{publish_progress_event}
use orchestration_service.Names.{DeploymentTarget}
use orchestration_service.Consumer.Handler.{BuildEvent, complete_failure}
use orchestration_service.Consumer.Handler.Quiet.{
  Quiet, read_back-quiet, progress-Keeps, failure-Keeps,
}
use orchestration_service.Events.Wire.{decode_event}
use orchestration_service.Consumer.Delivery.{
  requeue_later, give_up, Delivery, enqueue, copy_to_dlq_attempt, copy_to_dlq, release_event,
  release_claim, emit_retrying_event, emit_retrying, emit_exhausted_event, emit_exhausted,
  schedule_retry,
}

module _ (Q : World → Type 0) (quiet : Quiet Q) (endures : Endures Q) (env : Environment)
    (c : Consumer) where
  enqueue-Keeps :
      (queue : Text) (h : Headers) (body : Option Json) → Keeps Q (enqueue env c queue h body)
  unfolding enqueue
  enqueue-Keeps queue h body =
      Keeps-if Q c.has_publisher _ _
        (send-Keeps Q endures env (queued queue h body) (quiet (queued queue h body) refl))
        (Keeps-pure Q _)

  event-Keeps : (x k : Text) (j : Json) → Keeps Q (publish_progress_event env c x k j)
  event-Keeps = progress-Keeps Q quiet endures env c

  complete_failure-Keeps :
      (event : BuildEvent) (target : DeploymentTarget) (err : GoError)
      → Keeps Q (complete_failure env c event target err)
  complete_failure-Keeps = failure-Keeps Q quiet endures env c

  emit_retrying_event-Keeps :
      (attempt : ℤ) (cause : GoError) (e : Option BuildEvent)
      → Keeps Q (emit_retrying_event env c attempt cause e)
  unfolding emit_retrying_event
  emit_retrying_event-Keeps attempt cause none = search keeps_rules
  emit_retrying_event-Keeps attempt cause (some e) = search (keeps_rules, event-Keeps)

  release_event-Keeps : (e : Option BuildEvent) → Keeps Q (release_event env c e)
  unfolding release_event
  release_event-Keeps none = search keeps_rules
  release_event-Keeps (some e) =
      ledger_update-Keeps Q endures env live _
        λ row. quiet (read_back e.deployment_id row) (read_back-quiet e.deployment_id row)

  emit_exhausted_event-Keeps :
      (cause : GoError) (e : Option BuildEvent) → Keeps Q (emit_exhausted_event env c cause e)
  unfolding emit_exhausted_event
  emit_exhausted_event-Keeps cause none = search keeps_rules
  emit_exhausted_event-Keeps cause (some e) = search (keeps_rules, complete_failure-Keeps)

  pub release_claim-Keeps : (body : Option Json) → Keeps Q (release_claim env c body)
  unfolding release_claim
  release_claim-Keeps body = search (keeps_rules, release_event-Keeps)

  pub emit_retrying-Keeps :
      (body : Option Json) (attempt : ℤ) (cause : GoError)
      → Keeps Q (emit_retrying env c body attempt cause)
  unfolding emit_retrying
  emit_retrying-Keeps body attempt cause =
      emit_retrying_event-Keeps attempt cause (decode_event body)

  pub emit_exhausted-Keeps :
      (body : Option Json) (cause : GoError) → Keeps Q (emit_exhausted env c body cause)
  unfolding emit_exhausted
  emit_exhausted-Keeps body cause = emit_exhausted_event-Keeps cause (decode_event body)

  pub schedule_retry-Keeps :
      (msg : Delivery) (cause : GoError) (count : Bool)
      → Keeps Q (schedule_retry env c msg cause count)
  unfolding schedule_retry requeue_later give_up copy_to_dlq_attempt
  schedule_retry-Keeps msg cause count =
      search
        (keeps_rules, enqueue-Keeps, emit_retrying-Keeps, release_claim-Keeps, emit_exhausted-Keeps)
        depth 8

  pub copy_to_dlq-Keeps : (msg : Delivery) (e : Option GoError) → Keeps Q (copy_to_dlq env c msg e)
  unfolding copy_to_dlq
  copy_to_dlq-Keeps msg e = enqueue-Keeps _ _ _
