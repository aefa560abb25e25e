-- ===== src/Consumer/Delivery.antt =====
-- `processDelivery`: the settling of a message by the outcome of its handler, with the retry queues,
-- the attempt counter in the headers and the dead letter queue.
pub mod Queues
pub mod Keeping
pub mod Settled
pub mod Success
pub mod Copying
pub mod Lossless
use orchestration_service.Base.{
  ℕ, suc, Bool, true, false, not, ◌&&◌, ◌++◌, Option, none, some, List, [], ◌∷◌, length, take,
  if◌then◌else◌,
}
use orchestration_service.Base.Int.{ℤ, pos, ◌+ℤ◌, ◌-ℤ◌, ltb_ℤ, leb_ℤ, to_int32, increment}
use orchestration_service.Text.{Text, codes, text_eq, utf8, decimal}
use orchestration_service.Json.{Json}
use orchestration_service.Errors.{GoError, plain, wrapped, error_text, chain_any, is_lease_busy}
use orchestration_service.Config.{Config}
use orchestration_service.Names.{
  DeploymentTarget, no_target, deploy_request_from_event, target_for_request,
}
use orchestration_service.Ledger.Calls.{releases}
use orchestration_service.Events.Build.{orchestration_stage, new_orchestration_retrying_event}
use orchestration_service.Events.Wire.{decode_event, progress_json}
use orchestration_service.Consumer.World.{
  Environment, Consumer, M, ◌>>=◌, ◌>>◌, pure, check, record_effect, live, send, ledger_update,
  read_stamp, queued, acked, nacked, panicked, HeaderValue, int32_value, int64_value, int_value,
  bytes_value, Headers,
}
use orchestration_service.Consumer.Publishing.{
  DeliveryAction, Outcome, no_publisher, publish_progress_event,
}
use orchestration_service.Consumer.Handler.{BuildEvent, complete_failure, handle_message}

-- `amqp091.Delivery`, as far as it is read; the content type is passed on unread.
pub record Delivery : Type 0 where
  pub headers : Headers
  pub body : Option Json

unfoldable pub get_header : Text → Headers → Option HeaderValue
get_header k [] = none
get_header k ((j, v) ∷ h) = if text_eq j k then some v else get_header k h

-- `h[k] = v` on a map.
unfoldable pub set_header : Text → HeaderValue → Headers → Headers
set_header k v [] = (k, v) ∷ []
set_header k v ((j, u) ∷ h) = if text_eq j k then (j, v) ∷ h else (j, u) ∷ set_header k v h

abbrev pub attempt_header : Text
attempt_header = codes "x-shiply-attempt"

abbrev pub attempt_value : Option HeaderValue → ℤ
attempt_value (some (int32_value n)) = n
attempt_value (some (int64_value n)) = n
attempt_value (some (int_value n)) = n
attempt_value _ = pos 0

unfoldable pub deploy_header_attempt : Headers → ℤ
unfolding get_header
deploy_header_attempt h = attempt_value (get_header attempt_header h)

-- `deployReason`: the first 500 bytes of the error's text.
unfoldable pub deploy_reason : Option GoError → List ℕ
deploy_reason none = utf8 (codes "unspecified")
deploy_reason (some e) = take 500 (utf8 (error_text e))

-- The index into the retry queues, from 0, for an attempt.
unfoldable pub retry_index : Config → ℤ → ℤ
retry_index cfg attempt =
    let idx = if ltb_ℤ (pos 0) attempt then attempt -ℤ pos 1 else attempt in
    let count = pos (length cfg.retry_backoffs) in if leb_ℤ count idx then count -ℤ pos 1 else idx

unfoldable pub retry_queue : Config → ℤ → Text
retry_queue cfg attempt =
    cfg.retry_queue_prefix ++ (codes "." ++ decimal (retry_index cfg attempt +ℤ pos 1))

-- The queues that `declareDeployRetryTopology` declares: a name for each backoff, counted from `n`.
unfoldable pub declared_queues : Text → ℕ → List ℤ → List Text
declared_queues prefix n [] = []
declared_queues prefix n (d ∷ ds) =
    (prefix ++ (codes "." ++ decimal (pos n +ℤ pos 1))) ∷ declared_queues prefix (suc n) ds

abbrev pub retry_headers : Headers → ℤ → GoError → Headers
retry_headers h attempt cause =
    set_header (codes "x-shiply-retry-reason") (bytes_value (deploy_reason (some cause)))
      (set_header attempt_header (int32_value (to_int32 attempt)) h)

abbrev pub dead_headers : Headers → ℤ → Option GoError → Headers
dead_headers h attempt cause =
    set_header attempt_header (int32_value (to_int32 attempt))
      (set_header (codes "x-shiply-dead-letter-reason") (bytes_value (deploy_reason cause)) h)

module _ (env : Environment) (c : Consumer) where
  -- `c.pub.Publish` to the default exchange, whose routing key is a queue.
  enqueue : Text → Headers → Option Json → M (Option GoError)
  enqueue queue headers body =
      if c.has_publisher then send env (queued queue headers body) else pure (some no_publisher)

  unfoldable pub copy_to_dlq_attempt : Delivery → Option GoError → ℤ → M (Option GoError)
  unfolding enqueue
  copy_to_dlq_attempt msg e a = enqueue c.cfg.dlq (dead_headers msg.headers a e) msg.body

  unfoldable pub copy_to_dlq : Delivery → Option GoError → M (Option GoError)
  unfolding copy_to_dlq_attempt
  copy_to_dlq msg e = copy_to_dlq_attempt msg e (deploy_header_attempt msg.headers)

  release_event : Option BuildEvent → M (Option GoError)
  release_event none = pure (some (plain env.decode_error))
  release_event (some event) =
      ledger_update env live
        (record { id = event.deployment_id; stage = orchestration_stage; verb = releases })

  unfoldable pub release_claim : Option Json → M (Option GoError)
  unfolding release_event
  release_claim body = if c.has_ledger then release_event (decode_event body) else pure none

  emit_retrying_event : ℤ → GoError → Option BuildEvent → M (Option GoError)
  emit_retrying_event attempt cause none = pure none
  emit_retrying_event attempt cause (some e) = do
    now ← read_stamp env
    publish_progress_event env c c.cfg.deployment_exchange c.cfg.orchestration_retrying_routing_key
        (progress_json (new_orchestration_retrying_event env.digest now e attempt cause))

  unfoldable pub emit_retrying : Option Json → ℤ → GoError → M (Option GoError)
  unfolding emit_retrying_event
  emit_retrying body attempt cause = emit_retrying_event attempt cause (decode_event body)

  -- `if !action.ack { return err }`.
  abbrev unless_acked : Outcome → M (Option GoError)
  unless_acked (action, err) = pure (if action.ack then none else err)

  abbrev target_or_none : Option DeploymentTarget → DeploymentTarget
  target_or_none none = no_target
  target_or_none (some t) = t

  emit_exhausted_event : GoError → Option BuildEvent → M (Option GoError)
  emit_exhausted_event cause none = pure none
  emit_exhausted_event cause (some e) =
      complete_failure env c e
        (target_or_none
          (target_for_request env.lower_table c.cfg (deploy_request_from_event c.cfg e)))
        (wrapped (codes "retry attempts exhausted: ") cause)
      >>= unless_acked

  unfoldable pub emit_exhausted : Option Json → GoError → M (Option GoError)
  unfolding emit_exhausted_event
  emit_exhausted body cause = emit_exhausted_event cause (decode_event body)

  -- `scheduleRetry` from the choice of a queue on.
  pub requeue_later : Delivery → GoError → Bool → ℤ → M (Option GoError)
  unfolding enqueue emit_retrying release_claim
  requeue_later msg cause count_attempt attempt =
      check (if count_attempt then emit_retrying msg.body attempt cause else pure none)
        (λ err. pure (some err))
        (check
          (enqueue (retry_queue c.cfg attempt) (retry_headers msg.headers attempt cause) msg.body)
          (λ err. pure (some err)) (if count_attempt then release_claim msg.body else pure none))

  pub give_up : Delivery → GoError → ℤ → M (Option GoError)
  unfolding emit_exhausted copy_to_dlq_attempt
  give_up msg cause attempt =
      check (emit_exhausted msg.body cause) (λ err. pure (some err))
        (copy_to_dlq_attempt msg (some cause) attempt)

  -- The attempt that a retry stands for.
  abbrev pub next_attempt : Delivery → Bool → ℤ
  next_attempt msg count_attempt =
      let attempt = deploy_header_attempt msg.headers in
      if count_attempt then increment attempt else attempt

  unfoldable pub schedule_retry : Delivery → GoError → Bool → M (Option GoError)
  unfolding requeue_later give_up
  schedule_retry msg cause count_attempt =
      let attempt = next_attempt msg count_attempt in
      if leb_ℤ c.cfg.max_attempts attempt
      then give_up msg cause attempt
      else requeue_later msg cause count_attempt attempt

  abbrev settle_nack : Bool → M (Unit {0})
  settle_nack requeue = record_effect (nacked requeue)

  -- `if err := m; err == nil { msg.Ack; return }`, and a nack otherwise.
  ack_or_nack : M (Option GoError) → Bool → M (Unit {0})
  ack_or_nack m requeue = check m (λ err. settle_nack requeue) (record_effect acked)

  -- The `action.requeue` branch. A retry that is counted reads `err.Error()`, which panics at nil; no
  -- outcome of the handler asks for a requeue with no error.
  settle_retry : Delivery → Option GoError → M (Unit {0})
  unfolding ack_or_nack schedule_retry
  settle_retry msg none = record_effect panicked
  settle_retry msg (some err) =
      ack_or_nack (schedule_retry msg err (not (chain_any is_lease_busy err))) true

  unfoldable pub settle : Delivery → Outcome → M (Unit {0})
  unfolding settle_retry copy_to_dlq
  settle msg (action, err) =
      if action.ack
      then record_effect acked
      else if c.has_channel
      then if action.requeue then settle_retry msg err else ack_or_nack (copy_to_dlq msg err) false
      else settle_nack action.requeue

  unfoldable pub process_delivery : Delivery → M (Unit {0})
  unfolding settle
  process_delivery msg = handle_message env c msg.body >>= settle msg
