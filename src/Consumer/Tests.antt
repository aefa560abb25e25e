-- ===== src/Consumer/Tests.antt =====
-- The consumer on concrete messages, with a broker and a database that always answer.
use orchestration_service.Base.{Option, ◌≡◌, refl, none, some, [], ◌∷◌, inl, ◌++◌, arith}
use orchestration_service.Base.Int.{pos, negsuc}
use orchestration_service.Text.{Text, codes, text_eq, trim, trim_space, to_lower}
use orchestration_service.Json.{string}
use orchestration_service.Errors.{GoError, wrapped, canceled, lease_busy}
use orchestration_service.Config.Samples.{config}
use orchestration_service.Ledger.Calls.{run}
use orchestration_service.Ledger.{claim, run_claim, empty, fresh}
use orchestration_service.Events.Build.{orchestration_stage}
use orchestration_service.Consumer.Rows.{Held}
use orchestration_service.Events.Wire.{decode_event}
use orchestration_service.Consumer.World.{
  ledger_claim, World, acked, awaited, published, service_publish, progress_publish, queued,
  advance, send,
}
use orchestration_service.Names.{
  deploy_request_from_event, target_for_request, sanitize_dns_label, build_ingress_host,
  build_namespace_name, build_resource_name, first_non_empty,
}
use orchestration_service.Consumer.Handler.Lifecycle.{lifecycle}
use orchestration_service.Consumer.Delivery.Success.{process_delivery-succeeds}
use orchestration_service.Consumer.Outcomes.{Yields}
use orchestration_service.Consumer.Publishing.{action_ack, action_nack_requeue}
use orchestration_service.Consumer.Handler.{take_stage, handle_message, grace_check}
use orchestration_service.Consumer.Handler.Backing.{Backed}
use orchestration_service.Consumer.Handler.Ordering.{take_stage-Backed}
use orchestration_service.Consumer.Handler.Sound.{IsSound, handle_message-IsSound}
use orchestration_service.Consumer.Handler.Replay.{Leaves, take_stage-replays}
use orchestration_service.Consumer.Handler.Refusals.{Drops, handle_message-Drops, take_stage-waits}
use orchestration_service.Consumer.Handler.Grace.{grace_check-unsettled}
use orchestration_service.Consumer.Delivery.{
  Delivery, process_delivery, dead_headers, deploy_header_attempt,
}
use orchestration_service.Consumer.Delivery.Queues.{counted_retries}
use orchestration_service.Consumer.Receiving.{start_consumer, EachSettled, start_consumer-settles}
use orchestration_service.Consumer.Delivery.Settled.{SettledOnce, process_delivery-SettledOnce}
use orchestration_service.Consumer.Delivery.Copying.{IsCopied}
use orchestration_service.Consumer.Delivery.Lossless.{process_delivery-IsCopied}
use orchestration_service.Consumer.Samples.{
  target, timeout_error, answering, consumer, body, event, request, message, start, done, with_row,
  causes, undecodable, built, aim, obliging,
}

-- A message that has been through four counted retries.
abbrev fifth : Delivery
fifth = record (message none) { headers = counted_retries causes 4 [] }

-- A worker has acquired the stage of the event at -5 for 100.
abbrev claimed_start : World
claimed_start = record start {
  ledger = (claim empty (negsuc 4) (codes "d1") orchestration_stage (pos 100)).0;
}

take_stage-Backed_example :
    Held (codes "d1") (take_stage (answering none) consumer event request target start).1
    × Backed config
        (codes "d1")
        (take_stage (answering none) consumer event request target start).1.log
unfolding advance claim run ledger_claim run_claim
take_stage-Backed_example =
    take_stage-Backed (answering none) consumer refl refl event request target start
      (fresh (codes "d1") orchestration_stage config.lease_duration) refl tt

handle_message-IsSound_example :
    Yields IsSound (handle_message (answering none) consumer (some body))
handle_message-IsSound_example = handle_message-IsSound (answering none) consumer (some body)

process_delivery-SettledOnce_example :
    SettledOnce [] (process_delivery (answering none) consumer (message (some body)) start).1.log
process_delivery-SettledOnce_example =
    process_delivery-SettledOnce (answering none) consumer (message (some body)) start

take_stage-replays_example :
    Leaves
      (take_stage (answering none) consumer event request target)
      (with_row done)
      (action_ack, none)
      (published progress_publish
          (codes "deployment.events")
          (codes "deployment.orchestration.running")
          (string (codes "p"))
        ∷ published service_publish
            (codes "shiply.services")
            (codes "deploy.succeeded")
            (string (codes "s"))
        ∷ [])
unfolding text_eq
take_stage-replays_example =
    take_stage-replays (answering none) consumer event request target (codes "deploy.succeeded")
      (string (codes "s")) (codes "deployment.orchestration.running") (string (codes "p")) done
      (with_row done) (record { publisher = refl; no_hook = refl; accepts = λ n. refl }) refl refl
      refl refl refl tt

take_stage-waits_example :
    Leaves
      (take_stage (answering none) consumer event request target)
      claimed_start
      (action_nack_requeue, some lease_busy)
      []
unfolding claim
take_stage-waits_example =
    take_stage-waits (answering none) consumer event request target claimed_start empty (negsuc 4)
      (pos 100) refl refl refl refl tt refl

handle_message-Drops_example :
    Drops (answering none) consumer (handle_message (answering none) consumer none) start
unfolding decode_event
handle_message-Drops_example = handle_message-Drops (answering none) consumer none start (inl refl)

grace_check-unsettled_example :
    Leaves
      (grace_check (answering none) consumer event target timeout_error)
      start
      (action_nack_requeue, some (wrapped (codes "persist orchestration result: ") canceled))
      (awaited target ∷ [])
grace_check-unsettled_example =
    grace_check-unsettled (answering none) consumer event target timeout_error start refl refl

process_delivery-IsCopied_example :
    IsCopied consumer 0 none (
      queued (codes "shiply.app.deploy.dlq") (dead_headers [] (pos 0) (some undecodable)) none ∷ [])
unfolding process_delivery handle_message decode_event send deploy_header_attempt
process_delivery-IsCopied_example =
    process_delivery-IsCopied (answering none) consumer (message none) start
      (queued (codes "shiply.app.deploy.dlq") (dead_headers [] (pos 0) (some undecodable)) none
        ∷ [])
      (omega arith, refl, refl) refl refl

start_consumer-settles_example :
    ((◌≡◌ {A = Option GoError} none none)
      → EachSettled
          (answering none)
          consumer
          (message none ∷ message (some body) ∷ [])
          start
          (start_consumer
            (answering none)
            consumer
            none
            (message none ∷ message (some body) ∷ [])
            start).1.log)
    × ((e : GoError)
        → ◌≡◌ {A = Option GoError} none (some e)
        → (start_consumer
            (answering none)
            consumer
            none
            (message none ∷ message (some body) ∷ [])
            start).1.log
          ≡ [])
start_consumer-settles_example =
    start_consumer-settles (answering none) consumer none (message none ∷ message (some body) ∷ [])
      start

process_delivery-succeeds_example :
    (first now later : Text) × ((process_delivery
        (answering none)
        consumer
        (message (some body))
        start).1.log
      ≡ acked
        ∷ (lifecycle
              (answering none)
              consumer
              target
              first
              now
              later
              built
              (deploy_request_from_event consumer.cfg built)
            ++ []))
unfolding decode_event target_for_request build_ingress_host sanitize_dns_label trim trim_space
    to_lower build_namespace_name build_resource_name deploy_request_from_event first_non_empty
    advance run
process_delivery-succeeds_example =
    process_delivery-succeeds (answering none) consumer target obliging (message (some body)) built
      aim start refl refl refl refl (inl refl)
