-- ===== src/Consumer/Delivery/Success.antt =====
-- A delivery that everything answers, from the message to its ack.
use orchestration_service.Base.{◌≡◌, ap, ◌∙◌, false, some, ◌∷◌, ◌++◌}
use orchestration_service.Text.{is_empty, trim_space}
use orchestration_service.Names.{DeploymentTarget, deploy_request_from_event, target_for_request}
use orchestration_service.Ledger.Terminal.{IsFree}
use orchestration_service.Events.Build.{orchestration_stage}
use orchestration_service.Events.Wire.{decode_event}
use orchestration_service.Consumer.World.{Environment, Consumer, World, acked, advance}
use orchestration_service.Consumer.Handler.{BuildEvent, handle_message}
use orchestration_service.Consumer.Handler.Running.{Obliges}
use orchestration_service.Consumer.Handler.Lifecycle.{lifecycle}
use orchestration_service.Consumer.Handler.Success.{handle_message-Does}
use orchestration_service.Consumer.Delivery.{Delivery, settle, process_delivery}

-- With a ledger, a publisher and no hook, a delivery of a build event with a deployment, an image and a
-- target, whose stage is free when it is claimed, is driven to its end if the broker, the database and the
-- cluster do what they are asked and the rollout ends well: the started event, the deployment within the renewal of the lease, the deployed
-- event, the wait, the result stored, deploy.succeeded, the running event, and last the ack, with some
-- times on the events. Nothing else is done.
pub process_delivery-succeeds :
    (env : Environment) (c : Consumer) (t : DeploymentTarget) (o : Obliges env c t) (msg : Delivery)
    (event : BuildEvent) (target : DeploymentTarget) (w : World)
    → decode_event msg.body ≡ some event
    → is_empty (trim_space event.deployment_id) ≡ false
    → target_for_request env.lower_table c.cfg (deploy_request_from_event c.cfg event) ≡ some target
    → is_empty (trim_space (deploy_request_from_event c.cfg event).image_tag) ≡ false
    → IsFree (env.now w.tick) ((advance env w).ledger event.deployment_id orchestration_stage)
    → (first now later : _) × ((process_delivery env c msg w).1.log
        ≡ acked
          ∷ (lifecycle env c t first now later event (deploy_request_from_event c.cfg event)
              ++ w.log))
unfolding process_delivery settle
process_delivery-succeeds env c t o msg event target w decoded named reachable built free =
    let (first, (now, (later, d))) =
      handle_message-Does env c t o msg.body event target w decoded named reachable built free in
    let w' = (handle_message env c msg.body w).1 in
    (
      first,
      now,
      later,
      ap (λ r. (settle env c msg r w').1.log) d.value ∙ ap (λ l. acked ∷ l) d.effects,
    )
