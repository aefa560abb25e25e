-- ===== src/Consumer/Handler/Lifecycle.antt =====
-- The effects of a stage that is orchestrated and ends well, and the runs behind the deployment.
use orchestration_service.Base.{◌≡◌, ◌∙◌, ap, refl, Bool, Option, none, some, List, [], ◌∷◌, ◌++◌}
use orchestration_service.Text.{Text}
use orchestration_service.Json.{Json}
use orchestration_service.Errors.{GoError}
use orchestration_service.Names.{DeploymentTarget, DeployRequest}
use orchestration_service.Ledger.{completed, run_update}
use orchestration_service.Ledger.Calls.{Call, step}
use orchestration_service.Consumer.Rows.{Held, advance-Held, ledger_update-Held}
use orchestration_service.Consumer.Rules.{ledger_update-made}
use orchestration_service.Consumer.Handler.Written.{settling, well, settling-kept}
use orchestration_service.Events.Build.{
  new_deploy_succeeded_event, new_orchestration_running_event, new_orchestration_deployed_event,
  new_orchestration_started_event,
}
use orchestration_service.Events.Wire.{succeeded_json, progress_json}
use orchestration_service.Events.Stored.{make_deploy_result_events, result_json}
use orchestration_service.Consumer.World.{
  Environment, Consumer, World, Effect, live, advance, ledger_update, call_deploy, call_rollout,
  applied, published, persisted, deployed, awaited, renewal_started, renewal_stopped,
  service_publish, progress_publish,
}
use orchestration_service.Consumer.Publishing.{action_ack, publish_progress_event, renewal_period}
use orchestration_service.Consumer.Handler.{
  BuildEvent, requeue_with, persist, announce_success, publish_rollout_success, after_wait,
  await_rollout, after_deploy, deploy_and_wait,
}
use orchestration_service.Consumer.Handler.Running.{
  Does, Does-pure, Does-bind, Does-check, Does-if, Obliges, progress-Does, event-Does,
}

module _ (env : Environment) (c : Consumer) (t : DeploymentTarget) where
  -- The effects of `publishRolloutSuccess`.
  abbrev pub announced : BuildEvent → Json → Json → List Effect
  announced event s p =
      published progress_publish c.cfg.deployment_exchange c.cfg.orchestration_running_routing_key p
      ∷ published service_publish c.cfg.rabbitmq_exchange c.cfg.deploy_succeeded_routing_key s
      ∷ persisted event.deployment_id completed (
          result_json (
            make_deploy_result_events c.cfg.deploy_succeeded_routing_key s
              c.cfg.orchestration_running_routing_key p))
      ∷ []

  -- The two events of a rollout that succeeds, with their time.
  abbrev pub success_at : Text → BuildEvent → Json
  success_at now event = succeeded_json (new_deploy_succeeded_event env.digest now event t)

  abbrev pub running_at : Text → BuildEvent → Json
  running_at now event = progress_json (new_orchestration_running_event env.digest now event t)

  abbrev pub succeeded : Text → BuildEvent → List Effect
  succeeded now event = announced event (success_at now event) (running_at now event)

  -- The progress events before the rollout, with their time.
  abbrev pub deployed_at : Text → BuildEvent → Effect
  deployed_at now event =
      published progress_publish c.cfg.deployment_exchange c.cfg.orchestration_deployed_routing_key
        (progress_json (new_orchestration_deployed_event env.digest now event t))

  abbrev pub started_at : Text → BuildEvent → Effect
  started_at now event =
      published progress_publish c.cfg.deployment_exchange c.cfg.orchestration_started_routing_key
        (progress_json (new_orchestration_started_event env.digest now event))

  -- From the deployment on.
  abbrev pub applied_log : Text → Text → BuildEvent → List Effect
  applied_log now later event = succeeded later event ++ (awaited t ∷ deployed_at now event ∷ [])

  -- From the start of the renewal to its end.
  abbrev pub renewed_log : Text → Text → BuildEvent → DeployRequest → List Effect
  renewed_log now later event request =
      renewal_stopped
      ∷ ((applied_log now later event ++ (deployed request ∷ []))
          ++ (renewal_started (renewal_period c) ∷ []))

  -- The effects of a stage that is orchestrated, newest first.
  abbrev pub lifecycle : Text → Text → Text → BuildEvent → DeployRequest → List Effect
  lifecycle first now later event request =
      renewal_stopped
      ∷ published progress_publish c.cfg.deployment_exchange c.cfg.orchestration_running_routing_key
          (running_at later event)
      ∷ published service_publish c.cfg.rabbitmq_exchange c.cfg.deploy_succeeded_routing_key
          (success_at later event)
      ∷ persisted event.deployment_id completed (
          result_json (
            make_deploy_result_events c.cfg.deploy_succeeded_routing_key (success_at later event)
              c.cfg.orchestration_running_routing_key (running_at later event)))
      ∷ awaited t
      ∷ deployed_at now event
      ∷ deployed request
      ∷ renewal_started (renewal_period c)
      ∷ started_at first event
      ∷ []

  module _ (o : Obliges env c t) where
    update-none : (call : Call) (w : World) → (ledger_update env live call w).0 ≡ none
    unfolding ledger_update run_update
    update-none call w =
        ap (λ f. (run_update f (advance env w).ledger (step (advance env w).ledger call)).1)
          (o.stores w.tick)

    -- The result is stored in the row that the stage has.
    update-Does :
        (id : Text) (v : Json) (w : World)
        → Held id w
        → Does
            (persist env c (ledger_update env live (settling id well v)))
            w
            none
            (persisted id completed v ∷ [])
    unfolding persist
    update-Does id v w held =
        let call = settling id well v in
        Does-if w c.has_ledger _ _ none _ o.ledgered (record {
          value = update-none call w;
          effects =
              ledger_update-made env live call w (update-none call w)
              ∙ ap (λ e. e ∷ w.log)
                  (settling-kept (advance env w).ledger id well v (advance-Held env id w held));
          rows = λ d h. ledger_update-Held env live call d w h;
        })

    announce_success-Does :
        (event : BuildEvent) (s p : Json) (w : World)
        → Held event.deployment_id w
        → Does (announce_success env c event t live s p) w (action_ack, none) (announced event s p)
    unfolding announce_success
    announce_success-Does event s p w held = Does-check w _ _ _ _ _ _ (update-Does _ _ w held) (
        Does-check _ _ _ _ _ _ _ (event-Does env c t o _ _ s _) (
          Does-check _ _ _ _ _ _ _ (progress-Does env c t o _ _ p _)
            (Does-pure _ (action_ack, none))))

    publish_rollout_success-Does :
        (event : BuildEvent) (w : World)
        → Held event.deployment_id w
        → (now : Text) × Does
            (publish_rollout_success env c event t live)
            w
            (action_ack, none)
            (succeeded now event)
    unfolding publish_rollout_success
    publish_rollout_success-Does event w held =
        let now = env.stamp w.tick in
        let d = announce_success-Does event (success_at now event) (running_at now event) w held in
        (now, record { value = d.value; effects = d.effects; rows = d.rows })

    after_wait-Does :
        (event : BuildEvent) (expired : Bool) (e : Option GoError) (w : World)
        → e ≡ none
        → Held event.deployment_id w
        → (now : Text) × Does
            (after_wait env c event t expired e)
            w
            (action_ack, none)
            (succeeded now event)
    unfolding after_wait
    after_wait-Does event expired none w h held = publish_rollout_success-Does event w held
    after_wait-Does event expired (some e) w h held = cc

    await_rollout-Does :
        (event : BuildEvent) (w : World)
        → Held event.deployment_id w
        → (now : Text) × Does
            (await_rollout env c event t)
            w
            (action_ack, none)
            (succeeded now event ++ (awaited t ∷ []))
    unfolding await_rollout call_rollout
    await_rollout-Does event w held =
        let w' = (call_rollout env t w).1 in
        let reply = env.rollout_reply w.tick in
        let (now, d) =
          after_wait-Does event reply.expired reply.error w' (o.finishes w.tick)
            (advance-Held env event.deployment_id w held) in
        (
          now,
          Does-bind w (awaited t ∷ []) (succeeded now event) (call_rollout env t)
              (λ r. after_wait env c event t r.expired r.error) reply (action_ack, none)
              (record { value = refl; effects = refl; rows = λ id h. advance-Held env id w h }) d,
        )

    after_applied-Does :
        (event : BuildEvent) (target : DeploymentTarget) (w : World)
        → Held event.deployment_id w
        → (now : Text) × ((later : Text) × Does
              (after_deploy env c event target (applied t))
              w
              (action_ack, none)
              (applied_log now later event))
    unfolding after_deploy
    after_applied-Does event target w held =
        let now = env.stamp w.tick in
        let j = progress_json (new_orchestration_deployed_event env.digest now event t) in
        let m =
          publish_progress_event env c c.cfg.deployment_exchange
            c.cfg.orchestration_deployed_routing_key j in
        let step_one = progress-Does env c t o _ _ j w in
        let kept = step_one.rows event.deployment_id held in
        let (later, d) = await_rollout-Does event (m w).1 kept in
        let all =
          Does-check w (deployed_at now event ∷ []) (succeeded later event ++ (awaited t ∷ [])) m
            (requeue_with "publish orchestration deployed event: ") (await_rollout env c event t)
            (action_ack, none) step_one d in
        (now, (later, record { value = all.value; effects = all.effects; rows = all.rows }))

    pub deploy_and_wait-Does :
        (event : BuildEvent) (request : DeployRequest) (target : DeploymentTarget) (w : World)
        → Held event.deployment_id w
        → (now : Text) × ((later : Text) × Does
              (deploy_and_wait env c event request target)
              w
              (action_ack, none)
              (applied_log now later event ++ (deployed request ∷ [])))
    unfolding deploy_and_wait call_deploy
    deploy_and_wait-Does event request target w held =
        let m = call_deploy env request in
        let (now, (later, d)) =
          after_applied-Does event target (m w).1 (advance-Held env event.deployment_id w held) in
        (
          now,
          (
            later,
            Does-bind w (deployed request ∷ []) (applied_log now later event) m
                (after_deploy env c event target) (applied t) (action_ack, none)
                (record {
                  value = o.deploys w.tick;
                  effects = refl;
                  rows = λ id h. advance-Held env id w h;
                })
                d,
          ),
        )
