-- ===== src/Consumer/Handler/Success.antt =====
-- `handleMessage` when everything answers: the effects of the whole stage.
use orchestration_service.Base.{
  ◌≡◌, ◌∙◌, refl, sym, subst, ap, false, Option, none, some, List, [], ◌∷◌, ◌++◌, append_assoc,
}
use orchestration_service.Base.Int.{ℤ}
use orchestration_service.Text.{Text, is_empty, trim_space}
use orchestration_service.Json.{Json}
use orchestration_service.Names.{
  DeploymentTarget, DeployRequest, deploy_request_from_event, target_for_request,
}
use orchestration_service.Ledger.{
  claimed, claim_acquired, run_claim, claim, Table, Fault, StageRecord,
}
use orchestration_service.Ledger.Terminal.{IsFree, claim-acquired_iff}
use orchestration_service.Events.Build.{orchestration_stage, new_orchestration_started_event}
use orchestration_service.Events.Wire.{decode_event, progress_json}
use orchestration_service.Consumer.Rows.{Held, advance-Held, run_claim-HasRow, claimed-HasRow}
use orchestration_service.Consumer.World.{
  Environment, Consumer, World, Effect, M, advance, ledger_claim, renewal_started, renewal_stopped,
}
use orchestration_service.Consumer.Publishing.{
  Outcome, action_ack, publish_progress_event, renewal_period, with_renewal,
}
use orchestration_service.Consumer.Handler.{
  BuildEvent, requeue_with, deploy_and_wait, orchestrate, on_claim, take_stage, with_target,
  handle_event, with_event, handle_message,
}
use orchestration_service.Consumer.Handler.Running.{
  Does, Does-bind, Does-check, Does-if, Does-else, Obliges, progress-Does,
}
use orchestration_service.Consumer.Handler.Lifecycle.{
  started_at, renewed_log, lifecycle, deploy_and_wait-Does,
}

module _ (env : Environment) (c : Consumer) (t : DeploymentTarget) where
  module _ (o : Obliges env c t) where
    with_renewal-Does :
        (m : M Outcome) (w : World) (a : Outcome) (es : List Effect)
        → Does m (record w { log = renewal_started (renewal_period c) ∷ w.log }) a es
        → Does
            (with_renewal c m)
            w
            a
            (renewal_stopped ∷ (es ++ (renewal_started (renewal_period c) ∷ [])))
    unfolding with_renewal
    with_renewal-Does m w a es d = Does-if w c.has_ledger _ _ a _ o.ledgered (record {
      value = d.value;
      effects = ap (λ l. renewal_stopped ∷ l) (d.effects ∙ sym (append_assoc es _ w.log));
      rows = λ id h. d.rows id h;
    })

    -- `m` runs through the whole stage, with some times on its events.
    abbrev pub Succeeds : M Outcome → World → BuildEvent → DeployRequest → Type 0
    Succeeds m w event request =
        (first : Text) × ((now : Text) × ((later : Text) × Does m w (action_ack, none)
              (lifecycle env c t first now later event request)))

    orchestrate-Does :
        (event : BuildEvent) (request : DeployRequest) (target : DeploymentTarget) (w : World)
        → Held event.deployment_id w
        → Succeeds (orchestrate env c event request target) w event request
    unfolding orchestrate
    orchestrate-Does event request target w held =
        let first = env.stamp w.tick in
        let j = progress_json (new_orchestration_started_event env.digest first event) in
        let m =
          publish_progress_event env c c.cfg.deployment_exchange
            c.cfg.orchestration_started_routing_key j in
        let w' = (m w).1 in
        let step_one = progress-Does env c t o _ _ j w in
        let kept = step_one.rows event.deployment_id held in
        let renewing : World = record w' { log = renewal_started (renewal_period c) ∷ w'.log } in
        let (now, (later, d)) = deploy_and_wait-Does env c t o event request target renewing kept in
        let renewed = with_renewal-Does (deploy_and_wait env c event request target) w' _ _ d in
        let all =
          Does-check w (started_at env c t first event ∷ [])
            (renewed_log env c t now later event request) m
            (requeue_with "publish orchestration started event: ")
            (with_renewal c (deploy_and_wait env c event request target)) (action_ack, none)
            step_one renewed in
        (
          first,
          (now, (later, record { value = all.value; effects = all.effects; rows = all.rows })),
        )

    run_claim-acquired :
        (fault : Option Fault) (table : Table) (now : ℤ) (id stage : Text) (d : ℤ)
        → fault ≡ none
        → IsFree now (table id stage)
        → (run_claim fault table now id stage d).1
          ≡ claimed claim_acquired (claim table now id stage d).2
    unfolding run_claim
    run_claim-acquired none table now id stage d h free =
        ap (λ x. claimed x (claim table now id stage d).2)
          ((claim-acquired_iff table now id stage d).1 free)
    run_claim-acquired (some x) table now id stage d h free = cc

    claim-acquired :
        (event : BuildEvent) (w : World)
        → IsFree (env.now w.tick) ((advance env w).ledger event.deployment_id orchestration_stage)
        → (r : StageRecord) × (Does
              (ledger_claim env event.deployment_id orchestration_stage c.cfg.lease_duration)
              w
              (claimed claim_acquired r)
              []
            × Held event.deployment_id
                (ledger_claim env event.deployment_id orchestration_stage c.cfg.lease_duration w).1)
    unfolding ledger_claim
    claim-acquired event w free = (
      _,
      (
        record {
          value =
              run_claim-acquired (env.ledger_reply w.tick) (advance env w).ledger (env.now w.tick)
                event.deployment_id orchestration_stage c.cfg.lease_duration (o.stores w.tick) free;
          effects = refl;
          rows = λ id h.
              run_claim-HasRow (env.ledger_reply w.tick) (advance env w).ledger (env.now w.tick)
                event.deployment_id orchestration_stage c.cfg.lease_duration id orchestration_stage
                (advance-Held env id w h);
        },
        claimed-HasRow (env.ledger_reply w.tick) (advance env w).ledger (env.now w.tick)
            event.deployment_id orchestration_stage c.cfg.lease_duration (o.stores w.tick),
      ),
    )

    take_stage-Does :
        (event : BuildEvent) (request : DeployRequest) (target : DeploymentTarget) (w : World)
        → IsFree (env.now w.tick) ((advance env w).ledger event.deployment_id orchestration_stage)
        → Succeeds (take_stage env c event request target) w event request
    unfolding take_stage on_claim
    take_stage-Does event request target w free =
        let (r, (claimed_row, held)) = claim-acquired event w free in
        let m = ledger_claim env event.deployment_id orchestration_stage c.cfg.lease_duration in
        let (first, (now, (later, d))) = orchestrate-Does event request target (m w).1 held in
        (
          first,
          (
            now,
            (
              later,
              Does-if w c.has_ledger _ _ (action_ack, none)
                  (lifecycle env c t first now later event request) o.ledgered
                  (Does-bind w [] (lifecycle env c t first now later event request) m
                    (on_claim env c event request target) (claimed claim_acquired r)
                    (action_ack, none) claimed_row d),
            ),
          ),
        )

    pub handle_message-Does :
        (body : Option Json) (event : BuildEvent) (target : DeploymentTarget) (w : World)
        → decode_event body ≡ some event
        → is_empty (trim_space event.deployment_id) ≡ false
        → target_for_request env.lower_table c.cfg (deploy_request_from_event c.cfg event)
          ≡ some target
        → is_empty (trim_space (deploy_request_from_event c.cfg event).image_tag) ≡ false
        → IsFree (env.now w.tick) ((advance env w).ledger event.deployment_id orchestration_stage)
        → Succeeds (handle_message env c body) w event (deploy_request_from_event c.cfg event)
    unfolding handle_message with_event handle_event with_target
    handle_message-Does body event target w decoded named reachable built free =
        let request = deploy_request_from_event c.cfg event in
        let (first, (now, (later, d))) = take_stage-Does event request target w free in
        let es = lifecycle env c t first now later event request in
        let taken =
          Does-else w (is_empty (trim_space request.image_tag)) _
            (take_stage env c event request target) (action_ack, none) es built d in
        let aimed =
          subst (λ x. Does (with_target env c event request x) w (action_ack, none) es)
            (sym reachable) taken in
        let handled =
          Does-else w (is_empty (trim_space event.deployment_id)) _
            (with_target env c event request (target_for_request env.lower_table c.cfg request))
            (action_ack, none) es named aimed in
        (
          first,
          (
            now,
            (
              later,
              subst (λ x. Does (with_event env c x) w (action_ack, none) es) (sym decoded) handled,
            ),
          ),
        )
