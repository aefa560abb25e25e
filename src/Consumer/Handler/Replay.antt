-- ===== src/Consumer/Handler/Replay.antt =====
-- `publishStored`: a message of a stage that is settled already.
use orchestration_service.Base.{
  ℕ, ◌≡◌, ◌⊎◌, ◌∙◌, refl, ap, Bool, true, false, none, some, List, ◌∷◌, arith, if◌then◌else◌, inl,
  inr, All,
}
use orchestration_service.Base.Int.{ℤ}
use orchestration_service.Text.{Text}
use orchestration_service.Json.{Json}
use orchestration_service.Names.{DeploymentTarget, DeployRequest}
use orchestration_service.Ledger.{
  StageState, in_progress, completed, failed, StageRecord, ClaimReply, claimed, claim_completed,
  claim_failed, run_claim, claim,
}
use orchestration_service.Ledger.Terminal.{is_settled, OnlyAsks, run-settled}
use orchestration_service.Events.Build.{orchestration_stage}
use orchestration_service.Events.Stored.{
  make_deploy_result_events, result_json, decode_result-result_json,
}
use orchestration_service.Consumer.World.{
  Environment, Consumer, World, Effect, M, ◌>>=◌, published, service_publish, progress_publish,
  ledger_claim, advance, send, answer,
}
use orchestration_service.Consumer.Publishing.{
  Outcome, action_ack, publish_event, publish_progress_event, publish_json_event,
}
use orchestration_service.Consumer.Handler.{
  BuildEvent, republish, with_bundle, publish_bundle, publish_stored, on_claim, take_stage,
}

-- The outcome of a run and the log that it leaves.
abbrev pub Leaves : M Outcome → World → Outcome → List Effect → Type 0
Leaves m w o log = ((m w).0 ≡ o) × ((m w).1.log ≡ log)

module _ (env : Environment) (c : Consumer) where
  -- The broker takes everything, and the consumer has a publisher and no hook.
  pub record IsOpen : Type 0 where
    pub publisher : c.has_publisher ≡ true
    pub no_hook : c.has_hook ≡ false
    pub accepts : (n : ℕ) → env.publish_reply n ≡ none

  pub event-open :
      (x k : Text) (j : Json) (w : World)
      → IsOpen
      → ((publish_event env c x k j w).0 ≡ none)
        × ((publish_event env c x k j w).1.log ≡ published service_publish x k j ∷ w.log)
  unfolding publish_event publish_json_event send answer advance
  event-open x k j w o = ground (arith, o.publisher, o.no_hook, o.accepts w.tick)

  pub progress-open :
      (x k : Text) (j : Json) (w : World)
      → IsOpen
      → ((publish_progress_event env c x k j w).0 ≡ none)
        × ((publish_progress_event env c x k j w).1.log ≡ published progress_publish x k j ∷ w.log)
  unfolding publish_progress_event send answer advance
  progress-open x k j w o = ground (arith, o.publisher, o.no_hook, o.accepts w.tick)

  -- A publish leaves the table to the others.
  pub event-table :
      (x k : Text) (j : Json) (w : World)
      → IsOpen
      → (publish_event env c x k j w).1.ledger ≡ (advance env w).ledger
  unfolding publish_event publish_json_event send answer advance
  event-table x k j w o = ground (arith, o.publisher, o.no_hook, o.accepts w.tick)

  pub progress-table :
      (x k : Text) (j : Json) (w : World)
      → IsOpen
      → (publish_progress_event env c x k j w).1.ledger ≡ (advance env w).ledger
  unfolding publish_progress_event send answer advance
  progress-table x k j w o = ground (arith, o.publisher, o.no_hook, o.accepts w.tick)

  republish-open :
      (sk : Text) (s : Json) (pk : Text) (p : Json) (w : World)
      → IsOpen
      → Leaves
          (republish env c sk s pk p)
          w
          (action_ack, none)
          (published progress_publish c.cfg.deployment_exchange pk p
            ∷ published service_publish c.cfg.rabbitmq_exchange sk s
            ∷ w.log)
  unfolding republish
  republish-open sk s pk p w o =
      let w' = (publish_event env c c.cfg.rabbitmq_exchange sk s w).1 in
      ground (
        arith,
        event-open c.cfg.rabbitmq_exchange sk s w o,
        progress-open c.cfg.deployment_exchange pk p w' o,
      )

  publish_stored-result :
      (sk : Text) (s : Json) (pk : Text) (p : Json)
      → publish_stored env c (some (result_json (make_deploy_result_events sk s pk p)))
        ≡ republish env c sk s pk p
  unfolding publish_stored with_bundle publish_bundle make_deploy_result_events
  publish_stored-result sk s pk p = ap (with_bundle env c) (decode_result-result_json sk s pk p)

  -- A claim of a settled row answers with the row, and changes neither it nor the log.
  settled_claim :
      (id stage : Text) (d : ℤ) (r : StageRecord) (w : World)
      → (advance env w).ledger id stage ≡ some r
      → is_settled r.state ≡ true
      → env.ledger_reply w.tick ≡ none
      → (((ledger_claim env id stage d w).0 ≡ claimed claim_completed r)
          ⊎ ((ledger_claim env id stage d w).0 ≡ claimed claim_failed r))
        × ((ledger_claim env id stage d w).1.log ≡ w.log)
  unfolding ledger_claim run_claim claim advance
  settled_claim id stage d r w e s a = (by_state r.state refl, refl)
    where
      by_state :
          (s : StageState)
          → r.state ≡ s
          → ((ledger_claim env id stage d w).0 ≡ claimed claim_completed r)
            ⊎ ((ledger_claim env id stage d w).0 ≡ claimed claim_failed r)
      by_state in_progress k = ground arith
      by_state completed k = inl (ground arith)
      by_state failed k = inr (ground arith)

  on_claim-settled :
      (event : BuildEvent) (request : DeployRequest) (target : DeploymentTarget)
      (reply : ClaimReply) (r : StageRecord)
      → (reply ≡ claimed claim_completed r) ⊎ (reply ≡ claimed claim_failed r)
      → on_claim env c event request target reply ≡ publish_stored env c r.result_json
  unfolding on_claim
  on_claim-settled event request target reply r (inl e) = rw e refl
  on_claim-settled event request target reply r (inr e) = rw e refl

  abbrev claim_stage : BuildEvent → M ClaimReply
  claim_stage event = ledger_claim env event.deployment_id orchestration_stage c.cfg.lease_duration

  claimed_replays :
      (event : BuildEvent) (request : DeployRequest) (target : DeploymentTarget) (sk : Text)
      (s : Json) (pk : Text) (p : Json) (r : StageRecord) (w : World)
      → IsOpen
      → (((claim_stage event w).0 ≡ claimed claim_completed r)
          ⊎ ((claim_stage event w).0 ≡ claimed claim_failed r))
        × ((claim_stage event w).1.log ≡ w.log)
      → r.result_json ≡ some (result_json (make_deploy_result_events sk s pk p))
      → Leaves
          (claim_stage event >>= on_claim env c event request target)
          w
          (action_ack, none)
          (published progress_publish c.cfg.deployment_exchange pk p
            ∷ published service_publish c.cfg.rabbitmq_exchange sk s
            ∷ w.log)
  claimed_replays event request target sk s pk p r w o facts stored =
      let (e0, e1) = republish-open sk s pk p (claim_stage event w).1 o in
      rw
        (
          on_claim-settled event request target (claim_stage event w).0 r facts.0,
          stored,
          publish_stored-result sk s pk p,
        )
        (
          e0,
          e1
              ∙ ap
                  (λ log.
                    published progress_publish c.cfg.deployment_exchange pk p
                    ∷ published service_publish c.cfg.rabbitmq_exchange sk s
                    ∷ log)
                  facts.1,
        )

  pub if_ledger :
      (b : Bool) (m m' : M Outcome) (w : World) {o : Outcome} {log : List Effect}
      → b ≡ true
      → Leaves m w o log
      → Leaves (if b then m else m') w o log
  if_ledger true m m' w h l = l
  if_ledger false m m' w h l = cc

  -- A message of a stage that was completed or failed, redelivered after any number of claims and
  -- renewals by others: the two events of the stored result are published again, service event first, and
  -- it is acknowledged; nothing is deployed. The ledger answers, and the broker takes both.
  pub take_stage-replays :
      (event : BuildEvent) (request : DeployRequest) (target : DeploymentTarget) (sk : Text)
      (s : Json) (pk : Text) (p : Json) (r : StageRecord) (w : World)
      → IsOpen
      → c.has_ledger ≡ true
      → env.ledger_reply w.tick ≡ none
      → w.ledger event.deployment_id orchestration_stage ≡ some r
      → is_settled r.state ≡ true
      → r.result_json ≡ some (result_json (make_deploy_result_events sk s pk p))
      → All (OnlyAsks event.deployment_id orchestration_stage) (env.background w.tick)
      → Leaves
          (take_stage env c event request target)
          w
          (action_ack, none)
          (published progress_publish c.cfg.deployment_exchange pk p
            ∷ published service_publish c.cfg.rabbitmq_exchange sk s
            ∷ w.log)
  unfolding take_stage advance
  take_stage-replays event request target sk s pk p r w o ledgered a e settled stored others =
      if_ledger c.has_ledger _ _ w ledgered (
        claimed_replays event request target sk s pk p r w o
          (settled_claim event.deployment_id orchestration_stage c.cfg.lease_duration r w
            (run-settled w.ledger (env.background w.tick) event.deployment_id orchestration_stage r
              others settled e)
            settled a)
          stored)
