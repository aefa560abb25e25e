-- ===== src/Consumer/Handler/Refusals.antt =====
-- Messages that the handler turns away: those it cannot use, and those whose stage is held.
use orchestration_service.Base.{
  ◌≡◌, ◌⊎◌, refl, sym, subst, All, Bool, true, false, Option, none, some, arith, if◌then◌else◌, inl,
  inr,
}
use orchestration_service.Text.{codes, is_empty, trim_space}
use orchestration_service.Json.{Json}
use orchestration_service.Errors.{GoError, plain, lease_busy}
use orchestration_service.Names.{
  DeploymentTarget, DeployRequest, deploy_request_from_event, target_for_request,
}
use orchestration_service.Base.Int.{ℤ, ◌+ℤ◌, ltb_ℤ}
use orchestration_service.Ledger.{Table, claim_acquired, claim_busy, run_claim, claim}
use orchestration_service.Ledger.Calls.{run}
use orchestration_service.Ledger.Lease.{Respects, claim-exclusive}
use orchestration_service.Events.Build.{orchestration_stage}
use orchestration_service.Events.Wire.{decode_event}
use orchestration_service.Consumer.World.{
  Environment, Consumer, World, M, ◌>>=◌, pure, ledger_claim, advance,
}
use orchestration_service.Consumer.Publishing.{Outcome, action_nack_drop, action_nack_requeue}
use orchestration_service.Consumer.Handler.{
  BuildEvent, on_claim, take_stage, with_target, handle_event, with_event, handle_message,
}
use orchestration_service.Consumer.Handler.Replay.{Leaves, if_ledger}

module _ (env : Environment) (c : Consumer) where
  -- An event that no stage is taken for: no deployment, no place to deploy to, or no image.
  abbrev pub IsUnusable : BuildEvent → Type 0
  IsUnusable event =
      let request = deploy_request_from_event c.cfg event in
      (is_empty (trim_space event.deployment_id) ≡ true)
      ⊎ ((target_for_request env.lower_table c.cfg request ≡ none)
          ⊎ (is_empty (trim_space request.image_tag) ≡ true))

  -- The message is dropped with an error, and the world is as it was.
  abbrev pub Drops : M Outcome → World → Type 0
  Drops m w = (err : GoError) × (m w ≡ ((action_nack_drop, some err), w))

  with_target-Drops :
      (event : BuildEvent) (request : DeployRequest) (t : Option DeploymentTarget) (w : World)
      → (t ≡ none) ⊎ (is_empty (trim_space request.image_tag) ≡ true)
      → Drops (with_target env c event request t) w
  unfolding with_target
  with_target-Drops event request none w h = (_, refl)
  with_target-Drops event request (some t) w (inl h) = cc
  with_target-Drops event request (some t) w (inr h) = rw h (_, refl)

  handle_event-Drops :
      (event : BuildEvent) (w : World) → IsUnusable event → Drops (handle_event env c event) w
  unfolding handle_event
  handle_event-Drops event w h = go (is_empty (trim_space event.deployment_id)) h
    where
      request : DeployRequest
      request = deploy_request_from_event c.cfg event

      go :
          (b : Bool)
          → (b ≡ true)
            ⊎ ((target_for_request env.lower_table c.cfg request ≡ none)
                ⊎ (is_empty (trim_space request.image_tag) ≡ true))
          → Drops
              (if b
                then pure (action_nack_drop, some (plain (codes "missing deploymentId")))
                else with_target env c event request
                    (target_for_request env.lower_table c.cfg request))
              w
      go true h = (_, refl)
      go false (inl h) = cc
      go false (inr h) = with_target-Drops event request _ w h

  with_event-Drops :
      (e : Option BuildEvent) (w : World)
      → (e ≡ none) ⊎ ((event : BuildEvent) × (e ≡ some event) × IsUnusable event)
      → Drops (with_event env c e) w
  unfolding with_event
  with_event-Drops none w h = (_, refl)
  with_event-Drops (some event) w (inl h) = cc
  with_event-Drops (some event) w (inr (event', e, u)) =
      handle_event-Drops event w (subst IsUnusable (same e) u)
    where
      same : some event ≡ some event' → event' ≡ event
      same e = cc

  -- A body that is no build event, and an event without a deployment, a base domain or an image, is
  -- dropped with an error before anything is claimed, deployed or published: the world stays as it was.
  pub handle_message-Drops :
      (body : Option Json) (w : World)
      → (decode_event body ≡ none)
        ⊎ ((event : BuildEvent) × (decode_event body ≡ some event) × IsUnusable event)
      → Drops (handle_message env c body) w
  unfolding handle_message
  handle_message-Drops body w h = with_event-Drops (decode_event body) w h

  -- A claim that is busy sends the message back.
  take_stage-busy :
      (event : BuildEvent) (request : DeployRequest) (target : DeploymentTarget) (w : World)
      → c.has_ledger ≡ true
      → env.ledger_reply w.tick ≡ none
      → (claim
          (advance env w).ledger
          (env.now w.tick)
          event.deployment_id
          orchestration_stage
          c.cfg.lease_duration).1
        ≡ claim_busy
      → Leaves
          (take_stage env c event request target)
          w
          (action_nack_requeue, some lease_busy)
          w.log
  unfolding take_stage on_claim ledger_claim run_claim advance
  take_stage-busy event request target w ledgered a b =
      if_ledger env c c.has_ledger _ _ w ledgered (held event request target w a b)
    where
      held :
          (event : BuildEvent) (request : DeployRequest) (target : DeploymentTarget) (w : World)
          → env.ledger_reply w.tick ≡ none
          → (claim
              (advance env w).ledger
              (env.now w.tick)
              event.deployment_id
              orchestration_stage
              c.cfg.lease_duration).1
            ≡ claim_busy
          → Leaves
              (ledger_claim env event.deployment_id orchestration_stage c.cfg.lease_duration
                >>= on_claim env c event request target)
              w
              (action_nack_requeue, some lease_busy)
              w.log
      held event request target w a b = ground arith

  -- Once a worker has acquired the stage of a deployment at `since` for `d`, a message for it that is
  -- handled before `since + d` is sent back: with the ledger answering, nothing is deployed or published, the
  -- retry is not to be counted, whatever calls the workers have made before the message's claim: calls for
  -- other keys, claims of this one before `since + d`, and renewals that reach to `since + d`.
  pub take_stage-waits :
      (event : BuildEvent) (request : DeployRequest) (target : DeploymentTarget) (w : World)
      (table : Table) (since d : ℤ)
      → c.has_ledger ≡ true
      → env.ledger_reply w.tick ≡ none
      → (claim table since event.deployment_id orchestration_stage d).1 ≡ claim_acquired
      → w.ledger ≡ (claim table since event.deployment_id orchestration_stage d).0
      → All (Respects event.deployment_id orchestration_stage (since +ℤ d)) (env.background w.tick)
      → ltb_ℤ (env.now w.tick) (since +ℤ d) ≡ true
      → Leaves
          (take_stage env c event request target)
          w
          (action_nack_requeue, some lease_busy)
          w.log
  unfolding advance
  take_stage-waits event request target w table since d ledgered answers won held polite early =
      let id = event.deployment_id in
      let calls = env.background w.tick in
      let busy =
        claim-exclusive table since id orchestration_stage d calls (env.now w.tick)
          c.cfg.lease_duration won polite early in
      take_stage-busy event request target w ledgered answers (
        subst
          (λ t.
            (claim (run t calls) (env.now w.tick) id orchestration_stage c.cfg.lease_duration).1
            ≡ claim_busy)
          (sym held) busy)
