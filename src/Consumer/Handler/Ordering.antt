-- ===== src/Consumer/Handler/Ordering.antt =====
-- The order in which `publishRolloutSuccess` and `completeFailure` store and publish a result.
use orchestration_service.Base.{
  ◌≡◌, sym, subst, Bool, if◌then◌else◌, ◌∙◌, true, false, none, ◌∷◌, ap, Bool-cases, inl, inr,
}
use orchestration_service.Text.{Text}
use orchestration_service.Json.{Json}
use orchestration_service.Errors.{GoError}
use orchestration_service.Names.{DeploymentTarget, DeployRequest}
use orchestration_service.Ledger.{claimed, claim_acquired, StageRecord}
use orchestration_service.Ledger.Calls.{Call}
use orchestration_service.Events.Build.{orchestration_stage}
use orchestration_service.Events.Stored.{make_deploy_result_events, result_json}
use orchestration_service.Consumer.World.{
  ledger_claim, ◌>>=◌, M, Environment, Consumer, World, pure, check, Context, advance, published,
  persisted, service_publish, progress_publish, ledger_update,
}
use orchestration_service.Consumer.Rows.{acquired-HasRow, Held, advance-Held}
use orchestration_service.Consumer.Rules.{
  Keeps, Endures, Keeps-pure, Keeps-check, Keeps-if, send-Keeps, ledger_update-Keeps,
  ledger_update-made, send-at, Keeps-check_after, check-at,
}
use orchestration_service.Consumer.Publishing.{Outcome, publish_event, publish_progress_event}
use orchestration_service.Consumer.Handler.{
  BuildEvent, persist, publish_rollout_success, complete_failure, orchestrate, on_claim, take_stage,
}
use orchestration_service.Consumer.Handler.Keeping.{orchestrate-Keeps}
use orchestration_service.Consumer.Handler.Written.{
  Ending, well, badly, state_of, settling, settling-kept,
}
use orchestration_service.Consumer.Handler.Backing.{
  JustSettled, Backed, IsBacked, IsBacked-endures, read_back-Backs, key_of, JustWritten-settled,
}

module _ (env : Environment) (c : Consumer) (ledgered : c.has_ledger ≡ true)
    (no_hook : c.has_hook ≡ false) (id : Text) where
  abbrev Q : World → Type 0
  Q = IsBacked c.cfg id

  endures : Endures Q
  endures = IsBacked-endures c.cfg id

  progress-Backed : (x k : Text) (j : Json) → Keeps Q (publish_progress_event env c x k j)
  unfolding publish_progress_event
  progress-Backed x k j = rw no_hook (
      Keeps-if Q c.has_publisher _ _
        (send-Keeps Q endures env (published progress_publish x k j)
          (λ w (held, q). (held, (tt, q))))
        (Keeps-pure Q _))

  -- Publishing an event right after its result.
  publish_event-Backed :
      (x k : Text) (j : Json) (w : World)
      → JustSettled c.cfg id k j w.log
      → Q w
      → Q (publish_event env c x k j w).1
  unfolding publish_event advance
  publish_event-Backed x k j w h (held, q) =
      let later = advance-Held env id w held in
      elim (Bool-cases c.has_publisher) [
        | inl e ↦
            rw (no_hook, e)
              (send-at env Q (published service_publish x k j) w (later, q) (later, (h, q)))
        | inr e ↦ rw (no_hook, e) (held, q)
      ]

  -- A result that is stored with no error is in the row, and in the log.
  persist-made :
      (ctx : Context) (s : Ending) (v : Json) (w : World)
      → Held id w
      → (persist env c (ledger_update env ctx (settling id s v)) w).0 ≡ none
      → (persist env c (ledger_update env ctx (settling id s v)) w).1.log
        ≡ persisted id (state_of s) v ∷ w.log
  unfolding persist
  persist-made ctx s v w held = rw ledgered λ h.
      ledger_update-made env ctx (settling id s v) w h
      ∙ ap (λ e. e ∷ w.log)
          (settling-kept (advance env w).ledger id s v (advance-Held env id w held))

  persist-Backed :
      (ctx : Context) (call : Call) → Keeps Q (persist env c (ledger_update env ctx call))
  unfolding persist
  persist-Backed ctx call = rw ledgered (
      ledger_update-Keeps Q endures env ctx call
        λ row w (held, q). (held, (read_back-Backs c.cfg id call.id row w.log, q)))

  -- The three steps of an announcement: the result is stored, its service event and its progress
  -- event are published.
  announcement-Backed :
      (ctx : Context) (s : Ending) (j : Json) (pk : Text) (pj : Json) (x x' : Text)
      (h h' h'' : GoError → Outcome) (r : Outcome)
      → Keeps Q (
          check
            (persist env c (
              ledger_update env ctx
                (settling id s (result_json (make_deploy_result_events (key_of c.cfg s) j pk pj)))))
            (λ err. pure (h err))
            (check
              (publish_event env c x (key_of c.cfg s) j)
              (λ err. pure (h' err))
              (check (publish_progress_event env c x' pk pj) (λ err. pure (h'' err)) (pure r))))
  announcement-Backed ctx s j pk pj x x' h h' h'' r =
      let k = key_of c.cfg s in
      let v = result_json (make_deploy_result_events k j pk pj) in
      let m = persist env c (ledger_update env ctx (settling id s v)) in
      let last = check (publish_progress_event env c x' pk pj) (λ err. pure (h'' err)) (pure r) in
      let stored = persist-Backed ctx (settling id s v) in
      Keeps-check_after Q m (λ err. pure (h err))
        (check (publish_event env c x k j) (λ err. pure (h' err)) last) stored
        (λ err. Keeps-pure Q (h err))
        λ w q made.
          let log_eq = persist-made ctx s v w q.0 made in
          check-at Q (publish_event env c x k j) (λ err. pure (h' err)) last (m w).1
            (publish_event-Backed x k j (m w).1
              (JustWritten-settled c.cfg id s j (m w).1.log (pk, pj, w.log, log_eq))
              (stored.at w q))
            (λ err. Keeps-pure Q (h' err))
            (Keeps-check Q (publish_progress_event env c x' pk pj) (λ err. pure (h'' err)) (pure r)
              (progress-Backed x' pk pj) (λ err. Keeps-pure Q (h'' err)) (Keeps-pure Q r))

then_branch :
    {A : Type 0} (Q : World → Type 0) (b : Bool) (m n : M A) (w : World)
    → b ≡ true
    → Q (m w).1
    → Q ((if b then m else n) w).1
then_branch Q true m n w h q = q
then_branch Q false m n w h q = cc

module _ (env : Environment) (c : Consumer) (ledgered : c.has_ledger ≡ true)
    (no_hook : c.has_hook ≡ false) (event : BuildEvent) where
  success-Backed :
      (target : DeploymentTarget) (ctx : Context)
      → Keeps (IsBacked c.cfg event.deployment_id) (publish_rollout_success env c event target ctx)
  unfolding publish_rollout_success
  success-Backed target ctx = record {
    at = λ w q.
        (announcement-Backed env c ledgered no_hook event.deployment_id ctx well _ _ _ _ _ _ _ _
            _).at
          w q;
  }

  failure-Backed :
      (target : DeploymentTarget) (err : GoError)
      → Keeps (IsBacked c.cfg event.deployment_id) (complete_failure env c event target err)
  unfolding complete_failure
  failure-Backed target err = record {
    at = λ w q.
        (announcement-Backed env c ledgered no_hook event.deployment_id _ badly _ _ _ _ _ _ _ _
            _).at
          w q;
  }

  -- The work of one event, where its stage has a row.
  orchestrate-Backed :
      (request : DeployRequest) (target : DeploymentTarget) (w : World)
      → Held event.deployment_id w
      → Backed c.cfg event.deployment_id w.log
      → Held event.deployment_id (orchestrate env c event request target w).1
        × Backed c.cfg event.deployment_id (orchestrate env c event request target w).1.log
  orchestrate-Backed request target w held q =
      (orchestrate-Keeps (IsBacked c.cfg event.deployment_id) env c event
          (record {
            endures = IsBacked-endures c.cfg event.deployment_id;
            deploys = λ r w (held, q). (held, (tt, q));
            awaits = λ t w (held, q). (held, (tt, q));
            starts = λ d w (held, q). (held, (tt, q));
            stops = λ w (held, q). (held, (tt, q));
            progress = progress-Backed env c ledgered no_hook event.deployment_id;
            success = success-Backed;
            failure = failure-Backed;
          })
          request target).at
        w (held, q)

  -- With a ledger and no publishing hook, and whatever the cluster, the broker, the database and other
  -- workers do: once the claim of its stage is acquired, the work of one event publishes deploy.succeeded
  -- only right after the ledger's row for its deployment has become completed with a result that holds
  -- that very event, and deploy.failed only right after the row has become failed with one; and the row
  -- stays. It starts from a log in which each service event is backed so, the empty one for instance.
  pub take_stage-Backed :
      (request : DeployRequest) (target : DeploymentTarget) (w : World) (r : StageRecord)
      → (ledger_claim env event.deployment_id orchestration_stage c.cfg.lease_duration w).0
        ≡ claimed claim_acquired r
      → Backed c.cfg event.deployment_id w.log
      → Held event.deployment_id (take_stage env c event request target w).1
        × Backed c.cfg event.deployment_id (take_stage env c event request target w).1.log
  unfolding take_stage on_claim ledger_claim
  take_stage-Backed request target w r acquired q =
      let id = event.deployment_id in
      let m = ledger_claim env id orchestration_stage c.cfg.lease_duration in
      let held =
        acquired-HasRow (env.ledger_reply w.tick) (advance env w).ledger (env.now w.tick) id
          orchestration_stage c.cfg.lease_duration claim_acquired r acquired in
      let run = orchestrate-Backed request target (m w).1 held q in
      then_branch (IsBacked c.cfg id) c.has_ledger (m >>= on_claim env c event request target)
        (orchestrate env c event request target) w ledgered
        (subst (λ reply. IsBacked c.cfg id (on_claim env c event request target reply (m w).1).1)
          (sym acquired) run)
