-- ===== src/Consumer/Handler/Quiet.antt =====
-- Which predicates on the log `handleMessage` keeps by itself.
use orchestration_service.Base.{◌≡◌, refl, Bool, true, false, Option, none, some}
use orchestration_service.Text.{Text}
use orchestration_service.Json.{Json}
use orchestration_service.Errors.{GoError}
use orchestration_service.Names.{DeploymentTarget}
use orchestration_service.Ledger.{StageState, in_progress, completed, failed, StageRecord}
use orchestration_service.Ledger.Calls.{Call}
use orchestration_service.Events.Stored.{decode_result, DeployResultEvents}
use orchestration_service.Consumer.World.{
  World, Environment, Consumer, Effect, Context, published, read_back, row_effect, Via, send,
  ledger_update, acked, nacked, panicked,
}
use orchestration_service.Consumer.Rules.{
  Endures, Keeps, Allows, keeps_rules, Keeps-pure, Keeps-if, send-Keeps, ledger_update-Keeps,
}
use orchestration_service.Consumer.Publishing.{publish_event, publish_progress_event}
use orchestration_service.Consumer.Handler.{
  BuildEvent, persist, publish_rollout_success, complete_failure, publish_bundle, with_bundle,
  publish_stored, handle_message,
}
use orchestration_service.Consumer.Handler.Keeping.{handle_message-Keeps}

-- An effect that ends the handling of a delivery.
abbrev pub is_ending : Effect → Bool
is_ending acked = true
is_ending (nacked requeue) = true
is_ending panicked = true
is_ending _ = false

-- All effects but endings keep `Q`.
abbrev pub Quiet : (World → Type 0) → Type 0
Quiet Q = (e : Effect) → is_ending e ≡ false → Allows Q e

row_effect-quiet :
    (id : Text) (s : StageState) (v : Option Json) → is_ending (row_effect id s v) ≡ false
unfolding row_effect
row_effect-quiet id in_progress v = refl
row_effect-quiet id completed none = refl
row_effect-quiet id completed (some v) = refl
row_effect-quiet id failed none = refl
row_effect-quiet id failed (some v) = refl

-- A ledger statement ends no delivery.
pub read_back-quiet : (id : Text) (row : Option StageRecord) → is_ending (read_back id row) ≡ false
unfolding read_back
read_back-quiet id none = refl
read_back-quiet id (some r) = row_effect-quiet id r.state r.result_json

module _ (Q : World → Type 0) (quiet : Quiet Q) (endures : Endures Q) (env : Environment)
    (c : Consumer) where
  published-Keeps : (v : Via) (x k : Text) (j : Json) → Keeps Q (send env (published v x k j))
  published-Keeps v x k j =
      send-Keeps Q endures env (published v x k j) (quiet (published v x k j) refl)

  pub progress-Keeps : (x k : Text) (j : Json) → Keeps Q (publish_progress_event env c x k j)
  unfolding publish_progress_event
  progress-Keeps x k j = search (keeps_rules, published-Keeps)

  event-Keeps : (x k : Text) (j : Json) → Keeps Q (publish_event env c x k j)
  unfolding publish_event
  event-Keeps x k j = search (keeps_rules, published-Keeps)

  persisted-Keeps :
      (ctx : Context) (call : Call) → Keeps Q (persist env c (ledger_update env ctx call))
  unfolding persist
  persisted-Keeps ctx call =
      Keeps-if Q c.has_ledger _ _
        (ledger_update-Keeps Q endures env ctx call
          λ row. quiet (read_back call.id row) (read_back-quiet call.id row))
        (Keeps-pure Q _)

  success-Keeps :
      (event : BuildEvent) (target : DeploymentTarget) (ctx : Context)
      → Keeps Q (publish_rollout_success env c event target ctx)
  unfolding publish_rollout_success
  success-Keeps event target ctx =
      search (keeps_rules, persisted-Keeps, event-Keeps, progress-Keeps) depth 8

  pub failure-Keeps :
      (event : BuildEvent) (target : DeploymentTarget) (err : GoError)
      → Keeps Q (complete_failure env c event target err)
  unfolding complete_failure
  failure-Keeps event target err =
      search (keeps_rules, persisted-Keeps, event-Keeps, progress-Keeps) depth 8

  bundle-Keeps : (sk pk : Text) (s p : Option Json) → Keeps Q (publish_bundle env c sk pk s p)
  unfolding publish_bundle
  bundle-Keeps sk pk none p = search keeps_rules
  bundle-Keeps sk pk (some s) none = search keeps_rules
  bundle-Keeps sk pk (some s) (some p) = search (keeps_rules, event-Keeps, progress-Keeps)

  with_bundle-Keeps : (b : Option DeployResultEvents) → Keeps Q (with_bundle env c b)
  unfolding with_bundle
  with_bundle-Keeps none = search keeps_rules
  with_bundle-Keeps (some b) = bundle-Keeps _ _ b.service_event b.progress_event

  stored-Keeps : (raw : Option Json) → Keeps Q (publish_stored env c raw)
  unfolding publish_stored
  stored-Keeps raw = with_bundle-Keeps (decode_result raw)

  pub handle_message-quiet : (body : Option Json) → Keeps Q (handle_message env c body)
  handle_message-quiet =
      handle_message-Keeps Q env c
        (λ event. record {
          endures = endures;
          deploys = λ r. quiet _ refl;
          awaits = λ t. quiet _ refl;
          starts = λ d. quiet _ refl;
          stops = quiet _ refl;
          progress = progress-Keeps;
          success = success-Keeps event;
          failure = failure-Keeps event;
        })
        stored-Keeps
