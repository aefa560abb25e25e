-- ===== src/Rollout/Tests.antt =====
-- The polling loop on a concrete schedule: a deployment that is still updating, then a complete one.
use orchestration_service.Base.{◌≡◌, ◌≢◌, ◌⊎◌, refl, inr, true, none, some, [], ◌∷◌, ◌↔◌}
use orchestration_service.Base.Int.{ℤ, pos}
use orchestration_service.Text.{codes, text_eq}
use orchestration_service.Names.{DeploymentTarget}
use orchestration_service.Rollout.{
  Condition, Deployment, Poll, found, deadline, deployment_rollout_complete,
  rollout_condition_error, failure_of, wait_for_rollout,
}
use orchestration_service.Rollout.Status.{
  First, NoneOf, is_failure, IsComplete, deployment_rollout_complete_iff,
  rollout_condition_error-eq,
}
use orchestration_service.Rollout.Waiting.{
  Some, here, later, SawComplete, DoneBy, wait_for_rollout_complete, wait_for_rollout-timeout,
  wait_for_rollout-returns,
}

abbrev target : DeploymentTarget
target = record {
  namespace = codes "shiply-prj-shop";
  deployment_name = codes "app-web";
  service_name = codes "app-web";
  ingress_name = codes "app-web";
  ingress_host = codes "web-shop.apps.example.com";
  container_port = pos 3000;
  tls_enabled = true;
}

abbrev available : Condition
available = record { kind = codes "Available"; status = codes "True"; reason = []; message = [] }

abbrev deployment : ℤ → Deployment
deployment n = record {
  spec_replicas = some (pos 2);
  generation = pos 4;
  observed_generation = pos 4;
  updated_replicas = n;
  replicas = n;
  available_replicas = n;
  conditions = available ∷ [];
}

abbrev updating : Poll
updating = record { reply = found (deployment (pos 1)); ctx_err = none; woken = none }

abbrev ready : Poll
ready = record { reply = found (deployment (pos 2)); ctx_err = none; woken = none }

abbrev late : Poll
late = record { reply = found (deployment (pos 1)); ctx_err = none; woken = some deadline }

wait_for_rollout_complete_example : Some SawComplete (updating ∷ ready ∷ [])
unfolding wait_for_rollout text_eq
wait_for_rollout_complete_example = wait_for_rollout_complete target (updating ∷ ready ∷ []) refl

wait_for_rollout-timeout_example : Some (DoneBy deadline) (updating ∷ late ∷ [])
unfolding wait_for_rollout text_eq
wait_for_rollout-timeout_example =
    wait_for_rollout-timeout target (updating ∷ late ∷ []) (codes "shiply-prj-shop")
      (codes "app-web") refl

wait_for_rollout-returns_example : wait_for_rollout target (updating ∷ late ∷ []) ≢ none
wait_for_rollout-returns_example =
    wait_for_rollout-returns target deadline (updating ∷ late ∷ []) (later (here (inr refl)))

deployment_rollout_complete_iff_example :
    (deployment_rollout_complete (deployment (pos 2)) ≡ true) ↔ IsComplete (deployment (pos 2))
deployment_rollout_complete_iff_example = deployment_rollout_complete_iff (deployment (pos 2))

rollout_condition_error-eq_example :
    ((c : Condition) × First is_failure c (available ∷ [])
      × (rollout_condition_error (deployment (pos 2)) target ≡ some (failure_of target c)))
    ⊎ (NoneOf is_failure (available ∷ [])
        × (rollout_condition_error (deployment (pos 2)) target ≡ none))
rollout_condition_error-eq_example = rollout_condition_error-eq (deployment (pos 2)) target
