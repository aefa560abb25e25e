-- ===== src/Rollout.antt =====
-- rollout.go: the reading of a Deployment's status and the polling loop of `WaitForRollout`.
pub mod Status
pub mod Waiting
mod Tests
use orchestration_service.Base.{
  Bool, true, false, ◌&&◌, Option, none, some, List, [], ◌∷◌, if◌then◌else◌,
}
use orchestration_service.Base.Int.{ℤ, pos, eq_ℤ, leb_ℤ}
use orchestration_service.Text.{Text, codes, text_eq}
use orchestration_service.Errors.{
  GoError, wrapped, rollout_timeout, rollout_failed, deadline_exceeded, canceled,
}
use orchestration_service.Names.{DeploymentTarget}

-- The fields of the Kubernetes objects that the service reads.
pub record Condition : Type 0 where
  pub kind : Text
  pub status : Text
  pub reason : Text
  pub message : Text

pub record Deployment : Type 0 where
  pub spec_replicas : Option ℤ
  pub generation : ℤ
  pub observed_generation : ℤ
  pub updated_replicas : ℤ
  pub replicas : ℤ
  pub available_replicas : ℤ
  pub conditions : List Condition

abbrev pub is_stalled : Condition → Bool
is_stalled c =
    text_eq c.kind (codes "Progressing")
    && text_eq c.status (codes "False")
    && text_eq c.reason (codes "ProgressDeadlineExceeded")

abbrev pub is_replica_failure : Condition → Bool
is_replica_failure c = text_eq c.kind (codes "ReplicaFailure") && text_eq c.status (codes "True")

abbrev pub is_available : Condition → Bool
is_available c = text_eq c.kind (codes "Available") && text_eq c.status (codes "True")

abbrev pub failure_of : DeploymentTarget → Condition → GoError
failure_of target c = rollout_failed target.namespace target.deployment_name c.reason c.message

scan_conditions : DeploymentTarget → List Condition → Option GoError
scan_conditions target [] = none
scan_conditions target (c ∷ cs) =
    if is_stalled c
    then some (failure_of target c)
    else if is_replica_failure c
    then some (failure_of target c)
    else scan_conditions target cs

unfoldable pub rollout_condition_error : Deployment → DeploymentTarget → Option GoError
unfolding scan_conditions
rollout_condition_error deployment target = scan_conditions target deployment.conditions

any_available : List Condition → Bool
any_available [] = false
any_available (c ∷ cs) = if is_available c then true else any_available cs

abbrev pub wanted_replicas : Deployment → ℤ
wanted_replicas d = elim d.spec_replicas [ none ↦ pos 1 | some n ↦ n ]

unfoldable pub deployment_rollout_complete : Deployment → Bool
unfolding any_available
deployment_rollout_complete d =
    any_available d.conditions
    && leb_ℤ d.generation d.observed_generation
    && eq_ℤ d.updated_replicas (wanted_replicas d)
    && eq_ℤ d.replicas (wanted_replicas d)
    && eq_ℤ d.available_replicas (wanted_replicas d)

-- Why a context is done.
pub data ContextError : Type 0 where
  deadline cancelled : ContextError

abbrev pub context_error : ContextError → GoError
context_error deadline = deadline_exceeded
context_error cancelled = canceled

-- One round of the loop as the environment plays it: what `Get` returns, what `ctx.Err()` is after it,
-- and which case of the `select` fires: the ticker (`none`), or `ctx.Done()` with its cause.
pub data Reply : Type 0 where
  found : Deployment → Reply
  failed : GoError → Reply

pub record Poll : Type 0 where
  pub reply : Reply
  pub ctx_err : Option ContextError
  pub woken : Option ContextError

-- `rolloutTimeoutError` for a deadline, `ctx.Err()` otherwise.
abbrev pub stopped : DeploymentTarget → ContextError → GoError
stopped target deadline = rollout_timeout target.namespace target.deployment_name
stopped target cancelled = canceled

-- How a round ends: the loop returns (`some` its error), or goes on.
pub data Turn : Type 0 where
  return : Option GoError → Turn
  again : Turn

after_check : DeploymentTarget → Option ContextError → Option ContextError → Turn
after_check target (some cause) woken = return (some (stopped target cause))
after_check target none (some cause) = return (some (stopped target cause))
after_check target none none = again

inspect : DeploymentTarget → Poll → Reply → Turn
unfolding rollout_condition_error deployment_rollout_complete after_check
inspect target p (failed e) = return (some (wrapped (codes "get deployment status: ") e))
inspect target p (found d) = elim (rollout_condition_error d target) [
  | some e ↦ return (some e)
  | none ↦
      if deployment_rollout_complete d then return none else after_check target p.ctx_err p.woken
]

-- `none` is a schedule that ends before the loop returns.
unfoldable pub wait_for_rollout : DeploymentTarget → List Poll → Option (Option GoError)
unfolding inspect
wait_for_rollout target [] = none
wait_for_rollout target (p ∷ ps) = elim (inspect target p p.reply) [
  | return result ↦ some result
  | again ↦ wait_for_rollout target ps
]
