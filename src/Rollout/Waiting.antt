-- ===== src/Rollout/Waiting.antt =====
-- The polling loop of `WaitForRollout`.
use orchestration_service.Base.{
  ◌≡◌, ◌≢◌, refl, ◌⊎◌, inl, inr, Option, none, some, List, [], ◌∷◌, arith,
}
use orchestration_service.Text.{Text}
use orchestration_service.Errors.{GoError, rollout_timeout}
use orchestration_service.Names.{DeploymentTarget}
use orchestration_service.Rollout.{
  Deployment, ContextError, deadline, Reply, found, failed, Poll, Turn, return, again, inspect,
  after_check, rollout_condition_error, wait_for_rollout,
}
use orchestration_service.Rollout.Status.{
  is_failure, NoneOf, IsComplete, IsFreeOfFailure, NoneOf-IsFreeOfFailure,
  rollout_condition_error-eq, deployment_rollout_complete_iff,
}

Turn-cases : (t : Turn) → ((r : Option GoError) × (t ≡ return r)) ⊎ (t ≡ again)
Turn-cases (return r) = inl (r, refl)
Turn-cases again = inr refl

-- Some poll of the schedule satisfies `P`.
pub data Some (P : Poll → Type 0) : List Poll → Type 0 where
  here : {p : Poll} {ps : List Poll} → P p → Some P (p ∷ ps)
  later : {p : Poll} {ps : List Poll} → Some P ps → Some P (p ∷ ps)

-- The poll saw a deployment that was complete and reported no failure.
abbrev pub SawComplete : Poll → Type 0
SawComplete p = (d : Deployment) × (p.reply ≡ found d) × IsComplete d × IsFreeOfFailure d.conditions

-- The context was done in this round, and by this cause.
abbrev pub DoneBy : ContextError → Poll → Type 0
DoneBy cause p = (p.ctx_err ≡ some cause) ⊎ (p.woken ≡ some cause)

no_condition_error :
    (d : Deployment) (target : DeploymentTarget)
    → rollout_condition_error d target ≡ none
    → NoneOf is_failure d.conditions
no_condition_error d target h = elim (rollout_condition_error-eq d target) [
  | inl (c, f, e) ↦ ground arith
  | inr (n, e) ↦ n
]

-- A round that returns no error saw a complete deployment.
inspect-IsComplete :
    (target : DeploymentTarget) (p : Poll) (r : Reply)
    → inspect target p r ≡ return none
    → (d : Deployment) × (r ≡ found d) × IsComplete d × IsFreeOfFailure d.conditions
unfolding inspect after_check
inspect-IsComplete target p (failed e) h = ground arith
inspect-IsComplete target p (found d) h = (
  d,
  refl,
  (deployment_rollout_complete_iff d).0 (ground arith),
  NoneOf-IsFreeOfFailure d.conditions (no_condition_error d target (ground arith)),
)

after_check-timeout :
    (target : DeploymentTarget) (ctx_err woken : Option ContextError) (ns name : Text)
    → after_check target ctx_err woken ≡ return (some (rollout_timeout ns name))
    → (ctx_err ≡ some deadline) ⊎ (woken ≡ some deadline)
unfolding after_check
after_check-timeout target (some c) woken ns name h = ground arith
after_check-timeout target none (some c) ns name h = ground arith
after_check-timeout target none none ns name h = ground arith

inspect-timeout :
    (target : DeploymentTarget) (p : Poll) (r : Reply) (ns name : Text)
    → inspect target p r ≡ return (some (rollout_timeout ns name))
    → DoneBy deadline p
unfolding inspect
inspect-timeout target p (failed e) ns name h = ground arith
inspect-timeout target p (found d) ns name h = elim (rollout_condition_error-eq d target) [
  | inl (c, f, e) ↦ ground arith
  | inr (n, e) ↦ after_check-timeout target p.ctx_err p.woken ns name (ground arith)
]

-- A round in which the context is done returns.
inspect-done :
    (target : DeploymentTarget) (p : Poll) (r : Reply) (cause : ContextError)
    → DoneBy cause p
    → inspect target p r ≢ again
unfolding inspect after_check
inspect-done target p (failed e) cause h k = ground arith
inspect-done target p (found d) cause h k = ground arith

module _ (target : DeploymentTarget) where
  -- The rollout is reported as ready only if a poll saw the deployment complete and without failure.
  pub wait_for_rollout_complete :
      (ps : List Poll) → wait_for_rollout target ps ≡ some none → Some SawComplete ps
  unfolding wait_for_rollout
  wait_for_rollout_complete [] h = ground arith
  wait_for_rollout_complete (p ∷ ps) h = elim (Turn-cases (inspect target p p.reply)) [
    | inl (result, e) ↦ here (inspect-IsComplete target p p.reply (ground arith))
    | inr e ↦ later (wait_for_rollout_complete ps (ground arith))
  ]

  -- A rollout timeout is reported only if a poll met the deadline of the context.
  pub wait_for_rollout-timeout :
      (ps : List Poll) (ns name : Text)
      → wait_for_rollout target ps ≡ some (some (rollout_timeout ns name))
      → Some (DoneBy deadline) ps
  unfolding wait_for_rollout
  wait_for_rollout-timeout [] ns name h = ground arith
  wait_for_rollout-timeout (p ∷ ps) ns name h = elim (Turn-cases (inspect target p p.reply)) [
    | inl (result, e) ↦ here (inspect-timeout target p p.reply ns name (ground arith))
    | inr e ↦ later (wait_for_rollout-timeout ps ns name (ground arith))
  ]

  -- The loop returns once the context is done, whatever its cause and whatever the polls see.
  pub wait_for_rollout-returns :
      (cause : ContextError) (ps : List Poll)
      → Some (DoneBy cause) ps
      → wait_for_rollout target ps ≢ none
  unfolding wait_for_rollout
  wait_for_rollout-returns cause [] s h = elim s [ ]
  wait_for_rollout-returns cause (p ∷ ps) (here d) h =
      elim (Turn-cases (inspect target p p.reply)) [
        | inl (result, e) ↦ ground arith
        | inr e ↦ inspect-done target p p.reply cause d e
      ]
  wait_for_rollout-returns cause (p ∷ ps) (later s) h =
      ground (arith, wait_for_rollout-returns cause ps s)
