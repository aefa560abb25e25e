-- ===== src/Errors/Tests.antt =====
-- The classes of errors on a wrapped refusal of a connection.
use orchestration_service.Base.{◌≡◌, not, ◌&&◌, ◌||◌, some}
use orchestration_service.Text.{codes}
use orchestration_service.Errors.{
  GoError, network, url_error, wrapped, is_retriable_deploy_error, is_transient_rollout_check_error,
  is_rollout_failed,
}
use orchestration_service.Errors.Retry.{
  root, is_verdict, through_url, is_outage, is_retriable_deploy_error-eq,
  is_transient_rollout_check_error-eq,
}

abbrev refusal : GoError
refusal = wrapped (codes "get namespace: ") (url_error (codes "Get: ") (network (codes "refused")))

is_retriable_deploy_error-eq_example :
    is_retriable_deploy_error refusal
    ≡ (not (is_verdict (root refusal)) && (through_url refusal || is_outage (root refusal)))
is_retriable_deploy_error-eq_example = is_retriable_deploy_error-eq refusal

is_transient_rollout_check_error-eq_example :
    is_transient_rollout_check_error (some refusal) ≡ not (is_rollout_failed (root refusal))
is_transient_rollout_check_error-eq_example = is_transient_rollout_check_error-eq refusal
