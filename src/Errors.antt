-- ===== src/Errors.antt =====
-- Go error values: what `errors.New`, `fmt.Errorf`, package context, the error types of rollout.go
-- and reconciler.go, and the Kubernetes and network libraries put into an error chain.
pub mod Result
pub mod Retry
mod Tests
use orchestration_service.Base.{Bool, true, false, ◌||◌, ◌++◌, Option, none, some, if◌then◌else◌}
use orchestration_service.Text.{Text, codes, is_empty}

-- A Kubernetes status error, by the test of package apierrors that it passes.
pub data StatusReason : Type 0 where
  not_found already_exists conflict invalid : StatusReason
  timeout server_timeout service_unavailable too_many_requests internal_error : StatusReason
  other_reason : StatusReason

-- `wrapped p e` is `fmt.Errorf(p + "%w", e)`; `url_error p e` is a `*url.Error` around `e`, and
-- `network` any other `net.Error`.
pub data GoError : Type 0 where
  plain : Text → GoError
  wrapped : Text → GoError → GoError
  lease_busy deadline_exceeded canceled : GoError
  ownership : Text → GoError
  rollout_timeout : Text → Text → GoError
  rollout_failed : Text → Text → Text → Text → GoError
  status : StatusReason → Text → GoError
  network : Text → GoError
  url_error : Text → GoError → GoError

unfoldable pub error_text : GoError → Text
error_text (plain t) = t
error_text (wrapped p e) = p ++ error_text e
error_text lease_busy = codes "orchestration stage lease is owned by another worker"
error_text deadline_exceeded = codes "context deadline exceeded"
error_text canceled = codes "context canceled"
error_text (ownership t) = t
error_text (rollout_timeout ns name) =
    codes "deployment rollout timed out for " ++ (ns ++ (codes "/" ++ name))
error_text (rollout_failed ns name reason message) =
    codes "deployment rollout failed for "
    ++ (ns
        ++ (codes "/" ++ (name ++ (codes ": " ++ (if is_empty message then reason else message)))))
error_text (status r t) = t
error_text (network t) = t
error_text (url_error p e) = p ++ error_text e

-- `errors.Is` and `errors.As`: a test that holds somewhere in the chain of wrapped errors.
unfoldable pub chain_any : (GoError → Bool) → GoError → Bool
chain_any p (wrapped t e) = p (wrapped t e) || chain_any p e
chain_any p (url_error t e) = p (url_error t e) || chain_any p e
chain_any p e = p e

abbrev pub is_lease_busy : GoError → Bool
is_lease_busy lease_busy = true
is_lease_busy _ = false

abbrev pub is_deadline : GoError → Bool
is_deadline deadline_exceeded = true
is_deadline _ = false

abbrev pub is_ownership : GoError → Bool
is_ownership (ownership t) = true
is_ownership _ = false

abbrev pub is_rollout_timeout : GoError → Bool
is_rollout_timeout (rollout_timeout ns name) = true
is_rollout_timeout _ = false

abbrev pub is_rollout_failed : GoError → Bool
is_rollout_failed (rollout_failed ns name reason message) = true
is_rollout_failed _ = false

abbrev pub is_url_error : GoError → Bool
is_url_error (url_error p e) = true
is_url_error _ = false

-- `net.Error` asks for the methods Timeout and Temporary: a `*url.Error` and
-- `context.DeadlineExceeded` have them too.
abbrev pub is_net_error : GoError → Bool
is_net_error (network t) = true
is_net_error (url_error p e) = true
is_net_error deadline_exceeded = true
is_net_error _ = false

abbrev transient_reason : StatusReason → Bool
transient_reason timeout = true
transient_reason server_timeout = true
transient_reason service_unavailable = true
transient_reason too_many_requests = true
transient_reason internal_error = true
transient_reason _ = false

-- `IsTimeout`, `IsServerTimeout`, `IsServiceUnavailable`, `IsTooManyRequests` or `IsInternalError`.
abbrev pub is_transient_status : GoError → Bool
is_transient_status (status r t) = transient_reason r
is_transient_status _ = false

unfoldable pub is_retriable_deploy_error : GoError → Bool
unfolding chain_any
is_retriable_deploy_error err =
    if chain_any is_ownership err
    then false
    else if chain_any is_rollout_timeout err
    then false
    else if chain_any is_rollout_failed err
    then false
    else if chain_any is_deadline err
    then true
    else if chain_any is_transient_status err
    then true
    else if chain_any is_net_error err
    then true
    else chain_any is_url_error err

unfoldable pub is_transient_rollout_check_error : Option GoError → Bool
unfolding chain_any
is_transient_rollout_check_error none = false
is_transient_rollout_check_error (some err) =
    if chain_any is_rollout_failed err then false else true
