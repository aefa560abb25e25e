-- ===== src/Errors/Retry.antt =====
-- Which deploy errors are retried: an independent account by the innermost error of the chain.
use orchestration_service.Base.{◌≡◌, refl, Bool, some, true, false, not, ◌&&◌, ◌||◌, arith}
use orchestration_service.Text.{Text}
use orchestration_service.Errors.{
  GoError, plain, wrapped, deadline_exceeded, ownership, rollout_timeout, rollout_failed, status,
  network, url_error, chain_any, is_transient_status, is_ownership, is_rollout_timeout,
  is_rollout_failed, is_retriable_deploy_error, is_transient_rollout_check_error,
}

-- The innermost error.
abbrev pub root : GoError → GoError
root (wrapped t e) = root e
root (url_error t e) = root e
root e = e

-- The errors that stand for a verdict on the deployment itself.
abbrev pub is_verdict : GoError → Bool
is_verdict (ownership t) = true
is_verdict (rollout_timeout ns name) = true
is_verdict (rollout_failed ns name reason message) = true
is_verdict _ = false

-- A failure of the connection, of the deadline, or of the API server.
abbrev pub is_outage : GoError → Bool
is_outage (status r t) = is_transient_status (status r t)
is_outage deadline_exceeded = true
is_outage (network t) = true
is_outage _ = false

-- The chain passes through an HTTP client's error.
abbrev pub through_url : GoError → Bool
through_url (wrapped t e) = through_url e
through_url (url_error t e) = true
through_url _ = false

-- A test that only an innermost error can pass is a test of the innermost error.
chain_any-root :
    (p : GoError → Bool)
    → ((t : Text) (e : GoError) → p (wrapped t e) ≡ false)
    → ((t : Text) (e : GoError) → p (url_error t e) ≡ false)
    → (e : GoError) → chain_any p e ≡ p (root e)
unfolding chain_any
chain_any-root p hw hu (wrapped t e) = rw (hw t e) (chain_any-root p hw hu e)
chain_any-root p hw hu (url_error t e) = rw (hu t e) (chain_any-root p hw hu e)
chain_any-root p hw hu (plain t) = refl
chain_any-root p hw hu _ = refl

chain_any-ownership : (e : GoError) → chain_any is_ownership e ≡ is_ownership (root e)
chain_any-ownership = chain_any-root is_ownership (λ t e. refl) (λ t e. refl)

chain_any-rollout_timeout :
    (e : GoError) → chain_any is_rollout_timeout e ≡ is_rollout_timeout (root e)
chain_any-rollout_timeout = chain_any-root is_rollout_timeout (λ t e. refl) (λ t e. refl)

chain_any-rollout_failed :
    (e : GoError) → chain_any is_rollout_failed e ≡ is_rollout_failed (root e)
chain_any-rollout_failed = chain_any-root is_rollout_failed (λ t e. refl) (λ t e. refl)

is_verdict-eq :
    (e : GoError) → is_verdict e ≡ (is_ownership e || (is_rollout_timeout e || is_rollout_failed e))
is_verdict-eq (ownership t) = refl
is_verdict-eq _ = refl

-- An error is retried exactly when its innermost error is no verdict (ownership, rollout timeout,
-- rollout failure) and it is an outage or came through an HTTP client; wrapping changes nothing.
pub is_retriable_deploy_error-eq :
    (e : GoError)
    → is_retriable_deploy_error e
      ≡ (not (is_verdict (root e)) && (through_url e || is_outage (root e)))
unfolding is_retriable_deploy_error
is_retriable_deploy_error-eq (wrapped t e) = is_retriable_deploy_error-eq e
is_retriable_deploy_error-eq (url_error t e) = ground (
  arith,
  chain_any-ownership e,
  chain_any-rollout_timeout e,
  chain_any-rollout_failed e,
  is_verdict-eq (root e),
)
is_retriable_deploy_error-eq (status r t) = ground arith
is_retriable_deploy_error-eq _ = refl

-- A failed final check of a rollout counts as transient exactly when there is an error and its
-- innermost error is no rollout failure.
pub is_transient_rollout_check_error-eq :
    (e : GoError) → is_transient_rollout_check_error (some e) ≡ not (is_rollout_failed (root e))
unfolding is_transient_rollout_check_error
is_transient_rollout_check_error-eq e = ground (arith, chain_any-rollout_failed e)
