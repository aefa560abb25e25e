-- ===== src/Errors/Result.antt =====
-- Functions that return a value and an error.
use orchestration_service.Errors.{GoError}

-- The value, if the error is nil; callers use the value only then.
pub data Result {ℓ} (A : Type ℓ) : Type ℓ where
  ok : A → Result A
  err : GoError → Result A
