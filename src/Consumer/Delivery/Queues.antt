-- ===== src/Consumer/Delivery/Queues.antt =====
-- The attempt that a message carries, and the queue that a retry of it goes to.
use orchestration_service.Base.{
  ℕ, zero, suc, ◌+◌, ◌-◌, ◌<◌, ◌≡◌, ◌∙◌, sym, ap, true, some, List, [], ◌∷◌, ◌++◌, length,
  get_elem?, leb, arith, Bool-cases, inl, inr,
}
use orchestration_service.Base.Int.{ℤ, pos, negsuc, ◌+ℤ◌, leb_ℤ, increment}
use orchestration_service.Text.{Text, codes, decimal}
use orchestration_service.Errors.{GoError}
use orchestration_service.Config.{Config}
use orchestration_service.Consumer.World.{Consumer, Headers}
use orchestration_service.Consumer.Delivery.{
  Delivery, deploy_header_attempt, retry_index, retry_queue, declared_queues, retry_headers,
}

-- The queue of index `i` is declared.
declared_queues-get :
    (prefix : Text) (n i : ℕ) (ds : List ℤ)
    → i < length ds
    → get_elem? (declared_queues prefix n ds) i
      ≡ some (prefix ++ (codes "." ++ decimal (pos (n + i) +ℤ pos 1)))
unfolding declared_queues
declared_queues-get prefix n i [] h = ground (arith, h)
declared_queues-get prefix n zero (d ∷ ds) h =
    ap (λ k. some (prefix ++ (codes "." ++ decimal (pos k +ℤ pos 1)))) (omega arith)
declared_queues-get prefix n (suc i) (d ∷ ds) h =
    declared_queues-get prefix (suc n) i ds (omega (arith, h))
    ∙ ap (λ k. some (prefix ++ (codes "." ++ decimal (pos k +ℤ pos 1)))) (omega arith)

retry_index-bounds :
    (cfg : Config) (attempt : ℤ)
    → leb_ℤ (pos 0) attempt ≡ true
    → 0 < length cfg.retry_backoffs
    → (i : ℕ) × (retry_index cfg attempt ≡ pos i) × (i < length cfg.retry_backoffs)
unfolding retry_index
retry_index-bounds cfg (pos zero) h k = (0, ground (arith, k), k)
retry_index-bounds cfg (pos (suc a)) h k = elim (Bool-cases (leb (length cfg.retry_backoffs) a)) [
  | inl e ↦ (length cfg.retry_backoffs - 1, ground (arith, k), omega (arith, k))
  | inr e ↦ (a, ground (arith, k), ground (arith, k))
]
retry_index-bounds cfg (negsuc a) h k = ground arith

-- A retry of an attempt that is not negative goes to a queue that the consumer has declared, if there
-- is a backoff.
pub retry_queue-declared :
    (cfg : Config) (attempt : ℤ)
    → leb_ℤ (pos 0) attempt ≡ true
    → 0 < length cfg.retry_backoffs
    → (i : ℕ) × (get_elem? (declared_queues cfg.retry_queue_prefix 0 cfg.retry_backoffs) i
        ≡ some (retry_queue cfg attempt))
unfolding retry_queue
retry_queue-declared cfg attempt h k =
    let (i, e, b) = retry_index-bounds cfg attempt h k in
    (i, declared_queues-get cfg.retry_queue_prefix 0 i cfg.retry_backoffs b ∙ at_index e)
  where
    at_index :
        {i : ℕ}
        → retry_index cfg attempt ≡ pos i
        → some (cfg.retry_queue_prefix ++ (codes "." ++ decimal (pos (0 + i) +ℤ pos 1)))
          ≡ some
              (cfg.retry_queue_prefix ++ (codes "." ++ decimal (retry_index cfg attempt +ℤ pos 1)))
    at_index {i} e =
        ap (λ z. some (cfg.retry_queue_prefix ++ (codes "." ++ decimal (z +ℤ pos 1))))
          (ap pos (omega arith) ∙ sym e)

-- The headers after `n` counted retries, for these causes.
unfoldable pub counted_retries : (ℕ → GoError) → ℕ → Headers → Headers
counted_retries causes zero h = h
counted_retries causes (suc n) h =
    let g = counted_retries causes n h in
    retry_headers g (increment (deploy_header_attempt g)) (causes n)
