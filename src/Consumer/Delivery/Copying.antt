-- ===== src/Consumer/Delivery/Copying.antt =====
-- What it means that a message has been copied to a queue, and rules for runs that copy it.
use orchestration_service.Base.{
  ℕ, ◌≤◌, ◌≡◌, ◌⊎◌, inr, refl, ap, Bool, true, false, Option, none, some, List, ◌∷◌, ◌++◌, length,
  get_elem?, ◌<◌, arith, if◌then◌else◌,
}
use orchestration_service.Base.Int.{pos, leb_ℤ, increment}
use orchestration_service.Text.{Text}
use orchestration_service.Json.{Json}
use orchestration_service.Errors.{GoError}
use orchestration_service.Consumer.World.{
  Environment, Consumer, World, Effect, M, pure, check, branch, Headers, queued,
}
use orchestration_service.Consumer.Rules.{Keeps, Allows, OnLog}
use orchestration_service.Consumer.Delivery.{
  Delivery, retry_queue, declared_queues, deploy_header_attempt, next_attempt,
}
use orchestration_service.Consumer.Delivery.Queues.{retry_queue-declared}

-- The dead letter queue, or one of the retry queues that the consumer declares.
abbrev pub IsRetryOrDlq : Consumer → Text → Type 0
IsRetryOrDlq c queue =
    (queue ≡ c.cfg.dlq)
    ⊎ ((i : ℕ) × (get_elem? (declared_queues c.cfg.retry_queue_prefix 0 c.cfg.retry_backoffs) i
          ≡ some queue))

-- There is a backoff, and neither the attempt in the headers nor the one after it is negative.
abbrev pub Counts : Consumer → Headers → Type 0
Counts c h =
    (0 < length c.cfg.retry_backoffs)
    × (leb_ℤ (pos 0) (deploy_header_attempt h) ≡ true)
    × (leb_ℤ (pos 0) (increment (deploy_header_attempt h)) ≡ true)

pub next_attempt-declared :
    (env : Environment) (c : Consumer) (msg : Delivery) (count : Bool)
    → Counts c msg.headers
    → IsRetryOrDlq c (retry_queue c.cfg (next_attempt env c msg count))
next_attempt-declared env c msg true (some_queue, same, next) =
    inr (retry_queue-declared c.cfg (increment (deploy_header_attempt msg.headers)) next some_queue)
next_attempt-declared env c msg false (some_queue, same, next) =
    inr (retry_queue-declared c.cfg (deploy_header_attempt msg.headers) same some_queue)

-- The log has such a queue's copy of the message, made after the first `n` effects.
pub record IsCopied (c : Consumer) (n : ℕ) (body : Option Json) (log : List Effect) : Type 0 where
  pub queue : Text
  pub named : IsRetryOrDlq c queue
  pub headers : Headers
  pub later : List Effect
  pub earlier : List Effect
  pub shape : log ≡ later ++ (queued queue headers body ∷ earlier)
  pub since : n ≤ length earlier

abbrev pub AtLeast : ℕ → List Effect → Type 0
AtLeast n log = n ≤ length log

pub AtLeast-Allows : (n : ℕ) (e : Effect) → Allows (OnLog (AtLeast n)) e
AtLeast-Allows n e w h = omega (arith, h)

pub IsCopied-Allows :
    (c : Consumer) (n : ℕ) (body : Option Json) (e : Effect) → Allows (OnLog (IsCopied c n body)) e
IsCopied-Allows c n body e w h = record {
  queue = h.queue;
  named = h.named;
  headers = h.headers;
  later = e ∷ h.later;
  earlier = h.earlier;
  shape = ap (λ l. e ∷ l) h.shape;
  since = h.since;
}

-- If `m` returns no error, a log of `n` effects or more has a copy afterwards.
pub record Copies (c : Consumer) (n : ℕ) (body : Option Json) (m : M (Option GoError))
    : Type 0 where
  pub at : (w : World) → AtLeast n w.log → (m w).0 ≡ none → IsCopied c n body (m w).1.log

module _ (c : Consumer) (n : ℕ) (body : Option Json) where
  pub Copies-next :
      (m next : M (Option GoError))
      → Keeps (OnLog (AtLeast n)) m
      → Copies c n body next
      → Copies c n body (check m (λ err. pure (some err)) next)
  Copies-next m next k d = record { at = λ w q. go (m w).0 (m w).1 (k.at w q) }
    where
      go :
          (e : Option GoError) (w : World)
          → AtLeast n w.log
          → (branch (λ err. pure (some err)) next e w).0 ≡ none
          → IsCopied c n body (branch (λ err. pure (some err)) next e w).1.log
      go none w q h = d.at w q h
      go (some err) w q h = cc

  pub Copies-first :
      (m next : M (Option GoError))
      → Copies c n body m
      → Keeps (OnLog (IsCopied c n body)) next
      → Copies c n body (check m (λ err. pure (some err)) next)
  Copies-first m next d k = record { at = λ w q. go (m w).0 (m w).1 (d.at w q) }
    where
      go :
          (e : Option GoError) (w : World)
          → (e ≡ none → IsCopied c n body w.log)
          → (branch (λ err. pure (some err)) next e w).0 ≡ none
          → IsCopied c n body (branch (λ err. pure (some err)) next e w).1.log
      go none w q h = k.at w (q refl)
      go (some err) w q h = cc

  pub Copies-if :
      (b : Bool) (m m' : M (Option GoError))
      → Copies c n body m
      → Copies c n body m'
      → Copies c n body (if b then m else m')
  Copies-if true m m' d d' = d
  Copies-if false m m' d d' = d'
