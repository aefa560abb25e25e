-- ===== src/Consumer/Delivery/Lossless.antt =====
-- What an acknowledged delivery leaves in the queues.
use orchestration_service.Base.{
  ℕ, ◌≡◌, inl, refl, subst, Bool, true, false, Option, none, some, List, [], ◌∷◌, length, arith,
  if◌then◌else◌,
}
use orchestration_service.Base.Int.{ℤ}
use orchestration_service.Text.{Text}
use orchestration_service.Json.{Json}
use orchestration_service.Errors.{GoError}
use orchestration_service.Consumer.World.{
  Environment, Consumer, World, Effect, M, branch, Headers, queued, send, answer, advance, acked,
  nacked, record_effect,
}
use orchestration_service.Consumer.Rules.{OnLog, OnLog-Endures, Keeps-pure, Keeps-if}
use orchestration_service.Ledger.{Fault, undone, unconfirmed}
use orchestration_service.Consumer.Publishing.{Outcome}
use orchestration_service.Consumer.Handler.{handle_message}
use orchestration_service.Consumer.Handler.Quiet.{Quiet, handle_message-quiet}
use orchestration_service.Consumer.Delivery.{
  Delivery, retry_queue, enqueue, copy_to_dlq_attempt, copy_to_dlq, next_attempt, requeue_later,
  give_up, schedule_retry, ack_or_nack, settle_retry, settle, process_delivery,
}
use orchestration_service.Consumer.Delivery.Keeping.{
  release_claim-Keeps, emit_retrying-Keeps, emit_exhausted-Keeps,
}
use orchestration_service.Consumer.Delivery.Copying.{
  IsRetryOrDlq, Counts, next_attempt-declared, IsCopied, AtLeast, AtLeast-Allows, IsCopied-Allows,
  Copies, Copies-next, Copies-first, Copies-if,
}

module _ (c : Consumer) (n : ℕ) (body : Option Json) where
  module _ (env : Environment) where
    send-Copies :
        (queue : Text) (h : Headers)
        → IsRetryOrDlq c queue
        → Copies c n body (send env (queued queue h body))
    unfolding send answer
    send-Copies queue h k = record { at = λ w q. go (env.publish_reply w.tick) (advance env w) q }
      where
        go :
            (f : Option Fault) (w : World)
            → AtLeast n w.log
            → (answer env f (queued queue h body) w).0 ≡ none
            → IsCopied c n body (answer env f (queued queue h body) w).1.log
        go none w q z = record {
          queue = queue;
          named = k;
          headers = h;
          later = [];
          earlier = w.log;
          shape = refl;
          since = q;
        }
        go (some (undone err)) w q z = cc
        go (some (unconfirmed err)) w q z = cc

    enqueue-Copies :
        (queue : Text) (h : Headers)
        → IsRetryOrDlq c queue
        → Copies c n body (enqueue env c queue h body)
    unfolding enqueue
    enqueue-Copies queue h k =
        Copies-if c n body c.has_publisher _ _ (send-Copies queue h k) (record { at = λ w q z. cc })

    IsCopied-quiet : Quiet (OnLog (IsCopied c n body))
    IsCopied-quiet e h = IsCopied-Allows c n body e

    AtLeast-quiet : Quiet (OnLog (AtLeast n))
    AtLeast-quiet e h = AtLeast-Allows n e

    requeue_later-Copies :
        (h : Headers) (cause : GoError) (count : Bool) (attempt : ℤ)
        → IsRetryOrDlq c (retry_queue c.cfg attempt)
        → Copies c n body
            (requeue_later env c (record { headers = h; body = body }) cause count attempt)
    unfolding requeue_later
    requeue_later-Copies h cause count attempt known =
        Copies-next c n body _ _
          (Keeps-if (OnLog (AtLeast n)) count _ _
            (emit_retrying-Keeps (OnLog (AtLeast n)) AtLeast-quiet (OnLog-Endures (AtLeast n)) env c
              body attempt cause)
            (Keeps-pure (OnLog (AtLeast n)) none))
          (Copies-first c n body _ _ (enqueue-Copies _ _ known) (
            Keeps-if (OnLog (IsCopied c n body)) count _ _
              (release_claim-Keeps (OnLog (IsCopied c n body)) IsCopied-quiet
                (OnLog-Endures (IsCopied c n body)) env c body)
              (Keeps-pure (OnLog (IsCopied c n body)) none)))

    give_up-Copies :
        (h : Headers) (cause : GoError) (attempt : ℤ)
        → Copies c n body (give_up env c (record { headers = h; body = body }) cause attempt)
    unfolding give_up copy_to_dlq_attempt
    give_up-Copies h cause attempt =
        Copies-next c n body _ _
          (emit_exhausted-Keeps (OnLog (AtLeast n)) AtLeast-quiet (OnLog-Endures (AtLeast n)) env c
            body cause)
          (enqueue-Copies _ _ (inl refl))

    schedule_retry-Copies :
        (h : Headers) (cause : GoError) (count : Bool)
        → Counts c h
        → Copies c n body (schedule_retry env c (record { headers = h; body = body }) cause count)
    unfolding schedule_retry
    schedule_retry-Copies h cause count counts =
        let msg : Delivery = record { headers = h; body = body } in
        let attempt = next_attempt env c msg count in
        Copies-if c n body _ _ _ (give_up-Copies h cause attempt) (
          requeue_later-Copies h cause count attempt (next_attempt-declared env c msg count counts))

    copy_to_dlq-Copies :
        (h : Headers) (e : Option GoError)
        → Copies c n body (copy_to_dlq env c (record { headers = h; body = body }) e)
    unfolding copy_to_dlq copy_to_dlq_attempt
    copy_to_dlq-Copies h e = enqueue-Copies _ _ (inl refl)

    -- What an acknowledgement of a message that the handler does not acknowledge stands for.
    abbrev Acked : M (Unit {0}) → World → Type 0
    Acked m w = (rest : List Effect) → (m w).1.log ≡ acked ∷ rest → IsCopied c n body rest

    ack_or_nack-Acked :
        (m : M (Option GoError)) (b : Bool) (w : World)
        → Copies c n body m
        → AtLeast n w.log
        → Acked (ack_or_nack env c m b) w
    unfolding ack_or_nack
    ack_or_nack-Acked m b w k q = go (m w).0 (m w).1 (k.at w q)
      where
        go :
            (e : Option GoError) (w : World)
            → (e ≡ none → IsCopied c n body w.log)
            → Acked (branch (λ err. record_effect (nacked b)) (record_effect acked) e) w
        go none w h rest e = subst (IsCopied c n body) (tail_eq e) (h refl)
          where
            tail_eq : acked ∷ w.log ≡ acked ∷ rest → w.log ≡ rest
            tail_eq e = cc
        go (some err) w h rest e = cc

    settle_retry-Acked :
        (h : Headers) (err : Option GoError) (w : World)
        → Counts c h
        → AtLeast n w.log
        → Acked (settle_retry env c (record { headers = h; body = body }) err) w
    unfolding settle_retry
    settle_retry-Acked h none w counts q rest e = cc
    settle_retry-Acked h (some err) w counts q rest e =
        ack_or_nack-Acked _ true w (schedule_retry-Copies h err _ counts) q rest e

    settle-Acked :
        (h : Headers) (o : Outcome) (w : World)
        → Counts c h
        → o.0.ack ≡ false
        → AtLeast n w.log
        → Acked (settle env c (record { headers = h; body = body }) o) w
    unfolding settle
    settle-Acked h (action, err) w counts a q =
        if_Acked action.ack _ _ w (λ t. cc)
          λ f.
            if_Acked c.has_channel _ _ w
              (λ t.
                if_Acked action.requeue _ _ w (λ t. settle_retry-Acked h err w counts q)
                  λ f. ack_or_nack-Acked _ false w (copy_to_dlq-Copies h err) q)
              λ f rest e. cc
      where
        if_Acked :
            (b : Bool) (m m' : M (Unit {0})) (w : World)
            → (b ≡ true → Acked m w)
            → (b ≡ false → Acked m' w)
            → Acked (if b then m else m') w
        if_Acked true m m' w t f = t refl
        if_Acked false m m' w t f = f refl

-- Where there is a backoff and the message's attempt is not negative, nor the one after it as the code
-- counts it: if the last effect of a delivery is its ack, and the handler did not ask for one, then since
-- it came the broker has taken a message with its body for the dead letter queue or for one of the
-- retry queues that the consumer declares.
pub process_delivery-IsCopied :
    (env : Environment) (c : Consumer) (msg : Delivery) (w : World) (rest : List Effect)
    → Counts c msg.headers
    → (handle_message env c msg.body w).0.0.ack ≡ false
    → (process_delivery env c msg w).1.log ≡ acked ∷ rest
    → IsCopied c (length w.log) msg.body rest
unfolding process_delivery
process_delivery-IsCopied env c msg w rest counts a e =
    let n = length w.log in
    settle-Acked c n msg.body env msg.headers (handle_message env c msg.body w).0
      (handle_message env c msg.body w).1 counts a
      ((handle_message-quiet (OnLog (AtLeast n)) (λ e h. AtLeast-Allows n e)
          (OnLog-Endures (AtLeast n)) env c msg.body).at
        w (omega arith))
      rest e
