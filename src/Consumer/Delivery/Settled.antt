-- ===== src/Consumer/Delivery/Settled.antt =====
-- How often and when a delivery is settled.
use orchestration_service.Base.{
  ℕ, suc, ◌≡◌, ◌≢◌, ◌⊎◌, refl, Bool, true, false, Option, none, some, List, [], ◌∷◌, if◌then◌else◌,
  inl, inr,
}
use orchestration_service.Errors.{GoError}
use orchestration_service.Consumer.World.{
  Environment, Consumer, World, Effect, M, branch, record_effect, acked, nacked,
}
use orchestration_service.Consumer.Rules.{Keeps, Allows, OnLog, OnLog-Endures}
use orchestration_service.Consumer.Publishing.{Outcome}
use orchestration_service.Consumer.Handler.{handle_message}
use orchestration_service.Consumer.Handler.Quiet.{is_ending, handle_message-quiet}
use orchestration_service.Consumer.Handler.Sound.{IsSound, handle_message-IsSound}
use orchestration_service.Consumer.Delivery.{
  Delivery, copy_to_dlq, schedule_retry, ack_or_nack, settle_retry, settle, process_delivery,
}
use orchestration_service.Consumer.Delivery.Keeping.{schedule_retry-Keeps, copy_to_dlq-Keeps}

abbrev pub endings : List Effect → ℕ
endings [] = 0
endings (e ∷ log) = if is_ending e then suc (endings log) else endings log

-- The log holds `n` endings.
abbrev Ends : ℕ → List Effect → Type 0
Ends n log = endings log ≡ n

quiet_Ends : (n : ℕ) (e : Effect) → is_ending e ≡ false → Allows (OnLog (Ends n)) e
quiet_Ends n e h w q = rw h q

-- `after` is `before` and what led to it, with one ending on top, an ack or a nack.
pub record SettledOnce (before after : List Effect) : Type 0 where
  pub last : Effect
  pub rest : List Effect
  pub shape : after ≡ last ∷ rest
  pub kind : (last ≡ acked) ⊎ ((requeue : Bool) × (last ≡ nacked requeue))
  pub quiet : endings rest ≡ endings before

acked_on :
    (before log : List Effect) → endings log ≡ endings before → SettledOnce before (acked ∷ log)
acked_on before log h = record {
  last = acked;
  rest = log;
  shape = refl;
  kind = inl refl;
  quiet = h;
}

nacked_on :
    (b : Bool) (before log : List Effect)
    → endings log ≡ endings before
    → SettledOnce before (nacked b ∷ log)
nacked_on b before log h = record {
  last = nacked b;
  rest = log;
  shape = refl;
  kind = inr (b, refl);
  quiet = h;
}

module _ (env : Environment) (c : Consumer) (before : List Effect) where
  ack_or_nack-once :
      (m : M (Option GoError)) (b : Bool) (w : World)
      → Keeps (OnLog (Ends (endings before))) m
      → endings w.log ≡ endings before
      → SettledOnce before (ack_or_nack env c m b w).1.log
  unfolding ack_or_nack
  ack_or_nack-once m b w k h = go (m w).0 (m w).1 (k.at w h)
    where
      go :
          (e : Option GoError) (w' : World)
          → endings w'.log ≡ endings before
          → SettledOnce before
              (branch (λ err. record_effect (nacked b)) (record_effect acked) e w').1.log
      go none w' q = acked_on before w'.log q
      go (some err) w' q = nacked_on b before w'.log q

  settle_retry-once :
      (msg : Delivery) (err : Option GoError) (w : World)
      → err ≢ none
      → endings w.log ≡ endings before
      → SettledOnce before (settle_retry env c msg err w).1.log
  unfolding settle_retry
  settle_retry-once msg none w h q = absurd (h refl)
  settle_retry-once msg (some err) w h q =
      ack_or_nack-once (schedule_retry env c msg err _) true w
        (schedule_retry-Keeps _ (quiet_Ends _) (OnLog-Endures (Ends (endings before))) env c msg err
          _)
        q

  if-at :
      (b : Bool) (m n : M (Unit {0})) (w : World)
      → (b ≡ true → SettledOnce before (m w).1.log)
      → (b ≡ false → SettledOnce before (n w).1.log)
      → SettledOnce before ((if b then m else n) w).1.log
  if-at true m n w t f = t refl
  if-at false m n w t f = f refl

  settle-once :
      (msg : Delivery) (o : Outcome) (w : World)
      → IsSound o
      → endings w.log ≡ endings before
      → SettledOnce before (settle env c msg o w).1.log
  unfolding settle
  settle-once msg (action, err) w s q =
      if-at action.ack _ _ w (λ a. acked_on before w.log q)
        λ a.
          if-at c.has_channel _ _ w
            (λ ch.
              if-at action.requeue _ _ w (λ r. settle_retry-once msg err w (s.explained a) q)
                λ r.
                  ack_or_nack-once (copy_to_dlq env c msg err) false w
                    (copy_to_dlq-Keeps _ (quiet_Ends _) (OnLog-Endures (Ends (endings before))) env
                      c msg err)
                    q)
            λ ch. nacked_on action.requeue before w.log q

-- Whatever the message and the answers of the broker, the database and the cluster, handling a delivery
-- ends with one ack or nack of it, which is its last effect; there is no other, and no panic.
pub process_delivery-SettledOnce :
    (env : Environment) (c : Consumer) (msg : Delivery) (w : World)
    → SettledOnce w.log (process_delivery env c msg w).1.log
unfolding process_delivery
process_delivery-SettledOnce env c msg w =
    let n = endings w.log in
    settle-once env c w.log msg (handle_message env c msg.body w).0
      (handle_message env c msg.body w).1 ((handle_message-IsSound env c msg.body).at w)
      ((handle_message-quiet (OnLog (Ends n)) (quiet_Ends n) (OnLog-Endures (Ends n)) env c
          msg.body).at
        w refl)
