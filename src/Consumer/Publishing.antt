-- ===== src/Consumer/Publishing.antt =====
-- The publishing helpers of consumer.go, the lease renewal's bracket, and how a delivery is settled.
use orchestration_service.Base.{Bool, true, false, Option, some, if◌then◌else◌}
use orchestration_service.Base.Int.{ℤ, pos, negsuc, leb_ℤ}
use Prim.Native.Nat.{◌+◌, ◌-◌, ◌/◌}
use orchestration_service.Text.{Text, codes}
use orchestration_service.Json.{Json}
use orchestration_service.Errors.{GoError, plain}
use orchestration_service.Consumer.World.{
  Environment, Consumer, M, ◌>>=◌, ◌>>◌, pure, record_effect, send, hook, service_publish,
  progress_publish, published, renewal_started, renewal_stopped,
}

-- `deliveryAction`.
pub record DeliveryAction : Type 0 where
  pub ack : Bool
  pub requeue : Bool

abbrev pub action_ack : DeliveryAction
action_ack = record { ack = true; requeue = false }

abbrev pub action_nack_drop : DeliveryAction
action_nack_drop = record { ack = false; requeue = false }

abbrev pub action_nack_requeue : DeliveryAction
action_nack_requeue = record { ack = false; requeue = true }

abbrev pub Outcome : Type 0
Outcome = DeliveryAction × Option GoError

-- A Go duration divided by 3, towards zero.
abbrev third : ℤ → ℤ
third (pos n) = pos (n / 3)
third (negsuc n) = if leb_ℤ (negsuc n) (negsuc 2) then negsuc ((n + 1) / 3 - 1) else pos 0

abbrev pub minute : ℤ
minute = pos 60_000_000_000

abbrev pub no_publisher : GoError
no_publisher = plain (codes "rabbitmq publisher is not initialized")

module _ (env : Environment) (c : Consumer) where
  unfoldable pub publish_progress_event : Text → Text → Json → M (Option GoError)
  publish_progress_event exchange routing_key event =
      if c.has_hook
      then send env (published hook exchange routing_key event)
      else if c.has_publisher
      then send env (published progress_publish exchange routing_key event)
      else pure (some no_publisher)

  unfoldable pub publish_json_event : Text → Text → Json → M (Option GoError)
  publish_json_event exchange routing_key event =
      if c.has_publisher
      then send env (published service_publish exchange routing_key event)
      else pure (some no_publisher)

  unfoldable pub publish_event : Text → Text → Json → M (Option GoError)
  unfolding publish_json_event
  publish_event exchange routing_key event =
      if c.has_hook
      then send env (published hook exchange routing_key event)
      else publish_json_event exchange routing_key event

-- The period of the renewal loop.
unfoldable pub renewal_period : Consumer → ℤ
renewal_period c = let d = third c.cfg.lease_duration in if leb_ℤ d (pos 0) then minute else d

-- `stopRenew := c.startLeaseRenewal(id); defer stopRenew()` around the rest of a handler. The calls of
-- `Renew` that the loop makes meanwhile are among the environment's background calls.
unfoldable pub with_renewal : {A : Type 0} → Consumer → M A → M A
unfolding renewal_period
with_renewal c body =
    if c.has_ledger
    then (do
      record_effect (renewal_started (renewal_period c))
      a ← body
      record_effect renewal_stopped
      pure a)
    else body
