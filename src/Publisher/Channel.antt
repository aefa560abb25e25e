-- ===== src/Publisher/Channel.antt =====
-- A RabbitMQ channel in confirm mode, as package amqp091-go gives it: a state that is unknown, calls that
-- answer anything, and the Go channel of capacity 1 on which it notifies of returned messages.
use orchestration_service.Base.{ℕ, Bool, List}
use orchestration_service.Base.Int.{ℤ}
use orchestration_service.Text.{Text}
use orchestration_service.Errors.{GoError}
use orchestration_service.Errors.Result.{Result}

-- `amqp091.Publishing`, with the fields that are set.
pub record Publishing : Type 0 where
  pub content_type : Text
  pub delivery_mode : ℕ
  pub timestamp : ℤ
  pub message_id : Text
  pub body : List ℕ

-- `amqp091.Return`, with the fields that are read.
pub record Return : Type 0 where
  pub reply_code : ℤ
  pub reply_text : Text
  pub message_id : Text

-- What `PublishWithDeferredConfirmWithContext` returns: an error, no confirmation, or one.
pub data Sent : Type 0 where
  refused : GoError → Sent
  unconfirmed : Sent
  pending : Sent

-- `wait` is `WaitContext` of the last confirmation: whether the message was acked, or an error; with it
-- come the returns that reach the library until then. `id_time` and `timestamp` are
-- two readings of the clock, in nanoseconds.
pub record Broker : Type 1 where
  pub State : Type 0
  pub send : Text → Text → Bool → Publishing → State → Sent × State
  pub wait : State → (Result Bool × List Return) × State
  pub id_time : State → ℤ
  pub timestamp : State → ℤ

-- `returns` are the notifications that have come and were not received, oldest first: the one in the
-- buffer, and those that the library holds until there is room.
pub record Channel (b : Broker) : Type 0 where
  pub state : b.State
  pub returns : List Return
