-- ===== src/Wiring/Link.antt =====
-- The outside calls of the start-up: RabbitMQ connections and channels, and the database. How they are
-- answered is fixed by an `Environment`, by the number of calls made before.
use orchestration_service.Base.{ℕ, suc, Option, none, some, List, [], ◌∷◌}
use orchestration_service.Base.Int.{ℤ}
use orchestration_service.Text.{Text}
use orchestration_service.Errors.{GoError}
use orchestration_service.Errors.Result.{Result, ok, err}

-- The arguments of a queue: `x-message-ttl`, `x-dead-letter-exchange` and `x-dead-letter-routing-key`.
pub record QueueArguments : Type 0 where
  pub message_ttl : ℤ
  pub dead_letter_exchange : Text
  pub dead_letter_routing_key : Text

-- The calls, with the numbers of the connection, channel or database that they use.
pub data Action : Type 0 where
  dial : Text → Action
  open_channel : ℕ → Action
  declare_exchange : ℕ → Text → Text → Action
  declare_queue : ℕ → Text → Option QueueArguments → Action
  bind_queue : ℕ → Text → Text → Text → Action
  set_qos : ℕ → ℤ → Action
  enable_confirms notify_return : ℕ → Action
  open_database : Text → Action
  ping close : ℕ → Action

-- A call, the number of the call, and its error.
pub record Event : Type 0 where
  pub action : Action
  pub id : ℕ
  pub answer : Option GoError

-- `queue_name` is the name of the queue that a `QueueDeclare` returns.
pub record Environment : Type 0 where
  pub reply : ℕ → Option GoError
  pub queue_name : ℕ → Text → Text
  pub quote : Text → Text

pub record World : Type 0 where
  pub tick : ℕ
  pub log : List Event

abbrev pub M : Type 0 → Type 0
M A = World → A × World

infixl 5 ◌>>=◌ ◌>>◌
abbrev pub ◌>>=◌ : {A B : Type 0} → M A → (A → M B) → M B
◌>>=◌ m f w = let (a, w') = m w in f a w'

abbrev pub ◌>>◌ : {A B : Type 0} → M A → M B → M B
m >> k = m >>= λ _. k

abbrev pub pure : {A : Type 0} → A → M A
pure a w = (a, w)

abbrev pub branch : {A : Type 0} → (GoError → M A) → M A → Option GoError → M A
branch handler next none = next
branch handler next (some e) = handler e

-- `if err := m; err != nil { handler }`, and on with `next`.
abbrev pub check : {A : Type 0} → M (Option GoError) → (GoError → M A) → M A → M A
check m handler next = m >>= branch handler next

abbrev pub with_result : {A B : Type 0} → (GoError → M B) → (A → M B) → Result A → M B
with_result handler next (ok a) = next a
with_result handler next (err e) = handler e

-- `a, err := m; if err != nil { handler }`, and on with `next`.
abbrev pub try : {A B : Type 0} → M (Result A) → (GoError → M B) → (A → M B) → M B
try m handler next = m >>= with_result handler next

abbrev pub fail_with : {A : Type 0} → GoError → M (Result A)
fail_with e = pure (err e)

module _ (env : Environment) where
  unfoldable pub call : Action → M (Option GoError)
  call action w =
      let e = env.reply w.tick in
      (
        e,
        record {
          tick = suc w.tick;
          log = record { action = action; id = w.tick; answer = e } ∷ w.log;
        },
      )

  abbrev pub numbered : ℕ → Option GoError → Result ℕ
  numbered id none = ok id
  numbered id (some e) = err e

  -- A call that opens something, whose number is the call's.
  unfoldable pub open_new : Action → M (Result ℕ)
  unfolding call
  open_new action w = let (e, w') = call action w in (numbered w.tick e, w')

  -- `_ = x.Close()`.
  unfoldable pub close_all : List ℕ → M (Unit {0})
  unfolding call
  close_all [] = pure tt
  close_all (x ∷ xs) = let rest = close_all xs in call (close x) >> rest
