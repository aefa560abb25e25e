-- ===== src/Consumer/World.antt =====
-- What the consumer acts on: the stage ledger, the message broker and the cluster. An `Environment`
-- fixes how each outside call is answered, by the number of calls made before; a `World` is the state
-- that the calls change, with the log of what was done, newest first.
use orchestration_service.Base.{ℕ, suc, Bool, Option, none, some, List, ◌∷◌}
use orchestration_service.Base.Int.{ℤ}
use orchestration_service.Text.{Text}
use orchestration_service.Json.{Json}
use orchestration_service.Errors.{GoError}
use orchestration_service.Config.{Config}
use orchestration_service.Names.{DeploymentTarget, DeployRequest}
use orchestration_service.Ledger.{
  Table, StageState, completed, failed, StageRecord, Fault, undone, unconfirmed, ClaimReply,
  run_claim, run_update,
}
use orchestration_service.Ledger.Calls.{Call, step, run}

-- A header's value; a text is its bytes.
pub data HeaderValue : Type 0 where
  int32_value int64_value int_value : ℤ → HeaderValue
  bytes_value : List ℕ → HeaderValue
  other_value : HeaderValue

abbrev pub Headers : Type 0
Headers = List (Text × HeaderValue)

-- Through which function an event is published: the hook `c.publish`, `PublishJSON`, or
-- `PublishProgressJSON`.
pub data Via : Type 0 where
  hook service_publish progress_publish : Via

-- `published` and `queued` are messages that the broker has; `deployed` and `awaited` are calls of the
-- cluster. `persisted`, `released` and `missed` are statements that the ledger carried out, by the row
-- that the table then has: a settled row with its state and its result, another row, or no row, where
-- an UPDATE changes nothing and no error is returned.
pub data Effect : Type 0 where
  published : Via → Text → Text → Json → Effect
  queued : Text → Headers → Option Json → Effect
  persisted : Text → StageState → Json → Effect
  released missed : Text → Effect
  deployed : DeployRequest → Effect
  awaited : DeploymentTarget → Effect
  renewal_started : ℤ → Effect
  renewal_stopped acked panicked : Effect
  nacked : Bool → Effect

pub data DeployReply : Type 0 where
  applied : DeploymentTarget → DeployReply
  rejected : GoError → DeployReply

-- What `WaitForRollout` returns, and whether its context has passed its deadline then.
pub record RolloutReply : Type 0 where
  pub error : Option GoError
  pub expired : Bool

-- `background n` are the ledger calls of others, the renewal loop included, just before call `n`.
pub record Environment : Type 0 where
  pub publish_reply : ℕ → Option Fault
  pub ledger_reply : ℕ → Option Fault
  pub deploy_reply : ℕ → DeployReply
  pub rollout_reply : ℕ → RolloutReply
  pub background : ℕ → List Call
  pub now : ℕ → ℤ
  pub stamp : ℕ → Text
  pub lower_table : ℕ → ℕ
  pub digest : Text → Text
  pub decode_error : Text

-- Which fields of `DeployConsumer` are set; `on_kubernetes` says that the deployer is the
-- `*KubernetesClient`.
pub record Consumer : Type 0 where
  pub cfg : Config
  pub has_ledger : Bool
  pub has_publisher : Bool
  pub has_hook : Bool
  pub has_channel : Bool
  pub on_kubernetes : Bool

pub record World : Type 0 where
  pub ledger : Table
  pub tick : ℕ
  pub log : List Effect

abbrev pub M : Type 0 → Type 0
M A = World → A × World

infixl 5 ◌>>=◌ ◌>>◌
abbrev pub ◌>>=◌ : {A B : Type 0} → M A → (A → M B) → M B
◌>>=◌ m f w = let (a, w') = m w in f a w'

abbrev pub ◌>>◌ : {A B : Type 0} → M A → M B → M B
m >> k = m >>= λ _. k

abbrev pub pure : {A : Type 0} → A → M A
pure a w = (a, w)

abbrev pub record_effect : Effect → M (Unit {0})
record_effect e w = (tt, record w { log = e ∷ w.log })

abbrev pub branch : {A : Type 0} → (GoError → M A) → M A → Option GoError → M A
branch handler next none = next
branch handler next (some err) = handler err

-- `if err := m; err != nil { handler }`, and on with `next`.
abbrev pub check : {A : Type 0} → M (Option GoError) → (GoError → M A) → M A → M A
check m handler next = m >>= branch handler next

-- A context that a call is given: `ended` with its error, once its deadline has passed or its cancel
-- function has been called, by what came first.
pub data Context : Type 0 where
  live : Context
  ended : GoError → Context

unfoldable pub row_effect : Text → StageState → Option Json → Effect
row_effect id completed (some v) = persisted id completed v
row_effect id failed (some v) = persisted id failed v
row_effect id _ _ = released id

-- What a statement has come to, read off the row that it leaves.
unfoldable pub read_back : Text → Option StageRecord → Effect
unfolding row_effect
read_back id none = missed id
read_back id (some r) = row_effect id r.state r.result_json

module _ (env : Environment) where
  -- One more call is made, after what others did to the ledger.
  unfoldable pub advance : World → World
  advance w = record w { ledger = run w.ledger (env.background w.tick); tick = suc w.tick }

  -- The broker's answer to a publish of `e`.
  unfoldable pub answer : Option Fault → Effect → M (Option GoError)
  answer (some (undone err)) e w = (some err, w)
  answer (some (unconfirmed err)) e w = (some err, record w { log = e ∷ w.log })
  answer none e w = (none, record w { log = e ∷ w.log })

  unfoldable pub send : Effect → M (Option GoError)
  unfolding advance answer
  send e w = answer (env.publish_reply w.tick) e (advance w)

  unfoldable pub ledger_claim : Text → Text → ℤ → M ClaimReply
  unfolding advance
  ledger_claim id stage d w =
      let w' = advance w in
      let (table, reply) =
        run_claim (env.ledger_reply w.tick) w'.ledger (env.now w.tick) id stage d in
      (reply, record w' { ledger = table })

  -- The effect of a ledger statement, by how the database answers.
  unfoldable pub noted : Option Fault → Effect → List Effect → List Effect
  noted (some (undone err)) e log = log
  noted (some (unconfirmed err)) e log = e ∷ log
  noted none e log = e ∷ log

  -- A statement under a context: package database/sql refuses a context that has ended.
  unfoldable pub ledger_update : Context → Call → M (Option GoError)
  unfolding advance noted read_back
  ledger_update (ended e) call w = (some e, advance w)
  ledger_update live call w =
      let w' = advance w in
      let after = step w'.ledger call in
      let (table, err) = run_update (env.ledger_reply w.tick) w'.ledger after in
      let e = read_back call.id (after call.id call.stage) in
      (err, record w' { ledger = table; log = noted (env.ledger_reply w.tick) e w'.log })

  unfoldable pub call_deploy : DeployRequest → M DeployReply
  unfolding advance
  call_deploy request w =
      let w' = advance w in (env.deploy_reply w.tick, record w' { log = deployed request ∷ w'.log })

  unfoldable pub call_rollout : DeploymentTarget → M RolloutReply
  unfolding advance
  call_rollout target w =
      let w' = advance w in (env.rollout_reply w.tick, record w' { log = awaited target ∷ w'.log })

  -- `time.Now()`, for an event.
  abbrev pub read_stamp : M Text
  read_stamp w = (env.stamp w.tick, w)
