-- ===== src/Wiring/Start.antt =====
-- `NewDeployConsumer`, `DeployConsumer.Close`, `declareDeployRetryTopology`, `NewRabbitPublisher` and
-- `NewPostgresStageLedger`.
use orchestration_service.Base.{
  ℕ, suc, ◌+◌, ◌/◌, Bool, true, false, not, ◌&&◌, ◌||◌, ◌++◌, Option, none, some, List, [], ◌∷◌,
  if◌then◌else◌, leb, ◌==◌,
}
use orchestration_service.Base.Int.{ℤ, pos, negsuc, ◌-ℤ◌, ◌+ℤ◌, to_int32}
use orchestration_service.Text.{Text, codes, is_empty, decimal}
use orchestration_service.Errors.{GoError, plain, wrapped}
use orchestration_service.Errors.Result.{Result, ok, err}
use orchestration_service.Config.{Config}
use orchestration_service.Wiring.Link.{
  QueueArguments, Environment, M, ◌>>◌, pure, check, try, fail_with, call, open_new, close_all,
  dial, open_channel, declare_exchange, declare_queue, bind_queue, set_qos, enable_confirms,
  notify_return, open_database, ping,
}

-- `DeployConsumer`: the numbers of what it has opened, where the field is set.
pub record Opened : Type 0 where
  pub conn : Option ℕ
  pub ch : Option ℕ
  pub pub_ch : Option ℕ
  pub ledger : Option ℕ

pub record ExchangeSpec : Type 0 where
  pub name : Text
  pub kind : Text

-- A duration in whole milliseconds, towards zero.
abbrev pub milliseconds : ℤ → ℤ
milliseconds (pos n) = pos (n / 1_000_000)
milliseconds (negsuc n) = pos 0 -ℤ pos ((n + 1) / 1_000_000)

abbrev pub retry_arguments : Config → ℤ → QueueArguments
retry_arguments cfg d = record {
  message_ttl = to_int32 (milliseconds d);
  dead_letter_exchange = cfg.rabbitmq_exchange;
  dead_letter_routing_key = cfg.build_succeeded_routing_key;
}

abbrev pub exchanges : Config → List ExchangeSpec
exchanges cfg =
    record { name = cfg.rabbitmq_exchange; kind = codes "direct" }
    ∷ record { name = cfg.deployment_exchange; kind = codes "topic" }
    ∷ []

-- `[a-z_]` and `[a-z0-9_]`.
abbrev schema_start : ℕ → Bool
schema_start c = leb b'a' c && leb c b'z' || c == b'_'

abbrev schema_rest : ℕ → Bool
schema_rest c = schema_start c || leb b'0' c && leb c b'9'

unfoldable pub all_schema : Text → Bool
all_schema [] = true
all_schema (c ∷ s) = schema_rest c && all_schema s

-- `schemaPattern.MatchString`.
unfoldable pub matches_schema : Text → Bool
unfolding all_schema
matches_schema [] = false
matches_schema (c ∷ s) = schema_start c && all_schema s

module _ (env : Environment) where
  -- What was opened is closed, and the error returned.
  abbrev pub abandon : {A : Type 0} → List ℕ → GoError → M (Result A)
  abandon xs e = close_all env xs >> fail_with e

  -- `NewPostgresStageLedger`.
  unfoldable pub new_postgres_stage_ledger : Text → Text → M (Result ℕ)
  unfolding matches_schema
  new_postgres_stage_ledger url schema =
      if is_empty url
      then fail_with (plain (codes "DATABASE_URL is required"))
      else if not (matches_schema schema)
      then fail_with (plain (codes "invalid ledger schema " ++ env.quote schema))
      else try (open_new env (open_database url)) fail_with (λ db.
        check (call env (ping db))
          (λ e. abandon (db ∷ []) (wrapped (codes "connect stage ledger: ") e)) (pure (ok db)))

  -- The loop over the exchanges, and what follows it.
  unfoldable pub declare_exchanges : ℕ → List ExchangeSpec → M (Result ℕ)
  declare_exchanges ch [] =
      check (call env (enable_confirms ch))
        (λ e. abandon (ch ∷ []) (wrapped (codes "enable publisher confirms: ") e))
        (call env (notify_return ch) >> pure (ok ch))
  declare_exchanges ch (x ∷ xs) =
      let next = declare_exchanges ch xs in
      check (call env (declare_exchange ch x.name x.kind))
        (λ e. abandon (ch ∷ []) (wrapped (codes "declare exchange " ++ (x.name ++ codes ": ")) e))
        next

  unfoldable pub new_rabbit_publisher : ℕ → List ExchangeSpec → M (Result ℕ)
  unfolding declare_exchanges
  new_rabbit_publisher conn specs =
      try (open_new env (open_channel conn))
        (λ e. fail_with (wrapped (codes "open publish channel: ") e))
        (λ ch. declare_exchanges ch specs)

  -- The loop over the backoffs, from the one of number `n`.
  unfoldable pub declare_retry_queues : Config → ℕ → ℕ → List ℤ → M (Option GoError)
  declare_retry_queues cfg ch n [] = pure none
  declare_retry_queues cfg ch n (d ∷ ds) =
      let next = declare_retry_queues cfg ch (suc n) ds in
      let name = cfg.retry_queue_prefix ++ (codes "." ++ decimal (pos n +ℤ pos 1)) in
      check (call env (declare_queue ch name (some (retry_arguments cfg d)))) (λ e. pure (some e))
        next

  unfoldable pub declare_deploy_retry_topology : Config → ℕ → M (Option GoError)
  unfolding declare_retry_queues
  declare_deploy_retry_topology cfg ch =
      check (call env (declare_queue ch cfg.dlq none))
        (λ e. pure (some (wrapped (codes "declare deploy dlq: ") e)))
        (declare_retry_queues cfg ch 0 cfg.retry_backoffs)

  unfoldable pub close_one : Option ℕ → M (Unit {0})
  close_one none = pure tt
  close_one (some x) = close_all env (x ∷ [])

  -- `Close`.
  unfoldable pub close_consumer : Opened → M (Unit {0})
  unfolding close_one
  close_consumer c =
      close_one c.ledger >> (close_one c.pub_ch >> (close_one c.ch >> close_one c.conn))

  -- From the ledger on.
  unfoldable pub with_ledger : Config → ℕ → ℕ → ℕ → M (Result Opened)
  unfolding new_postgres_stage_ledger close_consumer
  with_ledger cfg conn ch pub_ch =
      let consumer : Opened = record {
        conn = some conn;
        ch = some ch;
        pub_ch = some pub_ch;
        ledger = none;
      } in
      try (new_postgres_stage_ledger cfg.database_url cfg.ledger_schema)
        (λ e. close_consumer consumer >> fail_with (wrapped (codes "initialize stage ledger: ") e))
        (λ db. pure (ok (record consumer { ledger = some db })))

  -- From the publisher on.
  unfoldable pub with_publisher : Config → ℕ → ℕ → M (Result Opened)
  unfolding new_rabbit_publisher with_ledger
  with_publisher cfg conn ch =
      try (new_rabbit_publisher conn (exchanges cfg))
        (λ e. abandon (ch ∷ conn ∷ []) (wrapped (codes "initialize publisher: ") e))
        (with_ledger cfg conn ch)

  -- The steps on the consumer's channel, up to the first that fails.
  abbrev on_channel :
      ℕ → ℕ → M (Option GoError) → (GoError → GoError) → M (Result Opened) → M (Result Opened)
  on_channel conn ch m about next = check m (λ e. abandon (ch ∷ conn ∷ []) (about e)) next

  abbrev pub named : Text → Option GoError → Result Text
  named name none = ok name
  named name (some e) = err e

  -- `ch.QueueDeclare`, with the name that it returns.
  unfoldable pub declare_named : ℕ → Text → M (Result Text)
  unfolding call
  declare_named ch name w =
      let (e, w') = call env (declare_queue ch name none) w in
      (named (env.queue_name w.tick name) e, w')

  -- From the binding of the queue on.
  unfoldable pub with_queue : Config → ℕ → ℕ → Text → M (Result Opened)
  unfolding declare_deploy_retry_topology with_publisher
  with_queue cfg conn ch queue =
      on_channel conn ch
        (call env (bind_queue ch queue cfg.build_succeeded_routing_key cfg.rabbitmq_exchange))
        (wrapped (codes "bind queue: "))
        (on_channel conn ch (declare_deploy_retry_topology cfg ch) (λ e. e)
          (on_channel conn ch (call env (set_qos ch (pos 1))) (wrapped (codes "set qos: "))
            (with_publisher cfg conn ch)))

  -- From the exchange on.
  unfoldable pub with_channel : Config → ℕ → ℕ → M (Result Opened)
  unfolding declare_named with_queue
  with_channel cfg conn ch =
      on_channel conn ch (call env (declare_exchange ch cfg.rabbitmq_exchange (codes "direct")))
        (wrapped (codes "declare exchange: "))
        (try (declare_named ch cfg.app_deploy_queue)
          (λ e. abandon (ch ∷ conn ∷ []) (wrapped (codes "declare queue: ") e))
          (with_queue cfg conn ch))

  unfoldable pub new_deploy_consumer : Config → M (Result Opened)
  unfolding with_channel
  new_deploy_consumer cfg =
      try (open_new env (dial cfg.rabbitmq_url))
        (λ e. fail_with (wrapped (codes "connect rabbitmq: ") e))
        (λ conn.
          try (open_new env (open_channel conn))
            (λ e. abandon (conn ∷ []) (wrapped (codes "open rabbitmq channel: ") e))
            (with_channel cfg conn))
