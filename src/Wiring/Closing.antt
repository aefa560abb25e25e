-- ===== src/Wiring/Closing.antt =====
-- The start-up leaves open what the consumer holds, or nothing; `Close` closes that.
use orchestration_service.Base.{
  ℕ, ◌≡◌, refl, arith, ap, ◌∙◌, true, Option, none, some, List, [], ◌∷◌,
}
use orchestration_service.Base.Int.{pos}
use orchestration_service.Text.{Text, codes}
use orchestration_service.Errors.{GoError, wrapped}
use orchestration_service.Errors.Result.{Result, ok}
use orchestration_service.Config.{Config}
use orchestration_service.Wiring.Link.{
  Environment, World, M, check, fail_with, call, open_new, dial, open_channel, declare_exchange,
  declare_queue, bind_queue, set_qos,
}
use orchestration_service.Wiring.Start.{
  Opened, exchanges, abandon, new_postgres_stage_ledger, new_rabbit_publisher,
  declare_deploy_retry_topology, close_consumer, with_ledger, with_publisher, named, declare_named,
  with_queue, with_channel, new_deploy_consumer,
}
use orchestration_service.Wiring.Stack.{
  is_open, live, outcome, Runs, Runs-bind, Runs-pure, Runs-check, Runs-try, call-Runs, abandon-Runs,
  open_new-Runs,
}
use orchestration_service.Wiring.Parts.{
  holdings, fails, new_postgres_stage_ledger-Runs, new_rabbit_publisher-Runs,
  declare_deploy_retry_topology-Runs, close_consumer-Runs,
}

module _ (env : Environment) where
  with_ledger-Runs :
      (cfg : Config) (conn ch pub_ch : ℕ)
      → Runs (pub_ch ∷ ch ∷ conn ∷ []) (with_ledger env cfg conn ch pub_ch) (outcome [] holdings)
  unfolding with_ledger
  with_ledger-Runs cfg conn ch pub_ch =
      let consumer : Opened = record {
        conn = some conn;
        ch = some ch;
        pub_ch = some pub_ch;
        ledger = none;
      } in
      let s : List ℕ = pub_ch ∷ ch ∷ conn ∷ [] in
      Runs-try s (outcome [] holdings) (λ db. db ∷ s)
        (new_postgres_stage_ledger env cfg.database_url cfg.ledger_schema) _ _
        (new_postgres_stage_ledger-Runs env s cfg.database_url cfg.ledger_schema)
        (λ e.
          Runs-bind s (λ _. []) (outcome [] holdings) (close_consumer env consumer)
            (λ _. fail_with (wrapped (codes "initialize stage ledger: ") e))
            (close_consumer-Runs env consumer) λ _. fails env holdings [] _)
        (λ db. Runs-pure (outcome [] holdings) (ok (record consumer { ledger = some db })))

  with_publisher-Runs :
      (cfg : Config) (conn ch : ℕ)
      → Runs (ch ∷ conn ∷ []) (with_publisher env cfg conn ch) (outcome [] holdings)
  unfolding with_publisher
  with_publisher-Runs cfg conn ch =
      let s : List ℕ = ch ∷ conn ∷ [] in
      Runs-try s (outcome [] holdings) (λ x. x ∷ s) (new_rabbit_publisher env conn (exchanges cfg))
        _ (with_ledger env cfg conn ch)
        (new_rabbit_publisher-Runs env s conn (exchanges cfg) (ground arith))
        (λ e.
          abandon-Runs env [] holdings (ch ∷ conn ∷ [])
            (wrapped (codes "initialize publisher: ") e))
        (with_ledger-Runs cfg conn ch)

  -- A step on the consumer's channel.
  on_channel-Runs :
      (conn ch : ℕ) (m : M (Option GoError)) (about : GoError → GoError) (next : M (Result Opened))
      → Runs (ch ∷ conn ∷ []) m (λ _. ch ∷ conn ∷ [])
      → Runs (ch ∷ conn ∷ []) next (outcome [] holdings)
      → Runs
          (ch ∷ conn ∷ [])
          (check m (λ e. abandon env (ch ∷ conn ∷ []) (about e)) next)
          (outcome [] holdings)
  on_channel-Runs conn ch m about next t n =
      Runs-check (ch ∷ conn ∷ []) (outcome [] holdings) m _ next t
        (λ e. abandon-Runs env [] holdings (ch ∷ conn ∷ []) (about e)) n

  with_queue-Runs :
      (cfg : Config) (conn ch : ℕ) (queue : Text)
      → Runs (ch ∷ conn ∷ []) (with_queue env cfg conn ch queue) (outcome [] holdings)
  unfolding with_queue
  with_queue-Runs cfg conn ch queue =
      let s : List ℕ = ch ∷ conn ∷ [] in
      let bind = bind_queue ch queue cfg.build_succeeded_routing_key cfg.rabbitmq_exchange in
      on_channel-Runs conn ch (call env bind) (wrapped (codes "bind queue: ")) _
        (call-Runs env s bind (λ id e. ground arith))
        (on_channel-Runs conn ch (declare_deploy_retry_topology env cfg ch) (λ e. e) _
          (declare_deploy_retry_topology-Runs env cfg s ch (ground arith))
          (on_channel-Runs conn ch (call env (set_qos ch (pos 1))) (wrapped (codes "set qos: "))
            (with_publisher env cfg conn ch)
            (call-Runs env s (set_qos ch (pos 1)) (λ id e. ground arith))
            (with_publisher-Runs cfg conn ch)))

  named-outcome :
      (s : List ℕ) (name : Text) (e : Option GoError) → s ≡ outcome s (λ _. s) (named env name e)
  named-outcome s name none = refl
  named-outcome s name (some e) = refl

  declare_named-Runs :
      (s : List ℕ) (ch : ℕ) (name : Text)
      → is_open ch s ≡ true
      → Runs s (declare_named env ch name) (outcome s (λ _. s))
  unfolding declare_named call
  declare_named-Runs s ch name h =
      let declared = call-Runs env s (declare_queue ch name none) (λ id e. ground (arith, h)) in
      record {
        at = λ w q.
            declared.at w q
            ∙ ap some (named-outcome s (env.queue_name w.tick name) (env.reply w.tick));
      }

  with_channel-Runs :
      (cfg : Config) (conn ch : ℕ)
      → Runs (ch ∷ conn ∷ []) (with_channel env cfg conn ch) (outcome [] holdings)
  unfolding with_channel
  with_channel-Runs cfg conn ch =
      let s : List ℕ = ch ∷ conn ∷ [] in
      let declare = declare_exchange ch cfg.rabbitmq_exchange (codes "direct") in
      on_channel-Runs conn ch (call env declare) (wrapped (codes "declare exchange: ")) _
        (call-Runs env s declare (λ id e. ground arith))
        (Runs-try s (outcome [] holdings) (λ _. s) (declare_named env ch cfg.app_deploy_queue) _
          (with_queue env cfg conn ch) (declare_named-Runs s ch cfg.app_deploy_queue (ground arith))
          (λ e. abandon-Runs env [] holdings (ch ∷ conn ∷ []) (wrapped (codes "declare queue: ") e))
          (with_queue-Runs cfg conn ch))

  new_deploy_consumer-Runs :
      (cfg : Config) → Runs [] (new_deploy_consumer env cfg) (outcome [] holdings)
  unfolding new_deploy_consumer
  new_deploy_consumer-Runs cfg =
      Runs-try [] (outcome [] holdings) (λ x. x ∷ []) (open_new env (dial cfg.rabbitmq_url)) _ _
        (open_new-Runs env [] (dial cfg.rabbitmq_url) (λ id e. refl)) (λ e. fails env holdings [] _)
        (λ conn.
          Runs-try (conn ∷ []) (outcome [] holdings) (λ x. x ∷ conn ∷ [])
            (open_new env (open_channel conn)) _ (with_channel env cfg conn)
            (open_new-Runs env (conn ∷ []) (open_channel conn) (λ id e. ground arith))
            (λ e. abandon-Runs env [] holdings (conn ∷ []) _) (with_channel-Runs cfg conn))

-- From nothing open, `NewDeployConsumer` makes only calls that are in order, whatever they answer: each
-- uses what is open then, and what is closed is what was opened last and is still open. With an error
-- nothing is left open. With a consumer, what it holds is left open, and after its `Close` nothing is.
pub new_deploy_consumer-Closed :
    (env : Environment) (cfg : Config) (w : World)
    → live w.log ≡ some []
    → (live (new_deploy_consumer env cfg w).1.log
        ≡ some (outcome [] holdings (new_deploy_consumer env cfg w).0))
      × ((c : Opened)
          → (new_deploy_consumer env cfg w).0 ≡ ok c
          → live (close_consumer env c (new_deploy_consumer env cfg w).1).1.log ≡ some [])
new_deploy_consumer-Closed env cfg w empty =
    let opened = (new_deploy_consumer-Runs env cfg).at w empty in
    (
      opened,
      λ c e.
          (close_consumer-Runs env c).at (new_deploy_consumer env cfg w).1
            (opened ∙ ap (λ r. some (outcome [] holdings r)) e),
    )
