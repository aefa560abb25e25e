-- ===== src/Wiring/Parts.antt =====
-- What each part of the start-up leaves open.
use orchestration_service.Base.{
  ℕ, suc, ◌≡◌, refl, arith, not, true, Option, none, some, List, [], ◌∷◌, ◌++◌,
}
use orchestration_service.Base.Int.{ℤ}
use orchestration_service.Text.{Text, is_empty}
use orchestration_service.Errors.{GoError}
use orchestration_service.Errors.Result.{ok, err}
use orchestration_service.Config.{Config}
use orchestration_service.Wiring.Link.{
  Environment, pure, fail_with, call, open_new, open_channel, declare_exchange, declare_queue,
  enable_confirms, notify_return, open_database, ping,
}
use orchestration_service.Wiring.Start.{
  Opened, ExchangeSpec, matches_schema, new_postgres_stage_ledger, declare_exchanges,
  new_rabbit_publisher, declare_retry_queues, declare_deploy_retry_topology, close_one,
  close_consumer,
}
use orchestration_service.Wiring.Stack.{
  is_open, outcome, Runs, Runs-bind, Runs-pure, Runs-check, Runs-if, Runs-try, call-Runs,
  close_all-Runs, abandon-Runs, open_new-Runs,
}

abbrev pub one : Option ℕ → List ℕ
one none = []
one (some x) = x ∷ []

-- What a consumer holds, newest first.
abbrev pub holdings : Opened → List ℕ
holdings c = one c.ledger ++ (one c.pub_ch ++ (one c.ch ++ one c.conn))

module _ (env : Environment) where
  pub fails :
      {A : Type 0} (F : A → List ℕ) (s : List ℕ) (e : GoError) → Runs s (fail_with e) (outcome s F)
  fails F s e = Runs-pure (outcome s F) (err e)

  pub new_postgres_stage_ledger-Runs :
      (s : List ℕ) (url schema : Text)
      → Runs s (new_postgres_stage_ledger env url schema) (outcome s (λ db. db ∷ s))
  unfolding new_postgres_stage_ledger
  new_postgres_stage_ledger-Runs s url schema =
      let F : ℕ → List ℕ = λ db. db ∷ s in
      Runs-if s (outcome s F) (is_empty url) _ _ (fails F s _) (
        Runs-if s (outcome s F) (not (matches_schema schema)) _ _ (fails F s _) (
          Runs-try s (outcome s F) F (open_new env (open_database url)) fail_with _
            (open_new-Runs env s (open_database url) (λ id e. refl)) (fails F s)
            λ db.
              Runs-check (db ∷ s) (outcome s F) (call env (ping db)) _ (pure (ok db))
                (call-Runs env (db ∷ s) (ping db) (λ id e. ground arith))
                (λ e. abandon-Runs env s F (db ∷ []) _) (Runs-pure (outcome s F) (ok db))))

  declare_exchanges-Runs :
      (s : List ℕ) (ch : ℕ) (xs : List ExchangeSpec)
      → Runs (ch ∷ s) (declare_exchanges env ch xs) (outcome s (λ x. x ∷ s))
  unfolding declare_exchanges
  declare_exchanges-Runs s ch [] =
      let F : ℕ → List ℕ = λ x. x ∷ s in
      Runs-check (ch ∷ s) (outcome s F) (call env (enable_confirms ch)) _ _
        (call-Runs env (ch ∷ s) (enable_confirms ch) (λ id e. ground arith))
        (λ e. abandon-Runs env s F (ch ∷ []) _)
        (Runs-bind (ch ∷ s) (λ _. ch ∷ s) (outcome s F) (call env (notify_return ch)) _
          (call-Runs env (ch ∷ s) (notify_return ch) (λ id e. ground arith))
          λ _. Runs-pure (outcome s F) (ok ch))
  declare_exchanges-Runs s ch (x ∷ xs) =
      let F : ℕ → List ℕ = λ x. x ∷ s in
      Runs-check (ch ∷ s) (outcome s F) (call env (declare_exchange ch x.name x.kind)) _ _
        (call-Runs env (ch ∷ s) (declare_exchange ch x.name x.kind) (λ id e. ground arith))
        (λ e. abandon-Runs env s F (ch ∷ []) _) (declare_exchanges-Runs s ch xs)

  pub new_rabbit_publisher-Runs :
      (s : List ℕ) (conn : ℕ) (xs : List ExchangeSpec)
      → is_open conn s ≡ true
      → Runs s (new_rabbit_publisher env conn xs) (outcome s (λ x. x ∷ s))
  unfolding new_rabbit_publisher
  new_rabbit_publisher-Runs s conn xs h =
      let F : ℕ → List ℕ = λ x. x ∷ s in
      Runs-try s (outcome s F) F (open_new env (open_channel conn)) _
        (λ ch. declare_exchanges env ch xs)
        (open_new-Runs env s (open_channel conn) (λ id e. ground (arith, h))) (λ e. fails F s _)
        (λ ch. declare_exchanges-Runs s ch xs)

  declare_retry_queues-Runs :
      (cfg : Config) (s : List ℕ) (ch n : ℕ) (ds : List ℤ)
      → is_open ch s ≡ true
      → Runs s (declare_retry_queues env cfg ch n ds) (λ _. s)
  unfolding declare_retry_queues
  declare_retry_queues-Runs cfg s ch n [] h = Runs-pure (λ _. s) none
  declare_retry_queues-Runs cfg s ch n (d ∷ ds) h =
      Runs-check s (λ _. s) (call env (declare_queue ch _ _)) (λ e. pure (some e)) _
        (call-Runs env s (declare_queue ch _ _) (λ id e. ground (arith, h)))
        (λ e. Runs-pure (λ _. s) (some e)) (declare_retry_queues-Runs cfg s ch (suc n) ds h)

  pub declare_deploy_retry_topology-Runs :
      (cfg : Config) (s : List ℕ) (ch : ℕ)
      → is_open ch s ≡ true
      → Runs s (declare_deploy_retry_topology env cfg ch) (λ _. s)
  unfolding declare_deploy_retry_topology
  declare_deploy_retry_topology-Runs cfg s ch h =
      Runs-check s (λ _. s) (call env (declare_queue ch cfg.dlq none)) _ _
        (call-Runs env s (declare_queue ch cfg.dlq none) (λ id e. ground (arith, h)))
        (λ e. Runs-pure (λ _. s) _) (declare_retry_queues-Runs cfg s ch 0 cfg.retry_backoffs h)

  close_one-Runs : (s : List ℕ) (o : Option ℕ) → Runs (one o ++ s) (close_one env o) (λ _. s)
  unfolding close_one
  close_one-Runs s none = Runs-pure (λ _. s) tt
  close_one-Runs s (some x) = close_all-Runs env s (x ∷ [])

  close_last-Runs : (o : Option ℕ) → Runs (one o) (close_one env o) (λ _. [])
  unfolding close_one
  close_last-Runs none = Runs-pure (λ _. []) tt
  close_last-Runs (some x) = close_all-Runs env [] (x ∷ [])

  pub close_consumer-Runs : (c : Opened) → Runs (holdings c) (close_consumer env c) (λ _. [])
  unfolding close_consumer
  close_consumer-Runs c =
      Runs-bind _ (λ _. one c.pub_ch ++ (one c.ch ++ one c.conn)) (λ _. []) (close_one env c.ledger)
        _ (close_one-Runs _ c.ledger)
        λ _.
          Runs-bind _ (λ _. one c.ch ++ one c.conn) (λ _. []) (close_one env c.pub_ch) _
            (close_one-Runs _ c.pub_ch)
            λ _.
              Runs-bind _ (λ _. one c.conn) (λ _. []) (close_one env c.ch) _ (close_one-Runs _ c.ch)
                λ _. close_last-Runs c.conn
