-- ===== src/Wiring/Declared.antt =====
-- Which queues have been declared when the start-up returns a consumer.
use orchestration_service.Base.{
  ℕ, suc, ◌≡◌, refl, arith, ap, ◌∙◌, true, Option, none, some, List, [], ◌∷◌, ◌++◌, get_elem?, zero,
  length, ◌<◌, subst, sym,
}
use orchestration_service.Base.Int.{ℤ, pos, ◌+ℤ◌, leb_ℤ}
use orchestration_service.Consumer.Delivery.{declared_queues, retry_queue}
use orchestration_service.Consumer.Delivery.Queues.{retry_queue-declared}
use orchestration_service.Text.{Text, codes, decimal}
use orchestration_service.Text.Equality.{text_eq_self}
use orchestration_service.Errors.{GoError, wrapped}
use orchestration_service.Errors.Result.{Result, ok, err}
use orchestration_service.Config.{Config}
use orchestration_service.Wiring.Link.{
  Event, Environment, World, M, pure, branch, check, with_result, try, fail_with, call, open_new,
  dial, open_channel, declare_exchange, declare_queue, bind_queue, set_qos,
}
use orchestration_service.Wiring.Start.{
  Opened, abandon, retry_arguments, declare_retry_queues, declare_deploy_retry_topology,
  with_publisher, declare_named, with_queue, with_channel, new_deploy_consumer,
}
use orchestration_service.Wiring.Growing.{
  is_declared, Grows, grow_rules, Grows-pure, Grows-check, Grows-call, abandon-Grows,
  with_publisher-Grows,
}

-- Every queue of the list has been declared.
abbrev pub AllDeclared : List Text → List Event → Type 0
AllDeclared qs log = (q : Text) (i : ℕ) → get_elem? qs i ≡ some q → is_declared q log ≡ true

module _ (env : Environment) (cfg : Config) (ch : ℕ) where
  declare_retry_queues-Grows : (n : ℕ) (ds : List ℤ) → Grows (declare_retry_queues env cfg ch n ds)
  unfolding declare_retry_queues
  declare_retry_queues-Grows n [] = search grow_rules
  declare_retry_queues-Grows n (d ∷ ds) =
      Grows-check (call env (declare_queue ch _ _)) (λ e. pure (some e))
        (declare_retry_queues env cfg ch (suc n) ds) (Grows-call env (declare_queue ch _ _))
        (λ e. Grows-pure (some e)) (declare_retry_queues-Grows (suc n) ds)

  -- A declaration, and what follows it.
  declared_then :
      (name : Text) (qs : List Text) (about : GoError → GoError) (next : M (Option GoError))
      (e : Option GoError) (w : World)
      → (e ≡ none → is_declared name w.log ≡ true)
      → Grows next
      → ((next w).0 ≡ none → AllDeclared qs (next w).1.log)
      → (branch (λ e. pure (some (about e))) next e w).0 ≡ none
      → AllDeclared (name ∷ qs) (branch (λ e. pure (some (about e))) next e w).1.log
  declared_then name qs about next none w d g r h q zero p =
      subst (λ q. is_declared q (next w).1.log ≡ true) (ground (arith, p)) (g.at name w (d refl))
  declared_then name qs about next none w d g r h q (suc i) p = r h q i p
  declared_then name qs about next (some e) w d g r h q i p = cc

  declare_retry_queues-Declares :
      (n : ℕ) (ds : List ℤ) (w : World)
      → (declare_retry_queues env cfg ch n ds w).0 ≡ none
      → AllDeclared
          (declared_queues cfg.retry_queue_prefix n ds)
          (declare_retry_queues env cfg ch n ds w).1.log
  unfolding declare_retry_queues declared_queues call is_declared
  declare_retry_queues-Declares n [] w h = λ q i p. cc
  declare_retry_queues-Declares n (d ∷ ds) w h =
      let name = cfg.retry_queue_prefix ++ (codes "." ++ decimal (pos n +ℤ pos 1)) in
      let m = call env (declare_queue ch name (some (retry_arguments cfg d))) in
      declared_then name (declared_queues cfg.retry_queue_prefix (suc n) ds) (λ e. e)
        (declare_retry_queues env cfg ch (suc n) ds) (m w).0 (m w).1
        (λ e. ground (arith, e, text_eq_self name)) (declare_retry_queues-Grows (suc n) ds)
        (declare_retry_queues-Declares (suc n) ds (m w).1) h

-- A step whose handler fails succeeds only by going on.
check_ok :
    {A : Type 0} (handler : GoError → M (Result A)) (next : M (Result A)) (e : Option GoError)
    (w : World) (c : A)
    → ((e : GoError) (w : World) → (f : GoError) × ((handler e w).0 ≡ err f))
    → (branch handler next e w).0 ≡ ok c
    → (e ≡ none) × (branch handler next e w ≡ next w)
check_ok handler next none w c f h = (refl, refl)
check_ok handler next (some e) w c f h = let (x, p) = f e w in cc

try_ok :
    {A B : Type 0} (handler : GoError → M (Result B)) (next : A → M (Result B)) (r : Result A)
    (w : World) (c : B)
    → ((e : GoError) (w : World) → (f : GoError) × ((handler e w).0 ≡ err f))
    → (with_result handler next r w).0 ≡ ok c
    → (a : A) × (with_result handler next r w ≡ next a w)
try_ok handler next (ok a) w c f h = (a, refl)
try_ok handler next (err e) w c f h = let (x, p) = f e w in cc

module _ (env : Environment) (cfg : Config) where
  -- The dead letter queue, and the retry queues.
  abbrev pub queues : List Text
  queues = cfg.dlq ∷ declared_queues cfg.retry_queue_prefix 0 cfg.retry_backoffs

  declare_deploy_retry_topology-Declares :
      (ch : ℕ) (w : World)
      → (declare_deploy_retry_topology env cfg ch w).0 ≡ none
      → AllDeclared queues (declare_deploy_retry_topology env cfg ch w).1.log
  unfolding declare_deploy_retry_topology call is_declared
  declare_deploy_retry_topology-Declares ch w h =
      let m = call env (declare_queue ch cfg.dlq none) in
      declared_then env cfg ch cfg.dlq (declared_queues cfg.retry_queue_prefix 0 cfg.retry_backoffs)
        (wrapped (codes "declare deploy dlq: "))
        (declare_retry_queues env cfg ch 0 cfg.retry_backoffs) (m w).0 (m w).1
        (λ e. ground (arith, e, text_eq_self cfg.dlq))
        (declare_retry_queues-Grows env cfg ch 0 cfg.retry_backoffs)
        (declare_retry_queues-Declares env cfg ch 0 cfg.retry_backoffs (m w).1) h

  abandon_fails :
      {A : Type 0} (xs : List ℕ) (about : GoError → GoError) (e : GoError) (w : World)
      → (f : GoError) × ((abandon env {A = A} xs (about e) w).0 ≡ err f)
  abandon_fails xs about e w = (about e, refl)

  with_queue-Declares :
      (conn ch : ℕ) (queue : Text) (w : World) (c : Opened)
      → (with_queue env cfg conn ch queue w).0 ≡ ok c
      → AllDeclared queues (with_queue env cfg conn ch queue w).1.log
  unfolding with_queue
  with_queue-Declares conn ch queue w c h =
      let s : List ℕ = ch ∷ conn ∷ [] in
      let last = λ (w : World).
        check (call env (set_qos ch (pos 1)))
          (λ e. abandon env {A = Opened} s (wrapped (codes "set qos: ") e))
          (with_publisher env cfg conn ch) w in
      let topology = declare_deploy_retry_topology env cfg ch in
      let rest = λ (w : World). check topology (λ e. abandon env {A = Opened} s e) last w in
      let bind =
        call env (bind_queue ch queue cfg.build_succeeded_routing_key cfg.rabbitmq_exchange) in
      let w1 = (bind w).1 in
      let (bound, p) =
        check_ok (λ e. abandon env s (wrapped (codes "bind queue: ") e)) rest (bind w).0 w1 c
          (abandon_fails s (wrapped (codes "bind queue: "))) h in
      let (done, q) =
        check_ok (λ e. abandon env s e) last (topology w1).0 (topology w1).1 c
          (abandon_fails s (λ e. e)) (sym (ap (λ x. x.0) p) ∙ h) in
      let grows : Grows last =
        Grows-check (call env (set_qos ch (pos 1))) _ (with_publisher env cfg conn ch)
          (Grows-call env (set_qos ch (pos 1)))
          (λ e. abandon-Grows env s (wrapped (codes "set qos: ") e))
          (with_publisher-Grows env cfg conn ch) in
      λ name i found.
        subst (λ x. is_declared name x.1.log ≡ true) (sym (p ∙ q))
          (grows.at name (topology w1).1
            (declare_deploy_retry_topology-Declares ch w1 done name i found))

  with_channel-Declares :
      (conn ch : ℕ) (w : World) (c : Opened)
      → (with_channel env cfg conn ch w).0 ≡ ok c
      → AllDeclared queues (with_channel env cfg conn ch w).1.log
  unfolding with_channel
  with_channel-Declares conn ch w c h =
      let s : List ℕ = ch ∷ conn ∷ [] in
      let app = declare_named env ch cfg.app_deploy_queue in
      let rest = λ (w : World).
        try app (λ e. abandon env {A = Opened} s (wrapped (codes "declare queue: ") e))
          (with_queue env cfg conn ch) w in
      let m = call env (declare_exchange ch cfg.rabbitmq_exchange (codes "direct")) in
      let w1 = (m w).1 in
      let (made, p) =
        check_ok (λ e. abandon env s (wrapped (codes "declare exchange: ") e)) rest (m w).0 w1 c
          (abandon_fails s (wrapped (codes "declare exchange: "))) h in
      let (queue, q) =
        try_ok (λ e. abandon env s (wrapped (codes "declare queue: ") e))
          (with_queue env cfg conn ch) (app w1).0 (app w1).1 c
          (abandon_fails s (wrapped (codes "declare queue: "))) (sym (ap (λ x. x.0) p) ∙ h) in
      let all = with_queue-Declares conn ch queue (app w1).1 c (sym (ap (λ x. x.0) (p ∙ q)) ∙ h) in
      λ name i found. subst (λ x. is_declared name x.1.log ≡ true) (sym (p ∙ q)) (all name i found)

  new_deploy_consumer-Declares :
      (w : World) (c : Opened)
      → (new_deploy_consumer env cfg w).0 ≡ ok c
      → AllDeclared queues (new_deploy_consumer env cfg w).1.log
  unfolding new_deploy_consumer
  new_deploy_consumer-Declares w c h =
      let dialed = open_new env (dial cfg.rabbitmq_url) in
      let opened = λ (conn : ℕ). open_new env (open_channel conn) in
      let rest = λ (conn : ℕ) (w : World).
        try (opened conn)
          (λ e. abandon env {A = Opened} (conn ∷ []) (wrapped (codes "open rabbitmq channel: ") e))
          (with_channel env cfg conn) w in
      let w1 = (dialed w).1 in
      let (conn, p) =
        try_ok (λ e. fail_with (wrapped (codes "connect rabbitmq: ") e)) rest (dialed w).0 w1 c
          (λ e w. (wrapped (codes "connect rabbitmq: ") e, refl)) h in
      let w2 = (opened conn w1).1 in
      let (ch, q) =
        try_ok (λ e. abandon env (conn ∷ []) (wrapped (codes "open rabbitmq channel: ") e))
          (with_channel env cfg conn) (opened conn w1).0 w2 c
          (abandon_fails (conn ∷ []) (wrapped (codes "open rabbitmq channel: ")))
          (sym (ap (λ x. x.0) p) ∙ h) in
      let all = with_channel-Declares conn ch w2 c (sym (ap (λ x. x.0) (p ∙ q)) ∙ h) in
      λ name i found. subst (λ x. is_declared name x.1.log ≡ true) (sym (p ∙ q)) (all name i found)

-- When `NewDeployConsumer` returns a consumer, the broker has accepted the declaration of the dead letter
-- queue, and of the retry queue that `scheduleRetry` publishes to for any attempt that is not negative, if
-- there is a backoff.
pub new_deploy_consumer-declares :
    (env : Environment) (cfg : Config) (w : World) (c : Opened)
    → (new_deploy_consumer env cfg w).0 ≡ ok c
    → (is_declared cfg.dlq (new_deploy_consumer env cfg w).1.log ≡ true)
      × ((attempt : ℤ)
          → leb_ℤ (pos 0) attempt ≡ true
          → 0 < length cfg.retry_backoffs
          → is_declared (retry_queue cfg attempt) (new_deploy_consumer env cfg w).1.log ≡ true)
new_deploy_consumer-declares env cfg w c h =
    let all = new_deploy_consumer-Declares env cfg w c h in
    (
      all cfg.dlq zero refl,
      λ attempt counted backed.
          let (i, found) = retry_queue-declared cfg attempt counted backed in
          all (retry_queue cfg attempt) (suc i) found,
    )
