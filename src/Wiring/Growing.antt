-- ===== src/Wiring/Growing.antt =====
-- Which queues are declared in a log, and that the parts of the start-up keep them so.
use orchestration_service.Base.{
  ℕ, ◌≡◌, arith, Bool, true, false, ◌||◌, Option, none, some, List, [], ◌∷◌, ◌++◌, if◌then◌else◌,
}
use orchestration_service.Text.{Text, codes, text_eq}
use orchestration_service.Errors.{GoError, wrapped}
use orchestration_service.Errors.Result.{Result, ok, err}
use orchestration_service.Config.{Config}
use orchestration_service.Wiring.Link.{
  Action, Event, Environment, World, M, ◌>>=◌, pure, branch, check, with_result, try, fail_with,
  call, open_new, close_all, declare_exchange, declare_queue, close,
}
use orchestration_service.Wiring.Start.{
  Opened, ExchangeSpec, abandon, new_postgres_stage_ledger, declare_exchanges, new_rabbit_publisher,
  close_one, close_consumer, with_ledger, with_publisher,
}

abbrev names_queue : Text → Action → Option GoError → Bool
names_queue q (declare_queue ch name args) none = text_eq name q
names_queue q _ _ = false

-- A declaration of a queue of this name was accepted.
unfoldable pub is_declared : Text → List Event → Bool
is_declared q [] = false
is_declared q (e ∷ log) = names_queue q e.action e.answer || is_declared q log

-- What is declared stays declared.
pub record Grows {A : Type 0} (m : M A) : Type 0 where
  pub at : (q : Text) (w : World) → is_declared q w.log ≡ true → is_declared q (m w).1.log ≡ true

pub Grows-bind :
    {A B : Type 0} (m : M A) (f : A → M B) → Grows m → ((a : A) → Grows (f a)) → Grows (m >>= f)
Grows-bind m f g h = record { at = λ q w d. (h (m w).0).at q (m w).1 (g.at q w d) }

pub Grows-pure : {A : Type 0} (a : A) → Grows (pure a)
Grows-pure a = record { at = λ q w d. d }

pub Grows-if : {A : Type 0} (b : Bool) (m n : M A) → Grows m → Grows n → Grows (if b then m else n)
Grows-if true m n g h = g
Grows-if false m n g h = h

Grows-branch :
    {A : Type 0} (handler : GoError → M A) (next : M A) (e : Option GoError)
    → ((e : GoError) → Grows (handler e))
    → Grows next
    → Grows (branch handler next e)
Grows-branch handler next none h n = n
Grows-branch handler next (some e) h n = h e

pub Grows-check :
    {A : Type 0} (m : M (Option GoError)) (handler : GoError → M A) (next : M A)
    → Grows m
    → ((e : GoError) → Grows (handler e))
    → Grows next
    → Grows (check m handler next)
Grows-check m handler next g h n =
    Grows-bind m (branch handler next) g λ e. Grows-branch handler next e h n

Grows-result :
    {A B : Type 0} (handler : GoError → M B) (next : A → M B) (r : Result A)
    → ((e : GoError) → Grows (handler e))
    → ((a : A) → Grows (next a))
    → Grows (with_result handler next r)
Grows-result handler next (ok a) h n = n a
Grows-result handler next (err e) h n = h e

pub Grows-try :
    {A B : Type 0} (m : M (Result A)) (handler : GoError → M B) (next : A → M B)
    → Grows m
    → ((e : GoError) → Grows (handler e))
    → ((a : A) → Grows (next a))
    → Grows (try m handler next)
Grows-try m handler next g h n =
    Grows-bind m (with_result handler next) g λ r. Grows-result handler next r h n

module _ (env : Environment) where
  pub Grows-call : (action : Action) → Grows (call env action)
  unfolding call is_declared
  Grows-call action = record { at = λ q w d. ground (arith, d) }

  pub Grows-open : (action : Action) → Grows (open_new env action)
  unfolding open_new call is_declared
  Grows-open action = record { at = λ q w d. ground (arith, d) }

  pub Grows-close : (xs : List ℕ) → Grows (close_all env xs)
  unfolding close_all
  Grows-close [] = Grows-pure tt
  Grows-close (x ∷ xs) =
      Grows-bind (call env (close x)) (λ _. close_all env xs) (Grows-call (close x))
        λ _. Grows-close xs

pub ruleset grow_rules =
    (Grows-bind, Grows-pure, Grows-if, Grows-check, Grows-try, Grows-call, Grows-open, Grows-close)

module _ (env : Environment) where
  new_postgres_stage_ledger-Grows :
      (url schema : Text) → Grows (new_postgres_stage_ledger env url schema)
  unfolding new_postgres_stage_ledger
  new_postgres_stage_ledger-Grows url schema = search grow_rules depth 10

  pub abandon-Grows : {A : Type 0} (xs : List ℕ) (e : GoError) → Grows (abandon env {A = A} xs e)
  abandon-Grows xs e =
      Grows-bind (close_all env xs) (λ _. fail_with e) (Grows-close env xs) λ _. Grows-pure (err e)

  declare_exchanges-Grows : (ch : ℕ) (xs : List ExchangeSpec) → Grows (declare_exchanges env ch xs)
  unfolding declare_exchanges
  declare_exchanges-Grows ch [] = search grow_rules
  declare_exchanges-Grows ch (x ∷ xs) =
      Grows-check (call env (declare_exchange ch x.name x.kind)) _ (declare_exchanges env ch xs)
        (Grows-call env (declare_exchange ch x.name x.kind))
        (λ e.
          abandon-Grows (ch ∷ []) (wrapped (codes "declare exchange " ++ (x.name ++ codes ": ")) e))
        (declare_exchanges-Grows ch xs)

  new_rabbit_publisher-Grows :
      (conn : ℕ) (xs : List ExchangeSpec) → Grows (new_rabbit_publisher env conn xs)
  unfolding new_rabbit_publisher
  new_rabbit_publisher-Grows conn xs = search (grow_rules, declare_exchanges-Grows)

  close_one-Grows : (o : Option ℕ) → Grows (close_one env o)
  unfolding close_one
  close_one-Grows none = Grows-pure tt
  close_one-Grows (some x) = Grows-close env (x ∷ [])

  close_consumer-Grows : (c : Opened) → Grows (close_consumer env c)
  unfolding close_consumer
  close_consumer-Grows c = search (grow_rules, close_one-Grows)

  with_ledger-Grows : (cfg : Config) (conn ch p : ℕ) → Grows (with_ledger env cfg conn ch p)
  unfolding with_ledger
  with_ledger-Grows cfg conn ch p =
      search (grow_rules, new_postgres_stage_ledger-Grows, close_consumer-Grows)

  pub with_publisher-Grows : (cfg : Config) (conn ch : ℕ) → Grows (with_publisher env cfg conn ch)
  unfolding with_publisher
  with_publisher-Grows cfg conn ch =
      search (grow_rules, new_rabbit_publisher-Grows, with_ledger-Grows)
