-- ===== src/Wiring/Stack.antt =====
-- What is open after a log of calls, and what the start-up leaves open.
use orchestration_service.Base.{
  ℕ, ◌≡◌, refl, arith, ap, ◌∙◌, Bool, true, false, ◌||◌, Option, none, some, List, [], ◌∷◌, ◌++◌,
  if◌then◌else◌, ◌==◌,
}
use orchestration_service.Errors.{GoError}
use orchestration_service.Errors.Result.{Result, ok, err}
use orchestration_service.Wiring.Link.{
  Action, Event, Environment, World, M, ◌>>=◌, ◌>>◌, pure, branch, check, with_result, try,
  fail_with, call, open_new, numbered, close_all, dial, open_channel, declare_exchange,
  declare_queue, bind_queue, set_qos, enable_confirms, notify_return, open_database, ping, close,
}

abbrev pub is_open : ℕ → List ℕ → Bool
is_open x [] = false
is_open x (y ∷ s) = x == y || is_open x s

abbrev while_open : ℕ → List ℕ → List ℕ → Option (List ℕ)
while_open x s t = if is_open x s then some t else none

abbrev gained : ℕ → Option GoError → List ℕ → List ℕ
gained id none s = id ∷ s
gained id (some e) s = s

abbrev popped : ℕ → List ℕ → Option (List ℕ)
popped x [] = none
popped x (y ∷ s) = if x == y then some s else none

-- What is open after a call, newest first, from what was open before: a call uses only what is open,
-- and the newest is closed first. `none` is a call that breaks this.
abbrev pub after : Action → ℕ → Option GoError → List ℕ → Option (List ℕ)
after (dial url) id e s = some (gained id e s)
after (open_channel conn) id e s = while_open conn s (gained id e s)
after (declare_exchange ch name kind) id e s = while_open ch s s
after (declare_queue ch name args) id e s = while_open ch s s
after (bind_queue ch queue key exchange) id e s = while_open ch s s
after (set_qos ch n) id e s = while_open ch s s
after (enable_confirms ch) id e s = while_open ch s s
after (notify_return ch) id e s = while_open ch s s
after (open_database url) id e s = some (gained id e s)
after (ping db) id e s = while_open db s s
after (close x) id e s = popped x s

abbrev continued : Event → Option (List ℕ) → Option (List ℕ)
continued event none = none
continued event (some s) = after event.action event.id event.answer s

-- What is open at the end of a log, if each of its calls used what was open.
unfoldable pub live : List Event → Option (List ℕ)
live [] = some []
live (event ∷ log) = continued event (live log)

-- What is open after a result: `s` with an error, and `f a` with a value.
abbrev pub outcome : {A : Type 0} → List ℕ → (A → List ℕ) → Result A → List ℕ
outcome s f (ok a) = f a
outcome s f (err e) = s

-- From a log that leaves `s` open, `m` makes calls that are in order, and leaves `R` open.
pub record Runs {A : Type 0} (s : List ℕ) (m : M A) (R : A → List ℕ) : Type 0 where
  pub at : (w : World) → live w.log ≡ some s → live (m w).1.log ≡ some (R (m w).0)

pub Runs-bind :
    {A B : Type 0} (s : List ℕ) (R : A → List ℕ) (S : B → List ℕ) (m : M A) (f : A → M B)
    → Runs s m R
    → ((a : A) → Runs (R a) (f a) S)
    → Runs s (m >>= f) S
Runs-bind s R S m f t u = record { at = λ w q. (u (m w).0).at (m w).1 (t.at w q) }

pub Runs-pure : {A : Type 0} (R : A → List ℕ) (a : A) → Runs (R a) (pure a) R
Runs-pure R a = record { at = λ w q. q }

module _ {B : Type 0} (s : List ℕ) (S : B → List ℕ) where
  pub Runs-check :
      (m : M (Option GoError)) (handler : GoError → M B) (next : M B)
      → Runs s m (λ _. s)
      → ((e : GoError) → Runs s (handler e) S)
      → Runs s next S
      → Runs s (check m handler next) S
  Runs-check m handler next t h n = Runs-bind s (λ _. s) S m (branch handler next) t λ e. branches e
    where
      branches : (e : Option GoError) → Runs s (branch handler next e) S
      branches none = n
      branches (some e) = h e

  pub Runs-if : (b : Bool) (m n : M B) → Runs s m S → Runs s n S → Runs s (if b then m else n) S
  Runs-if true m n t u = t
  Runs-if false m n t u = u

  pub Runs-try :
      {A : Type 0} (F : A → List ℕ) (m : M (Result A)) (handler : GoError → M B) (next : A → M B)
      → Runs s m (outcome s F)
      → ((e : GoError) → Runs s (handler e) S)
      → ((a : A) → Runs (F a) (next a) S)
      → Runs s (try m handler next) S
  Runs-try F m handler next t h n =
      Runs-bind s (outcome s F) S m (with_result handler next) t λ r. results r
    where
      results : (r : Result _) → Runs (outcome s F r) (with_result handler next r) S
      results (ok a) = n a
      results (err e) = h e

module _ (env : Environment) (s : List ℕ) where
  -- A call that opens nothing and closes nothing.
  pub call-Runs :
      (action : Action)
      → ((id : ℕ) (e : Option GoError) → after action id e s ≡ some s)
      → Runs s (call env action) (λ _. s)
  unfolding call live
  call-Runs action h = record {
    at = λ w q.
        ap (continued (record { action = action; id = w.tick; answer = env.reply w.tick })) q
        ∙ h w.tick (env.reply w.tick);
  }

  numbered-outcome :
      (id : ℕ) (e : Option GoError) → gained id e s ≡ outcome s (λ x. x ∷ s) (numbered env id e)
  numbered-outcome id none = refl
  numbered-outcome id (some e) = refl

  close-Runs : (x : ℕ) (t : List ℕ) → Runs (x ∷ t) (call env (close x)) (λ _. t)
  unfolding call live
  close-Runs x t = record {
    at = λ w q.
        ap (continued (record { action = close x; id = w.tick; answer = env.reply w.tick })) q
        ∙ ground arith;
  }

  pub close_all-Runs : (xs : List ℕ) → Runs (xs ++ s) (close_all env xs) (λ _. s)
  unfolding close_all call live
  close_all-Runs [] = record { at = λ w q. q }
  close_all-Runs (x ∷ xs) =
      Runs-bind (x ∷ (xs ++ s)) (λ _. xs ++ s) (λ _. s) (call env (close x)) (λ _. close_all env xs)
        (close-Runs x (xs ++ s)) λ _. close_all-Runs xs

  pub abandon-Runs :
      {A : Type 0} (F : A → List ℕ) (xs : List ℕ) (e : GoError)
      → Runs (xs ++ s) (close_all env xs >> fail_with e) (outcome s F)
  abandon-Runs F xs e =
      Runs-bind (xs ++ s) (λ _. s) (outcome s F) (close_all env xs) (λ _. fail_with e)
        (close_all-Runs xs) λ _. Runs-pure (outcome s F) (err e)

  pub open_new-Runs :
      (action : Action)
      → ((id : ℕ) (e : Option GoError) → after action id e s ≡ some (gained id e s))
      → Runs s (open_new env action) (outcome s (λ id. id ∷ s))
  unfolding open_new call live
  open_new-Runs action h = record {
    at = λ w q.
        ap (continued (record { action = action; id = w.tick; answer = env.reply w.tick })) q
        ∙ h w.tick (env.reply w.tick)
        ∙ ap some (numbered-outcome w.tick (env.reply w.tick));
  }
