-- ===== src/Consumer/Rules.antt =====
-- Rules for what a piece of the consumer keeps: a predicate on the world.
use orchestration_service.Base.{
  ◌≡◌, refl, Bool, true, false, Option, none, some, List, [], ◌∷◌, ℕ, suc, if◌then◌else◌,
}
use orchestration_service.Base.Int.{ℤ}
use orchestration_service.Text.{Text}
use orchestration_service.Errors.{GoError}
use orchestration_service.Names.{DeployRequest, DeploymentTarget}
use orchestration_service.Ledger.{
  Table, StageRecord, Fault, undone, unconfirmed, run_claim, run_update,
}
use orchestration_service.Ledger.Calls.{Call, claims, step, run}
use orchestration_service.Consumer.World.{
  Environment, World, Effect, M, ◌>>=◌, pure, branch, check, record_effect, Context, live, ended,
  advance, answer, send, noted, read_back, ledger_claim, ledger_update, call_deploy, call_rollout,
  read_stamp, deployed, awaited,
}

-- A run of `m` keeps what `Q` says of the world.
pub record Keeps {A : Type 0} (Q : World → Type 0) (m : M A) : Type 0 where
  pub at : (w : World) → Q w → Q (m w).1

-- Appending `e` to the log keeps `Q`.
abbrev pub Allows : (World → Type 0) → Effect → Type 0
Allows Q e = (w : World) → Q w → Q (record w { log = e ∷ w.log })

-- Ledger calls and the passing of time keep `Q`.
abbrev pub Endures : (World → Type 0) → Type 0
Endures Q =
    (w : World) (calls : List Call) (n : ℕ)
    → Q w
    → Q (record w { ledger = run w.ledger calls; tick = n })

-- A predicate on the log alone.
abbrev pub OnLog : (List Effect → Type 0) → World → Type 0
OnLog Q w = Q w.log

pub OnLog-Endures : (Q : List Effect → Type 0) → Endures (OnLog Q)
OnLog-Endures Q w calls n q = q

module _ (Q : World → Type 0) where
  pub Keeps-bind :
      {A B : Type 0} (m : M A) (f : A → M B)
      → Keeps Q m
      → ((a : A) → Keeps Q (f a))
      → Keeps Q (m >>= f)
  Keeps-bind m f km kf = record { at = λ w q. (kf (m w).0).at (m w).1 (km.at w q) }

  pub Keeps-pure : {A : Type 0} (a : A) → Keeps Q (pure a)
  Keeps-pure a = record { at = λ w q. q }

  pub Keeps-effect : (e : Effect) → Allows Q e → Keeps Q (record_effect e)
  Keeps-effect e h = record { at = λ w q. h w q }

  pub Keeps-branch :
      {A : Type 0} (handler : GoError → M A) (next : M A)
      → ((err : GoError) → Keeps Q (handler err))
      → Keeps Q next
      → (e : Option GoError) → Keeps Q (branch handler next e)
  Keeps-branch handler next kh kn none = kn
  Keeps-branch handler next kh kn (some err) = kh err

  pub Keeps-check :
      {A : Type 0} (m : M (Option GoError)) (handler : GoError → M A) (next : M A)
      → Keeps Q m
      → ((err : GoError) → Keeps Q (handler err))
      → Keeps Q next
      → Keeps Q (check m handler next)
  Keeps-check m handler next km kh kn =
      Keeps-bind m (branch handler next) km (Keeps-branch handler next kh kn)

  pub Keeps-if :
      {A : Type 0} (b : Bool) (m n : M A) → Keeps Q m → Keeps Q n → Keeps Q (if b then m else n)
  Keeps-if true m n km kn = km
  Keeps-if false m n km kn = kn

  pub read_stamp-Keeps : (env : Environment) → Keeps Q (read_stamp env)
  read_stamp-Keeps env = record { at = λ w q. q }

  module _ (endures : Endures Q) (env : Environment) where
    pub advance-keeps : (w : World) → Q w → Q (advance env w)
    unfolding advance
    advance-keeps w q = endures w (env.background w.tick) (suc w.tick) q

    answer-Keeps : (f : Option Fault) (e : Effect) → Allows Q e → Keeps Q (answer env f e)
    unfolding answer
    answer-Keeps (some (undone err)) e h = record { at = λ w q. q }
    answer-Keeps (some (unconfirmed err)) e h = record { at = λ w q. h w q }
    answer-Keeps none e h = record { at = λ w q. h w q }

    pub send-Keeps : (e : Effect) → Allows Q e → Keeps Q (send env e)
    unfolding send
    send-Keeps e h = record {
      at = λ w q.
          (answer-Keeps (env.publish_reply w.tick) e h).at (advance env w) (advance-keeps w q);
    }

    claimed-keeps :
        (f : Option Fault) (now : ℤ) (id stage : Text) (d : ℤ) (w : World)
        → Q w
        → Q (record w { ledger = (run_claim f w.ledger now id stage d).0 })
    unfolding run_claim run step
    claimed-keeps (some (undone e)) now id stage d w q = q
    claimed-keeps (some (unconfirmed e)) now id stage d w q =
        endures w (record { id = id; stage = stage; verb = claims now d } ∷ []) w.tick q
    claimed-keeps none now id stage d w q =
        endures w (record { id = id; stage = stage; verb = claims now d } ∷ []) w.tick q

    pub ledger_claim-Keeps : (id stage : Text) (d : ℤ) → Keeps Q (ledger_claim env id stage d)
    unfolding ledger_claim
    ledger_claim-Keeps id stage d = record {
      at = λ w q.
          claimed-keeps (env.ledger_reply w.tick) (env.now w.tick) id stage d (advance env w)
            (advance-keeps w q);
    }

    stepped-keeps : (c : Call) (w : World) → Q w → Q (record w { ledger = step w.ledger c })
    unfolding run
    stepped-keeps c w q = endures w (c ∷ []) w.tick q

    updated-keeps :
        (f : Option Fault) (e : Effect) (c : Call) (w : World)
        → Allows Q e
        → Q w
        → Q (record w {
          ledger = (run_update f w.ledger (step w.ledger c)).0;
          log = noted env f e w.log;
        })
    unfolding run_update noted
    updated-keeps (some (undone err)) e c w h q = q
    updated-keeps (some (unconfirmed err)) e c w h q =
        h (record w { ledger = step w.ledger c }) (stepped-keeps c w q)
    updated-keeps none e c w h q = h (record w { ledger = step w.ledger c }) (stepped-keeps c w q)

    pub ledger_update-Keeps :
        (ctx : Context) (call : Call)
        → ((row : Option StageRecord) → Allows Q (read_back call.id row))
        → Keeps Q (ledger_update env ctx call)
    unfolding ledger_update
    ledger_update-Keeps (ended e) call h = record { at = λ w q. advance-keeps w q }
    ledger_update-Keeps live call h = record {
      at = λ w q.
          let row = step (advance env w).ledger call call.id call.stage in
          updated-keeps (env.ledger_reply w.tick) (read_back call.id row) call (advance env w)
            (h row) (advance-keeps w q);
    }

    pub call_deploy-Keeps :
        (r : DeployRequest) → Allows Q (deployed r) → Keeps Q (call_deploy env r)
    unfolding call_deploy
    call_deploy-Keeps r h = record { at = λ w q. h (advance env w) (advance-keeps w q) }

    pub call_rollout-Keeps :
        (t : DeploymentTarget) → Allows Q (awaited t) → Keeps Q (call_rollout env t)
    unfolding call_rollout
    call_rollout-Keeps t h = record { at = λ w q. h (advance env w) (advance-keeps w q) }

module _ (Q : World → Type 0) where
  -- The rest may use that the first step returned no error.
  pub Keeps-check_after :
      {A : Type 0} (m : M (Option GoError)) (handler : GoError → M A) (next : M A)
      → Keeps Q m
      → ((err : GoError) → Keeps Q (handler err))
      → ((w : World) → Q w → (m w).0 ≡ none → Q (next (m w).1).1)
      → Keeps Q (check m handler next)
  Keeps-check_after m handler next km kh kn = record {
    at = λ w q. go (m w).0 (m w).1 (km.at w q) (kn w q);
  }
    where
      go :
          (e : Option GoError) (w' : World)
          → Q w'
          → (e ≡ none → Q (next w').1)
          → Q (branch handler next e w').1
      go none w' q h = h refl
      go (some err) w' q h = (kh err).at w' q

  -- A check from one world on.
  pub check-at :
      {A : Type 0} (m : M (Option GoError)) (handler : GoError → M A) (next : M A) (w : World)
      → Q (m w).1
      → ((err : GoError) → Keeps Q (handler err))
      → Keeps Q next
      → Q (check m handler next w).1
  check-at m handler next w q kh kn = (Keeps-branch Q handler next kh kn (m w).0).at (m w).1 q

module _ (env : Environment) where
  answer-at :
      (Q : World → Type 0) (f : Option Fault) (e : Effect) (w : World)
      → Q w
      → Q (record w { log = e ∷ w.log })
      → Q (answer env f e w).1
  unfolding answer
  answer-at Q (some (undone err)) e w q h = q
  answer-at Q (some (unconfirmed err)) e w q h = h
  answer-at Q none e w q h = h

  -- What holds once the broker is called, and with the message in the log, holds after a send.
  pub send-at :
      (Q : World → Type 0) (e : Effect) (w : World)
      → Q (advance env w)
      → Q (record (advance env w) { log = e ∷ w.log })
      → Q (send env e w).1
  unfolding send advance
  send-at Q e w q h = answer-at Q (env.publish_reply w.tick) e (advance env w) q h

  -- A ledger statement that returns no error has been carried out.
  pub ledger_update-made :
      (ctx : Context) (call : Call) (w : World)
      → (ledger_update env ctx call w).0 ≡ none
      → (ledger_update env ctx call w).1.log
        ≡ read_back call.id (step (advance env w).ledger call call.id call.stage) ∷ w.log
  unfolding ledger_update noted run_update
  ledger_update-made (ended e) call w h = cc
  ledger_update-made live call w h =
      made (env.ledger_reply w.tick) _ _ (step (advance env w).ledger call) w.log h
    where
      made :
          (f : Option Fault) (e : Effect) (table after : Table) (log : List Effect)
          → (run_update f table after).1 ≡ none
          → noted env f e log ≡ e ∷ log
      made (some (undone x)) e table after log h = cc
      made (some (unconfirmed x)) e table after log h = cc
      made none e table after log h = refl

pub ruleset keeps_rules =
    (Keeps-bind, Keeps-pure, Keeps-check, Keeps-if, Keeps-effect, read_stamp-Keeps)
