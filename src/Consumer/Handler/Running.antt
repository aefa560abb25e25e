-- ===== src/Consumer/Handler/Running.antt =====
-- Rules for runs in which everything answers: the result and the effects.
use orchestration_service.Base.{
  ℕ, ◌≡◌, ◌∙◌, refl, sym, subst, ap, Bool, true, false, Option, none, List, [], ◌∷◌, ◌++◌,
  append_assoc, if◌then◌else◌,
}
use orchestration_service.Text.{Text}
use orchestration_service.Json.{Json}
use orchestration_service.Errors.{GoError}
use orchestration_service.Names.{DeploymentTarget}
use orchestration_service.Consumer.World.{
  Environment, Consumer, World, Effect, M, ◌>>=◌, pure, branch, check, applied, published,
  service_publish, progress_publish,
}
use orchestration_service.Consumer.Publishing.{publish_event, publish_progress_event}
use orchestration_service.Consumer.Handler.Replay.{
  IsOpen, event-open, progress-open, event-table, progress-table,
}
use orchestration_service.Events.Build.{orchestration_stage}
use orchestration_service.Consumer.Rows.{HasRow, Held, advance-Held}

-- A run of `m` from `w` returns `a`, its effects are `es`, newest first, and a stage with a row keeps one.
pub record Does {A : Type 0} (m : M A) (w : World) (a : A) (es : List Effect) : Type 0 where
  pub value : (m w).0 ≡ a
  pub effects : (m w).1.log ≡ es ++ w.log
  pub rows : (id : Text) → Held id w → Held id (m w).1

pub Does-pure : {A : Type 0} (w : World) (a : A) → Does (pure a) w a []
Does-pure w a = record { value = refl; effects = refl; rows = λ id h. h }

pub Does-bind :
    {A B : Type 0} (w : World) (es fs : List Effect) (m : M A) (f : A → M B) (a : A) (b : B)
    → Does m w a es
    → Does (f a) (m w).1 b fs
    → Does (m >>= f) w b (fs ++ es)
Does-bind w es fs m f a b d e = record {
  value = ap (λ x. (f x (m w).1).0) d.value ∙ e.value;
  effects =
      ap (λ x. (f x (m w).1).1.log) d.value
      ∙ e.effects
      ∙ ap (λ l. fs ++ l) d.effects
      ∙ sym (append_assoc fs es w.log);
  rows = λ id h. subst (λ x. Held id (f x (m w).1).1) (sym d.value) (e.rows id (d.rows id h));
}

pub Does-check :
    {B : Type 0} (w : World) (es fs : List Effect) (m : M (Option GoError))
    (handler : GoError → M B) (next : M B) (b : B)
    → Does m w none es
    → Does next (m w).1 b fs
    → Does (check m handler next) w b (fs ++ es)
Does-check w es fs m handler next b d e = Does-bind w es fs m (branch handler next) none b d e

pub Does-if :
    {A : Type 0} (w : World) (b : Bool) (m n : M A) (a : A) (es : List Effect)
    → b ≡ true
    → Does m w a es
    → Does (if b then m else n) w a es
Does-if w true m n a es h d = d
Does-if w false m n a es h d = cc

pub Does-else :
    {A : Type 0} (w : World) (b : Bool) (m n : M A) (a : A) (es : List Effect)
    → b ≡ false
    → Does n w a es
    → Does (if b then m else n) w a es
Does-else w false m n a es h d = d
Does-else w true m n a es h d = cc

module _ (env : Environment) (c : Consumer) (t : DeploymentTarget) where
  -- The broker, the database and the cluster do what they are asked, and the rollout ends well.
  pub record Obliges : Type 0 where
    pub takes : IsOpen env c
    pub ledgered : c.has_ledger ≡ true
    pub stores : (n : ℕ) → env.ledger_reply n ≡ none
    pub deploys : (n : ℕ) → env.deploy_reply n ≡ applied t
    pub finishes : (n : ℕ) → (env.rollout_reply n).error ≡ none

  module _ (o : Obliges) where
    progress-Held :
        (x k : Text) (j : Json) (w : World) (id : Text)
        → Held id w
        → Held id (publish_progress_event env c x k j w).1
    progress-Held x k j w id h =
        subst (λ table. HasRow table id orchestration_stage)
          (sym (progress-table env c x k j w o.takes)) (advance-Held env id w h)

    event-Held :
        (x k : Text) (j : Json) (w : World) (id : Text)
        → Held id w
        → Held id (publish_event env c x k j w).1
    event-Held x k j w id h =
        subst (λ table. HasRow table id orchestration_stage)
          (sym (event-table env c x k j w o.takes)) (advance-Held env id w h)

    pub progress-Does :
        (x k : Text) (j : Json) (w : World)
        → Does (publish_progress_event env c x k j) w none (published progress_publish x k j ∷ [])
    progress-Does x k j w =
        let (v, e) = progress-open env c x k j w o.takes in
        record { value = v; effects = e; rows = progress-Held x k j w }

    pub event-Does :
        (x k : Text) (j : Json) (w : World)
        → Does (publish_event env c x k j) w none (published service_publish x k j ∷ [])
    event-Does x k j w =
        let (v, e) = event-open env c x k j w o.takes in
        record { value = v; effects = e; rows = event-Held x k j w }
