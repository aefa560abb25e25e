-- ===== src/Consumer/Handler/Written.antt =====
-- What the statements of `Complete` and `Fail` leave in the ledger, as the log shows it.
use orchestration_service.Base.{◌≡◌, ◌∙◌, ◌⊎◌, inl, inr, refl, ap, none, some, Option-cases}
use orchestration_service.Text.{Text}
use orchestration_service.Json.{Json}
use orchestration_service.Ledger.{Table, StageRecord, StageState, completed, failed}
use orchestration_service.Ledger.Calls.{Call, Verb, completes, fails, step, on_slot, step_self}
use orchestration_service.Events.Build.{orchestration_stage}
use orchestration_service.Consumer.World.{persisted, missed, row_effect, read_back}
use orchestration_service.Consumer.Rows.{HasRow}

-- The two ways in which a stage is settled.
pub data Ending : Type 0 where
  well badly : Ending

abbrev pub state_of : Ending → StageState
state_of well = completed
state_of badly = failed

abbrev verb_of : Ending → Json → Verb
verb_of well v = completes v
verb_of badly v = fails v

-- The statement that settles a stage with a result.
abbrev pub settling : Text → Ending → Json → Call
settling id s v = record { id = id; stage = orchestration_stage; verb = verb_of s v }

slot-read_back :
    (id stage : Text) (s : Ending) (v : Json) (r : StageRecord)
    → read_back id (on_slot id stage (verb_of s v) (some r)) ≡ persisted id (state_of s) v
unfolding read_back row_effect
slot-read_back id stage well v r = refl
slot-read_back id stage badly v r = refl

slot-missed :
    (id stage : Text) (s : Ending) (v : Json)
    → read_back id (on_slot id stage (verb_of s v) none) ≡ missed id
unfolding read_back
slot-missed id stage well v = refl
slot-missed id stage badly v = refl

module _ (table : Table) (id : Text) (s : Ending) (v : Json) where
  -- A row takes the state and the result.
  pub settling-kept :
      HasRow table id orchestration_stage
      → read_back id (step table (settling id s v) id orchestration_stage)
        ≡ persisted id (state_of s) v
  settling-kept (r, h) =
      ap (read_back id) (step_self table (settling id s v))
      ∙ ap (λ row. read_back id (on_slot id orchestration_stage (verb_of s v) row)) h
      ∙ slot-read_back id orchestration_stage s v r

  settling-missed :
      table id orchestration_stage ≡ none
      → read_back id (step table (settling id s v) id orchestration_stage) ≡ missed id
  settling-missed h =
      ap (read_back id) (step_self table (settling id s v))
      ∙ ap (λ row. read_back id (on_slot id orchestration_stage (verb_of s v) row)) h
      ∙ slot-missed id orchestration_stage s v

  -- The row takes the state and the result, or there is no row.
  pub settling-written :
      (read_back id (step table (settling id s v) id orchestration_stage)
        ≡ persisted id (state_of s) v)
      ⊎ (read_back id (step table (settling id s v) id orchestration_stage) ≡ missed id)
  settling-written = elim (Option-cases (table id orchestration_stage)) [
    | inl e ↦ inr (settling-missed e)
    | inr (r, e) ↦ inl (settling-kept (r, e))
  ]
