-- ===== src/Consumer/Rows.antt =====
-- No call takes a row out of the ledger: a stage that has been claimed keeps its row.
use orchestration_service.Base.{
  ◌≡◌, ◌∙◌, Option, none, some, List, [], ◌∷◌, Bool-cases, inl, inr, refl,
}
use orchestration_service.Base.Int.{ℤ}
use orchestration_service.Text.{Text}
use orchestration_service.Ledger.{
  ClaimDisposition, claimed, Table, StageRecord, Fault, undone, unconfirmed, at_key, run_update,
  run_claim,
}
use orchestration_service.Ledger.Calls.{
  on_slot, Call, claims, step, run, on_row, step-eq, step_self,
}
use orchestration_service.Events.Build.{orchestration_stage}
use orchestration_service.Consumer.World.{
  Environment, World, Context, live, ended, advance, ledger_update,
}

-- The stage of a deployment has a row.
abbrev pub HasRow : Table → Text → Text → Type 0
HasRow table id stage = (r : StageRecord) × (table id stage ≡ some r)

abbrev pub Held : Text → World → Type 0
Held id w = HasRow w.ledger id orchestration_stage

pub step-HasRow :
    (table : Table) (c : Call) (id stage : Text)
    → HasRow table id stage
    → HasRow (step table c) id stage
step-HasRow table c id stage (r, h) = elim (Bool-cases (at_key c.id c.stage id stage)) [
  | inl e ↦ (on_row c.verb r, rw (step-eq table c id stage, e, h) refl)
  | inr e ↦ (r, rw (step-eq table c id stage, e, h) refl)
]

pub run-HasRow :
    (table : Table) (calls : List Call) (id stage : Text)
    → HasRow table id stage
    → HasRow (run table calls) id stage
unfolding run
run-HasRow table [] id stage h = h
run-HasRow table (c ∷ cs) id stage h =
    run-HasRow (step table c) cs id stage (step-HasRow table c id stage h)

pub run_update-HasRow :
    (fault : Option Fault) (table : Table) (c : Call) (id stage : Text)
    → HasRow table id stage
    → HasRow (run_update fault table (step table c)).0 id stage
unfolding run_update
run_update-HasRow (some (undone e)) table c id stage h = h
run_update-HasRow (some (unconfirmed e)) table c id stage h = step-HasRow table c id stage h
run_update-HasRow none table c id stage h = step-HasRow table c id stage h

pub run_claim-HasRow :
    (fault : Option Fault) (table : Table) (now : ℤ) (id stage : Text) (d : ℤ) (id' stage' : Text)
    → HasRow table id' stage'
    → HasRow (run_claim fault table now id stage d).0 id' stage'
unfolding run_claim step
run_claim-HasRow (some (undone e)) table now id stage d id' stage' h = h
run_claim-HasRow (some (unconfirmed e)) table now id stage d id' stage' h =
    step-HasRow table (record { id = id; stage = stage; verb = claims now d }) id' stage' h
run_claim-HasRow none table now id stage d id' stage' h =
    step-HasRow table (record { id = id; stage = stage; verb = claims now d }) id' stage' h

slot-claimed :
    (id stage : Text) (now d : ℤ) (row : Option StageRecord)
    → (r : StageRecord) × (on_slot id stage (claims now d) row ≡ some r)
slot-claimed id stage now d none = (_, refl)
slot-claimed id stage now d (some r) = (_, refl)

-- A claim that the database answers leaves a row, whatever its disposition.
pub claimed-HasRow :
    (fault : Option Fault) (table : Table) (now : ℤ) (id stage : Text) (d : ℤ)
    → fault ≡ none
    → HasRow (run_claim fault table now id stage d).0 id stage
unfolding run_claim step
claimed-HasRow (some x) table now id stage d h = cc
claimed-HasRow none table now id stage d h =
    let (r, e) = slot-claimed id stage now d (table id stage) in
    (r, step_self table (record { id = id; stage = stage; verb = claims now d }) ∙ e)

-- A claim that is answered leaves a row.
pub acquired-HasRow :
    (fault : Option Fault) (table : Table) (now : ℤ) (id stage : Text) (d : ℤ)
    (disposition : ClaimDisposition) (r : StageRecord)
    → (run_claim fault table now id stage d).1 ≡ claimed disposition r
    → HasRow (run_claim fault table now id stage d).0 id stage
unfolding run_claim
acquired-HasRow (some (undone e)) table now id stage d disposition r h = cc
acquired-HasRow (some (unconfirmed e)) table now id stage d disposition r h = cc
acquired-HasRow none table now id stage d disposition r h =
    claimed-HasRow none table now id stage d refl

module _ (env : Environment) where
  pub advance-Held : (id : Text) (w : World) → Held id w → Held id (advance env w)
  unfolding advance
  advance-Held id w h = run-HasRow w.ledger (env.background w.tick) id orchestration_stage h

  pub ledger_update-Held :
      (ctx : Context) (call : Call) (id : Text) (w : World)
      → Held id w
      → Held id (ledger_update env ctx call w).1
  unfolding ledger_update
  ledger_update-Held (ended e) call id w h = advance-Held id w h
  ledger_update-Held live call id w h =
      run_update-HasRow (env.ledger_reply w.tick) (advance env w).ledger call id orchestration_stage
        (advance-Held id w h)
