-- ===== src/Ledger/Terminal.antt =====
-- Settled stages: what keeps them, and which calls of this ledger undo them.
use orchestration_service.Base.{
  ◌≡◌, refl, Bool, true, false, Option, none, some, List, [], ◌∷◌, arith, Bool-cases, Option-cases,
  inl, inr, All, ◌↔◌, ◌⊎◌,
}
use orchestration_service.Base.Int.{ℤ}
use orchestration_service.Text.{Text}
use orchestration_service.Text.Equality.{text_eq_self}
use orchestration_service.Json.{Json}
use orchestration_service.Ledger.{
  StageState, in_progress, StageRecord, Table, claim_acquired, claim_failed, at_key, is_leased,
  claim_row, claim, fail, set, release,
}
use orchestration_service.Ledger.Calls.{Verb, claims, renews, Call, step, run, on_row, step-eq}

-- The stage can be taken: there is no row, or it is in progress under no lease that is still running.
abbrev pub IsFree : ℤ → Option StageRecord → Type 0
IsFree now o =
    (o ≡ none)
    ⊎ ((r : StageRecord) × (o ≡ some r)
        × (r.state ≡ in_progress)
        × (is_leased now r.lease_expires_at ≡ false))

-- A claim is acquired exactly when the stage is free at its time.
pub claim-acquired_iff :
    (table : Table) (now : ℤ) (id stage : Text) (d : ℤ)
    → ((claim table now id stage d).1 ≡ claim_acquired) ↔ IsFree now (table id stage)
unfolding claim claim_row
claim-acquired_iff table now id stage d = elim (Option-cases (table id stage)) [
  | inl e ↦ (λ h. inl e, λ h. ground arith)
  | inr (r, e) ↦ (
    λ h. inr (r, e, ground arith, ground arith),
    λ h. elim h [ inl n ↦ ground arith | inr (r', e', s, l) ↦ ground arith ],
  )
]

abbrev pub is_settled : StageState → Bool
is_settled in_progress = false
is_settled _ = true

abbrev asks : Verb → Bool
asks (claims now d) = true
asks (renews now d) = true
asks _ = false

-- Calls of other keys are free; of this key only claims and renewals.
abbrev pub OnlyAsks : Text → Text → Call → Type 0
OnlyAsks id stage c = at_key c.id c.stage id stage ≡ true → asks c.verb ≡ true

on_row-settled :
    (v : Verb) (r : StageRecord) → asks v ≡ true → is_settled r.state ≡ true → on_row v r ≡ r
on_row-settled v r h k = ground arith

step-settled :
    (table : Table) (c : Call) (id stage : Text) (r : StageRecord)
    → OnlyAsks id stage c
    → is_settled r.state ≡ true
    → table id stage ≡ some r
    → step table c id stage ≡ some r
step-settled table c id stage r h k e = elim (Bool-cases (at_key c.id c.stage id stage)) [
  | inl b ↦ rw (step-eq table c id stage, b, e, on_row-settled c.verb r (h b) k)
  | inr b ↦ rw (step-eq table c id stage, b) e
]

-- Claims and renewals by anyone leave a completed or failed row as it is, so its result can be read
-- again for ever.
pub run-settled :
    (table : Table) (calls : List Call) (id stage : Text) (r : StageRecord)
    → All (OnlyAsks id stage) calls
    → is_settled r.state ≡ true
    → table id stage ≡ some r
    → run table calls id stage ≡ some r
unfolding run
run-settled table [] id stage r h k e = e
run-settled table (c ∷ cs) id stage r h k e =
    run-settled (step table c) cs id stage r h.1 k (step-settled table c id stage r h.0 k e)

-- `Release` looks at no state: whatever the row was, completed and failed included, the stage can be
-- acquired at once afterwards.
pub release-reopens :
    (table : Table) (id stage : Text) (r : StageRecord) (now d : ℤ)
    → table id stage ≡ some r
    → (claim (release table id stage) now id stage d).1 ≡ claim_acquired
unfolding release
release-reopens table id stage r now d e =
    (claim-acquired_iff (release table id stage) now id stage d).1 (
      inr (
        record r { state = in_progress; lease_expires_at = none },
        ground (arith, text_eq_self id, text_eq_self stage),
        refl,
        refl,
      ))

-- `Fail` looks at no state either: a row that was completed is failed afterwards.
pub fail-overwrites :
    (table : Table) (id stage : Text) (r : StageRecord) (v : Json) (now d : ℤ)
    → table id stage ≡ some r
    → (claim (fail table id stage v) now id stage d).1 ≡ claim_failed
unfolding fail claim claim_row set
fail-overwrites table id stage r v now d e = ground (arith, text_eq_self id, text_eq_self stage)
