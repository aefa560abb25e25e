-- ===== src/Ledger/Invariant.antt =====
-- What every row satisfies, and what its attempt counts.
use orchestration_service.Base.{
  ℕ, ◌+◌, ◌≤◌, ◌≡◌, ◌≢◌, refl, true, false, Option, none, some, List, [], ◌∷◌, arith, if◌then◌else◌,
  Bool-cases, Option-cases, inl, inr,
}
use orchestration_service.Base.Int.{ℤ, ◌+ℤ◌}
use orchestration_service.Text.{Text}
use orchestration_service.Json.{Json}
use orchestration_service.Ledger.{
  StageState, in_progress, completed, failed, StageRecord, Table, ClaimDisposition, claim_acquired,
  at_key, is_leased, claim_row, claim, empty, renewed,
}
use orchestration_service.Ledger.Calls.{
  Verb, claims, renews, completes, fails, releases, Call, step, run, on_slot, claimed_row, step-eq,
}

-- A SettledRow row, completed or failed, has a result and no lease.
abbrev SettledRow : StageState → StageRecord → Type 0
SettledRow in_progress r = Unit
SettledRow _ r = (r.result_json ≢ none) × (r.lease_expires_at ≡ none)

pub record IsWfRow (id stage : Text) (r : StageRecord) : Type 0 where
  pub deployment_id : r.deployment_id ≡ id
  pub stage_of : r.stage ≡ stage
  pub counted : 1 ≤ r.attempt
  pub result : SettledRow r.state r

abbrev SlotIsWf : Text → Text → Option StageRecord → Type 0
SlotIsWf id stage none = Unit
SlotIsWf id stage (some r) = IsWfRow id stage r

pub record IsWf (table : Table) : Type 0 where
  pub at : (id stage : Text) → SlotIsWf id stage (table id stage)

claimed_row-IsWfRow :
    (id stage : Text) (now d : ℤ) (r : StageRecord) (s : StageState)
    → r.state ≡ s
    → IsWfRow id stage r
    → IsWfRow id stage (claimed_row now d r s)
claimed_row-IsWfRow id stage now d r in_progress e h =
    elim (Bool-cases (is_leased now r.lease_expires_at)) [
      | inl b ↦ rw b h
      | inr b ↦ rw b (record {
        deployment_id = h.deployment_id;
        stage_of = h.stage_of;
        counted = omega (arith, h.counted);
        result = tt;
      })
    ]
claimed_row-IsWfRow id stage now d r _ e h = h

renewed-IsWfRow :
    (id stage : Text) (lease : ℤ) (r : StageRecord) (s : StageState)
    → r.state ≡ s
    → IsWfRow id stage r
    → IsWfRow id stage (renewed lease r s)
renewed-IsWfRow id stage lease r in_progress e h = record {
  deployment_id = h.deployment_id;
  stage_of = h.stage_of;
  counted = h.counted;
  result = rw e tt;
}
renewed-IsWfRow id stage lease r _ e h = h

settle-IsWfRow :
    (id stage : Text) (v : Json) (r : StageRecord) (s : StageState)
    → IsWfRow id stage r
    → IsWfRow id stage (record r { state = s; lease_expires_at = none; result_json = some v })
settle-IsWfRow id stage v r s h = record {
  deployment_id = h.deployment_id;
  stage_of = h.stage_of;
  counted = h.counted;
  result = settled_now s;
}
  where
    settled_now :
        (s : StageState)
        → SettledRow s (record r { state = s; lease_expires_at = none; result_json = some v })
    settled_now in_progress = tt
    settled_now completed = (cc, refl)
    settled_now failed = (cc, refl)

on_slot-IsWf :
    (id stage : Text) (v : Verb) (o : Option StageRecord)
    → SlotIsWf id stage o
    → SlotIsWf id stage (on_slot id stage v o)
on_slot-IsWf id stage (claims now d) none h = record {
  deployment_id = refl;
  stage_of = refl;
  counted = omega arith;
  result = tt;
}
on_slot-IsWf id stage _ none h = tt
on_slot-IsWf id stage (claims now d) (some r) h =
    claimed_row-IsWfRow id stage now d r r.state refl h
on_slot-IsWf id stage (renews now d) (some r) h =
    renewed-IsWfRow id stage (now +ℤ d) r r.state refl h
on_slot-IsWf id stage (completes v) (some r) h = settle-IsWfRow id stage v r completed h
on_slot-IsWf id stage (fails v) (some r) h = settle-IsWfRow id stage v r failed h
on_slot-IsWf id stage releases (some r) h = record {
  deployment_id = h.deployment_id;
  stage_of = h.stage_of;
  counted = h.counted;
  result = tt;
}

step-IsWf : (table : Table) (c : Call) → IsWf table → IsWf (step table c)
step-IsWf table c h = record {
  at = λ id stage. elim (Bool-cases (at_key c.id c.stage id stage)) [
    | inl e ↦
        rw (step-eq table c id stage, e)
          (on_slot-IsWf id stage c.verb (table id stage) (h.at id stage))
    | inr e ↦ rw (step-eq table c id stage, e) (h.at id stage)
  ];
}

-- Every sequence of calls keeps the table well formed: a row carries its key, counts at least one
-- attempt, and, where it is completed or failed, holds a result and no lease.
pub run-IsWf : (table : Table) (calls : List Call) → IsWf table → IsWf (run table calls)
unfolding run
run-IsWf table [] h = h
run-IsWf table (c ∷ cs) h = run-IsWf (step table c) cs (step-IsWf table c h)

pub IsWf-empty : IsWf empty
IsWf-empty = record { at = λ id stage. tt }

abbrev pub attempt_of : Option StageRecord → ℕ
attempt_of none = 0
attempt_of (some r) = r.attempt

abbrev is_acquired : ClaimDisposition → ℕ
is_acquired claim_acquired = 1
is_acquired _ = 0

-- 1 for a claim of this key that is acquired, 0 for any other call.
abbrev acquires : Table → Text → Text → Call → Verb → ℕ
acquires table id stage c (claims now d) =
    if at_key c.id c.stage id stage then is_acquired (claim table now id stage d).1 else 0
acquires table id stage c _ = 0

-- The acquired claims of a key in a sequence of calls.
unfoldable pub acquisitions : Table → Text → Text → List Call → ℕ
acquisitions table id stage [] = 0
acquisitions table id stage (c ∷ cs) =
    acquires table id stage c c.verb + acquisitions (step table c) id stage cs

attempt-claim :
    (table : Table) (id stage : Text) (now d : ℤ)
    → attempt_of (on_slot id stage (claims now d) (table id stage))
      ≡ attempt_of (table id stage) + is_acquired (claim table now id stage d).1
unfolding claim claim_row
attempt-claim table id stage now d = elim (Option-cases (table id stage)) [
  | inl e ↦ ground arith
  | inr (r, e) ↦ ground arith
]

attempt-slot :
    (table : Table) (c : Call) (id stage : Text) (v : Verb)
    → at_key c.id c.stage id stage ≡ true
    → attempt_of (on_slot id stage v (table id stage))
      ≡ attempt_of (table id stage) + acquires table id stage c v
attempt-slot table c id stage (claims now d) h = rw h (attempt-claim table id stage now d)
attempt-slot table c id stage _ h = elim (Option-cases (table id stage)) [
  | inl e ↦ ground arith
  | inr (r, e) ↦ ground arith
]

attempt-step :
    (table : Table) (c : Call) (id stage : Text)
    → attempt_of (step table c id stage)
      ≡ attempt_of (table id stage) + acquires table id stage c c.verb
attempt-step table c id stage = elim (Bool-cases (at_key c.id c.stage id stage)) [
  | inl e ↦ rw (step-eq table c id stage, e) (attempt-slot table c id stage c.verb e)
  | inr e ↦ rw (step-eq table c id stage, e) (no_claim c.verb e)
]
  where
    no_claim :
        (v : Verb)
        → at_key c.id c.stage id stage ≡ false
        → attempt_of (table id stage) ≡ attempt_of (table id stage) + acquires table id stage c v
    no_claim (claims now d) e = rw e (omega arith)
    no_claim _ e = omega arith

-- The attempt of a row counts the acquired claims of its key: over any sequence of calls it grows by
-- exactly their number, and never falls.
pub attempt-run :
    (table : Table) (calls : List Call) (id stage : Text)
    → attempt_of (run table calls id stage)
      ≡ attempt_of (table id stage) + acquisitions table id stage calls
unfolding run acquisitions
attempt-run table [] id stage = omega arith
attempt-run table (c ∷ cs) id stage =
    omega (arith, attempt-run (step table c) cs id stage, attempt-step table c id stage)
