-- ===== src/Ledger/Calls.antt =====
-- Sequences of ledger calls, by any number of workers in any order, and what each call does to the
-- row of one key.
use orchestration_service.Base.{
  ◌≡◌, true, false, Option, none, some, List, [], ◌∷◌, arith, if◌then◌else◌, Bool-cases,
  Option-cases, inl, inr,
}
use orchestration_service.Base.Int.{ℤ, ◌+ℤ◌}
use orchestration_service.Text.{Text}
use orchestration_service.Text.Equality.{text_eq_self, text_eq→eq}
use orchestration_service.Json.{Json}
use orchestration_service.Ledger.{
  StageState, in_progress, completed, failed, StageRecord, Table, at_key, fresh, is_leased,
  reclaimed, claim_row, claim, renewed, renew, set, complete, fail, release,
}

pub data Verb : Type 0 where
  claims renews : ℤ → ℤ → Verb
  completes fails : Json → Verb
  releases : Verb

pub record Call : Type 0 where
  pub id : Text
  pub stage : Text
  pub verb : Verb

perform : Table → Text → Text → Verb → Table
unfolding claim renew complete fail release
perform table id stage (claims now d) = (claim table now id stage d).0
perform table id stage (renews now d) = renew table now id stage d
perform table id stage (completes v) = complete table id stage v
perform table id stage (fails v) = fail table id stage v
perform table id stage releases = release table id stage

unfoldable pub step : Table → Call → Table
unfolding perform
step table c = perform table c.id c.stage c.verb

unfoldable pub run : Table → List Call → Table
run table [] = table
run table (c ∷ cs) = run (step table c) cs

-- What a call does to the row that it addresses.
abbrev pub claimed_row : ℤ → ℤ → StageRecord → StageState → StageRecord
claimed_row now d r in_progress =
    if is_leased now r.lease_expires_at then r else reclaimed (now +ℤ d) r
claimed_row now d r _ = r

abbrev pub on_row : Verb → StageRecord → StageRecord
on_row (claims now d) r = claimed_row now d r r.state
on_row (renews now d) r = renewed (now +ℤ d) r r.state
on_row (completes v) r = record r {
  state = completed;
  result_json = some v;
  lease_expires_at = none;
}
on_row (fails v) r = record r { state = failed; result_json = some v; lease_expires_at = none }
on_row releases r = record r { state = in_progress; lease_expires_at = none }

-- Where there is no row only a claim makes one.
abbrev pub on_missing : Text → Text → Verb → Option StageRecord
on_missing id stage (claims now d) = some (fresh id stage (now +ℤ d))
on_missing id stage _ = none

abbrev pub on_slot : Text → Text → Verb → Option StageRecord → Option StageRecord
on_slot id stage v none = on_missing id stage v
on_slot id stage v (some r) = some (on_row v r)

at_key_self : (id stage : Text) → at_key id stage id stage ≡ true
at_key_self id stage = ground (arith, text_eq_self id, text_eq_self stage)

module _ (table : Table) (id stage : Text) where
  claim_row-slot :
      (now d : ℤ) (r : StageRecord) (s : StageState)
      → table id stage ≡ some r
      → (claim_row table now id stage d r s).0 id stage ≡ some (claimed_row now d r s)
  unfolding claim_row
  claim_row-slot now d r completed h = h
  claim_row-slot now d r failed h = h
  claim_row-slot now d r in_progress h = ground (arith, at_key_self id stage)

  -- The row that a call addresses changes as `on_slot` says.
  perform_self :
      (v : Verb) → perform table id stage v id stage ≡ on_slot id stage v (table id stage)
  unfolding perform set
  perform_self (claims now d) = elim (Option-cases (table id stage)) [
    | inl e ↦ ground (arith, at_key_self id stage)
    | inr (r, e) ↦ ground (arith, claim_row-slot now d r r.state e)
  ]
  perform_self _ = ground (arith, at_key_self id stage)

  -- The rows of other keys stay.
  perform-other :
      (v : Verb) (id' stage' : Text)
      → at_key id stage id' stage' ≡ false
      → perform table id stage v id' stage' ≡ table id' stage'
  unfolding perform set claim_row
  perform-other (claims now d) id' stage' h = ground arith
  perform-other _ id' stage' h = ground arith

-- A call changes exactly the row that it addresses, as `on_slot` says.
pub step-eq :
    (table : Table) (c : Call) (id stage : Text)
    → step table c id stage ≡ (
        if at_key c.id c.stage id stage
        then on_slot id stage c.verb (table id stage)
        else table id stage)
unfolding step
step-eq table c id stage = elim (Bool-cases (at_key c.id c.stage id stage)) [
  | inl e ↦ rw e (ground (arith, perform_self table id stage c.verb, same_key e))
  | inr e ↦ rw e (perform-other table c.id c.stage c.verb id stage e)
]
  where
    same_key : at_key c.id c.stage id stage ≡ true → (c.id ≡ id) × (c.stage ≡ stage)
    same_key e = (text_eq→eq c.id id (ground arith), text_eq→eq c.stage stage (ground arith))

-- The row that a call addresses.
pub step_self :
    (table : Table) (c : Call)
    → step table c c.id c.stage ≡ on_slot c.id c.stage c.verb (table c.id c.stage)
unfolding step
step_self table c = perform_self table c.id c.stage c.verb
