-- ===== src/Ledger.antt =====
-- ledger.go and migrations/001_stage_ledger.sql: the table of stages and the statements of
-- `PostgresStageLedger`. One statement, or one transaction, is one step: the row is locked in it.
-- Times are nanoseconds; the table is a function of the primary key.
pub mod Calls
pub mod Lease
pub mod Invariant
pub mod Terminal
mod Tests
use orchestration_service.Base.{
  ℕ, suc, ◌+◌, Bool, true, false, ◌&&◌, Option, none, some, List, [], ◌∷◌, if◌then◌else◌,
}
use orchestration_service.Base.Int.{ℤ, ◌+ℤ◌, ltb_ℤ}
use orchestration_service.Text.{Text, text_eq}
use orchestration_service.Json.{Json}
use orchestration_service.Errors.{GoError}

pub data StageState : Type 0 where
  in_progress completed failed : StageState

pub data ClaimDisposition : Type 0 where
  claim_acquired claim_completed claim_busy claim_failed : ClaimDisposition

pub record StageRecord : Type 0 where
  pub deployment_id : Text
  pub stage : Text
  pub state : StageState
  pub attempt : ℕ
  pub lease_expires_at : Option ℤ
  pub result_json : Option Json

abbrev pub Table : Type 0
Table = Text → Text → Option StageRecord

abbrev pub empty : Table
empty id stage = none

abbrev pub at_key : Text → Text → Text → Text → Bool
at_key id stage id' stage' = text_eq id id' && text_eq stage stage'

abbrev pub write : Table → Text → Text → StageRecord → Table
write table id stage row id' stage' =
    if at_key id stage id' stage' then some row else table id' stage'

-- `UPDATE … WHERE deployment_id=$1 AND stage=$2`: no row, no change.
abbrev pub update_where : Table → Text → Text → (StageRecord → StageRecord) → Table
update_where table id stage f = elim (table id stage) [
  | none ↦ table
  | some row ↦ write table id stage (f row)
]

abbrev pub fresh : Text → Text → ℤ → StageRecord
fresh id stage lease = record {
  deployment_id = id;
  stage = stage;
  state = in_progress;
  attempt = 1;
  lease_expires_at = some lease;
  result_json = none;
}

-- `r.LeaseExpiresAt.Valid && r.LeaseExpiresAt.Time.After(now)`.
abbrev pub is_leased : ℤ → Option ℤ → Bool
is_leased now none = false
is_leased now (some t) = ltb_ℤ now t

abbrev pub reclaimed : ℤ → StageRecord → StageRecord
reclaimed lease r = record r {
  state = in_progress;
  attempt = r.attempt + 1;
  lease_expires_at = some lease;
}

-- The part of `Claim` behind the SELECT, by the state of the row.
claim_row :
    Table → ℤ → Text → Text → ℤ → StageRecord → StageState → Table × ClaimDisposition × StageRecord
claim_row table now id stage d r completed = (table, claim_completed, r)
claim_row table now id stage d r failed = (table, claim_failed, r)
claim_row table now id stage d r in_progress =
    if is_leased now r.lease_expires_at then (table, claim_busy, r) else (
      update_where table id stage (reclaimed (now +ℤ d)),
      claim_acquired,
      reclaimed (now +ℤ d) r,
    )

-- `Claim`, as a transaction that commits.
unfoldable pub claim : Table → ℤ → Text → Text → ℤ → Table × ClaimDisposition × StageRecord
unfolding claim_row
claim table now id stage d = elim (table id stage) [
  | none ↦
      (write table id stage (fresh id stage (now +ℤ d)), claim_acquired, fresh id stage (now +ℤ d))
  | some r ↦ claim_row table now id stage d r r.state
]

abbrev pub renewed : ℤ → StageRecord → StageState → StageRecord
renewed lease r in_progress = record r { lease_expires_at = some lease }
renewed lease r _ = r

unfoldable pub renew : Table → ℤ → Text → Text → ℤ → Table
renew table now id stage d = update_where table id stage (λ r. renewed (now +ℤ d) r r.state)

-- `set`: the row's state is not looked at.
unfoldable pub set : Table → Text → Text → StageState → Json → Table
set table id stage s v =
    update_where table id stage
      (λ r. record r { state = s; result_json = some v; lease_expires_at = none })

unfoldable pub complete : Table → Text → Text → Json → Table
unfolding set
complete table id stage v = set table id stage completed v

unfoldable pub fail : Table → Text → Text → Json → Table
unfolding set
fail table id stage v = set table id stage failed v

unfoldable pub release : Table → Text → Text → Table
release table id stage =
    update_where table id stage (λ r. record r { state = in_progress; lease_expires_at = none })

-- How the database answers a call: it fails and nothing is written, or the commit is done and its
-- confirmation is lost.
pub data Fault : Type 0 where
  undone unconfirmed : GoError → Fault

-- `if e != nil { return 0, …, e }` in every place.
pub data ClaimReply : Type 0 where
  claimed : ClaimDisposition → StageRecord → ClaimReply
  refused : GoError → ClaimReply

unfoldable pub run_claim : Option Fault → Table → ℤ → Text → Text → ℤ → Table × ClaimReply
unfolding claim
run_claim (some (undone e)) table now id stage d = (table, refused e)
run_claim (some (unconfirmed e)) table now id stage d = ((claim table now id stage d).0, refused e)
run_claim none table now id stage d =
    let (table', disposition, r) = claim table now id stage d in (table', claimed disposition r)

-- A statement of `Renew`, `Complete`, `Fail` or `Release`, which turns `table` into `after`.
unfoldable pub run_update : Option Fault → Table → Table → Table × Option GoError
run_update (some (undone e)) table after = (table, some e)
run_update (some (unconfirmed e)) table after = (after, some e)
run_update none table after = (after, none)
