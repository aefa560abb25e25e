-- ===== src/Ledger/Tests.antt =====
-- The ledger on concrete calls.
use orchestration_service.Base.{◌≡◌, refl, none, some, List, [], ◌∷◌, ◌↔◌, ◌+◌, if◌then◌else◌}
use orchestration_service.Base.Int.{pos}
use orchestration_service.Text.{Text, codes, text_eq}
use orchestration_service.Json.{null}
use orchestration_service.Ledger.{
  Table, StageRecord, completed, claim_acquired, claim_busy, claim_failed, claim, fail, release,
  empty, at_key, write,
}
use orchestration_service.Ledger.Calls.{Call, claims, renews, step, run, on_slot, step-eq}
use orchestration_service.Ledger.Lease.{claim-exclusive}
use orchestration_service.Ledger.Invariant.{
  IsWf, IsWf-empty, run-IsWf, attempt_of, acquisitions, attempt-run,
}
use orchestration_service.Ledger.Terminal.{
  IsFree, claim-acquired_iff, run-settled, release-reopens, fail-overwrites,
}

abbrev id : Text
id = codes "d1"

abbrev stage : Text
stage = codes "orchestration"

abbrev claim_of : Text → Call
claim_of i = record { id = i; stage = stage; verb = claims (pos 3) (pos 10) }

abbrev calls : List Call
calls =
    claim_of id
    ∷ record { id = id; stage = stage; verb = renews (pos 6) (pos 10) }
    ∷ claim_of (codes "d2")
    ∷ []

abbrev done : StageRecord
done = record {
  deployment_id = id;
  stage = stage;
  state = completed;
  attempt = 1;
  lease_expires_at = none;
  result_json = some null;
}

abbrev settled : Table
settled = write empty id stage done

claim-exclusive_example :
    (claim (run (claim empty (pos 0) id stage (pos 10)).0 calls) (pos 9) id stage (pos 10)).1
    ≡ claim_busy
unfolding claim
claim-exclusive_example =
    claim-exclusive empty (pos 0) id stage (pos 10) calls (pos 9) (pos 10) refl
      (λ h. refl, (λ h. refl, (λ h. refl, tt))) refl

run-IsWf_example : IsWf (run empty calls)
run-IsWf_example = run-IsWf empty calls IsWf-empty

attempt-run_example :
    attempt_of (run empty calls id stage)
    ≡ attempt_of (empty id stage) + acquisitions empty id stage calls
attempt-run_example = attempt-run empty calls id stage

step-eq_example :
    step empty (claim_of id) id stage
    ≡ (if at_key id stage id stage then on_slot id stage (claims (pos 3) (pos 10)) none else none)
step-eq_example = step-eq empty (claim_of id) id stage

claim-acquired_iff_example :
    ((claim settled (pos 3) id stage (pos 10)).1 ≡ claim_acquired)
    ↔ IsFree (pos 3) (settled id stage)
claim-acquired_iff_example = claim-acquired_iff settled (pos 3) id stage (pos 10)

run-settled_example : run settled calls id stage ≡ some done
unfolding text_eq
run-settled_example =
    run-settled settled calls id stage done (λ h. refl, (λ h. refl, (λ h. refl, tt))) refl refl

release-reopens_example :
    (claim (release settled id stage) (pos 3) id stage (pos 10)).1 ≡ claim_acquired
unfolding text_eq
release-reopens_example = release-reopens settled id stage done (pos 3) (pos 10) refl

fail-overwrites_example :
    (claim (fail settled id stage null) (pos 3) id stage (pos 10)).1 ≡ claim_failed
unfolding text_eq
fail-overwrites_example = fail-overwrites settled id stage done null (pos 3) (pos 10) refl
