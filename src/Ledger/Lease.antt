-- ===== src/Ledger/Lease.antt =====
-- Leases of the ledger: the row that is held, and the claims of others.
use orchestration_service.Base.{
  ℕ, ◌≡◌, ◌∙◌, refl, Bool, true, false, some, List, [], ◌∷◌, arith, Bool-cases, Option-cases, inl,
  inr, All,
}
use orchestration_service.Base.Int.{ℤ, ◌+ℤ◌, ltb_ℤ, leb_ℤ}
use orchestration_service.Text.{Text}
use orchestration_service.Text.Equality.{text_eq_self}
use orchestration_service.Ledger.{
  in_progress, StageRecord, Table, claim_acquired, claim_busy, at_key, claim_row, claim, fresh,
  reclaimed,
}
use orchestration_service.Ledger.Calls.{Verb, claims, renews, Call, step, run, on_slot, step-eq}

-- The row is in progress, in its `n`th attempt, under a lease that lasts to `t` at least.
pub record IsHeld (id stage : Text) (n : ℕ) (t : ℤ) (table : Table) : Type 0 where
  pub row : StageRecord
  pub lease : ℤ
  pub found : table id stage ≡ some row
  pub state : row.state ≡ in_progress
  pub leased : row.lease_expires_at ≡ some lease
  pub attempt : row.attempt ≡ n
  pub lasts : leb_ℤ t lease ≡ true

-- A call that respects the lease up to `t`: a claim made before `t`, or a renewal that reaches to `t`.
abbrev respects : ℤ → Verb → Bool
respects t (claims now d) = ltb_ℤ now t
respects t (renews now d) = leb_ℤ t (now +ℤ d)
respects t _ = false

-- Calls for other keys are free.
abbrev pub Respects : Text → Text → ℤ → Call → Type 0
Respects id stage t c = at_key c.id c.stage id stage ≡ true → respects t c.verb ≡ true

ltb-leb_trans : (a b c : ℤ) → ltb_ℤ a b ≡ true → leb_ℤ b c ≡ true → ltb_ℤ a c ≡ true
ltb-leb_trans a b c h k = ground arith

leb_refl : (a : ℤ) → leb_ℤ a a ≡ true
leb_refl a = ground arith

module _ (id stage : Text) (n : ℕ) (t : ℤ) where
  same-IsHeld :
      (table table' : Table)
      → table' id stage ≡ table id stage
      → IsHeld id stage n t table
      → IsHeld id stage n t table'
  same-IsHeld table table' e k = record {
    row = k.row;
    lease = k.lease;
    found = e ∙ k.found;
    state = k.state;
    leased = k.leased;
    attempt = k.attempt;
    lasts = k.lasts;
  }

  on_slot-IsHeld :
      (table table' : Table) (v : Verb)
      → respects t v ≡ true
      → table' id stage ≡ on_slot id stage v (table id stage)
      → IsHeld id stage n t table
      → IsHeld id stage n t table'
  on_slot-IsHeld table table' (claims now d) h e k =
      same-IsHeld table table' (ground (arith, ltb-leb_trans now t k.lease)) k
  on_slot-IsHeld table table' (renews now d) h e k = record {
    row = record k.row { lease_expires_at = some (now +ℤ d) };
    lease = now +ℤ d;
    found = ground arith;
    state = k.state;
    leased = refl;
    attempt = k.attempt;
    lasts = h;
  }
  on_slot-IsHeld table table' _ h e k = cc

  step-IsHeld :
      (table : Table) (c : Call)
      → Respects id stage t c
      → IsHeld id stage n t table
      → IsHeld id stage n t (step table c)
  step-IsHeld table c h k = elim (Bool-cases (at_key c.id c.stage id stage)) [
    | inl e ↦ on_slot-IsHeld table (step table c) c.verb (h e) (rw (step-eq table c id stage, e)) k
    | inr e ↦ same-IsHeld table (step table c) (rw (step-eq table c id stage, e)) k
  ]

  run-IsHeld :
      (table : Table) (calls : List Call)
      → All (Respects id stage t) calls
      → IsHeld id stage n t table
      → IsHeld id stage n t (run table calls)
  unfolding run
  run-IsHeld table [] h k = k
  run-IsHeld table (c ∷ cs) h k = run-IsHeld (step table c) cs h.1 (step-IsHeld table c h.0 k)

  -- A claim made before the lease runs out is busy.
  claim-busy :
      (table : Table) (now d : ℤ)
      → ltb_ℤ now t ≡ true
      → IsHeld id stage n t table
      → (claim table now id stage d).1 ≡ claim_busy
  unfolding claim claim_row
  claim-busy table now d h k = ground (arith, ltb-leb_trans now t k.lease)

-- An acquired claim leaves the row in progress under the new lease, in the attempt that it returns.
pub claim-IsHeld :
    (table : Table) (now : ℤ) (id stage : Text) (d : ℤ)
    → (claim table now id stage d).1 ≡ claim_acquired
    → IsHeld id stage
        (claim table now id stage d).2.attempt
        (now +ℤ d)
        (claim table now id stage d).0
unfolding claim claim_row
claim-IsHeld table now id stage d h = elim (Option-cases (table id stage)) [
  | inl e ↦ record {
    row = fresh id stage (now +ℤ d);
    lease = now +ℤ d;
    found = ground (arith, text_eq_self id, text_eq_self stage);
    state = refl;
    leased = refl;
    attempt = ground arith;
    lasts = leb_refl (now +ℤ d);
  }
  | inr (r, e) ↦ record {
    row = reclaimed (now +ℤ d) r;
    lease = now +ℤ d;
    found = ground (arith, text_eq_self id, text_eq_self stage);
    state = refl;
    leased = refl;
    attempt = ground arith;
    lasts = leb_refl (now +ℤ d);
  }
]

-- Mutual exclusion. Once a worker has acquired a stage at `now` for `d`, a claim of that stage at any
-- time before `now + d` is busy, whatever calls were made in between: any calls for other keys,
-- claims of this one before `now + d`, and renewals that reach to `now + d`.
pub claim-exclusive :
    (table : Table) (now : ℤ) (id stage : Text) (d : ℤ) (calls : List Call) (now' d' : ℤ)
    → (claim table now id stage d).1 ≡ claim_acquired
    → All (Respects id stage (now +ℤ d)) calls
    → ltb_ℤ now' (now +ℤ d) ≡ true
    → (claim (run (claim table now id stage d).0 calls) now' id stage d').1 ≡ claim_busy
claim-exclusive table now id stage d calls now' d' h polite early =
    let t = now +ℤ d in
    let after = (claim table now id stage d).0 in
    let n = (claim table now id stage d).2.attempt in
    claim-busy id stage n t (run after calls) now' d' early
      (run-IsHeld id stage n t after calls polite (claim-IsHeld table now id stage d h))
