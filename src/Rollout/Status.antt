-- ===== src/Rollout/Status.antt =====
-- What a Deployment's conditions say, against a description by membership.
use orchestration_service.Base.{
  ◌≡◌, refl, ◌↔◌, ◌⊎◌, inl, inr, Bool, true, false, ◌||◌, Option, ℕ, ◌+◌, ◌-◌, none, some, List, [],
  ◌∷◌, arith, Bool-cases,
}
use orchestration_service.Base.Int.{ℤ, pos, negsuc, ◌+ℤ◌, leb_ℤ, eq_ℤ→eq, eq_ℤ_self}
use orchestration_service.Text.{codes}
use orchestration_service.Text.Equality.{text_eq→eq, text_eq_self}
use orchestration_service.Names.{DeploymentTarget}
use orchestration_service.Rollout.{
  Condition, Deployment, is_stalled, is_replica_failure, is_available, failure_of, scan_conditions,
  rollout_condition_error, any_available, wanted_replicas, deployment_rollout_complete,
}

abbrev pub is_failure : Condition → Bool
is_failure c = is_stalled c || is_replica_failure c

-- `c` is the first condition of the list that `p` selects.
pub data First (p : Condition → Bool) : Condition → List Condition → Type 0 where
  here : {c : Condition} {cs : List Condition} → p c ≡ true → First p c (c ∷ cs)
  later : {c b : Condition} {cs : List Condition} → p b ≡ false → First p c cs → First p c (b ∷ cs)

-- No condition of the list is selected.
abbrev pub NoneOf : (Condition → Bool) → List Condition → Type 0
NoneOf p [] = Unit
NoneOf p (c ∷ cs) = (p c ≡ false) × NoneOf p cs

scan_conditions-First :
    (target : DeploymentTarget) {c : Condition} {cs : List Condition}
    → First is_failure c cs
    → scan_conditions target cs ≡ some (failure_of target c)
unfolding scan_conditions
scan_conditions-First target (here h) = ground arith
scan_conditions-First target (later h f) = ground (arith, scan_conditions-First target f)

scan_conditions-none :
    (target : DeploymentTarget) (cs : List Condition)
    → NoneOf is_failure cs
    → scan_conditions target cs ≡ none
unfolding scan_conditions
scan_conditions-none target [] h = refl
scan_conditions-none target (c ∷ cs) h = ground (arith, scan_conditions-none target cs h.1)

split_conditions :
    (p : Condition → Bool) (cs : List Condition) → ((c : Condition) × First p c cs) ⊎ NoneOf p cs
split_conditions p [] = inr tt
split_conditions p (c ∷ cs) = elim (Bool-cases (p c)) [
  | inl h ↦ inl (c, here h)
  | inr h ↦ elim (split_conditions p cs) [ inl (d, f) ↦ inl (d, later h f) | inr n ↦ inr (h, n) ]
]

-- The rollout's error is the failure of the first condition that reports one, a stalled progress or a
-- replica failure, and there is no error exactly when no condition does.
pub rollout_condition_error-eq :
    (d : Deployment) (target : DeploymentTarget)
    → ((c : Condition) × First is_failure c d.conditions
        × (rollout_condition_error d target ≡ some (failure_of target c)))
      ⊎ (NoneOf is_failure d.conditions × (rollout_condition_error d target ≡ none))
unfolding rollout_condition_error
rollout_condition_error-eq d target = elim (split_conditions is_failure d.conditions) [
  | inl (c, f) ↦ inl (c, f, scan_conditions-First target f)
  | inr n ↦ inr (n, scan_conditions-none target d.conditions n)
]

-- A condition of the list satisfies `P`.
pub data Among (P : Condition → Type 0) : List Condition → Type 0 where
  at_head : {c : Condition} {cs : List Condition} → P c → Among P (c ∷ cs)
  in_tail : {c : Condition} {cs : List Condition} → Among P cs → Among P (c ∷ cs)

abbrev pub SaysAvailable : Condition → Type 0
SaysAvailable c = (c.kind ≡ codes "Available") × (c.status ≡ codes "True")

-- The replicas that a spec asks for: 1 where it does not say.
abbrev pub AsksFor : Option ℤ → ℤ → Type 0
AsksFor none n = n ≡ pos 1
AsksFor (some m) n = n ≡ m

-- A complete rollout: an Available condition that is True, a status that has been observed at the
-- spec's generation or a later one, and every count at the number of replicas that the spec asks for.
pub record IsComplete (d : Deployment) : Type 0 where
  pub available : Among SaysAvailable d.conditions
  pub wanted : ℤ
  pub asked : AsksFor d.spec_replicas wanted
  pub newer : ℕ
  pub observed : d.observed_generation ≡ d.generation +ℤ pos newer
  pub updated : d.updated_replicas ≡ wanted
  pub total : d.replicas ≡ wanted
  pub ready : d.available_replicas ≡ wanted

leb_ℤ-difference : (a b : ℤ) → leb_ℤ a b ≡ true → (k : ℕ) × (b ≡ a +ℤ pos k)
leb_ℤ-difference (pos m) (pos n) h = (n - m, ground arith)
leb_ℤ-difference (pos m) (negsuc n) h = ground arith
leb_ℤ-difference (negsuc m) (pos n) h = (n + m + 1, ground arith)
leb_ℤ-difference (negsuc m) (negsuc n) h = (m - n, ground arith)

leb_ℤ-sum : (a : ℤ) (k : ℕ) → leb_ℤ a (a +ℤ pos k) ≡ true
leb_ℤ-sum (pos m) k = ground arith
leb_ℤ-sum (negsuc m) k = ground arith

wanted-AsksFor : (d : Deployment) → AsksFor d.spec_replicas (wanted_replicas d)
wanted-AsksFor d = go d.spec_replicas
  where
    go : (o : Option ℤ) → AsksFor o (elim o [ none ↦ pos 1 | some n ↦ n ])
    go none = refl
    go (some n) = refl

AsksFor-wanted : (d : Deployment) (n : ℤ) → AsksFor d.spec_replicas n → n ≡ wanted_replicas d
AsksFor-wanted d n h = go d.spec_replicas h
  where
    go : (o : Option ℤ) → AsksFor o n → n ≡ elim o [ none ↦ pos 1 | some n ↦ n ]
    go none h = h
    go (some m) h = h

available-SaysAvailable : (c : Condition) → is_available c ≡ true → SaysAvailable c
available-SaysAvailable c h = (
  text_eq→eq c.kind (codes "Available") (ground arith),
  text_eq→eq c.status (codes "True") (ground arith),
)

SaysAvailable-available : (c : Condition) → SaysAvailable c → is_available c ≡ true
SaysAvailable-available c (k, s) =
    rw (k, s, text_eq_self (codes "Available"), text_eq_self (codes "True")) refl

any_available-Among : (cs : List Condition) → any_available cs ≡ true → Among SaysAvailable cs
unfolding any_available
any_available-Among [] h = cc
any_available-Among (c ∷ cs) h = elim (Bool-cases (is_available c)) [
  | inl e ↦ at_head (available-SaysAvailable c e)
  | inr e ↦ in_tail (any_available-Among cs (rw e at h))
]

Among-any_available : {cs : List Condition} → Among SaysAvailable cs → any_available cs ≡ true
unfolding any_available
Among-any_available (at_head {c = c} h) = rw (SaysAvailable-available c h) refl
Among-any_available (in_tail h) = ground (arith, Among-any_available h)

-- What a failure says: the progress deadline has passed, or replicas cannot be made.
abbrev pub SaysFailure : Condition → Type 0
SaysFailure c =
    ((c.kind ≡ codes "Progressing")
      × (c.status ≡ codes "False")
      × (c.reason ≡ codes "ProgressDeadlineExceeded"))
    ⊎ ((c.kind ≡ codes "ReplicaFailure") × (c.status ≡ codes "True"))

-- No condition of the list says so.
abbrev pub IsFreeOfFailure : List Condition → Type 0
IsFreeOfFailure [] = Unit
IsFreeOfFailure (c ∷ cs) = (¬ SaysFailure c) × IsFreeOfFailure cs

SaysFailure-failure : (c : Condition) → SaysFailure c → is_failure c ≡ true
SaysFailure-failure c (inl (k, s, r)) =
    rw
      (
        k,
        s,
        r,
        text_eq_self (codes "Progressing"),
        text_eq_self (codes "False"),
        text_eq_self (codes "ProgressDeadlineExceeded"),
      )
      refl
SaysFailure-failure c (inr (k, s)) =
    let stuck : is_replica_failure c ≡ true =
      rw (k, s, text_eq_self (codes "ReplicaFailure"), text_eq_self (codes "True")) refl in
    ground (arith, stuck)

pub NoneOf-IsFreeOfFailure : (cs : List Condition) → NoneOf is_failure cs → IsFreeOfFailure cs
NoneOf-IsFreeOfFailure [] h = tt
NoneOf-IsFreeOfFailure (c ∷ cs) (h, hs) =
    (λ f. absurd (differ h (SaysFailure-failure c f)), NoneOf-IsFreeOfFailure cs hs)
  where
    differ : {b : Bool} → b ≡ false → b ≡ true → ⊥
    differ h k = cc

-- `deploymentRolloutComplete` holds exactly of the complete rollouts.
pub deployment_rollout_complete_iff :
    (d : Deployment) → (deployment_rollout_complete d ≡ true) ↔ IsComplete d
unfolding deployment_rollout_complete
deployment_rollout_complete_iff d = (
  λ h.
      let (k, e) = leb_ℤ-difference d.generation d.observed_generation (ground arith) in
      record {
        available = any_available-Among d.conditions (ground arith);
        wanted = wanted_replicas d;
        asked = wanted-AsksFor d;
        newer = k;
        observed = e;
        updated = eq_ℤ→eq d.updated_replicas (wanted_replicas d) (ground arith);
        total = eq_ℤ→eq d.replicas (wanted_replicas d) (ground arith);
        ready = eq_ℤ→eq d.available_replicas (wanted_replicas d) (ground arith);
      },
  λ c.
      let n = AsksFor-wanted d c.wanted c.asked in
      rw
        (
          Among-any_available c.available,
          c.observed,
          leb_ℤ-sum d.generation c.newer,
          c.updated,
          c.total,
          c.ready,
          n,
          eq_ℤ_self (wanted_replicas d),
        )
        refl,
)
