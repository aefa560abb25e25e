-- ===== src/Reconciler/Api.antt =====
-- The Kubernetes API as `client-go` gives it: a state that is unknown, calls that answer anything, and a
-- log of the calls with their answers, newest first.
use orchestration_service.Base.{ℕ, zero, suc, ◌≡◌, Bool, true, false, Option, none, some, List, ◌∷◌}
use orchestration_service.Text.{Text}
use orchestration_service.Errors.{GoError, StatusReason, status, chain_any}
use orchestration_service.Errors.{not_found, already_exists, conflict, invalid}
use orchestration_service.Reconciler.Objects.{Kind, Resource}

pub data Reply {ℓ} (A : Type ℓ) : Type ℓ where
  found : A → Reply A
  failed : GoError → Reply A

-- Why the wait for a deletion stops: the context is done, with its error, or the timer of 60 seconds.
pub data Stop : Type 0 where
  context_done : GoError → Stop
  timed_out : Stop

-- What the `select` of the wait takes in each round. The timer makes every wait stop.
pub data Schedule : Type 0 where
  stop : Stop → Schedule
  tick : Schedule → Schedule

pub record Cluster : Type 1 where
  pub State : Type 0
  pub get : (k : Kind) → Text → Text → State → Reply (Resource k) × State
  pub create : (k : Kind) → Text → Resource k → State → Option GoError × State
  pub update : (k : Kind) → Text → Resource k → State → Option GoError × State
  pub delete : (k : Kind) → Text → Text → State → Option GoError × State
  pub schedule : State → Schedule

-- A call with the namespace that it is made in (empty for namespaces), and its answer.
pub data Call : Type 0 where
  read : (k : Kind) → Text → Text → Reply (Resource k) → Call
  created updated : (k : Kind) → Text → Resource k → Option GoError → Call
  deleted : (k : Kind) → Text → Text → Option GoError → Call

abbrev is_reason : StatusReason → GoError → Bool
is_reason not_found (status not_found t) = true
is_reason already_exists (status already_exists t) = true
is_reason conflict (status conflict t) = true
is_reason invalid (status invalid t) = true
is_reason _ _ = false

-- `apierrors.IsNotFound` and its kin.
unfoldable pub has_reason : StatusReason → GoError → Bool
has_reason r e = chain_any (is_reason r) e

module _ (k : Cluster) where
  open k use {State}

  pub record World : Type 0 where
    pub state : State
    pub log : List Call

  abbrev pub M : Type 0 → Type 0
  M A = World → A × World

infixl 5 ◌>>=◌
abbrev pub ◌>>=◌ : {k : Cluster} {A B : Type 0} → M k A → (A → M k B) → M k B
◌>>=◌ m f w = let (a, w') = m w in f a w'

module _ {k : Cluster} where
  abbrev pub pure : {A : Type 0} → A → M k A
  pure a w = (a, w)

  abbrev pub branch : {A : Type 0} → (GoError → M k A) → M k A → Option GoError → M k A
  branch handler next none = next
  branch handler next (some err) = handler err

  -- `if err := m; err != nil { handler }`, and on with `next`.
  abbrev pub check : {A : Type 0} → M k (Option GoError) → (GoError → M k A) → M k A → M k A
  check m handler next = m >>= branch handler next

  abbrev pub fail_with : GoError → M k (Option GoError)
  fail_with err = pure (some err)

module _ (k : Cluster) where
  unfoldable pub get_object : (kind : Kind) → Text → Text → M k (Reply (Resource kind))
  get_object kind namespace name w =
      let (reply, state) = k.get kind namespace name w.state in
      (reply, record { state = state; log = read kind namespace name reply ∷ w.log })

  unfoldable pub create_object : (kind : Kind) → Text → Resource kind → M k (Option GoError)
  create_object kind namespace object w =
      let (err, state) = k.create kind namespace object w.state in
      (err, record { state = state; log = created kind namespace object err ∷ w.log })

  unfoldable pub update_object : (kind : Kind) → Text → Resource kind → M k (Option GoError)
  update_object kind namespace object w =
      let (err, state) = k.update kind namespace object w.state in
      (err, record { state = state; log = updated kind namespace object err ∷ w.log })

  unfoldable pub delete_object : (kind : Kind) → Text → Text → M k (Option GoError)
  delete_object kind namespace name w =
      let (err, state) = k.delete kind namespace name w.state in
      (err, record { state = state; log = deleted kind namespace name err ∷ w.log })

  abbrev pub is_conflict : Option GoError → Bool
  is_conflict none = false
  is_conflict (some e) = has_reason conflict e

  -- `m`, and again at most `n` times while it ends in a conflict.
  unfoldable pub rerun : ℕ → M k (Option GoError) → M k (Option GoError)
  rerun zero m = m
  rerun (suc n) m =
      let next = rerun n m in m >>= λ err. elim (is_conflict err) [ true ↦ next | false ↦ pure err ]

  -- What `retry.RetryOnConflict` documents: it runs its function, and again while that ends in a conflict
  -- and tries are left; it returns the last error.
  pub record RetriesOnConflict (retry : M k (Option GoError) → M k (Option GoError)) : Type 0 where
    pub at : (m : M k (Option GoError)) (w : World k) → (n : ℕ) × (retry m w ≡ rerun n m w)
