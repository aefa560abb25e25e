-- ===== src/Reconciler/Triples.antt =====
-- Rules for pieces of the reconciler: what holds of the log before a run, and of its result and the log
-- after it.
use orchestration_service.Base.{
  ℕ, zero, suc, ◌≡◌, refl, sym, subst, Bool, true, false, Option, none, some, List, ◌∷◌,
  if◌then◌else◌,
}
use orchestration_service.Text.{Text}
use orchestration_service.Errors.{GoError}
use orchestration_service.Reconciler.Objects.{Kind, Resource}
use orchestration_service.Reconciler.Api.{
  Cluster, World, M, Reply, Call, read, created, updated, deleted, ◌>>=◌, pure, branch, get_object,
  create_object, update_object, delete_object, is_conflict, rerun, RetriesOnConflict,
}

abbrev pub On : Type 1
On = List Call → Type 0

-- Before `m` the log satisfies `Q`; after it the result and the log satisfy `R`.
pub record Triple {k : Cluster} {A : Type 0} (Q : On) (m : M k A) (R : A → On) : Type 0 where
  pub at : (w : World k) → Q w.log → R (m w).0 (m w).1.log

module _ {k : Cluster} where
  module _ {A B : Type 0} where
    pub Triple-bind :
        (Q : On) (R : A → On) (S : B → On) (m : M k A) (f : A → M k B)
        → Triple Q m R
        → ((a : A) → Triple (R a) (f a) S)
        → Triple Q (m >>= f) S
    Triple-bind Q R S m f t u = record { at = λ w q. (u (m w).0).at (m w).1 (t.at w q) }

  module _ {A : Type 0} (Q : On) (R : A → On) where
    pub Triple-pure : (a : A) → ((log : List Call) → Q log → R a log) → Triple {k = k} Q (pure a) R
    Triple-pure a h = record { at = λ w q. h w.log q }

    pub Triple-if :
        (b : Bool) (m n : M k A)
        → (b ≡ true → Triple Q m R)
        → (b ≡ false → Triple Q n R)
        → Triple Q (if b then m else n) R
    Triple-if true m n t u = t refl
    Triple-if false m n t u = u refl

    pub Triple-branch :
        (handler : GoError → M k A) (next : M k A) (e : Option GoError)
        → ((err : GoError) → e ≡ some err → Triple Q (handler err) R)
        → (e ≡ none → Triple Q next R)
        → Triple Q (branch handler next e) R
    Triple-branch handler next none h n = n refl
    Triple-branch handler next (some err) h n = h err refl

  pub Triple-weaken :
      {A : Type 0} (Q Q' : On) (R R' : A → On) (m : M k A)
      → ((log : List Call) → Q' log → Q log)
      → ((a : A) (log : List Call) → R a log → R' a log)
      → Triple Q m R
      → Triple Q' m R'
  Triple-weaken Q Q' R R' m before after t = record {
    at = λ w q. after (m w).0 (m w).1.log (t.at w (before w.log q));
  }

  abbrev tries : M k (Option GoError) → ℕ → Option GoError → Bool → M k (Option GoError)
  tries m n e conflicts = elim conflicts [ true ↦ rerun k n m | false ↦ pure e ]

  tries-Triple :
      (Q : On) (R : Option GoError → On) (m : M k (Option GoError))
      → ((e : Option GoError) (log : List Call) → R e log → Q log)
      → (n : ℕ) (e : Option GoError) (conflicts : Bool) → Triple Q (rerun k n m) R
      → Triple (R e) (tries m n e conflicts) R
  tries-Triple Q R m back n e true u =
      Triple-weaken Q (R e) R R (rerun k n m) (back e) (λ a log r. r) u
  tries-Triple Q R m back n e false u = Triple-pure (R e) R e (λ log r. r)

  rerun-Triple :
      (Q : On) (R : Option GoError → On) (m : M k (Option GoError))
      → ((e : Option GoError) (log : List Call) → R e log → Q log)
      → Triple Q m R
      → (n : ℕ) → Triple Q (rerun k n m) R
  unfolding rerun
  rerun-Triple Q R m back t zero = t
  rerun-Triple Q R m back t (suc n) =
      Triple-bind Q R R m (λ e. tries m n e (is_conflict k e)) t
        λ e. tries-Triple Q R m back n e (is_conflict k e) (rerun-Triple Q R m back t n)

  -- A retried piece, if what holds after a run lets the next one begin.
  pub retry-Triple :
      (retry : M k (Option GoError) → M k (Option GoError)) (Q : On) (R : Option GoError → On)
      (m : M k (Option GoError))
      → RetriesOnConflict k retry
      → ((e : Option GoError) (log : List Call) → R e log → Q log)
      → Triple Q m R
      → Triple Q (retry m) R
  retry-Triple retry Q R m law back t = record {
    at = λ w q.
        let (n, e) = law.at m w in
        subst (λ (r : Option GoError × World k). R r.0 r.1.log) (sym e)
          ((rerun-Triple Q R m back t n).at w q);
  }

module _ (k : Cluster) (Q : On) (kind : Kind) (namespace : Text) where
  pub get-Triple :
      (name : Text) (R : Reply (Resource kind) → On)
      → ((log : List Call) (reply : Reply (Resource kind))
          → Q log
          → R reply (read kind namespace name reply ∷ log))
      → Triple Q (get_object k kind namespace name) R
  unfolding get_object
  get-Triple name R h = record { at = λ w q. h w.log _ q }

  module _ (R : Option GoError → On) (object : Resource kind) where
    pub create-Triple :
        ((log : List Call) (e : Option GoError)
          → Q log
          → R e (created kind namespace object e ∷ log))
        → Triple Q (create_object k kind namespace object) R
    unfolding create_object
    create-Triple h = record { at = λ w q. h w.log _ q }

    pub update-Triple :
        ((log : List Call) (e : Option GoError)
          → Q log
          → R e (updated kind namespace object e ∷ log))
        → Triple Q (update_object k kind namespace object) R
    unfolding update_object
    update-Triple h = record { at = λ w q. h w.log _ q }

  pub delete-Triple :
      (R : Option GoError → On) (name : Text)
      → ((log : List Call) (e : Option GoError) → Q log → R e (deleted kind namespace name e ∷ log))
      → Triple Q (delete_object k kind namespace name) R
  unfolding delete_object
  delete-Triple R name h = record { at = λ w q. h w.log _ q }
