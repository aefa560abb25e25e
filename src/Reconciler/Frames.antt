-- ===== src/Reconciler/Frames.antt =====
-- Rules for what a piece of the reconciler keeps, by the kinds of calls that it makes.
use orchestration_service.Base.{Bool, Option, List, ◌∷◌, if◌then◌else◌}
use orchestration_service.Text.{Text}
use orchestration_service.Errors.{GoError}
use orchestration_service.Reconciler.Objects.{Kind, Resource}
use orchestration_service.Reconciler.Api.{
  Cluster, M, Reply, Call, read, created, updated, deleted, ◌>>=◌, pure, branch, check, get_object,
  create_object, update_object, delete_object, RetriesOnConflict,
}
use orchestration_service.Reconciler.Triples.{
  On, Triple, Triple-bind, Triple-pure, Triple-if, Triple-branch, retry-Triple, get-Triple,
  create-Triple, update-Triple, delete-Triple,
}

-- Calls of this kind in this namespace keep `Q`.
pub record Allows (Q : On) (kind : Kind) (namespace : Text) : Type 0 where
  pub reads :
      (log : List Call) (name : Text) (reply : Reply (Resource kind))
      → Q log
      → Q (read kind namespace name reply ∷ log)
  pub creates :
      (log : List Call) (object : Resource kind) (e : Option GoError)
      → Q log
      → Q (created kind namespace object e ∷ log)
  pub updates :
      (log : List Call) (object : Resource kind) (e : Option GoError)
      → Q log
      → Q (updated kind namespace object e ∷ log)
  pub deletes :
      (log : List Call) (name : Text) (e : Option GoError)
      → Q log
      → Q (deleted kind namespace name e ∷ log)

abbrev pub Keeps : {k : Cluster} {A : Type 0} → On → M k A → Type 0
Keeps Q m = Triple Q m (λ _. Q)

module _ (k : Cluster) (Q : On) where
  pub Keeps-bind :
      {A B : Type 0} (m : M k A) (f : A → M k B)
      → Keeps Q m
      → ((a : A) → Keeps Q (f a))
      → Keeps Q (m >>= f)
  Keeps-bind m f = Triple-bind Q (λ _. Q) (λ _. Q) m f

  pub Keeps-pure : {A : Type 0} (a : A) → Keeps {k = k} Q (pure a)
  Keeps-pure a = Triple-pure Q (λ _. Q) a (λ log q. q)

  pub Keeps-if :
      {A : Type 0} (b : Bool) (m n : M k A) → Keeps Q m → Keeps Q n → Keeps Q (if b then m else n)
  Keeps-if b m n t u = Triple-if Q (λ _. Q) b m n (λ _. t) (λ _. u)

  pub Keeps-check :
      {A : Type 0} (m : M k (Option GoError)) (handler : GoError → M k A) (next : M k A)
      → Keeps Q m
      → ((err : GoError) → Keeps Q (handler err))
      → Keeps Q next
      → Keeps Q (check m handler next)
  Keeps-check m handler next t h n =
      Keeps-bind m (branch handler next) t
        λ e. Triple-branch Q (λ _. Q) handler next e (λ err _. h err) (λ _. n)

  module _ (retry : M k (Option GoError) → M k (Option GoError))
      (law : RetriesOnConflict k retry) where
    pub Keeps-retry : (m : M k (Option GoError)) → Keeps Q m → Keeps Q (retry m)
    Keeps-retry m t = retry-Triple retry Q (λ _. Q) m law (λ e log q. q) t

  module _ (kind : Kind) (namespace : Text) (allows : Allows Q kind namespace) where
    pub get-Keeps : (name : Text) → Keeps Q (get_object k kind namespace name)
    get-Keeps name =
        get-Triple k Q kind namespace name (λ _. Q) (λ log r q. allows.reads log name r q)

    pub create-Keeps : (object : Resource kind) → Keeps Q (create_object k kind namespace object)
    create-Keeps object =
        create-Triple k Q kind namespace (λ _. Q) object (λ log e q. allows.creates log object e q)

    pub update-Keeps : (object : Resource kind) → Keeps Q (update_object k kind namespace object)
    update-Keeps object =
        update-Triple k Q kind namespace (λ _. Q) object (λ log e q. allows.updates log object e q)

    pub delete-Keeps : (name : Text) → Keeps Q (delete_object k kind namespace name)
    delete-Keeps name =
        delete-Triple k Q kind namespace (λ _. Q) name (λ log e q. allows.deletes log name e q)

pub ruleset frame_rules = (
  Keeps-bind, Keeps-pure, Keeps-if, Keeps-check, Keeps-retry, get-Keeps, create-Keeps, update-Keeps,
  delete-Keeps,
)
