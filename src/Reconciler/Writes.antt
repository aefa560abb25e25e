-- ===== src/Reconciler/Writes.antt =====
-- What the last call to change the objects of a kind wrote, and the rules for it.
use orchestration_service.Base.{
  ◌≡◌, refl, ◌∙◌, ap, Bool, Option, none, some, List, [], ◌∷◌, if◌then◌else◌,
}
use orchestration_service.Text.{Text}
use orchestration_service.Errors.{GoError}
use orchestration_service.Reconciler.Objects.{
  Kind, namespaces, secrets, deployments, services, ingresses, Resource, DeploymentObject,
  ServiceObject, IngressObject,
}
use orchestration_service.Reconciler.Api.{
  Cluster, M, Reply, Call, created, updated, deleted, ◌>>=◌, branch, check, fail_with, get_object,
  create_object, update_object, RetriesOnConflict,
}
use orchestration_service.Reconciler.Desired.{no_address}
use orchestration_service.Reconciler.Triples.{
  On, Triple, Triple-bind, Triple-pure, Triple-if, Triple-branch, Triple-weaken, retry-Triple,
  get-Triple, create-Triple, update-Triple,
}

-- An object without what the cluster gives it.
abbrev pub content : (kind : Kind) → Resource kind → Resource kind
content deployments o = record o { resource_version = [] }
content services o = record o { resource_version = []; address = no_address }
content ingresses o = record o { resource_version = [] }
content namespaces o = o
content secrets o = record o { resource_version = [] }

-- The object of an accepted write.
abbrev kept {ℓ} : {A : Type ℓ} → A → Option GoError → Option A
kept o none = some o
kept o (some e) = none

-- The content of the deployment that the last call to change deployments wrote, if that call was accepted.
unfoldable pub last_deployment : List Call → Option DeploymentObject
last_deployment [] = none
last_deployment (created deployments n o e ∷ log) = kept (content deployments o) e
last_deployment (updated deployments n o e ∷ log) = kept (content deployments o) e
last_deployment (deleted deployments n m e ∷ log) = none
last_deployment (_ ∷ log) = last_deployment log

unfoldable pub last_service : List Call → Option ServiceObject
last_service [] = none
last_service (created services n o e ∷ log) = kept (content services o) e
last_service (updated services n o e ∷ log) = kept (content services o) e
last_service (deleted services n m e ∷ log) = none
last_service (_ ∷ log) = last_service log

unfoldable pub last_ingress : List Call → Option IngressObject
last_ingress [] = none
last_ingress (created ingresses n o e ∷ log) = kept (content ingresses o) e
last_ingress (updated ingresses n o e ∷ log) = kept (content ingresses o) e
last_ingress (deleted ingresses n m e ∷ log) = none
last_ingress (_ ∷ log) = last_ingress log

abbrev pub Anything : On
Anything log = Unit

-- `P` holds of the log if there is no error.
abbrev pub Ends : On → Option GoError → On
Ends P e log = e ≡ none → P log

module _ {k : Cluster} (Q P : On) where
  pub fail_Ends : (e : GoError) → Triple {k = k} Q (fail_with e) (Ends P)
  fail_Ends e = Triple-pure Q (Ends P) (some e) λ log q p. cc

  pub check-Ends :
      (m : M k (Option GoError)) (handler : GoError → GoError) (next : M k (Option GoError))
      (R : On)
      → Triple Q m (Ends R)
      → Triple R next (Ends P)
      → Triple Q (check m (λ e. fail_with (handler e)) next) (Ends P)
  check-Ends m handler next R t n =
      Triple-bind Q (Ends R) (Ends P) m (branch (λ e. fail_with (handler e)) next) t λ e.
        Triple-branch (Ends R e) (Ends P) (λ e. fail_with (handler e)) next e
          (λ err p. Triple-pure (Ends R e) (Ends P) (some (handler err)) λ log q u. cc)
          λ p. Triple-weaken R (Ends R e) (Ends P) (Ends P) next (λ log r. r p) (λ a log u. u) n

-- `last` is what the last call to change objects of the kind wrote.
pub record Tracks (kind : Kind) (last : List Call → Option (Resource kind)) : Type 0 where
  pub at_create :
      (n : Text) (o : Resource kind) (e : Option GoError) (log : List Call)
      → last (created kind n o e ∷ log) ≡ kept (content kind o) e
  pub at_update :
      (n : Text) (o : Resource kind) (e : Option GoError) (log : List Call)
      → last (updated kind n o e ∷ log) ≡ kept (content kind o) e

pub last_deployment-Tracks : Tracks deployments last_deployment
unfolding last_deployment
last_deployment-Tracks = record { at_create = λ n o e log. refl; at_update = λ n o e log. refl }

pub last_service-Tracks : Tracks services last_service
unfolding last_service
last_service-Tracks = record { at_create = λ n o e log. refl; at_update = λ n o e log. refl }

pub last_ingress-Tracks : Tracks ingresses last_ingress
unfolding last_ingress
last_ingress-Tracks = record { at_create = λ n o e log. refl; at_update = λ n o e log. refl }

-- The last call to change objects of the kind wrote `o`, and was accepted.
abbrev pub Wrote : (kind : Kind) → (List Call → Option (Resource kind)) → Resource kind → On
Wrote kind last o log = last log ≡ some (content kind o)

module _ (k : Cluster) (kind : Kind) (last : List Call → Option (Resource kind))
    (tracks : Tracks kind last) (namespace : Text) (o : Resource kind) where
  pub create-Wrote :
      (n : Resource kind)
      → content kind n ≡ content kind o
      → Triple Anything (create_object k kind namespace n) (Ends (Wrote kind last o))
  create-Wrote n same =
      create-Triple k Anything kind namespace (Ends (Wrote kind last o)) n λ log e q p.
        tracks.at_create namespace n e log ∙ ap (kept (content kind n)) p ∙ ap some same

  pub update-Wrote :
      (n : Resource kind)
      → content kind n ≡ content kind o
      → Triple Anything (update_object k kind namespace n) (Ends (Wrote kind last o))
  update-Wrote n same =
      update-Triple k Anything kind namespace (Ends (Wrote kind last o)) n λ log e q p.
        tracks.at_update namespace n e log ∙ ap (kept (content kind n)) p ∙ ap some same

  -- A read, and what follows it.
  pub after_read :
      (name : Text) (f : Reply (Resource kind) → M k (Option GoError))
      → ((r : Reply (Resource kind)) → Triple Anything (f r) (Ends (Wrote kind last o)))
      → Triple Anything (get_object k kind namespace name >>= f) (Ends (Wrote kind last o))
  after_read name f t =
      Triple-bind Anything (λ _. Anything) (Ends (Wrote kind last o)) _ _
        (get-Triple k Anything kind namespace name (λ _. Anything) λ log r q. tt) t

  pub create_if_Wrote :
      (b : Bool) (e : GoError)
      → Triple Anything
          (if b then create_object k kind namespace o else fail_with e)
          (Ends (Wrote kind last o))
  create_if_Wrote b e =
      Triple-if Anything (Ends (Wrote kind last o)) b _ _ (λ _. create-Wrote o refl)
        λ _. fail_Ends Anything _ e

  pub retry-Wrote :
      (retry : M k (Option GoError) → M k (Option GoError)) (m : M k (Option GoError))
      → RetriesOnConflict k retry
      → Triple Anything m (Ends (Wrote kind last o))
      → Triple Anything (retry m) (Ends (Wrote kind last o))
  retry-Wrote retry m law t =
      retry-Triple retry Anything (Ends (Wrote kind last o)) m law (λ e log r. tt) t
