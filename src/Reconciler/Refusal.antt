-- ===== src/Reconciler/Refusal.antt =====
-- A `Deploy` into a namespace of another owner.
use orchestration_service.Base.{
  ℕ, ◌≡◌, sym, subst, ap, ◌∙◌, false, Option, none, some, [], ◌∷◌, ◌++◌, if◌then◌else◌,
}
use orchestration_service.Text.{Text, codes}
use orchestration_service.Errors.{GoError, wrapped, ownership}
use orchestration_service.Config.{Config}
use orchestration_service.Names.{
  DeploymentTarget, DeployRequest, target_for_request, labels_for_request,
}
use orchestration_service.Reconciler.Objects.{namespaces, Labels, NamespaceObject}
use orchestration_service.Reconciler.Api.{
  Cluster, World, M, Reply, found, read, ◌>>=◌, branch, fail_with, get_object,
}
use orchestration_service.Reconciler.Namespaces.{
  owns, check_namespace_ownership, after_get, ensure_namespace,
}
use orchestration_service.Reconciler.Registry.{ensure_registry_pull_secret}
use orchestration_service.Reconciler.Deploy.{with_secret, deploy_to, with_target, deploy}

-- `ownershipError` for a namespace.
abbrev pub foreign : Text → GoError
foreign namespace = ownership (
    codes "refusing to update namespace "
    ++ (namespace ++ codes ": ownership labels do not match request"))

-- The error of a `Deploy` into a namespace of another owner.
abbrev pub refusal : DeploymentTarget → GoError
refusal target = wrapped (codes "ensure namespace: ") (foreign target.namespace)

module _ (k : Cluster) (namespace : Text) (labels : Labels) where
  check_namespace_ownership-foreign :
      (o : NamespaceObject)
      → owns labels o.labels ≡ false
      → check_namespace_ownership o namespace labels ≡ some (foreign namespace)
  unfolding check_namespace_ownership
  check_namespace_ownership-foreign o h = ap (λ b. if b then none else some (foreign namespace)) h

  -- The run stops behind the read, with the error.
  after_get-foreign :
      (o : NamespaceObject) (r : Reply NamespaceObject) (w : World k)
      → owns labels o.labels ≡ false
      → r ≡ found o
      → after_get k namespace labels r w ≡ (some (foreign namespace), w)
  unfolding after_get
  after_get-foreign o r w h e =
      subst (λ r. after_get k namespace labels r w ≡ (some (foreign namespace), w)) (sym e)
        (ap (λ x. (x, w)) (check_namespace_ownership-foreign o h))

  -- The world behind the read of the namespace.
  abbrev pub looked : World k → World k
  looked w = (get_object k namespaces [] namespace w).1

  ensure_namespace-foreign :
      (o : NamespaceObject) (w : World k)
      → owns labels o.labels ≡ false
      → (k.get namespaces [] namespace w.state).0 ≡ found o
      → ensure_namespace k namespace labels w ≡ (some (foreign namespace), looked w)
  unfolding ensure_namespace get_object
  ensure_namespace-foreign o w h e = after_get-foreign o _ (looked w) h e

module _ (k : Cluster) (retry : M k (Option GoError) → M k (Option GoError)) (table : ℕ → ℕ)
    (parse_quantity : Text → Option GoError) (cfg : Config) (request : DeployRequest) where
  deploy_to-foreign :
      (target : DeploymentTarget) (labels : Labels) (o : NamespaceObject) (w : World k)
      → owns labels o.labels ≡ false
      → (k.get namespaces [] target.namespace w.state).0 ≡ found o
      → deploy_to k retry table parse_quantity cfg request target labels w
        ≡ (some (refusal target), looked k target.namespace labels w)
  unfolding deploy_to
  deploy_to-foreign target labels o w h e =
      let rest =
        ensure_registry_pull_secret k retry cfg target.namespace
        >>= with_secret k retry table parse_quantity cfg request target labels in
      ap
        (λ (x : Option GoError × World k).
          branch (λ err. fail_with (wrapped (codes "ensure namespace: ") err)) rest x.0 x.1)
        (ensure_namespace-foreign k target.namespace labels o w h e)

  -- A `Deploy` for a request with a target, whose namespace is read and has other owner labels than the
  -- request, returns the target and an ownership error, and makes no other call than that read.
  pub deploy-foreign :
      (target : DeploymentTarget) (o : NamespaceObject) (w : World k)
      → target_for_request table cfg request ≡ some target
      → owns (labels_for_request table request) o.labels ≡ false
      → (k.get namespaces [] target.namespace w.state).0 ≡ found o
      → ((deploy k retry table parse_quantity cfg request w).0 ≡ (target, some (refusal target)))
        × ((deploy k retry table parse_quantity cfg request w).1.log
            ≡ read namespaces [] target.namespace (found o) ∷ w.log)
  unfolding deploy with_target get_object
  deploy-foreign target o w has h e =
      let labels = labels_for_request table request in
      let run = with_target k retry table parse_quantity cfg request in
      let to = deploy_to-foreign target labels o w h e in
      (
        subst (λ t. (run t w).0 ≡ (target, some (refusal target))) (sym has)
            (ap (λ (x : Option GoError × World k). (target, x.0)) to),
        subst (λ t. (run t w).1.log ≡ read namespaces [] target.namespace (found o) ∷ w.log)
            (sym has)
            (ap (λ (x : Option GoError × World k). x.1.log) to
              ∙ ap (λ r. read namespaces [] target.namespace r ∷ w.log) e),
      )
