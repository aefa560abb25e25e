-- ===== src/Reconciler/Outcome.antt =====
-- What the log of a `Deploy` without an error ends with.
use orchestration_service.Base.{ℕ, ◌≡◌, refl, sym, subst, Option, none, some, List}
use orchestration_service.Text.{Text, codes}
use orchestration_service.Errors.{GoError, wrapped}
use orchestration_service.Config.{Config}
use orchestration_service.Names.{
  DeploymentTarget, DeployRequest, labels_for_request, target_for_request,
}
use orchestration_service.Reconciler.Objects.{
  deployments, services, ingresses, Labels, ResourceRequirements, DeploymentObject, ServiceObject,
}
use orchestration_service.Reconciler.Api.{Cluster, World, M, Call, ◌>>=◌, pure, RetriesOnConflict}
use orchestration_service.Reconciler.Desired.{
  Result, ok, err, desired_deployment, desired_service, desired_ingress,
  build_resource_requirements,
}
use orchestration_service.Reconciler.Registry.{Named, ensure_registry_pull_secret}
use orchestration_service.Reconciler.Namespaces.{ensure_namespace}
use orchestration_service.Reconciler.Apply.{
  apply_deployment, with_resources, ensure_deployment, ensure_service, ensure_ingress,
}
use orchestration_service.Reconciler.Deploy.{with_secret, deploy_to, with_target, deploy}
use orchestration_service.Reconciler.Triples.{On, Triple, Triple-bind, Triple-pure, Triple-weaken}
use orchestration_service.Reconciler.Frames.{Allows, Keeps}
use orchestration_service.Reconciler.Steps.{ensure_service-Keeps, ensure_ingress-Keeps}
use orchestration_service.Reconciler.Writes.{
  Anything, Ends, Wrote, fail_Ends, check-Ends, last_deployment, last_service, last_ingress,
  last_deployment-Tracks, last_service-Tracks, last_ingress-Tracks, after_read,
}
use orchestration_service.Reconciler.Applied.{
  write_deployment-Wrote, write_service-Wrote, write_ingress-Wrote,
}
use orchestration_service.Reconciler.PullSecret.{
  used_secret, Names, ensure_registry_pull_secret-Names,
}

-- The log ends with the three objects of a request: the last call to change a deployment, a service and
-- an ingress was accepted, and wrote what is asked for.
pub record Applied (parse_quantity : Text → Option GoError) (cfg : Config) (request : DeployRequest)
    (target : DeploymentTarget) (labels : Labels) (log : List Call) : Type 0 where
  pub resources : ResourceRequirements
  pub parsed : build_resource_requirements parse_quantity cfg.resource_defaults ≡ ok resources
  pub deployment :
      last_deployment log
      ≡ some (desired_deployment cfg request target labels (used_secret cfg) resources)
  pub service : last_service log ≡ some (desired_service target labels)
  pub ingress : last_ingress log ≡ some (desired_ingress cfg target labels)

-- Calls of one kind do not change what was written of another.
services-Allows :
    (F : Option DeploymentObject → Type 0) (n : Text)
    → Allows (λ log. F (last_deployment log)) services n
unfolding last_deployment
services-Allows F n = record {
  reads = λ log name r p. p;
  creates = λ log o e p. p;
  updates = λ log o e p. p;
  deletes = λ log name e p. p;
}

ingresses-Allows :
    (F : Option DeploymentObject → Option ServiceObject → Type 0) (n : Text)
    → Allows (λ log. F (last_deployment log) (last_service log)) ingresses n
unfolding last_deployment last_service
ingresses-Allows F n = record {
  reads = λ log name r p. p;
  creates = λ log o e p. p;
  updates = λ log o e p. p;
  deletes = λ log name e p. p;
}

-- What a step keeps holds after it beside what it brings about.
keeps_and_ends :
    {k : Cluster} (Q P : On) (m : M k (Option GoError))
    → Keeps Q m
    → Triple Anything m (Ends P)
    → Triple Q m (Ends (λ log. Q log × P log))
keeps_and_ends Q P m t u = record { at = λ w q p. (t.at w q, u.at w tt p) }

module _ (k : Cluster) (retry : M k (Option GoError) → M k (Option GoError))
    (law : RetriesOnConflict k retry) (table : ℕ → ℕ) (parse_quantity : Text → Option GoError)
    (cfg : Config) where
  module _ (request : DeployRequest) (target : DeploymentTarget) (labels : Labels) where
    -- The deployment is the one that the request asks for, with resources that were parsed.
    abbrev Runs : Text → Option DeploymentObject → Type 0
    Runs secret d =
        (resources : ResourceRequirements) × ((build_resource_requirements parse_quantity
              cfg.resource_defaults
            ≡ ok resources)
          × (d ≡ some (desired_deployment cfg request target labels secret resources)))

    with_resources-Runs :
        (secret : Text) (r : Result ResourceRequirements)
        → build_resource_requirements parse_quantity cfg.resource_defaults ≡ r
        → Triple Anything
            (with_resources k retry table cfg request target labels secret r)
            (Ends (λ log. Runs secret (last_deployment log)))
    unfolding with_resources apply_deployment desired_deployment
    with_resources-Runs secret (err e) p = fail_Ends Anything _ e
    with_resources-Runs secret (ok r) p =
        let d = desired_deployment cfg request target labels secret r in
        Triple-weaken Anything Anything (Ends (Wrote deployments last_deployment d)) _ _
          (λ log q. q) (λ e log w q. (r, (p, w q)))
          (after_read k deployments last_deployment last_deployment-Tracks target.namespace d
            target.deployment_name _
            (write_deployment-Wrote k retry law table target.namespace d target.deployment_name))

    ensure_service-Wrote :
        Triple Anything
          (ensure_service k retry table target labels)
          (Ends (λ log. last_service log ≡ some (desired_service target labels)))
    unfolding ensure_service desired_service
    ensure_service-Wrote =
        let d = desired_service target labels in
        after_read k services last_service last_service-Tracks target.namespace d
          target.service_name _
          (write_service-Wrote k retry law table target.namespace d target.service_name)

    ensure_ingress-Wrote :
        Triple Anything
          (ensure_ingress k retry table cfg target labels)
          (Ends (λ log. last_ingress log ≡ some (desired_ingress cfg target labels)))
    unfolding ensure_ingress desired_ingress
    ensure_ingress-Wrote =
        let d = desired_ingress cfg target labels in
        after_read k ingresses last_ingress last_ingress-Tracks target.namespace d
          target.ingress_name _
          (write_ingress-Wrote k retry law table target.namespace d target.ingress_name)

    ensure_deployment-Runs :
        (secret : Text)
        → Triple Anything
            (ensure_deployment k retry table parse_quantity cfg request target labels secret)
            (Ends (λ log. Runs secret (last_deployment log)))
    unfolding ensure_deployment
    ensure_deployment-Runs secret = with_resources-Runs secret _ refl

    -- The three objects, as the log has them.
    abbrev Done : Text → On
    Done secret log =
        (Runs secret (last_deployment log)
          × (last_service log ≡ some (desired_service target labels)))
        × (last_ingress log ≡ some (desired_ingress cfg target labels))

    steps_Done :
        (secret : Text)
        → Triple Anything
            (with_secret k retry table parse_quantity cfg request target labels (secret, none))
            (Ends (Done secret))
    unfolding with_secret
    steps_Done secret =
        let R : On = λ log. Runs secret (last_deployment log) in
        let S : On = λ log. R log × (last_service log ≡ some (desired_service target labels)) in
        check-Ends Anything (Done secret)
          (ensure_deployment k retry table parse_quantity cfg request target labels secret)
          (wrapped (codes "ensure deployment: ")) _ R (ensure_deployment-Runs secret)
          (check-Ends R (Done secret) (ensure_service k retry table target labels)
            (wrapped (codes "ensure service: ")) _ S
            (keeps_and_ends R _ (ensure_service k retry table target labels)
              (ensure_service-Keeps k R retry law table target labels
                (services-Allows (Runs secret) target.namespace))
              ensure_service-Wrote)
            (check-Ends S (Done secret) (ensure_ingress k retry table cfg target labels)
              (wrapped (codes "ensure ingress: ")) (pure none) (Done secret)
              (keeps_and_ends S _ (ensure_ingress k retry table cfg target labels)
                (ensure_ingress-Keeps k S retry law table target cfg labels (
                  ingresses-Allows
                    (λ d s. Runs secret d × (s ≡ some (desired_service target labels)))
                    target.namespace))
                ensure_ingress-Wrote)
              (Triple-pure (Done secret) (Ends (Done secret)) none (λ log d p. d))))

    with_secret-Done :
        (n : Named)
        → Triple
            (Names k retry cfg (used_secret cfg) n)
            (with_secret k retry table parse_quantity cfg request target labels n)
            (Ends (Done (used_secret cfg)))
    unfolding with_secret
    with_secret-Done (name, none) = record {
      at = λ w same.
          subst
            (λ s.
              Ends (Done s)
                (with_secret k retry table parse_quantity cfg request target labels (name, none)
                  w).0
                (with_secret k retry table parse_quantity cfg request target labels (name, none)
                  w).1.log)
            (same refl) ((steps_Done name).at w tt);
    }
    with_secret-Done (name, some e) =
        fail_Ends (Names k retry cfg (used_secret cfg) (name, some e)) _ _

    deploy_to-Done :
        Triple Anything
          (deploy_to k retry table parse_quantity cfg request target labels)
          (Ends (Done (used_secret cfg)))
    unfolding deploy_to
    deploy_to-Done =
        check-Ends Anything (Done (used_secret cfg)) (ensure_namespace k target.namespace labels)
          (wrapped (codes "ensure namespace: "))
          (ensure_registry_pull_secret k retry cfg target.namespace
            >>= with_secret k retry table parse_quantity cfg request target labels)
          Anything (record { at = λ w q p. tt })
          (Triple-bind Anything (Names k retry cfg (used_secret cfg))
            (Ends (Done (used_secret cfg))) _ _
            (ensure_registry_pull_secret-Names k retry cfg target.namespace) with_secret-Done)

  -- If `Deploy` returns no error for a request with a target, the last call to change a deployment, the
  -- last one to change a service and the last one to change an ingress were accepted, and wrote what the
  -- request asks for, up to the resource version and the service's addresses: the quantities were parsed,
  -- and the pods are given the pull secret of the configuration where it comes with credentials. This holds
  -- whatever the API answers, for a retry that runs its function some number of times.
  pub deploy-Applied :
      (request : DeployRequest) (target : DeploymentTarget) (w : World k)
      → target_for_request table cfg request ≡ some target
      → (deploy k retry table parse_quantity cfg request w).0.1 ≡ none
      → Applied parse_quantity cfg request target
          (labels_for_request table request)
          (deploy k retry table parse_quantity cfg request w).1.log
  unfolding deploy with_target
  deploy-Applied request target w has fine =
      let labels = labels_for_request table request in
      let run = with_target k retry table parse_quantity cfg request in
      let (((resources, (p, d)), s), i) =
        subst
          (λ t. (run t w).0.1 ≡ none → Done request target labels (used_secret cfg) (run t w).1.log)
          (sym has) ((deploy_to-Done request target labels).at w tt) fine in
      record { resources = resources; parsed = p; deployment = d; service = s; ingress = i }
