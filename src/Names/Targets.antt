-- ===== src/Names/Targets.antt =====
-- `targetForRequest`: the names of a target, and when there is one.
use orchestration_service.Base.{
  ℕ, ◌≡◌, refl, true, ap₂, Option, none, some, ◌∷◌, ◌++◌, ◌↔◌, arith, inl, inr, Option-cases, subst,
}
use orchestration_service.Text.{Text, codes, is_empty}
use orchestration_service.Config.{Config}
use orchestration_service.Names.{
  join_dash, truncate_dns_label, sanitize_dns_label, build_namespace_name, build_resource_name,
  clean_domain, build_ingress_host, DeployRequest, DeploymentTarget, target_at, target_of_slugs,
  target_for_request,
}
use orchestration_service.Names.Slug.{
  slug_from, IsSlug, IsLabel, truncate_dns_label-IsLabel, join_dash-IsSlug,
}
use orchestration_service.Names.Sanitize.{sanitize_dns_label-IsLabel, sanitize_dns_label_idem}

-- The fallbacks of the source are slugs.
pub fallbacks_are_slugs :
    IsSlug (codes "project")
    × IsSlug (codes "service")
    × IsSlug (codes "app")
    × IsSlug (codes "shiply-prj")
unfolding slug_from
fallbacks_are_slugs = (refl, refl, refl, refl)

module _ (table : ℕ → ℕ) where
  -- Two sanitized values, joined and truncated.
  joined-IsLabel :
      (a b f g : Text)
      → IsSlug f
      → IsSlug g
      → IsLabel (
          truncate_dns_label
            (join_dash (sanitize_dns_label table a f) (sanitize_dns_label table b g)))
  joined-IsLabel a b f g hf hg = truncate_dns_label-IsLabel _ (
      join_dash-IsSlug (sanitize_dns_label table a f) (sanitize_dns_label table b g)
        (sanitize_dns_label-IsLabel table a f hf).slug
        (sanitize_dns_label-IsLabel table b g hg).slug)

  pub build_namespace_name-IsLabel :
      (prefix slug : Text) → IsLabel (build_namespace_name table prefix slug)
  unfolding build_namespace_name
  build_namespace_name-IsLabel prefix slug =
      joined-IsLabel prefix slug _ _ fallbacks_are_slugs.3 fallbacks_are_slugs.0

  pub build_resource_name-IsLabel :
      (prefix slug : Text) → IsLabel (build_resource_name table prefix slug)
  unfolding build_resource_name
  build_resource_name-IsLabel prefix slug =
      joined-IsLabel prefix slug _ _ fallbacks_are_slugs.2 fallbacks_are_slugs.1

-- A host is a label in front of the platform domain.
abbrev pub IsHostOf : Text → Text → Type 0
IsHostOf domain host = (left : Text) × IsLabel left × (host ≡ left ++ b'.' ∷ domain)

pub record IsDeployable (domain : Text) (t : DeploymentTarget) : Type 0 where
  pub namespace : IsLabel t.namespace
  pub deployment : IsLabel t.deployment_name
  pub service : t.service_name ≡ t.deployment_name
  pub ingress : t.ingress_name ≡ t.deployment_name
  pub host : IsHostOf domain t.ingress_host

module _ (table : ℕ → ℕ) where
  pub build_ingress_host-IsHostOf :
      (service project base : Text) {host : Text}
      → build_ingress_host table service project base ≡ some host
      → IsHostOf (clean_domain table base) host
  unfolding build_ingress_host
  build_ingress_host-IsHostOf service project base h = (
    truncate_dns_label (
        join_dash (sanitize_dns_label table service (codes "service"))
          (sanitize_dns_label table project (codes "project"))),
    joined-IsLabel table service project _ _ fallbacks_are_slugs.1 fallbacks_are_slugs.0,
    ground arith,
  )

  pub build_ingress_host-none :
      (service project base : Text)
      → (build_ingress_host table service project base ≡ none)
        ↔ (is_empty (clean_domain table base) ≡ true)
  unfolding build_ingress_host
  build_ingress_host-none service project base = ground arith

  -- Every target that is computed names its namespace, deployment, service and ingress by DNS labels,
  -- the last three alike, and its host is a DNS label in front of the cleaned platform domain.
  pub target_for_request-IsDeployable :
      (cfg : Config) (request : DeployRequest) (t : DeploymentTarget)
      → target_for_request table cfg request ≡ some t
      → IsDeployable (clean_domain table cfg.base_domain) t
  unfolding target_for_request
  target_for_request-IsDeployable cfg request t h = elim (Option-cases built) [
    | inl missing ↦ ground arith
    | inr (host, found) ↦
        subst (IsDeployable (clean_domain table cfg.base_domain)) (ground arith)
          (deployable host found)
  ]
    where
      project_slug : Text
      project_slug = sanitize_dns_label table request.project_slug (codes "project")

      service_slug : Text
      service_slug = sanitize_dns_label table request.service_slug (codes "service")

      built : Option Text
      built = build_ingress_host table service_slug project_slug cfg.base_domain

      deployable :
          (host : Text)
          → built ≡ some host
          → IsDeployable
              (clean_domain table cfg.base_domain)
              (target_at table cfg request project_slug service_slug host)
      deployable host found = record {
        namespace = build_namespace_name-IsLabel table cfg.namespace_prefix project_slug;
        deployment = build_resource_name-IsLabel table (codes "app") service_slug;
        service = refl;
        ingress = refl;
        host = build_ingress_host-IsHostOf service_slug project_slug cfg.base_domain found;
      }

  -- There is no target exactly when nothing is left of the platform domain once it is cleaned.
  pub target_for_request-none :
      (cfg : Config) (request : DeployRequest)
      → (target_for_request table cfg request ≡ none)
        ↔ (is_empty (clean_domain table cfg.base_domain) ≡ true)
  unfolding target_for_request build_ingress_host
  target_for_request-none cfg request = ground arith

  -- Sanitizing the slugs of a request beforehand does not change its target.
  pub target_for_request-sanitized :
      (cfg : Config) (request : DeployRequest)
      → target_for_request table cfg (record request {
        project_slug = sanitize_dns_label table request.project_slug (codes "project");
        service_slug = sanitize_dns_label table request.service_slug (codes "service");
      })
        ≡ target_for_request table cfg request
  unfolding target_for_request
  target_for_request-sanitized cfg request =
      ap₂ (target_of_slugs table cfg request)
        (sanitize_dns_label_idem table request.project_slug (codes "project") (codes "project")
          fallbacks_are_slugs.0)
        (sanitize_dns_label_idem table request.service_slug (codes "service") (codes "service")
          fallbacks_are_slugs.1)
