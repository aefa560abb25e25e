-- ===== src/Names.antt =====
-- names.go: DNS labels, the deploy request of an event, and the target that it addresses.
-- `table` is the Unicode lower-case table beyond ASCII (see `Text.lower_rune`).
pub mod Slug
pub mod Sanitize
pub mod Targets
pub mod Samples
mod Tests
use orchestration_service.Base.{
  ℕ, ◌≤◌, Bool, true, false, not, ◌&&◌, ◌||◌, Option, none, some, List, [], ◌∷◌, ◌++◌, leb, ◌==◌,
  if◌then◌else◌, length, take,
}
use orchestration_service.Base.Int.{ℤ, pos, leb_ℤ}
use orchestration_service.Text.{Text, codes, is_empty, trim, trim_space, to_lower}
use orchestration_service.Config.{Config, default_app_container_port}
use orchestration_service.Events.Types.{ServiceEvent, BuildSucceededPayload}

abbrev pub dash : ℕ
dash = b'-'

abbrev pub is_dash : ℕ → Bool
is_dash c = c == dash

abbrev pub is_dot : ℕ → Bool
is_dot c = c == b'.'

abbrev pub label_limit : ℕ
label_limit = 63

-- `isAlphaNum`, on a rune.
abbrev pub is_alnum : ℕ → Bool
is_alnum c = (leb b'a' c && leb c b'z') || (leb b'0' c && leb c b'9')

-- The loop of `sanitizeDNSLabel`: what it goes on to write, where `blank` is
-- `builder.Len() == 0`. Every rune that is written is one byte.
unfoldable pub dash_runs : Text → Bool → Bool → Text
dash_runs [] blank last_dash = []
dash_runs (r ∷ text) blank last_dash = elim (is_alnum r) [
  | true ↦ r ∷ dash_runs text false false
  | false ↦ elim (blank || last_dash) [
    | true ↦ dash_runs text blank last_dash
    | false ↦ dash ∷ dash_runs text false true
  ]
]

unfoldable pub truncate_dns_label : Text → Text
truncate_dns_label value =
    let value' = trim is_dash value in
    if leb (length value') label_limit then value' else trim is_dash (take label_limit value')

abbrev pub or_fallback : Text → Text → Text
or_fallback s fallback = if is_empty s then fallback else s

unfoldable pub sanitize_dns_label : (ℕ → ℕ) → Text → Text → Text
unfolding dash_runs truncate_dns_label
sanitize_dns_label table value fallback =
    let text = or_fallback (to_lower table (trim_space value)) fallback in
    let result = trim is_dash (dash_runs text true false) in
    truncate_dns_label (or_fallback result fallback)

unfoldable pub first_non_empty : List Text → Text
first_non_empty [] = []
first_non_empty (value ∷ values) =
    if not (is_empty (trim_space value)) then value else first_non_empty values

abbrev pub join_dash : Text → Text → Text
join_dash a b = a ++ dash ∷ b

unfoldable pub build_namespace_name : (ℕ → ℕ) → Text → Text → Text
build_namespace_name table prefix project_slug = truncate_dns_label (
    join_dash (sanitize_dns_label table prefix (codes "shiply-prj"))
      (sanitize_dns_label table project_slug (codes "project")))

unfoldable pub build_resource_name : (ℕ → ℕ) → Text → Text → Text
build_resource_name table prefix service_slug = truncate_dns_label (
    join_dash (sanitize_dns_label table prefix (codes "app"))
      (sanitize_dns_label table service_slug (codes "service")))

abbrev pub clean_domain : (ℕ → ℕ) → Text → Text
clean_domain table base_domain = trim is_dot (to_lower table (trim_space base_domain))

-- `none` is the error "missing PLATFORM_BASE_DOMAIN".
unfoldable pub build_ingress_host : (ℕ → ℕ) → Text → Text → Text → Option Text
build_ingress_host table service_slug project_slug base_domain =
    let left_label = truncate_dns_label (
      join_dash (sanitize_dns_label table service_slug (codes "service"))
        (sanitize_dns_label table project_slug (codes "project"))) in
    let domain = clean_domain table base_domain in
    if is_empty domain then none else some (left_label ++ b'.' ∷ domain)

pub record DeploymentTarget : Type 0 where
  pub namespace : Text
  pub deployment_name : Text
  pub service_name : Text
  pub ingress_name : Text
  pub ingress_host : Text
  pub container_port : ℤ
  pub tls_enabled : Bool

-- `corev1.EnvVar`, as far as the service reads it.
pub record EnvVar : Type 0 where
  pub name : Text
  pub value : Text

pub record DeployRequest : Type 0 where
  pub project_id : Text
  pub service_id : Text
  pub service_name : Text
  pub user_id : Text
  pub deployment_id : Text
  pub image_tag : Text
  pub commit_sha : Text
  pub environment : List EnvVar
  pub project_slug : Text
  pub service_slug : Text
  pub container_port : ℤ

unfoldable pub deploy_request_from_event :
    Config → ServiceEvent BuildSucceededPayload → DeployRequest
deploy_request_from_event cfg event = record {
  project_id = event.project_id;
  service_id = event.service_id;
  service_name = first_non_empty (event.service_name ∷ event.service_id ∷ []);
  user_id = event.user_id;
  deployment_id = event.deployment_id;
  image_tag = trim_space event.payload.image_tag;
  commit_sha = trim_space event.payload.commit_sha;
  environment = [];
  project_slug = first_non_empty (event.payload.project_slug ∷ event.project_id ∷ []);
  service_slug = first_non_empty (event.payload.service_slug ∷ event.service_id ∷ []);
  container_port =
      if leb_ℤ cfg.default_container_port (pos 0)
      then default_app_container_port
      else cfg.default_container_port;
}

-- The empty target, `DeploymentTarget{}`.
abbrev pub no_target : DeploymentTarget
no_target = record {
  namespace = [];
  deployment_name = [];
  service_name = [];
  ingress_name = [];
  ingress_host = [];
  container_port = pos 0;
  tls_enabled = false;
}

abbrev pub target_at : (ℕ → ℕ) → Config → DeployRequest → Text → Text → Text → DeploymentTarget
target_at table cfg request project_slug service_slug host = record {
  namespace = build_namespace_name table cfg.namespace_prefix project_slug;
  deployment_name = build_resource_name table (codes "app") service_slug;
  service_name = build_resource_name table (codes "app") service_slug;
  ingress_name = build_resource_name table (codes "app") service_slug;
  ingress_host = host;
  container_port = request.container_port;
  tls_enabled = not (is_empty cfg.tls_secret_name);
}

-- The rest of `targetForRequest`, once the slugs are sanitized.
unfoldable pub target_of_slugs :
    (ℕ → ℕ) → Config → DeployRequest → Text → Text → Option DeploymentTarget
target_of_slugs table cfg request project_slug service_slug =
    elim (build_ingress_host table service_slug project_slug cfg.base_domain) [
      | none ↦ none
      | some host ↦ some (target_at table cfg request project_slug service_slug host)
    ]

unfoldable pub target_for_request : (ℕ → ℕ) → Config → DeployRequest → Option DeploymentTarget
unfolding target_of_slugs
target_for_request table cfg request =
    target_of_slugs table cfg request
      (sanitize_dns_label table request.project_slug (codes "project"))
      (sanitize_dns_label table request.service_slug (codes "service"))

-- `labelsForRequest`: the labels of every object of a deployment, in the order written.
unfoldable pub labels_for_request : (ℕ → ℕ) → DeployRequest → List (Text × Text)
labels_for_request table request =
    (codes "shiply.io/managed-by", codes "orchestration-service")
    ∷ (codes "shiply.io/deployment-id", request.deployment_id)
    ∷ (codes "shiply.io/project-id", request.project_id)
    ∷ (
      codes "shiply.io/project-slug",
      sanitize_dns_label table request.project_slug (codes "project"),
    )
    ∷ (codes "shiply.io/service-id", request.service_id)
    ∷ (
      codes "shiply.io/service-slug",
      sanitize_dns_label table request.service_slug (codes "service"),
    )
    ∷ []
