-- ===== src/Reconciler/Desired.antt =====
-- The objects that `Deploy` asks for.
use orchestration_service.Base.{
  Bool, true, false, ◌||◌, ◌++◌, Option, none, some, List, [], ◌∷◌, if◌then◌else◌,
}
use orchestration_service.Base.Int.{ℤ, pos}
use orchestration_service.Text.{Text, codes, text_eq, is_empty, trim_space, decimal}
use orchestration_service.Errors.{GoError, wrapped}
pub use orchestration_service.Errors.Result.{Result, ok, err}
use orchestration_service.Config.{Config, ResourceDefaults}
use orchestration_service.Names.{DeploymentTarget, EnvVar, DeployRequest}
use orchestration_service.Reconciler.Objects.{
  Labels, label, ResourceRequirements, Probe, DeploymentObject, ServiceAddress, ServiceObject,
  IngressObject,
}

abbrev pub service_id_key : Text
service_id_key = codes "shiply.io/service-id"

abbrev pub is_reserved : Text → Bool
is_reserved name = text_eq name (codes "PORT") || text_eq name (codes "SERVER_PORT")

unfoldable pub is_seen : Text → List Text → Bool
is_seen name [] = false
is_seen name (s ∷ seen) = text_eq s name || is_seen name seen

-- The loop of `platformPortEnv`: what it appends, with the names that it has seen.
unfoldable pub user_env : List Text → List EnvVar → List EnvVar
unfolding is_seen
user_env seen [] = []
user_env seen (variable ∷ rest) = elim (is_reserved variable.name) [
  | true ↦ user_env seen rest
  | false ↦ elim (is_seen variable.name seen) [
    | true ↦ user_env seen rest
    | false ↦ variable ∷ user_env (variable.name ∷ seen) rest
  ]
]

abbrev pub port_vars : ℤ → List EnvVar
port_vars port =
    record { name = codes "PORT"; value = decimal port }
    ∷ record { name = codes "SERVER_PORT"; value = decimal port }
    ∷ []

unfoldable pub platform_port_env : DeployRequest → ℤ → List EnvVar
unfolding user_env
platform_port_env request port = user_env [] request.environment ++ port_vars port

-- `parse_quantity` is the error of `resource.ParseQuantity`.
module _ (parse_quantity : Text → Option GoError) where
  abbrev parsed {ℓ} : {A : Type ℓ} → Text → Option GoError → Result A → Result A
  parsed what none next = next
  parsed what (some e) next = err (wrapped what e)

  unfoldable pub build_resource_requirements : ResourceDefaults → Result ResourceRequirements
  build_resource_requirements defaults =
      parsed (codes "parse K8S_CPU_REQUEST: ") (parse_quantity defaults.cpu_request) (
        parsed (codes "parse K8S_CPU_LIMIT: ") (parse_quantity defaults.cpu_limit) (
          parsed (codes "parse K8S_MEMORY_REQUEST: ") (parse_quantity defaults.memory_request) (
            parsed (codes "parse K8S_MEMORY_LIMIT: ") (parse_quantity defaults.memory_limit) (
              ok (record {
                cpu_request = defaults.cpu_request;
                memory_request = defaults.memory_request;
                cpu_limit = defaults.cpu_limit;
                memory_limit = defaults.memory_limit;
              })))))

abbrev probe : ℤ → ℤ → Probe
probe port failures = record {
  port = port;
  period_seconds = pos 5;
  failure_threshold = failures;
  initial_delay_seconds = pos 0;
}

abbrev pull_secrets : Text → List Text
pull_secrets name = if is_empty name then [] else name ∷ []

-- The deployment that `ensureDeployment` asks for. The resource version is empty until an update sets it.
unfoldable pub desired_deployment :
    Config
    → DeployRequest
    → DeploymentTarget
    → Labels
    → Text
    → ResourceRequirements
    → DeploymentObject
unfolding platform_port_env
desired_deployment cfg request target labels pull_secret_name resources = record {
  name = target.deployment_name;
  namespace = target.namespace;
  labels = labels;
  resource_version = [];
  replicas = cfg.default_replicas;
  selector = some ((service_id_key, request.service_id) ∷ []);
  strategy = codes "RollingUpdate";
  max_unavailable = pos 0;
  max_surge = pos 1;
  progress_deadline_seconds = pos 1800;
  template_labels = labels;
  container = record {
    name = target.deployment_name;
    image = request.image_tag;
    image_pull_policy = codes "IfNotPresent";
    port_name = codes "http";
    container_port = target.container_port;
    env = platform_port_env request target.container_port;
    readiness_probe = probe target.container_port (pos 3);
    startup_probe = probe target.container_port (pos 60);
    resources = resources;
  };
  image_pull_secrets = pull_secrets pull_secret_name;
}

abbrev pub no_address : ServiceAddress
no_address = record {
  cluster_ip = [];
  cluster_ips = [];
  ip_families = [];
  ip_family_policy = none;
  internal_traffic_policy = none;
}

-- The service that `ensureService` asks for; the cluster gives it an address.
unfoldable pub desired_service : DeploymentTarget → Labels → ServiceObject
desired_service target labels = record {
  name = target.service_name;
  namespace = target.namespace;
  labels = labels;
  resource_version = [];
  service_type = codes "ClusterIP";
  selector = (service_id_key, label service_id_key labels) ∷ [];
  port_name = codes "http";
  port = pos 80;
  protocol = codes "TCP";
  target_port = target.container_port;
  address = no_address;
}

unfoldable pub string_ptr : Text → Option Text
string_ptr value = if is_empty (trim_space value) then none else some value

-- The ingress that `ensureIngress` asks for.
unfoldable pub desired_ingress : Config → DeploymentTarget → Labels → IngressObject
unfolding string_ptr
desired_ingress cfg target labels = record {
  name = target.ingress_name;
  namespace = target.namespace;
  labels = labels;
  resource_version = [];
  ingress_class_name = string_ptr cfg.ingress_class_name;
  host = target.ingress_host;
  path = codes "/";
  path_type = codes "Prefix";
  service_name = target.service_name;
  service_port = pos 80;
  tls =
      if is_empty cfg.tls_secret_name
      then []
      else (target.ingress_host ∷ [], cfg.tls_secret_name) ∷ [];
}
