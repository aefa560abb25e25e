-- ===== src/Names/Samples.antt =====
-- A request and its target, for tests.
use orchestration_service.Base.{ℕ, ◌≡◌, refl, false, some, []}
use orchestration_service.Config.Samples.{config}
use orchestration_service.Base.Int.{pos}
use orchestration_service.Text.{codes, trim, trim_space, to_lower}
use orchestration_service.Names.{
  DeployRequest, DeploymentTarget, build_ingress_host, build_namespace_name, build_resource_name,
  sanitize_dns_label, target_for_request,
}

abbrev pub no_table : ℕ → ℕ
no_table c = c

abbrev pub request : DeployRequest
request = record {
  project_id = codes "p1";
  service_id = codes "s1";
  service_name = codes "Web";
  user_id = codes "u1";
  deployment_id = codes "d1";
  image_tag = codes "img:1";
  commit_sha = codes "abc";
  environment = [];
  project_slug = codes " My__Shop! ";
  service_slug = codes "--";
  container_port = pos 3000;
}

abbrev pub shop : DeploymentTarget
shop = record {
  namespace = codes "shiply-prj-my-shop";
  deployment_name = codes "app-service";
  service_name = codes "app-service";
  ingress_name = codes "app-service";
  ingress_host = codes "service-my-shop.apps.example.com";
  container_port = pos 3000;
  tls_enabled = false;
}

pub target_for_request_run : target_for_request no_table config request ≡ some shop
unfolding target_for_request build_ingress_host build_namespace_name build_resource_name
    sanitize_dns_label trim trim_space to_lower
target_for_request_run = refl
