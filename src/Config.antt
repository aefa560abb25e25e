-- ===== src/Config.antt =====
-- config.go: the settings record. Durations are int64 nanoseconds, held as integers.
pub mod Samples
pub mod Load
pub mod Ready
mod Tests
use orchestration_service.Base.{List}
use orchestration_service.Base.Int.{ℤ, pos}
use orchestration_service.Text.{Text}

abbrev pub default_app_container_port : ℤ
default_app_container_port = pos 3000

pub record RegistryConfig : Type 0 where
  pub host : Text
  pub username : Text
  pub password : Text

pub record ResourceDefaults : Type 0 where
  pub cpu_request : Text
  pub cpu_limit : Text
  pub memory_request : Text
  pub memory_limit : Text

pub record Config : Type 0 where
  pub http_port : Text
  pub rabbitmq_url : Text
  pub rabbitmq_exchange : Text
  pub deployment_exchange : Text
  pub app_deploy_queue : Text
  pub build_succeeded_routing_key : Text
  pub deploy_succeeded_routing_key : Text
  pub deploy_failed_routing_key : Text
  pub orchestration_started_routing_key : Text
  pub orchestration_deployed_routing_key : Text
  pub orchestration_running_routing_key : Text
  pub orchestration_failed_routing_key : Text
  pub orchestration_retrying_routing_key : Text
  pub database_url : Text
  pub ledger_schema : Text
  pub lease_duration : ℤ
  pub max_attempts : ℤ
  pub retry_backoffs : List ℤ
  pub retry_queue_prefix : Text
  pub dlq : Text
  pub kubeconfig_path : Text
  pub base_domain : Text
  pub ingress_class_name : Text
  pub namespace_prefix : Text
  pub default_replicas : ℤ
  pub default_container_port : ℤ
  pub rollout_timeout : ℤ
  pub rollout_poll_interval : ℤ
  pub image_pull_secret_name : Text
  pub tls_secret_name : Text
  pub deployment_progress_deadline : ℤ
  pub resource_defaults : ResourceDefaults
  pub registry : RegistryConfig
