-- ===== src/Events/Types.antt =====
-- events.go: the envelope of the service events and the payloads. `timestamp` is a JSON
-- value that is passed through unread, or absent.
use orchestration_service.Base.Int.{ℤ}
use orchestration_service.Base.{Option, List}
use orchestration_service.Json.{Json}
use orchestration_service.Text.{Text}

pub record ServiceEvent {ℓ} (T : Type ℓ) : Type ℓ where
  pub event_id : Text
  pub event_type : Text
  pub timestamp : Option Json
  pub deployment_id : Text
  pub project_id : Text
  pub service_id : Text
  pub service_name : Text
  pub user_id : Text
  pub payload : T

pub record BuildSucceededPayload : Type 0 where
  pub image_tag : Text
  pub commit_sha : Text
  pub builder : Text
  pub project_slug : Text
  pub service_slug : Text
  pub container_port : ℤ

pub record DeploySucceededPayload : Type 0 where
  pub image_tag : Text
  pub commit_sha : Text
  pub namespace : Text
  pub deployment_name : Text
  pub service_name : Text
  pub ingress_host : Text
  pub container_port : ℤ

pub record DeployFailedPayload : Type 0 where
  pub image_tag : Text
  pub commit_sha : Text
  pub namespace : Text
  pub deployment_name : Text
  pub ingress_host : Text
  pub container_port : ℤ
  pub error_message : Text

-- `Metadata` is a map; its entries stand in the order of the source, encoding/json sorts them.
pub record DeploymentEvent : Type 0 where
  pub event_id : Text
  pub deployment_id : Text
  pub project_id : Text
  pub service_name : Text
  pub event_type : Text
  pub status : Text
  pub timestamp : Text
  pub metadata : List (Text × Json)
