-- ===== src/Consumer/Samples.antt =====
-- A consumer with a broker, a database and a cluster that always answer, and messages for it.
use orchestration_service.Base.{refl, ℕ, true, false, Option, none, some, [], ◌∷◌}
use orchestration_service.Base.Int.{pos}
use orchestration_service.Text.{codes}
use orchestration_service.Json.{Json, string, object, fields}
use orchestration_service.Errors.{GoError, plain, wrapped, rollout_timeout}
use orchestration_service.Config.Samples.{config}
use orchestration_service.Names.{DeploymentTarget, DeployRequest, deploy_request_from_event}
use orchestration_service.Ledger.{StageRecord, completed, in_progress, empty, write}
use orchestration_service.Events.Build.{orchestration_stage}
use orchestration_service.Events.Wire.{zero_event}
use orchestration_service.Events.Stored.{make_deploy_result_events, result_json}
use orchestration_service.Consumer.World.{Environment, Consumer, World, applied}
use orchestration_service.Consumer.Handler.{BuildEvent}
use orchestration_service.Consumer.Handler.Running.{Obliges}
use orchestration_service.Consumer.Delivery.{Delivery}

abbrev pub target : DeploymentTarget
target = record {
  namespace = codes "shiply-prj-shop";
  deployment_name = codes "app-web";
  service_name = codes "app-web";
  ingress_name = codes "app-web";
  ingress_host = codes "web-shop.apps.example.com";
  container_port = pos 3000;
  tls_enabled = false;
}

-- The target of an event without slugs.
abbrev pub aim : DeploymentTarget
aim = record target {
  namespace = codes "shiply-prj-project";
  deployment_name = codes "app-service";
  service_name = codes "app-service";
  ingress_name = codes "app-service";
  ingress_host = codes "service-project.apps.example.com";
}

abbrev pub timeout_error : GoError
timeout_error = rollout_timeout (codes "shiply-prj-shop") (codes "app-web")

-- Every call is answered, and the rollout ends as `r` says.
abbrev pub answering : Option GoError → Environment
answering r = record {
  publish_reply = λ n. none;
  ledger_reply = λ n. none;
  deploy_reply = λ n. applied target;
  rollout_reply = λ n. record { error = r; expired = false };
  background = λ n. [];
  now = λ n. pos n;
  stamp = λ n. codes "2024-05-01T00:00:00Z";
  lower_table = λ c. c;
  digest = λ t. t;
  decode_error = codes "unexpected end of JSON input";
}

abbrev pub consumer : Consumer
consumer = record {
  cfg = config;
  has_ledger = true;
  has_publisher = true;
  has_hook = false;
  has_channel = true;
  on_kubernetes = true;
}

abbrev pub body : Json
body = object (
    fields (
      (codes "deploymentId", string (codes "d1"))
      ∷ (codes "payload", object (fields ((codes "imageTag", string (codes "img:1")) ∷ [])))
      ∷ []))

abbrev pub event : BuildEvent
event = record zero_event { deployment_id = codes "d1" }

-- The event of `body`.
abbrev pub built : BuildEvent
built = record event { payload = record event.payload { image_tag = codes "img:1" } }

abbrev pub request : DeployRequest
request = deploy_request_from_event config event

abbrev pub message : Option Json → Delivery
message b = record { headers = []; body = b }

abbrev pub start : World
start = record { ledger = empty; tick = 0; log = [] }

abbrev pub bundle : Json
bundle = result_json (
    make_deploy_result_events (codes "deploy.succeeded") (string (codes "s"))
      (codes "deployment.orchestration.running") (string (codes "p")))

abbrev pub done : StageRecord
done = record {
  deployment_id = codes "d1";
  stage = orchestration_stage;
  state = completed;
  attempt = 1;
  lease_expires_at = none;
  result_json = some bundle;
}

abbrev pub held : StageRecord
held = record done { state = in_progress; lease_expires_at = some (pos 100); result_json = none }

abbrev pub with_row : StageRecord → World
with_row r = record start { ledger = write empty (codes "d1") orchestration_stage r }

abbrev pub causes : ℕ → GoError
causes n = plain (codes "refused")

abbrev pub undecodable : GoError
undecodable = wrapped (codes "decode deploy event: ") (plain (codes "unexpected end of JSON input"))

-- The environment `answering none` does what it is asked.
pub obliging : Obliges (answering none) consumer target
obliging = record {
  takes = record { publisher = refl; no_hook = refl; accepts = λ n. refl };
  ledgered = refl;
  stores = λ n. refl;
  deploys = λ n. refl;
  finishes = λ n. refl;
}
