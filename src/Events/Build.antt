-- ===== src/Events/Build.antt =====
-- The constructors of events.go. `digest` is hex(SHA-256(…)); `now` is the clock's time, as text.
use orchestration_service.Base.{◌++◌, some, List, [], ◌∷◌, take}
use orchestration_service.Base.Int.{ℤ}
use orchestration_service.Text.{Text, codes, decimal}
use orchestration_service.Json.{Json, bool, number, string}
use orchestration_service.Errors.{GoError, error_text}
use orchestration_service.Names.{DeploymentTarget}
use orchestration_service.Events.Types.{
  ServiceEvent, BuildSucceededPayload, DeploySucceededPayload, DeployFailedPayload, DeploymentEvent,
}

abbrev pub orchestration_stage : Text
orchestration_stage = codes "orchestration"

-- The statuses under which a deployment is announced. `retrying n` is the retry before attempt n + 1.
pub data Status : Type 0 where
  orchestrating deployed running deploy_failed rollout_pending : Status
  deploy_retrying : ℤ → Status

-- The `status` of an event's identity.
abbrev pub status_text : Status → Text
status_text orchestrating = codes "ORCHESTRATING"
status_text deployed = codes "DEPLOYED"
status_text running = codes "RUNNING"
status_text deploy_failed = codes "DEPLOY_FAILED"
status_text rollout_pending = codes "ROLLOUT_PENDING"
status_text (deploy_retrying attempt) = codes "DEPLOY_RETRYING" ++ codes ":" ++ decimal attempt

unfoldable pub event_seed : Text → Text → Text → Text
event_seed deployment_id stage status =
    deployment_id ++ (codes ":" ++ (stage ++ (codes ":" ++ status)))

unfoldable pub sanitize_failure_message : Text → Text
sanitize_failure_message message = take 2000 message

module _ (digest : Text → Text) (now : Text) where
  abbrev pub deployment_event_id : Text → Text → Text → Text
  deployment_event_id deployment_id stage status = digest (event_seed deployment_id stage status)

  abbrev id_of : ServiceEvent BuildSucceededPayload → Status → Text
  id_of request status =
      deployment_event_id request.deployment_id orchestration_stage (status_text status)

  abbrev progress :
      ServiceEvent BuildSucceededPayload
      → Status
      → Text
      → Text
      → List (Text × Json)
      → DeploymentEvent
  progress request status event_type shown metadata = record {
    event_id = id_of request status;
    deployment_id = request.deployment_id;
    project_id = request.project_id;
    service_name = request.service_name;
    event_type = event_type;
    status = shown;
    timestamp = now;
    metadata = metadata;
  }

  unfoldable pub new_orchestration_retrying_event :
      ServiceEvent BuildSucceededPayload → ℤ → GoError → DeploymentEvent
  new_orchestration_retrying_event request attempt err =
      progress request (deploy_retrying attempt) (codes "deployment.orchestration.retrying")
        (codes "DEPLOY_RETRYING")
        ((codes "serviceId", string request.service_id)
          ∷ (codes "attempt", number attempt)
          ∷ (codes "errorMessage", string (error_text err))
          ∷ [])

  unfoldable pub new_orchestration_rollout_pending_event :
      ServiceEvent BuildSucceededPayload → DeploymentTarget → GoError → DeploymentEvent
  new_orchestration_rollout_pending_event request target err =
      progress request rollout_pending (codes "deployment.orchestration.retrying")
        (codes "DEPLOY_RETRYING")
        ((codes "serviceId", string request.service_id)
          ∷ (codes "namespace", string target.namespace)
          ∷ (codes "deploymentName", string target.deployment_name)
          ∷ (codes "errorMessage", string (error_text err))
          ∷ [])

  unfoldable pub new_deploy_succeeded_event :
      ServiceEvent BuildSucceededPayload → DeploymentTarget → ServiceEvent DeploySucceededPayload
  new_deploy_succeeded_event request target = record {
    event_id = id_of request running;
    event_type = codes "deploy.succeeded";
    timestamp = some (string now);
    deployment_id = request.deployment_id;
    project_id = request.project_id;
    service_id = request.service_id;
    service_name = request.service_name;
    user_id = request.user_id;
    payload = record {
      image_tag = request.payload.image_tag;
      commit_sha = request.payload.commit_sha;
      namespace = target.namespace;
      deployment_name = target.deployment_name;
      service_name = target.service_name;
      ingress_host = target.ingress_host;
      container_port = target.container_port;
    };
  }

  unfoldable pub new_deploy_failed_event :
      ServiceEvent BuildSucceededPayload
      → DeploymentTarget
      → GoError
      → ServiceEvent DeployFailedPayload
  unfolding sanitize_failure_message
  new_deploy_failed_event request target err = record {
    event_id = id_of request deploy_failed;
    event_type = codes "deploy.failed";
    timestamp = some (string now);
    deployment_id = request.deployment_id;
    project_id = request.project_id;
    service_id = request.service_id;
    service_name = request.service_name;
    user_id = request.user_id;
    payload = record {
      image_tag = request.payload.image_tag;
      commit_sha = request.payload.commit_sha;
      namespace = target.namespace;
      deployment_name = target.deployment_name;
      ingress_host = target.ingress_host;
      container_port = target.container_port;
      error_message = sanitize_failure_message (error_text err);
    };
  }

  unfoldable pub new_orchestration_started_event :
      ServiceEvent BuildSucceededPayload → DeploymentEvent
  new_orchestration_started_event request =
      progress request orchestrating (codes "deployment.orchestration.started")
        (codes "ORCHESTRATING")
        ((codes "serviceId", string request.service_id)
          ∷ (codes "imageTag", string request.payload.image_tag)
          ∷ (codes "commitSha", string request.payload.commit_sha)
          ∷ (codes "projectSlug", string request.payload.project_slug)
          ∷ (codes "serviceSlug", string request.payload.service_slug)
          ∷ (codes "containerPort", number request.payload.container_port)
          ∷ [])

  -- The metadata that the events about an applied target share, in front of `more`.
  abbrev target_metadata :
      ServiceEvent BuildSucceededPayload
      → DeploymentTarget
      → List (Text × Json)
      → List (Text × Json)
  target_metadata request target more =
      (codes "serviceId", string request.service_id)
      ∷ (codes "imageTag", string request.payload.image_tag)
      ∷ (codes "commitSha", string request.payload.commit_sha)
      ∷ (codes "namespace", string target.namespace)
      ∷ (codes "deploymentName", string target.deployment_name)
      ∷ (codes "kubernetesServiceName", string target.service_name)
      ∷ (codes "ingressHost", string target.ingress_host)
      ∷ (codes "containerPort", number target.container_port)
      ∷ (codes "tlsEnabled", bool target.tls_enabled)
      ∷ more

  unfoldable pub new_orchestration_deployed_event :
      ServiceEvent BuildSucceededPayload → DeploymentTarget → DeploymentEvent
  new_orchestration_deployed_event request target =
      progress request deployed (codes "deployment.orchestration.deployed") (codes "DEPLOYED")
        (target_metadata request target [])

  unfoldable pub new_orchestration_running_event :
      ServiceEvent BuildSucceededPayload → DeploymentTarget → DeploymentEvent
  new_orchestration_running_event request target =
      progress request running (codes "deployment.orchestration.running") (codes "RUNNING")
        (target_metadata request target [])

  unfoldable pub new_orchestration_failed_event :
      ServiceEvent BuildSucceededPayload → DeploymentTarget → GoError → DeploymentEvent
  new_orchestration_failed_event request target err =
      progress request deploy_failed (codes "deployment.orchestration.failed")
        (codes "DEPLOY_FAILED")
        (target_metadata request target ((codes "errorMessage", string (error_text err)) ∷ []))
