-- ===== src/Events/Wire.antt =====
-- The events as JSON, by the struct tags of events.go, and the decoding of an incoming event by
-- encoding/json.
use orchestration_service.Base.{Option, none, some, [], ◌∷◌, if◌then◌else◌}
use orchestration_service.Base.Int.{pos}
use orchestration_service.Text.{Text, codes}
use orchestration_service.Json.{
  Json, null, number, string, object, Fields, end, field, fields, omit_empty, matches_key,
  decode_text, decode_int32, raw, ◌>>=◌,
}
use orchestration_service.Events.Types.{
  ServiceEvent, BuildSucceededPayload, DeploySucceededPayload, DeployFailedPayload, DeploymentEvent,
}

abbrev envelope {ℓ} : {T : Type ℓ} → (T → Json) → ServiceEvent T → Json
envelope payload_json e = object (
    field (codes "eventId") (string e.event_id) (
      field (codes "eventType") (string e.event_type) (
        field (codes "timestamp") (raw e.timestamp) (
          omit_empty (codes "deploymentId") e.deployment_id (
            field (codes "projectId") (string e.project_id) (
              field (codes "serviceId") (string e.service_id) (
                omit_empty (codes "serviceName") e.service_name (
                  field (codes "userId") (string e.user_id)
                    (field (codes "payload") (payload_json e.payload) end)))))))))

abbrev succeeded_payload_json : DeploySucceededPayload → Json
succeeded_payload_json p = object (
    field (codes "imageTag") (string p.image_tag) (
      omit_empty (codes "commitSha") p.commit_sha (
        fields (
          (codes "namespace", string p.namespace)
          ∷ (codes "deploymentName", string p.deployment_name)
          ∷ (codes "serviceName", string p.service_name)
          ∷ (codes "ingressHost", string p.ingress_host)
          ∷ (codes "containerPort", number p.container_port)
          ∷ []))))

abbrev failed_payload_json : DeployFailedPayload → Json
failed_payload_json p = object (
    omit_empty (codes "imageTag") p.image_tag (
      omit_empty (codes "commitSha") p.commit_sha (
        fields (
          (codes "namespace", string p.namespace)
          ∷ (codes "deploymentName", string p.deployment_name)
          ∷ (codes "ingressHost", string p.ingress_host)
          ∷ (codes "containerPort", number p.container_port)
          ∷ (codes "errorMessage", string p.error_message)
          ∷ []))))

unfoldable pub succeeded_json : ServiceEvent DeploySucceededPayload → Json
succeeded_json = envelope succeeded_payload_json

unfoldable pub failed_json : ServiceEvent DeployFailedPayload → Json
failed_json = envelope failed_payload_json

unfoldable pub progress_json : DeploymentEvent → Json
progress_json e = object (
    fields (
      (codes "eventId", string e.event_id)
      ∷ (codes "deploymentId", string e.deployment_id)
      ∷ (codes "projectId", string e.project_id)
      ∷ (codes "serviceName", string e.service_name)
      ∷ (codes "eventType", string e.event_type)
      ∷ (codes "status", string e.status)
      ∷ (codes "timestamp", string e.timestamp)
      ∷ (codes "metadata", object (fields e.metadata))
      ∷ []))

abbrev zero_payload : BuildSucceededPayload
zero_payload = record {
  image_tag = [];
  commit_sha = [];
  builder = [];
  project_slug = [];
  service_slug = [];
  container_port = pos 0;
}

abbrev pub zero_event : ServiceEvent BuildSucceededPayload
zero_event = record {
  event_id = [];
  event_type = [];
  timestamp = none;
  deployment_id = [];
  project_id = [];
  service_id = [];
  service_name = [];
  user_id = [];
  payload = zero_payload;
}

-- One key of the payload's object: it sets the field that it names, if it names one.
payload_field : BuildSucceededPayload → Text → Json → Option BuildSucceededPayload
unfolding decode_text decode_int32 matches_key
payload_field p key v =
    if matches_key key (codes "imageTag")
    then (do t ← decode_text p.image_tag v; some (record p { image_tag = t }))
    else if matches_key key (codes "commitSha")
    then (do t ← decode_text p.commit_sha v; some (record p { commit_sha = t }))
    else if matches_key key (codes "builder")
    then (do t ← decode_text p.builder v; some (record p { builder = t }))
    else if matches_key key (codes "projectSlug")
    then (do t ← decode_text p.project_slug v; some (record p { project_slug = t }))
    else if matches_key key (codes "serviceSlug")
    then (do t ← decode_text p.service_slug v; some (record p { service_slug = t }))
    else if matches_key key (codes "containerPort")
    then (do n ← decode_int32 p.container_port v; some (record p { container_port = n }))
    else some p

payload_fields : BuildSucceededPayload → Fields → Option BuildSucceededPayload
payload_fields p end = some p
payload_fields p (field key v rest) = do q ← payload_field p key v; payload_fields q rest

decode_payload : BuildSucceededPayload → Json → Option BuildSucceededPayload
unfolding payload_field payload_fields
decode_payload p null = some p
decode_payload p (object fs) = payload_fields p fs
decode_payload p _ = none

event_field :
    ServiceEvent BuildSucceededPayload → Text → Json → Option (ServiceEvent BuildSucceededPayload)
unfolding decode_text matches_key decode_payload
event_field e key v =
    if matches_key key (codes "eventId")
    then (do t ← decode_text e.event_id v; some (record e { event_id = t }))
    else if matches_key key (codes "eventType")
    then (do t ← decode_text e.event_type v; some (record e { event_type = t }))
    else if matches_key key (codes "timestamp")
    then some (record e { timestamp = some v })
    else if matches_key key (codes "deploymentId")
    then (do t ← decode_text e.deployment_id v; some (record e { deployment_id = t }))
    else if matches_key key (codes "projectId")
    then (do t ← decode_text e.project_id v; some (record e { project_id = t }))
    else if matches_key key (codes "serviceId")
    then (do t ← decode_text e.service_id v; some (record e { service_id = t }))
    else if matches_key key (codes "serviceName")
    then (do t ← decode_text e.service_name v; some (record e { service_name = t }))
    else if matches_key key (codes "userId")
    then (do t ← decode_text e.user_id v; some (record e { user_id = t }))
    else if matches_key key (codes "payload")
    then (do p ← decode_payload e.payload v; some (record e { payload = p }))
    else some e

event_fields :
    ServiceEvent BuildSucceededPayload → Fields → Option (ServiceEvent BuildSucceededPayload)
event_fields e end = some e
event_fields e (field key v rest) = do e' ← event_field e key v; event_fields e' rest

-- `json.Unmarshal(body, &event)`; the body `none` is no JSON.
unfoldable pub decode_event : Option Json → Option (ServiceEvent BuildSucceededPayload)
unfolding event_field event_fields
decode_event none = none
decode_event (some null) = some zero_event
decode_event (some (object fs)) = event_fields zero_event fs
decode_event (some _) = none
