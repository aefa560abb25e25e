-- ===== src/Events/Stored.antt =====
-- `deployResultEvents` of consumer.go: what the ledger stores of a settled stage, written and read.
use orchestration_service.Base.{◌≡◌, refl, Option, none, some, [], ◌∷◌, if◌then◌else◌}
use orchestration_service.Text.{Text, codes}
use orchestration_service.Json.{
  Json, null, string, object, Fields, end, field, fields, matches_key, decode_text, raw, ◌>>=◌,
}

-- `deployResultEvents`: the two events of a settled stage, as they were published.
pub record DeployResultEvents : Type 0 where
  pub service_routing_key : Text
  pub service_event : Option Json
  pub progress_routing_key : Text
  pub progress_event : Option Json

unfoldable pub make_deploy_result_events : Text → Json → Text → Json → DeployResultEvents
make_deploy_result_events sk se pk pe = record {
  service_routing_key = sk;
  service_event = some se;
  progress_routing_key = pk;
  progress_event = some pe;
}

unfoldable pub result_json : DeployResultEvents → Json
result_json b = object (
    fields (
      (codes "serviceRoutingKey", string b.service_routing_key)
      ∷ (codes "serviceEvent", raw b.service_event)
      ∷ (codes "progressRoutingKey", string b.progress_routing_key)
      ∷ (codes "progressEvent", raw b.progress_event)
      ∷ []))

result_field : DeployResultEvents → Text → Json → Option DeployResultEvents
unfolding decode_text matches_key
result_field b key v =
    if matches_key key (codes "serviceRoutingKey")
    then (do t ← decode_text b.service_routing_key v; some (record b { service_routing_key = t }))
    else if matches_key key (codes "serviceEvent")
    then some (record b { service_event = some v })
    else if matches_key key (codes "progressRoutingKey")
    then (do t ← decode_text b.progress_routing_key v; some (record b { progress_routing_key = t }))
    else if matches_key key (codes "progressEvent")
    then some (record b { progress_event = some v })
    else some b

result_fields : DeployResultEvents → Fields → Option DeployResultEvents
result_fields b end = some b
result_fields b (field key v rest) = do c ← result_field b key v; result_fields c rest

abbrev zero_result : DeployResultEvents
zero_result = record {
  service_routing_key = [];
  service_event = none;
  progress_routing_key = [];
  progress_event = none;
}

-- `json.Unmarshal(raw, &b)`; a NULL column is no JSON.
unfoldable pub decode_result : Option Json → Option DeployResultEvents
unfolding result_field result_fields
decode_result none = none
decode_result (some null) = some zero_result
decode_result (some (object fs)) = result_fields zero_result fs
decode_result (some _) = none

-- A stored result is read back as it was written.
pub decode_result-result_json :
    (sk : Text) (se : Json) (pk : Text) (pe : Json)
    → decode_result (some (result_json (make_deploy_result_events sk se pk pe)))
      ≡ some (make_deploy_result_events sk se pk pe)
unfolding decode_result result_json make_deploy_result_events
decode_result-result_json sk se pk pe = refl
