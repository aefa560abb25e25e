-- ===== src/Reconciler/Registry.antt =====
-- `registryCredentialsConfigured`, `dockerConfigJSON` and `ensureRegistryPullSecret`.
use orchestration_service.Base.{
  ℕ, ◌+◌, ◌-◌, ◌*◌, ◌/◌, ◌%◌, Bool, true, false, ◌&&◌, ◌++◌, Option, none, some, List, [], ◌∷◌, ltb,
  if◌then◌else◌,
}
use orchestration_service.Text.{Text, codes, is_empty, trim_space, utf8}
use orchestration_service.Json.{Json, string, object, fields}
use orchestration_service.Errors.{GoError, plain, not_found}
use orchestration_service.Config.{Config, RegistryConfig}
use orchestration_service.Reconciler.Objects.{SecretObject, secrets}
use orchestration_service.Reconciler.Api.{
  Cluster, M, Reply, found, failed, has_reason, ◌>>=◌, pure, fail_with, get_object, create_object,
  update_object,
}
use orchestration_service.Reconciler.Desired.{Result, ok, err}

-- The digit of a base64 text for a number below 64.
abbrev pub base64_digit : ℕ → ℕ
base64_digit n =
    if ltb n 26
    then b'A' + n
    else if ltb n 52
    then b'a' + (n - 26)
    else if ltb n 62
    then b'0' + (n - 52)
    else if ltb n 63
    then b'+'
    else b'/'

-- `base64.StdEncoding.EncodeToString`.
unfoldable pub base64 : List ℕ → Text
base64 [] = []
base64 (a ∷ []) = base64_digit (a / 4) ∷ base64_digit (a % 4 * 16) ∷ b'=' ∷ b'=' ∷ []
base64 (a ∷ b ∷ []) =
    base64_digit (a / 4)
    ∷ base64_digit (a % 4 * 16 + b / 16)
    ∷ base64_digit (b % 16 * 4)
    ∷ b'='
    ∷ []
base64 (a ∷ b ∷ c ∷ rest) =
    base64_digit (a / 4)
    ∷ base64_digit (a % 4 * 16 + b / 16)
    ∷ base64_digit (b % 16 * 4 + c / 64)
    ∷ base64_digit (c % 64)
    ∷ base64 rest

unfoldable pub registry_credentials_configured : RegistryConfig → Result Bool
registry_credentials_configured cfg =
    let no_host = is_empty (trim_space cfg.host) in
    let no_username = is_empty (trim_space cfg.username) in
    if no_host && no_username && is_empty cfg.password
    then ok false
    else if no_host
    then err (plain (codes "missing CONTAINER_REGISTRY_HOST"))
    else if no_username
    then err (plain (codes "missing CONTAINER_REGISTRY_USERNAME"))
    else if is_empty cfg.password
    then err (plain (codes "missing CONTAINER_REGISTRY_PASSWORD"))
    else ok true

-- The payload; package encoding/json writes the keys of a map in order.
unfoldable pub docker_config_json : RegistryConfig → Json
unfolding base64
docker_config_json cfg = object (
    fields (
      (
        codes "auths",
        object (
            fields (
              (
                cfg.host,
                object (
                    fields (
                      (
                        codes "auth",
                        string (base64 (utf8 (cfg.username ++ (codes ":" ++ cfg.password)))),
                      )
                      ∷ (codes "password", string cfg.password)
                      ∷ (codes "username", string cfg.username)
                      ∷ [])),
              )
              ∷ [])),
      )
      ∷ []))

abbrev pub docker_config_type : Text
docker_config_type = codes "kubernetes.io/dockerconfigjson"

abbrev pub pull_entries : Json → List (Text × Json)
pull_entries payload = (codes ".dockerconfigjson", payload) ∷ []

abbrev pub new_secret : Text → Text → Json → SecretObject
new_secret namespace name payload = record {
  name = name;
  namespace = namespace;
  labels = [];
  resource_version = [];
  secret_type = docker_config_type;
  entries = pull_entries payload;
}

-- What `ensureRegistryPullSecret` returns: a text and an error.
abbrev pub Named : Type 0
Named = Text × Option GoError

module _ (k : Cluster) (retry : M k (Option GoError) → M k (Option GoError)) where
  abbrev pub named : Text → M k (Option GoError) → M k Named
  named name m = m >>= λ e. pure (name, e)

  unfoldable pub write_latest : Text → Json → Reply SecretObject → M k (Option GoError)
  write_latest namespace payload (failed e) = fail_with e
  write_latest namespace payload (found latest) =
      update_object k secrets namespace
        (record latest { secret_type = docker_config_type; entries = pull_entries payload })

  -- The function that is run again on a conflict.
  unfoldable pub update_secret : Text → Text → Json → M k (Option GoError)
  unfolding write_latest
  update_secret namespace name payload =
      get_object k secrets namespace name >>= write_latest namespace payload

  unfoldable pub write_secret : Text → Text → Json → Reply SecretObject → M k Named
  unfolding update_secret
  write_secret namespace name payload (found current) =
      named name (retry (update_secret namespace name payload))
  write_secret namespace name payload (failed e) =
      if has_reason not_found e
      then named name (create_object k secrets namespace (new_secret namespace name payload))
      else pure ([], some e)

  unfoldable pub with_credentials : Config → Text → Result Bool → M k Named
  unfolding write_secret
  with_credentials cfg namespace (err e) = pure ([], some e)
  with_credentials cfg namespace (ok false) = pure ([], none)
  with_credentials cfg namespace (ok true) =
      get_object k secrets namespace cfg.image_pull_secret_name
      >>= write_secret namespace cfg.image_pull_secret_name (docker_config_json cfg.registry)

  unfoldable pub ensure_registry_pull_secret : Config → Text → M k Named
  unfolding with_credentials
  ensure_registry_pull_secret cfg namespace =
      if is_empty cfg.image_pull_secret_name
      then pure ([], none)
      else with_credentials cfg namespace (registry_credentials_configured cfg.registry)
