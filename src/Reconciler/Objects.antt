-- ===== src/Reconciler/Objects.antt =====
-- The Kubernetes objects that reconciler.go reads and writes, with the fields that it sets or reads.
use orchestration_service.Base.{
  Bool, true, false, ◌&&◌, Option, none, some, List, [], ◌∷◌, length, ◌==◌, if◌then◌else◌,
}
use orchestration_service.Base.Int.{ℤ}
use orchestration_service.Text.{Text, text_eq}
use orchestration_service.Json.{Json}
use orchestration_service.Names.{EnvVar}

-- A Go map of texts: an association list with distinct keys.
abbrev pub Labels : Type 0
Labels = List (Text × Text)

unfoldable pub find_label : Text → Labels → Option Text
find_label k [] = none
find_label k ((j, v) ∷ m) = if text_eq j k then some v else find_label k m

abbrev or_blank : Option Text → Text
or_blank none = []
or_blank (some v) = v

-- `m[k]`: the empty text where there is no such key.
unfoldable pub label : Text → Labels → Text
unfolding find_label
label k m = or_blank (find_label k m)

abbrev holds : Text → Option Text → Bool
holds v none = false
holds v (some u) = text_eq u v

all_in : Labels → Labels → Bool
all_in [] m = true
all_in ((k, v) ∷ rest) m = holds v (find_label k m) && all_in rest m

-- `maps.Equal`.
unfoldable pub maps_equal : Labels → Labels → Bool
unfolding all_in
maps_equal a b = length a == length b && all_in a b

pub record NamespaceObject : Type 0 where
  pub name : Text
  pub labels : Labels

-- The data of a secret are the bytes of a JSON text, held as the value.
pub record SecretObject : Type 0 where
  pub name : Text
  pub namespace : Text
  pub labels : Labels
  pub resource_version : Text
  pub secret_type : Text
  pub entries : List (Text × Json)

-- `corev1.Probe` with a TCP socket.
pub record Probe : Type 0 where
  pub port : ℤ
  pub period_seconds : ℤ
  pub failure_threshold : ℤ
  pub initial_delay_seconds : ℤ

-- Quantities are held as the texts that they are parsed from.
pub record ResourceRequirements : Type 0 where
  pub cpu_request : Text
  pub memory_request : Text
  pub cpu_limit : Text
  pub memory_limit : Text

pub record Container : Type 0 where
  pub name : Text
  pub image : Text
  pub image_pull_policy : Text
  pub port_name : Text
  pub container_port : ℤ
  pub env : List EnvVar
  pub readiness_probe : Probe
  pub startup_probe : Probe
  pub resources : ResourceRequirements

pub record DeploymentObject : Type 0 where
  pub name : Text
  pub namespace : Text
  pub labels : Labels
  pub resource_version : Text
  pub replicas : ℤ
  pub selector : Option Labels
  pub strategy : Text
  pub max_unavailable : ℤ
  pub max_surge : ℤ
  pub progress_deadline_seconds : ℤ
  pub template_labels : Labels
  pub container : Container
  pub image_pull_secrets : List Text

-- What the cluster assigns to a service, which an update must keep.
pub record ServiceAddress : Type 0 where
  pub cluster_ip : Text
  pub cluster_ips : List Text
  pub ip_families : List Text
  pub ip_family_policy : Option Text
  pub internal_traffic_policy : Option Text

pub record ServiceObject : Type 0 where
  pub name : Text
  pub namespace : Text
  pub labels : Labels
  pub resource_version : Text
  pub service_type : Text
  pub selector : Labels
  pub port_name : Text
  pub port : ℤ
  pub protocol : Text
  pub target_port : ℤ
  pub address : ServiceAddress

-- An ingress of one rule with one path; `tls` has its hosts and its secret.
pub record IngressObject : Type 0 where
  pub name : Text
  pub namespace : Text
  pub labels : Labels
  pub resource_version : Text
  pub ingress_class_name : Option Text
  pub host : Text
  pub path : Text
  pub path_type : Text
  pub service_name : Text
  pub service_port : ℤ
  pub tls : List (List Text × Text)

pub data Kind : Type 0 where
  namespaces secrets deployments services ingresses : Kind

abbrev pub Resource : Kind → Type 0
Resource namespaces = NamespaceObject
Resource secrets = SecretObject
Resource deployments = DeploymentObject
Resource services = ServiceObject
Resource ingresses = IngressObject
