-- ===== src/Wiring/Process.antt =====
-- k8s_client.go, and the health endpoint of main.go.
use orchestration_service.Base.{ℕ, ◌≡◌, arith, not, ◌&&◌, ◌++◌, if◌then◌else◌, []}
use orchestration_service.Text.{Text, codes, text_eq, is_empty}
use orchestration_service.Errors.{GoError, wrapped, error_text}
use orchestration_service.Errors.Result.{Result, ok, err}
use orchestration_service.Config.{Config}

-- What client-go and the file system give: a configuration of the client with its limits, the
-- configuration in the cluster, the home directory, the configuration of a file, and the clientset.
pub record ClientLibrary : Type 1 where
  pub RestConfig : Type 0
  pub Clientset : Type 0
  -- The configuration with `QPS` and `Burst` set.
  pub limited : ℕ → ℕ → RestConfig → RestConfig
  pub in_cluster : Result RestConfig
  pub home_dir : Text
  pub join : Text → Text → Text → Text
  pub build_config : Text → Result RestConfig
  pub new_for_config : RestConfig → Result Clientset

-- `KubernetesClient`.
pub record KubernetesClient (l : ClientLibrary) : Type 0 where
  pub cfg : Config
  pub clientset : l.Clientset

module _ (l : ClientLibrary) where
  -- The path of the kubeconfig file.
  unfoldable pub kubeconfig : Config → Text
  kubeconfig cfg =
      if is_empty cfg.kubeconfig_path && not (is_empty l.home_dir)
      then l.join l.home_dir (codes ".kube") (codes "config")
      else cfg.kubeconfig_path

  unfoldable pub from_file : GoError → Result l.RestConfig → Result l.RestConfig
  from_file e (ok c) = ok (l.limited 50 100 c)
  from_file e (err e') = err (
      wrapped
        (codes "load kubernetes config: in-cluster=" ++ (error_text e ++ codes ", kubeconfig=")) e')

  unfoldable pub or_file : Config → Result l.RestConfig → Result l.RestConfig
  unfolding from_file kubeconfig
  or_file cfg (ok c) = ok (l.limited 50 100 c)
  or_file cfg (err e) = from_file e (l.build_config (kubeconfig cfg))

  unfoldable pub kube_rest_config : Config → Result l.RestConfig
  unfolding or_file
  kube_rest_config cfg = or_file cfg l.in_cluster

  unfoldable pub new_kubernetes_client_with_clientset : Config → l.Clientset → KubernetesClient l
  new_kubernetes_client_with_clientset cfg clientset = record { cfg = cfg; clientset = clientset }

  unfoldable pub with_clientset : Config → Result l.Clientset → Result (KubernetesClient l)
  with_clientset cfg (ok c) = ok (record { cfg = cfg; clientset = c })
  with_clientset cfg (err e) = err (wrapped (codes "create kubernetes clientset: ") e)

  unfoldable pub with_rest_config : Config → Result l.RestConfig → Result (KubernetesClient l)
  unfolding with_clientset
  with_rest_config cfg (ok c) = with_clientset cfg (l.new_for_config c)
  with_rest_config cfg (err e) = err e

  unfoldable pub new_kubernetes_client : Config → Result (KubernetesClient l)
  unfolding with_rest_config kube_rest_config
  new_kubernetes_client cfg = with_rest_config cfg (kube_rest_config cfg)

-- The answer of the HTTP server to a path: a status and a body.
unfoldable pub health : Text → ℕ × Text
health path = if text_eq path (codes "/healthz") then (200, codes "ok") else (404, [])

module _ (l : ClientLibrary) where
  -- It is some configuration with the limits of the service.
  abbrev IsLimited : l.RestConfig → Type 0
  IsLimited c = (base : l.RestConfig) × (c ≡ l.limited 50 100 base)

  from_file-IsLimited :
      (e : GoError) (r : Result l.RestConfig) (c : l.RestConfig)
      → from_file l e r ≡ ok c
      → IsLimited c
  unfolding from_file
  from_file-IsLimited e (ok c') c h = (c', ground arith)
  from_file-IsLimited e (err e') c h = cc

  or_file-IsLimited :
      (cfg : Config) (r : Result l.RestConfig) (c : l.RestConfig)
      → or_file l cfg r ≡ ok c
      → IsLimited c
  unfolding or_file
  or_file-IsLimited cfg (ok c') c h = (c', ground arith)
  or_file-IsLimited cfg (err e) c h = from_file-IsLimited e _ c h

  -- Wherever the configuration of the client comes from, it has the limits of 50 queries per second and
  -- bursts of 100.
  kube_rest_config-IsLimited :
      (cfg : Config) (c : l.RestConfig) → kube_rest_config l cfg ≡ ok c → IsLimited c
  unfolding kube_rest_config
  kube_rest_config-IsLimited cfg c h = or_file-IsLimited cfg l.in_cluster c h
