-- ===== src/Reconciler/Namespaces.antt =====
-- `ensureNamespace` and `checkNamespaceOwnership`.
use orchestration_service.Base.{Bool, not, ◌||◌, ◌++◌, Option, none, some, [], ◌∷◌, if◌then◌else◌}
use orchestration_service.Text.{Text, codes, text_eq}
use orchestration_service.Errors.{GoError, wrapped, ownership, not_found, already_exists}
use orchestration_service.Reconciler.Objects.{Labels, label, NamespaceObject, namespaces}
use orchestration_service.Reconciler.Api.{
  Cluster, M, Reply, found, failed, has_reason, ◌>>=◌, pure, fail_with, get_object, create_object,
}

abbrev pub managed_by : Text
managed_by = codes "shiply.io/managed-by"

abbrev pub project_id : Text
project_id = codes "shiply.io/project-id"

-- The two labels of a namespace name its owner.
abbrev pub owns : Labels → Labels → Bool
owns labels current = not (
    not (text_eq (label managed_by current) (label managed_by labels))
    || not (text_eq (label project_id current) (label project_id labels)))

unfoldable pub check_namespace_ownership : NamespaceObject → Text → Labels → Option GoError
check_namespace_ownership current namespace labels =
    if owns labels current.labels
    then none
    else some (
        ownership (
          codes "refusing to update namespace "
          ++ (namespace ++ codes ": ownership labels do not match request")))

abbrev pub new_namespace : Text → Labels → NamespaceObject
new_namespace namespace labels = record {
  name = namespace;
  labels = (managed_by, label managed_by labels) ∷ (project_id, label project_id labels) ∷ [];
}

-- `fmt.Errorf("<verb> namespace <name><rest>: %w", err)`.
abbrev pub about : Text → Text → Text → GoError → GoError
about verb namespace rest err =
    wrapped (verb ++ (codes " namespace " ++ (namespace ++ (rest ++ codes ": ")))) err

module _ (k : Cluster) where
  unfoldable pub after_race : Text → Labels → Reply NamespaceObject → M k (Option GoError)
  after_race namespace labels (found current) =
      pure (check_namespace_ownership current namespace labels)
  after_race namespace labels (failed e) =
      fail_with (about (codes "get") namespace (codes " after create race") e)

  unfoldable pub after_create : Text → Labels → Option GoError → M k (Option GoError)
  unfolding after_race
  after_create namespace labels none = pure none
  after_create namespace labels (some e) =
      if has_reason already_exists e
      then get_object k namespaces [] namespace >>= after_race namespace labels
      else fail_with (about (codes "create") namespace [] e)

  unfoldable pub after_get : Text → Labels → Reply NamespaceObject → M k (Option GoError)
  unfolding after_create
  after_get namespace labels (found current) =
      pure (check_namespace_ownership current namespace labels)
  after_get namespace labels (failed e) =
      if has_reason not_found e
      then create_object k namespaces [] (new_namespace namespace labels)
        >>= after_create namespace labels
      else fail_with (about (codes "get") namespace [] e)

  unfoldable pub ensure_namespace : Text → Labels → M k (Option GoError)
  unfolding after_get
  ensure_namespace namespace labels =
      get_object k namespaces [] namespace >>= after_get namespace labels
