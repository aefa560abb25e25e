-- ===== src/Reconciler/Ownership.antt =====
-- What `Deploy` has seen of the namespace when it writes to it.
use orchestration_service.Base.{
  ℕ, ◌≡◌, refl, arith, Bool, true, false, ◌&&◌, ◌||◌, Option, none, some, List, [], ◌∷◌,
  if◌then◌else◌, sym, subst,
}
use orchestration_service.Text.{Text, codes, text_eq}
use orchestration_service.Text.Equality.{text_eq_self}
use orchestration_service.Errors.{GoError, wrapped, not_found, already_exists}
use orchestration_service.Config.{Config}
use orchestration_service.Names.{
  DeploymentTarget, DeployRequest, target_for_request, labels_for_request,
}
use orchestration_service.Reconciler.Objects.{
  Kind, namespaces, secrets, Labels, NamespaceObject, label, find_label,
}
use orchestration_service.Reconciler.Api.{
  Cluster, World, M, Reply, found, failed, Call, read, created, updated, deleted, has_reason, ◌>>=◌,
  pure, branch, fail_with, RetriesOnConflict,
}
use orchestration_service.Reconciler.Registry.{Named, ensure_registry_pull_secret}
use orchestration_service.Reconciler.Namespaces.{
  owns, check_namespace_ownership, managed_by, project_id, new_namespace, after_race, after_create,
  after_get, ensure_namespace,
}
use orchestration_service.Reconciler.Deploy.{with_secret, deploy_to, with_target, deploy}
use orchestration_service.Reconciler.Triples.{
  On, Triple, Triple-bind, Triple-pure, Triple-if, Triple-weaken, get-Triple, create-Triple,
}
use orchestration_service.Reconciler.Frames.{Allows, Keeps, frame_rules, Keeps-bind}
use orchestration_service.Reconciler.Steps.{
  ensure_registry_pull_secret-Keeps, ensure_deployment-Keeps, ensure_service-Keeps,
  ensure_ingress-Keeps,
}

if_none : {A : Type 0} (b : Bool) (x : A) → (if b then none else some x) ≡ none → b ≡ true
if_none true x e = refl
if_none false x e = cc

-- A write of an object that stands in a namespace.
abbrev pub is_object_write : Call → Bool
is_object_write (read kind n m r) = false
is_object_write (created namespaces n o e) = false
is_object_write (created _ n o e) = true
is_object_write (updated namespaces n o e) = false
is_object_write (updated _ n o e) = true
is_object_write (deleted namespaces n m e) = false
is_object_write (deleted _ n m e) = true

abbrev pub place : Call → Text
place (read kind n m r) = n
place (created kind n o e) = n
place (updated kind n o e) = n
place (deleted kind n m e) = n

module _ (namespace : Text) (labels : Labels) where
  -- The call has shown that the namespace is the owner's: it was read with the two labels of the
  -- request, or created with them.
  abbrev pub shows_owner : Call → Bool
  shows_owner (read namespaces n name (found o)) = text_eq name namespace && owns labels o.labels
  shows_owner (created namespaces n o none) = text_eq o.name namespace && owns labels o.labels
  shows_owner _ = false

  abbrev pub verified : List Call → Bool
  verified [] = false
  verified (c ∷ log) = shows_owner c || verified log

  -- Every object that was written, deleted or tried so stands in the namespace, after a call that showed
  -- its owner.
  abbrev pub Guarded : List Call → Type 0
  Guarded [] = Unit
  Guarded (c ∷ log) =
      (is_object_write c ≡ true → (verified log ≡ true) × (place c ≡ namespace)) × Guarded log

  abbrev Safe : List Call → Type 0
  Safe log = (verified log ≡ true) × Guarded log

  Safe-step : (c : Call) (log : List Call) → place c ≡ namespace → Safe log → Safe (c ∷ log)
  Safe-step c log p (v, g) = (ground arith, ((λ w. (v, p)), g))

  Safe-Allows : (kind : Kind) → Allows Safe kind namespace
  Safe-Allows kind = record {
    reads = λ log name r s. Safe-step (read kind namespace name r) log refl s;
    creates = λ log o e s. Safe-step (created kind namespace o e) log refl s;
    updates = λ log o e s. Safe-step (updated kind namespace o e) log refl s;
    deletes = λ log name e s. Safe-step (deleted kind namespace name e) log refl s;
  }

  -- What `ensureNamespace` leaves: with no error, the owner is known.
  abbrev Checked : Option GoError → On
  Checked e log = (e ≡ none → verified log ≡ true) × Guarded log

  owns_self : owns labels (new_namespace namespace labels).labels ≡ true
  unfolding label find_label text_eq
  owns_self =
      ground (arith, text_eq_self (label managed_by labels), text_eq_self (label project_id labels))

  check_namespace_ownership-owns :
      (o : NamespaceObject)
      → check_namespace_ownership o namespace labels ≡ none
      → owns labels o.labels ≡ true
  unfolding check_namespace_ownership
  check_namespace_ownership-owns o = if_none (owns labels o.labels) _

  read_step :
      (log : List Call) (name : Text) (r : Reply NamespaceObject)
      → Guarded log
      → Guarded (read namespaces [] name r ∷ log)
  read_step log name r g = ((λ w. cc), g)

  abbrev is_owned : Reply NamespaceObject → Bool
  is_owned (found o) = owns labels o.labels
  is_owned (failed e) = false

  -- After a read of the namespace: the log, and the owner if it was found.
  abbrev Read : Reply NamespaceObject → On
  Read r log = (is_owned r ≡ true → verified log ≡ true) × Guarded log

  read_Read :
      (log : List Call) (r : Reply NamespaceObject)
      → Guarded log
      → Read r (read namespaces [] namespace r ∷ log)
  read_Read log (failed e) g = ((λ p. cc), ((λ w. cc), g))
  read_Read log (found o) g = ((λ p. ground (arith, text_eq_self namespace, p)), ((λ w. cc), g))

  create_Checked :
      (log : List Call) (e : Option GoError)
      → Guarded log
      → Checked e (created namespaces [] (new_namespace namespace labels) e ∷ log)
  create_Checked log none g =
      ((λ p. ground (arith, text_eq_self namespace, owns_self)), ((λ w. cc), g))
  create_Checked log (some e) g = ((λ p. cc), ((λ w. cc), g))

  module _ (k : Cluster) where
    fail_Checked :
        (Q : On) (e : GoError)
        → ((log : List Call) → Q log → Guarded log)
        → Triple {k = k} Q (fail_with e) Checked
    fail_Checked Q e h = Triple-pure Q Checked (some e) λ log q. ((λ p. cc), h log q)

    found_Checked :
        (o : NamespaceObject)
        → Triple {k = k}
            (Read (found o))
            (pure (check_namespace_ownership o namespace labels))
            Checked
    found_Checked o =
        Triple-pure (Read (found o)) Checked _
          λ log (seen, g). ((λ e. seen (check_namespace_ownership-owns o e)), g)

    after_race-Checked :
        (r : Reply NamespaceObject) → Triple (Read r) (after_race k namespace labels r) Checked
    unfolding after_race
    after_race-Checked (found o) = found_Checked o
    after_race-Checked (failed e) = fail_Checked (Read (failed e)) _ (λ log (seen, g). g)

    after_create-Checked :
        (e : Option GoError) → Triple (Checked e) (after_create k namespace labels e) Checked
    unfolding after_create
    after_create-Checked none = Triple-pure (Checked none) Checked none (λ log q. q)
    after_create-Checked (some e) =
        Triple-if (Checked (some e)) Checked (has_reason already_exists e) _ _
          (λ _.
            Triple-bind (Checked (some e)) Read Checked _ _
              (get-Triple k (Checked (some e)) namespaces [] namespace Read
                λ log r (seen, g). read_Read log r g)
              after_race-Checked)
          (λ _. fail_Checked (Checked (some e)) _ (λ log (seen, g). g))

    after_get-Checked :
        (r : Reply NamespaceObject) → Triple (Read r) (after_get k namespace labels r) Checked
    unfolding after_get
    after_get-Checked (found o) = found_Checked o
    after_get-Checked (failed e) =
        Triple-if (Read (failed e)) Checked (has_reason not_found e) _ _
          (λ _.
            Triple-bind (Read (failed e)) Checked Checked _ _
              (create-Triple k (Read (failed e)) namespaces [] Checked
                (new_namespace namespace labels) λ log err (seen, g). create_Checked log err g)
              after_create-Checked)
          (λ _. fail_Checked (Read (failed e)) _ (λ log (seen, g). g))

    pub ensure_namespace-Checked : Triple Guarded (ensure_namespace k namespace labels) Checked
    unfolding ensure_namespace
    ensure_namespace-Checked =
        Triple-bind Guarded Read Checked _ _
          (get-Triple k Guarded namespaces [] namespace Read read_Read) after_get-Checked

module _ (k : Cluster) (retry : M k (Option GoError) → M k (Option GoError))
    (law : RetriesOnConflict k retry) (table : ℕ → ℕ) (parse_quantity : Text → Option GoError)
    (cfg : Config) (request : DeployRequest) where
  module _ (target : DeploymentTarget) (labels : Labels) where
    with_secret-Safe :
        (n : Named)
        → Keeps
            (Safe target.namespace labels)
            (with_secret k retry table parse_quantity cfg request target labels n)
    unfolding with_secret
    with_secret-Safe (name, some e) = search frame_rules
    with_secret-Safe (name, none) =
        search
          (
            frame_rules, ensure_deployment-Keeps, ensure_service-Keeps, ensure_ingress-Keeps, law,
            Safe-Allows,
          )
          depth 10

    after_namespace-Guarded :
        (e : Option GoError)
        → Triple
            (Checked target.namespace labels e)
            (branch
              (λ err. fail_with (wrapped (codes "ensure namespace: ") err))
              (ensure_registry_pull_secret k retry cfg target.namespace
                >>= with_secret k retry table parse_quantity cfg request target labels)
              e)
            (λ _. Guarded target.namespace labels)
    after_namespace-Guarded (some err) =
        Triple-pure (Checked target.namespace labels (some err)) _ _ (λ log (seen, g). g)
    after_namespace-Guarded none =
        Triple-weaken (Safe target.namespace labels) _ (λ _. Safe target.namespace labels) _ _
          (λ log (seen, g). (seen refl, g)) (λ e log (seen, g). g)
          (Keeps-bind k (Safe target.namespace labels)
            (ensure_registry_pull_secret k retry cfg target.namespace)
            (with_secret k retry table parse_quantity cfg request target labels)
            (ensure_registry_pull_secret-Keeps k (Safe target.namespace labels) retry law table
              target.namespace (Safe-Allows target.namespace labels secrets) cfg)
            with_secret-Safe)

    deploy_to-Guarded :
        Triple
          (Guarded target.namespace labels)
          (deploy_to k retry table parse_quantity cfg request target labels)
          (λ _. Guarded target.namespace labels)
    unfolding deploy_to
    deploy_to-Guarded =
        Triple-bind (Guarded target.namespace labels) (Checked target.namespace labels)
          (λ _. Guarded target.namespace labels) _ _
          (ensure_namespace-Checked target.namespace labels k) after_namespace-Guarded

  -- A `Deploy` that starts with nothing logged, for a request with a target, creates, updates and deletes
  -- objects in no other namespace than the target's, and only after a call has shown that the labels of
  -- that namespace name the request's owner: it was read so, or created so. This holds whatever the API
  -- answers, for a retry that runs its function some number of times.
  pub deploy-Guarded :
      (target : DeploymentTarget) (w : World k)
      → target_for_request table cfg request ≡ some target
      → w.log ≡ []
      → Guarded target.namespace
          (labels_for_request table request)
          (deploy k retry table parse_quantity cfg request w).1.log
  unfolding deploy with_target
  deploy-Guarded target w has empty =
      let labels = labels_for_request table request in
      subst
        (λ t.
          Guarded target.namespace labels
            (with_target k retry table parse_quantity cfg request t w).1.log)
        (sym has)
        ((deploy_to-Guarded target labels).at w
          (subst (Guarded target.namespace labels) (sym empty) tt))
