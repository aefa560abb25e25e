-- ===== src/Consumer/Handler/Tests.antt =====
-- The handler on a cluster where the namespace is another's.
use orchestration_service.Base.{refl, ◌≡◌, Option, none, []}
use orchestration_service.Text.{Text, codes, text_eq}
use orchestration_service.Errors.{GoError, status, not_found}
use orchestration_service.Config.Samples.{config}
use orchestration_service.Names.{labels_for_request}
use orchestration_service.Names.Samples.{no_table, request, shop, target_for_request_run}
use orchestration_service.Reconciler.Objects.{Kind, namespaces, Resource, label, NamespaceObject}
use orchestration_service.Reconciler.Api.{Cluster, Reply, found, failed, stop, timed_out}
use orchestration_service.Reconciler.Deploy.{deploy}
use orchestration_service.Reconciler.Refusal.{refusal}
use orchestration_service.Consumer.World.{Environment, call_deploy}
use orchestration_service.Consumer.Samples.{answering, consumer, event, start}
use orchestration_service.Consumer.Handler.{complete_failure, deploy_and_wait}
use orchestration_service.Consumer.Handler.Foreign.{as_reply, deploy_and_wait-foreign}

-- A namespace with no labels.
abbrev unowned : NamespaceObject
unowned = record { name = codes "shiply-prj-my-shop"; labels = [] }

abbrev look : (kind : Kind) → Reply (Resource kind)
look namespaces = found unowned
look _ = failed (status not_found (codes "not found"))

abbrev occupied : Cluster
occupied = record {
  State = Unit;
  get = λ kind namespace name s. (look kind, s);
  create = λ kind namespace object s. (none, s);
  update = λ kind namespace object s. (none, s);
  delete = λ kind namespace name s. (none, s);
  schedule = λ s. stop timed_out;
}

abbrev valid : Text → Option GoError
valid t = none

-- The handler's call of `Deploy` is answered by the reconciler.
abbrev reconciled : Environment
reconciled = record (answering none) {
  deploy_reply = λ n.
      as_reply
        (deploy occupied (λ m. m) no_table valid config request
          (record { state = tt; log = [] })).0;
}

deploy_and_wait-foreign_example :
    deploy_and_wait reconciled consumer event request shop start
    ≡ complete_failure reconciled consumer event shop
        (refusal shop)
        (call_deploy reconciled request start).1
unfolding labels_for_request label text_eq
deploy_and_wait-foreign_example =
    deploy_and_wait-foreign reconciled consumer event request shop start occupied (λ m. m) valid
      (record { state = tt; log = [] }) unowned refl target_for_request_run refl refl
