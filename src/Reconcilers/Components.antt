-- ===== src/Reconcilers/Components.antt =====
-- The parts of an instance that pkg/reconcilers/authorino_reconciler.go reconciles: its deployment,
-- services, service account and leader election role.
use authorino_operator.Prelude.{ℤ, String, Option, none, some, List, [], ◌∷◌, concat, if◌then◌else◌}
use authorino_operator.Kube.{Deployment, Object, meta_of, named}
use authorino_operator.Api.{Authorino}
use authorino_operator.Resources.Rbac.{
  rbac_version, get_authorino_service_account, get_leader_election_rules,
}
use authorino_operator.Resources.Services.{new_auth_service, new_oidc_service, new_metrics_service}
use authorino_operator.Reconcilers.Args.{or_deprecated}
use authorino_operator.Reconcilers.Consts.{
  authorino_leader_election_role_name, default_auth_grpc_service_port,
  default_auth_http_service_port, default_oidc_service_port, default_metrics_service_port,
  status_deployment_not_ready, status_unable_to_build_deployment_object,
  status_unable_to_create_deployment, status_unable_to_create_leader_election_role,
  status_unable_to_create_service_account, status_unable_to_create_services,
  status_unable_to_get_deployment, status_unable_to_get_leader_election_role,
  status_unable_to_get_service_account, status_unable_to_get_services,
  status_unable_to_update_deployment, status_updated,
}
use authorino_operator.Reconcilers.Pod.{authorino_deployment, deployment_available}
use authorino_operator.Reconcilers.Action.{
  AuthorinoReconciler, Context, Err, GoError, M, controlled, errorf, lift, pure, unless,
  with_logger, ◌>>=◌,
}
use authorino_operator.Reconcilers.Status.{
  fail_with, status_not_ready, status_ready, update_status_conditions,
}
use authorino_operator.Reconcilers.Resource.{Crud, Reconciled, reconcile_resource}

-- `fmt.Errorf("… %s …, err: %v", …)`
abbrev pub failure : String → String → String → GoError → Err
failure before name after e =
    some (errorf (concat (before ∷ name ∷ after ∷ ", err: " ∷ e.text ∷ [])))

abbrev port_or : Option ℤ → ℤ → ℤ
port_or none default = default
port_or (some p) default = p

-- the type assertion `obj.(*k8sapps.Deployment)`
abbrev pub as_deployment : Option Object → Option Deployment
as_deployment (some (Object.deployment d)) = some d
as_deployment _ = none

-- the desired services, in the order in which they are reconciled
unfoldable pub desired_services : Authorino → List Object
desired_services authorino =
    let name = authorino.meta.name in
    let namespace = authorino.meta.namespace in
    let labels = authorino.meta.labels in
    let listener = authorino.spec.listener in
    let grpc_port =
      port_or (or_deprecated listener.ports.grpc listener.port) default_auth_grpc_service_port in
    let http_port = port_or listener.ports.http default_auth_http_service_port in
    Object.service (new_auth_service name namespace grpc_port http_port labels)
    ∷ Object.service (
        new_oidc_service name namespace
          (port_or authorino.spec.oidc_server.port default_oidc_service_port) labels)
    ∷ Object.service (
        new_metrics_service name namespace
          (port_or authorino.spec.metrics.port default_metrics_service_port) labels)
    ∷ []

-- the role of the leader election
unfoldable pub leader_election_role : Authorino → Object
leader_election_role authorino = Object.role (record {
  type_meta = record { api_version = rbac_version; kind = "Role" };
  meta = named authorino_leader_election_role_name authorino.meta.namespace none;
  rules = get_leader_election_rules;
})

module _ {W : Type 0} (r : AuthorinoReconciler W) (ctx : Context) where
  -- the result of a status update ends the reconciliation of the deployment
  unfoldable pub report_availability : Authorino → Option Deployment → M W Err
  report_availability authorino none = pure (some (errorf "failed to cast object to Deployment"))
  report_availability authorino (some deployment) =
      if deployment_available deployment
      then update_status_conditions r authorino status_ready
      else update_status_conditions r authorino
          (status_not_ready status_deployment_not_ready "Authorino Deployment resource not ready")

  unfoldable pub deployment_result : Object → Authorino → Reconciled → M W Err
  deployment_result desired authorino (Crud.read, obj, some e) =
      fail_with r authorino status_unable_to_get_deployment
        (failure "failed to get " authorino.meta.name " Deployment resource" e)
  deployment_result desired authorino (Crud.create, obj, some e) =
      fail_with r authorino status_unable_to_create_deployment
        (failure "failed to create " (meta_of desired).name " Deployment resource" e)
  deployment_result desired authorino (Crud.update, obj, some e) =
      fail_with r authorino status_unable_to_build_deployment_object
        (failure "failed to build " authorino.meta.name " Deployment resource for updating" e)
  deployment_result desired authorino (crud, obj, some e) =
      fail_with r authorino status_unable_to_update_deployment
        (failure "failed to reconcile " (meta_of desired).name " Deployment resource" e)
  deployment_result desired authorino (Crud.update, obj, none) =
      update_status_conditions r authorino
        (status_not_ready status_updated "Authorino Deployment resource updated")
  deployment_result desired authorino (crud, obj, none) =
      report_availability authorino (as_deployment obj)

  unfoldable pub reconcile_deployment : Object → Authorino → M W Err
  reconcile_deployment desired authorino = do
    result ← reconcile_resource r ctx desired
    deployment_result desired authorino result

  -- the error of `reconcileDeployment`, wrapped once more
  abbrev pub deployment_failure : Authorino → Err → Err
  deployment_failure authorino none = none
  deployment_failure authorino (some e) =
      failure "failed to reconcile " authorino.meta.name " Deployment resource" e

  abbrev pub reconcile_owned_deployment : Authorino → Err × Object → M W Err
  reconcile_owned_deployment authorino (some e, desired) =
      fail_with r authorino status_unable_to_build_deployment_object (
        failure "failed to set owner reference for Authorino Deployment: " authorino.meta.name "" e)
  reconcile_owned_deployment authorino (none, desired) = do
    err ← reconcile_deployment desired authorino
    pure (deployment_failure authorino err)

  unfoldable pub reconcile_authorino_deployment : Authorino → M W Err
  reconcile_authorino_deployment authorino = with_logger ctx do
    deployment ← lift (authorino_deployment r.process authorino)
    reconcile_owned_deployment authorino (controlled r authorino (Object.deployment deployment))

  unfoldable pub service_result : Object → Authorino → Reconciled → M W Err
  service_result desired authorino (Crud.read, obj, some e) =
      fail_with r authorino status_unable_to_get_services
        (failure "failed to get " (meta_of desired).name " service" e)
  service_result desired authorino (Crud.create, obj, some e) =
      fail_with r authorino status_unable_to_create_services
        (failure "failed to create " (meta_of desired).name " service" e)
  service_result desired authorino (Crud.update, obj, some e) =
      fail_with r authorino status_unable_to_get_services
        (failure "failed to update " (meta_of desired).name " service" e)
  service_result desired authorino (crud, obj, err) = pure none

  unfoldable pub reconcile_service : Object → Authorino → M W Err
  reconcile_service desired authorino =
      with_logger ctx
        do result ← reconcile_resource r ctx desired; service_result desired authorino result

  -- The error of `SetControllerReference` is dropped here.
  unfoldable pub reconcile_each_service : Authorino → List Object → M W Err
  reconcile_each_service authorino [] = pure none
  reconcile_each_service authorino (desired ∷ rest) = do
    err ← reconcile_service (controlled r authorino desired).1 authorino
    unless err (reconcile_each_service authorino rest)

  unfoldable pub reconcile_authorino_services : Authorino → M W Err
  reconcile_authorino_services authorino =
      reconcile_each_service authorino (desired_services authorino)

  unfoldable pub service_account_result : Object → Authorino → Reconciled → M W Err
  service_account_result sa authorino (crud, obj, none) = pure none
  service_account_result sa authorino (Crud.read, obj, some e) =
      fail_with r authorino status_unable_to_get_service_account
        (failure "failed to get " (meta_of sa).name " ServiceAccount" e)
  service_account_result sa authorino (crud, obj, some e) =
      fail_with r authorino status_unable_to_create_service_account
        (failure "failed to create " (meta_of sa).name " ServiceAccount" e)

  abbrev pub reconcile_owned_service_account : Authorino → Err × Object → M W Err
  reconcile_owned_service_account authorino (some e, sa) = pure (some e)
  reconcile_owned_service_account authorino (none, sa) = do
    result ← reconcile_resource r ctx sa
    service_account_result sa authorino result

  unfoldable pub reconcile_authorino_service_account : Authorino → M W Err
  reconcile_authorino_service_account authorino = with_logger ctx (
      reconcile_owned_service_account authorino (
        controlled r authorino (
          Object.service_account (
            get_authorino_service_account authorino.meta.namespace authorino.meta.name
              authorino.meta.labels))))

  unfoldable pub leader_election_role_result : Object → Authorino → Reconciled → M W Err
  leader_election_role_result desired authorino (Crud.read, obj, some e) =
      fail_with r authorino status_unable_to_get_leader_election_role
        (failure "failed to get " (meta_of desired).name " role" e)
  leader_election_role_result desired authorino (Crud.create, obj, some e) =
      fail_with r authorino status_unable_to_create_leader_election_role
        (failure "failed to create " (meta_of desired).name " role" e)
  leader_election_role_result desired authorino (crud, obj, err) = pure none

  abbrev pub reconcile_owned_role : Authorino → Err × Object → M W Err
  reconcile_owned_role authorino (some e, desired) = pure (some e)
  reconcile_owned_role authorino (none, desired) = do
    result ← reconcile_resource r ctx desired
    leader_election_role_result desired authorino result

  unfoldable pub reconcile_leader_election_role : Authorino → M W Err
  reconcile_leader_election_role authorino =
      with_logger ctx
        (reconcile_owned_role authorino (controlled r authorino (leader_election_role authorino)))
