-- ===== src/Reconcilers/Permissions.antt =====
-- The permissions of an instance (pkg/reconcilers/authorino_reconciler.go): role bindings, the check
-- of the cluster roles that they refer to, and the removal of bindings under their old names.
pub mod Cleanup
pub mod Legacy
pub mod Apart
use authorino_operator.Prelude.{String, none, some, [], ◌∷◌, concat, if◌then◌else◌}
use authorino_operator.Kube.{Kind, Object, ObjectKey, ServiceAccount, meta_of}
use authorino_operator.Api.{Authorino}
use authorino_operator.Resources.Rbac.{
  get_authorino_service_account, get_authorino_cluster_role_binding, get_authorino_role_binding,
}
use authorino_operator.Reconcilers.Consts.{
  authorino_manager_cluster_role_name, authorino_k8s_auth_cluster_role_name,
  authorino_leader_election_role_name, authorino_manager_cluster_role_binding_name,
  authorino_k8s_auth_cluster_role_binding_name, authorino_leader_election_role_binding_name,
  status_cluster_role_not_found, status_unable_to_get_cluster_role,
  status_unable_to_create_binding_for_cluster_role, status_unable_to_get_binding_for_cluster_role,
}
use authorino_operator.Reconcilers.Action.{
  Answer, found, failed, AuthorinoReconciler, Call, Context, Err, M, controlled, errorf, perform,
  pure, unless, with_logger, ◌>>=◌, ◌>>◌,
}
use authorino_operator.Reconcilers.Status.{fail_with}
use authorino_operator.Reconcilers.Resource.{Crud, reconcile_resource, tag_object_to_delete}
use authorino_operator.Reconcilers.Components.{failure, reconcile_leader_election_role}
use authorino_operator.Reconcilers.Permissions.Cleanup.{cleanup_legacy_cluster_role_bindings}

abbrev pub cluster_role_key : String → ObjectKey
cluster_role_key name = record { namespace = ""; name = name }

abbrev pub service_account_of : Authorino → ServiceAccount
service_account_of authorino =
    get_authorino_service_account authorino.meta.namespace authorino.meta.name authorino.meta.labels

module _ {W : Type 0} (r : AuthorinoReconciler W) (ctx : Context) where
  -- `%s` of an object key is the namespace, "/" and the name.
  unfoldable pub cluster_role_answer : Authorino → ObjectKey → Answer Object → M W Err
  cluster_role_answer authorino key (found obj) = pure none
  cluster_role_answer authorino key (failed e) =
      let key_text = concat (key.namespace ∷ "/" ∷ key.name ∷ []) in
      if e.not_found
      then fail_with r authorino status_cluster_role_not_found (
          some (
            errorf
              (concat ("failed to find authorino ClusterRole " ∷ key_text ∷ ": " ∷ e.text ∷ []))))
      else fail_with r authorino status_unable_to_get_cluster_role (
          some (
            errorf
              (concat ("failed to get authorino ClusterRole " ∷ key_text ∷ ": " ∷ e.text ∷ []))))

  unfoldable pub check_cluster_role_exists : ObjectKey → Authorino → M W Err
  check_cluster_role_exists key authorino = with_logger ctx do
    answer ← perform (Call.get Kind.cluster_role key) (r.get Kind.cluster_role key)
    cluster_role_answer authorino key answer

  unfoldable pub cluster_role_status : Authorino → Crud → String → Err → M W Err
  cluster_role_status authorino Crud.read name (some e) =
      fail_with r authorino status_unable_to_get_binding_for_cluster_role
        (failure "failed to get " name " binding for authorino ClusterRole" e)
  cluster_role_status authorino Crud.create name (some e) =
      fail_with r authorino status_unable_to_create_binding_for_cluster_role
        (failure "failed to create " name " binding for authorino ClusterRole" e)
  cluster_role_status authorino Crud.update name (some e) =
      fail_with r authorino status_unable_to_create_binding_for_cluster_role
        (failure "failed to update " name " binding for authorino ClusterRole" e)
  cluster_role_status authorino crud name err = pure none

  -- the part that `reconcileRoleBinding` and `reconcileClusterRoleBinding` share
  unfoldable pub reconcile_binding : Object → Authorino → M W Err
  reconcile_binding desired authorino = do
    result ← reconcile_resource r ctx desired
    cluster_role_status authorino result.0 (meta_of desired).name result.2

  abbrev pub reconcile_owned_binding : Authorino → Err × Object → M W Err
  reconcile_owned_binding authorino (some e, desired) = pure (some e)
  reconcile_owned_binding authorino (none, desired) = reconcile_binding desired authorino

  unfoldable pub reconcile_role_binding : Object → Authorino → M W Err
  reconcile_role_binding desired authorino =
      with_logger ctx (reconcile_owned_binding authorino (controlled r authorino desired))

  unfoldable pub reconcile_cluster_role_binding : Object → Authorino → M W Err
  reconcile_cluster_role_binding desired authorino =
      with_logger ctx (reconcile_binding desired authorino)

  -- the binding of the instance's service account to a cluster role, cluster-wide
  unfoldable pub cluster_role_binding_of : Authorino → String → String → Object
  cluster_role_binding_of authorino suffix role_name = Object.cluster_role_binding (
      get_authorino_cluster_role_binding r.sum256 authorino.meta.namespace authorino.meta.name
        suffix role_name (service_account_of authorino) authorino.meta.labels)

  -- the binding of the instance's service account to a role, in its namespace
  unfoldable pub role_binding_of : Authorino → String → String → String → Object
  role_binding_of authorino suffix role_kind role_name = Object.role_binding (
      get_authorino_role_binding authorino.meta.namespace authorino.meta.name suffix role_kind
        role_name (service_account_of authorino) authorino.meta.labels)

  -- Without `ClusterWide` the binding is removed, and the error of that is dropped.
  unfoldable pub reconcile_manager_cluster_role_binding : Authorino → M W Err
  reconcile_manager_cluster_role_binding authorino = do
    err ← check_cluster_role_exists (cluster_role_key authorino_manager_cluster_role_name) authorino
    let binding =
        cluster_role_binding_of authorino authorino_manager_cluster_role_binding_name
          authorino_manager_cluster_role_name
    unless err (
        if authorino.spec.cluster_wide
        then reconcile_cluster_role_binding binding authorino
        else (reconcile_cluster_role_binding (tag_object_to_delete binding) authorino >>= λ _.
            pure none))

  unfoldable pub reconcile_manager_role_binding : Authorino → M W Err
  reconcile_manager_role_binding authorino = do
    err ← check_cluster_role_exists (cluster_role_key authorino_manager_cluster_role_name) authorino
    let binding =
        role_binding_of authorino authorino_manager_cluster_role_binding_name "ClusterRole"
          authorino_manager_cluster_role_name
    unless err (
        reconcile_role_binding
          (if authorino.spec.cluster_wide then tag_object_to_delete binding else binding) authorino)

  unfoldable pub reconcile_manager_auth_cluster_role_binding : Authorino → M W Err
  reconcile_manager_auth_cluster_role_binding authorino = do
    err ←
        check_cluster_role_exists (cluster_role_key authorino_k8s_auth_cluster_role_name) authorino
    unless err (
        reconcile_cluster_role_binding
          (cluster_role_binding_of authorino authorino_k8s_auth_cluster_role_binding_name
            authorino_k8s_auth_cluster_role_name)
          authorino)

  unfoldable pub reconcile_leader_election_role_binding : Authorino → M W Err
  reconcile_leader_election_role_binding authorino =
      reconcile_role_binding
        (role_binding_of authorino authorino_leader_election_role_binding_name "Role"
          authorino_leader_election_role_name)
        authorino

  unfoldable pub reconcile_authorino_permissions : Authorino → M W Err
  reconcile_authorino_permissions authorino = do
    err ← reconcile_manager_cluster_role_binding authorino
    unless err do
      err ← reconcile_manager_role_binding authorino
      unless err do
        err ← reconcile_manager_auth_cluster_role_binding authorino
        unless err do
          err ← reconcile_leader_election_role r ctx authorino
          unless err do
            err ← reconcile_leader_election_role_binding authorino
            unless err do _ ← cleanup_legacy_cluster_role_bindings r authorino; pure none
