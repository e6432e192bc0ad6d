-- ===== src/Controller.antt =====
-- controllers/authorino_controller.go: the reconciliation of one custom resource.
pub mod Preflight
pub mod Keeps
pub mod Laws
pub mod Lifecycle
pub mod Gate
pub mod Provision
pub mod Phases
pub mod Reclaim
pub mod Clearance
pub mod Isolation
pub mod Completion
use authorino_operator.Prelude.{
  String, Bool, true, false, not, ◌&&◌, Option, none, some, if◌then◌else◌,
}
use authorino_operator.Kube.{Object, ObjectKey, StringMap}
use authorino_operator.Api.{Authorino}
use authorino_operator.Resources.Rbac.{
  get_authorino_service_account, get_authorino_cluster_role_binding,
}
use authorino_operator.Reconcilers.Consts.{
  authorino_manager_cluster_role_name, authorino_k8s_auth_cluster_role_name,
  authorino_manager_cluster_role_binding_name, authorino_k8s_auth_cluster_role_binding_name,
}
use authorino_operator.Reconcilers.Action.{
  Answer, found, failed, AuthorinoReconciler, Call, Context, Err, M, perform, pure, ◌>>=◌, ◌>>◌,
}
use authorino_operator.Reconcilers.Components.{
  reconcile_authorino_deployment, reconcile_authorino_service_account, reconcile_authorino_services,
}
use authorino_operator.Reconcilers.Permissions.{reconcile_authorino_permissions}
use authorino_operator.Controller.Preflight.{Servers, installation_preflight_check}

abbrev pub authorino_finalizer : String
authorino_finalizer = "authorino.kuadrant.io/finalizer"

abbrev pub is_some {ℓ} : {A : Type ℓ} → Option A → Bool
is_some none = false
is_some (some a) = true

-- `(ctrl.Result, error)`
pub record Result : Type 0 where
  pub requeue : Bool
  pub err : Err

abbrev pub result : Err → Result
result err = record { requeue = false; err = err }

module _ {W : Type 0} (r : AuthorinoReconciler W) where
  unfoldable pub cluster_scoped_binding : ObjectKey → StringMap → String → String → Object
  cluster_scoped_binding key labels suffix role_name = Object.cluster_role_binding (
      get_authorino_cluster_role_binding r.sum256 key.namespace key.name suffix role_name
        (get_authorino_service_account key.namespace key.name labels) labels)

  -- Both bindings are deleted, without preconditions; an error is logged only.
  unfoldable pub cleanup_cluster_scoped_permissions : ObjectKey → StringMap → M W Unit
  cleanup_cluster_scoped_permissions key labels = do
    let manager =
        cluster_scoped_binding key labels authorino_manager_cluster_role_binding_name
          authorino_manager_cluster_role_name
    _ ← perform (Call.delete manager none) (r.delete manager none)
    let k8s_auth =
        cluster_scoped_binding key labels authorino_k8s_auth_cluster_role_binding_name
          authorino_k8s_auth_cluster_role_name
    _ ← perform (Call.delete k8s_auth none) (r.delete k8s_auth none)
    pure tt

  -- the branch of a CR that is being deleted and still has the finalizer
  unfoldable pub finalize : ObjectKey → Authorino → M W Result
  finalize key authorino = do
    _ ← cleanup_cluster_scoped_permissions key authorino.meta.labels
    err ←
        perform (Call.update (r.remove_finalizer authorino authorino_finalizer))
          (r.update (r.remove_finalizer authorino authorino_finalizer))
    pure (result err)

  unfoldable pub register_finalizer : Authorino → M W Result
  register_finalizer authorino = do
    err ←
        perform (Call.update (r.add_finalizer authorino authorino_finalizer))
          (r.update (r.add_finalizer authorino authorino_finalizer))
    pure (result err)

  -- `if err := …; err != nil { return ctrl.Result{}, err }`, and then the rest
  abbrev pub unless_err : Err → M W Result → M W Result
  unless_err none rest = rest
  unless_err (some e) rest = pure (result (some e))

  -- `if err := …; err != nil { return ctrl.Result{Requeue: true}, err }`
  abbrev pub requeue_on : Err → M W Result → M W Result
  requeue_on none rest = rest
  requeue_on (some e) rest = pure (record { requeue = true; err = some e })

  -- the four parts of an instance, in order
  unfoldable pub reconcile_parts : Context → Authorino → M W Result
  reconcile_parts ctx authorino = do
    err ← reconcile_authorino_services r ctx authorino
    unless_err err do
      err ← reconcile_authorino_service_account r ctx authorino
      unless_err err do
        err ← reconcile_authorino_permissions r ctx authorino
        unless_err err do err ← reconcile_authorino_deployment r ctx authorino; pure (result err)

  unfoldable pub install : Context → Servers → Authorino → M W Result
  install ctx servers authorino = do
    err ← installation_preflight_check r servers authorino
    requeue_on err (reconcile_parts ctx authorino)

  unfoldable pub reconcile_instance : Context → Servers → ObjectKey → Authorino → M W Result
  reconcile_instance ctx servers key authorino =
      if is_some authorino.meta.deletion_timestamp
        && r.contains_finalizer authorino authorino_finalizer
      then finalize key authorino
      else if is_some authorino.meta.deletion_timestamp
      then pure (result none)
      else if not (r.contains_finalizer authorino authorino_finalizer)
      then register_finalizer authorino
      else install ctx servers authorino

  unfoldable pub reconcile_read : Servers → ObjectKey → Answer Authorino → M W Result
  reconcile_read servers key (found authorino) =
      reconcile_instance (record { has_logger = true }) servers key authorino
  reconcile_read servers key (failed e) =
      if e.not_found then pure (result none) else pure (result (some e))

  -- `servers` is the order in which the loop of the preflight check visits its map.
  unfoldable pub reconcile : Servers → ObjectKey → M W Result
  reconcile servers key = do
    answer ← perform (Call.get_authorino key) (r.get_authorino key)
    reconcile_read servers key answer
