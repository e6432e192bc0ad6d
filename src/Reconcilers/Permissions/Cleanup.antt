-- ===== src/Reconcilers/Permissions/Cleanup.antt =====
-- `cleanupLegacyClusterRoleBindings` of pkg/reconcilers/authorino_reconciler.go. Its errors are
-- logged only, so it has no result.
use authorino_operator.Prelude.{String, some, List, [], ◌∷◌, concat, if◌then◌else◌}
use authorino_operator.Kube.{Binding, Object, ObjectKey, Subject}
use authorino_operator.Api.{Authorino}
use authorino_operator.Resources.Rbac.{
  get_authorino_service_account, get_subject_for_role_binding, subject_included,
}
use authorino_operator.Reconcilers.Consts.{
  authorino_manager_cluster_role_binding_name, authorino_k8s_auth_cluster_role_binding_name,
}
use authorino_operator.Reconcilers.Action.{
  Answer, found, failed, AuthorinoReconciler, Call, M, Preconditions, perform, pure, ◌>>=◌,
}

-- the subject that a binding of this instance has
unfoldable pub own_subject : Authorino → Subject
own_subject authorino = get_subject_for_role_binding (
    get_authorino_service_account authorino.meta.namespace authorino.meta.name
      authorino.meta.labels)

unfoldable pub legacy_name : Authorino → String → String
legacy_name authorino suffix = concat (authorino.meta.name ∷ "-" ∷ suffix ∷ [])

abbrev pub preconditions_of : Binding → Preconditions
preconditions_of binding = record {
  uid = binding.meta.uid;
  resource_version = binding.meta.resource_version;
}

module _ {W : Type 0} (r : AuthorinoReconciler W) where
  -- the part of the loop behind the `Get`
  unfoldable pub cleanup_answer : Authorino → Answer Binding → M W Unit
  cleanup_answer authorino (failed e) = pure tt
  cleanup_answer authorino (found binding) =
      if subject_included binding.subjects (own_subject authorino)
      then (do
        let obj = Object.cluster_role_binding binding
        let preconditions = some (preconditions_of binding)
        _ ← perform (Call.delete obj preconditions) (r.delete obj preconditions)
        pure tt)
      else pure tt

  unfoldable pub cleanup_one : Authorino → String → M W Unit
  cleanup_one authorino suffix = do
    let key : ObjectKey = record { namespace = ""; name = legacy_name authorino suffix }
    answer ← perform (Call.get_cluster_role_binding key) (r.get_cluster_role_binding key)
    cleanup_answer authorino answer

  unfoldable pub cleanup_each : Authorino → List String → M W Unit
  cleanup_each authorino [] = pure tt
  cleanup_each authorino (suffix ∷ rest) = do
    _ ← cleanup_one authorino suffix
    cleanup_each authorino rest

  unfoldable pub cleanup_legacy_cluster_role_bindings : Authorino → M W Unit
  cleanup_legacy_cluster_role_bindings authorino = cleanup_each authorino (
      authorino_manager_cluster_role_binding_name ∷ authorino_k8s_auth_cluster_role_binding_name
      ∷ [])
