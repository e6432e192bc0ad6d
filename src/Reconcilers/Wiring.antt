-- ===== src/Reconcilers/Wiring.antt =====
-- How the parts of an instance fit together: services, service account, bindings and deployment are
-- built by separate functions of pkg/resources and name each other by text only.
use authorino_operator.Prelude.{◌≡◌, refl, String, true, List, [], All, sym, subst}
use authorino_operator.Kube.{Deployment, Object, Subject}
use authorino_operator.Api.{Authorino}
use authorino_operator.Resources.Names.{authorino_service_account_name}
use authorino_operator.Resources.Deployments.{get_deployment}
use authorino_operator.Resources.Rbac.{
  get_authorino_cluster_role_binding, get_authorino_role_binding, get_authorino_service_account,
  get_subject_for_role_binding, subject_included,
}
use authorino_operator.Resources.Rbac.Laws.{subject_included-head}
use authorino_operator.Resources.Services.{new_auth_service, new_metrics_service, new_oidc_service}
use authorino_operator.Reconcilers.Outcome.{returned}
use authorino_operator.Reconcilers.Pod.{Mounts, Process, authorino_deployment, deployment_with}
use authorino_operator.Reconcilers.Pod.Laws.{authorino_deployment_inv}
use authorino_operator.Reconcilers.Action.{AuthorinoReconciler, Context}
use authorino_operator.Reconcilers.Components.{desired_services}
use authorino_operator.Reconcilers.Permissions.{
  cluster_role_binding_of, role_binding_of, service_account_of,
}
use authorino_operator.Reconcilers.Permissions.Cleanup.{own_subject}

-- The service is in the namespace of the deployment, and its selector is the labels of the pods.
abbrev pub Selects : Deployment → Object → Type 0
Selects deployment (Object.service s) =
    (s.spec.selector ≡ deployment.template_labels) × (s.meta.namespace ≡ deployment.meta.namespace)
Selects deployment _ = ⊥

-- What the deployment has from the CR alone.
abbrev BelongsTo : Authorino → Deployment → Type 0
BelongsTo authorino deployment =
    All (Selects deployment) (desired_services authorino)
    × (deployment.match_labels ≡ deployment.template_labels)
    × (deployment.service_account_name ≡ (service_account_of authorino).meta.name)
    × (deployment.meta.namespace ≡ (service_account_of authorino).meta.namespace)

deployment_with-BelongsTo :
    (authorino : Authorino) (image : String) (mounts : Mounts)
    → BelongsTo authorino (deployment_with authorino image mounts)
unfolding deployment_with get_deployment desired_services new_auth_service new_oidc_service
    new_metrics_service get_authorino_service_account authorino_service_account_name
deployment_with-BelongsTo authorino image (volumes, mounts) =
    (((refl, refl), ((refl, refl), ((refl, refl), tt))), refl, refl, refl)

-- The deployment that is built for a CR is the one that its three services select, in the same
-- namespace; its own selector matches its pods; and the pods run as the service account that is
-- reconciled for the CR, which is in that namespace.
pub authorino_deployment-BelongsTo :
    (process : Process) (authorino : Authorino) (deployment : Deployment)
    → authorino_deployment process authorino ≡ returned deployment
    → All (Selects deployment) (desired_services authorino)
      × (deployment.match_labels ≡ deployment.template_labels)
      × (deployment.service_account_name ≡ (service_account_of authorino).meta.name)
      × (deployment.meta.namespace ≡ (service_account_of authorino).meta.namespace)
authorino_deployment-BelongsTo process authorino deployment e =
    let (mounts, mounted, built, image) = authorino_deployment_inv process authorino deployment e in
    subst (BelongsTo authorino) (sym built) (deployment_with-BelongsTo authorino _ mounts)

-- the subjects of a binding, of either scope
abbrev pub bound : Object → List Subject
bound (Object.cluster_role_binding b) = b.subjects
bound (Object.role_binding b) = b.subjects
bound _ = []

-- Both bindings that are built for a CR, for every suffix and role, have the subject of the CR's
-- service account: the subject by which the cleanup recognises a binding as the instance's own.
pub bindings-subject_included :
    {W : Type 0} (r : AuthorinoReconciler W) (ctx : Context) (authorino : Authorino)
    (suffix role_kind role_name : String)
    → (subject_included
          (bound (cluster_role_binding_of r ctx authorino suffix role_name))
          (own_subject authorino)
        ≡ true)
      × (subject_included
            (bound (role_binding_of r ctx authorino suffix role_kind role_name))
            (own_subject authorino)
          ≡ true)
unfolding cluster_role_binding_of role_binding_of get_authorino_cluster_role_binding
    get_authorino_role_binding own_subject get_subject_for_role_binding
bindings-subject_included r ctx authorino suffix role_kind role_name =
    (subject_included-head _ _, subject_included-head _ _)
