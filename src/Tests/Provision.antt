-- ===== src/Tests/Provision.antt =====
-- An installation in a server that keeps objects.
use authorino_operator.Prelude.{◌≡◌, refl, arith, All, none, List, []}
use authorino_operator.Kube.{Kind, ObjectKey}
use authorino_operator.Kube.{lookup}
use authorino_operator.Resources.Maps.{set_key}
use authorino_operator.Resources.Names.{
  authorino_service_account_name, authorino_role_binding_name, authorino_cluster_role_binding_name,
  truncated_name, available, name_hash,
}
use authorino_operator.Resources.Rbac.{
  get_authorino_service_account, get_authorino_cluster_role_binding, get_authorino_role_binding,
  get_subject_for_role_binding, subject_included,
}
use authorino_operator.Resources.Deployments.{get_deployment}
use authorino_operator.Resources.Services.{new_auth_service, new_oidc_service, new_metrics_service}
use authorino_operator.Reconcilers.Pod.{
  mount_tls, authorino_mounts, deployment_with, authorino_image, authorino_deployment, available_in,
  deployment_available,
}
use authorino_operator.Reconcilers.Action.{State, pure, perform, read_clock, lift, ◌>>=◌}
use authorino_operator.Reconcilers.Status.{status_ready, status_not_ready, update_status_conditions}
use authorino_operator.Reconcilers.Resource.{
  is_object_tagged_to_delete, tag_object_to_delete, create_resource, delete_resource,
  apply_resource, reconcile_missing, reconcile_found, reconcile_answer, reconcile_resource,
}
use authorino_operator.Reconcilers.Components.{
  desired_services, leader_election_role, report_availability, deployment_result,
  reconcile_deployment, reconcile_authorino_deployment, service_result, reconcile_service,
  reconcile_each_service, reconcile_authorino_services, service_account_result,
  reconcile_authorino_service_account, leader_election_role_result, reconcile_leader_election_role,
}
use authorino_operator.Reconcilers.Permissions.{
  cluster_role_answer, check_cluster_role_exists, cluster_role_status, reconcile_binding,
  reconcile_role_binding, reconcile_cluster_role_binding, cluster_role_binding_of, role_binding_of,
  reconcile_manager_cluster_role_binding, reconcile_manager_role_binding,
  reconcile_manager_auth_cluster_role_binding, reconcile_leader_election_role_binding,
  reconcile_authorino_permissions,
}
use authorino_operator.Reconcilers.Permissions.Cleanup.{
  own_subject, legacy_name, cleanup_answer, cleanup_one, cleanup_each,
  cleanup_legacy_cluster_role_bindings,
}
use authorino_operator.Controller.{reconcile, reconcile_parts, install, result}
use authorino_operator.Controller.Preflight.{
  listener_first, oidc_first, secret_answer, check_secret, check_servers,
  installation_preflight_check,
}
use authorino_operator.Reconcilers.Outcome.{returned}
use authorino_operator.Controller.Provision.{instance_keys}
use authorino_operator.Reconcilers.Safety.Writing.{WritesOnly}
use authorino_operator.Controller.Reclaim.{
  HasTypeMeta, IsReclaimed, calls-install-HasTypeMeta, calls-install-IsReclaimed,
}
use authorino_operator.Controller.Provision.Again.{
  CreatesNothing, Reinstalls, Reinstalls-CreatesNothing,
}
use authorino_operator.Controller.Completion.Reconcile.{reconcile-Completes}
use authorino_operator.Controller.Provision.Laws.{install-HasInstance}
use authorino_operator.Reconcilers.Presence.{Has}
use authorino_operator.Tests.Fixtures.{cr, cr_key, ctx}
use authorino_operator.Tests.Store.{
  Entry, store, stored, store-Controls, store-NoErrors, store-Promises,
}

pub installed : (install store ctx listener_first cr stored).0 ≡ returned (result none)
unfolding lookup set_key authorino_service_account_name authorino_role_binding_name
    authorino_cluster_role_binding_name truncated_name available name_hash
    get_authorino_service_account get_authorino_cluster_role_binding get_authorino_role_binding
    get_subject_for_role_binding subject_included get_deployment new_auth_service new_oidc_service
    new_metrics_service mount_tls authorino_mounts deployment_with authorino_image
    authorino_deployment available_in deployment_available pure perform read_clock lift ◌>>=◌
    status_ready status_not_ready update_status_conditions is_object_tagged_to_delete
    tag_object_to_delete create_resource delete_resource apply_resource reconcile_missing
    reconcile_found reconcile_answer reconcile_resource desired_services leader_election_role
    report_availability deployment_result reconcile_deployment reconcile_authorino_deployment
    service_result reconcile_service reconcile_each_service reconcile_authorino_services
    service_account_result reconcile_authorino_service_account leader_election_role_result
    reconcile_leader_election_role cluster_role_answer check_cluster_role_exists cluster_role_status
    reconcile_binding reconcile_role_binding reconcile_cluster_role_binding cluster_role_binding_of
    role_binding_of reconcile_manager_cluster_role_binding reconcile_manager_role_binding
    reconcile_manager_auth_cluster_role_binding reconcile_leader_election_role_binding
    reconcile_authorino_permissions own_subject legacy_name cleanup_answer cleanup_one cleanup_each
    cleanup_legacy_cluster_role_bindings reconcile_parts install secret_answer check_secret
    check_servers installation_preflight_check
installed = refl

install-HasInstance_example :
    All
      (λ (x : Kind × ObjectKey).
        Has store x.0 x.1 (install store ctx listener_first cr stored).1.world)
      (instance_keys store cr)
install-HasInstance_example =
    install-HasInstance store ctx listener_first cr stored store-Promises (omega arith) installed

-- the state behind the installation, and that behind a second one
abbrev pub first_done : State (List Entry)
first_done = record (install store ctx listener_first cr stored).1 { calls = [] }

abbrev second_done : State (List Entry)
second_done = (install store ctx oidc_first cr first_done).1

Reinstalls-CreatesNothing_example :
    All CreatesNothing second_done.calls
    × All (λ (x : Kind × ObjectKey). Has store x.0 x.1 second_done.world) (instance_keys store cr)
Reinstalls-CreatesNothing_example =
    Reinstalls-CreatesNothing store ctx listener_first cr stored second_done store-Promises
      (omega arith) installed (Reinstalls.again ctx oidc_first Reinstalls.done)

calls-install-HasTypeMeta_example :
    All (WritesOnly HasTypeMeta) (install store ctx listener_first cr stored).1.calls
calls-install-HasTypeMeta_example = calls-install-HasTypeMeta store ctx cr listener_first stored tt

calls-install-IsReclaimed_example :
    All (WritesOnly (IsReclaimed store cr)) (install store ctx listener_first cr stored).1.calls
calls-install-IsReclaimed_example =
    calls-install-IsReclaimed store ctx cr store-Controls listener_first stored tt

reconcile-Completes_example :
    ((reconcile store oidc_first cr_key stored).0 ≡ returned (result none))
    × All
        (λ (x : Kind × ObjectKey).
          Has store x.0 x.1 (reconcile store oidc_first cr_key stored).1.world)
        (instance_keys store cr)
unfolding authorino_image
reconcile-Completes_example =
    reconcile-Completes store oidc_first cr_key cr stored store-Promises store-NoErrors refl refl
      refl refl (omega arith) (_, refl) (_, refl) (λ on. ("cert", refl, (_, refl))) (λ on. cc on)
