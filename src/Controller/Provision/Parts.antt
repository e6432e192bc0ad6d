-- ===== src/Controller/Provision/Parts.antt =====
-- What each part of an installation leaves, if it has no error.
use authorino_operator.Prelude.{◌≡◌, refl, Bool, true, false, none, if◌then◌else◌, subst, IsIn}
use authorino_operator.Kube.{Kind, Object, lookup}
use authorino_operator.Api.{Authorino}
use authorino_operator.Resources.Deployments.{get_deployment}
use authorino_operator.Resources.Rbac.{
  get_authorino_cluster_role_binding, get_authorino_role_binding, get_authorino_service_account,
}
use authorino_operator.Resources.Services.{new_auth_service, new_metrics_service, new_oidc_service}
use authorino_operator.Reconcilers.Pod.{deployment_with}
use authorino_operator.Reconcilers.Action.{AuthorinoReconciler, Context, controlled, lift}
use authorino_operator.Reconcilers.Resource.{is_object_tagged_to_delete}
use authorino_operator.Reconcilers.Components.{
  desired_services, leader_election_role, reconcile_authorino_deployment,
  reconcile_authorino_service_account, reconcile_authorino_services, reconcile_leader_election_role,
  reconcile_owned_deployment,
}
use authorino_operator.Reconcilers.Permissions.{
  cluster_role_binding_of, reconcile_leader_election_role_binding,
  reconcile_manager_auth_cluster_role_binding, reconcile_manager_cluster_role_binding,
  reconcile_manager_role_binding, reconcile_role_binding, role_binding_of, service_account_of,
}
use authorino_operator.Reconcilers.Privilege.{meta-authorino_deployment}
use authorino_operator.Reconcilers.Safety.Parts.{
  auth_binding, leader_binding, manager_binding, manager_cluster_binding,
}
use authorino_operator.Reconcilers.Presence.{
  Leaves, Leaves-if, Leaves-next, Leaves-unless_next, Leaves-with_logger, Promises, holds,
}
use authorino_operator.Reconcilers.Presence.Parts.{
  holds_like, reconcile_cluster_role_binding-Leaves, reconcile_each_service-Leaves,
  reconcile_owned_deployment-Leaves, reconcile_owned_role-Leaves,
  reconcile_owned_service_account-Leaves, reconcile_role_binding-Leaves,
}

module _ {W : Type 0} (r : AuthorinoReconciler W) (promises : Promises r) (ctx : Context)
    (authorino : Authorino) where
  pub services-Leaves :
      (desired : Object)
      → IsIn desired (desired_services authorino)
      → Leaves
          (holds_like r promises ctx authorino (controlled r authorino desired).1)
          (reconcile_authorino_services r ctx authorino)
          none
  unfolding reconcile_authorino_services desired_services new_auth_service new_oidc_service
      new_metrics_service is_object_tagged_to_delete lookup
  services-Leaves desired member =
      reconcile_each_service-Leaves r promises ctx authorino _ desired (refl, (refl, (refl, tt)))
        member

  pub service_account-Leaves :
      Leaves
        (holds_like r promises ctx authorino
          (Object.service_account (service_account_of authorino)))
        (reconcile_authorino_service_account r ctx authorino)
        none
  unfolding reconcile_authorino_service_account get_authorino_service_account
      is_object_tagged_to_delete lookup
  service_account-Leaves =
      Leaves-with_logger ctx _
        (reconcile_owned_service_account-Leaves r promises ctx authorino _ refl)

  pub leader_role-Leaves :
      Leaves
        (holds_like r promises ctx authorino (leader_election_role authorino))
        (reconcile_leader_election_role r ctx authorino)
        none
  unfolding reconcile_leader_election_role leader_election_role is_object_tagged_to_delete lookup
  leader_role-Leaves =
      Leaves-with_logger ctx _ (reconcile_owned_role-Leaves r promises ctx authorino _ refl)

  pub leader_binding-Leaves :
      Leaves
        (holds_like r promises ctx authorino (leader_binding r ctx authorino))
        (reconcile_leader_election_role_binding r ctx authorino)
        none
  unfolding reconcile_leader_election_role_binding role_binding_of get_authorino_role_binding
      is_object_tagged_to_delete lookup
  leader_binding-Leaves = reconcile_role_binding-Leaves r promises ctx authorino _ refl

  pub auth_binding-Leaves :
      Leaves
        (holds_like r promises ctx authorino (auth_binding r ctx authorino))
        (reconcile_manager_auth_cluster_role_binding r ctx authorino)
        none
  unfolding reconcile_manager_auth_cluster_role_binding cluster_role_binding_of
      get_authorino_cluster_role_binding is_object_tagged_to_delete lookup
  auth_binding-Leaves =
      Leaves-unless_next _ _ (reconcile_cluster_role_binding-Leaves r promises ctx authorino _ refl)

  pub manager_cluster_binding-Leaves :
      authorino.spec.cluster_wide ≡ true
      → Leaves
          (holds_like r promises ctx authorino (manager_cluster_binding r ctx authorino))
          (reconcile_manager_cluster_role_binding r ctx authorino)
          none
  unfolding reconcile_manager_cluster_role_binding cluster_role_binding_of
      get_authorino_cluster_role_binding is_object_tagged_to_delete lookup
  manager_cluster_binding-Leaves wide = Leaves-unless_next _ _ (
      Leaves-if authorino.spec.cluster_wide _ _
        (λ _. reconcile_cluster_role_binding-Leaves r promises ctx authorino _ refl) (λ not. cc))

  -- the object that a test picks
  picked-Leaves :
      (b : Bool) (x y : Object)
      → b ≡ false
      → is_object_tagged_to_delete (controlled r authorino y).1 ≡ false
      → Leaves
          (holds_like r promises ctx authorino (controlled r authorino y).1)
          (reconcile_role_binding r ctx (if b then x else y) authorino)
          none
  picked-Leaves true x y h untagged = cc h
  picked-Leaves false x y h untagged =
      reconcile_role_binding-Leaves r promises ctx authorino y untagged

  pub manager_binding-Leaves :
      authorino.spec.cluster_wide ≡ false
      → Leaves
          (holds_like r promises ctx authorino (manager_binding r ctx authorino))
          (reconcile_manager_role_binding r ctx authorino)
          none
  unfolding reconcile_manager_role_binding role_binding_of get_authorino_role_binding
      is_object_tagged_to_delete lookup
  manager_binding-Leaves namespaced =
      Leaves-unless_next _ _ (picked-Leaves authorino.spec.cluster_wide _ _ namespaced refl)

  pub deployment-Leaves :
      Leaves
        (holds r Kind.deployment
          (record { namespace = authorino.meta.namespace; name = authorino.meta.name }))
        (reconcile_authorino_deployment r ctx authorino)
        none
  unfolding reconcile_authorino_deployment lift is_object_tagged_to_delete lookup deployment_with
      get_deployment
  deployment-Leaves = Leaves-with_logger ctx _ (
      Leaves-next _ _ none (λ s deployment built.
        let meta = meta-authorino_deployment r.process authorino deployment (cc built) in
        subst
          (λ m.
            Leaves (holds r Kind.deployment (record { namespace = m.namespace; name = m.name }))
              (reconcile_owned_deployment r ctx authorino
                (controlled r authorino (Object.deployment deployment)))
              none)
          meta (reconcile_owned_deployment-Leaves r promises ctx authorino _ (rw meta refl))))
