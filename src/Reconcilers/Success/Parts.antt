-- ===== src/Reconcilers/Success/Parts.antt =====
-- The parts of an instance return without an error, if the server has none.
use authorino_operator.Prelude.{◌≡◌, refl, true, none, some, Option, List, String, [], ◌∷◌}
use authorino_operator.Kube.{meta_of, Binding, Object}
use authorino_operator.Api.{Authorino}
use authorino_operator.Resources.Rbac.{get_authorino_role_binding, get_authorino_service_account}
use authorino_operator.Reconcilers.Action.{
  Answer, failed, found, AuthorinoReconciler, Context, Err, M, perform, ◌>>=◌,
}
use authorino_operator.Reconcilers.Resource.{Crud, reconcile_resource}
use authorino_operator.Reconcilers.Components.{
  leader_election_role, leader_election_role_result, reconcile_authorino_service_account,
  reconcile_authorino_services, reconcile_each_service, reconcile_leader_election_role,
  reconcile_owned_role, reconcile_owned_service_account, reconcile_service, service_account_result,
  service_result,
}
use authorino_operator.Reconcilers.Permissions.{
  role_binding_of, cluster_role_status, reconcile_binding, reconcile_cluster_role_binding,
  reconcile_leader_election_role_binding, reconcile_owned_binding, reconcile_role_binding,
}
use authorino_operator.Reconcilers.Permissions.Cleanup.{
  cleanup_answer, cleanup_each, cleanup_legacy_cluster_role_bindings, cleanup_one,
}
use authorino_operator.Reconcilers.Success.{
  Gives, Gives-bind, Gives-if, Gives-pure, Gives-unless, Gives-with_logger, NoErrors,
  reconcile_resource-Gives,
}

module _ {W : Type 0} (r : AuthorinoReconciler W) (authorino : Authorino)
    (no_errors : NoErrors r authorino) (ctx : Context) (logged : ctx.has_logger ≡ true) where
  resource-Gives :
      (desired : Object) (f : Crud × Option Object × Err → M W Err)
      → ((crud : Crud) (obj : Option Object) → Gives (f (crud, obj, none)) none)
      → Gives (reconcile_resource r ctx desired >>= f) none
  resource-Gives desired f gives =
      reconcile_resource-Gives r authorino no_errors ctx logged desired f gives

  -- services
  service_result-Gives :
      (desired : Object) (crud : Crud) (obj : Option Object)
      → Gives (service_result r ctx desired authorino (crud, obj, none)) none
  unfolding service_result
  service_result-Gives desired Crud.read obj = Gives-pure none
  service_result-Gives desired Crud.create obj = Gives-pure none
  service_result-Gives desired Crud.delete obj = Gives-pure none
  service_result-Gives desired Crud.update obj = Gives-pure none
  service_result-Gives desired Crud.unchanged obj = Gives-pure none

  reconcile_each_service-Gives :
      (services : List Object) → Gives (reconcile_each_service r ctx authorino services) none
  unfolding reconcile_each_service reconcile_service
  reconcile_each_service-Gives [] = Gives-pure none
  reconcile_each_service-Gives (desired ∷ rest) =
      Gives-unless _ _
        (Gives-with_logger ctx _ logged (resource-Gives _ _ (service_result-Gives _)))
        (reconcile_each_service-Gives rest)

  pub reconcile_authorino_services-Gives : Gives (reconcile_authorino_services r ctx authorino) none
  unfolding reconcile_authorino_services
  reconcile_authorino_services-Gives = reconcile_each_service-Gives _

  -- the service account
  owned_service_account-Gives :
      (x : Err × Object)
      → x.0 ≡ none
      → Gives (reconcile_owned_service_account r ctx authorino x) none
  unfolding service_account_result
  owned_service_account-Gives (none, sa) e = resource-Gives _ _ (λ crud obj. Gives-pure none)
  owned_service_account-Gives (some err, sa) e = cc e

  pub reconcile_authorino_service_account-Gives :
      Gives (reconcile_authorino_service_account r ctx authorino) none
  unfolding reconcile_authorino_service_account get_authorino_service_account
  reconcile_authorino_service_account-Gives =
      Gives-with_logger ctx _ logged (owned_service_account-Gives _ (no_errors.owners _ refl refl))

  -- the role of the leader election
  role_result-Gives :
      (desired : Object) (crud : Crud) (obj : Option Object)
      → Gives (leader_election_role_result r ctx desired authorino (crud, obj, none)) none
  unfolding leader_election_role_result
  role_result-Gives desired Crud.read obj = Gives-pure none
  role_result-Gives desired Crud.create obj = Gives-pure none
  role_result-Gives desired Crud.delete obj = Gives-pure none
  role_result-Gives desired Crud.update obj = Gives-pure none
  role_result-Gives desired Crud.unchanged obj = Gives-pure none

  owned_role-Gives :
      (x : Err × Object) → x.0 ≡ none → Gives (reconcile_owned_role r ctx authorino x) none
  owned_role-Gives (none, desired) e = resource-Gives _ _ (role_result-Gives desired)
  owned_role-Gives (some err, desired) e = cc e

  pub reconcile_leader_election_role-Gives :
      Gives (reconcile_leader_election_role r ctx authorino) none
  unfolding reconcile_leader_election_role leader_election_role
  reconcile_leader_election_role-Gives =
      Gives-with_logger ctx _ logged (owned_role-Gives _ (no_errors.owners _ refl refl))

  -- the bindings
  binding_status-Gives :
      (crud : Crud) (name : String)
      → Gives (cluster_role_status r ctx authorino crud name none) none
  unfolding cluster_role_status
  binding_status-Gives Crud.read name = Gives-pure none
  binding_status-Gives Crud.create name = Gives-pure none
  binding_status-Gives Crud.delete name = Gives-pure none
  binding_status-Gives Crud.update name = Gives-pure none
  binding_status-Gives Crud.unchanged name = Gives-pure none

  binding-Gives : (desired : Object) → Gives (reconcile_binding r ctx desired authorino) none
  unfolding reconcile_binding
  binding-Gives desired = resource-Gives _ _ (λ crud obj. binding_status-Gives crud _)

  owned_binding-Gives :
      (x : Err × Object) → x.0 ≡ none → Gives (reconcile_owned_binding r ctx authorino x) none
  owned_binding-Gives (none, desired) e = binding-Gives desired
  owned_binding-Gives (some err, desired) e = cc e

  pub reconcile_role_binding-Gives :
      (desired : Object)
      → (meta_of desired).namespace ≡ authorino.meta.namespace
      → (meta_of desired).owner_references ≡ []
      → Gives (reconcile_role_binding r ctx desired authorino) none
  unfolding reconcile_role_binding
  reconcile_role_binding-Gives desired namespace bare =
      Gives-with_logger ctx _ logged (owned_binding-Gives _ (no_errors.owners _ namespace bare))

  pub reconcile_cluster_role_binding-Gives :
      (desired : Object) → Gives (reconcile_cluster_role_binding r ctx desired authorino) none
  unfolding reconcile_cluster_role_binding
  reconcile_cluster_role_binding-Gives desired =
      Gives-with_logger ctx _ logged (binding-Gives desired)

  pub reconcile_leader_election_role_binding-Gives :
      Gives (reconcile_leader_election_role_binding r ctx authorino) none
  unfolding reconcile_leader_election_role_binding role_binding_of get_authorino_role_binding
  reconcile_leader_election_role_binding-Gives = reconcile_role_binding-Gives _ refl refl

  -- the cleanup, whose errors are dropped
  cleanup_answer-Gives : (answer : Answer Binding) → Gives (cleanup_answer r authorino answer) tt
  unfolding cleanup_answer perform
  cleanup_answer-Gives (failed e) = Gives-pure tt
  cleanup_answer-Gives (found binding) =
      Gives-if _ _ _ tt (Gives-bind _ _ tt (λ s. (_, refl, Gives-pure tt))) (Gives-pure tt)

  cleanup_each-Gives : (suffixes : List String) → Gives (cleanup_each r authorino suffixes) tt
  unfolding cleanup_each cleanup_one perform
  cleanup_each-Gives [] = Gives-pure tt
  cleanup_each-Gives (suffix ∷ rest) = Gives-bind _ _ tt (λ s. (
    tt,
    (Gives-bind _ _ tt (λ s'. (_, refl, cleanup_answer-Gives _))).at s,
    cleanup_each-Gives rest,
  ))

  pub cleanup_legacy_cluster_role_bindings-Gives :
      Gives (cleanup_legacy_cluster_role_bindings r authorino) tt
  unfolding cleanup_legacy_cluster_role_bindings
  cleanup_legacy_cluster_role_bindings-Gives = cleanup_each-Gives _
