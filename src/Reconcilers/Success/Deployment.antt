-- ===== src/Reconcilers/Success/Deployment.antt =====
-- The reconciliation of the deployment returns without an error, if the server has none.
use authorino_operator.Prelude.{◌≡◌, refl, true, false, none, some, Option, ◌∙◌}
use authorino_operator.Kube.{Kind, Object, kind_of, lookup}
use authorino_operator.Api.{Authorino}
use authorino_operator.Reconcilers.Outcome.{Returns}
use authorino_operator.Reconcilers.Pod.{authorino_deployment}
use authorino_operator.Reconcilers.Action.{AuthorinoReconciler, Context, Err, lift}
use authorino_operator.Reconcilers.Resource.{Crud, is_object_tagged_to_delete}
use authorino_operator.Reconcilers.Components.{
  as_deployment, deployment_result, reconcile_authorino_deployment, reconcile_deployment,
  reconcile_owned_deployment, report_availability,
}
use authorino_operator.Reconcilers.Privilege.{meta-authorino_deployment}
use authorino_operator.Reconcilers.Success.{
  Gives, Gives-bind, Gives-if, Gives-pure, Gives-with_logger, NoErrors, reconcile_resource-Yields,
  update_status_conditions-Gives,
}

module _ {W : Type 0} (r : AuthorinoReconciler W) (authorino : Authorino)
    (no_errors : NoErrors r authorino) (ctx : Context) (logged : ctx.has_logger ≡ true) where
  available-Gives :
      (o : Object)
      → kind_of o ≡ Kind.deployment
      → Gives (report_availability r ctx authorino (as_deployment (some o))) none
  unfolding report_availability
  available-Gives (Object.deployment d) e =
      Gives-if _ _ _ none (update_status_conditions-Gives r authorino no_errors _)
        (update_status_conditions-Gives r authorino no_errors _)
  available-Gives (Object.service s) e = cc e
  available-Gives (Object.service_account a) e = cc e
  available-Gives (Object.cluster_role m) e = cc e
  available-Gives (Object.cluster_role_binding b) e = cc e
  available-Gives (Object.role_binding b) e = cc e
  available-Gives (Object.role x) e = cc e
  available-Gives (Object.secret m) e = cc e

  deployment_result-Gives :
      (desired : Object) (crud : Crud) (obj : Option Object) (o : Object)
      → obj ≡ some o
      → kind_of o ≡ Kind.deployment
      → Gives (deployment_result r ctx desired authorino (crud, obj, none)) none
  unfolding deployment_result
  deployment_result-Gives desired Crud.read obj o is e = rw is (available-Gives o e)
  deployment_result-Gives desired Crud.create obj o is e = rw is (available-Gives o e)
  deployment_result-Gives desired Crud.delete obj o is e = rw is (available-Gives o e)
  deployment_result-Gives desired Crud.update obj o is e =
      update_status_conditions-Gives r authorino no_errors _
  deployment_result-Gives desired Crud.unchanged obj o is e = rw is (available-Gives o e)

  reconcile_deployment-Gives :
      (desired : Object)
      → is_object_tagged_to_delete desired ≡ false
      → kind_of desired ≡ Kind.deployment
      → Gives (reconcile_deployment r ctx desired authorino) none
  unfolding reconcile_deployment
  reconcile_deployment-Gives desired untagged kind = Gives-bind _ _ none (λ s.
      let (crud, obj, is, there) =
        reconcile_resource-Yields r authorino no_errors ctx logged desired s in
      let (o, some_o, same) = there untagged in
      ((crud, obj, none), is, deployment_result-Gives desired crud obj o some_o (same ∙ kind)))

  owned_deployment-Gives :
      (x : Err × Object)
      → x.0 ≡ none
      → is_object_tagged_to_delete x.1 ≡ false
      → kind_of x.1 ≡ Kind.deployment
      → Gives (reconcile_owned_deployment r ctx authorino x) none
  owned_deployment-Gives (none, desired) e untagged kind =
      Gives-bind _ _ none
        (λ s. (none, (reconcile_deployment-Gives desired untagged kind).at s, Gives-pure none))
  owned_deployment-Gives (some err, desired) e untagged kind = cc e

  pub reconcile_authorino_deployment-Gives :
      Returns (authorino_deployment r.process authorino)
      → Gives (reconcile_authorino_deployment r ctx authorino) none
  unfolding reconcile_authorino_deployment lift is_object_tagged_to_delete lookup
  reconcile_authorino_deployment-Gives (d, built) =
      let meta = meta-authorino_deployment r.process authorino d built in
      Gives-with_logger ctx _ logged (
        Gives-bind _ _ none (λ s. (
          d,
          built,
          owned_deployment-Gives _ (no_errors.owners _ (rw meta refl) (rw meta refl)) (rw meta refl)
              refl,
        )))
