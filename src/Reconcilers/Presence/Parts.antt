-- ===== src/Reconcilers/Presence/Parts.antt =====
-- What the parts of an instance leave, if they have no error.
use authorino_operator.Prelude.{
  ◌≡◌, ◌≢◌, refl, String, false, none, some, List, [], ◌∷◌, All, inl, inr, IsIn, sym, subst,
  All-mono,
}
use authorino_operator.Kube.{Object, kind_of, object_key}
use authorino_operator.Api.{Authorino}
use authorino_operator.Reconcilers.Outcome.{returned}
use authorino_operator.Reconcilers.Action.{
  AuthorinoReconciler, Context, Err, GoError, State, controlled, pure,
}
use authorino_operator.Reconcilers.Action.Keeps.{Policy, Issues-pure}
use authorino_operator.Reconcilers.Status.{fail_with}
use authorino_operator.Reconcilers.Report.{fail_with-Reports}
use authorino_operator.Reconcilers.Resource.{is_object_tagged_to_delete}
use authorino_operator.Reconcilers.Components.{
  deployment_failure, deployment_result, leader_election_role_result, reconcile_deployment,
  reconcile_each_service, reconcile_owned_deployment, reconcile_owned_role,
  reconcile_owned_service_account, reconcile_service, service_account_result, service_result,
}
use authorino_operator.Reconcilers.Permissions.{
  cluster_role_status, reconcile_binding, reconcile_cluster_role_binding, reconcile_owned_binding,
  reconcile_role_binding,
}
use authorino_operator.Reconcilers.Safety.{
  cluster_role_status-Issues, deployment_result-Issues, leader_election_role_result-Issues,
  service_account_result-Issues, service_result-Issues,
}
use authorino_operator.Reconcilers.Safety.Parts.{reconcile_each_service-Issues}
use authorino_operator.Reconcilers.Presence.{
  Leaves, Leaves-first, Leaves-unless_first, Leaves-unless_next, Leaves-with_logger, Promises,
  holds, reports-holds, writes-holds,
}
use authorino_operator.Reconcilers.Presence.Resource.{reconcile_resource-Leaves}

module _ {W : Type 0} (r : AuthorinoReconciler W) (promises : Promises r) (ctx : Context)
    (authorino : Authorino) where
  -- the policy of keeping an object that is like this one
  abbrev pub holds_like : Object → Policy W
  holds_like obj = holds r (kind_of obj) (object_key obj)

  fails :
      (reason : String) (e : GoError) (s : State W)
      → (fail_with r authorino reason (some e) s).0 ≢ returned none
  fails reason e s h = cc (h, (fail_with-Reports r authorino reason e s).1)

  pub reconcile_service-Leaves :
      (desired : Object)
      → is_object_tagged_to_delete desired ≡ false
      → Leaves (holds_like desired) (reconcile_service r ctx desired authorino) none
  unfolding reconcile_service service_result
  reconcile_service-Leaves desired untagged = Leaves-with_logger ctx _ (
      reconcile_resource-Leaves r promises ctx desired untagged _ (λ obj e. fails _ _)
        (λ obj e. fails _ _)
        (service_result-Issues r ctx (reports-holds r promises _ _ authorino) desired))

  pub reconcile_owned_service_account-Leaves :
      (owned : Err × Object)
      → is_object_tagged_to_delete owned.1 ≡ false
      → Leaves (holds_like owned.1) (reconcile_owned_service_account r ctx authorino owned) none
  unfolding service_account_result pure
  reconcile_owned_service_account-Leaves (some e, sa) untagged = record { at = λ s h. cc h }
  reconcile_owned_service_account-Leaves (none, sa) untagged =
      reconcile_resource-Leaves r promises ctx sa untagged _ (λ obj e. fails _ _)
        (λ obj e. fails _ _)
        (service_account_result-Issues r ctx (reports-holds r promises _ _ authorino) sa)

  pub reconcile_owned_role-Leaves :
      (owned : Err × Object)
      → is_object_tagged_to_delete owned.1 ≡ false
      → Leaves (holds_like owned.1) (reconcile_owned_role r ctx authorino owned) none
  unfolding leader_election_role_result pure
  reconcile_owned_role-Leaves (some e, desired) untagged = record { at = λ s h. cc h }
  reconcile_owned_role-Leaves (none, desired) untagged =
      reconcile_resource-Leaves r promises ctx desired untagged _ (λ obj e. fails _ _)
        (λ obj e. fails _ _)
        (leader_election_role_result-Issues r ctx (reports-holds r promises _ _ authorino) desired)

  pub reconcile_binding-Leaves :
      (desired : Object)
      → is_object_tagged_to_delete desired ≡ false
      → Leaves (holds_like desired) (reconcile_binding r ctx desired authorino) none
  unfolding reconcile_binding cluster_role_status
  reconcile_binding-Leaves desired untagged =
      reconcile_resource-Leaves r promises ctx desired untagged _ (λ obj e. fails _ _)
        (λ obj e. fails _ _)
        (λ result. cluster_role_status-Issues r ctx (reports-holds r promises _ _ authorino) _ _ _)

  pub reconcile_cluster_role_binding-Leaves :
      (desired : Object)
      → is_object_tagged_to_delete desired ≡ false
      → Leaves (holds_like desired) (reconcile_cluster_role_binding r ctx desired authorino) none
  unfolding reconcile_cluster_role_binding
  reconcile_cluster_role_binding-Leaves desired untagged =
      Leaves-with_logger ctx _ (reconcile_binding-Leaves desired untagged)

  reconcile_owned_binding-Leaves :
      (owned : Err × Object)
      → is_object_tagged_to_delete owned.1 ≡ false
      → Leaves (holds_like owned.1) (reconcile_owned_binding r ctx authorino owned) none
  unfolding pure
  reconcile_owned_binding-Leaves (some e, desired) untagged = record { at = λ s h. cc h }
  reconcile_owned_binding-Leaves (none, desired) untagged =
      reconcile_binding-Leaves desired untagged

  pub reconcile_role_binding-Leaves :
      (desired : Object)
      → is_object_tagged_to_delete (controlled r authorino desired).1 ≡ false
      → Leaves
          (holds_like (controlled r authorino desired).1)
          (reconcile_role_binding r ctx desired authorino)
          none
  unfolding reconcile_role_binding
  reconcile_role_binding-Leaves desired untagged =
      Leaves-with_logger ctx _ (reconcile_owned_binding-Leaves _ untagged)

  reconcile_deployment-Leaves :
      (desired : Object)
      → is_object_tagged_to_delete desired ≡ false
      → Leaves (holds_like desired) (reconcile_deployment r ctx desired authorino) none
  unfolding reconcile_deployment deployment_result
  reconcile_deployment-Leaves desired untagged =
      reconcile_resource-Leaves r promises ctx desired untagged _ (λ obj e. fails _ _)
        (λ obj e. fails _ _)
        (deployment_result-Issues r ctx (reports-holds r promises _ _ authorino) desired)

  pub reconcile_owned_deployment-Leaves :
      (owned : Err × Object)
      → is_object_tagged_to_delete owned.1 ≡ false
      → Leaves (holds_like owned.1) (reconcile_owned_deployment r ctx authorino owned) none
  unfolding pure
  reconcile_owned_deployment-Leaves (some e, desired) untagged = record {
    at = λ s h. absurd (fails _ _ s h);
  }
  reconcile_owned_deployment-Leaves (none, desired) untagged =
      Leaves-first _ _ none none (reconcile_deployment-Leaves desired untagged) passed
        (Issues-pure _)
    where
      passed :
          (err : Err) (s : State W)
          → (pure (deployment_failure r ctx authorino err) s).0 ≡ returned none
          → err ≡ none
      passed none s h = refl
      passed (some e) s h = cc h

  -- each of the services
  pub reconcile_each_service-Leaves :
      (services : List Object) (desired : Object)
      → All (λ obj. is_object_tagged_to_delete (controlled r authorino obj).1 ≡ false) services
      → IsIn desired services
      → Leaves
          (holds_like (controlled r authorino desired).1)
          (reconcile_each_service r ctx authorino services)
          none
  unfolding reconcile_each_service
  reconcile_each_service-Leaves [] desired untagged member = absurd member
  reconcile_each_service-Leaves (first ∷ rest) desired (here, later) (inl e) =
      subst
        (λ d.
          Leaves (holds_like (controlled r authorino d).1)
            (reconcile_each_service r ctx authorino (first ∷ rest)) none)
        (sym e)
        (Leaves-unless_first _ _ (reconcile_service-Leaves _ here) (
          reconcile_each_service-Issues r ctx authorino (reports-holds r promises _ _ authorino)
            rest (All-mono _ _ (λ obj u. writes-holds r promises _ _ _ u) rest later)))
  reconcile_each_service-Leaves (first ∷ rest) desired (here, later) (inr e) =
      Leaves-unless_next _ _ (reconcile_each_service-Leaves rest desired later e)
