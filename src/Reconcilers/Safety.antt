-- ===== src/Reconcilers/Safety.antt =====
-- Which calls the parts of the reconciler make: a rule for each, over a predicate on calls that
-- allows reads and status reports of the instance.
pub mod Parts
pub mod Writing
use authorino_operator.Prelude.{◌≡◌, refl, String, Option, none, some}
use authorino_operator.Kube.{Kind, Object, ObjectKey, Deployment}
use authorino_operator.Api.{Authorino, Condition}
use authorino_operator.Reconcilers.Action.{
  Answer, found, failed, AuthorinoReconciler, Call, Context, Err, M, StatusPatch, ◌>>=◌,
}
use authorino_operator.Reconcilers.Action.Keeps.{
  Allows, Issues, Policy, Ticks, Allows-making, Ticks-making, making, issue_rules, Issues-pure,
  Issues-bind, Issues-with_logger,
}
use authorino_operator.Reconcilers.Status.{
  fail_with, set_status_failed, update_status_conditions, wrap_error_with_status_update,
}
use authorino_operator.Reconcilers.Resource.{Crud, Reconciled, reconcile_resource}
use authorino_operator.Reconcilers.Resource.Laws.{AllowsWrites, reconcile_resource-Issues}
use authorino_operator.Reconcilers.Components.{
  deployment_result, reconcile_deployment, reconcile_service, report_availability,
  service_account_result, service_result, leader_election_role_result, as_deployment,
  reconcile_owned_deployment, reconcile_owned_role, reconcile_owned_service_account,
}
use authorino_operator.Reconcilers.Permissions.{
  check_cluster_role_exists, cluster_role_answer, cluster_role_status, reconcile_binding,
  reconcile_owned_binding,
}

-- `P` allows to read any object, to look at the clock, and to report on one instance.
pub record AllowsReports {W : Type 0} (r : AuthorinoReconciler W) (authorino : Authorino)
    (P : Policy W) : Type 0 where
  pub reads : (kind : Kind) (key : ObjectKey) → Allows P (Call.get kind key) (r.get kind key)
  pub clocks : Ticks P r.now
  pub reports :
      (patch : StatusPatch)
      → patch.name ≡ authorino.meta.name
      → patch.namespace ≡ authorino.meta.namespace
      → Allows P (Call.patch_status patch) (r.patch_status patch)

-- the same, for a policy of calls
pub AllowsReports-making :
    {W : Type 0} (r : AuthorinoReconciler W) {allows : Call → Type 0} {may_panic : Type 0}
    (authorino : Authorino)
    → ((kind : Kind) (key : ObjectKey) → allows (Call.get kind key))
    → ((patch : StatusPatch)
        → patch.name ≡ authorino.meta.name
        → patch.namespace ≡ authorino.meta.namespace
        → allows (Call.patch_status patch))
    → AllowsReports r authorino (making allows may_panic)
AllowsReports-making r authorino reads reports = record {
  reads = λ kind key. Allows-making _ _ (reads kind key);
  clocks = Ticks-making r.now;
  reports = λ patch n ns. Allows-making _ _ (reports patch n ns);
}

module _ {W : Type 0} (r : AuthorinoReconciler W) {authorino : Authorino} {P : Policy W}
    (allowed : AllowsReports r authorino P) where
  update_status_conditions-Issues :
      (new : Condition) → Issues P (update_status_conditions r authorino new)
  unfolding update_status_conditions
  update_status_conditions-Issues new = search (issue_rules, allowed.clocks, allowed.reports)

  pub fail_with-Issues : (reason : String) (err : Err) → Issues P (fail_with r authorino reason err)
  unfolding fail_with wrap_error_with_status_update set_status_failed
  fail_with-Issues reason none = Issues-pure none
  fail_with-Issues reason (some e) = search (issue_rules, update_status_conditions-Issues)

module _ {W : Type 0} (r : AuthorinoReconciler W) (ctx : Context) {authorino : Authorino}
    {P : Policy W} (allowed : AllowsReports r authorino P) where
  pub service_result-Issues :
      (desired : Object) (result : Reconciled)
      → Issues P (service_result r ctx desired authorino result)
  unfolding service_result
  service_result-Issues desired (Crud.read, obj, some e) = fail_with-Issues r allowed _ _
  service_result-Issues desired (Crud.create, obj, some e) = fail_with-Issues r allowed _ _
  service_result-Issues desired (Crud.update, obj, some e) = fail_with-Issues r allowed _ _
  service_result-Issues desired (crud, obj, err) = Issues-pure none

  pub service_account_result-Issues :
      (sa : Object) (result : Reconciled)
      → Issues P (service_account_result r ctx sa authorino result)
  unfolding service_account_result
  service_account_result-Issues sa (crud, obj, none) = Issues-pure none
  service_account_result-Issues sa (Crud.read, obj, some e) = fail_with-Issues r allowed _ _
  service_account_result-Issues sa (crud, obj, some e) = fail_with-Issues r allowed _ _

  pub leader_election_role_result-Issues :
      (desired : Object) (result : Reconciled)
      → Issues P (leader_election_role_result r ctx desired authorino result)
  unfolding leader_election_role_result
  leader_election_role_result-Issues desired (Crud.read, obj, some e) =
      fail_with-Issues r allowed _ _
  leader_election_role_result-Issues desired (Crud.create, obj, some e) =
      fail_with-Issues r allowed _ _
  leader_election_role_result-Issues desired (crud, obj, err) = Issues-pure none

  report_availability-Issues :
      (deployment : Option Deployment) → Issues P (report_availability r ctx authorino deployment)
  unfolding report_availability
  report_availability-Issues none = Issues-pure _
  report_availability-Issues (some deployment) =
      search (issue_rules, update_status_conditions-Issues r allowed)

  pub deployment_result-Issues :
      (desired : Object) (result : Reconciled)
      → Issues P (deployment_result r ctx desired authorino result)
  unfolding deployment_result
  deployment_result-Issues desired (Crud.read, obj, some e) = fail_with-Issues r allowed _ _
  deployment_result-Issues desired (Crud.create, obj, some e) = fail_with-Issues r allowed _ _
  deployment_result-Issues desired (Crud.update, obj, some e) = fail_with-Issues r allowed _ _
  deployment_result-Issues desired (crud, obj, some e) = fail_with-Issues r allowed _ _
  deployment_result-Issues desired (Crud.update, obj, none) =
      update_status_conditions-Issues r allowed _
  deployment_result-Issues desired (crud, obj, none) =
      report_availability-Issues (as_deployment obj)

  reconcile_resource-then-Issues :
      {desired : Object} (k : Reconciled → M W Err)
      → AllowsWrites r desired P
      → ((result : Reconciled) → Issues P (k result))
      → Issues P (reconcile_resource r ctx desired >>= k)
  reconcile_resource-then-Issues k writes rest =
      Issues-bind _ k (reconcile_resource-Issues r ctx writes (allowed.reads _ _)) rest

  reconcile_deployment-Issues :
      (desired : Object)
      → AllowsWrites r desired P
      → Issues P (reconcile_deployment r ctx desired authorino)
  unfolding reconcile_deployment
  reconcile_deployment-Issues desired writes =
      reconcile_resource-then-Issues _ writes (deployment_result-Issues desired)

  pub reconcile_service-Issues :
      (desired : Object)
      → AllowsWrites r desired P
      → Issues P (reconcile_service r ctx desired authorino)
  unfolding reconcile_service
  reconcile_service-Issues desired writes =
      Issues-with_logger ctx _
        (reconcile_resource-then-Issues _ writes (service_result-Issues desired))

  pub reconcile_owned_service_account-Issues :
      (owned : Err × Object)
      → (owned.0 ≡ none → AllowsWrites r owned.1 P)
      → Issues P (reconcile_owned_service_account r ctx authorino owned)
  reconcile_owned_service_account-Issues (some e, sa) writes = Issues-pure _
  reconcile_owned_service_account-Issues (none, sa) writes =
      reconcile_resource-then-Issues _ (writes refl) (service_account_result-Issues sa)

  pub reconcile_owned_role-Issues :
      (owned : Err × Object)
      → (owned.0 ≡ none → AllowsWrites r owned.1 P)
      → Issues P (reconcile_owned_role r ctx authorino owned)
  reconcile_owned_role-Issues (some e, desired) writes = Issues-pure _
  reconcile_owned_role-Issues (none, desired) writes =
      reconcile_resource-then-Issues _ (writes refl) (leader_election_role_result-Issues desired)

  pub reconcile_owned_deployment-Issues :
      (owned : Err × Object)
      → (owned.0 ≡ none → AllowsWrites r owned.1 P)
      → Issues P (reconcile_owned_deployment r ctx authorino owned)
  reconcile_owned_deployment-Issues (some e, desired) writes = fail_with-Issues r allowed _ _
  reconcile_owned_deployment-Issues (none, desired) writes =
      search (issue_rules, reconcile_deployment-Issues desired (writes refl))

  pub cluster_role_status-Issues :
      (crud : Crud) (name : String) (err : Err)
      → Issues P (cluster_role_status r ctx authorino crud name err)
  unfolding cluster_role_status
  cluster_role_status-Issues Crud.read name (some e) = fail_with-Issues r allowed _ _
  cluster_role_status-Issues Crud.create name (some e) = fail_with-Issues r allowed _ _
  cluster_role_status-Issues Crud.update name (some e) = fail_with-Issues r allowed _ _
  cluster_role_status-Issues crud name err = Issues-pure none

  pub reconcile_binding-Issues :
      (desired : Object)
      → AllowsWrites r desired P
      → Issues P (reconcile_binding r ctx desired authorino)
  unfolding reconcile_binding
  reconcile_binding-Issues desired writes =
      reconcile_resource-then-Issues _ writes (λ result. cluster_role_status-Issues _ _ _)

  pub reconcile_owned_binding-Issues :
      (owned : Err × Object)
      → (owned.0 ≡ none → AllowsWrites r owned.1 P)
      → Issues P (reconcile_owned_binding r ctx authorino owned)
  reconcile_owned_binding-Issues (some e, desired) writes = Issues-pure _
  reconcile_owned_binding-Issues (none, desired) writes =
      reconcile_binding-Issues desired (writes refl)

  cluster_role_answer-Issues :
      (key : ObjectKey) (answer : Answer Object)
      → Issues P (cluster_role_answer r ctx authorino key answer)
  unfolding cluster_role_answer
  cluster_role_answer-Issues key (found obj) = Issues-pure none
  cluster_role_answer-Issues key (failed e) = search (issue_rules, fail_with-Issues r allowed)

  pub check_cluster_role_exists-Issues :
      (key : ObjectKey) → Issues P (check_cluster_role_exists r ctx key authorino)
  unfolding check_cluster_role_exists
  check_cluster_role_exists-Issues key =
      search (issue_rules, allowed.reads, cluster_role_answer-Issues)
