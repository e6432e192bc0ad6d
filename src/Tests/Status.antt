-- ===== src/Tests/Status.antt =====
-- The status of the custom resource: conditions and reports.
use authorino_operator.Prelude.{◌≡◌, refl, false, ◌==◌, some, none, List, [], ◌∷◌, if◌then◌else◌}
use authorino_operator.Kube.{Deployment, Object, kind_of, lookup, object_key}
use authorino_operator.Api.{Condition, condition_ready, ready}
use authorino_operator.Condition.{add_or_update_status_condition, add_or_update_status_conditions}
use authorino_operator.Condition.Laws.{
  content_changes, find, find-add_or_update, merged, updated_list, was_updated,
}
use authorino_operator.Condition.Invariant.{
  HasUniqueTypes, HasUniqueTypes-add_or_update_all, add_or_update_idempotent,
}
use authorino_operator.Condition.Readiness.{ready-add_or_update}
use authorino_operator.Reconcilers.Outcome.{returned}
use authorino_operator.Reconcilers.Action.{Call}
use authorino_operator.Reconcilers.Status.{fail_with, status_not_ready, status_ready}
use authorino_operator.Reconcilers.Pod.{deployment_available}
use authorino_operator.Reconcilers.Components.{reconcile_deployment}
use authorino_operator.Reconcilers.Report.{Reports, fail_with-Reports, reconcile_deployment-Reports}
use authorino_operator.Reconcilers.Resource.{is_object_tagged_to_delete}
use authorino_operator.Resources.Deployments.{get_deployment}
use authorino_operator.Tests.Fixtures.{cluster, cluster_with, cr, ctx, not_found, start}

-- a list with one condition
abbrev conditions : List Condition
conditions = record (status_not_ready "Updated" "updated") { last_transition_time = 3 } ∷ []

find-add_or_update_example :
    (find "Ready" (updated_list 7 conditions status_ready) ≡ (
      if status_ready.type == "Ready"
      then some (merged 7 (find status_ready.type conditions) status_ready)
      else find "Ready" conditions))
    × (was_updated 7 conditions status_ready
        ≡ content_changes (find status_ready.type conditions) status_ready)
find-add_or_update_example = find-add_or_update 7 conditions status_ready "Ready"

HasUniqueTypes-add_or_update_all_example :
    HasUniqueTypes (add_or_update_status_conditions conditions ((7, status_ready) ∷ [])).0
unfolding find
HasUniqueTypes-add_or_update_all_example =
    HasUniqueTypes-add_or_update_all conditions ((7, status_ready) ∷ []) (refl, tt)

add_or_update_idempotent_example :
    add_or_update_status_condition 9 (updated_list 7 conditions status_ready) status_ready
    ≡ (updated_list 7 conditions status_ready, false)
add_or_update_idempotent_example = add_or_update_idempotent 7 9 conditions status_ready

ready-add_or_update_example :
    ready (record {
      conditions = (add_or_update_status_conditions conditions ((7, status_ready) ∷ [])).0;
    })
    ≡ (if status_ready.type == condition_ready
        then status_ready.status == "True"
        else ready (record { conditions = conditions }))
ready-add_or_update_example =
    ready-add_or_update 7 (record { conditions = conditions }) status_ready

fail_with-Reports_example :
    Reports (fail_with cluster cr "Failed" (some not_found)) start [] false
    × ((fail_with cluster cr "Failed" (some not_found) start).0 ≡ returned (some not_found))
fail_with-Reports_example = fail_with-Reports cluster cr "Failed" not_found start

abbrev deployment : Deployment
deployment = record (get_deployment "auth" "apps" "auth-authorino" none [] [] none) {
  conditions = record { type = "Available"; status = "True" } ∷ [];
}

abbrev obj : Object
obj = Object.deployment deployment

reconcile_deployment-Reports_example :
    Reports
      (reconcile_deployment (cluster_with obj) ctx obj cr)
      start
      (Call.apply obj ∷ Call.get (kind_of obj) (object_key obj) ∷ [])
      (deployment_available deployment)
unfolding is_object_tagged_to_delete get_deployment lookup
reconcile_deployment-Reports_example =
    reconcile_deployment-Reports (cluster_with obj) cr ctx obj deployment start refl refl refl refl
