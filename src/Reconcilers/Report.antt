-- ===== src/Reconcilers/Report.antt =====
-- What the status says once a part of the instance is reconciled.
use authorino_operator.Prelude.{
  ◌≡◌, refl, String, Bool, true, false, none, some, List, ◌∷◌, Bool-cases, inl, inr, ◌∙◌, ◌==◌,
}
use authorino_operator.Kube.{Deployment, Object, kind_of, object_key}
use authorino_operator.Api.{Authorino, Condition, condition_ready, ready}
use authorino_operator.Condition.Readiness.{ready-add_or_update}
use authorino_operator.Reconcilers.Outcome.{returned}
use authorino_operator.Reconcilers.Pod.{deployment_available}
use authorino_operator.Reconcilers.Action.{
  AuthorinoReconciler, found, Call, Context, GoError, M, State, StatusPatch, ◌>>=◌,
}
use authorino_operator.Reconcilers.Status.{
  fail_with, set_status_failed, status_not_ready, status_ready, update_status_conditions,
  wrap_error_with_status_update,
}
use authorino_operator.Reconcilers.Resource.{
  is_object_tagged_to_delete, reconcile_answer, reconcile_found, apply_resource, reconcile_resource,
}
use authorino_operator.Reconcilers.Components.{
  deployment_result, reconcile_deployment, report_availability,
}

-- An action ends with a status whose readiness is `b`, after the calls `before`.
abbrev pub Reports : {W A : Type 0} → M W A → State W → List Call → Bool → Type 0
Reports m s before b =
    (patch : StatusPatch) × ((m s).1.calls ≡ Call.patch_status patch ∷ before)
    × (ready patch.status ≡ b)

module _ {W : Type 0} (r : AuthorinoReconciler W) (authorino : Authorino) where
  update_status_conditions-Reports :
      (new : Condition) (s : State W)
      → new.type == condition_ready ≡ true
      → Reports (update_status_conditions r authorino new) s s.calls (new.status == "True")
  unfolding update_status_conditions ◌>>=◌
  update_status_conditions-Reports new s h =
      (_, refl, ready-add_or_update (r.now s.world).0 authorino.status new ∙ rw h)

  -- A failure that is reported leaves a status that is not ready, as its last call, and the error is
  -- returned as it is, even if the status cannot be written.
  pub fail_with-Reports :
      (reason : String) (e : GoError) (s : State W)
      → Reports (fail_with r authorino reason (some e)) s s.calls false
        × ((fail_with r authorino reason (some e) s).0 ≡ returned (some e))
  unfolding fail_with wrap_error_with_status_update set_status_failed status_not_ready
      update_status_conditions ◌>>=◌
  fail_with-Reports reason e s =
      (update_status_conditions-Reports (status_not_ready reason e.text) s refl, refl)

  report_availability-Reports :
      (deployment : Deployment) (ctx : Context) (s : State W)
      → Reports
          (report_availability r ctx authorino (some deployment))
          s
          s.calls
          (deployment_available deployment)
  unfolding report_availability status_ready status_not_ready
  report_availability-Reports deployment ctx s =
      elim (Bool-cases (deployment_available deployment)) [
        | inl available ↦ rw available (update_status_conditions-Reports status_ready s refl)
        | inr unavailable ↦ rw unavailable (update_status_conditions-Reports _ s refl)
      ]

  -- If the context has a logger, the wanted deployment has no deletion tag, one is found and the
  -- wanted one is applied without an error, then the last call
  -- writes a status, behind the read and the apply alone, and the status is ready exactly if the
  -- deployment that was found has the condition "Available" at "True".
  pub reconcile_deployment-Reports :
      (ctx : Context) (desired : Object) (deployment : Deployment) (s : State W)
      → ctx.has_logger ≡ true
      → is_object_tagged_to_delete desired ≡ false
      → (r.get (kind_of desired) (object_key desired) s.world).0
        ≡ found (Object.deployment deployment)
      → (r.apply desired (r.get (kind_of desired) (object_key desired) s.world).1).0 ≡ none
      → Reports
          (reconcile_deployment r ctx desired authorino)
          s
          (Call.apply desired ∷ Call.get (kind_of desired) (object_key desired) ∷ s.calls)
          (deployment_available deployment)
  unfolding reconcile_deployment reconcile_resource reconcile_answer reconcile_found apply_resource
      deployment_result ◌>>=◌
  reconcile_deployment-Reports ctx desired deployment s logger untagged read applied =
      rw (read, untagged, logger, applied) (report_availability-Reports deployment _ _)
