-- ===== src/Reconcilers/Status.antt =====
-- pkg/reconcilers/status.go: the status of the custom resource.
use authorino_operator.Prelude.{String, none, some, [], ◌∷◌}
use authorino_operator.Api.{Authorino, Condition, condition_ready}
use authorino_operator.Condition.{add_or_update_status_conditions}
use authorino_operator.Reconcilers.Consts.{status_provisioned}
use authorino_operator.Reconcilers.Action.{
  Err, M, Call, StatusPatch, AuthorinoReconciler, pure, perform, read_clock, ◌>>=◌,
}

-- `LastTransitionTime` is the zero time until the condition is put into the list.
unfoldable pub status_ready : Condition
status_ready = record {
  type = condition_ready;
  status = "True";
  last_transition_time = 0;
  reason = status_provisioned;
  message = "";
  last_updated_time = none;
}

unfoldable pub status_not_ready : String → String → Condition
status_not_ready reason message = record {
  type = condition_ready;
  status = "False";
  last_transition_time = 0;
  reason = reason;
  message = message;
  last_updated_time = none;
}

module _ {W : Type 0} (r : AuthorinoReconciler W) where
  -- The conditions start from those that the CR had when it was read.
  unfoldable pub update_status_conditions : Authorino → Condition → M W Err
  update_status_conditions authorino new = do
    now ← read_clock r.now
    let updated = add_or_update_status_conditions authorino.status.conditions ((now, new) ∷ [])
    let patch : StatusPatch = record {
      type_meta = record {
        api_version = "operator.authorino.kuadrant.io/v1beta1";
        kind = "Authorino";
      };
      name = authorino.meta.name;
      namespace = authorino.meta.namespace;
      status = record { conditions = updated.0 };
    }
    perform (Call.patch_status patch) (r.patch_status patch)

  -- `statusUpdater`: the function that `SetStatusFailed` returns
  unfoldable pub set_status_failed : String → Authorino → String → M W Err
  set_status_failed reason authorino message =
      update_status_conditions authorino (status_not_ready reason message)

  -- The error of the update is logged only; the wrapped error is returned.
  unfoldable pub wrap_error_with_status_update :
      Authorino → (Authorino → String → M W Err) → Err → M W Err
  wrap_error_with_status_update authorino update_status none = pure none
  wrap_error_with_status_update authorino update_status (some e) = do
    _ ← update_status authorino e.text
    pure (some e)

  -- the two together, as they are used everywhere
  unfoldable pub fail_with : Authorino → String → Err → M W Err
  fail_with authorino reason err =
      wrap_error_with_status_update authorino (set_status_failed reason) err
