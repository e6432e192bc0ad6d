-- ===== src/Reconcilers/Resource.antt =====
-- `reconcileResource` of pkg/reconcilers/authorino_reconciler.go and the client calls that it makes,
-- with the deletion tag of pkg/reconcilers/deployment.go.
pub mod Laws
pub mod Convergence
pub mod Course
use authorino_operator.Prelude.{String, Bool, true, false, Option, none, some, ◌==◌, if◌then◌else◌}
use authorino_operator.Kube.{Object, kind_of, meta_of, object_key, with_meta, lookup, entries}
use authorino_operator.Resources.Maps.{set_key}
use authorino_operator.Reconcilers.Consts.{delete_tag_annotation}
use authorino_operator.Reconcilers.Action.{
  Answer, found, failed, AuthorinoReconciler, Call, Context, Err, M, Preconditions, pure, perform,
  with_logger, ◌>>=◌,
}

abbrev is_text : Option String → String → Bool
is_text none t = false
is_text (some s) t = s == t

unfoldable pub is_object_tagged_to_delete : Object → Bool
is_object_tagged_to_delete obj =
    is_text (lookup delete_tag_annotation (entries (meta_of obj).annotations)) "true"

unfoldable pub tag_object_to_delete : Object → Object
tag_object_to_delete obj = with_meta obj (record (meta_of obj) {
  annotations = some (set_key delete_tag_annotation "true" (entries (meta_of obj).annotations));
})

-- The texts "read", "create", "delete", "update" and "" that `reconcileResource` returns.
pub data Crud : Type 0 where
  read create delete update unchanged : Crud

-- what was done, the object, and the error
abbrev pub Reconciled : Type 0
Reconciled = Crud × Option Object × Err

module _ {W : Type 0} (r : AuthorinoReconciler W) (ctx : Context) where
  unfoldable pub create_resource : Object → M W Err
  create_resource obj = with_logger ctx (perform (Call.create obj) (r.create obj))

  -- no other function calls it
  unfoldable pub update_resource : Object → M W Err
  update_resource obj = with_logger ctx (perform (Call.update_object obj) (r.update_object obj))

  unfoldable pub apply_resource : Object → M W Err
  apply_resource obj = with_logger ctx (perform (Call.apply obj) (r.apply obj))

  unfoldable pub delete_resource : Object → Option Preconditions → M W Err
  delete_resource obj options =
      with_logger ctx (perform (Call.delete obj options) (r.delete obj options))

  abbrev pub created : Object → Err → Reconciled
  created desired none = (Crud.create, some desired, none)
  created desired (some e) = (Crud.create, none, some e)

  abbrev pub applied : Object → Object → Err → Reconciled
  applied obj desired none = (Crud.unchanged, some obj, none)
  applied obj desired (some e) = (Crud.update, some desired, some e)

  -- the branch where the object is missing
  unfoldable pub reconcile_missing : Object → M W Reconciled
  reconcile_missing desired =
      if is_object_tagged_to_delete desired
      then pure (Crud.read, none, none)
      else (create_resource desired >>= λ err. pure (created desired err))

  -- the branch where the object exists
  unfoldable pub reconcile_found : Object → Object → M W Reconciled
  reconcile_found obj desired =
      if is_object_tagged_to_delete desired
      then (delete_resource desired none >>= λ err. pure (Crud.delete, some desired, err))
      else (apply_resource desired >>= λ err. pure (applied obj desired err))

  unfoldable pub reconcile_answer : Object → Answer Object → M W Reconciled
  reconcile_answer desired (found obj) = reconcile_found obj desired
  reconcile_answer desired (failed e) =
      if e.not_found then reconcile_missing desired else pure (Crud.read, none, some e)

  -- The empty object that the callers pass has the type of the desired one.
  unfoldable pub reconcile_resource : Object → M W Reconciled
  reconcile_resource desired = do
    answer ←
        perform (Call.get (kind_of desired) (object_key desired))
          (r.get (kind_of desired) (object_key desired))
    reconcile_answer desired answer
