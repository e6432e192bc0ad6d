-- ===== src/Reconcilers/Errors.antt =====
-- Which errors of `reconcileResource` end the reconciliation of an instance, and which are dropped.
use authorino_operator.Prelude.{◌≡◌, refl, String, Bool, true, false, ◌&&◌, Option, none, some}
use authorino_operator.Kube.{Object, meta_of}
use authorino_operator.Api.{Authorino}
use authorino_operator.Reconcilers.Outcome.{returned}
use authorino_operator.Reconcilers.Action.{
  AuthorinoReconciler, Context, Err, GoError, M, State, pure,
}
use authorino_operator.Reconcilers.Status.{fail_with}
use authorino_operator.Reconcilers.Resource.{Crud, Reconciled}
use authorino_operator.Reconcilers.Components.{
  leader_election_role_result, service_account_result, service_result,
}
use authorino_operator.Reconcilers.Permissions.{cluster_role_status}
use authorino_operator.Reconcilers.Report.{Reports, fail_with-Reports}

-- the parts of an instance that have one object, but the deployment
pub data Part : Type 0 where
  service service_account leader_election_role binding : Part

-- The table of the errors that are reported, by what was done with the object.
abbrev pub is_reported : Part → Crud → Bool
is_reported Part.service_account crud = true
is_reported part Crud.read = true
is_reported part Crud.create = true
is_reported Part.leader_election_role crud = false
is_reported part Crud.update = true
is_reported part crud = false

abbrev pub is_error : Err → Bool
is_error none = false
is_error (some e) = true

-- A reported error leaves a status that is not ready, as the last call, and is returned wrapped;
-- another changes nothing and is not returned.
abbrev pub Answers : {W : Type 0} → Bool → M W Err → State W → Type 0
Answers true m s = Reports m s s.calls false × ((e : GoError) × ((m s).0 ≡ returned (some e)))
Answers false m s = m s ≡ (returned none, s)

module _ {W : Type 0} (r : AuthorinoReconciler W) (ctx : Context) (authorino : Authorino)
    (desired : Object) where
  -- what follows the reconciliation of the object
  abbrev pub result_of : Part → Reconciled → M W Err
  result_of Part.service result = service_result r ctx desired authorino result
  result_of Part.service_account result = service_account_result r ctx desired authorino result
  result_of Part.leader_election_role result =
      leader_election_role_result r ctx desired authorino result
  result_of Part.binding (crud, obj, err) =
      cluster_role_status r ctx authorino crud (meta_of desired).name err

  reported :
      (reason : String) (e : GoError) (s : State W)
      → Answers true (fail_with r authorino reason (some e)) s
  reported reason e s =
      let (status, same) = fail_with-Reports r authorino reason e s in (status, (e, same))

  -- What follows the reconciliation of a service, a service account, the role of the leader election
  -- or a binding answers an error as the table says, for each thing that was done with the object:
  -- the errors of a service account are all reported, of the others those of the read and the
  -- creation, and those of the update but of the role, for which they are dropped.
  pub result_of-Answers :
      (part : Part) (crud : Crud) (obj : Option Object) (err : Err) (s : State W)
      → Answers (is_reported part crud && is_error err) (result_of part (crud, obj, err)) s
  unfolding service_result service_account_result leader_election_role_result cluster_role_status
      pure
  result_of-Answers Part.service Crud.read obj (some e) s = reported _ _ s
  result_of-Answers Part.service Crud.create obj (some e) s = reported _ _ s
  result_of-Answers Part.service Crud.update obj (some e) s = reported _ _ s
  result_of-Answers Part.service_account Crud.read obj (some e) s = reported _ _ s
  result_of-Answers Part.service_account Crud.create obj (some e) s = reported _ _ s
  result_of-Answers Part.service_account Crud.update obj (some e) s = reported _ _ s
  result_of-Answers Part.service_account Crud.delete obj (some e) s = reported _ _ s
  result_of-Answers Part.service_account Crud.unchanged obj (some e) s = reported _ _ s
  result_of-Answers Part.leader_election_role Crud.read obj (some e) s = reported _ _ s
  result_of-Answers Part.leader_election_role Crud.create obj (some e) s = reported _ _ s
  result_of-Answers Part.binding Crud.read obj (some e) s = reported _ _ s
  result_of-Answers Part.binding Crud.create obj (some e) s = reported _ _ s
  result_of-Answers Part.binding Crud.update obj (some e) s = reported _ _ s
  result_of-Answers part crud obj err s = refl
