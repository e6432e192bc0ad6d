-- ===== src/Controller/Gate.antt =====
-- What stands before the deployment of an instance: the cluster role of the manager.
use authorino_operator.Prelude.{
  ◌≡◌, refl, Bool, true, false, none, some, All, Bool-cases, inl, inr, if◌then◌else◌,
}
use authorino_operator.Kube.{Kind, Object, ObjectKey}
use authorino_operator.Api.{Authorino}
use authorino_operator.Reconcilers.Consts.{authorino_manager_cluster_role_name}
use authorino_operator.Reconcilers.Outcome.{returned}
use authorino_operator.Reconcilers.Action.{
  failed, AuthorinoReconciler, Call, Context, Err, GoError, M, State, perform, pure, unless, ◌>>=◌,
}
use authorino_operator.Reconcilers.Action.Keeps.{
  Issues, Policy, making, issue_rules, Issues-bind, Issues-bind-returned, Issues-pure,
}
use authorino_operator.Reconcilers.Resource.Laws.{AllowsWrites, AllowsWrites-making}
use authorino_operator.Reconcilers.Components.{
  desired_services, reconcile_authorino_service_account, reconcile_authorino_services,
}
use authorino_operator.Reconcilers.Permissions.{
  check_cluster_role_exists, cluster_role_answer, cluster_role_key, reconcile_authorino_permissions,
  reconcile_manager_cluster_role_binding,
}
use authorino_operator.Reconcilers.Report.{fail_with-Reports}
use authorino_operator.Reconcilers.Safety.{
  AllowsReports, AllowsReports-making, check_cluster_role_exists-Issues,
}
use authorino_operator.Reconcilers.Safety.Parts.{
  reconcile_authorino_service_account-Issues, reconcile_authorino_services-Issues,
}
use authorino_operator.Controller.Preflight.{Servers, installation_preflight_check}
use authorino_operator.Controller.{Result, install, reconcile_parts, requeue_on}
use authorino_operator.Controller.Keeps.{Issues-unless_err, check_servers-Issues}

-- The action returns an error from every state.
abbrev Stops : {W : Type 0} → M W Err → Type 0
Stops {W} m = (s : State W) → (e : GoError) × ((m s).0 ≡ returned (some e))

module _ {W : Type 0} where
  Stops-unless : (m : M W Err) (rest : M W Err) → Stops m → Stops (m >>= λ err. unless err rest)
  unfolding ◌>>=◌ pure
  Stops-unless m rest stops s = let (e, is) = stops s in (e, rw is refl)

  Stops-if :
      (b : Bool) (m : M W Err) (e : GoError) → Stops m → Stops (if b then m else pure (some e))
  unfolding pure
  Stops-if true m e stops s = stops s
  Stops-if false m e stops s = (e, refl)

module _ {W : Type 0} {P : Policy W} where
  -- what follows only sees errors
  Issues-Stops :
      {B : Type 0} (m : M W Err) (f : Err → M W B)
      → Stops m
      → Issues P m
      → ((e : GoError) → Issues P (f (some e)))
      → Issues P (m >>= f)
  Issues-Stops m f stops hm hf = Issues-bind-returned m f hm error
    where
      error : (s : State W) (err : Err) → (m s).0 ≡ returned err → Issues P (f err)
      error s (some e) h = hf e
      error s none h = let (e, is) = stops s in cc (is, h)

-- neither creates nor applies a deployment
abbrev pub LeavesDeployment : Call → Type 0
LeavesDeployment (Call.create (Object.deployment d)) = ⊥
LeavesDeployment (Call.apply (Object.deployment d)) = ⊥
LeavesDeployment (Call.update_object (Object.deployment d)) = ⊥
LeavesDeployment _ = Unit

abbrev gated : {W : Type 0} → Policy W
gated = making LeavesDeployment ⊥

module _ {W : Type 0} (r : AuthorinoReconciler W) where
  gated_reports : (authorino : Authorino) → AllowsReports r authorino gated
  gated_reports authorino = AllowsReports-making r authorino (λ kind key. tt) (λ patch n ns. tt)

  -- an object that is no deployment
  gated_writes :
      (obj : Object)
      → LeavesDeployment (Call.create obj)
      → LeavesDeployment (Call.apply obj)
      → AllowsWrites r obj gated
  gated_writes obj creates applies =
      AllowsWrites-making r obj (λ u. creates) (λ u. applies) (λ t. tt)

module _ {W : Type 0} (r : AuthorinoReconciler W) (ctx : Context) (authorino : Authorino)
    (missing : (w : W)
      → (e : GoError) × ((r.get Kind.cluster_role
            (cluster_role_key authorino_manager_cluster_role_name)
            w).0
          ≡ failed e)) where
  cluster_role_answer-Stops :
      (key : ObjectKey) (e : GoError) → Stops (cluster_role_answer r ctx authorino key (failed e))
  unfolding cluster_role_answer
  cluster_role_answer-Stops key e s = elim (Bool-cases e.not_found) [
    | inl absent ↦ rw absent (_, (fail_with-Reports r authorino _ _ s).1)
    | inr broken ↦ rw broken (_, (fail_with-Reports r authorino _ _ s).1)
  ]

  answered-Stops : Stops (
      perform
        (Call.get Kind.cluster_role (cluster_role_key authorino_manager_cluster_role_name))
        (r.get Kind.cluster_role (cluster_role_key authorino_manager_cluster_role_name))
      >>= λ answer.
          cluster_role_answer r ctx authorino
            (cluster_role_key authorino_manager_cluster_role_name)
            answer)
  unfolding perform ◌>>=◌
  answered-Stops s =
      let (e, is) = missing s.world in
      rw is (cluster_role_answer-Stops (cluster_role_key authorino_manager_cluster_role_name) e _)

  check-Stops : Stops (
      check_cluster_role_exists r ctx
        (cluster_role_key authorino_manager_cluster_role_name)
        authorino)
  unfolding check_cluster_role_exists
  check-Stops = Stops-if ctx.has_logger _ _ answered-Stops

  manager-Stops : Stops (reconcile_manager_cluster_role_binding r ctx authorino)
  unfolding reconcile_manager_cluster_role_binding
  manager-Stops = Stops-unless _ _ check-Stops

  permissions-Stops : Stops (reconcile_authorino_permissions r ctx authorino)
  unfolding reconcile_authorino_permissions
  permissions-Stops = Stops-unless _ _ manager-Stops

  manager-Issues : Issues gated (reconcile_manager_cluster_role_binding r ctx authorino)
  unfolding reconcile_manager_cluster_role_binding
  manager-Issues =
      Issues-Stops _ _ check-Stops
        (check_cluster_role_exists-Issues r ctx (gated_reports r authorino) _) (λ e. Issues-pure _)

  permissions-Issues : Issues gated (reconcile_authorino_permissions r ctx authorino)
  unfolding reconcile_authorino_permissions
  permissions-Issues = Issues-Stops _ _ manager-Stops manager-Issues (λ e. Issues-pure _)

  permissions-then :
      (f : Err → M W Result)
      → ((e : GoError) → Issues gated (f (some e)))
      → Issues gated (reconcile_authorino_permissions r ctx authorino >>= f)
  permissions-then f = Issues-Stops _ f permissions-Stops permissions-Issues

  services-Issues : Issues gated (reconcile_authorino_services r ctx authorino)
  unfolding desired_services
  services-Issues =
      reconcile_authorino_services-Issues r ctx authorino (gated_reports r authorino)
        (gated_writes r _ tt tt, (gated_writes r _ tt tt, (gated_writes r _ tt tt, tt)))

  service_account-Issues : Issues gated (reconcile_authorino_service_account r ctx authorino)
  service_account-Issues =
      reconcile_authorino_service_account-Issues r ctx authorino (gated_reports r authorino)
        (λ owned. gated_writes r _ tt tt)

  parts-Issues : Issues gated (reconcile_parts r ctx authorino)
  unfolding reconcile_parts
  parts-Issues =
      search
        (issue_rules, Issues-unless_err, services-Issues, service_account-Issues, permissions-then)
        depth 12

  install-gated : (servers : Servers) → Issues gated (install r ctx servers authorino)
  unfolding install installation_preflight_check
  install-gated servers =
      Issues-bind _ _ (check_servers-Issues r ctx authorino (gated_reports r authorino) _)
        (λ err. requeued err)
    where
      requeued : (err : Err) → Issues gated (requeue_on r err (reconcile_parts r ctx authorino))
      requeued none = parts-Issues
      requeued (some e) = Issues-pure _

  -- As long as the server does not find the cluster role of the manager, or cannot say, the
  -- installation of an instance neither creates nor applies a deployment, whatever else the server
  -- answers, if no call before does.
  pub calls-install_gated :
      (servers : Servers) (s : State W)
      → All LeavesDeployment s.calls
      → All LeavesDeployment (install r ctx servers authorino s).1.calls
  calls-install_gated servers s h = ((install-gated servers).at s).0 h
