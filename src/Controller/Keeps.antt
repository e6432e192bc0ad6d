-- ===== src/Controller/Keeps.antt =====
-- A policy that allows what the parts of an instance need is kept by a whole installation.
use authorino_operator.Prelude.{String, Option, none, some, List, [], ◌∷◌}
use authorino_operator.Kube.{Object, ObjectKey}
use authorino_operator.Api.{Authorino, Tls}
use authorino_operator.Reconcilers.Consts.{
  authorino_k8s_auth_cluster_role_binding_name, authorino_k8s_auth_cluster_role_name,
  authorino_manager_cluster_role_binding_name, authorino_manager_cluster_role_name,
}
use authorino_operator.Reconcilers.Action.{
  Call, Answer, found, failed, AuthorinoReconciler, Context, Err, M, perform, pure, ◌>>=◌,
}
use authorino_operator.Reconcilers.Action.Keeps.{
  Allows, Issues, Policy, Issues-bind, Issues-perform, Issues-pure, Issues-if, Issues-unless,
}
use authorino_operator.Reconcilers.Safety.{AllowsReports, fail_with-Issues}
use authorino_operator.Reconcilers.Safety.Parts.{
  AllowsParts, reconcile_authorino_deployment-Issues, reconcile_authorino_permissions-Issues,
  reconcile_authorino_service_account-Issues, reconcile_authorino_services-Issues,
}
use authorino_operator.Controller.Preflight.{
  Servers, check_secret, check_servers, installation_preflight_check, provided, secret_answer,
}
use authorino_operator.Controller.{
  Result, cleanup_cluster_scoped_permissions, cluster_scoped_binding, finalize, install,
  reconcile_instance, reconcile_parts, register_finalizer, requeue_on, result, unless_err,
}

module _ {W : Type 0} {P : Policy W} where
  pub Issues-unless_err :
      (r : AuthorinoReconciler W) (err : Err) (rest : M W Result)
      → Issues P rest
      → Issues P (unless_err r err rest)
  Issues-unless_err r none rest h = h
  Issues-unless_err r (some e) rest h = Issues-pure _

-- Reconciling the parts of an instance keeps a policy that allows what they need.
pub reconcile_parts-Issues :
    {W : Type 0} (r : AuthorinoReconciler W) (ctx : Context) (authorino : Authorino) {P : Policy W}
    → AllowsParts r ctx authorino P
    → Issues P (reconcile_parts r ctx authorino)
unfolding reconcile_parts
reconcile_parts-Issues {W = W} r ctx authorino {P = P} allowed =
    in_front (reconcile_authorino_services-Issues r ctx authorino allowed.reports allowed.services)
      (in_front
        (reconcile_authorino_service_account-Issues r ctx authorino allowed.reports
          allowed.service_account)
        (in_front
          (reconcile_authorino_permissions-Issues r ctx authorino allowed.reports
            allowed.permissions)
          (Issues-bind _ _
            (reconcile_authorino_deployment-Issues r ctx authorino allowed.reports
              allowed.unbuildable allowed.deployment)
            (λ err. Issues-pure _))))
  where
    in_front :
        {m : M W Err} {rest : M W Result}
        → Issues P m
        → Issues P rest
        → Issues P (m >>= λ err. unless_err r err rest)
    in_front h k = Issues-bind _ _ h (λ err. Issues-unless_err r err _ k)

module _ {W : Type 0} (r : AuthorinoReconciler W) (ctx : Context) (authorino : Authorino) where
  secret_answer-Issues :
      {P : Policy W} (allowed : AllowsReports r authorino P) (server secret : String)
      (answer : Answer Object)
      → Issues P (secret_answer r authorino server secret answer)
  unfolding secret_answer
  secret_answer-Issues allowed server secret (found obj) = Issues-pure none
  secret_answer-Issues allowed server secret (failed e) = fail_with-Issues r allowed _ _

  check_secret-Issues :
      {P : Policy W} (allowed : AllowsReports r authorino P) (server : String)
      (secret : Option String)
      → Issues P (check_secret r authorino server secret)
  unfolding check_secret
  check_secret-Issues allowed server none = fail_with-Issues r allowed _ _
  check_secret-Issues allowed server (some secret) =
      Issues-bind _ _ (Issues-perform _ _ (allowed.reads _ _))
        (secret_answer-Issues allowed server secret)

  pub check_servers-Issues :
      {P : Policy W} (allowed : AllowsReports r authorino P) (servers : List (String × Tls))
      → Issues P (check_servers r authorino servers)
  unfolding check_servers
  check_servers-Issues allowed [] = Issues-pure none
  check_servers-Issues allowed ((server, tls) ∷ rest) =
      Issues-bind _ _
        (Issues-if _ _ _ (check_secret-Issues allowed server (provided tls.cert_secret))
          (Issues-pure none))
        (λ err. Issues-unless err _ (check_servers-Issues allowed rest))

  pub install_parts-Issues :
      {P : Policy W}
      → AllowsParts r ctx authorino P
      → (servers : Servers) → Issues P (install r ctx servers authorino)
  unfolding install installation_preflight_check
  install_parts-Issues {P = P} allowed servers =
      Issues-bind _ _ (check_servers-Issues allowed.reports _) requeued
    where
      requeued : (err : Err) → Issues P (requeue_on r err (reconcile_parts r ctx authorino))
      requeued none = reconcile_parts-Issues r ctx authorino allowed
      requeued (some e) = Issues-pure _

  -- a cluster-scoped binding of the instance may be deleted
  abbrev pub Removes : Policy W → ObjectKey → String → String → Type 0
  Removes P key suffix role =
      Allows P (Call.delete (cluster_scoped_binding r key authorino.meta.labels suffix role) none)
        (r.delete (cluster_scoped_binding r key authorino.meta.labels suffix role) none)

  -- the whole reconciliation of a CR, whichever branch it takes
  pub reconcile_instance-Issues :
      {P : Policy W} (servers : Servers) (key : ObjectKey)
      → AllowsParts r ctx authorino P
      → ((a : Authorino) → Allows P (Call.update a) (r.update a))
      → Removes P key authorino_manager_cluster_role_binding_name
          authorino_manager_cluster_role_name
      → Removes P key authorino_k8s_auth_cluster_role_binding_name
          authorino_k8s_auth_cluster_role_name
      → Issues P (reconcile_instance r ctx servers key authorino)
  unfolding reconcile_instance finalize register_finalizer cleanup_cluster_scoped_permissions
  reconcile_instance-Issues {P = P} servers key allowed updates manager auth =
      Issues-if _ _ _
        (Issues-bind _ _
          (Issues-bind _ _ (Issues-perform _ _ manager)
            (λ err. Issues-bind _ _ (Issues-perform _ _ auth) (λ err. Issues-pure tt)))
          (λ done. updated _))
        (Issues-if _ _ _ (Issues-pure _)
          (Issues-if _ _ _ (updated _) (install_parts-Issues allowed servers)))
    where
      updated :
          (a : Authorino)
          → Issues P (perform (Call.update a) (r.update a) >>= λ err. pure (result err))
      updated a = Issues-bind _ _ (Issues-perform _ _ (updates a)) (λ err. Issues-pure _)
