-- ===== src/Controller/Completion.antt =====
-- The installation of an instance by a server without errors.
pub mod Preflight
pub mod Reconcile
use authorino_operator.Prelude.{
  Bool, true, false, if◌then◌else◌, ◌≡◌, refl, true, false, none, All, subst, sym, ◌==◌,
}
use authorino_operator.Kube.{Object, Kind, ObjectKey}
use authorino_operator.Api.{Authorino}
use authorino_operator.Reconcilers.Consts.{
  authorino_k8s_auth_cluster_role_name, authorino_manager_cluster_role_name,
}
use authorino_operator.Resources.Rbac.{get_authorino_role_binding}
use authorino_operator.Reconcilers.Resource.{tag_object_to_delete}
use authorino_operator.Reconcilers.Outcome.{Returns, returned}
use authorino_operator.Reconcilers.Pod.{authorino_deployment, authorino_image}
use authorino_operator.Reconcilers.Pod.Laws.{authorino_deployment-Returns_iff}
use authorino_operator.Reconcilers.Action.{
  AuthorinoReconciler, Context, Err, M, State, perform, pure, unless, ◌>>=◌,
}
use authorino_operator.Reconcilers.Action.Keeps.{Issues, Policy, any_end}
use authorino_operator.Reconcilers.Permissions.{
  reconcile_role_binding, role_binding_of, check_cluster_role_exists, cluster_role_answer,
  cluster_role_key, reconcile_authorino_permissions, reconcile_manager_auth_cluster_role_binding,
  reconcile_manager_cluster_role_binding, reconcile_manager_role_binding,
}
use authorino_operator.Reconcilers.Permissions.Legacy.{Fits}
use authorino_operator.Reconcilers.Presence.{Has, Promises, holds}
use authorino_operator.Reconcilers.Safety.Parts.{
  AllowsParts, reconcile_authorino_service_account-Issues, reconcile_authorino_services-Issues,
  reconcile_manager_cluster_role_binding-Issues, reconcile_manager_role_binding-Issues,
}
use authorino_operator.Reconcilers.Success.{
  Gives, Gives-bind, Gives-if, Gives-pure, Gives-unless, NoErrors,
}
use authorino_operator.Reconcilers.Success.Deployment.{reconcile_authorino_deployment-Gives}
use authorino_operator.Reconcilers.Success.Policies.{
  Succeeds, Succeeds-Gives, Succeeds-bind, Succeeds-then,
}
use authorino_operator.Reconcilers.Success.Parts.{
  cleanup_legacy_cluster_role_bindings-Gives, reconcile_authorino_service_account-Gives,
  reconcile_authorino_services-Gives, reconcile_cluster_role_binding-Gives,
  reconcile_leader_election_role-Gives, reconcile_leader_election_role_binding-Gives,
  reconcile_role_binding-Gives,
}
use authorino_operator.Controller.{install, reconcile_parts, result}
use authorino_operator.Controller.Laws.{installation_preflight_check-HasSecrets}
use authorino_operator.Controller.Preflight.{Servers}
use authorino_operator.Controller.Provision.{instance_keys, parts-holds}
use authorino_operator.Controller.Provision.Laws.{install-HasInstance}
use authorino_operator.Controller.Provision.Survival.{other_kind}
use authorino_operator.Controller.Completion.Preflight.{IsCertified, preflight-IsQuiet}

-- the two cluster roles that the operator's own installation brings
abbrev pub manager_role : Kind × ObjectKey
manager_role = (Kind.cluster_role, cluster_role_key authorino_manager_cluster_role_name)

abbrev pub auth_role : Kind × ObjectKey
auth_role = (Kind.cluster_role, cluster_role_key authorino_k8s_auth_cluster_role_name)

module _ {W : Type 0} (r : AuthorinoReconciler W) where
  -- The server has both cluster roles.
  abbrev HasRoles : W → Type 0
  HasRoles w = Has r manager_role.0 manager_role.1 w × Has r auth_role.0 auth_role.1 w

  abbrev with_roles : Policy W
  with_roles = record { Good = λ s. HasRoles s.world; may_panic = Unit }

  -- what keeps each of the two keeps both
  Issues-with_roles :
      {A : Type 0} (m : M W A)
      → Issues (holds r manager_role.0 manager_role.1) m
      → Issues (holds r auth_role.0 auth_role.1) m
      → Issues with_roles m
  Issues-with_roles m manager auth = record {
    at = λ s. (λ (has, has'). (((manager.at s).0 has), ((auth.at s).0 has')), any_end (m s).0);
  }

module _ {W : Type 0} (r : AuthorinoReconciler W) (promises : Promises r) (ctx : Context)
    (authorino : Authorino) (no_errors : NoErrors r authorino)
    (logged : ctx.has_logger ≡ true) where
  manager_allowed : AllowsParts r ctx authorino (holds r manager_role.0 manager_role.1)
  manager_allowed =
      parts-holds r promises ctx authorino _ _
        (other_kind r promises ctx authorino _ _ (λ e. cc e) (λ e. cc e))

  auth_allowed : AllowsParts r ctx authorino (holds r auth_role.0 auth_role.1)
  auth_allowed =
      parts-holds r promises ctx authorino _ _
        (other_kind r promises ctx authorino _ _ (λ e. cc e) (λ e. cc e))

  -- what each part keeps, it keeps for both cluster roles
  both :
      {A : Type 0} (m : M W A)
      → ((P : Policy W) → AllowsParts r ctx authorino P → Issues P m)
      → Issues (with_roles r) m
  both m issues = Issues-with_roles r m (issues _ manager_allowed) (issues _ auth_allowed)

  check-Succeeds :
      (key : ObjectKey)
      → ((w : W) → HasRoles r w → Has r Kind.cluster_role key w)
      → Succeeds (with_roles r) (check_cluster_role_exists r ctx key authorino) none
  unfolding check_cluster_role_exists cluster_role_answer ◌>>=◌ perform pure
  check-Succeeds key finds = record {
    at = λ s good. let (obj, there) = finds s.world good in rw (logged, there) refl;
  }

  checked-Succeeds :
      (key : ObjectKey) (rest : M W Err)
      → ((w : W) → HasRoles r w → Has r Kind.cluster_role key w)
      → Gives rest none
      → Succeeds
          (with_roles r)
          (check_cluster_role_exists r ctx key authorino >>= λ err. unless err rest)
          none
  checked-Succeeds key rest finds gives =
      Succeeds-then _ _ none none (check-Succeeds key finds) gives

  manager_cluster-Succeeds :
      Succeeds (with_roles r) (reconcile_manager_cluster_role_binding r ctx authorino) none
  unfolding reconcile_manager_cluster_role_binding
  manager_cluster-Succeeds =
      checked-Succeeds _ _ (λ w good. good.0)
        (Gives-if _ _ _ none
          (reconcile_cluster_role_binding-Gives r authorino no_errors ctx logged _)
          (Gives-bind _ _ none (λ s. (
            none,
            (reconcile_cluster_role_binding-Gives r authorino no_errors ctx logged _).at s,
            Gives-pure none,
          ))))

  picked_binding-Gives :
      (b : Bool) (x y : Object)
      → Gives (reconcile_role_binding r ctx x authorino) none
      → Gives (reconcile_role_binding r ctx y authorino) none
      → Gives (reconcile_role_binding r ctx (if b then x else y) authorino) none
  picked_binding-Gives true x y hx hy = hx
  picked_binding-Gives false x y hx hy = hy

  manager-Succeeds : Succeeds (with_roles r) (reconcile_manager_role_binding r ctx authorino) none
  unfolding reconcile_manager_role_binding role_binding_of get_authorino_role_binding
      tag_object_to_delete
  manager-Succeeds =
      checked-Succeeds _ _ (λ w good. good.0)
        (picked_binding-Gives authorino.spec.cluster_wide _ _
          (reconcile_role_binding-Gives r authorino no_errors ctx logged _ refl refl)
          (reconcile_role_binding-Gives r authorino no_errors ctx logged _ refl refl))

  auth-Succeeds :
      Succeeds (with_roles r) (reconcile_manager_auth_cluster_role_binding r ctx authorino) none
  unfolding reconcile_manager_auth_cluster_role_binding
  auth-Succeeds =
      checked-Succeeds _ _ (λ w good. good.1)
        (reconcile_cluster_role_binding-Gives r authorino no_errors ctx logged _)

  permissions-Succeeds :
      Succeeds (with_roles r) (reconcile_authorino_permissions r ctx authorino) none
  unfolding reconcile_authorino_permissions
  permissions-Succeeds =
      Succeeds-bind _ _ none none
        (both _ (λ P allowed.
          reconcile_manager_cluster_role_binding-Issues r ctx authorino allowed.reports
            allowed.permissions))
        manager_cluster-Succeeds
        (Succeeds-bind _ _ none none
          (both _ (λ P allowed.
            reconcile_manager_role_binding-Issues r ctx authorino allowed.reports
              allowed.permissions))
          manager-Succeeds
          (Succeeds-then _ _ none none auth-Succeeds (
            Gives-unless _ _ (reconcile_leader_election_role-Gives r authorino no_errors ctx logged)
              (Gives-unless _ _
                (reconcile_leader_election_role_binding-Gives r authorino no_errors ctx logged)
                (Gives-bind _ _ none (λ s. (
                  tt,
                  (cleanup_legacy_cluster_role_bindings-Gives r authorino no_errors ctx logged).at
                      s,
                  Gives-pure none,
                )))))))

  parts-Succeeds :
      Returns (authorino_deployment r.process authorino)
      → Succeeds (with_roles r) (reconcile_parts r ctx authorino) (result none)
  unfolding reconcile_parts
  parts-Succeeds buildable =
      Succeeds-bind _ _ none (result none)
        (both _ (λ P allowed.
          reconcile_authorino_services-Issues r ctx authorino allowed.reports allowed.services))
        (Succeeds-Gives (reconcile_authorino_services-Gives r authorino no_errors ctx logged))
        (Succeeds-bind _ _ none (result none)
          (both _ (λ P allowed.
            reconcile_authorino_service_account-Issues r ctx authorino allowed.reports
              allowed.service_account))
          (Succeeds-Gives
            (reconcile_authorino_service_account-Gives r authorino no_errors ctx logged))
          (Succeeds-then _ _ none (result none) permissions-Succeeds (
            Gives-bind _ _ (result none) (λ s. (
              none,
              (reconcile_authorino_deployment-Gives r authorino no_errors ctx logged buildable).at
                  s,
              Gives-pure (result none),
            )))))

  install-Succeeds :
      (servers : Servers) (s : State W)
      → authorino_image r.process authorino == "" ≡ false
      → IsCertified r authorino s.world authorino.spec.listener.tls
      → IsCertified r authorino s.world authorino.spec.oidc_server.tls
      → HasRoles r s.world
      → (install r ctx servers authorino s).0 ≡ returned (result none)
  unfolding install ◌>>=◌
  install-Succeeds servers s image listener oidc roles =
      let (passed, same) = preflight-IsQuiet r promises authorino servers s listener oidc in
      let secrets = installation_preflight_check-HasSecrets r ctx authorino servers s passed in
      let buildable = (authorino_deployment-Returns_iff r.process authorino).1 (image, secrets) in
      rw passed ((parts-Succeeds buildable).at _ (subst (HasRoles r) (sym same) roles))

-- An installation in a context with a logger returns without an error and without a requeue, and every
-- object of the instance exists behind it, if nothing that it needs is missing.
pub install-Completes :
    {W : Type 0} (r : AuthorinoReconciler W) (ctx : Context) (servers : Servers)
    (authorino : Authorino) (s : State W)
    → Promises r
    → NoErrors r authorino
    → ctx.has_logger ≡ true
    → authorino_image r.process authorino == "" ≡ false
    → Fits authorino
    → Has r manager_role.0 manager_role.1 s.world
    → Has r auth_role.0 auth_role.1 s.world
    → IsCertified r authorino s.world authorino.spec.listener.tls
    → IsCertified r authorino s.world authorino.spec.oidc_server.tls
    → ((install r ctx servers authorino s).0 ≡ returned (result none))
      × All
          (λ (x : Kind × ObjectKey). Has r x.0 x.1 (install r ctx servers authorino s).1.world)
          (instance_keys r authorino)
install-Completes r ctx servers authorino s promises no_errors logged image fits manager auth
      listener oidc =
    let ok =
      install-Succeeds r promises ctx authorino no_errors logged servers s image listener oidc
        (manager, auth) in
    (ok, install-HasInstance r ctx servers authorino s promises fits ok)
