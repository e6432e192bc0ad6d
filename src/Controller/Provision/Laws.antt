-- ===== src/Controller/Provision/Laws.antt =====
-- What an installation that returns no error leaves in the cluster.
use authorino_operator.Prelude.{◌≡◌, refl, Bool, true, false, none, All, inl, inr, if◌then◌else◌}
use authorino_operator.Kube.{Kind, ObjectKey}
use authorino_operator.Api.{Authorino}
use authorino_operator.Resources.Names.{authorino_role_binding_name, authorino_service_account_name}
use authorino_operator.Resources.Rbac.{
  get_authorino_cluster_role_binding, get_authorino_role_binding, get_authorino_service_account,
}
use authorino_operator.Resources.Services.{new_auth_service, new_metrics_service, new_oidc_service}
use authorino_operator.Reconcilers.Outcome.{returned}
use authorino_operator.Reconcilers.Action.{AuthorinoReconciler, Context, State}
use authorino_operator.Reconcilers.Components.{desired_services, leader_election_role}
use authorino_operator.Reconcilers.Permissions.{cluster_role_binding_of, role_binding_of}
use authorino_operator.Reconcilers.Permissions.Legacy.{Fits}
use authorino_operator.Reconcilers.Presence.{Has, Promises}
use authorino_operator.Controller.{install, result}
use authorino_operator.Controller.Preflight.{Servers}
use authorino_operator.Controller.Provision.Survival.{
  auth_binding-Survives, leader_binding-Survives, manager_binding-Survives,
  manager_cluster_binding-Survives, other_kind,
}
use authorino_operator.Controller.Provision.{Survives, instance_keys}
use authorino_operator.Controller.Provision.Chain.{
  LeavesOne, install-Leaves, instance_parts, permission_parts, permissions-Leaves,
}
use authorino_operator.Controller.Provision.Parts.{
  auth_binding-Leaves, deployment-Leaves, leader_binding-Leaves, leader_role-Leaves,
  manager_binding-Leaves, manager_cluster_binding-Leaves, service_account-Leaves, services-Leaves,
}

module _ {W : Type 0} (r : AuthorinoReconciler W) (promises : Promises r) (ctx : Context)
    (authorino : Authorino) (fits : Fits authorino) (servers : Servers) (s : State W)
    (ok : (install r ctx servers authorino s).0 ≡ returned (result none)) where
  abbrev HasAfter : Kind × ObjectKey → Type 0
  HasAfter (kind, key) = Has r kind key (install r ctx servers authorino s).1.world

  after :
      {kind : Kind} {key : ObjectKey}
      → Survives r promises ctx authorino kind key
      → LeavesOne r promises ctx authorino kind key (instance_parts r promises ctx authorino)
      → HasAfter (kind, key)
  after survives leaves = (install-Leaves r promises ctx authorino survives servers leaves).at s ok

  permission :
      {kind : Kind} {key : ObjectKey}
      → Survives r promises ctx authorino kind key
      → LeavesOne r promises ctx authorino kind key (permission_parts r promises ctx authorino)
      → HasAfter (kind, key)
  permission survives leaves =
      after survives (inr (inr (inl (permissions-Leaves r promises ctx authorino survives leaves))))

  picked-HasAfter :
      (b : Bool) (x y : Kind × ObjectKey)
      → (b ≡ true → HasAfter x)
      → (b ≡ false → HasAfter y)
      → HasAfter (if b then x else y)
  picked-HasAfter true x y hx hy = hx refl
  picked-HasAfter false x y hx hy = hy refl

  HasAfter-instance_keys : All HasAfter (instance_keys r authorino)
  unfolding desired_services new_auth_service new_oidc_service new_metrics_service
      get_authorino_service_account authorino_service_account_name cluster_role_binding_of
      get_authorino_cluster_role_binding role_binding_of get_authorino_role_binding
      authorino_role_binding_name leader_election_role
  HasAfter-instance_keys = (
    after (other_kind r promises ctx authorino Kind.service _ (λ e. cc e) (λ e. cc e))
        (inl (services-Leaves r promises ctx authorino _ (inl refl))),
    (
      after (other_kind r promises ctx authorino Kind.service _ (λ e. cc e) (λ e. cc e))
          (inl (services-Leaves r promises ctx authorino _ (inr (inl refl)))),
      (
        after (other_kind r promises ctx authorino Kind.service _ (λ e. cc e) (λ e. cc e))
            (inl (services-Leaves r promises ctx authorino _ (inr (inr (inl refl))))),
        (
          after (other_kind r promises ctx authorino Kind.service_account _ (λ e. cc e) (λ e. cc e))
              (inr (inl (service_account-Leaves r promises ctx authorino))),
          (
            picked-HasAfter authorino.spec.cluster_wide _ _
                (λ wide.
                  permission (manager_cluster_binding-Survives r promises ctx authorino fits wide)
                    (inl (manager_cluster_binding-Leaves r promises ctx authorino wide)))
                (λ namespaced.
                  permission (manager_binding-Survives r promises ctx authorino fits namespaced)
                    (inr (inl (manager_binding-Leaves r promises ctx authorino namespaced)))),
            (
              permission (auth_binding-Survives r promises ctx authorino fits)
                  (inr (inr (inl (auth_binding-Leaves r promises ctx authorino)))),
              (
                permission (other_kind r promises ctx authorino Kind.role _ (λ e. cc e) (λ e. cc e))
                    (inr (inr (inr (inl (leader_role-Leaves r promises ctx authorino))))),
                (
                  permission (leader_binding-Survives r promises ctx authorino fits) (
                      inr (inr (inr (inr (inl (leader_binding-Leaves r promises ctx authorino)))))),
                  (
                    after
                        (other_kind r promises ctx authorino Kind.deployment _ (λ e. cc e)
                          (λ e. cc e))
                        (inr (inr (inr (inl (deployment-Leaves r promises ctx authorino))))),
                    tt,
                  ),
                ),
              ),
            ),
          ),
        ),
      ),
    ),
  )

-- If the server keeps its promises, nothing else writes to it, and the names of the instance's
-- cluster role bindings need not be truncated, then an installation that returns no error leaves every
-- object of the instance in the cluster: the three services, the service account, the binding to the
-- manager role in the scope that the CR asks for, the binding to the auth role, the role and the
-- binding of the leader election, and the deployment, each under its kind and key, whichever of them
-- existed before and whatever the cleanup of old bindings deletes.
pub install-HasInstance :
    {W : Type 0} (r : AuthorinoReconciler W) (ctx : Context) (servers : Servers)
    (authorino : Authorino) (s : State W)
    → Promises r
    → Fits authorino
    → (install r ctx servers authorino s).0 ≡ returned (result none)
    → All
        (λ (x : Kind × ObjectKey). Has r x.0 x.1 (install r ctx servers authorino s).1.world)
        (instance_keys r authorino)
install-HasInstance r ctx servers authorino s promises fits ok =
    HasAfter-instance_keys r promises ctx authorino fits servers s ok
