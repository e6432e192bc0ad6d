-- ===== src/Controller/Provision/Chain.antt =====
-- What one part of an installation leaves is left by the whole.
use authorino_operator.Prelude.{◌≡◌, ◌⊎◌, refl, none, some, List, [], ◌∷◌, inl, inr}
use authorino_operator.Kube.{Kind, ObjectKey}
use authorino_operator.Api.{Authorino}
use authorino_operator.Reconcilers.Outcome.{returned}
use authorino_operator.Reconcilers.Action.{AuthorinoReconciler, Context, Err, M, State, pure, ◌>>=◌}
use authorino_operator.Reconcilers.Action.Keeps.{Issues, Issues-bind, Issues-pure, Policy}
use authorino_operator.Reconcilers.Components.{
  reconcile_authorino_deployment, reconcile_authorino_service_account, reconcile_authorino_services,
  reconcile_leader_election_role,
}
use authorino_operator.Reconcilers.Permissions.{
  reconcile_authorino_permissions, reconcile_leader_election_role_binding,
  reconcile_manager_auth_cluster_role_binding, reconcile_manager_cluster_role_binding,
  reconcile_manager_role_binding,
}
use authorino_operator.Reconcilers.Safety.Parts.{
  cleanup_legacy_cluster_role_bindings-Issues, reconcile_authorino_deployment-Issues,
  reconcile_authorino_permissions-Issues, reconcile_authorino_service_account-Issues,
  reconcile_leader_election_role-Issues, reconcile_leader_election_role_binding-Issues,
  reconcile_manager_auth_cluster_role_binding-Issues, reconcile_manager_cluster_role_binding-Issues,
  reconcile_manager_role_binding-Issues,
}
use authorino_operator.Reconcilers.Presence.{
  Any, Leaves, Leaves-first, Leaves-next, Promises, chain-Leaves, holds,
}
use authorino_operator.Controller.{Result, install, reconcile_parts, requeue_on, result, unless_err}
use authorino_operator.Controller.Keeps.{Issues-unless_err}
use authorino_operator.Controller.Preflight.{Servers}
use authorino_operator.Controller.Provision.{Survives, parts-holds}

module _ {W : Type 0} (r : AuthorinoReconciler W) where
  unless_err-none :
      (err : Err) (rest : M W Result) (s : State W)
      → (unless_err r err rest s).0 ≡ returned (result none)
      → err ≡ none
  unfolding pure
  unless_err-none none rest s h = refl
  unless_err-none (some e) rest s h = cc h

module _ {W : Type 0} {P : Policy W} (r : AuthorinoReconciler W) where
  Leaves-unless_err :
      (err : Err) (rest : M W Result)
      → Leaves P rest (result none)
      → Leaves P (unless_err r err rest) (result none)
  unfolding pure
  Leaves-unless_err none rest leaves = leaves
  Leaves-unless_err (some e) rest leaves = record { at = λ s h. cc h }

  Leaves-requeue_on :
      (err : Err) (rest : M W Result)
      → Leaves P rest (result none)
      → Leaves P (requeue_on r err rest) (result none)
  unfolding pure
  Leaves-requeue_on none rest leaves = leaves
  Leaves-requeue_on (some e) rest leaves = record { at = λ s h. cc h }

  -- The second of two parts leaves it, or the first does and the second keeps it.
  Leaves-unless_err_bind :
      (m : M W Err) (rest : M W Result)
      → (Leaves P m none × Issues P rest) ⊎ Leaves P rest (result none)
      → Leaves P (m >>= λ err. unless_err r err rest) (result none)
  Leaves-unless_err_bind m rest (inl (leaves, keeps)) =
      Leaves-first m _ none (result none) leaves (λ err s h. unless_err-none r err rest s h) keeps
  Leaves-unless_err_bind m rest (inr leaves) =
      Leaves-next m _ (result none) (λ s err h. Leaves-unless_err err rest leaves)

module _ {W : Type 0} (r : AuthorinoReconciler W) (promises : Promises r) (ctx : Context)
    (authorino : Authorino) where
  -- the four parts of an instance, and the five of its permissions, in the order of the code
  abbrev pub instance_parts : List (M W Err)
  instance_parts =
      reconcile_authorino_services r ctx authorino
      ∷ reconcile_authorino_service_account r ctx authorino
      ∷ reconcile_authorino_permissions r ctx authorino
      ∷ reconcile_authorino_deployment r ctx authorino
      ∷ []

  abbrev pub permission_parts : List (M W Err)
  permission_parts =
      reconcile_manager_cluster_role_binding r ctx authorino
      ∷ reconcile_manager_role_binding r ctx authorino
      ∷ reconcile_manager_auth_cluster_role_binding r ctx authorino
      ∷ reconcile_leader_election_role r ctx authorino
      ∷ reconcile_leader_election_role_binding r ctx authorino
      ∷ []

  -- One of the actions leaves an object of this kind under this key.
  abbrev pub LeavesOne : Kind → ObjectKey → List (M W Err) → Type 0
  LeavesOne kind key ms = Any (λ m. Leaves (holds r kind key) m none) ms

  module _ {kind : Kind} {key : ObjectKey}
      (survives : Survives r promises ctx authorino kind key) where
    -- the five permissions, each of which keeps the object
    pub permissions-Leaves :
        LeavesOne kind key (permission_parts)
        → Leaves (holds r kind key) (reconcile_authorino_permissions r ctx authorino) none
    unfolding reconcile_authorino_permissions
    permissions-Leaves leaves =
        let parts = parts-holds r promises ctx authorino kind key survives in
        let permissions = parts.permissions in
        chain-Leaves permission_parts _
          (
            reconcile_manager_cluster_role_binding-Issues r ctx authorino parts.reports permissions,
            (
              reconcile_manager_role_binding-Issues r ctx authorino parts.reports permissions,
              (
                reconcile_manager_auth_cluster_role_binding-Issues r ctx authorino parts.reports
                    permissions,
                (
                  reconcile_leader_election_role-Issues r ctx authorino parts.reports
                      permissions.leader_role,
                  (
                    reconcile_leader_election_role_binding-Issues r ctx authorino parts.reports
                        permissions,
                    tt,
                  ),
                ),
              ),
            ),
          )
          (Issues-bind _ _
            (cleanup_legacy_cluster_role_bindings-Issues r ctx authorino parts.reports permissions)
            (λ _. Issues-pure none))
          leaves

    last-Issues :
        Issues
          (holds r kind key)
          (reconcile_authorino_deployment r ctx authorino >>= λ err. pure (result err))
    last-Issues =
        let parts = parts-holds r promises ctx authorino kind key survives in
        Issues-bind _ _
          (reconcile_authorino_deployment-Issues r ctx authorino parts.reports parts.unbuildable
            parts.deployment)
          (λ err. Issues-pure _)

    permissions-then-Issues : Issues (holds r kind key) (
        reconcile_authorino_permissions r ctx authorino >>= λ err.
        unless_err r err
          (reconcile_authorino_deployment r ctx authorino >>= λ err. pure (result err)))
    permissions-then-Issues =
        let parts = parts-holds r promises ctx authorino kind key survives in
        Issues-bind _ _
          (reconcile_authorino_permissions-Issues r ctx authorino parts.reports parts.permissions)
          (λ err. Issues-unless_err r err _ last-Issues)

    account-then-Issues : Issues (holds r kind key) (
        reconcile_authorino_service_account r ctx authorino >>= λ err. unless_err r err (
          reconcile_authorino_permissions r ctx authorino >>= λ err.
          unless_err r err
            (reconcile_authorino_deployment r ctx authorino >>= λ err. pure (result err))))
    account-then-Issues =
        let parts = parts-holds r promises ctx authorino kind key survives in
        Issues-bind _ _
          (reconcile_authorino_service_account-Issues r ctx authorino parts.reports
            parts.service_account)
          (λ err. Issues-unless_err r err _ permissions-then-Issues)

    last-Leaves :
        Leaves (holds r kind key) (reconcile_authorino_deployment r ctx authorino) none
        → Leaves
            (holds r kind key)
            (reconcile_authorino_deployment r ctx authorino >>= λ err. pure (result err))
            (result none)
    unfolding pure
    last-Leaves leaves = Leaves-first _ _ none _ leaves (λ err s h. cc h) (Issues-pure _)

    -- One of the four parts leaves the object.
    parts-Leaves :
        LeavesOne kind key (instance_parts)
        → Leaves (holds r kind key) (reconcile_parts r ctx authorino) (result none)
    unfolding reconcile_parts
    parts-Leaves (inl h) = Leaves-unless_err_bind r _ _ (inl (h, account-then-Issues))
    parts-Leaves (inr (inl h)) =
        Leaves-unless_err_bind r _ _
          (inr (Leaves-unless_err_bind r _ _ (inl (h, permissions-then-Issues))))
    parts-Leaves (inr (inr (inl h))) = Leaves-unless_err_bind r _ _ (
        inr (
          Leaves-unless_err_bind r _ _ (inr (Leaves-unless_err_bind r _ _ (inl (h, last-Issues))))))
    parts-Leaves (inr (inr (inr (inl h)))) = Leaves-unless_err_bind r _ _ (
        inr
          (Leaves-unless_err_bind r _ _ (inr (Leaves-unless_err_bind r _ _ (inr (last-Leaves h))))))
    parts-Leaves (inr (inr (inr (inr h)))) = absurd h

    pub install-Leaves :
        (servers : Servers)
        → LeavesOne kind key (instance_parts)
        → Leaves (holds r kind key) (install r ctx servers authorino) (result none)
    unfolding install
    install-Leaves servers leaves =
        Leaves-next _ _ (result none) (λ s err h. Leaves-requeue_on r err _ (parts-Leaves leaves))
