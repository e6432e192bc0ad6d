-- ===== src/Controller/Provision/Survival.antt =====
-- The objects of an instance are none of those that its installation deletes.
use text.Mathlib.TextLemmas.{append_cancel_left}
use authorino_operator.Prelude.{◌≡◌, ◌≢◌, refl, Bool, true, false, All, inl, inr, ap, if◌then◌else◌}
use authorino_operator.Kube.{Kind, ObjectKey, object_key}
use authorino_operator.Api.{Authorino}
use authorino_operator.Resources.Names.{authorino_role_binding_name}
use authorino_operator.Resources.Rbac.{
  get_authorino_cluster_role_binding, get_authorino_role_binding,
}
use authorino_operator.Reconcilers.Action.{AuthorinoReconciler, Context}
use authorino_operator.Reconcilers.Permissions.{cluster_role_binding_of, role_binding_of}
use authorino_operator.Reconcilers.Permissions.Legacy.{Fits, legacy_name-ne, names-ne}
use authorino_operator.Reconcilers.Safety.Parts.{
  auth_binding, leader_binding, manager_binding, manager_cluster_binding,
}
use authorino_operator.Reconcilers.Presence.{Promises}
use authorino_operator.Controller.Provision.{Survives, instance_keys, key-ne}

module _ {W : Type 0} (r : AuthorinoReconciler W) (promises : Promises r) (ctx : Context)
    (authorino : Authorino) where
  -- an object of a kind that is never deleted
  pub other_kind :
      (kind : Kind) (key : ObjectKey)
      → Kind.cluster_role_binding ≢ kind
      → Kind.role_binding ≢ kind
      → Survives r promises ctx authorino kind key
  other_kind kind key cluster namespaced =
      (λ _. inl cluster, λ _. inl namespaced, (inl cluster, (inl cluster, tt)))

  module _ (fits : Fits authorino) where
    pub auth_binding-Survives :
        Survives r promises ctx authorino Kind.cluster_role_binding
          (object_key (auth_binding r ctx authorino))
    unfolding cluster_role_binding_of get_authorino_cluster_role_binding
    auth_binding-Survives =
        let (_, _, manager, auth) = legacy_name-ne r.sum256 authorino fits in
        (
          λ _. inr (key-ne (names-ne r.sum256 authorino fits)),
          λ _. inl (λ e. cc e),
          (inr (key-ne manager), (inr (key-ne auth), tt)),
        )

    pub manager_cluster_binding-Survives :
        authorino.spec.cluster_wide ≡ true
        → Survives r promises ctx authorino Kind.cluster_role_binding
            (object_key (manager_cluster_binding r ctx authorino))
    unfolding cluster_role_binding_of get_authorino_cluster_role_binding
    manager_cluster_binding-Survives wide =
        let (manager, auth, _, _) = legacy_name-ne r.sum256 authorino fits in
        (
          λ not_wide. cc (wide, not_wide),
          λ _. inl (λ e. cc e),
          (inr (key-ne manager), (inr (key-ne auth), tt)),
        )

    pub manager_binding-Survives :
        authorino.spec.cluster_wide ≡ false
        → Survives r promises ctx authorino Kind.role_binding
            (object_key (manager_binding r ctx authorino))
    manager_binding-Survives namespaced = (
      λ _. inl (λ e. cc e),
      λ wide. cc (wide, namespaced),
      (inl (λ e. cc e), (inl (λ e. cc e), tt)),
    )

    pub leader_binding-Survives :
        Survives r promises ctx authorino Kind.role_binding
          (object_key (leader_binding r ctx authorino))
    unfolding role_binding_of get_authorino_role_binding authorino_role_binding_name
    leader_binding-Survives = (
      λ _. inl (λ e. cc e),
      λ wide. inr (λ e. cc (
          append_cancel_left authorino.meta.name "-authorino" "-authorino-leader-election"
            (ap (λ (k : ObjectKey). k.name) e))),
      (inl (λ e. cc e), (inl (λ e. cc e), tt)),
    )

    abbrev Outlives : Kind × ObjectKey → Type 0
    Outlives (kind, key) = Survives r promises ctx authorino kind key

    picked-Outlives :
        (b : Bool) (x y : Kind × ObjectKey)
        → (b ≡ true → Outlives x)
        → (b ≡ false → Outlives y)
        → Outlives (if b then x else y)
    picked-Outlives true x y hx hy = hx refl
    picked-Outlives false x y hx hy = hy refl

    pub instance_keys-Survive : All Outlives (instance_keys r authorino)
    unfolding cluster_role_binding_of get_authorino_cluster_role_binding role_binding_of
        get_authorino_role_binding authorino_role_binding_name
    instance_keys-Survive = (
      other_kind _ _ (λ e. cc e) (λ e. cc e),
      (
        other_kind _ _ (λ e. cc e) (λ e. cc e),
        (
          other_kind _ _ (λ e. cc e) (λ e. cc e),
          (
            other_kind _ _ (λ e. cc e) (λ e. cc e),
            (
              picked-Outlives authorino.spec.cluster_wide _ _ manager_cluster_binding-Survives
                  manager_binding-Survives,
              (
                auth_binding-Survives,
                (
                  other_kind _ _ (λ e. cc e) (λ e. cc e),
                  (leader_binding-Survives, (other_kind _ _ (λ e. cc e) (λ e. cc e), tt)),
                ),
              ),
            ),
          ),
        ),
      ),
    )
