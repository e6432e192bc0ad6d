-- ===== src/Controller/Isolation.antt =====
-- The objects of an instance are none of those that the reconciliation of another deletes.
pub mod Interleaved
pub mod Meet
use authorino_operator.Prelude.{
  ◌≢◌, ◌⊎◌, sym, ap, String, Bool, true, false, All, inl, inr, arith, if◌then◌else◌,
}
use authorino_operator.Kube.{Kind, ObjectKey, object_key}
use authorino_operator.Api.{Authorino}
use authorino_operator.Resources.Rbac.{
  get_authorino_cluster_role_binding, get_authorino_role_binding,
}
use authorino_operator.Reconcilers.Consts.{
  authorino_k8s_auth_cluster_role_binding_name, authorino_k8s_auth_cluster_role_name,
  authorino_manager_cluster_role_binding_name, authorino_manager_cluster_role_name,
}
use authorino_operator.Reconcilers.Action.{AuthorinoReconciler, Context}
use authorino_operator.Reconcilers.Permissions.{cluster_role_binding_of, role_binding_of}
use authorino_operator.Reconcilers.Permissions.Apart.{
  AreApart, IsConfused, name_of, auth-ne-manager, legacy-auth-ne, legacy-auth-ne-manager,
  legacy-manager-ne, legacy-manager-ne-auth, manager-ne-auth, role-leader-ne, role-manager-ne,
  same_suffix-ne,
}
use authorino_operator.Reconcilers.Permissions.Cleanup.{legacy_name}
use authorino_operator.Resources.Names.{authorino_role_binding_name}
use authorino_operator.Reconcilers.Safety.Parts.{
  auth_binding, leader_binding, manager_binding, manager_cluster_binding,
}
use authorino_operator.Reconcilers.Presence.{Promises}
use authorino_operator.Controller.{cluster_scoped_binding}
use authorino_operator.Controller.Provision.Survival.{other_kind}
use authorino_operator.Controller.Provision.{Survives, key-ne, instance_keys}

-- the key under which the CR is requested
abbrev pub key_of : Authorino → ObjectKey
key_of authorino = record { namespace = authorino.meta.namespace; name = authorino.meta.name }

module _ {W : Type 0} (r : AuthorinoReconciler W) (promises : Promises r) (ctx : Context)
    (a b : Authorino) (apart : AreApart a b) (not_old : ¬ IsConfused a b) where
  -- the finalization of `b` does not delete the binding of this kind and key
  abbrev Spares : String → String → Kind → ObjectKey → Type 0
  Spares suffix role kind key =
      (Kind.cluster_role_binding ≢ kind)
      ⊎ (object_key (cluster_scoped_binding r (key_of b) b.meta.labels suffix role) ≢ key)

  -- Neither the installation of `b` nor its finalization deletes the object of this kind and key.
  abbrev pub IsSpared : Kind × ObjectKey → Type 0
  IsSpared (kind, key) =
      Survives r promises ctx b kind key
      × Spares authorino_manager_cluster_role_binding_name authorino_manager_cluster_role_name kind
          key
      × Spares authorino_k8s_auth_cluster_role_binding_name authorino_k8s_auth_cluster_role_name
          kind key

  other_kind-IsSpared :
      (kind : Kind) (key : ObjectKey)
      → Kind.cluster_role_binding ≢ kind
      → Kind.role_binding ≢ kind
      → IsSpared (kind, key)
  other_kind-IsSpared kind key cluster namespaced =
      (other_kind r promises ctx b kind key cluster namespaced, inl cluster, inl cluster)

  -- a cluster-scoped object whose name is none of those that may be deleted
  cluster_scoped-IsSpared :
      (name : String)
      → name_of r.sum256 a b apart b authorino_manager_cluster_role_binding_name ≢ name
      → name_of r.sum256 a b apart b authorino_k8s_auth_cluster_role_binding_name ≢ name
      → legacy_name b authorino_manager_cluster_role_binding_name ≢ name
      → legacy_name b authorino_k8s_auth_cluster_role_binding_name ≢ name
      → IsSpared (Kind.cluster_role_binding, record { namespace = ""; name = name })
  unfolding cluster_scoped_binding cluster_role_binding_of get_authorino_cluster_role_binding
  cluster_scoped-IsSpared name manager auth old_manager old_auth = (
    (
      λ not_wide. inr (key-ne manager),
      λ wide. inl (λ e. cc e),
      (inr (key-ne old_manager), (inr (key-ne old_auth), tt)),
    ),
    inr (key-ne manager),
    inr (key-ne auth),
  )

  -- a role binding that is not the one to the manager role
  namespaced-IsSpared :
      (key : ObjectKey)
      → object_key (manager_binding r ctx b) ≢ key
      → IsSpared (Kind.role_binding, key)
  namespaced-IsSpared key other = (
    (λ not_wide. inl (λ e. cc e), λ wide. inr other, (inl (λ e. cc e), (inl (λ e. cc e), tt))),
    inl (λ e. cc e),
    inl (λ e. cc e),
  )

  role_binding-IsSpared : IsSpared (Kind.role_binding, object_key (manager_binding r ctx a))
  unfolding role_binding_of get_authorino_role_binding
  role_binding-IsSpared = namespaced-IsSpared _ (λ e.
      role-manager-ne r.sum256 a b apart (ap (λ (k : ObjectKey). k.namespace) (sym e))
        (ap (λ (k : ObjectKey). k.name) e))

  leader_binding-IsSpared : IsSpared (Kind.role_binding, object_key (leader_binding r ctx a))
  unfolding role_binding_of get_authorino_role_binding
  leader_binding-IsSpared = namespaced-IsSpared _ (key-ne (role-leader-ne r.sum256 a b apart))

  manager_binding-IsSpared :
      IsSpared (Kind.cluster_role_binding, object_key (manager_cluster_binding r ctx a))
  unfolding cluster_role_binding_of get_authorino_cluster_role_binding
  manager_binding-IsSpared =
      cluster_scoped-IsSpared _ (same_suffix-ne r.sum256 a b apart _ (omega arith))
        (auth-ne-manager r.sum256 a b apart) (legacy-manager-ne r.sum256 a b apart not_old)
        (legacy-auth-ne-manager r.sum256 a b apart)

  auth_binding-IsSpared : IsSpared (Kind.cluster_role_binding, object_key (auth_binding r ctx a))
  unfolding cluster_role_binding_of get_authorino_cluster_role_binding
  auth_binding-IsSpared =
      cluster_scoped-IsSpared _ (manager-ne-auth r.sum256 a b apart)
        (same_suffix-ne r.sum256 a b apart _ (omega arith))
        (legacy-manager-ne-auth r.sum256 a b apart) (legacy-auth-ne r.sum256 a b apart not_old)

  picked-IsSpared :
      (wide : Bool) (x y : Kind × ObjectKey)
      → IsSpared x
      → IsSpared y
      → IsSpared (if wide then x else y)
  picked-IsSpared true x y hx hy = hx
  picked-IsSpared false x y hx hy = hy

  pub instance_keys-IsSpared : All IsSpared (instance_keys r a)
  unfolding cluster_role_binding_of get_authorino_cluster_role_binding role_binding_of
      get_authorino_role_binding authorino_role_binding_name
  instance_keys-IsSpared = (
    other_kind-IsSpared _ _ (λ e. cc e) (λ e. cc e),
    (
      other_kind-IsSpared _ _ (λ e. cc e) (λ e. cc e),
      (
        other_kind-IsSpared _ _ (λ e. cc e) (λ e. cc e),
        (
          other_kind-IsSpared _ _ (λ e. cc e) (λ e. cc e),
          (
            picked-IsSpared a.spec.cluster_wide _ _ manager_binding-IsSpared role_binding-IsSpared,
            (
              auth_binding-IsSpared,
              (
                other_kind-IsSpared _ _ (λ e. cc e) (λ e. cc e),
                (leader_binding-IsSpared, (other_kind-IsSpared _ _ (λ e. cc e) (λ e. cc e), tt)),
              ),
            ),
          ),
        ),
      ),
    ),
  )
