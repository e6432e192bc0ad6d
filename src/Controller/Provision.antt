-- ===== src/Controller/Provision.antt =====
-- The objects that an instance consists of, and which objects an installation keeps.
pub mod Parts
pub mod Chain
pub mod Survival
pub mod Laws
pub mod Listed
pub mod Kept
pub mod Again
use authorino_operator.Prelude.{
  ◌≡◌, ◌≢◌, ◌⊎◌, refl, String, true, false, List, [], ◌∷◌, All, concat, if◌then◌else◌, ap,
}
use authorino_operator.Kube.{Deployment, Kind, Object, ObjectKey, lookup, object_key}
use authorino_operator.Api.{Authorino}
use authorino_operator.Resources.Maps.{set_key}
use authorino_operator.Resources.Names.{authorino_cluster_role_binding_name}
use authorino_operator.Resources.Rbac.{
  get_authorino_cluster_role_binding, get_authorino_role_binding, get_authorino_service_account,
}
use authorino_operator.Resources.Services.{new_auth_service, new_metrics_service, new_oidc_service}
use authorino_operator.Reconcilers.Consts.{
  authorino_k8s_auth_cluster_role_binding_name, authorino_manager_cluster_role_binding_name,
}
use authorino_operator.Reconcilers.Outcome.{returned}
use authorino_operator.Reconcilers.Pod.{authorino_deployment}
use authorino_operator.Reconcilers.Action.{AuthorinoReconciler, Context}
use authorino_operator.Reconcilers.Action.Keeps.{any_end}
use authorino_operator.Reconcilers.Resource.{is_object_tagged_to_delete, tag_object_to_delete}
use authorino_operator.Reconcilers.Components.{desired_services, leader_election_role}
use authorino_operator.Reconcilers.Permissions.{cluster_role_binding_of, role_binding_of}
use authorino_operator.Reconcilers.Privilege.{meta-authorino_deployment}
use authorino_operator.Reconcilers.Safety.Parts.{
  AllowsParts, AllowsPermissions, Cleans, Writes, WritesOwned, legacy_key, manager_binding,
  manager_cluster_binding,
}
use authorino_operator.Reconcilers.Presence.{
  Promises, deletes-holds, holds, looks-holds, reports-holds, tagged-holds, writes-holds,
}

pub key-ne : {k k' : ObjectKey} → k.name ≢ k'.name → k ≢ k'
key-ne other e = other (ap (λ (k : ObjectKey). k.name) e)

-- The kinds and keys of the objects that an instance consists of.
abbrev pub instance_keys :
    {W : Type 0} → AuthorinoReconciler W → Authorino → List (Kind × ObjectKey)
instance_keys r authorino =
    let name = authorino.meta.name in
    let namespace = authorino.meta.namespace in
    let own : String → ObjectKey = λ n. record { namespace = namespace; name = n } in
    let wide : String → ObjectKey = λ suffix. record {
      namespace = "";
      name = authorino_cluster_role_binding_name r.sum256 namespace name suffix;
    } in
    (Kind.service, own (concat (name ∷ "-authorino-authorization" ∷ [])))
    ∷ (Kind.service, own (concat (name ∷ "-authorino-oidc" ∷ [])))
    ∷ (Kind.service, own (concat (name ∷ "-controller-metrics" ∷ [])))
    ∷ (Kind.service_account, own (concat (name ∷ "-authorino" ∷ [])))
    ∷ (if authorino.spec.cluster_wide
        then (Kind.cluster_role_binding, wide "authorino")
        else (Kind.role_binding, own (concat (name ∷ "-authorino" ∷ []))))
    ∷ (Kind.cluster_role_binding, wide "authorino-k8s-auth")
    ∷ (Kind.role, own "authorino-leader-election-role")
    ∷ (Kind.role_binding, own (concat (name ∷ "-authorino-leader-election" ∷ [])))
    ∷ (Kind.deployment, own name)
    ∷ []

module _ {W : Type 0} (r : AuthorinoReconciler W) (promises : Promises r) (ctx : Context)
    (authorino : Authorino) where
  -- An installation does not delete the object of this kind and key.
  abbrev pub Survives : Kind → ObjectKey → Type 0
  Survives kind key =
      (authorino.spec.cluster_wide ≡ false
        → (Kind.cluster_role_binding ≢ kind)
          ⊎ (object_key (manager_cluster_binding r ctx authorino) ≢ key))
      × (authorino.spec.cluster_wide ≡ true
          → (Kind.role_binding ≢ kind) ⊎ (object_key (manager_binding r ctx authorino) ≢ key))
      × All
          (λ suffix. (Kind.cluster_role_binding ≢ kind) ⊎ (legacy_key r ctx authorino suffix ≢ key))
          (authorino_manager_cluster_role_binding_name
            ∷ authorino_k8s_auth_cluster_role_binding_name ∷ [])

  module _ (kind : Kind) (key : ObjectKey) where
    Cleans-holds :
        (suffix : String)
        → (Kind.cluster_role_binding ≢ kind) ⊎ (legacy_key r ctx authorino suffix ≢ key)
        → Cleans r ctx authorino (holds r kind key) suffix
    Cleans-holds suffix other binding w is own =
        deletes-holds r promises kind key _ _
          (rw (promises.binding_key (legacy_key r ctx authorino suffix) w binding is) other)

    permissions-holds : Survives kind key → AllowsPermissions r ctx authorino (holds r kind key)
    unfolding leader_election_role cluster_role_binding_of role_binding_of tag_object_to_delete
        set_key get_authorino_cluster_role_binding get_authorino_role_binding
        is_object_tagged_to_delete lookup
    permissions-holds (not_wide, not_namespaced, (manager, (auth, _))) = record {
      wide = λ wide. writes-holds r promises kind key _ refl;
      not_wide = λ namespaced. tagged-holds r promises kind key _ refl (not_wide namespaced);
      not_namespaced = λ wide owned. tagged-holds r promises kind key _ refl (not_namespaced wide);
      namespaced = λ namespaced owned. writes-holds r promises kind key _ refl;
      auth = writes-holds r promises kind key _ refl;
      leader_role = λ owned. writes-holds r promises kind key _ refl;
      leader = λ owned. writes-holds r promises kind key _ refl;
      looks = looks-holds r promises kind key;
      cleans = (Cleans-holds _ manager, (Cleans-holds _ auth, tt));
    }

    deployment-holds :
        (deployment : Deployment)
        → authorino_deployment r.process authorino ≡ returned deployment
        → WritesOwned r ctx authorino (holds r kind key) (Object.deployment deployment)
    unfolding is_object_tagged_to_delete lookup
    deployment-holds deployment built owned =
        let meta = meta-authorino_deployment r.process authorino deployment built in
        writes-holds r promises kind key _ (rw meta refl)

    services-holds : All (Writes r ctx authorino (holds r kind key)) (desired_services authorino)
    unfolding desired_services new_auth_service new_oidc_service new_metrics_service
        is_object_tagged_to_delete lookup
    services-holds = (
      writes-holds r promises kind key _ refl,
      (writes-holds r promises kind key _ refl, (writes-holds r promises kind key _ refl, tt)),
    )

    pub parts-holds : Survives kind key → AllowsParts r ctx authorino (holds r kind key)
    unfolding is_object_tagged_to_delete lookup get_authorino_service_account
    parts-holds survives = record {
      reports = reports-holds r promises kind key authorino;
      services = services-holds;
      service_account = λ owned. writes-holds r promises kind key _ refl;
      permissions = permissions-holds survives;
      deployment = deployment-holds;
      unbuildable = any_end (authorino_deployment r.process authorino);
    }
