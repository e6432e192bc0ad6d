-- ===== src/Reconcilers/Privilege.antt =====
-- What the reconciliation of one instance may do in the cluster: which objects it writes, whom its
-- bindings grant which role, and what it deletes.
use authorino_operator.Prelude.{◌≡◌, ◌⊎◌, refl, true, false, none, some, [], ◌∷◌, inl, inr, All}
use authorino_operator.Kube.{Object, Deployment, Binding, lookup, meta_of, named}
use authorino_operator.Api.{Authorino}
use authorino_operator.Resources.Maps.{set_key}
use authorino_operator.Resources.Rbac.{
  get_authorino_service_account, subject_included, get_subject_for_role_binding,
  get_authorino_cluster_role_binding, get_authorino_role_binding,
}
use authorino_operator.Resources.Deployments.{get_deployment}
use authorino_operator.Resources.Services.{new_auth_service, new_oidc_service, new_metrics_service}
use authorino_operator.Reconcilers.Consts.{
  authorino_manager_cluster_role_name, authorino_k8s_auth_cluster_role_name,
  authorino_leader_election_role_name,
}
use authorino_operator.Reconcilers.Outcome.{Outcome, Returns, returned, panicked}
use authorino_operator.Reconcilers.Pod.{Process, authorino_deployment, deployment_with}
use authorino_operator.Reconcilers.Pod.Laws.{
  IsBuildable, authorino_deployment-Returns_iff, authorino_deployment_inv,
}
use authorino_operator.Reconcilers.Action.{AuthorinoReconciler, Call, Context}
use authorino_operator.Reconcilers.Action.Keeps.{Ends, Policy, Allows-making, making}
use authorino_operator.Reconcilers.Resource.{is_object_tagged_to_delete, tag_object_to_delete}
use authorino_operator.Reconcilers.Resource.Laws.{AllowsWrites, AllowsWrites-making}
use authorino_operator.Reconcilers.Components.{desired_services, leader_election_role}
use authorino_operator.Reconcilers.Permissions.Cleanup.{own_subject, preconditions_of}
use authorino_operator.Reconcilers.Permissions.{
  cluster_role_binding_of, role_binding_of, service_account_of,
}
use authorino_operator.Reconcilers.Safety.{AllowsReports, AllowsReports-making}
use authorino_operator.Reconcilers.Safety.Parts.{
  AllowsParts, AllowsPermissions, Writes, WritesOwned,
}

module _ (authorino : Authorino) where
  -- A binding gives rights to the service account of the instance alone.
  abbrev GrantsSelf : Binding → Type 0
  GrantsSelf b = b.subjects ≡ own_subject authorino ∷ []

  -- What may be created or applied. The manager role is granted cluster-wide only to a cluster-wide
  -- instance, and in the namespace only to another.
  abbrev MayWrite : Object → Type 0
  MayWrite (Object.cluster_role_binding b) =
      GrantsSelf b
      × ((b.role_ref.name ≡ authorino_k8s_auth_cluster_role_name)
          ⊎ ((b.role_ref.name ≡ authorino_manager_cluster_role_name)
              × (authorino.spec.cluster_wide ≡ true)))
  MayWrite (Object.role_binding b) =
      GrantsSelf b
      × (b.meta.namespace ≡ authorino.meta.namespace)
      × ((b.role_ref.name ≡ authorino_leader_election_role_name)
          ⊎ ((b.role_ref.name ≡ authorino_manager_cluster_role_name)
              × (authorino.spec.cluster_wide ≡ false)))
  MayWrite (Object.cluster_role m) = ⊥
  MayWrite (Object.secret m) = ⊥
  MayWrite obj = (meta_of obj).namespace ≡ authorino.meta.namespace

  -- What may be deleted without preconditions: the binding of the mode that is not chosen.
  abbrev MayDelete : Object → Type 0
  MayDelete (Object.cluster_role_binding b) =
      GrantsSelf b
      × (b.role_ref.name ≡ authorino_manager_cluster_role_name)
      × (authorino.spec.cluster_wide ≡ false)
  MayDelete (Object.role_binding b) =
      GrantsSelf b
      × (b.meta.namespace ≡ authorino.meta.namespace)
      × (b.role_ref.name ≡ authorino_manager_cluster_role_name)
      × (authorino.spec.cluster_wide ≡ true)
  MayDelete obj = ⊥

  -- The calls that the reconciliation of the instance's parts may make. A legacy binding is deleted
  -- only in the version that was read, and only if that names the instance's service account.
  abbrev pub Permitted : Call → Type 0
  Permitted (Call.create obj) = MayWrite obj
  Permitted (Call.apply obj) = MayWrite obj
  Permitted (Call.delete obj none) = MayDelete obj
  Permitted (Call.delete (Object.cluster_role_binding b) (some preconditions)) =
      (subject_included b.subjects (own_subject authorino) ≡ true)
      × (preconditions ≡ preconditions_of b)
  Permitted (Call.delete obj (some preconditions)) = ⊥
  Permitted (Call.update a) = ⊥
  Permitted (Call.update_object obj) = ⊥
  Permitted (Call.patch_status patch) =
      (patch.name ≡ authorino.meta.name) × (patch.namespace ≡ authorino.meta.namespace)
  Permitted _ = Unit

-- The reconciliation of an instance makes permitted calls, and panics only if its deployment cannot
-- be built.
abbrev pub permitted : {W : Type 0} → Process → Authorino → Policy W
permitted process authorino = making (Permitted authorino) (¬ IsBuildable process authorino)

module _ {W : Type 0} (r : AuthorinoReconciler W) (authorino : Authorino) where
  permitted_reports : AllowsReports r authorino (permitted r.process authorino)
  permitted_reports = AllowsReports-making r authorino (λ kind key. tt) (λ patch n ns. (n, ns))

  -- an object without the deletion tag
  writes_untagged :
      (obj : Object)
      → is_object_tagged_to_delete obj ≡ false
      → MayWrite authorino obj
      → AllowsWrites r obj (permitted r.process authorino)
  writes_untagged obj untagged may = AllowsWrites-making r obj (λ _. may) (λ _. may) (λ t. cc)

  -- an object with the deletion tag
  writes_tagged :
      (obj : Object)
      → is_object_tagged_to_delete obj ≡ true
      → MayDelete authorino obj
      → AllowsWrites r obj (permitted r.process authorino)
  writes_tagged obj tagged may = AllowsWrites-making r obj (λ u. cc) (λ u. cc) (λ _. may)

panics_unbuildable : {A B : Type 0} (o : Outcome A) → (B → Returns o) → Ends (¬ B) o
panics_unbuildable (returned a) h = tt
panics_unbuildable (panicked message) h = λ b. let (a, e) = h b in cc e

-- The metadata of a deployment that is built.
pub meta-authorino_deployment :
    (process : Process) (authorino : Authorino) (deployment : Deployment)
    → authorino_deployment process authorino ≡ returned deployment
    → deployment.meta ≡ named authorino.meta.name authorino.meta.namespace authorino.meta.labels
unfolding deployment_with get_deployment
meta-authorino_deployment process authorino deployment e =
    let (mounts, _, built, _) = authorino_deployment_inv process authorino deployment e in
    rw built refl

pub type_meta-authorino_deployment :
    (process : Process) (authorino : Authorino) (deployment : Deployment)
    → authorino_deployment process authorino ≡ returned deployment
    → deployment.type_meta ≡ record { api_version = "apps/v1"; kind = "Deployment" }
unfolding deployment_with get_deployment
type_meta-authorino_deployment process authorino deployment e =
    let (mounts, _, built, _) = authorino_deployment_inv process authorino deployment e in
    rw built refl

module _ {W : Type 0} (r : AuthorinoReconciler W) (ctx : Context) (authorino : Authorino) where
  pub services-Permitted :
      All (Writes r ctx authorino (permitted r.process authorino)) (desired_services authorino)
  unfolding desired_services new_auth_service new_oidc_service new_metrics_service
      is_object_tagged_to_delete lookup
  services-Permitted = (
    writes_untagged r authorino _ refl refl,
    (writes_untagged r authorino _ refl refl, (writes_untagged r authorino _ refl refl, tt)),
  )

  pub service_account-Permitted :
      WritesOwned r ctx authorino
        (permitted r.process authorino)
        (Object.service_account (service_account_of authorino))
  unfolding get_authorino_service_account is_object_tagged_to_delete lookup
  service_account-Permitted owned = writes_untagged r authorino _ refl refl

  pub permissions-Permitted : AllowsPermissions r ctx authorino (permitted r.process authorino)
  unfolding leader_election_role cluster_role_binding_of role_binding_of tag_object_to_delete
      set_key get_authorino_cluster_role_binding get_authorino_role_binding own_subject
      get_subject_for_role_binding is_object_tagged_to_delete lookup
  permissions-Permitted = record {
    wide = λ wide. writes_untagged r authorino _ refl (refl, inr (refl, wide));
    not_wide = λ namespaced. writes_tagged r authorino _ refl (refl, refl, namespaced);
    not_namespaced = λ wide owned. writes_tagged r authorino _ refl (refl, refl, refl, wide);
    namespaced =
        λ namespaced owned. writes_untagged r authorino _ refl (refl, refl, inr (refl, namespaced));
    auth = writes_untagged r authorino _ refl (refl, inl refl);
    leader_role = λ owned. writes_untagged r authorino _ refl refl;
    leader = λ owned. writes_untagged r authorino _ refl (refl, refl, inl refl);
    looks = λ key. Allows-making _ _ tt;
    cleans = (
      λ binding w is own. Allows-making _ _ (own, refl),
      (λ binding w is own. Allows-making _ _ (own, refl), tt),
    );
  }

  pub deployment-Permitted :
      (deployment : Deployment)
      → authorino_deployment r.process authorino ≡ returned deployment
      → WritesOwned r ctx authorino (permitted r.process authorino) (Object.deployment deployment)
  unfolding is_object_tagged_to_delete lookup
  deployment-Permitted deployment built owned =
      let meta = meta-authorino_deployment r.process authorino deployment built in
      writes_untagged r authorino _ (rw meta refl) (rw meta refl)

  -- Reconciling the parts of an instance makes only the permitted calls, whatever the server
  -- answers, and panics only if the deployment cannot be built.
  pub parts-Permitted : AllowsParts r ctx authorino (permitted r.process authorino)
  parts-Permitted = record {
    reports = permitted_reports r authorino;
    services = services-Permitted;
    service_account = service_account-Permitted;
    permissions = permissions-Permitted;
    deployment = deployment-Permitted;
    unbuildable = panics_unbuildable _ (authorino_deployment-Returns_iff r.process authorino).1;
  }
