-- ===== src/Reconcilers/Safety/Writing.antt =====
-- Policies on the objects that the parts of an instance create and apply.
use authorino_operator.Prelude.{◌≡◌, refl, true, false, none, All}
use authorino_operator.Kube.{Deployment, Object, lookup}
use authorino_operator.Api.{Authorino}
use authorino_operator.Resources.Maps.{set_key}
use authorino_operator.Resources.Rbac.{
  get_authorino_cluster_role_binding, get_authorino_role_binding,
}
use authorino_operator.Reconcilers.Outcome.{returned}
use authorino_operator.Reconcilers.Pod.{authorino_deployment}
use authorino_operator.Reconcilers.Action.{AuthorinoReconciler, Call, Context, controlled}
use authorino_operator.Reconcilers.Action.Keeps.{Policy, Allows-making, any_end, making}
use authorino_operator.Reconcilers.Resource.{is_object_tagged_to_delete, tag_object_to_delete}
use authorino_operator.Reconcilers.Resource.Laws.{AllowsWrites, AllowsWrites-making}
use authorino_operator.Reconcilers.Components.{desired_services, leader_election_role}
use authorino_operator.Reconcilers.Permissions.{
  cluster_role_binding_of, role_binding_of, service_account_of,
}
use authorino_operator.Reconcilers.Safety.{AllowsReports-making}
use authorino_operator.Reconcilers.Safety.Parts.{
  AllowsParts, AllowsPermissions, auth_binding, leader_binding, manager_binding,
  manager_cluster_binding,
}

-- What is created, applied or updated is fine.
abbrev pub WritesOnly : (Object → Type 0) → Call → Type 0
WritesOnly Fine (Call.create obj) = Fine obj
WritesOnly Fine (Call.apply obj) = Fine obj
WritesOnly Fine (Call.update_object obj) = Fine obj
WritesOnly Fine _ = Unit

module _ {W : Type 0} (r : AuthorinoReconciler W) (ctx : Context) (authorino : Authorino)
    (Fine : Object → Type 0) where
  -- the object is fine with the owner that it is given
  abbrev pub FineWith : Object → Type 0
  FineWith obj = Fine (controlled r authorino obj).1

  -- the same, if it is given its owner without an error
  abbrev pub FineOwned : Object → Type 0
  FineOwned obj = (controlled r authorino obj).0 ≡ none → FineWith obj

  -- The objects without a deletion tag, part by part.
  pub record FineParts : Type 0 where
    pub services : All FineWith (desired_services authorino)
    pub service_account : FineOwned (Object.service_account (service_account_of authorino))
    pub wide : authorino.spec.cluster_wide ≡ true → Fine (manager_cluster_binding r ctx authorino)
    pub namespaced :
        authorino.spec.cluster_wide ≡ false → FineOwned (manager_binding r ctx authorino)
    pub auth : Fine (auth_binding r ctx authorino)
    pub leader_role : FineOwned (leader_election_role authorino)
    pub leader : FineOwned (leader_binding r ctx authorino)
    pub deployment :
        (d : Deployment)
        → authorino_deployment r.process authorino ≡ returned d
        → FineOwned (Object.deployment d)

  abbrev pub writing : Policy W
  writing = making (WritesOnly Fine) Unit

  writes_fine : (obj : Object) → Fine obj → AllowsWrites r obj writing
  writes_fine obj fine = AllowsWrites-making r obj (λ u. fine) (λ u. fine) (λ t. tt)

  writes_tagged :
      (obj : Object) → is_object_tagged_to_delete obj ≡ true → AllowsWrites r obj writing
  writes_tagged obj tagged = AllowsWrites-making r obj (λ u. cc) (λ u. cc) (λ t. tt)

  module _ (fine : FineParts) where
    permissions-writing : AllowsPermissions r ctx authorino writing
    unfolding is_object_tagged_to_delete tag_object_to_delete set_key lookup cluster_role_binding_of
        role_binding_of get_authorino_cluster_role_binding get_authorino_role_binding
    permissions-writing = record {
      wide = λ wide. writes_fine _ (fine.wide wide);
      not_wide = λ namespaced. writes_tagged _ refl;
      not_namespaced = λ wide owned. writes_tagged _ refl;
      namespaced = λ namespaced owned. writes_fine _ (fine.namespaced namespaced owned);
      auth = writes_fine _ fine.auth;
      leader_role = λ owned. writes_fine _ (fine.leader_role owned);
      leader = λ owned. writes_fine _ (fine.leader owned);
      looks = λ key. Allows-making _ _ tt;
      cleans = (
        λ binding w is own. Allows-making _ _ tt,
        (λ binding w is own. Allows-making _ _ tt, tt),
      );
    }

    pub parts-writing : AllowsParts r ctx authorino writing
    unfolding desired_services
    parts-writing =
        let services = fine.services in
        record {
          reports = AllowsReports-making r authorino (λ kind key. tt) (λ patch n ns. tt);
          services = (
            writes_fine _ services.0,
            (writes_fine _ services.1.0, (writes_fine _ services.1.1.0, tt)),
          );
          service_account = λ owned. writes_fine _ (fine.service_account owned);
          permissions = permissions-writing;
          deployment = λ d built owned. writes_fine _ (fine.deployment d built owned);
          unbuildable = any_end (authorino_deployment r.process authorino);
        }

module _ {W : Type 0} (r : AuthorinoReconciler W) (ctx : Context) (authorino : Authorino)
    (Fine Fine' : Object → Type 0) (weaker : (obj : Object) → Fine obj → Fine' obj) where
  pub FineParts-mono : FineParts r ctx authorino Fine → FineParts r ctx authorino Fine'
  unfolding desired_services
  FineParts-mono fine =
      let services = fine.services in
      record {
        services = (weaker _ services.0, (weaker _ services.1.0, (weaker _ services.1.1.0, tt)));
        service_account = λ owned. weaker _ (fine.service_account owned);
        wide = λ wide. weaker _ (fine.wide wide);
        namespaced = λ namespaced owned. weaker _ (fine.namespaced namespaced owned);
        auth = weaker _ fine.auth;
        leader_role = λ owned. weaker _ (fine.leader_role owned);
        leader = λ owned. weaker _ (fine.leader owned);
        deployment = λ d built owned. weaker _ (fine.deployment d built owned);
      }
