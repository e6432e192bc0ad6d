-- ===== src/Controller/Provision/Listed.antt =====
-- Which objects an installation writes.
use authorino_operator.Prelude.{refl, IsIn, inl, inr}
use authorino_operator.Kube.{Object, kind_of, object_key}
use authorino_operator.Api.{Authorino}
use authorino_operator.Resources.Names.{authorino_role_binding_name, authorino_service_account_name}
use authorino_operator.Resources.Rbac.{
  get_authorino_cluster_role_binding, get_authorino_role_binding, get_authorino_service_account,
}
use authorino_operator.Resources.Services.{new_auth_service, new_metrics_service, new_oidc_service}
use authorino_operator.Reconcilers.Action.{AuthorinoReconciler, Context}
use authorino_operator.Reconcilers.Action.Keeps.{Issues}
use authorino_operator.Reconcilers.Components.{desired_services, leader_election_role}
use authorino_operator.Reconcilers.Permissions.{cluster_role_binding_of, role_binding_of}
use authorino_operator.Reconcilers.Privilege.{meta-authorino_deployment}
use authorino_operator.Reconcilers.Safety.Writing.{FineParts, parts-writing, writing}
use authorino_operator.Controller.{install}
use authorino_operator.Controller.Keeps.{install_parts-Issues}
use authorino_operator.Controller.Preflight.{Servers}
use authorino_operator.Controller.Provision.{instance_keys}

-- an object of the instance
abbrev pub IsListed : {W : Type 0} → AuthorinoReconciler W → Authorino → Object → Type 0
IsListed r authorino obj = IsIn (kind_of obj, object_key obj) (instance_keys r authorino)

module _ {W : Type 0} (r : AuthorinoReconciler W) (ctx : Context) (authorino : Authorino) where
  pub parts-IsListed : FineParts r ctx authorino (IsListed r authorino)
  unfolding desired_services new_auth_service new_oidc_service new_metrics_service
      get_authorino_service_account authorino_service_account_name leader_election_role
      cluster_role_binding_of role_binding_of get_authorino_cluster_role_binding
      get_authorino_role_binding authorino_role_binding_name
  parts-IsListed = record {
    services = (inl refl, (inr (inl refl), (inr (inr (inl refl)), tt)));
    service_account = λ owned. inr (inr (inr (inl refl)));
    wide = λ wide. inr (inr (inr (inr (inl (rw wide refl)))));
    namespaced = λ namespaced owned. inr (inr (inr (inr (inl (rw namespaced refl)))));
    auth = inr (inr (inr (inr (inr (inl refl)))));
    leader_role = λ owned. inr (inr (inr (inr (inr (inr (inl refl))))));
    leader = λ owned. inr (inr (inr (inr (inr (inr (inr (inl refl)))))));
    deployment = λ d built owned.
        let meta = meta-authorino_deployment r.process authorino d built in
        inr (inr (inr (inr (inr (inr (inr (inr (inl (rw meta refl)))))))));
  }

  pub install-IsListed :
      (servers : Servers)
      → Issues (writing r ctx authorino (IsListed r authorino)) (install r ctx servers authorino)
  install-IsListed servers =
      install_parts-Issues r ctx authorino
        (parts-writing r ctx authorino (IsListed r authorino) parts-IsListed) servers
