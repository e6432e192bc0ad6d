-- ===== src/Controller/Reclaim.antt =====
-- What the objects carry that an installation writes: the types that they state, and the owners.
use authorino_operator.Prelude.{
  IsIn, true, some, ap, sym, ◌∙◌, ◌≢◌, String, List, ◌≡◌, ◌⊎◌, refl, none, [], All, inl, inr,
}
use authorino_operator.Kube.{
  kind_of, object_key, Object, ObjectKey, ObjectMeta, OwnerReference, TypeMeta, meta_of,
}
use authorino_operator.Api.{Authorino}
use authorino_operator.Resources.Rbac.{
  get_authorino_cluster_role_binding, get_authorino_role_binding, get_authorino_service_account,
}
use authorino_operator.Resources.Services.{new_auth_service, new_metrics_service, new_oidc_service}
use authorino_operator.Reconcilers.Action.{
  AuthorinoReconciler, Call, Context, Err, State, perform, pure, ◌>>=◌,
}
use authorino_operator.Reconcilers.Components.{desired_services, leader_election_role}
use authorino_operator.Reconcilers.Permissions.{cluster_role_binding_of, role_binding_of}
use authorino_operator.Reconcilers.Privilege.{
  meta-authorino_deployment, type_meta-authorino_deployment,
}
use authorino_operator.Reconcilers.Safety.Writing.{FineParts, WritesOnly, parts-writing}
use authorino_operator.Controller.{
  cleanup_cluster_scoped_permissions, cluster_scoped_binding, finalize, install,
}
use authorino_operator.Controller.Keeps.{install_parts-Issues}
use authorino_operator.Controller.Preflight.{Servers}

abbrev typed : String → String → TypeMeta
typed api_version kind = record { api_version = api_version; kind = kind }

-- The object says which API it belongs to.
abbrev pub HasTypeMeta : Object → Type 0
HasTypeMeta (Object.deployment o) = o.type_meta ≡ typed "apps/v1" "Deployment"
HasTypeMeta (Object.service o) = o.type_meta ≡ typed "v1" "Service"
HasTypeMeta (Object.service_account o) = o.type_meta ≡ typed "v1" "ServiceAccount"
HasTypeMeta (Object.cluster_role_binding o) =
    o.type_meta ≡ typed "rbac.authorization.k8s.io/v1" "ClusterRoleBinding"
HasTypeMeta (Object.role_binding o) =
    o.type_meta ≡ typed "rbac.authorization.k8s.io/v1" "RoleBinding"
HasTypeMeta (Object.role o) = o.type_meta ≡ typed "rbac.authorization.k8s.io/v1" "Role"
HasTypeMeta (Object.cluster_role m) = ⊥
HasTypeMeta (Object.secret m) = ⊥

-- The CR is among the owners, as the one that controls the object.
abbrev pub HasController : Authorino → List OwnerReference → Type 0
HasController authorino owners =
    (owner : OwnerReference) × IsIn owner owners
    × (owner.uid ≡ authorino.meta.uid)
    × (owner.controller ≡ true)

-- What `SetControllerReference` promises: without an error, the CR controls the object.
abbrev pub Controls : {W : Type 0} → AuthorinoReconciler W → Authorino → Type 0
Controls r authorino =
    (meta : ObjectMeta)
    → (r.set_controller_reference authorino meta).0 ≡ none
    → HasController authorino (r.set_controller_reference authorino meta).1

module _ {W : Type 0} (r : AuthorinoReconciler W) (authorino : Authorino) where
  -- what `SetControllerReference` says to the object without owners
  abbrev owned_by : ObjectMeta → Err × List OwnerReference
  owned_by meta = r.set_controller_reference authorino (record meta { owner_references = [] })

  -- The garbage collector removes the object when the CR is gone: it lies in the namespace of the CR,
  -- which controls it.
  abbrev IsCollected : ObjectMeta → Type 0
  IsCollected meta =
      (meta.namespace ≡ authorino.meta.namespace) × HasController authorino meta.owner_references

  abbrev own_key : ObjectKey
  own_key = record { namespace = authorino.meta.namespace; name = authorino.meta.name }

  -- Whatever the CR has become, its finalization deletes the object.
  abbrev IsFinalized : Object → Type 0
  IsFinalized obj =
      (later : Authorino) (s : State W)
      → (o : Object) × IsIn (Call.delete o none) (finalize r own_key later s).1.calls
        × (kind_of o ≡ kind_of obj)
        × (object_key o ≡ object_key obj)

  -- Something removes the object; a service may be left over that `SetControllerReference` refuses.
  abbrev pub IsReclaimed : Object → Type 0
  IsReclaimed (Object.cluster_role_binding b) = IsFinalized (Object.cluster_role_binding b)
  IsReclaimed (Object.service s) = ((owned_by s.meta).0 ≢ none) ⊎ IsCollected s.meta
  IsReclaimed (Object.cluster_role m) = ⊥
  IsReclaimed (Object.secret m) = ⊥
  IsReclaimed obj = IsCollected (meta_of obj)

err-cases : (err : Err) → (err ≢ none) ⊎ (err ≡ none)
err-cases none = inr refl
err-cases (some e) = inl (λ h. cc h)

module _ {W : Type 0} (r : AuthorinoReconciler W) (ctx : Context) (authorino : Authorino) where
  parts-HasTypeMeta : FineParts r ctx authorino HasTypeMeta
  unfolding desired_services new_auth_service new_oidc_service new_metrics_service
      get_authorino_service_account cluster_role_binding_of get_authorino_cluster_role_binding
      role_binding_of get_authorino_role_binding leader_election_role
  parts-HasTypeMeta = record {
    services = (refl, (refl, (refl, tt)));
    service_account = λ owned. refl;
    wide = λ wide. refl;
    namespaced = λ namespaced owned. refl;
    auth = refl;
    leader_role = λ owned. refl;
    leader = λ owned. refl;
    deployment = λ d built owned. type_meta-authorino_deployment r.process authorino d built;
  }

  -- Every object that an installation creates or applies is of one of the six kinds of the parts of an
  -- instance, and states the API version and the kind of its Go type, whatever the server answers, if
  -- this holds of the calls before.
  pub calls-install-HasTypeMeta :
      (servers : Servers) (s : State W)
      → All (WritesOnly HasTypeMeta) s.calls
      → All (WritesOnly HasTypeMeta) (install r ctx servers authorino s).1.calls
  calls-install-HasTypeMeta servers s h =
      let allowed = parts-writing r ctx authorino HasTypeMeta parts-HasTypeMeta in
      ((install_parts-Issues r ctx authorino allowed servers).at s).0 h

module _ {W : Type 0} (r : AuthorinoReconciler W) (ctx : Context) (authorino : Authorino)
    (controls : Controls r authorino) where
  -- a service that is written with whatever owners it got
  service-IsReclaimed :
      (meta : ObjectMeta)
      → meta.namespace ≡ authorino.meta.namespace
      → meta.owner_references ≡ []
      → ((owned_by r authorino meta).0 ≢ none)
        ⊎ IsCollected r authorino
            (record meta { owner_references = (r.set_controller_reference authorino meta).1 })
  service-IsReclaimed meta namespace bare =
      let is : record meta { owner_references = [] } ≡ meta = cc bare in
      elim (err-cases (owned_by r authorino meta).0) [
        | inl refused ↦ inl refused
        | inr ok ↦ inr (
          namespace,
          controls meta (ap (λ m. (r.set_controller_reference authorino m).0) (sym is) ∙ ok),
        )
      ]

  parts-IsReclaimed : FineParts r ctx authorino (IsReclaimed r authorino)
  unfolding desired_services new_auth_service new_oidc_service new_metrics_service
      get_authorino_service_account cluster_role_binding_of get_authorino_cluster_role_binding
      role_binding_of get_authorino_role_binding leader_election_role cluster_scoped_binding
      finalize cleanup_cluster_scoped_permissions ◌>>=◌ perform pure
  parts-IsReclaimed = record {
    services = (
      service-IsReclaimed _ refl refl,
      (service-IsReclaimed _ refl refl, (service-IsReclaimed _ refl refl, tt)),
    );
    service_account = λ owned. (refl, controls _ owned);
    wide = λ wide later s. (_, inr (inr (inl refl)), refl, refl);
    namespaced = λ namespaced owned. (refl, controls _ owned);
    auth = λ later s. (_, inr (inl refl), refl, refl);
    leader_role = λ owned. (refl, controls _ owned);
    leader = λ owned. (refl, controls _ owned);
    deployment = λ d built owned.
        let meta = meta-authorino_deployment r.process authorino d built in
        (rw meta refl, controls _ owned);
  }

  -- Every object that an installation creates or applies has something that removes it, if without an
  -- error `SetControllerReference` makes the CR the controller. One in the namespace of the CR is
  -- controlled by the CR, so that the garbage collector removes it; a cluster-scoped one is a binding
  -- that is deleted by the finalization of the CR, whatever the CR has become meanwhile. Left out is
  -- only a service for which `SetControllerReference` has an error. This is so whatever the server
  -- answers, if it is so of the calls before.
  pub calls-install-IsReclaimed :
      (servers : Servers) (s : State W)
      → All (WritesOnly (IsReclaimed r authorino)) s.calls
      → All (WritesOnly (IsReclaimed r authorino)) (install r ctx servers authorino s).1.calls
  calls-install-IsReclaimed servers s h =
      let allowed = parts-writing r ctx authorino (IsReclaimed r authorino) parts-IsReclaimed in
      ((install_parts-Issues r ctx authorino allowed servers).at s).0 h
