-- ===== src/Reconcilers/Safety/Parts.antt =====
-- Which calls the parts of an instance make: a rule for each, over a policy that allows the writes of
-- the objects that the part is about.
use authorino_operator.Prelude.{
  ◌≡◌, refl, String, Bool, true, false, none, some, List, [], ◌∷◌, All, if◌then◌else◌,
}
use authorino_operator.Kube.{Object, ObjectKey, Deployment, Binding}
use authorino_operator.Api.{Authorino}
use authorino_operator.Resources.Rbac.{subject_included}
use authorino_operator.Reconcilers.Consts.{
  authorino_manager_cluster_role_name, authorino_k8s_auth_cluster_role_name,
  authorino_leader_election_role_name, authorino_manager_cluster_role_binding_name,
  authorino_k8s_auth_cluster_role_binding_name, authorino_leader_election_role_binding_name,
}
use authorino_operator.Reconcilers.Outcome.{returned}
use authorino_operator.Reconcilers.Pod.{authorino_deployment}
use authorino_operator.Reconcilers.Action.{
  Answer, found, failed, AuthorinoReconciler, Call, Context, Err, M, controlled, perform, unless,
  ◌>>=◌,
}
use authorino_operator.Reconcilers.Action.Keeps.{
  Allows, Ends, Issues, Policy, issue_rules, Issues-pure, Issues-bind, Issues-perform, Issues-cases,
  Issues-bind-lift, Issues-bind-returned, Issues-with_logger, Issues-unless,
}
use authorino_operator.Reconcilers.Resource.{tag_object_to_delete}
use authorino_operator.Reconcilers.Resource.Laws.{AllowsWrites}
use authorino_operator.Reconcilers.Components.{
  desired_services, leader_election_role, reconcile_authorino_deployment,
  reconcile_authorino_service_account, reconcile_authorino_services, reconcile_each_service,
  reconcile_leader_election_role,
}
use authorino_operator.Reconcilers.Permissions.Cleanup.{
  cleanup_answer, cleanup_each, cleanup_legacy_cluster_role_bindings, cleanup_one, legacy_name,
  own_subject, preconditions_of,
}
use authorino_operator.Reconcilers.Permissions.{
  check_cluster_role_exists, cluster_role_binding_of, reconcile_authorino_permissions,
  reconcile_cluster_role_binding, reconcile_leader_election_role_binding,
  reconcile_manager_auth_cluster_role_binding, reconcile_manager_cluster_role_binding,
  reconcile_manager_role_binding, reconcile_role_binding, role_binding_of, service_account_of,
}
use authorino_operator.Reconcilers.Safety.{
  AllowsReports, check_cluster_role_exists-Issues, reconcile_binding-Issues,
  reconcile_owned_binding-Issues, reconcile_owned_deployment-Issues, reconcile_owned_role-Issues,
  reconcile_owned_service_account-Issues, reconcile_service-Issues,
}

module _ {W : Type 0} (r : AuthorinoReconciler W) (ctx : Context) (authorino : Authorino) where
  -- the objects that the permissions of the instance consist of
  abbrev pub manager_cluster_binding : Object
  manager_cluster_binding =
      cluster_role_binding_of r ctx authorino authorino_manager_cluster_role_binding_name
        authorino_manager_cluster_role_name

  abbrev pub manager_binding : Object
  manager_binding =
      role_binding_of r ctx authorino authorino_manager_cluster_role_binding_name "ClusterRole"
        authorino_manager_cluster_role_name

  abbrev pub auth_binding : Object
  auth_binding =
      cluster_role_binding_of r ctx authorino authorino_k8s_auth_cluster_role_binding_name
        authorino_k8s_auth_cluster_role_name

  abbrev pub leader_binding : Object
  leader_binding =
      role_binding_of r ctx authorino authorino_leader_election_role_binding_name "Role"
        authorino_leader_election_role_name

  -- the object may be written with the owner that it is given
  abbrev pub Writes : Policy W → Object → Type 0
  Writes P obj = AllowsWrites r (controlled r authorino obj).1 P

  -- the same, for an object that is written only if it was given its owner without an error
  abbrev pub WritesOwned : Policy W → Object → Type 0
  WritesOwned P obj = (controlled r authorino obj).0 ≡ none → Writes P obj

  abbrev pub legacy_key : String → ObjectKey
  legacy_key suffix = record { namespace = ""; name = legacy_name authorino suffix }

  -- The instance's binding under an old name may be deleted in the version that was read.
  abbrev pub Cleans : Policy W → String → Type 0
  Cleans P suffix =
      (binding : Binding) (w : W)
      → (r.get_cluster_role_binding (legacy_key suffix) w).0 ≡ found binding
      → subject_included binding.subjects (own_subject authorino) ≡ true
      → Allows P
          (Call.delete (Object.cluster_role_binding binding) (some (preconditions_of binding)))
          (r.delete (Object.cluster_role_binding binding) (some (preconditions_of binding)))

  -- `P` allows what the permissions of the instance need.
  pub record AllowsPermissions (P : Policy W) : Type 0 where
    pub wide : authorino.spec.cluster_wide ≡ true → AllowsWrites r manager_cluster_binding P
    pub not_wide :
        authorino.spec.cluster_wide ≡ false
        → AllowsWrites r (tag_object_to_delete manager_cluster_binding) P
    pub not_namespaced :
        authorino.spec.cluster_wide ≡ true → WritesOwned P (tag_object_to_delete manager_binding)
    pub namespaced : authorino.spec.cluster_wide ≡ false → WritesOwned P manager_binding
    pub auth : AllowsWrites r auth_binding P
    pub leader_role : WritesOwned P (leader_election_role authorino)
    pub leader : WritesOwned P leader_binding
    pub looks :
        (key : ObjectKey)
        → Allows P (Call.get_cluster_role_binding key) (r.get_cluster_role_binding key)
    pub cleans : All (Cleans P) (
        authorino_manager_cluster_role_binding_name ∷ authorino_k8s_auth_cluster_role_binding_name
        ∷ [])

  -- `P` allows what the four parts of the instance need.
  pub record AllowsParts (P : Policy W) : Type 0 where
    pub reports : AllowsReports r authorino P
    pub services : All (Writes P) (desired_services authorino)
    pub service_account : WritesOwned P (Object.service_account (service_account_of authorino))
    pub permissions : AllowsPermissions P
    pub deployment :
        (d : Deployment)
        → authorino_deployment r.process authorino ≡ returned d
        → WritesOwned P (Object.deployment d)
    pub unbuildable : Ends P.may_panic (authorino_deployment r.process authorino)

module _ {W : Type 0} (r : AuthorinoReconciler W) (ctx : Context) (authorino : Authorino)
    {P : Policy W} (reports : AllowsReports r authorino P) where
  pub reconcile_each_service-Issues :
      (services : List Object)
      → All (Writes r ctx authorino P) services
      → Issues P (reconcile_each_service r ctx authorino services)
  unfolding reconcile_each_service
  reconcile_each_service-Issues [] h = Issues-pure none
  reconcile_each_service-Issues (desired ∷ rest) (w, h) = search (
    issue_rules,
    reconcile_service-Issues r ctx reports _ w,
    reconcile_each_service-Issues rest h,
  )

  pub reconcile_authorino_services-Issues :
      All (Writes r ctx authorino P) (desired_services authorino)
      → Issues P (reconcile_authorino_services r ctx authorino)
  unfolding reconcile_authorino_services
  reconcile_authorino_services-Issues h = reconcile_each_service-Issues _ h

  pub reconcile_authorino_service_account-Issues :
      WritesOwned r ctx authorino P (Object.service_account (service_account_of authorino))
      → Issues P (reconcile_authorino_service_account r ctx authorino)
  unfolding reconcile_authorino_service_account
  reconcile_authorino_service_account-Issues h =
      Issues-with_logger ctx _ (reconcile_owned_service_account-Issues r ctx reports _ h)

  pub reconcile_leader_election_role-Issues :
      WritesOwned r ctx authorino P (leader_election_role authorino)
      → Issues P (reconcile_leader_election_role r ctx authorino)
  unfolding reconcile_leader_election_role
  reconcile_leader_election_role-Issues h =
      Issues-with_logger ctx _ (reconcile_owned_role-Issues r ctx reports _ h)

  pub reconcile_role_binding-Issues :
      (desired : Object)
      → WritesOwned r ctx authorino P desired
      → Issues P (reconcile_role_binding r ctx desired authorino)
  unfolding reconcile_role_binding
  reconcile_role_binding-Issues desired writes =
      Issues-with_logger ctx _ (reconcile_owned_binding-Issues r ctx reports _ writes)

  pub reconcile_cluster_role_binding-Issues :
      (desired : Object)
      → AllowsWrites r desired P
      → Issues P (reconcile_cluster_role_binding r ctx desired authorino)
  unfolding reconcile_cluster_role_binding
  reconcile_cluster_role_binding-Issues desired writes =
      Issues-with_logger ctx _ (reconcile_binding-Issues r ctx reports _ writes)

  pub reconcile_authorino_deployment-Issues :
      Ends P.may_panic (authorino_deployment r.process authorino)
      → ((d : Deployment)
          → authorino_deployment r.process authorino ≡ returned d
          → WritesOwned r ctx authorino P (Object.deployment d))
      → Issues P (reconcile_authorino_deployment r ctx authorino)
  unfolding reconcile_authorino_deployment
  reconcile_authorino_deployment-Issues ends h = Issues-with_logger ctx _ (
      Issues-bind-lift _ _ ends
        (λ d built. reconcile_owned_deployment-Issues r ctx reports _ (h d built)))

  -- the check of a cluster role in front of the rest
  checked-Issues :
      (key : ObjectKey) (rest : M W Err)
      → Issues P rest
      → Issues P (check_cluster_role_exists r ctx key authorino >>= λ err. unless err rest)
  checked-Issues key rest h =
      Issues-bind _ _ (check_cluster_role_exists-Issues r ctx reports key)
        (λ err. Issues-unless err rest h)

module _ {W : Type 0} (r : AuthorinoReconciler W) (ctx : Context) (authorino : Authorino)
    {P : Policy W} (reports : AllowsReports r authorino P)
    (allowed : AllowsPermissions r ctx authorino P) where
  -- what is done with the one of two objects that a test picks
  writes_picked :
      (b : Bool) (x y : Object)
      → (b ≡ true → WritesOwned r ctx authorino P x)
      → (b ≡ false → WritesOwned r ctx authorino P y)
      → WritesOwned r ctx authorino P (if b then x else y)
  writes_picked true x y hx hy = hx refl
  writes_picked false x y hx hy = hy refl

  pub reconcile_manager_cluster_role_binding-Issues :
      Issues P (reconcile_manager_cluster_role_binding r ctx authorino)
  unfolding reconcile_manager_cluster_role_binding
  reconcile_manager_cluster_role_binding-Issues = checked-Issues r ctx authorino reports _ _ (
      Issues-cases authorino.spec.cluster_wide _ _
        (λ wide.
          reconcile_cluster_role_binding-Issues r ctx authorino reports _ (allowed.wide wide))
        (λ not_wide.
          Issues-bind _ _
            (reconcile_cluster_role_binding-Issues r ctx authorino reports _
              (allowed.not_wide not_wide))
            (λ err. Issues-pure none)))

  pub reconcile_manager_role_binding-Issues :
      Issues P (reconcile_manager_role_binding r ctx authorino)
  unfolding reconcile_manager_role_binding
  reconcile_manager_role_binding-Issues = checked-Issues r ctx authorino reports _ _ (
      reconcile_role_binding-Issues r ctx authorino reports _
        (writes_picked _ _ _ allowed.not_namespaced allowed.namespaced))

  pub reconcile_manager_auth_cluster_role_binding-Issues :
      Issues P (reconcile_manager_auth_cluster_role_binding r ctx authorino)
  unfolding reconcile_manager_auth_cluster_role_binding
  reconcile_manager_auth_cluster_role_binding-Issues =
      checked-Issues r ctx authorino reports _ _
        (reconcile_cluster_role_binding-Issues r ctx authorino reports _ allowed.auth)

  pub reconcile_leader_election_role_binding-Issues :
      Issues P (reconcile_leader_election_role_binding r ctx authorino)
  unfolding reconcile_leader_election_role_binding
  reconcile_leader_election_role_binding-Issues =
      reconcile_role_binding-Issues r ctx authorino reports _ allowed.leader

  cleanup_answer-Issues :
      (suffix : String) (w : W) (answer : Answer Binding)
      → Cleans r ctx authorino P suffix
      → (r.get_cluster_role_binding (legacy_key r ctx authorino suffix) w).0 ≡ answer
      → Issues P (cleanup_answer r authorino answer)
  unfolding cleanup_answer
  cleanup_answer-Issues suffix w (failed e) cleans is = Issues-pure tt
  cleanup_answer-Issues suffix w (found binding) cleans is =
      Issues-cases (subject_included binding.subjects (own_subject authorino)) _ _
        (λ own.
          Issues-bind _ _ (Issues-perform _ _ (cleans binding w is own)) (λ err. Issues-pure tt))
        (λ foreign. Issues-pure tt)

  cleanup_one-Issues :
      (suffix : String)
      → Cleans r ctx authorino P suffix
      → Issues P (cleanup_one r authorino suffix)
  unfolding cleanup_one perform
  cleanup_one-Issues suffix cleans =
      Issues-bind-returned _ _ (Issues-perform _ _ (allowed.looks _))
        (λ s answer is. cleanup_answer-Issues suffix s.world answer cleans (cc is))

  cleanup_each-Issues :
      (suffixes : List String)
      → All (Cleans r ctx authorino P) suffixes
      → Issues P (cleanup_each r authorino suffixes)
  unfolding cleanup_each
  cleanup_each-Issues [] cleans = Issues-pure tt
  cleanup_each-Issues (suffix ∷ rest) (here, later) =
      Issues-bind _ _ (cleanup_one-Issues suffix here) (λ _. cleanup_each-Issues rest later)

  pub cleanup_legacy_cluster_role_bindings-Issues :
      Issues P (cleanup_legacy_cluster_role_bindings r authorino)
  unfolding cleanup_legacy_cluster_role_bindings
  cleanup_legacy_cluster_role_bindings-Issues = cleanup_each-Issues _ allowed.cleans

  pub reconcile_authorino_permissions-Issues :
      Issues P (reconcile_authorino_permissions r ctx authorino)
  unfolding reconcile_authorino_permissions
  reconcile_authorino_permissions-Issues = in_front reconcile_manager_cluster_role_binding-Issues (
      in_front reconcile_manager_role_binding-Issues (
        in_front reconcile_manager_auth_cluster_role_binding-Issues (
          in_front
            (reconcile_leader_election_role-Issues r ctx authorino reports allowed.leader_role)
            (in_front reconcile_leader_election_role_binding-Issues (
              Issues-bind _ _ cleanup_legacy_cluster_role_bindings-Issues
                (λ _. Issues-pure none))))))
    where
      in_front :
          {m rest : M W Err} → Issues P m → Issues P rest → Issues P (m >>= λ err. unless err rest)
      in_front h k = Issues-bind _ _ h (λ err. Issues-unless err _ k)
