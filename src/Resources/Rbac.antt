-- ===== src/Resources/Rbac.antt =====
-- pkg/resources/k8s_rbac.go: service accounts, bindings and the leader election rules.
pub mod Laws
use authorino_operator.Prelude.{
  ℕ, String, Bool, true, false, ◌&&◌, List, [], ◌∷◌, ◌==◌, if◌then◌else◌,
}
use authorino_operator.Kube.{
  StringMap, ServiceAccount, RoleRef, Subject, Binding, PolicyRule, named,
}
use authorino_operator.Resources.Names.{
  get_object_meta, authorino_service_account_name, authorino_role_binding_name,
  authorino_cluster_role_binding_name,
}

-- `k8srbac.SchemeGroupVersion.String()`
abbrev pub rbac_version : String
rbac_version = "rbac.authorization.k8s.io/v1"

unfoldable pub get_authorino_service_account : String → String → StringMap → ServiceAccount
get_authorino_service_account namespace cr_name labels = record {
  type_meta = record { api_version = "v1"; kind = "ServiceAccount" };
  meta = get_object_meta namespace (authorino_service_account_name cr_name) labels;
}

abbrev get_role_ref_and_subject : String → String → ServiceAccount → RoleRef × Subject
get_role_ref_and_subject role_name role_kind sa = (
  record { api_group = ""; name = role_name; kind = role_kind },
  record {
    api_group = "";
    kind = "ServiceAccount";
    name = sa.meta.name;
    namespace = sa.meta.namespace;
  },
)

-- The metadata of a cluster-scoped binding have no namespace.
unfoldable pub get_authorino_cluster_role_binding :
    (String → List ℕ) → String → String → String → String → ServiceAccount → StringMap → Binding
get_authorino_cluster_role_binding sum256 namespace cr_name suffix role_name sa labels =
    let (role_ref, subject) = get_role_ref_and_subject role_name "ClusterRole" sa in
    record {
      type_meta = record { api_version = rbac_version; kind = "ClusterRoleBinding" };
      meta = named (authorino_cluster_role_binding_name sum256 namespace cr_name suffix) "" labels;
      role_ref = role_ref;
      subjects = subject ∷ [];
    }

unfoldable pub get_authorino_role_binding :
    String → String → String → String → String → ServiceAccount → StringMap → Binding
get_authorino_role_binding namespace cr_name suffix role_kind role_name sa labels =
    let (role_ref, subject) = get_role_ref_and_subject role_name role_kind sa in
    record {
      type_meta = record { api_version = rbac_version; kind = "RoleBinding" };
      meta = get_object_meta namespace (authorino_role_binding_name cr_name suffix) labels;
      role_ref = role_ref;
      subjects = subject ∷ [];
    }

unfoldable pub get_subject_for_role_binding : ServiceAccount → Subject
get_subject_for_role_binding sa = record {
  api_group = "";
  kind = "ServiceAccount";
  name = sa.meta.name;
  namespace = sa.meta.namespace;
}

abbrev pub same_subject : Subject → Subject → Bool
same_subject s t = s.kind == t.kind && s.name == t.name && s.namespace == t.namespace

unfoldable pub subject_included : List Subject → Subject → Bool
subject_included [] subject = false
subject_included (s ∷ subjects) subject =
    if same_subject s subject then true else subject_included subjects subject

abbrev rule : String → String → List String → PolicyRule
rule group resource verbs = record {
  api_groups = group ∷ [];
  resources = resource ∷ [];
  verbs = verbs;
}

abbrev pub get_leader_election_rules : List PolicyRule
get_leader_election_rules =
    rule "" "configmaps" ("get" ∷ "list" ∷ "watch" ∷ "create" ∷ "update" ∷ "patch" ∷ "delete" ∷ [])
    ∷ rule "" "configmaps/status" ("get" ∷ "update" ∷ "patch" ∷ [])
    ∷ rule "" "events" ("create" ∷ "patch" ∷ [])
    ∷ rule "coordination.k8s.io" "leases" ("get" ∷ "list" ∷ "create" ∷ "update" ∷ [])
    ∷ []
