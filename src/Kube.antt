-- ===== src/Kube.antt =====
-- The types of the Kubernetes libraries (k8s.io/api, k8s.io/apimachinery) as far as the operator
-- fills or reads them. A nested struct with one use is written flat; a Go map is the list of its
-- entries in the order in which a `range` loop would visit them, and `none` is the nil map.
use authorino_operator.Prelude.{
  ℕ, ℤ, String, Bool, Option, none, some, List, [], ◌∷◌, ◌==◌, if◌then◌else◌,
}

abbrev pub Time : Type 0
Time = ℕ

abbrev pub Entries : Type 0
Entries = List (String × String)

abbrev pub StringMap : Type 0
StringMap = Option Entries

pub record OwnerReference : Type 0 where
  pub kind : String
  pub name : String
  pub uid : String
  pub controller : Bool

pub record TypeMeta : Type 0 where
  pub api_version : String
  pub kind : String

pub record ObjectMeta : Type 0 where
  pub name : String
  pub namespace : String
  pub labels : StringMap
  pub annotations : StringMap
  pub owner_references : List OwnerReference
  pub uid : String
  pub resource_version : String
  pub deletion_timestamp : Option Time
  pub finalizers : List String

-- the zero value of the struct, with a name, a namespace and labels
abbrev pub named : String → String → StringMap → ObjectMeta
named name namespace labels = record {
  name = name;
  namespace = namespace;
  labels = labels;
  annotations = none;
  owner_references = [];
  uid = "";
  resource_version = "";
  deletion_timestamp = none;
  finalizers = [];
}

pub record ObjectKey : Type 0 where
  pub namespace : String
  pub name : String

pub record LocalObjectReference : Type 0 where
  pub name : String

pub record KeyToPath : Type 0 where
  pub key : String
  pub path : String
  pub mode : Option ℤ

pub data VolumeProjection : Type 0 where
  config_map : (name : String) (items : List KeyToPath) → VolumeProjection
  secret : (name : String) (items : List KeyToPath) → VolumeProjection

pub data VolumeSource : Type 0 where
  projected : (sources : List VolumeProjection) (default_mode : Option ℤ) → VolumeSource
  secret : (secret_name : String) → VolumeSource

pub record Volume : Type 0 where
  pub name : String
  pub source : VolumeSource

pub record VolumeMount : Type 0 where
  pub name : String
  pub mount_path : String
  pub sub_path : String
  pub read_only : Bool

pub record EnvVar : Type 0 where
  pub name : String
  pub value : String

pub record Container : Type 0 where
  pub image : String
  pub image_pull_policy : String
  pub name : String
  pub env : List EnvVar
  pub volume_mounts : List VolumeMount
  pub args : List String

pub record DeploymentCondition : Type 0 where
  pub type : String
  pub status : String

-- `Spec.Selector.MatchLabels`, `Spec.Template` and `Status.Conditions` are fields here.
pub record Deployment : Type 0 where
  pub type_meta : TypeMeta
  pub meta : ObjectMeta
  pub replicas : Option ℤ
  pub match_labels : StringMap
  pub template_labels : StringMap
  pub service_account_name : String
  pub containers : List Container
  pub volumes : List Volume
  pub conditions : List DeploymentCondition

pub record ServicePort : Type 0 where
  pub name : String
  pub port : ℤ
  pub protocol : String
  pub target_port : ℤ

pub record ServiceSpec : Type 0 where
  pub ports : List ServicePort
  pub selector : StringMap

pub record Service : Type 0 where
  pub type_meta : TypeMeta
  pub meta : ObjectMeta
  pub spec : ServiceSpec

pub record ServiceAccount : Type 0 where
  pub type_meta : TypeMeta
  pub meta : ObjectMeta

pub record RoleRef : Type 0 where
  pub api_group : String
  pub kind : String
  pub name : String

pub record Subject : Type 0 where
  pub api_group : String
  pub kind : String
  pub name : String
  pub namespace : String

-- Both `ClusterRoleBinding` and `RoleBinding` have these fields.
pub record Binding : Type 0 where
  pub type_meta : TypeMeta
  pub meta : ObjectMeta
  pub role_ref : RoleRef
  pub subjects : List Subject

pub record PolicyRule : Type 0 where
  pub api_groups : List String
  pub resources : List String
  pub verbs : List String

pub record Role : Type 0 where
  pub type_meta : TypeMeta
  pub meta : ObjectMeta
  pub rules : List PolicyRule

-- The Go type that a client call is about.
pub data Kind : Type 0 where
  deployment service service_account cluster_role cluster_role_binding : Kind
  role_binding role secret : Kind

-- `client.Object`, for the kinds that the operator reads and writes beside its own resource
pub data Object : Type 0 where
  deployment : Deployment → Object
  service : Service → Object
  service_account : ServiceAccount → Object
  cluster_role : ObjectMeta → Object
  cluster_role_binding : Binding → Object
  role_binding : Binding → Object
  role : Role → Object
  secret : ObjectMeta → Object

abbrev pub kind_of : Object → Kind
kind_of (Object.deployment _) = Kind.deployment
kind_of (Object.service _) = Kind.service
kind_of (Object.service_account _) = Kind.service_account
kind_of (Object.cluster_role _) = Kind.cluster_role
kind_of (Object.cluster_role_binding _) = Kind.cluster_role_binding
kind_of (Object.role_binding _) = Kind.role_binding
kind_of (Object.role _) = Kind.role
kind_of (Object.secret _) = Kind.secret

abbrev pub meta_of : Object → ObjectMeta
meta_of (Object.deployment o) = o.meta
meta_of (Object.service o) = o.meta
meta_of (Object.service_account o) = o.meta
meta_of (Object.cluster_role m) = m
meta_of (Object.cluster_role_binding o) = o.meta
meta_of (Object.role_binding o) = o.meta
meta_of (Object.role o) = o.meta
meta_of (Object.secret m) = m

abbrev pub with_meta : Object → ObjectMeta → Object
with_meta (Object.deployment o) m = Object.deployment (record o { meta = m })
with_meta (Object.service o) m = Object.service (record o { meta = m })
with_meta (Object.service_account o) m = Object.service_account (record o { meta = m })
with_meta (Object.cluster_role _) m = Object.cluster_role m
with_meta (Object.cluster_role_binding o) m = Object.cluster_role_binding (record o { meta = m })
with_meta (Object.role_binding o) m = Object.role_binding (record o { meta = m })
with_meta (Object.role o) m = Object.role (record o { meta = m })
with_meta (Object.secret _) m = Object.secret m

-- `client.ObjectKeyFromObject`
abbrev pub object_key : Object → ObjectKey
object_key o = record { namespace = (meta_of o).namespace; name = (meta_of o).name }

-- Reading a map: `v, ok := m[k]`.
unfoldable pub lookup : String → Entries → Option String
lookup k [] = none
lookup k ((j, v) ∷ m) = if j == k then some v else lookup k m

-- The entries that a `range` loop visits: none for the nil map.
abbrev pub entries : StringMap → Entries
entries none = []
entries (some m) = m
