-- ===== src/Api.antt =====
-- api/v1beta1/authorino_types.go: the custom resource `Authorino`. A Go pointer is an `Option`, and
-- an integer is an `ℤ`.
pub mod DeepCopy
pub mod Scheme
use authorino_operator.Prelude.{ℤ, String, Bool, false, Option, List, [], ◌∷◌, ◌==◌, if◌then◌else◌}
use authorino_operator.Kube.{Time, StringMap, ObjectMeta, LocalObjectReference, KeyToPath}

abbrev pub condition_ready : String
condition_ready = "Ready"

pub record Condition : Type 0 where
  pub type : String
  pub status : String
  pub last_transition_time : Time
  pub reason : String
  pub message : String
  pub last_updated_time : Option Time

pub record Ports : Type 0 where
  pub grpc : Option ℤ
  pub http : Option ℤ

pub record Tracing : Type 0 where
  pub endpoint : String
  pub tags : StringMap
  pub insecure : Bool

pub record Metrics : Type 0 where
  pub port : Option ℤ
  pub deep_metrics_enabled : Option Bool

pub record Healthz : Type 0 where
  pub port : Option ℤ

pub record Tls : Type 0 where
  pub enabled : Option Bool
  pub cert_secret : Option LocalObjectReference
  pub min_version : String
  pub max_version : String
  pub cipher_suites : List String

pub record VolumeSpec : Type 0 where
  pub name : String
  pub mount_path : String
  pub config_maps : List String
  pub secrets : List String
  pub items : List KeyToPath

pub record VolumesSpec : Type 0 where
  pub items : List VolumeSpec
  pub default_mode : Option ℤ

pub record Listener : Type 0 where
  pub port : Option ℤ
  pub ports : Ports
  pub tls : Tls
  pub timeout : Option ℤ
  pub max_http_request_body_size : Option ℤ

pub record OidcServer : Type 0 where
  pub port : Option ℤ
  pub tls : Tls

pub record AuthorinoSpec : Type 0 where
  pub image : String
  pub image_pull_policy : String
  pub replicas : Option ℤ
  pub volumes : VolumesSpec
  pub log_level : String
  pub log_mode : String
  pub cluster_wide : Bool
  pub listener : Listener
  pub oidc_server : OidcServer
  pub auth_config_label_selectors : String
  pub secret_label_selectors : String
  pub superseding_host_subsets : Bool
  pub evaluator_cache_size : Option ℤ
  pub tracing : Tracing
  pub metrics : Metrics
  pub healthz : Healthz

pub record AuthorinoStatus : Type 0 where
  pub conditions : List Condition

pub record Authorino : Type 0 where
  pub meta : ObjectMeta
  pub spec : AuthorinoSpec
  pub status : AuthorinoStatus

-- `Ready()`: the first condition of the type decides.
unfoldable pub ready_in : List Condition → Bool
ready_in [] = false
ready_in (c ∷ rest) = if c.type == condition_ready then c.status == "True" else ready_in rest

unfoldable pub ready : AuthorinoStatus → Bool
unfolding ready_in
ready status = ready_in status.conditions
