-- ===== src/Reconcilers/Pod.antt =====
-- `AuthorinoDeployment` and `DeploymentAvailable` of pkg/reconcilers/deployment.go.
pub mod Laws
use authorino_operator.Prelude.{
  ℤ, pos, String, Bool, false, Option, none, some, List, [], ◌∷◌, ◌++◌, map, ◌==◌, concat,
  if◌then◌else◌,
}
use authorino_operator.Kube.{
  Deployment, DeploymentCondition, EnvVar, KeyToPath, LocalObjectReference, Volume, VolumeMount,
  VolumeProjection, VolumeSource,
}
use authorino_operator.Api.{Authorino, Tls, VolumeSpec}
use authorino_operator.Resources.Deployments.{
  get_deployment, get_container, get_tls_volume_mount, get_tls_volume,
}
use authorino_operator.Reconcilers.Consts.{
  related_image_authorino, authorino_container_name, authorino_tls_cert_volume_name,
  authorino_oidc_tls_cert_volume_name, default_tls_cert_path, default_tls_cert_key_path,
  default_oidc_tls_cert_path, default_oidc_tls_cert_key_path,
}
use authorino_operator.Reconcilers.Outcome.{Outcome, returned, panicked, ◌>>=◌}
use authorino_operator.Reconcilers.Args.{build_authorino_args, compatible_args, enabled_by_default}
use authorino_operator.Reconcilers.EnvVars.{build_authorino_env}
use authorino_operator.Reconcilers.Version.{
  detect_env_var_authorino_version, authorino_version_from_image_tag,
}

-- What the process has from outside: `env.GetString`, and the image set when it was linked.
pub record Process : Type 0 where
  pub get_string : String → String → String
  pub default_authorino_image : String

abbrev config_map_source : List KeyToPath → String → VolumeProjection
config_map_source items name = VolumeProjection.config_map name items

abbrev secret_source : List KeyToPath → String → VolumeProjection
secret_source items name = VolumeProjection.secret name items

-- one round of the loop over the volumes of the CR
abbrev pub projected_volume : Option ℤ → VolumeSpec → Volume
projected_volume mode volume = record {
  name = volume.name;
  source =
      VolumeSource.projected
        (map (config_map_source volume.items) volume.config_maps
          ++ map (secret_source volume.items) volume.secrets)
        mode;
}

abbrev pub volume_mount : VolumeSpec → VolumeMount
volume_mount volume = record {
  name = volume.name;
  mount_path = volume.mount_path;
  sub_path = "";
  read_only = false;
}

-- `secret.Name`: a nil pointer panics
abbrev pub secret_name : Option LocalObjectReference → Outcome String
secret_name none = panicked "nil pointer dereference"
secret_name (some ref) = returned ref.name

abbrev pub Mounts : Type 0
Mounts = List Volume × List VolumeMount

abbrev pub mount_secret : Mounts → String → String → String → String → Mounts
mount_secret (volumes, mounts) volume cert_path key_path secret = (
  volumes ++ get_tls_volume volume secret ∷ [],
  mounts ++ get_tls_volume_mount volume cert_path key_path,
)

-- the TLS certificate of one listener, if TLS is enabled
unfoldable pub mount_tls : Tls → String → String → String → Mounts → Outcome Mounts
mount_tls tls volume cert_path key_path mounts =
    if enabled_by_default tls.enabled
    then (secret_name tls.cert_secret >>= λ secret.
        returned (mount_secret mounts volume cert_path key_path secret))
    else returned mounts

-- the loop over the volumes of the CR
abbrev pub custom_mounts : Authorino → Mounts
custom_mounts authorino = (
  map (projected_volume authorino.spec.volumes.default_mode) authorino.spec.volumes.items,
  map volume_mount authorino.spec.volumes.items,
)

abbrev pub mount_listener : Authorino → Mounts → Outcome Mounts
mount_listener authorino =
    mount_tls authorino.spec.listener.tls authorino_tls_cert_volume_name default_tls_cert_path
      default_tls_cert_key_path

abbrev pub mount_oidc : Authorino → Mounts → Outcome Mounts
mount_oidc authorino =
    mount_tls authorino.spec.oidc_server.tls authorino_oidc_tls_cert_volume_name
      default_oidc_tls_cert_path default_oidc_tls_cert_key_path

unfoldable pub authorino_mounts : Authorino → Outcome Mounts
authorino_mounts authorino =
    mount_listener authorino (custom_mounts authorino) >>= mount_oidc authorino

-- Old versions get variables and the arguments that they understand, others arguments alone.
unfoldable pub args_and_env : Authorino → String → List String × List EnvVar
args_and_env authorino image =
    if detect_env_var_authorino_version (authorino_version_from_image_tag image)
    then (compatible_args (build_authorino_args authorino), build_authorino_env authorino)
    else (build_authorino_args authorino, [])

abbrev or_one : Option ℤ → Option ℤ
or_one none = some (pos 1)
or_one (some n) = some n

unfoldable pub deployment_with : Authorino → String → Mounts → Deployment
deployment_with authorino image (volumes, mounts) =
    let (args, envs) = args_and_env authorino image in
    let container =
      get_container image authorino.spec.image_pull_policy authorino_container_name args envs
        mounts in
    get_deployment authorino.meta.name authorino.meta.namespace
      (concat (authorino.meta.name ∷ "-authorino" ∷ [])) (or_one authorino.spec.replicas)
      (container ∷ []) volumes authorino.meta.labels

-- the image of the CR, or that of the environment or of the build
unfoldable pub authorino_image : Process → Authorino → String
authorino_image process authorino =
    if authorino.spec.image == ""
    then process.get_string related_image_authorino process.default_authorino_image
    else authorino.spec.image

unfoldable pub authorino_deployment : Process → Authorino → Outcome Deployment
authorino_deployment process authorino =
    let image = authorino_image process authorino in
    if image == ""
    then panicked "DefaultAuthorinoImage is empty"
    else (authorino_mounts authorino >>= λ mounts.
        returned (deployment_with authorino image mounts))

-- the first condition of type "Available" decides
unfoldable pub available_in : List DeploymentCondition → Bool
available_in [] = false
available_in (c ∷ rest) = if c.type == "Available" then c.status == "True" else available_in rest

unfoldable pub deployment_available : Deployment → Bool
deployment_available deployment = available_in deployment.conditions
