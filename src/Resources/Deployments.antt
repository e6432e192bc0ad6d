-- ===== src/Resources/Deployments.antt =====
-- pkg/resources/k8s_deployment.go: the deployment, its container and the TLS volumes.
use authorino_operator.Prelude.{ℤ, String, true, Option, List, [], ◌∷◌, ◌==◌, if◌then◌else◌}
use authorino_operator.Kube.{
  StringMap, Deployment, Container, EnvVar, Volume, VolumeMount, VolumeSource,
}
use authorino_operator.Resources.Names.{get_object_meta, default_authorino_labels}

unfoldable pub get_deployment :
    String → String → String → Option ℤ → List Container → List Volume → StringMap → Deployment
get_deployment name namespace sa_name replicas containers volumes labels = record {
  type_meta = record { api_version = "apps/v1"; kind = "Deployment" };
  meta = get_object_meta namespace name labels;
  replicas = replicas;
  match_labels = default_authorino_labels name;
  template_labels = default_authorino_labels name;
  service_account_name = sa_name;
  containers = containers;
  volumes = volumes;
  conditions = [];
}

-- `c.Args` stays nil where there are no arguments: the empty list either way.
unfoldable pub get_container :
    String → String → String → List String → List EnvVar → List VolumeMount → Container
get_container image pull_policy name args env mounts = record {
  image = image;
  image_pull_policy = if pull_policy == "" then "Always" else pull_policy;
  name = name;
  env = env;
  volume_mounts = mounts;
  args = args;
}

unfoldable pub get_tls_volume_mount : String → String → String → List VolumeMount
get_tls_volume_mount cert_name cert_path cert_key_path =
    record { name = cert_name; mount_path = cert_path; sub_path = "tls.crt"; read_only = true }
    ∷ record {
      name = cert_name;
      mount_path = cert_key_path;
      sub_path = "tls.key";
      read_only = true;
    }
    ∷ []

unfoldable pub get_tls_volume : String → String → Volume
get_tls_volume cert_name secret_name = record {
  name = cert_name;
  source = VolumeSource.secret secret_name;
}
