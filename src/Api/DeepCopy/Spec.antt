-- ===== src/Api/DeepCopy/Spec.antt =====
-- api/v1beta1/zz_generated.deepcopy.go: the spec of an `Authorino`, stored, and its copy.
use authorino_operator.Prelude.{ℤ, String, Bool, ◌++◌}
use authorino_operator.Kube.{KeyToPath}
use authorino_operator.Api.{AuthorinoSpec}
use authorino_operator.Api.DeepCopy.{Copier, Pointer, address_of, copy_pointer, read_pointer}
use authorino_operator.Api.DeepCopy.Parts.{
  StoredHealthz, StoredListener, StoredMetrics, StoredOidcServer, StoredTracing, healthz_copier,
  listener_copier, metrics_copier, oidc_server_copier, tracing_copier,
}
use authorino_operator.Api.DeepCopy.Volumes.{StoredVolumesSpec, volumes_spec_copier}

pub record StoredAuthorinoSpec (K : Type 0) : Type 0 where
  pub image : String
  pub image_pull_policy : String
  pub replicas : Pointer ℤ
  pub volumes : StoredVolumesSpec K
  pub log_level : String
  pub log_mode : String
  pub cluster_wide : Bool
  pub listener : StoredListener
  pub oidc_server : StoredOidcServer
  pub auth_config_label_selectors : String
  pub secret_label_selectors : String
  pub superseding_host_subsets : Bool
  pub evaluator_cache_size : Pointer ℤ
  pub tracing : StoredTracing
  pub metrics : StoredMetrics
  pub healthz : StoredHealthz

abbrev pub authorino_spec_copier :
    {K : Type 0} → Copier K KeyToPath → Copier (StoredAuthorinoSpec K) AuthorinoSpec
authorino_spec_copier key = record {
  read = λ x. record {
    image = x.image;
    image_pull_policy = x.image_pull_policy;
    replicas = read_pointer x.replicas;
    volumes = (volumes_spec_copier key).read x.volumes;
    log_level = x.log_level;
    log_mode = x.log_mode;
    cluster_wide = x.cluster_wide;
    listener = listener_copier.read x.listener;
    oidc_server = oidc_server_copier.read x.oidc_server;
    auth_config_label_selectors = x.auth_config_label_selectors;
    secret_label_selectors = x.secret_label_selectors;
    superseding_host_subsets = x.superseding_host_subsets;
    evaluator_cache_size = read_pointer x.evaluator_cache_size;
    tracing = tracing_copier.read x.tracing;
    metrics = metrics_copier.read x.metrics;
    healthz = healthz_copier.read x.healthz;
  };
  addresses = λ x.
      address_of x.replicas
      ++ ((volumes_spec_copier key).addresses x.volumes
          ++ (listener_copier.addresses x.listener
              ++ (oidc_server_copier.addresses x.oidc_server
                  ++ (address_of x.evaluator_cache_size
                      ++ (tracing_copier.addresses x.tracing
                          ++ (metrics_copier.addresses x.metrics
                              ++ (healthz_copier.addresses x.healthz)))))));
  copy = λ x next0.
      let (replicas, next1) = copy_pointer x.replicas next0 in
      let (volumes, next2) = (volumes_spec_copier key).copy x.volumes next1 in
      let (listener, next3) = listener_copier.copy x.listener next2 in
      let (oidc_server, next4) = oidc_server_copier.copy x.oidc_server next3 in
      let (evaluator_cache_size, next5) = copy_pointer x.evaluator_cache_size next4 in
      let (tracing, next6) = tracing_copier.copy x.tracing next5 in
      let (metrics, next7) = metrics_copier.copy x.metrics next6 in
      let (healthz, next8) = healthz_copier.copy x.healthz next7 in
      (
        record x {
          replicas = replicas;
          volumes = volumes;
          listener = listener;
          oidc_server = oidc_server;
          evaluator_cache_size = evaluator_cache_size;
          tracing = tracing;
          metrics = metrics;
          healthz = healthz;
        },
        next8,
      );
}
