-- ===== src/Reconcilers/EnvVars.antt =====
-- `buildAuthorinoEnv` of pkg/reconcilers/deployment.go: the variables that configure old versions.
use authorino_operator.Prelude.{
  ℤ, String, not, Option, List, [], ◌∷◌, ◌++◌, ◌==◌, when, when_some, format_int, format_bool,
}
use authorino_operator.Kube.{EnvVar}
use authorino_operator.Api.{Authorino}
use authorino_operator.Reconcilers.Consts.{
  env_watch_namespace, env_auth_config_label_selector, env_secret_label_selector,
  env_evaluator_cache_size, env_deep_metrics_enabled, env_log_level, env_log_mode,
  env_ext_auth_grpc_port, env_ext_auth_http_port, env_tls_cert, env_tls_cert_key, env_timeout,
  env_oidc_http_port, env_oidc_tls_cert_path, env_oidc_tls_cert_key_path,
  env_max_http_request_body_size, default_tls_cert_path, default_tls_cert_key_path,
  default_oidc_tls_cert_path, default_oidc_tls_cert_key_path,
}
use authorino_operator.Reconcilers.Args.{enabled_by_default, or_deprecated}

abbrev env_var : String → String → EnvVar
env_var name value = record { name = name; value = value }

abbrev text_var : String → String → List EnvVar
text_var name value = when (not (value == "")) (env_var name value ∷ [])

abbrev int_var : String → Option ℤ → List EnvVar
int_var name value = when_some value (λ n. env_var name (format_int n) ∷ [])

unfoldable pub build_authorino_env : Authorino → List EnvVar
unfolding format_int
build_authorino_env authorino =
    when (not authorino.spec.cluster_wide)
      (env_var env_watch_namespace authorino.meta.namespace ∷ [])
    ++ text_var env_auth_config_label_selector authorino.spec.auth_config_label_selectors
    ++ text_var env_secret_label_selector authorino.spec.secret_label_selectors
    ++ int_var env_evaluator_cache_size authorino.spec.evaluator_cache_size
    ++ when_some authorino.spec.metrics.deep_metrics_enabled
        (λ b. env_var env_deep_metrics_enabled (format_bool b) ∷ [])
    ++ text_var env_log_level authorino.spec.log_level
    ++ text_var env_log_mode authorino.spec.log_mode
    ++ int_var env_ext_auth_grpc_port
        (or_deprecated authorino.spec.listener.ports.grpc authorino.spec.listener.port)
    ++ int_var env_ext_auth_http_port authorino.spec.listener.ports.http
    ++ when (enabled_by_default authorino.spec.listener.tls.enabled) (
        env_var env_tls_cert default_tls_cert_path
        ∷ env_var env_tls_cert_key default_tls_cert_key_path
        ∷ [])
    ++ int_var env_timeout authorino.spec.listener.timeout
    ++ int_var env_max_http_request_body_size authorino.spec.listener.max_http_request_body_size
    ++ int_var env_oidc_http_port authorino.spec.oidc_server.port
    ++ when (enabled_by_default authorino.spec.oidc_server.tls.enabled) (
        env_var env_oidc_tls_cert_path default_oidc_tls_cert_path
        ∷ env_var env_oidc_tls_cert_key_path default_oidc_tls_cert_key_path
        ∷ [])
