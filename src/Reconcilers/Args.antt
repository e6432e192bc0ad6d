-- ===== src/Reconcilers/Args.antt =====
-- `buildAuthorinoArgs` of pkg/reconcilers/deployment.go: the command line of Authorino.
pub mod Flags
pub mod Laws
pub mod Tags
use authorino_operator.Prelude.{
  ℤ, String, Bool, true, false, not, Option, none, some, List, [], ◌∷◌, ◌++◌, ◌==◌, concat, join,
  map, first, split, trim_prefix, when, when_some, format_int, exceeds_one, ◌||◌,
}
use authorino_operator.Kube.{entries}
use authorino_operator.Api.{Authorino, Tls, Tracing}
use authorino_operator.Reconcilers.Consts
use authorino_operator.Reconcilers.Consts.{
  flag_watch_namespace, flag_watched_auth_config_label_selector, flag_watched_secret_label_selector,
  flag_superseding_host_subsets, flag_log_level, flag_log_mode, flag_timeout,
  flag_ext_auth_grpc_port, flag_ext_auth_http_port, flag_tls_cert_path, flag_tls_cert_key_path,
  flag_oidc_http_port, flag_oidc_tls_cert_path, flag_oidc_tls_cert_key_path,
  flag_evaluator_cache_size, flag_tracing_service_endpoint, flag_tracing_service_tag,
  flag_tracing_service_insecure, flag_deep_metrics_enabled, flag_metrics_addr,
  flag_health_probe_addr, flag_enable_leader_election, flag_max_http_request_body_size,
  flag_tls_min_version, flag_tls_max_version, flag_tls_cipher_suites, flag_oidc_tls_min_version,
  flag_oidc_tls_max_version, flag_oidc_tls_cipher_suites, default_tls_cert_path,
  default_tls_cert_key_path, default_oidc_tls_cert_path, default_oidc_tls_cert_key_path,
}

-- `fmt.Sprintf("--%s=%s", name, value)`
abbrev pub flag : String → String → String
flag name value = concat ("--" ∷ name ∷ "=" ∷ value ∷ [])

-- `fmt.Sprintf("--%s", name)`
abbrev pub switch : String → String
switch name = concat ("--" ∷ name ∷ [])

-- `if value != "" { args = append(args, …) }`
abbrev pub text_flag : String → String → List String
text_flag name value = when (not (value == "")) (flag name value ∷ [])

-- `if value != nil { args = append(args, …) }` with `%d`
abbrev pub int_flag : String → Option ℤ → List String
int_flag name value = when_some value (λ n. flag name (format_int n) ∷ [])

-- the same with `:%d`
abbrev pub addr_flag : String → Option ℤ → List String
addr_flag name port = when_some port (λ n. flag name (concat (":" ∷ format_int n ∷ [])) ∷ [])

-- `enabled == nil || *enabled`
abbrev pub enabled_by_default : Option Bool → Bool
enabled_by_default none = true
enabled_by_default (some b) = b

-- `enabled != nil && *enabled`
abbrev pub explicitly_enabled : Option Bool → Bool
explicitly_enabled none = false
explicitly_enabled (some b) = b

-- the first of two ports that is set; the second is the deprecated one
abbrev pub or_deprecated : Option ℤ → Option ℤ → Option ℤ
or_deprecated none deprecated = deprecated
or_deprecated (some p) deprecated = some p

-- `replicas != nil && *replicas > 1`
abbrev pub many_replicas : Option ℤ → Bool
many_replicas none = false
many_replicas (some n) = exceeds_one n

abbrev pub is_nonempty : List String → Bool
is_nonempty [] = false
is_nonempty (s ∷ rest) = true

-- certificate, key, versions and cipher suites of one listener
unfoldable pub listener_tls_args : Tls → List String
unfolding join
listener_tls_args tls = when (enabled_by_default tls.enabled) (
    flag flag_tls_cert_path default_tls_cert_path
    ∷ flag flag_tls_cert_key_path default_tls_cert_key_path
    ∷ (text_flag flag_tls_min_version tls.min_version
        ++ text_flag flag_tls_max_version tls.max_version
        ++ when (is_nonempty tls.cipher_suites)
            (flag flag_tls_cipher_suites (join tls.cipher_suites ",") ∷ [])))

unfoldable pub oidc_tls_args : Tls → List String
unfolding join
oidc_tls_args tls = when (enabled_by_default tls.enabled) (
    flag flag_oidc_tls_cert_path default_oidc_tls_cert_path
    ∷ flag flag_oidc_tls_cert_key_path default_oidc_tls_cert_key_path
    ∷ (text_flag flag_oidc_tls_min_version tls.min_version
        ++ text_flag flag_oidc_tls_max_version tls.max_version
        ++ when (is_nonempty tls.cipher_suites)
            (flag flag_oidc_tls_cipher_suites (join tls.cipher_suites ",") ∷ [])))

abbrev pub tag_arg : String × String → String
tag_arg (key, value) = concat ("--" ∷ flag_tracing_service_tag ∷ "=" ∷ key ∷ "=" ∷ value ∷ [])

unfoldable pub tracing_args : Tracing → List String
tracing_args tracing = when (not (tracing.endpoint == "")) (
    flag flag_tracing_service_endpoint tracing.endpoint
    ∷ (map tag_arg (entries tracing.tags)
        ++ when tracing.insecure (switch flag_tracing_service_insecure ∷ [])))

-- the flags up to the ports of the auth service
unfoldable pub service_args : Authorino → List String
unfolding format_int
service_args authorino =
    when (not authorino.spec.cluster_wide) (flag flag_watch_namespace authorino.meta.namespace ∷ [])
    ++ text_flag flag_watched_auth_config_label_selector authorino.spec.auth_config_label_selectors
    ++ text_flag flag_watched_secret_label_selector authorino.spec.secret_label_selectors
    ++ when authorino.spec.superseding_host_subsets (switch flag_superseding_host_subsets ∷ [])
    ++ text_flag flag_log_level authorino.spec.log_level
    ++ text_flag flag_log_mode authorino.spec.log_mode
    ++ int_flag flag_timeout authorino.spec.listener.timeout
    ++ int_flag flag_ext_auth_grpc_port
        (or_deprecated authorino.spec.listener.ports.grpc authorino.spec.listener.port)
    ++ int_flag flag_ext_auth_http_port authorino.spec.listener.ports.http

-- the flags behind the tracing ones
unfoldable pub probe_args : Authorino → List String
unfolding format_int
probe_args authorino =
    when (explicitly_enabled authorino.spec.metrics.deep_metrics_enabled)
      (switch flag_deep_metrics_enabled ∷ [])
    ++ addr_flag flag_metrics_addr authorino.spec.metrics.port
    ++ addr_flag flag_health_probe_addr authorino.spec.healthz.port
    ++ when (many_replicas authorino.spec.replicas) (switch flag_enable_leader_election ∷ [])
    ++ int_flag flag_max_http_request_body_size authorino.spec.listener.max_http_request_body_size

unfoldable pub build_authorino_args : Authorino → List String
unfolding service_args listener_tls_args oidc_tls_args tracing_args probe_args format_int
build_authorino_args authorino =
    service_args authorino
    ++ listener_tls_args authorino.spec.listener.tls
    ++ int_flag flag_oidc_http_port authorino.spec.oidc_server.port
    ++ oidc_tls_args authorino.spec.oidc_server.tls
    ++ int_flag flag_evaluator_cache_size authorino.spec.evaluator_cache_size
    ++ tracing_args authorino.spec.tracing
    ++ probe_args authorino

-- `strings.Split(strings.TrimPrefix(arg, "--"), "=")[0]`
unfoldable pub flag_name : String → String
unfolding split trim_prefix
flag_name arg = first (split (trim_prefix arg "--") b'=')

-- The flags that the versions configured by environment variables understand: the loop of
-- `AuthorinoDeployment` over the arguments.
unfoldable pub compatible_args : List String → List String
unfolding flag_name
compatible_args [] = []
compatible_args (arg ∷ args) =
    when (flag_name arg == flag_metrics_addr || flag_name arg == flag_enable_leader_election)
      (arg ∷ [])
    ++ compatible_args args
