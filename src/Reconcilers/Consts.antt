-- ===== src/Reconcilers/Consts.antt =====
-- pkg/reconcilers/consts.go: names, flags, variables, defaults and status reasons.
use authorino_operator.Prelude.{ℤ, pos, String}

abbrev pub delete_tag_annotation : String
delete_tag_annotation = "authorino.kuadrant.io/delete"

abbrev pub related_image_authorino : String
related_image_authorino = "RELATED_IMAGE_AUTHORINO"

abbrev pub authorino_container_name : String
authorino_container_name = "authorino"

abbrev pub authorino_tls_cert_volume_name : String
authorino_tls_cert_volume_name = "tls-cert"

abbrev pub authorino_oidc_tls_cert_volume_name : String
authorino_oidc_tls_cert_volume_name = "oidc-cert"

abbrev pub authorino_manager_cluster_role_name : String
authorino_manager_cluster_role_name = "authorino-manager-role"

abbrev pub authorino_k8s_auth_cluster_role_name : String
authorino_k8s_auth_cluster_role_name = "authorino-manager-k8s-auth-role"

abbrev pub authorino_leader_election_role_name : String
authorino_leader_election_role_name = "authorino-leader-election-role"

abbrev pub authorino_manager_cluster_role_binding_name : String
authorino_manager_cluster_role_binding_name = "authorino"

abbrev pub authorino_k8s_auth_cluster_role_binding_name : String
authorino_k8s_auth_cluster_role_binding_name = "authorino-k8s-auth"

abbrev pub authorino_leader_election_role_binding_name : String
authorino_leader_election_role_binding_name = "authorino-leader-election"

abbrev pub env_watch_namespace : String
env_watch_namespace = "WATCH_NAMESPACE"

abbrev pub env_auth_config_label_selector : String
env_auth_config_label_selector = "AUTH_CONFIG_LABEL_SELECTOR"

abbrev pub env_secret_label_selector : String
env_secret_label_selector = "SECRET_LABEL_SELECTOR"

abbrev pub env_evaluator_cache_size : String
env_evaluator_cache_size = "EVALUATOR_CACHE_SIZE"

abbrev pub env_deep_metrics_enabled : String
env_deep_metrics_enabled = "DEEP_METRICS_ENABLED"

abbrev pub env_log_level : String
env_log_level = "LOG_LEVEL"

abbrev pub env_log_mode : String
env_log_mode = "LOG_MODE"

abbrev pub env_ext_auth_grpc_port : String
env_ext_auth_grpc_port = "EXT_AUTH_GRPC_PORT"

abbrev pub env_ext_auth_http_port : String
env_ext_auth_http_port = "EXT_AUTH_HTTP_PORT"

abbrev pub env_tls_cert : String
env_tls_cert = "TLS_CERT"

abbrev pub env_tls_cert_key : String
env_tls_cert_key = "TLS_CERT_KEY"

abbrev pub env_timeout : String
env_timeout = "TIMEOUT"

abbrev pub env_oidc_http_port : String
env_oidc_http_port = "OIDC_HTTP_PORT"

abbrev pub env_oidc_tls_cert_path : String
env_oidc_tls_cert_path = "OIDC_TLS_CERT"

abbrev pub env_oidc_tls_cert_key_path : String
env_oidc_tls_cert_key_path = "OIDC_TLS_CERT_KEY"

abbrev pub env_max_http_request_body_size : String
env_max_http_request_body_size = "MAX_HTTP_REQUEST_BODY_SIZE"

abbrev pub flag_watch_namespace : String
flag_watch_namespace = "watch-namespace"

abbrev pub flag_watched_auth_config_label_selector : String
flag_watched_auth_config_label_selector = "auth-config-label-selector"

abbrev pub flag_watched_secret_label_selector : String
flag_watched_secret_label_selector = "secret-label-selector"

abbrev pub flag_superseding_host_subsets : String
flag_superseding_host_subsets = "allow-superseding-host-subsets"

abbrev pub flag_log_level : String
flag_log_level = "log-level"

abbrev pub flag_log_mode : String
flag_log_mode = "log-mode"

abbrev pub flag_timeout : String
flag_timeout = "timeout"

abbrev pub flag_ext_auth_grpc_port : String
flag_ext_auth_grpc_port = "ext-auth-grpc-port"

abbrev pub flag_ext_auth_http_port : String
flag_ext_auth_http_port = "ext-auth-http-port"

abbrev pub flag_tls_cert_path : String
flag_tls_cert_path = "tls-cert"

abbrev pub flag_tls_cert_key_path : String
flag_tls_cert_key_path = "tls-cert-key"

abbrev pub flag_oidc_http_port : String
flag_oidc_http_port = "oidc-http-port"

abbrev pub flag_oidc_tls_cert_path : String
flag_oidc_tls_cert_path = "oidc-tls-cert"

abbrev pub flag_oidc_tls_cert_key_path : String
flag_oidc_tls_cert_key_path = "oidc-tls-cert-key"

abbrev pub flag_evaluator_cache_size : String
flag_evaluator_cache_size = "evaluator-cache-size"

abbrev pub flag_tracing_service_endpoint : String
flag_tracing_service_endpoint = "tracing-service-endpoint"

abbrev pub flag_tracing_service_tag : String
flag_tracing_service_tag = "tracing-service-tag"

abbrev pub flag_tracing_service_insecure : String
flag_tracing_service_insecure = "tracing-service-insecure"

abbrev pub flag_deep_metrics_enabled : String
flag_deep_metrics_enabled = "deep-metrics-enabled"

abbrev pub flag_metrics_addr : String
flag_metrics_addr = "metrics-addr"

abbrev pub flag_health_probe_addr : String
flag_health_probe_addr = "health-probe-addr"

abbrev pub flag_enable_leader_election : String
flag_enable_leader_election = "enable-leader-election"

abbrev pub flag_max_http_request_body_size : String
flag_max_http_request_body_size = "max-http-request-body-size"

abbrev pub flag_tls_min_version : String
flag_tls_min_version = "tls-min-version"

abbrev pub flag_tls_max_version : String
flag_tls_max_version = "tls-max-version"

abbrev pub flag_tls_cipher_suites : String
flag_tls_cipher_suites = "tls-cipher-suites"

abbrev pub flag_oidc_tls_min_version : String
flag_oidc_tls_min_version = "oidc-tls-min-version"

abbrev pub flag_oidc_tls_max_version : String
flag_oidc_tls_max_version = "oidc-tls-max-version"

abbrev pub flag_oidc_tls_cipher_suites : String
flag_oidc_tls_cipher_suites = "oidc-tls-cipher-suites"

abbrev pub default_tls_cert_path : String
default_tls_cert_path = "/etc/ssl/certs/tls.crt"

abbrev pub default_tls_cert_key_path : String
default_tls_cert_key_path = "/etc/ssl/private/tls.key"

abbrev pub default_oidc_tls_cert_path : String
default_oidc_tls_cert_path = "/etc/ssl/certs/oidc.crt"

abbrev pub default_oidc_tls_cert_key_path : String
default_oidc_tls_cert_key_path = "/etc/ssl/private/oidc.key"

abbrev pub default_auth_grpc_service_port : ℤ
default_auth_grpc_service_port = pos 50051

abbrev pub default_auth_http_service_port : ℤ
default_auth_http_service_port = pos 5001

abbrev pub default_oidc_service_port : ℤ
default_oidc_service_port = pos 8083

abbrev pub default_metrics_service_port : ℤ
default_metrics_service_port = pos 8080

abbrev default_health_probe_port : ℤ
default_health_probe_port = pos 8081

abbrev status_provisioning : String
status_provisioning = "Provisioning"

abbrev pub status_provisioned : String
status_provisioned = "Provisioned"

abbrev pub status_updated : String
status_updated = "Updated"

abbrev pub status_unable_to_create_services : String
status_unable_to_create_services = "UnableToCreateServices"

abbrev pub status_unable_to_create_deployment : String
status_unable_to_create_deployment = "UnableToCreateDeployment"

abbrev pub status_unable_to_create_leader_election_role : String
status_unable_to_create_leader_election_role = "UnableToCreateLeaderElectionRole"

abbrev status_unable_to_create_permission : String
status_unable_to_create_permission = "UnableToCreatePermission"

abbrev pub status_unable_to_create_service_account : String
status_unable_to_create_service_account = "UnableToCreateServiceAccount"

abbrev pub status_unable_to_create_binding_for_cluster_role : String
status_unable_to_create_binding_for_cluster_role = "UnableToBindingForClusterRole"

abbrev status_unable_to_create_leader_election_role_binding : String
status_unable_to_create_leader_election_role_binding = "UnableToCreateLeaderElectionRoleBinding"

abbrev pub status_cluster_role_not_found : String
status_cluster_role_not_found = "ClusterRoleNotFound"

abbrev pub status_unable_to_get_cluster_role : String
status_unable_to_get_cluster_role = "UnableToGetClusterRole"

abbrev pub status_unable_to_get_services : String
status_unable_to_get_services = "UnableToGetServices"

abbrev pub status_unable_to_get_binding_for_cluster_role : String
status_unable_to_get_binding_for_cluster_role = "UnableToGetBindingForClusterRole"

abbrev pub status_unable_to_get_service_account : String
status_unable_to_get_service_account = "UnableToGetServiceAccount"

abbrev pub status_unable_to_get_leader_election_role : String
status_unable_to_get_leader_election_role = "UnableToGetLeaderElectionRole"

abbrev status_unable_to_get_leader_election_role_binding : String
status_unable_to_get_leader_election_role_binding = "UnableToGetLeaderElectionRoleBinding"

abbrev pub status_unable_to_get_deployment : String
status_unable_to_get_deployment = "UnableToGetDeployment"

abbrev status_unable_to_get_tls_secret : String
status_unable_to_get_tls_secret = "UnableToGetTlsSecret"

abbrev status_tls_secret_not_found : String
status_tls_secret_not_found = "TlsSecretNotFound"

abbrev pub status_tls_secret_not_provided : String
status_tls_secret_not_provided = "TlsSecretNotProvided"

abbrev pub status_unable_to_update_deployment : String
status_unable_to_update_deployment = "UnableToUpdateDeployment"

abbrev pub status_deployment_not_ready : String
status_deployment_not_ready = "DeploymentNotReady"

abbrev pub status_unable_to_build_deployment_object : String
status_unable_to_build_deployment_object = "UnableToBuildDeploymentObject"
