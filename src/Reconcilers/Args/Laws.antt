-- ===== src/Reconcilers/Args/Laws.antt =====
-- Which flags the versions that are configured by environment variables still get.
use authorino_operator.Prelude.{
  ◌≡◌, refl, ℤ, String, Bool, true, false, not, ◌||◌, Option, none, some, List, [], ◌∷◌, ◌++◌, All,
  All-append, ◌==◌, append-nil, append_assoc, when, concat, join, map, ◌∙◌, split, trim_prefix,
  after,
}
use authorino_operator.Kube.{Entries, entries}
use authorino_operator.Api.{Authorino, Tls, Tracing}
use authorino_operator.Reconcilers.Consts.{
  flag_watch_namespace, flag_watched_auth_config_label_selector, flag_watched_secret_label_selector,
  flag_superseding_host_subsets, flag_log_level, flag_log_mode, flag_timeout,
  flag_ext_auth_grpc_port, flag_ext_auth_http_port, flag_tls_cert_path, flag_tls_cert_key_path,
  flag_oidc_http_port, flag_oidc_tls_cert_path, flag_oidc_tls_cert_key_path,
  flag_evaluator_cache_size, flag_tracing_service_endpoint, flag_tracing_service_tag,
  flag_tracing_service_insecure, flag_deep_metrics_enabled, flag_metrics_addr,
  flag_health_probe_addr, flag_enable_leader_election, flag_max_http_request_body_size,
  flag_tls_min_version, flag_tls_max_version, flag_tls_cipher_suites, flag_oidc_tls_min_version,
  flag_oidc_tls_max_version, flag_oidc_tls_cipher_suites, default_tls_cert_path,
  default_tls_cert_key_path, default_oidc_tls_cert_path, default_oidc_tls_cert_key_path,
}
use authorino_operator.Reconcilers.Args.{
  addr_flag, build_authorino_args, or_deprecated, is_nonempty, enabled_by_default,
  explicitly_enabled, compatible_args, flag, flag_name, int_flag, listener_tls_args, many_replicas,
  oidc_tls_args, probe_args, service_args, switch, tag_arg, text_flag, tracing_args,
}
use authorino_operator.Reconcilers.Args.Flags.{lacks, flag_name-value, flag_name-switch}

-- the test of the loop
abbrev pub is_compatible : String → Bool
is_compatible name = name == flag_metrics_addr || name == flag_enable_leader_election

-- a flag that the loop keeps, or a tag
abbrev pub is_special : String → Bool
is_special name = is_compatible name || name == flag_tracing_service_tag

-- an argument of another flag
abbrev pub IsModern : String → Type 0
IsModern arg = is_special (flag_name arg) ≡ false

pub or-false : (a b : Bool) → a || b ≡ false → (a ≡ false) × (b ≡ false)
or-false true b h = cc h
or-false false b h = (refl, h)

compatible_args-append :
    (xs ys : List String) → compatible_args (xs ++ ys) ≡ compatible_args xs ++ compatible_args ys
unfolding compatible_args
compatible_args-append [] ys = refl
compatible_args-append (x ∷ xs) ys = rw (compatible_args-append xs ys, append_assoc) refl

-- a list of such arguments
pub record AreModern (args : List String) : Type 0 where
  pub all : All IsModern args

compatible_args_modern : (args : List String) → All IsModern args → compatible_args args ≡ []
unfolding compatible_args
compatible_args_modern [] h = refl
compatible_args_modern (arg ∷ args) (modern, h) =
    rw ((or-false (is_compatible (flag_name arg)) _ modern).0, compatible_args_modern args h) refl

AreModern-nil : AreModern []
AreModern-nil = record { all = tt }

AreModern-cons :
    (arg : String) (args : List String) → IsModern arg → AreModern args → AreModern (arg ∷ args)
AreModern-cons arg args h hs = record { all = (h, hs.all) }

infixl 5 ◌also◌
◌also◌ : {xs ys : List String} → AreModern xs → AreModern ys → AreModern (xs ++ ys)
◌also◌ {xs} {ys} hx hy = record { all = All-append IsModern xs ys hx.all hy.all }

pub AreModern-when : (b : Bool) (args : List String) → AreModern args → AreModern (when b args)
AreModern-when true args h = h
AreModern-when false args h = AreModern-nil

module _ (name : String) (plain : lacks name b'=' ≡ true) (modern : is_special name ≡ false) where
  flag-AreModern :
      (value : String) (args : List String) → AreModern args → AreModern (flag name value ∷ args)
  flag-AreModern value args h =
      AreModern-cons _ args (rw (flag_name-value name (concat (value ∷ [])) plain) modern) h

  pub switch-AreModern : AreModern (switch name ∷ [])
  switch-AreModern = AreModern-cons _ [] (rw (flag_name-switch name plain) modern) AreModern-nil

  text_flag-AreModern : (value : String) → AreModern (text_flag name value)
  text_flag-AreModern value =
      AreModern-when (not (value == "")) _ (flag-AreModern value [] AreModern-nil)

  pub int_flag-AreModern : (value : Option ℤ) → AreModern (int_flag name value)
  int_flag-AreModern none = AreModern-nil
  int_flag-AreModern (some n) = flag-AreModern _ [] AreModern-nil

  pub addr_flag-AreModern : (port : Option ℤ) → AreModern (addr_flag name port)
  addr_flag-AreModern none = AreModern-nil
  addr_flag-AreModern (some n) = flag-AreModern _ [] AreModern-nil

service_args-AreModern : (authorino : Authorino) → AreModern (service_args authorino)
unfolding service_args lacks
service_args-AreModern authorino =
    let spec = authorino.spec in
    AreModern-when (not spec.cluster_wide) _
      (flag-AreModern flag_watch_namespace refl refl authorino.meta.namespace [] AreModern-nil)
    also text_flag-AreModern flag_watched_auth_config_label_selector refl refl
        spec.auth_config_label_selectors
    also text_flag-AreModern flag_watched_secret_label_selector refl refl
        spec.secret_label_selectors
    also AreModern-when spec.superseding_host_subsets _
        (switch-AreModern flag_superseding_host_subsets refl refl)
    also text_flag-AreModern flag_log_level refl refl spec.log_level
    also text_flag-AreModern flag_log_mode refl refl spec.log_mode
    also int_flag-AreModern flag_timeout refl refl spec.listener.timeout
    also int_flag-AreModern flag_ext_auth_grpc_port refl refl
        (or_deprecated spec.listener.ports.grpc spec.listener.port)
    also int_flag-AreModern flag_ext_auth_http_port refl refl spec.listener.ports.http

listener_tls_args-AreModern : (tls : Tls) → AreModern (listener_tls_args tls)
unfolding listener_tls_args lacks
listener_tls_args-AreModern tls = AreModern-when (enabled_by_default tls.enabled) _ (
    flag-AreModern flag_tls_cert_path refl refl default_tls_cert_path _ (
      flag-AreModern flag_tls_cert_key_path refl refl default_tls_cert_key_path _ (
        text_flag-AreModern flag_tls_min_version refl refl tls.min_version
        also text_flag-AreModern flag_tls_max_version refl refl tls.max_version
        also AreModern-when (is_nonempty tls.cipher_suites) _ (
            flag-AreModern flag_tls_cipher_suites refl refl (join tls.cipher_suites ",") []
              AreModern-nil))))

oidc_tls_args-AreModern : (tls : Tls) → AreModern (oidc_tls_args tls)
unfolding oidc_tls_args lacks
oidc_tls_args-AreModern tls = AreModern-when (enabled_by_default tls.enabled) _ (
    flag-AreModern flag_oidc_tls_cert_path refl refl default_oidc_tls_cert_path _ (
      flag-AreModern flag_oidc_tls_cert_key_path refl refl default_oidc_tls_cert_key_path _ (
        text_flag-AreModern flag_oidc_tls_min_version refl refl tls.min_version
        also text_flag-AreModern flag_oidc_tls_max_version refl refl tls.max_version
        also AreModern-when (is_nonempty tls.cipher_suites) _ (
            flag-AreModern flag_oidc_tls_cipher_suites refl refl (join tls.cipher_suites ",") []
              AreModern-nil))))

-- A tag is a flag whose value is "key=value".
pub flag_name-tag_arg : (tag : String × String) → flag_name (tag_arg tag) ≡ flag_tracing_service_tag
unfolding lacks
flag_name-tag_arg (key, value) =
    flag_name-value flag_tracing_service_tag (concat (key ∷ "=" ∷ value ∷ [])) refl

compatible_args-tags : (tags : Entries) → compatible_args (map tag_arg tags) ≡ []
unfolding compatible_args
compatible_args-tags [] = refl
compatible_args-tags (tag ∷ tags) = rw (flag_name-tag_arg tag, compatible_args-tags tags) refl

-- the arguments in front of the tags and behind them
pub endpoint-AreModern :
    (tracing : Tracing) → AreModern (flag flag_tracing_service_endpoint tracing.endpoint ∷ [])
unfolding lacks
endpoint-AreModern tracing =
    flag-AreModern flag_tracing_service_endpoint refl refl tracing.endpoint [] AreModern-nil

pub insecure-AreModern :
    (tracing : Tracing)
    → AreModern (when tracing.insecure (switch flag_tracing_service_insecure ∷ []))
unfolding lacks
insecure-AreModern tracing =
    AreModern-when tracing.insecure _ (switch-AreModern flag_tracing_service_insecure refl refl)

compatible_args-when :
    (b : Bool) (args : List String) → compatible_args args ≡ [] → compatible_args (when b args) ≡ []
unfolding compatible_args
compatible_args-when true args h = h
compatible_args-when false args h = refl

compatible_args-tracing_args : (tracing : Tracing) → compatible_args (tracing_args tracing) ≡ []
unfolding tracing_args
compatible_args-tracing_args tracing = compatible_args-when (not (tracing.endpoint == "")) _ (
    compatible_args-append (_ ∷ []) _
    ∙ rw
        (
          compatible_args_modern _ (endpoint-AreModern tracing).all,
          compatible_args-append (map tag_arg (entries tracing.tags)) _,
          compatible_args-tags (entries tracing.tags),
          compatible_args_modern _ (insecure-AreModern tracing).all,
        )
        refl)

-- everything before the flags of the tracing
pub modern_args-AreModern :
    (authorino : Authorino)
    → AreModern (
        service_args authorino
        ++ listener_tls_args authorino.spec.listener.tls
        ++ int_flag flag_oidc_http_port authorino.spec.oidc_server.port
        ++ oidc_tls_args authorino.spec.oidc_server.tls
        ++ int_flag flag_evaluator_cache_size authorino.spec.evaluator_cache_size)
unfolding lacks
modern_args-AreModern authorino =
    service_args-AreModern authorino
    also listener_tls_args-AreModern authorino.spec.listener.tls
    also int_flag-AreModern flag_oidc_http_port refl refl authorino.spec.oidc_server.port
    also oidc_tls_args-AreModern authorino.spec.oidc_server.tls
    also int_flag-AreModern flag_evaluator_cache_size refl refl authorino.spec.evaluator_cache_size

-- the two flags that are kept
abbrev pub kept_args : Authorino → List String
kept_args authorino =
    addr_flag flag_metrics_addr authorino.spec.metrics.port
    ++ when (many_replicas authorino.spec.replicas) (switch flag_enable_leader_election ∷ [])

compatible_args-metrics :
    (port : Option ℤ)
    → compatible_args (addr_flag flag_metrics_addr port) ≡ addr_flag flag_metrics_addr port
unfolding compatible_args lacks
compatible_args-metrics none = refl
compatible_args-metrics (some n) = rw (flag_name-value flag_metrics_addr _ refl) refl

compatible_args-election :
    (b : Bool)
    → compatible_args (when b (switch flag_enable_leader_election ∷ []))
      ≡ when b (switch flag_enable_leader_election ∷ [])
unfolding compatible_args flag_name split trim_prefix after
compatible_args-election true = refl
compatible_args-election false = refl

compatible_args-probe_args :
    (authorino : Authorino) → compatible_args (probe_args authorino) ≡ kept_args authorino
unfolding probe_args lacks
compatible_args-probe_args authorino =
    let spec = authorino.spec in
    let deep =
      compatible_args_modern _
        (AreModern-when (explicitly_enabled spec.metrics.deep_metrics_enabled) _
          (switch-AreModern flag_deep_metrics_enabled refl refl)).all in
    let health =
      compatible_args_modern _
        (addr_flag-AreModern flag_health_probe_addr refl refl spec.healthz.port).all in
    let body =
      compatible_args_modern _
        (int_flag-AreModern flag_max_http_request_body_size refl refl
          spec.listener.max_http_request_body_size).all in
    rw
      (
        compatible_args-append,
        compatible_args-append,
        compatible_args-append,
        compatible_args-append,
        deep,
        health,
        body,
        append-nil,
        append-nil,
        compatible_args-metrics spec.metrics.port,
        compatible_args-election (many_replicas spec.replicas),
      )
      refl

-- The loop over the arguments keeps the metrics address, if a port is given, and then the switch for
-- the leader election, if there are replicas beyond the first, and nothing else: whatever values the
-- CR has, and although the loop only sees the printed arguments.
pub compatible_args_lem :
    (authorino : Authorino) → compatible_args (build_authorino_args authorino) ≡ kept_args authorino
unfolding build_authorino_args
compatible_args_lem authorino =
    compatible_args-append _ (probe_args authorino)
    ∙ rw
        (
          compatible_args-append _ (tracing_args authorino.spec.tracing),
          compatible_args_modern _ (modern_args-AreModern authorino).all,
          compatible_args-tracing_args authorino.spec.tracing,
          compatible_args-probe_args authorino,
        )
        refl
