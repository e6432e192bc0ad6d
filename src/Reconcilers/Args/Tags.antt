-- ===== src/Reconcilers/Args/Tags.antt =====
-- The tracing tags on the command line.
use Prim.Native.String
use text.Mathlib.TextLemmas.{append_assoc as text_assoc, append-nil as text-nil}
use authorino_operator.Prelude.{
  ◌≡◌, refl, sym, ap, ℤ, String, Bool, true, false, not, Option, none, some, List, [], ◌∷◌, ◌++◌,
  All, All-append, All-mono, ◌==◌, append-nil, append_assoc, when, map, ◌∙◌, split, trim_prefix,
  after,
}
use authorino_operator.Kube.{Entries, entries}
use authorino_operator.Api.{Authorino, Tracing}
use authorino_operator.Reconcilers.Consts.{
  flag_deep_metrics_enabled, flag_enable_leader_election, flag_health_probe_addr,
  flag_max_http_request_body_size, flag_metrics_addr, flag_tracing_service_tag,
}
use authorino_operator.Reconcilers.Args.{
  addr_flag, build_authorino_args, explicitly_enabled, flag_name, many_replicas, probe_args, switch,
  tag_arg, tracing_args,
}
use authorino_operator.Reconcilers.Args.Flags.{lacks, flag_name-value}
use authorino_operator.Reconcilers.Args.Laws.{
  AreModern, AreModern-when, IsModern, addr_flag-AreModern, endpoint-AreModern, flag_name-tag_arg,
  insecure-AreModern, int_flag-AreModern, is_compatible, modern_args-AreModern, or-false,
  switch-AreModern,
}

-- The arguments that set a tag, by the names of their flags.
abbrev pub tags_in : List String → List String
tags_in [] = []
tags_in (arg ∷ args) = when (flag_name arg == flag_tracing_service_tag) (arg ∷ []) ++ tags_in args

-- one argument for each tag, with its key and its value
abbrev pub tags_of : Entries → List String
tags_of [] = []
tags_of ((key, value) ∷ tags) =
    String.◌++◌ "--tracing-service-tag=" (String.◌++◌ key (String.◌++◌ "=" value)) ∷ tags_of tags

-- an argument that sets no tag
abbrev IsUntagged : String → Type 0
IsUntagged arg = (flag_name arg == flag_tracing_service_tag) ≡ false

untagged : (args : List String) → AreModern args → All IsUntagged args
untagged args modern =
    All-mono IsModern IsUntagged (λ arg h. (or-false (is_compatible (flag_name arg)) _ h).1) args
      modern.all

tags_in-append : (xs ys : List String) → tags_in (xs ++ ys) ≡ tags_in xs ++ tags_in ys
tags_in-append [] ys = refl
tags_in-append (x ∷ xs) ys = rw (tags_in-append xs ys, append_assoc) refl

tags_in-untagged : (args : List String) → All IsUntagged args → tags_in args ≡ []
tags_in-untagged [] h = refl
tags_in-untagged (arg ∷ args) (other, h) = rw (other, tags_in-untagged args h) refl

tag_arg-eq :
    (key value : String)
    → tag_arg (key, value)
      ≡ String.◌++◌ "--tracing-service-tag=" (String.◌++◌ key (String.◌++◌ "=" value))
tag_arg-eq key value =
    let rest = String.◌++◌ key (String.◌++◌ "=" value) in
    rw text-nil (
      sym (text_assoc "--" flag_tracing_service_tag (String.◌++◌ "=" rest))
      ∙ sym (text_assoc (String.◌++◌ "--" flag_tracing_service_tag) "=" rest))

tags_in-tags : (tags : Entries) → tags_in (map tag_arg tags) ≡ tags_of tags
tags_in-tags [] = refl
tags_in-tags ((key, value) ∷ tags) =
    rw (flag_name-tag_arg (key, value), tags_in-tags tags)
      (ap (λ arg. arg ∷ tags_of tags) (tag_arg-eq key value))

tags_in-when :
    (b : Bool) (args args' : List String)
    → tags_in args ≡ args'
    → tags_in (when b args) ≡ when b args'
tags_in-when true args args' h = h
tags_in-when false args args' h = refl

tags_in-tracing_args :
    (tracing : Tracing)
    → tags_in (tracing_args tracing)
      ≡ when (not (tracing.endpoint == "")) (tags_of (entries tracing.tags))
unfolding tracing_args
tags_in-tracing_args tracing = tags_in-when (not (tracing.endpoint == "")) _ _ (
    tags_in-append (_ ∷ []) _
    ∙ rw
        (
          tags_in-untagged _ (untagged _ (endpoint-AreModern tracing)),
          tags_in-append (map tag_arg (entries tracing.tags)) _,
          tags_in-tags (entries tracing.tags),
          tags_in-untagged _ (untagged _ (insecure-AreModern tracing)),
          append-nil,
        )
        refl)

metrics-IsUntagged : (port : Option ℤ) → All IsUntagged (addr_flag flag_metrics_addr port)
unfolding lacks
metrics-IsUntagged none = tt
metrics-IsUntagged (some n) = (rw (flag_name-value flag_metrics_addr _ refl) refl, tt)

election-IsUntagged : (b : Bool) → All IsUntagged (when b (switch flag_enable_leader_election ∷ []))
unfolding flag_name split trim_prefix after
election-IsUntagged true = (refl, tt)
election-IsUntagged false = tt

probe_args-IsUntagged : (authorino : Authorino) → All IsUntagged (probe_args authorino)
unfolding probe_args lacks
probe_args-IsUntagged authorino =
    let spec = authorino.spec in
    let deep = untagged _ (
      AreModern-when (explicitly_enabled spec.metrics.deep_metrics_enabled) _
        (switch-AreModern flag_deep_metrics_enabled refl refl)) in
    let health =
      untagged _ (addr_flag-AreModern flag_health_probe_addr refl refl spec.healthz.port) in
    let body = untagged _ (
      int_flag-AreModern flag_max_http_request_body_size refl refl
        spec.listener.max_http_request_body_size) in
    All-append IsUntagged _ _
      (All-append IsUntagged _ _
        (All-append IsUntagged _ _
          (All-append IsUntagged _ _ deep (metrics-IsUntagged spec.metrics.port)) health)
        (election-IsUntagged (many_replicas spec.replicas)))
      body

-- Of all arguments, those whose flag is "tracing-service-tag" are, if there is a tracing endpoint, one
-- for each tag of the CR, with its key, a "=" and its value, in the order in which the map is visited;
-- and there is none without an endpoint. This is so whatever values the CR has.
pub tags_in-build_authorino_args :
    (authorino : Authorino)
    → tags_in (build_authorino_args authorino)
      ≡ when
          (not (authorino.spec.tracing.endpoint == ""))
          (tags_of (entries authorino.spec.tracing.tags))
unfolding build_authorino_args
tags_in-build_authorino_args authorino =
    tags_in-append _ (probe_args authorino)
    ∙ rw
        (
          tags_in-append _ (tracing_args authorino.spec.tracing),
          tags_in-untagged _ (untagged _ (modern_args-AreModern authorino)),
          tags_in-tracing_args authorino.spec.tracing,
          tags_in-untagged _ (probe_args-IsUntagged authorino),
          append-nil,
        )
        refl
