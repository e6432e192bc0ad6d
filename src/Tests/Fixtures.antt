-- ===== src/Tests/Fixtures.antt =====
-- A small cluster: nothing exists in it but one custom resource, and every write succeeds. Its state
-- is the time, which the clock advances.
use authorino_operator.Prelude.{
  Option, ◌==◌, ◌++◌, not, when, if◌then◌else◌, Bool, String, List, ℕ, ◌+◌, pos, true, false, none,
  some, [], ◌∷◌,
}
use authorino_operator.Kube.{Object, ObjectKey, named}
use authorino_operator.Api.{Authorino, Tls}
use authorino_operator.Reconcilers.Action.{
  Answer, found, failed, AuthorinoReconciler, Context, GoError, State,
}
use authorino_operator.Reconcilers.Pod.{Process}
use authorino_operator.Controller.{authorino_finalizer}

abbrev no_tls : Tls
no_tls = record {
  enabled = some false;
  cert_secret = none;
  min_version = "";
  max_version = "";
  cipher_suites = [];
}

abbrev with_cert : Tls
with_cert = record no_tls { enabled = none; cert_secret = some (record { name = "cert" }) }

-- a CR with TLS at the listener, a metrics port and two replicas
abbrev pub cr : Authorino
cr = record {
  meta = record (named "auth" "apps" (some (("team", "a") ∷ []))) {
    finalizers = authorino_finalizer ∷ [];
  };
  spec = record {
    image = "quay.io/kuadrant/authorino:v0.10.0";
    image_pull_policy = "";
    replicas = some (pos 2);
    volumes = record { items = []; default_mode = none };
    log_level = "debug";
    log_mode = "";
    cluster_wide = false;
    listener = record {
      port = none;
      ports = record { grpc = some (pos 50051); http = none };
      tls = with_cert;
      timeout = none;
      max_http_request_body_size = none;
    };
    oidc_server = record { port = none; tls = no_tls };
    auth_config_label_selectors = "";
    secret_label_selectors = "";
    superseding_host_subsets = false;
    evaluator_cache_size = none;
    tracing = record { endpoint = ""; tags = none; insecure = false };
    metrics = record { port = some (pos 8080); deep_metrics_enabled = none };
    healthz = record { port = none };
  };
  status = record { conditions = [] };
}

-- the same CR, before its finalizer is registered
abbrev pub new_cr : Authorino
new_cr = record cr { meta = record cr.meta { finalizers = [] } }

abbrev pub deleted_cr : Authorino
deleted_cr = record cr { meta = record cr.meta { deletion_timestamp = some 5 } }

abbrev pub contains_text : List String → String → Bool
contains_text [] t = false
contains_text (s ∷ rest) t = if s == t then true else contains_text rest t

abbrev pub without_text : List String → String → List String
without_text [] t = []
without_text (s ∷ rest) t = when (not (s == t)) (s ∷ []) ++ without_text rest t

abbrev pub contains_finalizer : Authorino → String → Bool
contains_finalizer authorino finalizer = contains_text authorino.meta.finalizers finalizer

abbrev pub add_finalizer : Authorino → String → Authorino
add_finalizer authorino finalizer = record authorino {
  meta = record authorino.meta {
    finalizers =
        if contains_finalizer authorino finalizer
        then authorino.meta.finalizers
        else authorino.meta.finalizers ++ finalizer ∷ [];
  };
}

abbrev pub remove_finalizer : Authorino → String → Authorino
remove_finalizer authorino finalizer = record authorino {
  meta = record authorino.meta { finalizers = without_text authorino.meta.finalizers finalizer };
}

abbrev pub process : Process
process = record {
  get_string = λ name default. default;
  default_authorino_image = "authorino:latest";
}

abbrev pub not_found : GoError
not_found = record { text = "not found"; not_found = true }

abbrev pub cluster : AuthorinoReconciler ℕ
cluster = record {
  get = λ kind key w. (failed not_found, w);
  get_cluster_role_binding = λ key w. (failed not_found, w);
  get_authorino = λ key w. (found cr, w);
  create = λ obj w. (none, w);
  update_object = λ obj w. (none, w);
  apply = λ obj w. (none, w);
  delete = λ obj preconditions w. (none, w);
  update = λ authorino w. (none, w);
  patch_status = λ patch w. (none, w);
  now = λ w. (w, w + 1);
  set_controller_reference = λ authorino meta. (none, []);
  contains_finalizer = contains_finalizer;
  add_finalizer = add_finalizer;
  remove_finalizer = remove_finalizer;
  process = process;
  sum256 = λ s. 1 ∷ 2 ∷ 3 ∷ 4 ∷ 5 ∷ 6 ∷ 7 ∷ 8 ∷ [];
}

-- the cluster in which every object that is asked for is this one
abbrev pub cluster_with : Object → AuthorinoReconciler ℕ
cluster_with obj = record cluster { get = λ kind key w. (found obj, w) }

abbrev pub start : State ℕ
start = record { world = 0; calls = [] }

abbrev pub ctx : Context
ctx = record { has_logger = true }

abbrev pub cr_key : ObjectKey
cr_key = record { namespace = "apps"; name = "auth" }

-- A server that keeps one object, whatever its key.
abbrev kept : Option Object → Answer Object
kept none = failed not_found
kept (some obj) = found obj

abbrev pub keeper : AuthorinoReconciler (Option Object)
keeper = record {
  get = λ kind key w. (kept w, w);
  get_cluster_role_binding = λ key w. (failed not_found, w);
  get_authorino = λ key w. (found cr, w);
  create = λ obj w. (none, some obj);
  update_object = λ obj w. (none, some obj);
  apply = λ obj w. (none, some obj);
  delete = λ obj preconditions w. (none, none);
  update = λ authorino w. (none, w);
  patch_status = λ patch w. (none, w);
  now = λ w. (0, w);
  set_controller_reference = λ authorino meta. (none, []);
  contains_finalizer = contains_finalizer;
  add_finalizer = add_finalizer;
  remove_finalizer = remove_finalizer;
  process = process;
  sum256 = λ s. [];
}
