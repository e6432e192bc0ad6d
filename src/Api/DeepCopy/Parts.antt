-- ===== src/Api/DeepCopy/Parts.antt =====
-- api/v1beta1/zz_generated.deepcopy.go: the parts of the spec of an `Authorino`, stored, and their copies.
use authorino_operator.Prelude.{ℤ, String, Bool, List, ◌++◌}
use authorino_operator.Kube.{Entries, LocalObjectReference}
use authorino_operator.Api.{Healthz, Listener, Metrics, OidcServer, Ports, Tls, Tracing}
use authorino_operator.Api.DeepCopy.{
  Copier, Pointer, address_of, copy_pointer, read_pointer, read_slice,
}

pub record StoredPorts : Type 0 where
  pub grpc : Pointer ℤ
  pub http : Pointer ℤ

abbrev pub ports_copier : Copier StoredPorts Ports
ports_copier = record {
  read = λ x. record { grpc = read_pointer x.grpc; http = read_pointer x.http };
  addresses = λ x. address_of x.grpc ++ (address_of x.http);
  copy = λ x next0.
      let (grpc, next1) = copy_pointer x.grpc next0 in
      let (http, next2) = copy_pointer x.http next1 in (record { grpc = grpc; http = http }, next2);
}

pub record StoredTracing : Type 0 where
  pub endpoint : String
  pub tags : Pointer Entries
  pub insecure : Bool

abbrev pub tracing_copier : Copier StoredTracing Tracing
tracing_copier = record {
  read = λ x. record { endpoint = x.endpoint; tags = read_pointer x.tags; insecure = x.insecure };
  addresses = λ x. address_of x.tags;
  copy =
      λ x next0. let (tags, next1) = copy_pointer x.tags next0 in (record x { tags = tags }, next1);
}

pub record StoredMetrics : Type 0 where
  pub port : Pointer ℤ
  pub deep_metrics_enabled : Pointer Bool

abbrev pub metrics_copier : Copier StoredMetrics Metrics
metrics_copier = record {
  read = λ x. record {
    port = read_pointer x.port;
    deep_metrics_enabled = read_pointer x.deep_metrics_enabled;
  };
  addresses = λ x. address_of x.port ++ (address_of x.deep_metrics_enabled);
  copy = λ x next0.
      let (port, next1) = copy_pointer x.port next0 in
      let (deep_metrics_enabled, next2) = copy_pointer x.deep_metrics_enabled next1 in
      (record { port = port; deep_metrics_enabled = deep_metrics_enabled }, next2);
}

pub record StoredHealthz : Type 0 where
  pub port : Pointer ℤ

abbrev pub healthz_copier : Copier StoredHealthz Healthz
healthz_copier = record {
  read = λ x. record { port = read_pointer x.port };
  addresses = λ x. address_of x.port;
  copy =
      λ x next0. let (port, next1) = copy_pointer x.port next0 in (record { port = port }, next1);
}

pub record StoredTls : Type 0 where
  pub enabled : Pointer Bool
  pub cert_secret : Pointer LocalObjectReference
  pub min_version : String
  pub max_version : String
  pub cipher_suites : Pointer (List String)

abbrev pub tls_copier : Copier StoredTls Tls
tls_copier = record {
  read = λ x. record {
    enabled = read_pointer x.enabled;
    cert_secret = read_pointer x.cert_secret;
    min_version = x.min_version;
    max_version = x.max_version;
    cipher_suites = read_slice x.cipher_suites;
  };
  addresses =
      λ x. address_of x.enabled ++ (address_of x.cert_secret ++ (address_of x.cipher_suites));
  copy = λ x next0.
      let (enabled, next1) = copy_pointer x.enabled next0 in
      let (cert_secret, next2) = copy_pointer x.cert_secret next1 in
      let (cipher_suites, next3) = copy_pointer x.cipher_suites next2 in
      (
        record x { enabled = enabled; cert_secret = cert_secret; cipher_suites = cipher_suites },
        next3,
      );
}

pub record StoredListener : Type 0 where
  pub port : Pointer ℤ
  pub ports : StoredPorts
  pub tls : StoredTls
  pub timeout : Pointer ℤ
  pub max_http_request_body_size : Pointer ℤ

abbrev pub listener_copier : Copier StoredListener Listener
listener_copier = record {
  read = λ x. record {
    port = read_pointer x.port;
    ports = ports_copier.read x.ports;
    tls = tls_copier.read x.tls;
    timeout = read_pointer x.timeout;
    max_http_request_body_size = read_pointer x.max_http_request_body_size;
  };
  addresses = λ x.
      address_of x.port
      ++ (ports_copier.addresses x.ports
          ++ (tls_copier.addresses x.tls
              ++ (address_of x.timeout ++ (address_of x.max_http_request_body_size))));
  copy = λ x next0.
      let (port, next1) = copy_pointer x.port next0 in
      let (ports, next2) = ports_copier.copy x.ports next1 in
      let (tls, next3) = tls_copier.copy x.tls next2 in
      let (timeout, next4) = copy_pointer x.timeout next3 in
      let (max_http_request_body_size, next5) = copy_pointer x.max_http_request_body_size next4 in
      (
        record {
          port = port;
          ports = ports;
          tls = tls;
          timeout = timeout;
          max_http_request_body_size = max_http_request_body_size;
        },
        next5,
      );
}

pub record StoredOidcServer : Type 0 where
  pub port : Pointer ℤ
  pub tls : StoredTls

abbrev pub oidc_server_copier : Copier StoredOidcServer OidcServer
oidc_server_copier = record {
  read = λ x. record { port = read_pointer x.port; tls = tls_copier.read x.tls };
  addresses = λ x. address_of x.port ++ (tls_copier.addresses x.tls);
  copy = λ x next0.
      let (port, next1) = copy_pointer x.port next0 in
      let (tls, next2) = tls_copier.copy x.tls next1 in (record { port = port; tls = tls }, next2);
}
