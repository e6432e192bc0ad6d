-- ===== src/Resources/Services.antt =====
-- pkg/resources/k8s_services.go: the services of an instance.
pub mod Equality
use authorino_operator.Prelude.{
  ℤ, String, Bool, false, Option, none, some, List, [], ◌∷◌, ◌++◌, ◌==◌, concat, when, is_nonzero,
  text_less, if◌then◌else◌,
}
use authorino_operator.Kube.{StringMap, Entries, Service, ServicePort, ServiceSpec, entries}
use authorino_operator.Resources.Maps.{set_key, copy_map, merge_map_string_string}
use authorino_operator.Resources.Names.{get_object_meta, default_authorino_labels}

-- `intstr.FromInt(int(number))` is the number itself.
abbrev new_service_port : String → ℤ → ServicePort
new_service_port name number = record {
  name = name;
  port = number;
  protocol = "TCP";
  target_port = number;
}

abbrev new_service_spec : StringMap → List ServicePort → ServiceSpec
new_service_spec selector ports = record { ports = ports; selector = selector }

abbrev new_service : String → String → String → StringMap → List ServicePort → Service
new_service service_name namespace authorino_name labels ports = record {
  type_meta = record { api_version = "v1"; kind = "Service" };
  meta = get_object_meta namespace (concat (authorino_name ∷ "-" ∷ service_name ∷ [])) labels;
  spec = new_service_spec (default_authorino_labels authorino_name) ports;
}

-- `if port != 0 { ports = append(ports, newServicePort(name, port)) }`
abbrev port_unless_zero : String → ℤ → List ServicePort
port_unless_zero name port = when (is_nonzero port) (new_service_port name port ∷ [])

unfoldable pub new_auth_service : String → String → ℤ → ℤ → StringMap → Service
new_auth_service authorino_name namespace grpc_port http_port labels =
    new_service "authorino-authorization" namespace authorino_name labels
      (port_unless_zero "grpc" grpc_port ++ port_unless_zero "http" http_port)

unfoldable pub new_oidc_service : String → String → ℤ → StringMap → Service
new_oidc_service authorino_name namespace port labels =
    new_service "authorino-oidc" namespace authorino_name labels (port_unless_zero "http" port)

-- the map behind the pointer that `MergeMapStringString` returns
abbrev pointed : Option StringMap → Entries
pointed none = []
pointed (some m) = entries m

-- the labels of the metrics service: a copy of those given, with five entries set
unfoldable metric_labels : String → StringMap → Entries
unfolding copy_map merge_map_string_string default_authorino_labels set_key
metric_labels authorino_name labels =
    let copied = copy_map labels in
    let merged = merge_map_string_string (some copied) (default_authorino_labels authorino_name) in
    set_key "app.kubernetes.io/managed-by" "authorino-operator" (
      set_key "app.kubernetes.io/part-of" "authorino"
        (set_key "app.kubernetes.io/component" "metrics" (pointed merged.0)))

unfoldable pub new_metrics_service : String → String → ℤ → StringMap → Service
unfolding metric_labels
new_metrics_service authorino_name namespace port labels =
    new_service "controller-metrics" namespace authorino_name
      (some (metric_labels authorino_name labels)) (port_unless_zero "http" port)

-- `sort.Slice` by name, as it sorts a slice of up to twelve elements: by insertion.
unfoldable pub insert_port : ServicePort → List ServicePort → List ServicePort
insert_port p [] = p ∷ []
insert_port p (q ∷ qs) =
    let rest = insert_port p qs in if text_less q.name p.name then q ∷ rest else p ∷ q ∷ qs

unfoldable pub sort_ports : List ServicePort → List ServicePort
sort_ports [] = []
sort_ports (p ∷ ps) = insert_port p (sort_ports ps)

abbrev pub sorted_spec : ServiceSpec → ServiceSpec
sorted_spec spec = new_service_spec spec.selector (sort_ports spec.ports)

abbrev same_text : Option String → Option String → Bool
same_text (some s) (some t) = s == t
same_text _ _ = false

-- `marshal` stands for `json.Marshal`: the text, or none for an error.
unfoldable pub equal_services : (ServiceSpec → Option String) → Service → Service → Bool
equal_services marshal s1 s2 =
    same_text (marshal (sorted_spec s1.spec)) (marshal (sorted_spec s2.spec))
