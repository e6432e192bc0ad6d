-- ===== src/Tests/Services.antt =====
-- Two services with the same two ports in different orders.
use mathlib.Core.Logic.{∥∥₁_elim}
use mathlib.Core.HLevel.{⊥_prop}
use mathlib.Core.List.{Nodup, Pairwise, Pairwise-singleton, Perm}
use mathlib.Core.List.Memᴰ
use authorino_operator.Prelude.{
  ◌↔◌, ◌≡◌, ◌≢◌, ◌==◌, ◌∙◌, ap, refl, true, false≢true, some, Option, String, pos, [], ◌∷◌, concat,
  map, text_less,
}
use authorino_operator.Kube.{Service, ServicePort, ServiceSpec, named}
use authorino_operator.Resources.Services.{equal_services, insert_port, sort_ports, sorted_spec}
use authorino_operator.Resources.Services.Equality.{Marshals, SameEntries, equal_services_iff}

abbrev grpc : ServicePort
grpc = record { name = "grpc"; port = pos 50051; protocol = "TCP"; target_port = pos 50051 }

abbrev http : ServicePort
http = record { name = "http"; port = pos 5001; protocol = "TCP"; target_port = pos 5001 }

abbrev service : Service
service = record {
  type_meta = record { api_version = "v1"; kind = "Service" };
  meta = named "auth-authorino-authorization" "apps" Option.none;
  spec = record { ports = grpc ∷ http ∷ []; selector = some (("app", "authorino") ∷ []) };
}

abbrev turned : Service
turned = record service { spec = record service.spec { ports = http ∷ grpc ∷ [] } }

-- the names of the ports
abbrev marshal : ServiceSpec → Option String
marshal spec = some (concat (map (λ (p : ServicePort). p.name) spec.ports))

marshals : Marshals marshal (sorted_spec service.spec) (sorted_spec turned.spec)
unfolding sort_ports insert_port text_less
marshals = record {
  text = "grpchttp";
  text_is = refl;
  text' = "grpchttp";
  text'_is = refl;
  agrees = (λ h. (refl, λ key. refl), λ h. refl);
}

grpc-ne-http : ◌≢◌ {A = String} "grpc" "http"
grpc-ne-http e = false≢true (ap (λ name. name == "http") e)

distinct : Nodup {A = String} ("grpc" ∷ "http" ∷ [])
distinct =
    Pairwise.cons (λ name m e. ∥∥₁_elim m ⊥_prop (λ d. grpc-ne-http (e ∙ Memᴰ.eq_of_singleton d)))
      (Pairwise-singleton _ _)

equal_services_iff_example :
    equal_services marshal service turned ≡ true
    ↔ Perm service.spec.ports turned.spec.ports
      × SameEntries service.spec.selector turned.spec.selector
equal_services_iff_example = equal_services_iff marshal service turned marshals distinct
