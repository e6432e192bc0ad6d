-- ===== src/Api/DeepCopy/Copies.antt =====
-- The deep copies of the spec of an `Authorino`, part by part: how they read and which addresses they
-- have.
use authorino_operator.Kube.{KeyToPath}
use authorino_operator.Api.DeepCopy.{Copier, copy_items, copy_pointer}
use authorino_operator.Api.DeepCopy.Parts.{
  healthz_copier, listener_copier, metrics_copier, oidc_server_copier, ports_copier, tls_copier,
  tracing_copier,
}
use authorino_operator.Api.DeepCopy.Volumes.{volume_spec_copier, volumes_spec_copier}
use authorino_operator.Api.DeepCopy.Spec.{authorino_spec_copier}
use authorino_operator.Api.DeepCopy.Laws.{
  Copies, Ascends-append, copy_items-Copies, copy_pointer-Copies, copy_slice-Copies,
}

ports_copier-Copies : Copies ports_copier
ports_copier-Copies x next0 =
    let h0 = copy_pointer-Copies x.grpc next0 in
    let n1 = (copy_pointer x.grpc next0).1 in
    let h1 = copy_pointer-Copies x.http n1 in (cc (h0.0, h1.0), Ascends-append h0.1 h1.1)

tracing_copier-Copies : Copies tracing_copier
tracing_copier-Copies x next0 = let h0 = copy_pointer-Copies x.tags next0 in (cc h0.0, h0.1)

metrics_copier-Copies : Copies metrics_copier
metrics_copier-Copies x next0 =
    let h0 = copy_pointer-Copies x.port next0 in
    let n1 = (copy_pointer x.port next0).1 in
    let h1 = copy_pointer-Copies x.deep_metrics_enabled n1 in
    (cc (h0.0, h1.0), Ascends-append h0.1 h1.1)

healthz_copier-Copies : Copies healthz_copier
healthz_copier-Copies x next0 = let h0 = copy_pointer-Copies x.port next0 in (cc h0.0, h0.1)

tls_copier-Copies : Copies tls_copier
tls_copier-Copies x next0 =
    let h0 = copy_pointer-Copies x.enabled next0 in
    let n1 = (copy_pointer x.enabled next0).1 in
    let h1 = copy_pointer-Copies x.cert_secret n1 in
    let n2 = (copy_pointer x.cert_secret n1).1 in
    let h2 = copy_slice-Copies x.cipher_suites n2 in
    (cc (h0.0, h1.0, h2.0), Ascends-append h0.1 (Ascends-append h1.1 h2.1))

listener_copier-Copies : Copies listener_copier
listener_copier-Copies x next0 =
    let h0 = copy_pointer-Copies x.port next0 in
    let n1 = (copy_pointer x.port next0).1 in
    let h1 = ports_copier-Copies x.ports n1 in
    let n2 = (ports_copier.copy x.ports n1).1 in
    let h2 = tls_copier-Copies x.tls n2 in
    let n3 = (tls_copier.copy x.tls n2).1 in
    let h3 = copy_pointer-Copies x.timeout n3 in
    let n4 = (copy_pointer x.timeout n3).1 in
    let h4 = copy_pointer-Copies x.max_http_request_body_size n4 in
    (
      cc (h0.0, h1.0, h2.0, h3.0, h4.0),
      Ascends-append h0.1 (Ascends-append h1.1 (Ascends-append h2.1 (Ascends-append h3.1 h4.1))),
    )

oidc_server_copier-Copies : Copies oidc_server_copier
oidc_server_copier-Copies x next0 =
    let h0 = copy_pointer-Copies x.port next0 in
    let n1 = (copy_pointer x.port next0).1 in
    let h1 = tls_copier-Copies x.tls n1 in (cc (h0.0, h1.0), Ascends-append h0.1 h1.1)

volume_spec_copier-Copies :
    {K : Type 0} (key : Copier K KeyToPath) → Copies key → Copies (volume_spec_copier key)
volume_spec_copier-Copies key lawful x next0 =
    let h0 = copy_slice-Copies x.config_maps next0 in
    let n1 = (copy_pointer x.config_maps next0).1 in
    let h1 = copy_slice-Copies x.secrets n1 in
    let n2 = (copy_pointer x.secrets n1).1 in
    let h2 = copy_items-Copies key lawful x.items n2 in
    (cc (h0.0, h1.0, h2.0), Ascends-append h0.1 (Ascends-append h1.1 h2.1))

volumes_spec_copier-Copies :
    {K : Type 0} (key : Copier K KeyToPath) → Copies key → Copies (volumes_spec_copier key)
volumes_spec_copier-Copies key lawful x next0 =
    let h0 =
      copy_items-Copies (volume_spec_copier key) (volume_spec_copier-Copies key lawful) x.items
        next0 in
    let n1 = (copy_items (volume_spec_copier key) x.items next0).1 in
    let h1 = copy_pointer-Copies x.default_mode n1 in (cc (h0.0, h1.0), Ascends-append h0.1 h1.1)

pub authorino_spec_copier-Copies :
    {K : Type 0} (key : Copier K KeyToPath) → Copies key → Copies (authorino_spec_copier key)
authorino_spec_copier-Copies key lawful x next0 =
    let h0 = copy_pointer-Copies x.replicas next0 in
    let n1 = (copy_pointer x.replicas next0).1 in
    let h1 = volumes_spec_copier-Copies key lawful x.volumes n1 in
    let n2 = ((volumes_spec_copier key).copy x.volumes n1).1 in
    let h2 = listener_copier-Copies x.listener n2 in
    let n3 = (listener_copier.copy x.listener n2).1 in
    let h3 = oidc_server_copier-Copies x.oidc_server n3 in
    let n4 = (oidc_server_copier.copy x.oidc_server n3).1 in
    let h4 = copy_pointer-Copies x.evaluator_cache_size n4 in
    let n5 = (copy_pointer x.evaluator_cache_size n4).1 in
    let h5 = tracing_copier-Copies x.tracing n5 in
    let n6 = (tracing_copier.copy x.tracing n5).1 in
    let h6 = metrics_copier-Copies x.metrics n6 in
    let n7 = (metrics_copier.copy x.metrics n6).1 in
    let h7 = healthz_copier-Copies x.healthz n7 in
    (
      cc (h0.0, h1.0, h2.0, h3.0, h4.0, h5.0, h6.0, h7.0),
      Ascends-append h0.1 (
          Ascends-append h1.1 (
            Ascends-append h2.1 (
              Ascends-append h3.1
                (Ascends-append h4.1 (Ascends-append h5.1 (Ascends-append h6.1 h7.1)))))),
    )
