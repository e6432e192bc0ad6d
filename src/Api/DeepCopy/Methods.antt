-- ===== src/Api/DeepCopy/Methods.antt =====
-- api/v1beta1/zz_generated.deepcopy.go: `DeepCopy` of each type, and `DeepCopyObject` of the two that are
-- objects.
use authorino_operator.Prelude.{ℕ, List, none, some}
use authorino_operator.Kube.{KeyToPath, ObjectMeta, Time}
use authorino_operator.Api.DeepCopy.{At, Copier, Pointer, deep_copy}
use authorino_operator.Api.DeepCopy.Parts.{
  StoredHealthz, StoredListener, StoredMetrics, StoredOidcServer, StoredPorts, StoredTls,
  StoredTracing, healthz_copier, listener_copier, metrics_copier, oidc_server_copier, ports_copier,
  tls_copier, tracing_copier,
}
use authorino_operator.Api.DeepCopy.Volumes.{
  StoredVolumeSpec, StoredVolumesSpec, volume_spec_copier, volumes_spec_copier,
}
use authorino_operator.Api.DeepCopy.Spec.{StoredAuthorinoSpec, authorino_spec_copier}
use authorino_operator.Api.DeepCopy.Object.{
  AuthorinoList, StoredAuthorino, StoredAuthorinoStatus, StoredCondition, authorino_copier,
  authorino_list_copier, authorino_status_copier, condition_copier,
}

-- `func (in *T) DeepCopy() *T`
abbrev Method : Type 0 → Type 0
Method A = Pointer A → ℕ → Pointer A × ℕ

abbrev pub deep_copy_healthz : Method StoredHealthz
deep_copy_healthz = deep_copy healthz_copier

abbrev pub deep_copy_listener : Method StoredListener
deep_copy_listener = deep_copy listener_copier

abbrev pub deep_copy_metrics : Method StoredMetrics
deep_copy_metrics = deep_copy metrics_copier

abbrev pub deep_copy_oidc_server : Method StoredOidcServer
deep_copy_oidc_server = deep_copy oidc_server_copier

abbrev pub deep_copy_ports : Method StoredPorts
deep_copy_ports = deep_copy ports_copier

abbrev pub deep_copy_tls : Method StoredTls
deep_copy_tls = deep_copy tls_copier

abbrev pub deep_copy_tracing : Method StoredTracing
deep_copy_tracing = deep_copy tracing_copier

module _ {K : Type 0} (key : Copier K KeyToPath) where
  abbrev pub deep_copy_volume_spec : Method (StoredVolumeSpec K)
  deep_copy_volume_spec = deep_copy (volume_spec_copier key)

  abbrev pub deep_copy_volumes_spec : Method (StoredVolumesSpec K)
  deep_copy_volumes_spec = deep_copy (volumes_spec_copier key)

  abbrev pub deep_copy_authorino_spec : Method (StoredAuthorinoSpec K)
  deep_copy_authorino_spec = deep_copy (authorino_spec_copier key)

module _ {T : Type 0} (time : Copier T Time) where
  abbrev pub deep_copy_condition : Method (StoredCondition T)
  deep_copy_condition = deep_copy (condition_copier time)

  abbrev pub deep_copy_authorino_status : Method (StoredAuthorinoStatus T)
  deep_copy_authorino_status = deep_copy (authorino_status_copier time)

-- A `runtime.Object` that is nil, or has a pointer that is not nil in it.
pub data RuntimeObject (A : Type 0) : Type 0 where
  nil : RuntimeObject A
  holding : At A → RuntimeObject A

-- `if c := in.DeepCopy(); c != nil { return c }; return nil`
abbrev pub as_object : {A : Type 0} → Pointer A → RuntimeObject A
as_object none = RuntimeObject.nil
as_object (some p) = RuntimeObject.holding p

module _ {M K T : Type 0} (meta : Copier M ObjectMeta) (key : Copier K KeyToPath)
    (time : Copier T Time) where
  abbrev pub deep_copy_authorino : Method (StoredAuthorino M K T)
  deep_copy_authorino = deep_copy (authorino_copier meta key time)

  unfoldable pub deep_copy_object :
      Pointer (StoredAuthorino M K T) → ℕ → RuntimeObject (StoredAuthorino M K T) × ℕ
  deep_copy_object p next =
      let (copied, last) = deep_copy_authorino p next in (as_object copied, last)

  module _ {L R : Type 0} (list_meta : Copier L R) where
    abbrev pub Listed : Type 0
    Listed = AuthorinoList L (Pointer (List (StoredAuthorino M K T)))

    abbrev pub deep_copy_authorino_list : Method Listed
    deep_copy_authorino_list = deep_copy (authorino_list_copier list_meta meta key time)

    unfoldable pub deep_copy_list_object : Pointer Listed → ℕ → RuntimeObject Listed × ℕ
    deep_copy_list_object p next =
        let (copied, last) = deep_copy_authorino_list p next in (as_object copied, last)
