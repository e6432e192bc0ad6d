-- ===== src/Reconcilers/Pod/Laws.antt =====
-- When a deployment can be built, and what its volumes and names are.
use mathlib.Core.List.{map-append}
use authorino_operator.Prelude.{
  false≢true, ◌≡◌, ◌≢◌, ◌⊎◌, ◌↔◌, refl, sym, subst, String, false, Option, none, List, [], ◌∷◌,
  ◌++◌, arith, Bool-cases, Option-cases, inl, inr, ap, All, All-append, All-mono, IsIn,
  IsIn-append_left, IsIn-append_right, map, ◌==◌, ◌∙◌, ℤ,
}
use authorino_operator.Kube.{Deployment, Volume, VolumeMount}
use authorino_operator.Api.{Authorino, Tls, VolumeSpec}
use authorino_operator.Resources.Deployments.{get_tls_volume, get_tls_volume_mount}
use authorino_operator.Reconcilers.Outcome.{returned, Returns, ◌>>=◌, >>=-eq-returned}
use authorino_operator.Reconcilers.Args.{enabled_by_default}
use authorino_operator.Reconcilers.Consts.{
  authorino_tls_cert_volume_name, authorino_oidc_tls_cert_volume_name, default_tls_cert_path,
  default_tls_cert_key_path, default_oidc_tls_cert_path, default_oidc_tls_cert_key_path,
}
use authorino_operator.Reconcilers.Pod.{
  Mounts, Process, authorino_deployment, authorino_image, authorino_mounts, deployment_with,
  mount_secret, custom_mounts, mount_listener, mount_oidc, mount_tls, projected_volume, secret_name,
  volume_mount,
}

-- What a deployment that was built is made of.
pub authorino_deployment_inv :
    (process : Process) (authorino : Authorino) (deployment : Deployment)
    → authorino_deployment process authorino ≡ returned deployment
    → (mounts : Mounts) × (authorino_mounts authorino ≡ returned mounts)
      × (deployment ≡ deployment_with authorino (authorino_image process authorino) mounts)
      × (authorino_image process authorino == "" ≡ false)
unfolding authorino_deployment
authorino_deployment_inv process authorino deployment e =
    elim (Bool-cases (authorino_image process authorino == "")) [
      | inl empty ↦ cc (rw empty at e)
      | inr set ↦
          let (mounts, mounted, built) = >>=-eq-returned _ _ (rw set at e) in
          (mounts, mounted, cc built, set)
    ]

-- If TLS is enabled, as it is unless the CR says otherwise, there is a reference to a secret.
abbrev pub HasSecret : Tls → Type 0
HasSecret tls = (enabled_by_default tls.enabled ≡ false) ⊎ (tls.cert_secret ≢ none)

mount_tls-Returns :
    (tls : Tls) (volume cert key : String) (mounts : Mounts)
    → HasSecret tls
    → Returns (mount_tls tls volume cert key mounts)
unfolding mount_tls
mount_tls-Returns tls volume cert key mounts h =
    elim (Bool-cases (enabled_by_default tls.enabled)) [
      | inl on ↦ elim (Option-cases tls.cert_secret) [
        | inl missing ↦ elim h [
          | inl off ↦ absurd (false≢true (sym off ∙ on))
          | inr there ↦ absurd (there missing)
        ]
        | inr (ref, there) ↦ (mount_secret mounts volume cert key ref.name, ground arith)
      ]
      | inr off ↦ (mounts, ground arith)
    ]

mount_tls-HasSecret :
    (tls : Tls) (volume cert key : String) (mounts : Mounts)
    → Returns (mount_tls tls volume cert key mounts)
    → HasSecret tls
unfolding mount_tls
mount_tls-HasSecret tls volume cert key mounts (a, e) =
    elim (Bool-cases (enabled_by_default tls.enabled)) [
      | inl on ↦ inr (λ missing. ground arith)
      | inr off ↦ inl off
    ]

abbrev pub HasSecrets : Authorino → Type 0
HasSecrets authorino =
    HasSecret authorino.spec.listener.tls × HasSecret authorino.spec.oidc_server.tls

-- What the construction of the deployment needs: an image and the references to the certificates.
abbrev pub IsBuildable : Process → Authorino → Type 0
IsBuildable process authorino =
    (authorino_image process authorino == "" ≡ false) × HasSecrets authorino

authorino_mounts-Returns :
    (authorino : Authorino)
    → HasSecret authorino.spec.listener.tls
    → HasSecret authorino.spec.oidc_server.tls
    → Returns (authorino_mounts authorino)
unfolding authorino_mounts
authorino_mounts-Returns authorino listener oidc =
    let (first, first_is) =
      mount_tls-Returns authorino.spec.listener.tls authorino_tls_cert_volume_name
        default_tls_cert_path default_tls_cert_key_path (custom_mounts authorino) listener in
    let (mounts, second_is) =
      mount_tls-Returns authorino.spec.oidc_server.tls authorino_oidc_tls_cert_volume_name
        default_oidc_tls_cert_path default_oidc_tls_cert_key_path first oidc in
    (mounts, ap (λ o. o >>= mount_oidc authorino) first_is ∙ second_is)

authorino_mounts-HasSecret :
    (authorino : Authorino) (mounts : Mounts)
    → authorino_mounts authorino ≡ returned mounts
    → HasSecrets authorino
unfolding authorino_mounts
authorino_mounts-HasSecret authorino mounts e =
    let (first, first_is, second_is) =
      >>=-eq-returned (mount_listener authorino (custom_mounts authorino)) (mount_oidc authorino)
        e in
    (
      mount_tls-HasSecret authorino.spec.listener.tls _ _ _ _ (first, first_is),
      mount_tls-HasSecret authorino.spec.oidc_server.tls _ _ _ _ (mounts, second_is),
    )

-- The deployment is built, without a panic, exactly when there is an image (from the CR, the
-- environment or the build) and each listener with TLS refers to a secret.
pub authorino_deployment-Returns_iff :
    (process : Process) (authorino : Authorino)
    → Returns (authorino_deployment process authorino) ↔ IsBuildable process authorino
unfolding authorino_deployment
authorino_deployment-Returns_iff process authorino = (
  λ (d, e).
      let (mounts, mounted, built, image) = authorino_deployment_inv process authorino d e in
      (image, authorino_mounts-HasSecret authorino mounts mounted),
  λ (image, secrets).
      let (mounts, mounted) = authorino_mounts-Returns authorino secrets.0 secrets.1 in
      (deployment_with authorino (authorino_image process authorino) mounts, rw (image, mounted)),
)

-- A volume of this name is declared.
abbrev HasVolume : List Volume → String → Type 0
HasVolume volumes name = IsIn name (map (λ (v : Volume). v.name) volumes)

abbrev pub AreDeclared : Mounts → Type 0
AreDeclared (volumes, mounts) = All (λ (m : VolumeMount). HasVolume volumes m.name) mounts

HasVolume-append_left :
    (name : String) (vs ws : List Volume) → HasVolume vs name → HasVolume (vs ++ ws) name
HasVolume-append_left name vs ws h = rw map-append (IsIn-append_left name _ _ h)

HasVolume-append_right :
    (name : String) (vs ws : List Volume) → HasVolume ws name → HasVolume (vs ++ ws) name
HasVolume-append_right name vs ws h = rw map-append (IsIn-append_right name _ _ h)

custom_volumes-AreDeclared :
    (mode : Option ℤ) (items : List VolumeSpec)
    → AreDeclared (map (projected_volume mode) items, map volume_mount items)
custom_volumes-AreDeclared mode [] = tt
custom_volumes-AreDeclared mode (v ∷ items) =
    (inl refl, All-mono _ _ (λ m h. inr h) _ (custom_volumes-AreDeclared mode items))

mount_secret-AreDeclared :
    (mounts : Mounts) (volume cert key secret : String)
    → AreDeclared mounts
    → AreDeclared (mount_secret mounts volume cert key secret)
unfolding get_tls_volume get_tls_volume_mount
mount_secret-AreDeclared (vs, ms) volume cert key secret h =
    All-append _ ms _ (All-mono _ _ (λ m k. HasVolume-append_left m.name vs _ k) ms h) (
      HasVolume-append_right volume vs (get_tls_volume volume secret ∷ []) (inl refl),
      (HasVolume-append_right volume vs (get_tls_volume volume secret ∷ []) (inl refl), tt),
    )

mount_tls-AreDeclared :
    (tls : Tls) (volume cert key : String) (mounts result : Mounts)
    → mount_tls tls volume cert key mounts ≡ returned result
    → AreDeclared mounts
    → AreDeclared result
unfolding mount_tls
mount_tls-AreDeclared tls volume cert key mounts result e h =
    elim (Bool-cases (enabled_by_default tls.enabled)) [
      | inl on ↦
          let (secret, named, mounted) =
            >>=-eq-returned (secret_name tls.cert_secret) _ (rw on at e) in
          let same : mount_secret mounts volume cert key secret ≡ result = cc mounted in
          subst AreDeclared same (mount_secret-AreDeclared mounts volume cert key secret h)
      | inr off ↦ let same : mounts ≡ result = cc (rw off at e) in subst AreDeclared same h
    ]

-- If the volumes and mounts are built, every volume mount of the container names a volume of the
-- pod.
pub authorino_mounts-AreDeclared :
    (authorino : Authorino) (mounts : Mounts)
    → authorino_mounts authorino ≡ returned mounts
    → AreDeclared mounts
unfolding authorino_mounts
authorino_mounts-AreDeclared authorino mounts e =
    let (first, first_is, second_is) =
      >>=-eq-returned (mount_listener authorino (custom_mounts authorino)) (mount_oidc authorino)
        e in
    mount_tls-AreDeclared authorino.spec.oidc_server.tls _ _ _ first mounts second_is (
      mount_tls-AreDeclared authorino.spec.listener.tls _ _ _ _ first first_is (
        custom_volumes-AreDeclared authorino.spec.volumes.default_mode
          authorino.spec.volumes.items))
