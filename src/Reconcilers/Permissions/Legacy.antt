-- ===== src/Reconcilers/Permissions/Legacy.antt =====
-- The old names of the cluster role bindings are not the new ones.
use Prim.Native.String
use text.Mathlib.TextLemmas.{append_assoc as text_assoc}
use text.Mathlib.TextPositions.{slice-append_right}
use authorino_operator.Prelude.{
  ℕ, ◌+◌, ◌≤◌, String, len, slice, ◌≡◌, ◌≢◌, refl, sym, ap, ◌∙◌, List, [], ◌∷◌, arith, len-append,
  concat,
}
use authorino_operator.Api.{Authorino}
use authorino_operator.Resources.Names.{
  authorino_cluster_role_binding_name, max_name_len, scoped_name,
}
use authorino_operator.Resources.Names.Laws.{len-scoped_name}
use authorino_operator.Reconcilers.Consts.{
  authorino_manager_cluster_role_binding_name, authorino_k8s_auth_cluster_role_binding_name,
}
use authorino_operator.Reconcilers.Permissions.Cleanup.{legacy_name}

-- The longer of the two names of the instance's cluster role bindings need not be truncated.
abbrev pub Fits : Authorino → Type 0
Fits authorino =
    len (
      scoped_name authorino.meta.namespace authorino.meta.name
        authorino_k8s_auth_cluster_role_binding_name)
    ≤ max_name_len

-- Texts of one length with different ends of one length are different.
pub end-ne : (s s' t t' : String) → len t ≡ len t' → t ≢ t' → String.◌++◌ s t ≢ String.◌++◌ s' t'
end-ne s s' t t' same other e =
    let starts : len s ≡ len s' = omega (arith, ap len e, len-append s t, len-append s' t') in
    other (
      sym (slice-append_right s t)
      ∙ ap (λ u. slice u (len s) (len s + len t)) e
      ∙ rw (starts, same) (slice-append_right s' t'))

module _ (sum256 : String → List ℕ) (authorino : Authorino) (fits : Fits authorino) where
  abbrev name_of : String → String
  name_of suffix =
      authorino_cluster_role_binding_name sum256 authorino.meta.namespace authorino.meta.name suffix

  pub scoped-name_of :
      (suffix : String)
      → len suffix ≤ 18
      → name_of suffix ≡ scoped_name authorino.meta.namespace authorino.meta.name suffix
  unfolding authorino_cluster_role_binding_name
  scoped-name_of suffix short =
      let fits' : len (scoped_name authorino.meta.namespace authorino.meta.name suffix)
          ≤ max_name_len =
        omega (
          arith,
          fits,
          short,
          len-scoped_name authorino.meta.namespace authorino.meta.name suffix,
          len-scoped_name authorino.meta.namespace authorino.meta.name
              authorino_k8s_auth_cluster_role_binding_name,
        ) in
      ground (arith, fits')

  pub names-ne :
      name_of authorino_manager_cluster_role_binding_name
      ≢ name_of authorino_k8s_auth_cluster_role_binding_name
  names-ne e =
      let ns = authorino.meta.namespace in
      let cr = authorino.meta.name in
      omega (
        arith,
        ap len (
            sym (scoped-name_of authorino_manager_cluster_role_binding_name (omega arith))
            ∙ e
            ∙ scoped-name_of authorino_k8s_auth_cluster_role_binding_name (omega arith)),
        len-scoped_name ns cr authorino_manager_cluster_role_binding_name,
        len-scoped_name ns cr authorino_k8s_auth_cluster_role_binding_name,
      )

  legacy-length-ne :
      (old new : String)
      → len new ≤ 18
      → ¬ (len old ≡ len authorino.meta.namespace + 1 + len new)
      → legacy_name authorino old ≢ name_of new
  unfolding legacy_name
  legacy-length-ne old new short other e =
      let ns = authorino.meta.namespace in
      let cr = authorino.meta.name in
      let same : len (concat (cr ∷ "-" ∷ old ∷ [])) ≡ len (scoped_name ns cr new) =
        ap len (e ∙ scoped-name_of new short) in
      other (
        omega (
          arith,
          same,
          len-scoped_name ns cr new,
          len-append cr (concat ("-" ∷ old ∷ [])),
          len-append "-" (concat (old ∷ [])),
          len-append old "",
        ))

  k8s_auth-ne-manager :
      legacy_name authorino authorino_k8s_auth_cluster_role_binding_name
      ≢ name_of authorino_manager_cluster_role_binding_name
  unfolding legacy_name
  k8s_auth-ne-manager e =
      let ns = authorino.meta.namespace in
      let cr = authorino.meta.name in
      end-ne (String.◌++◌ cr "-authorino") (String.◌++◌ ns (String.◌++◌ "." (String.◌++◌ cr "-")))
        "-k8s-auth" "authorino" refl (λ h. cc h)
        (text_assoc cr "-authorino" "-k8s-auth"
          ∙ e
          ∙ scoped-name_of authorino_manager_cluster_role_binding_name (omega arith)
          ∙ simp text_assoc)

  -- Neither old name is the name of one of the two bindings.
  pub legacy_name-ne :
      (legacy_name authorino authorino_manager_cluster_role_binding_name
        ≢ name_of authorino_manager_cluster_role_binding_name)
      × (legacy_name authorino authorino_k8s_auth_cluster_role_binding_name
          ≢ name_of authorino_manager_cluster_role_binding_name)
      × (legacy_name authorino authorino_manager_cluster_role_binding_name
          ≢ name_of authorino_k8s_auth_cluster_role_binding_name)
      × (legacy_name authorino authorino_k8s_auth_cluster_role_binding_name
          ≢ name_of authorino_k8s_auth_cluster_role_binding_name)
  legacy_name-ne = (
    legacy-length-ne _ authorino_manager_cluster_role_binding_name (omega arith)
        (λ h. omega (arith, h)),
    k8s_auth-ne-manager,
    legacy-length-ne _ authorino_k8s_auth_cluster_role_binding_name (omega arith)
        (λ h. omega (arith, h)),
    legacy-length-ne _ authorino_k8s_auth_cluster_role_binding_name (omega arith)
        (λ h. omega (arith, h)),
  )
