-- ===== src/Reconcilers/Permissions/Apart.antt =====
-- The names of the bindings of two instances.
use Prim.Native.String
use text.Mathlib.TextLemmas.{append_assoc as text_assoc, append_cancel_right}
use authorino_operator.Prelude.{ℕ, ◌≤◌, String, len, ◌≡◌, ◌≢◌, refl, sym, ◌∙◌, List, arith}
use authorino_operator.Api.{Authorino}
use authorino_operator.Resources.Names.{
  authorino_cluster_role_binding_name, authorino_role_binding_name, scoped_name,
}
use authorino_operator.Resources.Names.Laws.{len-scoped_name}
use authorino_operator.Resources.Names.Unique.{HasNoDot, name-injective}
use authorino_operator.Reconcilers.Consts.{
  authorino_k8s_auth_cluster_role_binding_name, authorino_leader_election_role_binding_name,
  authorino_manager_cluster_role_binding_name,
}
use authorino_operator.Reconcilers.Permissions.Cleanup.{legacy_name}
use authorino_operator.Reconcilers.Permissions.Legacy.{Fits, end-ne, scoped-name_of}

-- Two instances that do not have both namespace and name in common.
pub record AreApart (a b : Authorino) : Type 0 where
  pub no_dot : HasNoDot a.meta.namespace
  pub no_dot' : HasNoDot b.meta.namespace
  pub fits : Fits a
  pub fits' : Fits b
  pub different : (a.meta.namespace ≡ b.meta.namespace) → a.meta.name ≢ b.meta.name

-- The old scheme may give `b` a name that the new one gives `a`.
abbrev pub IsConfused : Authorino → Authorino → Type 0
IsConfused a b = b.meta.name ≡ String.◌++◌ a.meta.namespace (String.◌++◌ "." a.meta.name)

-- what stands before the last nine bytes of a scoped name
abbrev before_manager : Authorino → String
before_manager x = String.◌++◌ x.meta.namespace (String.◌++◌ "." (String.◌++◌ x.meta.name "-"))

abbrev before_auth : Authorino → String
before_auth x =
    String.◌++◌ x.meta.namespace (String.◌++◌ "." (String.◌++◌ x.meta.name "-authorino"))

scoped-manager :
    (x : Authorino)
    → scoped_name x.meta.namespace x.meta.name authorino_manager_cluster_role_binding_name
      ≡ String.◌++◌ (before_manager x) "authorino"
scoped-manager x = simp text_assoc

scoped-auth :
    (x : Authorino)
    → scoped_name x.meta.namespace x.meta.name authorino_k8s_auth_cluster_role_binding_name
      ≡ String.◌++◌ (before_auth x) "-k8s-auth"
scoped-auth x = simp text_assoc

-- a text that ends like the binding of the manager, and one that ends like that of auth
ends-ne : (s t : String) → String.◌++◌ s "authorino" ≢ String.◌++◌ t "-k8s-auth"
ends-ne s t = end-ne s t "authorino" "-k8s-auth" refl (λ h. cc h)

module _ (sum256 : String → List ℕ) (a b : Authorino) (apart : AreApart a b) where
  abbrev pub name_of : Authorino → String → String
  name_of x suffix = authorino_cluster_role_binding_name sum256 x.meta.namespace x.meta.name suffix

  manager-eq :
      (x : Authorino)
      → Fits x
      → name_of x authorino_manager_cluster_role_binding_name
        ≡ String.◌++◌ (before_manager x) "authorino"
  manager-eq x fits = scoped-name_of sum256 x fits _ (omega arith) ∙ scoped-manager x

  auth-eq :
      (x : Authorino)
      → Fits x
      → name_of x authorino_k8s_auth_cluster_role_binding_name
        ≡ String.◌++◌ (before_auth x) "-k8s-auth"
  auth-eq x fits = scoped-name_of sum256 x fits _ (omega arith) ∙ scoped-auth x

  -- for one suffix, by what the names determine
  pub same_suffix-ne : (suffix : String) → len suffix ≤ 18 → name_of b suffix ≢ name_of a suffix
  same_suffix-ne suffix short e =
      let (ns, cr) =
        name-injective sum256 _ _ _ _ suffix apart.no_dot apart.no_dot'
          (omega (
            arith,
            apart.fits,
            short,
            len-scoped_name a.meta.namespace a.meta.name
                authorino_k8s_auth_cluster_role_binding_name,
          ))
          (omega (
            arith,
            apart.fits',
            short,
            len-scoped_name b.meta.namespace b.meta.name
                authorino_k8s_auth_cluster_role_binding_name,
          ))
          (sym e) in
      apart.different ns cr

  pub manager-ne-auth :
      name_of b authorino_manager_cluster_role_binding_name
      ≢ name_of a authorino_k8s_auth_cluster_role_binding_name
  manager-ne-auth e = ends-ne _ _ (sym (manager-eq b apart.fits') ∙ e ∙ auth-eq a apart.fits)

  pub auth-ne-manager :
      name_of b authorino_k8s_auth_cluster_role_binding_name
      ≢ name_of a authorino_manager_cluster_role_binding_name
  auth-ne-manager e = ends-ne _ _ (sym (manager-eq a apart.fits) ∙ sym e ∙ auth-eq b apart.fits')

  pub legacy-manager-ne :
      ¬ IsConfused a b
      → legacy_name b authorino_manager_cluster_role_binding_name
        ≢ name_of a authorino_manager_cluster_role_binding_name
  unfolding legacy_name
  legacy-manager-ne not_old e = not_old (
      append_cancel_right b.meta.name _ "-authorino"
        (e ∙ scoped-name_of sum256 a apart.fits _ (omega arith) ∙ simp text_assoc))

  pub legacy-auth-ne :
      ¬ IsConfused a b
      → legacy_name b authorino_k8s_auth_cluster_role_binding_name
        ≢ name_of a authorino_k8s_auth_cluster_role_binding_name
  unfolding legacy_name
  legacy-auth-ne not_old e = not_old (
      append_cancel_right b.meta.name _ "-authorino-k8s-auth"
        (e ∙ scoped-name_of sum256 a apart.fits _ (omega arith) ∙ simp text_assoc))

  pub legacy-manager-ne-auth :
      legacy_name b authorino_manager_cluster_role_binding_name
      ≢ name_of a authorino_k8s_auth_cluster_role_binding_name
  unfolding legacy_name
  legacy-manager-ne-auth e =
      ends-ne (String.◌++◌ b.meta.name "-") _
        (text_assoc b.meta.name "-" "authorino" ∙ e ∙ auth-eq a apart.fits)

  pub legacy-auth-ne-manager :
      legacy_name b authorino_k8s_auth_cluster_role_binding_name
      ≢ name_of a authorino_manager_cluster_role_binding_name
  unfolding legacy_name
  legacy-auth-ne-manager e = ends-ne _ (String.◌++◌ b.meta.name "-authorino") (
      sym (manager-eq a apart.fits) ∙ sym e ∙ sym (text_assoc b.meta.name "-authorino" "-k8s-auth"))

  -- the role bindings, which share a namespace with those of the other only if the names differ
  pub role-manager-ne :
      a.meta.namespace ≡ b.meta.namespace
      → authorino_role_binding_name b.meta.name authorino_manager_cluster_role_binding_name
        ≢ authorino_role_binding_name a.meta.name authorino_manager_cluster_role_binding_name
  unfolding authorino_role_binding_name
  role-manager-ne same e =
      apart.different same (sym (append_cancel_right b.meta.name a.meta.name "-authorino" e))

  pub role-leader-ne :
      authorino_role_binding_name b.meta.name authorino_manager_cluster_role_binding_name
      ≢ authorino_role_binding_name a.meta.name authorino_leader_election_role_binding_name
  unfolding authorino_role_binding_name
  role-leader-ne e =
      end-ne (String.◌++◌ b.meta.name "-") (String.◌++◌ a.meta.name "-authorino-leader") "authorino"
        "-election" refl (λ h. cc h)
        (text_assoc b.meta.name "-" "authorino"
          ∙ e
          ∙ sym (text_assoc a.meta.name "-authorino-leader" "-election"))
