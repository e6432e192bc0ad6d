-- ===== src/Resources/Names/Unique.antt =====
-- When two cluster role bindings have one name.
use Prim.Native.String
use text.Mathlib.TextLemmas.{cons-append, nil-append, append_cancel_left, append_cancel_right}
use authorino_operator.Prelude.{
  ℕ, ◌+◌, ◌≤◌, ◌<◌, code, String, len, ◌≡◌, ◌≢◌, sym, subst, ap, ◌∙◌, List, arith, leb,
  if◌then◌else◌, nat_beq, ◌↔◌,
}
use authorino_operator.Resources.Names.{
  max_name_len, scoped_name, truncated_name, authorino_cluster_role_binding_name,
}
use authorino_operator.Resources.Names.Laws.{len-scoped_name, len-truncated_name-le}

-- No character of the text is a ".". So it is with a namespace, which is a DNS-1123 label.
abbrev pub HasNoDot : String → Type 0
HasNoDot String.[] = Unit
HasNoDot (String.◌∷◌ c s) = (code c ≢ b'.') × HasNoDot s

-- The text before the first ".".
before_dot : String → String
before_dot String.[] = ""
before_dot (String.◌∷◌ c s) = if nat_beq (code c) b'.' then "" else String.◌∷◌ c (before_dot s)

before_dot-append :
    (ns rest : String) → HasNoDot ns → before_dot (String.◌++◌ ns (String.◌++◌ "." rest)) ≡ ns
unfolding before_dot
before_dot-append String.[] rest h = rw (nil-append, cons-append)
before_dot-append (String.◌∷◌ c s) rest (hc, h) =
    rw cons-append (ground (arith, before_dot-append s rest h))

scoped_name-eq-namespace :
    (ns ns' cr cr' suffix suffix' : String)
    → HasNoDot ns
    → HasNoDot ns'
    → scoped_name ns cr suffix ≡ scoped_name ns' cr' suffix'
    → ns ≡ ns'
scoped_name-eq-namespace ns ns' cr cr' suffix suffix' h h' e =
    sym (before_dot-append ns _ h) ∙ ap before_dot e ∙ before_dot-append ns' _ h'

scoped_name-eq-cr :
    (ns cr cr' suffix : String) → scoped_name ns cr suffix ≡ scoped_name ns cr' suffix → cr ≡ cr'
scoped_name-eq-cr ns cr cr' suffix e =
    append_cancel_right _ _ _ (append_cancel_left "." _ _ (append_cancel_left ns _ _ e))

module _ (sum256 : String → List ℕ) where
  -- The part of the name that stands for the CR name.
  abbrev pub cr_part : String → String → String → String
  cr_part ns cr suffix =
      if leb (len (scoped_name ns cr suffix)) max_name_len
      then cr
      else truncated_name sum256 ns cr suffix

  name-scoped_name :
      (ns cr suffix : String)
      → authorino_cluster_role_binding_name sum256 ns cr suffix
        ≡ scoped_name ns (cr_part ns cr suffix) suffix
  unfolding authorino_cluster_role_binding_name
  name-scoped_name ns cr suffix = ground arith

  -- The namespace is read back from the name, if no namespace has a ".".
  name-eq-namespace :
      (ns ns' cr cr' suffix suffix' : String)
      → HasNoDot ns
      → HasNoDot ns'
      → authorino_cluster_role_binding_name sum256 ns cr suffix
        ≡ authorino_cluster_role_binding_name sum256 ns' cr' suffix'
      → ns ≡ ns'
  name-eq-namespace ns ns' cr cr' suffix suffix' h h' e =
      scoped_name-eq-namespace ns ns' _ _ suffix suffix' h h'
        (sym (name-scoped_name ns cr suffix) ∙ e ∙ name-scoped_name ns' cr' suffix')

  -- Instances of different namespaces never share a cluster role binding, whatever their CR names
  -- and the suffixes are, if the namespaces hold no ".".
  pub name-ne :
      (ns ns' cr cr' suffix suffix' : String)
      → HasNoDot ns
      → HasNoDot ns'
      → ns ≢ ns'
      → authorino_cluster_role_binding_name sum256 ns cr suffix
        ≢ authorino_cluster_role_binding_name sum256 ns' cr' suffix'
  name-ne ns ns' cr cr' suffix suffix' h h' different e =
      different (name-eq-namespace ns ns' cr cr' suffix suffix' h h' e)

  -- In one namespace and for one suffix, two names are equal exactly when the parts that stand for
  -- the CR names are.
  name-eq_iff :
      (ns cr cr' suffix : String)
      → (authorino_cluster_role_binding_name sum256 ns cr suffix
          ≡ authorino_cluster_role_binding_name sum256 ns cr' suffix)
        ↔ (cr_part ns cr suffix ≡ cr_part ns cr' suffix)
  name-eq_iff ns cr cr' suffix = (
    λ e.
        scoped_name-eq-cr ns _ _ suffix
          (sym (name-scoped_name ns cr suffix) ∙ e ∙ name-scoped_name ns cr' suffix),
    λ e. rw (name-scoped_name ns cr suffix, name-scoped_name ns cr' suffix, e),
  )

  cr_part_short :
      (ns cr suffix : String) → len ns + len cr + len suffix ≤ 251 → cr_part ns cr suffix ≡ cr
  cr_part_short ns cr suffix short = ground (arith, len-scoped_name ns cr suffix)

  -- For one suffix, and for CR names that fit without truncation, the name determines the instance:
  -- its namespace and its CR name, if the namespaces hold no ".".
  pub name-injective :
      (ns ns' cr cr' suffix : String)
      → HasNoDot ns
      → HasNoDot ns'
      → len ns + len cr + len suffix ≤ 251
      → len ns' + len cr' + len suffix ≤ 251
      → authorino_cluster_role_binding_name sum256 ns cr suffix
        ≡ authorino_cluster_role_binding_name sum256 ns' cr' suffix
      → (ns ≡ ns') × (cr ≡ cr')
  name-injective ns ns' cr cr' suffix h h' short short' e =
      let namespace = name-eq-namespace ns ns' cr cr' suffix suffix h h' e in
      let same : authorino_cluster_role_binding_name sum256 ns cr suffix
          ≡ authorino_cluster_role_binding_name sum256 ns cr' suffix =
        e ∙ ap (λ n. authorino_cluster_role_binding_name sum256 n cr' suffix) (sym namespace) in
      let short'' : len ns + len cr' + len suffix ≤ 251 =
        subst (λ (n : String). len n + len cr' + len suffix ≤ 251) (sym namespace) short' in
      (
        namespace,
        sym (cr_part_short ns cr suffix short)
            ∙ (name-eq_iff ns cr cr' suffix).0 same
            ∙ cr_part_short ns cr' suffix short'',
      )

  -- A CR name that is too long to be kept shares its binding's name with another CR name of the
  -- same namespace: with its own truncation with the hash behind it, which is short enough to stay
  -- as it is. So two names of this scheme can collide, if the namespace and the suffix leave room
  -- for the hash.
  pub truncated_name_collides :
      (ns cr suffix : String)
      → len ns + len suffix ≤ 235
      → 251 < len ns + len cr + len suffix
      → (truncated_name sum256 ns cr suffix ≢ cr)
        × (authorino_cluster_role_binding_name sum256 ns (truncated_name sum256 ns cr suffix) suffix
            ≡ authorino_cluster_role_binding_name sum256 ns cr suffix)
  unfolding authorino_cluster_role_binding_name
  truncated_name_collides ns cr suffix h long =
      let short = truncated_name sum256 ns cr suffix in
      let fits = len-truncated_name-le sum256 ns cr suffix h in
      (
        λ e. omega (arith, ap len e, fits),
        ground (arith, len-scoped_name ns short suffix, len-scoped_name ns cr suffix, fits),
      )
