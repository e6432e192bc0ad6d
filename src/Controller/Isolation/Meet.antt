-- ===== src/Controller/Isolation/Meet.antt =====
-- Which objects two instances have in common.
use Prim.Native.String
use text.Mathlib.TextLemmas.{append_assoc as text_assoc, append_cancel_right}
use authorino_operator.Prelude.{
  All, All-IsIn, Bool, String, [], ap, arith, concat, false, if◌then◌else◌, inl, inr, len, refl,
  sym, true, ◌∷◌, ◌≡◌, ◌≢◌, ◌⊎◌, ◌∙◌, ◌==◌, false≢true, eq_refl,
}
use authorino_operator.Kube.{Kind, Object, ObjectKey, kind_of, object_key}
use authorino_operator.Api.{Authorino}
use authorino_operator.Resources.Names.{authorino_cluster_role_binding_name}
use authorino_operator.Reconcilers.Consts.{
  authorino_k8s_auth_cluster_role_binding_name, authorino_leader_election_role_name,
  authorino_manager_cluster_role_binding_name,
}
use authorino_operator.Reconcilers.Action.{AuthorinoReconciler, Context, State}
use authorino_operator.Reconcilers.Permissions.Apart.{
  AreApart, auth-ne-manager, manager-ne-auth, same_suffix-ne,
}
use authorino_operator.Reconcilers.Permissions.Legacy.{end-ne}
use authorino_operator.Reconcilers.Safety.Writing.{FineParts-mono, WritesOnly, parts-writing}
use authorino_operator.Controller.{install}
use authorino_operator.Controller.Keeps.{install_parts-Issues}
use authorino_operator.Controller.Preflight.{Servers}
use authorino_operator.Controller.Provision.Listed.{IsListed, parts-IsListed}
use authorino_operator.Controller.Provision.{instance_keys}

-- the key of an object in the namespace of the instance, whose name begins with that of the instance
abbrev own_key : Authorino → String → ObjectKey
own_key authorino suffix = record {
  namespace = authorino.meta.namespace;
  name = concat (authorino.meta.name ∷ suffix ∷ []);
}

abbrev leader_role_key : Authorino → ObjectKey
leader_role_key authorino = record {
  namespace = authorino.meta.namespace;
  name = authorino_leader_election_role_name;
}

module _ {W : Type 0} (r : AuthorinoReconciler W) where
  abbrev wide_key : Authorino → String → ObjectKey
  wide_key authorino suffix = record {
    namespace = "";
    name =
        authorino_cluster_role_binding_name r.sum256 authorino.meta.namespace authorino.meta.name
          suffix;
  }

  -- the keys that an instance may have, kind by kind
  abbrev OfKind : Authorino → Kind → ObjectKey → Type 0
  OfKind a Kind.service key =
      (key ≡ own_key a "-authorino-authorization")
      ⊎ (key ≡ own_key a "-authorino-oidc")
      ⊎ (key ≡ own_key a "-controller-metrics")
  OfKind a Kind.service_account key = key ≡ own_key a "-authorino"
  OfKind a Kind.cluster_role_binding key =
      (key ≡ wide_key a authorino_manager_cluster_role_binding_name)
      ⊎ (key ≡ wide_key a authorino_k8s_auth_cluster_role_binding_name)
  OfKind a Kind.role_binding key =
      (key ≡ own_key a "-authorino") ⊎ (key ≡ own_key a "-authorino-leader-election")
  OfKind a Kind.role key = key ≡ leader_role_key a
  OfKind a Kind.deployment key = key ≡ record { namespace = a.meta.namespace; name = a.meta.name }
  OfKind a _ key = ⊥

  abbrev HasKind : Authorino → Kind × ObjectKey → Type 0
  HasKind a (kind, key) = OfKind a kind key

  picked-HasKind :
      (a : Authorino) (wide : Bool) (x y : Kind × ObjectKey)
      → HasKind a x
      → HasKind a y
      → HasKind a (if wide then x else y)
  picked-HasKind a true x y hx hy = hx
  picked-HasKind a false x y hx hy = hy

  instance_keys-HasKind : (a : Authorino) → All (HasKind a) (instance_keys r a)
  instance_keys-HasKind a = (
    inl refl,
    (
      inr (inl refl),
      (
        inr (inr refl),
        (
          refl,
          (
            picked-HasKind a a.spec.cluster_wide _ _ (inl refl) (inl refl),
            (inr refl, (refl, (inr refl, (refl, tt)))),
          ),
        ),
      ),
    ),
  )

-- The object is the role of the leader election, and the instances share a namespace.
abbrev pub IsShared : Authorino → Authorino → Kind × ObjectKey → Type 0
IsShared a b (kind, key) =
    (kind ≡ Kind.role) × (key ≡ leader_role_key a) × (a.meta.namespace ≡ b.meta.namespace)

module _ (a b : Authorino) where
  -- keys with different ends
  ends-ne :
      (p p' t t' : String) {k k' key : ObjectKey}
      → len t ≡ len t'
      → (t == t') ≡ false
      → k.name ≡ String.◌++◌ a.meta.name (String.◌++◌ p t)
      → k'.name ≡ String.◌++◌ b.meta.name (String.◌++◌ p' t')
      → key ≡ k
      → key ≢ k'
  ends-ne p p' t t' same other is is' x y =
      end-ne (String.◌++◌ a.meta.name p) (String.◌++◌ b.meta.name p') t t' same
        (λ h. false≢true (sym other ∙ ap (λ u. u == t') h ∙ eq_refl t'))
        (text_assoc a.meta.name p t
          ∙ sym is
          ∙ ap (λ (k : ObjectKey). k.name) (sym x ∙ y)
          ∙ is'
          ∙ sym (text_assoc b.meta.name p' t'))

-- If the object is one of `b`, then it is shared with `a`.
abbrev pub MeetsOnlyAtRole :
    {W : Type 0} → AuthorinoReconciler W → Authorino → Authorino → Object → Type 0
MeetsOnlyAtRole r a b obj = IsListed r b obj → IsShared a b (kind_of obj, object_key obj)

module _ {W : Type 0} (r : AuthorinoReconciler W) (a b : Authorino) (apart : AreApart a b) where
  own_key-ne : (suffix : String) → own_key a suffix ≢ own_key b suffix
  own_key-ne suffix e =
      apart.different (ap (λ (k : ObjectKey). k.namespace) e)
        (append_cancel_right a.meta.name b.meta.name _ (ap (λ (k : ObjectKey). k.name) e))

  wide_name : {key k k' : ObjectKey} → key ≡ k → key ≡ k' → k.name ≡ k'.name
  wide_name x y = ap (λ (k : ObjectKey). k.name) (sym x ∙ y)

  -- one key of both instances, for one kind
  meet :
      (kind : Kind) (key : ObjectKey)
      → OfKind r a kind key
      → OfKind r b kind key
      → IsShared a b (kind, key)
  meet Kind.service key (inl x) (inl y) = absurd (own_key-ne "-authorino-authorization" (sym x ∙ y))
  meet Kind.service key (inl x) (inr (inl y)) =
      absurd
        (ends-ne a b "-authorino-authoriz" "-authorino" "ation" "-oidc" refl refl refl refl x y)
  meet Kind.service key (inl x) (inr (inr y)) =
      absurd
        (ends-ne a b "-authorino-authorizat" "-controller-metr" "ion" "ics" refl refl refl refl x y)
  meet Kind.service key (inr (inl x)) (inl y) =
      absurd
        (ends-ne a b "-authorino" "-authorino-authoriz" "-oidc" "ation" refl refl refl refl x y)
  meet Kind.service key (inr (inl x)) (inr (inl y)) =
      absurd (own_key-ne "-authorino-oidc" (sym x ∙ y))
  meet Kind.service key (inr (inl x)) (inr (inr y)) =
      absurd (ends-ne a b "-authorino" "-controller-me" "-oidc" "trics" refl refl refl refl x y)
  meet Kind.service key (inr (inr x)) (inl y) =
      absurd
        (ends-ne a b "-controller-metr" "-authorino-authorizat" "ics" "ion" refl refl refl refl x y)
  meet Kind.service key (inr (inr x)) (inr (inl y)) =
      absurd (ends-ne a b "-controller-me" "-authorino" "trics" "-oidc" refl refl refl refl x y)
  meet Kind.service key (inr (inr x)) (inr (inr y)) =
      absurd (own_key-ne "-controller-metrics" (sym x ∙ y))
  meet Kind.service_account key x y = absurd (own_key-ne "-authorino" (sym x ∙ y))
  meet Kind.cluster_role_binding key (inl x) (inl y) =
      absurd (same_suffix-ne r.sum256 a b apart _ (omega arith) (wide_name y x))
  meet Kind.cluster_role_binding key (inl x) (inr y) =
      absurd (auth-ne-manager r.sum256 a b apart (wide_name y x))
  meet Kind.cluster_role_binding key (inr x) (inl y) =
      absurd (manager-ne-auth r.sum256 a b apart (wide_name y x))
  meet Kind.cluster_role_binding key (inr x) (inr y) =
      absurd (same_suffix-ne r.sum256 a b apart _ (omega arith) (wide_name y x))
  meet Kind.role_binding key (inl x) (inl y) = absurd (own_key-ne "-authorino" (sym x ∙ y))
  meet Kind.role_binding key (inl x) (inr y) =
      absurd (ends-ne a b "-" "-authorino-leader" "authorino" "-election" refl refl refl refl x y)
  meet Kind.role_binding key (inr x) (inl y) =
      absurd (ends-ne a b "-authorino-leader" "-" "-election" "authorino" refl refl refl refl x y)
  meet Kind.role_binding key (inr x) (inr y) =
      absurd (own_key-ne "-authorino-leader-election" (sym x ∙ y))
  meet Kind.role key x y = (refl, x, ap (λ (k : ObjectKey). k.namespace) (sym x ∙ y))
  meet Kind.deployment key x y = absurd (
      apart.different (ap (λ (k : ObjectKey). k.namespace) (sym x ∙ y))
        (ap (λ (k : ObjectKey). k.name) (sym x ∙ y)))
  meet Kind.cluster_role key x y = absurd x
  meet Kind.secret key x y = absurd x

  meets : (obj : Object) → IsListed r a obj → MeetsOnlyAtRole r a b obj
  meets obj x y =
      meet _ _ (All-IsIn (HasKind r a) (instance_keys r a) _ (instance_keys-HasKind r a) x)
        (All-IsIn (HasKind r b) (instance_keys r b) _ (instance_keys-HasKind r b) y)

-- The installation of `a` writes no object of another instance `b`, but for one: each object that it
-- creates or applies, if it has the kind and key of an object of `b`, is the role of the leader
-- election in the namespace that the two share. This is so whatever the server answers, if it is so of
-- the calls before. The two do not have both namespace and name in common, the namespaces hold no
-- ".", and the names of their cluster role bindings need not be truncated.
pub calls-install-MeetsOnlyAtRole :
    {W : Type 0} (r : AuthorinoReconciler W) (ctx : Context) (servers : Servers) (a b : Authorino)
    (s : State W)
    → AreApart a b
    → All (WritesOnly (MeetsOnlyAtRole r a b)) s.calls
    → All (WritesOnly (MeetsOnlyAtRole r a b)) (install r ctx servers a s).1.calls
calls-install-MeetsOnlyAtRole r ctx servers a b s apart h =
    let fine =
      FineParts-mono r ctx a (IsListed r a) (MeetsOnlyAtRole r a b) (meets r a b apart)
        (parts-IsListed r ctx a) in
    ((install_parts-Issues r ctx a (parts-writing r ctx a (MeetsOnlyAtRole r a b) fine) servers).at
        s).0
      h
