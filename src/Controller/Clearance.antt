-- ===== src/Controller/Clearance.antt =====
-- What the finalization of a CR leaves of the cluster-scoped objects of its instance.
use authorino_operator.Prelude.{IsIn, ◌≡◌, ◌⊎◌, String, true, none, some}
use authorino_operator.Kube.{Kind, Object, ObjectKey, kind_of, object_key}
use authorino_operator.Api.{Authorino}
use authorino_operator.Resources.Names.{authorino_cluster_role_binding_name}
use authorino_operator.Reconcilers.Action.{failed, AuthorinoReconciler, Call, Err, GoError, State}
use authorino_operator.Controller.{finalize}
use authorino_operator.Controller.Isolation.{key_of}

-- The server says that it has no such object.
abbrev pub IsMissing : {W : Type 0} → AuthorinoReconciler W → Kind → ObjectKey → W → Type 0
IsMissing r kind key w = (e : GoError) × ((r.get kind key w).0 ≡ failed e) × (e.not_found ≡ true)

-- The answer to a deletion says that the object was deleted, or that it was missing.
abbrev pub IsGone : Err → Type 0
IsGone none = Unit
IsGone (some e) = e.not_found ≡ true

-- What a server promises: what was deleted is missing, and what is missing does not come back by a
-- deletion or by the update of a CR.
pub record Deletions {W : Type 0} (r : AuthorinoReconciler W) : Type 0 where
  pub deletes :
      (obj : Object) (w : W)
      → IsGone (r.delete obj none w).0
      → IsMissing r (kind_of obj) (object_key obj) (r.delete obj none w).1
  pub delete_keeps :
      (obj : Object) (kind : Kind) (key : ObjectKey) (w : W)
      → IsMissing r kind key w
      → IsMissing r kind key (r.delete obj none w).1
  pub update_keeps :
      (authorino : Authorino) (kind : Kind) (key : ObjectKey) (w : W)
      → IsMissing r kind key w
      → IsMissing r kind key (r.update authorino w).1

-- The object is missing, or the server refused one of the deletions that were called, that of an
-- object under this kind and key.
abbrev pub IsCleared : {W : Type 0} → AuthorinoReconciler W → State W → Kind × ObjectKey → Type 0
IsCleared {W} r s (kind, key) =
    IsMissing r kind key s.world
    ⊎ ((obj : Object) × (before : W) × IsIn (Call.delete obj none) s.calls
        × (kind_of obj ≡ kind)
        × (object_key obj ≡ key)
        × ¬ IsGone (r.delete obj none before).0)

module _ {W : Type 0} (r : AuthorinoReconciler W) (deletions : Deletions r) (authorino : Authorino)
    (s : State W) where
  abbrev after : State W
  after = (finalize r (key_of authorino) authorino s).1

  -- the binding under the name with this suffix
  abbrev wide : String → Kind × ObjectKey
  wide suffix = (
    Kind.cluster_role_binding,
    record {
      namespace = "";
      name =
          authorino_cluster_role_binding_name r.sum256 authorino.meta.namespace authorino.meta.name
            suffix;
    },
  )

  abbrev Cleared : W → Kind × ObjectKey → Type 0
  Cleared w x = IsCleared r (record after { world = w }) x

  -- of a cluster-scoped object, that nothing is left of it
  abbrev IsLeftClear : Kind × ObjectKey → Type 0
  IsLeftClear (kind, key) = kind ≡ Kind.cluster_role_binding → IsCleared r after (kind, key)
