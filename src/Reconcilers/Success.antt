-- ===== src/Reconcilers/Success.antt =====
-- Actions that return without an error, if the server has none.
pub mod Policies
pub mod Parts
pub mod Deployment
use authorino_operator.Prelude.{
  ◌≡◌, refl, Bool, true, false, none, some, Option, Bool-cases, inl, inr, [], ap, if◌then◌else◌,
}
use authorino_operator.Kube.{Kind, Object, ObjectKey, ObjectMeta, kind_of, object_key}
use authorino_operator.Api.{Authorino, Condition}
use authorino_operator.Reconcilers.Outcome.{Outcome, returned}
use authorino_operator.Reconcilers.Action.{
  Answer, found, failed, AuthorinoReconciler, Context, Err, GoError, M, State, StatusPatch, perform,
  pure, read_clock, unless, with_logger, ◌>>=◌,
}
use authorino_operator.Reconcilers.Resource.{
  Crud, Reconciled, apply_resource, create_resource, delete_resource, is_object_tagged_to_delete,
  reconcile_answer, reconcile_found, reconcile_missing, reconcile_resource,
}
use authorino_operator.Reconcilers.Status.{update_status_conditions}

-- What the libraries and a reachable server do that accepts the objects: the server gives an object of
-- the kind that is asked for or says that there is none, creates what it has just not found, applies
-- and deletes what it has just found, and patches the status of the CR; and `SetControllerReference`
-- has no error for an object without owners in the namespace of the CR.
pub record NoErrors {W : Type 0} (r : AuthorinoReconciler W) (authorino : Authorino) : Type 0 where
  pub absent :
      (kind : Kind) (key : ObjectKey) (w : W) (e : GoError)
      → (r.get kind key w).0 ≡ failed e
      → e.not_found ≡ true
  pub typed :
      (kind : Kind) (key : ObjectKey) (w : W) (obj : Object)
      → (r.get kind key w).0 ≡ found obj
      → kind_of obj ≡ kind
  pub creates :
      (obj : Object) (w : W) (e : GoError)
      → (r.get (kind_of obj) (object_key obj) w).0 ≡ failed e
      → (r.create obj (r.get (kind_of obj) (object_key obj) w).1).0 ≡ none
  pub applies :
      (obj obj' : Object) (w : W)
      → (r.get (kind_of obj) (object_key obj) w).0 ≡ found obj'
      → (r.apply obj (r.get (kind_of obj) (object_key obj) w).1).0 ≡ none
  pub deletes :
      (obj obj' : Object) (w : W)
      → (r.get (kind_of obj) (object_key obj) w).0 ≡ found obj'
      → (r.delete obj none (r.get (kind_of obj) (object_key obj) w).1).0 ≡ none
  pub patches :
      (patch : StatusPatch) (w : W)
      → patch.name ≡ authorino.meta.name
      → patch.namespace ≡ authorino.meta.namespace
      → (r.patch_status patch w).0 ≡ none
  pub owners :
      (meta : ObjectMeta)
      → meta.namespace ≡ authorino.meta.namespace
      → meta.owner_references ≡ []
      → (r.set_controller_reference authorino meta).0 ≡ none

-- `m` returns `ok`, whatever the state.
pub record Gives {W A : Type 0} (m : M W A) (ok : A) : Type 0 where
  pub at : (s : State W) → (m s).0 ≡ returned ok

module _ {W A B : Type 0} where
  pub Gives-bind :
      (m : M W A) (f : A → M W B) (ok : B)
      → ((s : State W) → (a : A) × ((m s).0 ≡ returned a) × Gives (f a) ok)
      → Gives (m >>= f) ok
  unfolding ◌>>=◌
  Gives-bind m f ok h = record {
    at = λ s. let (a, here, later) = h s in rw here (later.at (m s).1);
  }

module _ {W : Type 0} where
  pub Gives-unless :
      (m rest : M W Err)
      → Gives m none
      → Gives rest none
      → Gives (m >>= λ err. unless err rest) none
  Gives-unless m rest first later = Gives-bind m _ none (λ s. (none, first.at s, later))

  pub Gives-pure : {A : Type 0} (a : A) → Gives (pure {W = W} a) a
  unfolding pure
  Gives-pure a = record { at = λ s. refl }

  pub Gives-with_logger :
      (ctx : Context) (rest : M W Err)
      → ctx.has_logger ≡ true
      → Gives rest none
      → Gives (with_logger ctx rest) none
  Gives-with_logger ctx rest logged gives = rw logged gives

  pub Gives-if :
      {A : Type 0} (b : Bool) (m n : M W A) (ok : A)
      → Gives m ok
      → Gives n ok
      → Gives (if b then m else n) ok
  Gives-if true m n ok hm hn = hm
  Gives-if false m n ok hm hn = hn

module _ {W : Type 0} (r : AuthorinoReconciler W) (authorino : Authorino)
    (no_errors : NoErrors r authorino) where
  pub update_status_conditions-Gives :
      (new : Condition) → Gives (update_status_conditions r authorino new) none
  unfolding update_status_conditions ◌>>=◌ read_clock perform
  update_status_conditions-Gives new = record {
    at = λ s. ap returned (no_errors.patches _ _ refl refl);
  }

  module _ (ctx : Context) (logged : ctx.has_logger ≡ true) (desired : Object) where
    -- no error; and an object without the deletion tag is there, with its kind
    abbrev pub Yields : Outcome Reconciled → Type 0
    Yields o =
        (crud : Crud) × (obj : Option Object) × (o ≡ returned (crud, obj, none))
        × (is_object_tagged_to_delete desired ≡ false
            → (o' : Object) × (obj ≡ some o') × (kind_of o' ≡ kind_of desired))

    missing-Yields :
        (s : State W)
        → (r.create desired s.world).0 ≡ none
        → Yields (reconcile_missing r ctx desired s).0
    unfolding reconcile_missing create_resource ◌>>=◌ perform pure
    missing-Yields s creates = elim (Bool-cases (is_object_tagged_to_delete desired)) [
      | inl tagged ↦ (Crud.read, none, rw tagged refl, λ u. cc (tagged, u))
      | inr untagged ↦ (
        Crud.create,
        some desired,
        rw (untagged, logged, creates) refl,
        λ u. (desired, refl, refl),
      )
    ]

    found_object-Yields :
        (obj : Object) (s : State W)
        → kind_of obj ≡ kind_of desired
        → (r.apply desired s.world).0 ≡ none
        → (r.delete desired none s.world).0 ≡ none
        → Yields (reconcile_found r ctx obj desired s).0
    unfolding reconcile_found apply_resource delete_resource ◌>>=◌ perform pure
    found_object-Yields obj s kind applies deletes =
        elim (Bool-cases (is_object_tagged_to_delete desired)) [
          | inl tagged ↦
              (Crud.delete, some desired, rw (tagged, logged, deletes) refl, λ u. cc (tagged, u))
          | inr untagged ↦ (
            Crud.unchanged,
            some obj,
            rw (untagged, logged, applies) refl,
            λ u. (obj, refl, kind),
          )
        ]

    answer-Yields :
        (answer : Answer Object) (s : State W)
        → ((e : GoError)
            → answer ≡ failed e
            → (e.not_found ≡ true) × ((r.create desired s.world).0 ≡ none))
        → ((obj : Object)
            → answer ≡ found obj
            → (kind_of obj ≡ kind_of desired)
              × ((r.apply desired s.world).0 ≡ none)
              × ((r.delete desired none s.world).0 ≡ none))
        → Yields (reconcile_answer r ctx desired answer s).0
    unfolding reconcile_answer
    answer-Yields (failed e) s missing there =
        let (absent, creates) = missing e refl in rw absent (missing-Yields s creates)
    answer-Yields (found obj) s missing there =
        let (typed, applies, deletes) = there obj refl in
        found_object-Yields obj s typed applies deletes

    pub reconcile_resource-Yields : (s : State W) → Yields (reconcile_resource r ctx desired s).0
    unfolding reconcile_resource ◌>>=◌ perform
    reconcile_resource-Yields s =
        let key = object_key desired in
        let kind = kind_of desired in
        answer-Yields (r.get kind key s.world).0 _
          (λ e is. (no_errors.absent kind key s.world e is, no_errors.creates desired s.world e is))
          (λ obj is. (
            no_errors.typed kind key s.world obj is,
            no_errors.applies desired obj s.world is,
            no_errors.deletes desired obj s.world is,
          ))

    -- a rest that gives `none` for each result without an error
    pub reconcile_resource-Gives :
        (f : Reconciled → M W Err)
        → ((crud : Crud) (obj : Option Object) → Gives (f (crud, obj, none)) none)
        → Gives (reconcile_resource r ctx desired >>= f) none
    reconcile_resource-Gives f gives = Gives-bind _ f none (λ s.
        let (crud, obj, is, _) = reconcile_resource-Yields s in
        ((crud, obj, none), is, gives crud obj))
