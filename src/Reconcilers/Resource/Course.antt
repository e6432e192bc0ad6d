-- ===== src/Reconcilers/Resource/Course.antt =====
-- The course of `reconcileResource`: what the tag and the answer of the server ask for, and that this
-- is done.
use authorino_operator.Prelude.{
  ◌≡◌, refl, Bool, true, false, Option, none, some, List, [], ◌∷◌, ◌++◌, Bool-cases, inl, inr,
  if◌then◌else◌,
}
use authorino_operator.Kube.{Object, kind_of, object_key}
use authorino_operator.Reconcilers.Outcome.{Outcome, returned}
use authorino_operator.Reconcilers.Action.{
  Answer, found, failed, AuthorinoReconciler, Call, Context, Err, State, perform, pure, ◌>>=◌,
}
use authorino_operator.Reconcilers.Resource.{
  Reconciled, applied, apply_resource, create_resource, created, delete_resource,
  is_object_tagged_to_delete, reconcile_answer, reconcile_found, reconcile_missing,
  reconcile_resource,
}

-- Which write is due, by the deletion tag and what the server says about the object.
abbrev due : Object → Bool → Answer Object → Option Call
due desired true (found obj) = some (Call.delete desired none)
due desired true (failed e) = none
due desired false (found obj) = some (Call.apply desired)
due desired false (failed e) = if e.not_found then some (Call.create desired) else none

-- An object that cannot be read, for another reason than that it is missing, is an error.
abbrev reading_error : Answer Object → Err
reading_error (found obj) = none
reading_error (failed e) = if e.not_found then none else some e

abbrev calls_of : Option Call → List Call
calls_of none = []
calls_of (some c) = c ∷ []

-- What the server says to a write, and its state behind it; nothing is written if none is due.
abbrev served : {W : Type 0} → AuthorinoReconciler W → Err → Option Call → W → Err × W
served r err (some (Call.create obj)) w = r.create obj w
served r err (some (Call.apply obj)) w = r.apply obj w
served r err (some (Call.delete obj preconditions)) w = r.delete obj preconditions w
served r err _ w = (err, w)

-- The write that is due is the only one; its error is returned, and without it that of the reading.
abbrev pub Follows :
    {W : Type 0}
    → AuthorinoReconciler W
    → Object
    → Answer Object
    → State W
    → Outcome Reconciled × State W
    → Type 0
Follows r desired answer s (outcome, s') =
    let write = due desired (is_object_tagged_to_delete desired) answer in
    let (err, world) = served r (reading_error answer) write s.world in
    ((x : Reconciled) × (outcome ≡ returned x) × (x.2 ≡ err))
    × (s'.calls ≡ calls_of write ++ s.calls)
    × (s'.world ≡ world)

module _ {W : Type 0} (r : AuthorinoReconciler W) (ctx : Context) (desired : Object)
    (logged : ctx.has_logger ≡ true) where
  created-err : (err : Err) → (created r ctx desired err).2 ≡ err
  created-err none = refl
  created-err (some e) = refl

  applied-err : (obj : Object) (err : Err) → (applied r ctx obj desired err).2 ≡ err
  applied-err obj none = refl
  applied-err obj (some e) = refl

  found-Follows :
      (obj : Object) (s : State W)
      → Follows r desired (found obj) s (reconcile_found r ctx obj desired s)
  unfolding reconcile_found apply_resource delete_resource ◌>>=◌ perform pure
  found-Follows obj s = elim (Bool-cases (is_object_tagged_to_delete desired)) [
    | inl tagged ↦ rw (tagged, logged) ((_, refl, refl), refl, refl)
    | inr untagged ↦ rw (untagged, logged) ((_, refl, applied-err obj _), refl, refl)
  ]

  answer-Follows :
      (answer : Answer Object) (s : State W)
      → Follows r desired answer s (reconcile_answer r ctx desired answer s)
  unfolding reconcile_answer reconcile_missing create_resource ◌>>=◌ perform pure
  answer-Follows (found obj) s = found-Follows obj s
  answer-Follows (failed e) s = elim (Bool-cases (is_object_tagged_to_delete desired)) [
    | inl tagged ↦ elim (Bool-cases e.not_found) [
      | inl missing ↦ rw (tagged, missing) ((_, refl, refl), refl, refl)
      | inr broken ↦ rw (tagged, broken) ((_, refl, refl), refl, refl)
    ]
    | inr untagged ↦ elim (Bool-cases e.not_found) [
      | inl missing ↦ rw (untagged, missing, logged) ((_, refl, created-err _), refl, refl)
      | inr broken ↦ rw (untagged, broken) ((_, refl, refl), refl, refl)
    ]
  ]

-- With a logger, the reconciliation of an object reads it and then makes exactly the write that the
-- tag and the answer ask for: with the tag, an object that is found is deleted; without it, one that
-- is found is applied, and one that is not found is created; and nothing else is written. The state of
-- the server is the one that this write leaves. The reconciliation returns, without a panic, the error
-- of the write, or, where none is due, that of a reading that failed for another reason than that
-- the object is missing.
pub reconcile_resource-Follows :
    {W : Type 0} (r : AuthorinoReconciler W) (ctx : Context) (desired : Object) (s : State W)
    → ctx.has_logger ≡ true
    → Follows r desired
        (r.get (kind_of desired) (object_key desired) s.world).0
        (record {
          world = (r.get (kind_of desired) (object_key desired) s.world).1;
          calls = Call.get (kind_of desired) (object_key desired) ∷ s.calls;
        })
        (reconcile_resource r ctx desired s)
unfolding reconcile_resource ◌>>=◌ perform
reconcile_resource-Follows r ctx desired s logged = answer-Follows r ctx desired logged _ _
