-- ===== src/Reconcilers/Resource/Convergence.antt =====
-- Where `reconcileResource` leaves the server, if the server keeps its promises.
use authorino_operator.Prelude.{
  ◌≡◌, refl, Bool, true, false, Option, none, some, Bool-cases, inl, inr, sym, ap, ◌∙◌,
  if◌then◌else◌,
}
use authorino_operator.Kube.{Object, kind_of, object_key}
use authorino_operator.Reconcilers.Outcome.{returned}
use authorino_operator.Reconcilers.Action.{
  Answer, found, failed, AuthorinoReconciler, Call, Context, Err, GoError, State, pure, perform,
  ◌>>=◌,
}
use authorino_operator.Reconcilers.Resource.{
  Crud, Reconciled, apply_resource, applied, create_resource, created, delete_resource,
  is_object_tagged_to_delete, reconcile_answer, reconcile_found, reconcile_missing,
  reconcile_resource,
}

module _ {W : Type 0} (r : AuthorinoReconciler W) (desired : Object) where
  -- what the server answers about the object
  abbrev pub asked : W → Answer Object × W
  asked w = r.get (kind_of desired) (object_key desired) w

  abbrev IsPresent : W → Type 0
  IsPresent w = (obj : Object) × ((asked w).0 ≡ found obj)

  abbrev IsAbsent : W → Type 0
  IsAbsent w = (e : GoError) × ((asked w).0 ≡ failed e) × (e.not_found ≡ true)

  -- what the deletion tag asks for
  abbrev pub IsReached : Bool → W → Type 0
  IsReached true w = IsAbsent w
  IsReached false w = IsPresent w

returned-eq : {A : Type 0} {a b : A} → returned a ≡ returned b → a ≡ b
returned-eq h = cc h

-- A write behind the check for a logger: if the result that is made of its error has none, then the
-- write took place, and without an error.
after_write :
    {W : Type 0} (logged : Bool) (c : Call) (write : W → Err × W) (no_logger : GoError)
    (finish : Err → Reconciled) (P : W → Type 0)
    → ((err : Err) → (finish err).2 ≡ err)
    → ((w : W) → (write w).0 ≡ none → P (write w).1)
    → (s : State W) {crud : Crud} {obj : Option Object}
    → (((if logged then perform c write else pure (some no_logger)) >>= λ err. pure (finish err))
        s).0
      ≡ returned (crud, obj, none)
    → P
        (((if logged then perform c write else pure (some no_logger)) >>= λ err. pure (finish err))
          s).1.world
unfolding perform pure ◌>>=◌
after_write true c write no_logger finish P keeps writes s h =
    writes s.world (sym (keeps _) ∙ ap (λ (x : Reconciled). x.2) (returned-eq h))
after_write false c write no_logger finish P keeps writes s h =
    let e : some no_logger ≡ none =
      sym (keeps (some no_logger)) ∙ ap (λ (x : Reconciled). x.2) (returned-eq h) in
    cc e

module _ {W : Type 0} (r : AuthorinoReconciler W) (ctx : Context) (desired : Object)
    (reads : (w : W) → (asked r desired w).1 ≡ w)
    (creates : (w : W) → (r.create desired w).0 ≡ none → IsPresent r desired (r.create desired w).1)
    (applies : (w : W) → (r.apply desired w).0 ≡ none → IsPresent r desired (r.apply desired w).1)
    (deletes : (w : W)
      → (r.delete desired none w).0 ≡ none
      → IsAbsent r desired (r.delete desired none w).1) where
  missing-IsReached :
      (s : State W) {crud : Crud} {obj : Option Object}
      → IsAbsent r desired s.world
      → (reconcile_missing r ctx desired s).0 ≡ returned (crud, obj, none)
      → IsReached r desired
          (is_object_tagged_to_delete desired)
          (reconcile_missing r ctx desired s).1.world
  unfolding reconcile_missing create_resource pure
  missing-IsReached s absent h = elim (Bool-cases (is_object_tagged_to_delete desired)) [
    | inl tagged ↦ rw tagged absent
    | inr untagged ↦ rw untagged (
        after_write ctx.has_logger (Call.create desired) (r.create desired) _
          (created r ctx desired) (IsPresent r desired) created-err creates s (rw untagged at h))
  ]
    where
      created-err : (err : Err) → (created r ctx desired err).2 ≡ err
      created-err none = refl
      created-err (some e) = refl

  found-IsReached :
      (obj' : Object) (s : State W) {crud : Crud} {obj : Option Object}
      → (reconcile_found r ctx obj' desired s).0 ≡ returned (crud, obj, none)
      → IsReached r desired
          (is_object_tagged_to_delete desired)
          (reconcile_found r ctx obj' desired s).1.world
  unfolding reconcile_found apply_resource delete_resource
  found-IsReached obj' s h = elim (Bool-cases (is_object_tagged_to_delete desired)) [
    | inl tagged ↦ rw tagged (
        after_write ctx.has_logger (Call.delete desired none) (r.delete desired none) _
          (λ err. (Crud.delete, some desired, err)) (IsAbsent r desired) (λ err. refl) deletes s
          (rw tagged at h))
    | inr untagged ↦ rw untagged (
        after_write ctx.has_logger (Call.apply desired) (r.apply desired) _
          (applied r ctx obj' desired) (IsPresent r desired) applied-err applies s
          (rw untagged at h))
  ]
    where
      applied-err : (err : Err) → (applied r ctx obj' desired err).2 ≡ err
      applied-err none = refl
      applied-err (some e) = refl

  answer-IsReached :
      (answer : Answer Object) (s : State W) {crud : Crud} {obj : Option Object}
      → (asked r desired s.world).0 ≡ answer
      → (reconcile_answer r ctx desired answer s).0 ≡ returned (crud, obj, none)
      → IsReached r desired
          (is_object_tagged_to_delete desired)
          (reconcile_answer r ctx desired answer s).1.world
  unfolding reconcile_answer pure
  answer-IsReached (found obj') s is h = found-IsReached obj' s h
  answer-IsReached (failed e) s is h = elim (Bool-cases e.not_found) [
    | inl missing ↦ rw missing (missing-IsReached s (e, is, missing) (rw missing at h))
    | inr broken ↦ cc (rw broken at h)
  ]

  -- If the server keeps its promises for the object (reading changes nothing, what was created or
  -- applied without an error exists, and what was deleted without an error is not found), then a
  -- reconciliation of the object that returns no error leaves it as the deletion tag asks: existing
  -- without the tag, and not found with it.
  pub reconcile_resource-IsReached :
      (s : State W) {crud : Crud} {obj : Option Object}
      → (reconcile_resource r ctx desired s).0 ≡ returned (crud, obj, none)
      → IsReached r desired
          (is_object_tagged_to_delete desired)
          (reconcile_resource r ctx desired s).1.world
  unfolding reconcile_resource perform ◌>>=◌
  reconcile_resource-IsReached s h =
      answer-IsReached (asked r desired s.world).0 _
        (ap (λ w. (asked r desired w).0) (reads s.world)) h
