-- ===== src/Reconcilers/Presence/Resource.antt =====
-- What the reconciliation of one object without the deletion tag leaves.
use authorino_operator.Prelude.{
  ◌≡◌, ◌≢◌, ◌⊎◌, refl, Option, Bool, true, false, none, some, Bool-cases, Option-cases, inl, inr,
  subst, ap, if◌then◌else◌,
}
use authorino_operator.Kube.{Object, kind_of, object_key}
use authorino_operator.Reconcilers.Outcome.{returned}
use authorino_operator.Reconcilers.Action.{
  Answer, found, failed, AuthorinoReconciler, Context, Err, GoError, M, State, perform, pure, ◌>>=◌,
}
use authorino_operator.Reconcilers.Action.Keeps.{Issues, bind-eq-returned}
use authorino_operator.Reconcilers.Resource.{
  Crud, Reconciled, create_resource, is_object_tagged_to_delete, reconcile_answer, reconcile_found,
  reconcile_missing, reconcile_resource,
}
use authorino_operator.Reconcilers.Resource.Laws.{reconcile_found-Issues}
use authorino_operator.Reconcilers.Presence.{Has, Leaves, bind-state, Promises, holds, writes-holds}

-- The object could not be read or created.
abbrev IsFailure : Reconciled → Type 0
IsFailure (Crud.read, obj, some e) = Unit
IsFailure (Crud.create, obj, some e) = Unit
IsFailure _ = ⊥

IsFailure-eq :
    {x result : Reconciled} → IsFailure x → returned x ≡ returned result → IsFailure result
IsFailure-eq {x} {result} failure h = let same : x ≡ result = cc h in subst IsFailure same failure

module _ {W : Type 0} (r : AuthorinoReconciler W) (promises : Promises r) (ctx : Context)
    (desired : Object) (untagged : is_object_tagged_to_delete desired ≡ false) where
  abbrev HasDesired : W → Type 0
  HasDesired w = Has r (kind_of desired) (object_key desired) w

  -- The object exists, or the result is a failure.
  abbrev Settles : M W Reconciled → State W → Type 0
  Settles m s =
      (result : Reconciled)
      → (m s).0 ≡ returned result
      → HasDesired (m s).1.world ⊎ IsFailure result

  Settles-if :
      (b : Bool) (m n : M W Reconciled) (s : State W)
      → (b ≡ true → Settles m s)
      → (b ≡ false → Settles n s)
      → Settles (if b then m else n) s
  Settles-if true m n s hm hn = hm refl
  Settles-if false m n s hm hn = hn refl

  missing-Settles : (s : State W) → Settles (reconcile_missing r ctx desired) s
  unfolding reconcile_missing create_resource perform pure ◌>>=◌
  missing-Settles s result h = elim (Bool-cases ctx.has_logger) [
    | inl logged ↦ elim (Option-cases (r.create desired s.world).0) [
      | inl ok ↦ inl (rw (untagged, logged) (promises.creates desired s.world ok))
      | inr (e, bad) ↦ inr (IsFailure-eq tt (rw (untagged, logged, bad) at h))
    ]
    | inr silent ↦ inr (IsFailure-eq tt (rw (untagged, silent) at h))
  ]

  found-Settles :
      (obj : Object) (s : State W)
      → HasDesired s.world
      → Settles (reconcile_found r ctx obj desired) s
  found-Settles obj s has result h = inl (
      ((reconcile_found-Issues r ctx (writes-holds r promises _ _ desired untagged) obj).at s).0
        has)

  answer-Settles :
      (answer : Answer Object) (s : State W)
      → (r.get (kind_of desired) (object_key desired) s.world).0 ≡ answer
      → Settles (reconcile_answer r ctx desired answer) s
  unfolding reconcile_answer pure
  answer-Settles (found obj) s is = found-Settles obj s (obj, is)
  answer-Settles (failed e) s is =
      Settles-if e.not_found _ _ s (λ missing. missing-Settles s)
        (λ broken result h. inr (IsFailure-eq {x = (Crud.read, none, some e)} tt h))

  reconcile_resource-Settles : (s : State W) → Settles (reconcile_resource r ctx desired) s
  unfolding reconcile_resource perform ◌>>=◌
  reconcile_resource-Settles s =
      answer-Settles (r.get (kind_of desired) (object_key desired) s.world).0 _ (
        ap (λ w. (r.get (kind_of desired) (object_key desired) w).0)
          (promises.get_reads _ _ s.world))

  -- The rest has no error only if the object was read or created, and keeps it.
  pub reconcile_resource-Leaves :
      (k : Reconciled → M W Err)
      → ((obj : Option Object) (e : GoError) (s : State W)
          → (k (Crud.read, obj, some e) s).0 ≢ returned none)
      → ((obj : Option Object) (e : GoError) (s : State W)
          → (k (Crud.create, obj, some e) s).0 ≢ returned none)
      → ((result : Reconciled) → Issues (holds r (kind_of desired) (object_key desired)) (k result))
      → Leaves
          (holds r (kind_of desired) (object_key desired))
          (reconcile_resource r ctx desired >>= k)
          none
  reconcile_resource-Leaves k reads creates keeps = record {
    at = λ s h.
        let (result, here, later) = bind-eq-returned (reconcile_resource r ctx desired) k s h in
        rw (bind-state (reconcile_resource r ctx desired) k s result here)
          (elim (reconcile_resource-Settles s result here) [
            | inl has ↦ ((keeps result).at _).0 has
            | inr failure ↦ absurd (stops result _ failure later)
          ]);
  }
    where
      stops :
          (result : Reconciled) (s : State W) → IsFailure result → (k result s).0 ≢ returned none
      stops (Crud.read, obj, some e) s failure = reads obj e s
      stops (Crud.create, obj, some e) s failure = creates obj e s
      stops (crud, obj, err) s failure = absurd failure
