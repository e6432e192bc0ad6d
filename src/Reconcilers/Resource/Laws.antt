-- ===== src/Reconcilers/Resource/Laws.antt =====
-- Which client calls the reconciliation of one object makes.
use authorino_operator.Prelude.{◌≡◌, refl, true, false, none, ◌∷◌, Bool-cases, inl, inr}
use authorino_operator.Kube.{Object, kind_of, object_key}
use authorino_operator.Reconcilers.Action.{
  Answer, found, failed, AuthorinoReconciler, Call, Context, GoError, State, perform, pure, ◌>>=◌,
}
use authorino_operator.Reconcilers.Action.Keeps.{
  Allows, Issues, IssuesAt, Policy, Allows-making, issue_rules, making,
}
use authorino_operator.Reconcilers.Resource.{
  apply_resource, create_resource, delete_resource, is_object_tagged_to_delete, reconcile_answer,
  reconcile_found, reconcile_missing, reconcile_resource,
}

-- In the world `w`, the server has just said that it cannot give the object.
abbrev pub IsUnread : {W : Type 0} → AuthorinoReconciler W → Object → W → Type 0
IsUnread {W} r desired w =
    (w' : W) × (e : GoError) × ((r.get (kind_of desired) (object_key desired) w').0 ≡ failed e)
    × ((r.get (kind_of desired) (object_key desired) w').1 ≡ w)

-- `P` allows what the reconciliation of an object may do to it: a creation, only after a failed read.
pub record AllowsWrites {W : Type 0} (r : AuthorinoReconciler W) (desired : Object) (P : Policy W)
    : Type 0 where
  pub creates :
      is_object_tagged_to_delete desired ≡ false
      → (s : State W) → IsUnread r desired s.world
      → P.Good s
      → P.Good
          (record { world = (r.create desired s.world).1; calls = Call.create desired ∷ s.calls })
  pub applies :
      is_object_tagged_to_delete desired ≡ false → Allows P (Call.apply desired) (r.apply desired)
  pub deletes :
      is_object_tagged_to_delete desired ≡ true
      → Allows P (Call.delete desired none) (r.delete desired none)

-- the same, for a policy of calls
pub AllowsWrites-making :
    {W : Type 0} (r : AuthorinoReconciler W) {allows : Call → Type 0} {may_panic : Type 0}
    (desired : Object)
    → (is_object_tagged_to_delete desired ≡ false → allows (Call.create desired))
    → (is_object_tagged_to_delete desired ≡ false → allows (Call.apply desired))
    → (is_object_tagged_to_delete desired ≡ true → allows (Call.delete desired none))
    → AllowsWrites r desired (making allows may_panic)
AllowsWrites-making r desired creates applies deletes = record {
  creates = λ u s unread h. (creates u, h);
  applies = λ u. Allows-making _ _ (applies u);
  deletes = λ t. Allows-making _ _ (deletes t);
}

module _ {W : Type 0} (r : AuthorinoReconciler W) (ctx : Context) {P : Policy W} {desired : Object}
    (writes : AllowsWrites r desired P) where
  reconcile_missing-IssuesAt :
      (s : State W) → IsUnread r desired s.world → IssuesAt P (reconcile_missing r ctx desired) s
  unfolding reconcile_missing create_resource perform pure ◌>>=◌
  reconcile_missing-IssuesAt s unread = elim (Bool-cases (is_object_tagged_to_delete desired)) [
    | inl tagged ↦ rw tagged (λ h. h, tt)
    | inr untagged ↦ elim (Bool-cases ctx.has_logger) [
      | inl logged ↦ rw (untagged, logged) (writes.creates untagged s unread, tt)
      | inr silent ↦ rw (untagged, silent) (λ h. h, tt)
    ]
  ]

  pub reconcile_found-Issues : (obj : Object) → Issues P (reconcile_found r ctx obj desired)
  unfolding reconcile_found delete_resource apply_resource
  reconcile_found-Issues obj = elim (Bool-cases (is_object_tagged_to_delete desired)) [
    | inl tagged ↦ rw tagged (search (issue_rules, writes.deletes tagged))
    | inr untagged ↦ rw untagged (search (issue_rules, writes.applies untagged))
  ]

  reconcile_answer-IssuesAt :
      (answer : Answer Object) (s : State W)
      → ((e : GoError) → answer ≡ failed e → IsUnread r desired s.world)
      → IssuesAt P (reconcile_answer r ctx desired answer) s
  unfolding reconcile_answer pure
  reconcile_answer-IssuesAt (found obj) s unread = (reconcile_found-Issues obj).at s
  reconcile_answer-IssuesAt (failed e) s unread = elim (Bool-cases e.not_found) [
    | inl missing ↦ rw missing (reconcile_missing-IssuesAt s (unread e refl))
    | inr broken ↦ rw broken (λ h. h, tt)
  ]

  pub reconcile_resource-Issues :
      Allows P
        (Call.get (kind_of desired) (object_key desired))
        (r.get (kind_of desired) (object_key desired))
      → Issues P (reconcile_resource r ctx desired)
  unfolding reconcile_resource perform ◌>>=◌
  reconcile_resource-Issues reads = record {
    at = λ s.
        let (keeps, ends) = reconcile_answer-IssuesAt _ _ (λ e is. (s.world, e, is, refl)) in
        (λ h. keeps (reads.at s h), ends);
  }
