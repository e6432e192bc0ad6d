-- ===== src/Controller/Lifecycle.antt =====
-- A reconciliation does not panic.
use authorino_operator.Prelude.{◌≡◌, true, false, arith, ◌==◌}
use authorino_operator.Kube.{ObjectKey}
use authorino_operator.Api.{Authorino}
use authorino_operator.Reconcilers.Consts.{related_image_authorino}
use authorino_operator.Reconcilers.Outcome.{Returns}
use authorino_operator.Reconcilers.Pod.{authorino_image}
use authorino_operator.Reconcilers.Action.{
  Answer, found, failed, AuthorinoReconciler, Call, Context, State,
}
use authorino_operator.Reconcilers.Action.Keeps.{
  Allows, Ends-mono, Ends-Returns, Issues, Policy, issue_rules,
}
use authorino_operator.Controller.Preflight.{Servers}
use authorino_operator.Controller.{
  Result, cleanup_cluster_scoped_permissions, finalize, install, reconcile, reconcile_instance,
  reconcile_read, register_finalizer,
}
use authorino_operator.Controller.Laws.{install-Issues}

module _ {W : Type 0} (r : AuthorinoReconciler W) (servers : Servers) (key : ObjectKey)
    (image : r.process.get_string related_image_authorino r.process.default_authorino_image == ""
      ≡ false) where
  image-authorino : (authorino : Authorino) → authorino_image r.process authorino == "" ≡ false
  unfolding authorino_image
  image-authorino authorino = ground arith

  -- any call, and no panic
  abbrev calm : Policy W
  calm = record { Good = λ s. Unit; may_panic = ⊥ }

  install-Issues-calm :
      (ctx : Context) (authorino : Authorino) → Issues calm (install r ctx servers authorino)
  install-Issues-calm ctx authorino = record {
    at = λ s. (
      λ h. tt,
      Ends-mono {A = Result} {P = authorino_image r.process authorino == "" ≡ true} {Q = ⊥} _
          (λ e. cc (e, image-authorino authorino))
          ((install-Issues r ctx servers authorino).at s).1,
    );
  }

  Allows-calm : {A : Type 0} (c : Call) (answer : W → A × W) → Allows calm c answer
  Allows-calm c answer = record { at = λ s h. tt }

  reconcile_instance-Issues :
      (ctx : Context) (authorino : Authorino)
      → Issues calm (reconcile_instance r ctx servers key authorino)
  unfolding reconcile_instance finalize register_finalizer cleanup_cluster_scoped_permissions
  reconcile_instance-Issues ctx authorino =
      search (issue_rules, Allows-calm, install-Issues-calm) depth 12

  reconcile_read-Issues :
      (answer : Answer Authorino) → Issues calm (reconcile_read r servers key answer)
  unfolding reconcile_read
  reconcile_read-Issues (found authorino) = reconcile_instance-Issues _ authorino
  reconcile_read-Issues (failed e) = search issue_rules depth 5

  reconcile-Issues : Issues calm (reconcile r servers key)
  unfolding reconcile
  reconcile-Issues = search (issue_rules, Allows-calm, reconcile_read-Issues) depth 5

  -- If the process gives an image where the CR has none, then a reconciliation returns: no panic for
  -- a missing image and no nil certificate reference, from every state and for every answer of the
  -- server.
  pub reconcile-Returns : (s : State W) → Returns (reconcile r servers key s).0
  reconcile-Returns s = Ends-Returns _ (reconcile-Issues.at s).1
