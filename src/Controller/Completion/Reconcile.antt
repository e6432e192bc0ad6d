-- ===== src/Controller/Completion/Reconcile.antt =====
-- The reconciliation of a CR by a server without errors.
use authorino_operator.Prelude.{◌∷◌, ◌≡◌, refl, true, false, none, All, ◌==◌}
use authorino_operator.Kube.{Kind, ObjectKey}
use authorino_operator.Api.{Authorino}
use authorino_operator.Reconcilers.Outcome.{returned}
use authorino_operator.Reconcilers.Pod.{authorino_image}
use authorino_operator.Reconcilers.Action.{Call, found, AuthorinoReconciler, State, perform, ◌>>=◌}
use authorino_operator.Reconcilers.Permissions.Legacy.{Fits}
use authorino_operator.Reconcilers.Presence.{Has, Promises}
use authorino_operator.Reconcilers.Success.{NoErrors}
use authorino_operator.Controller.{
  authorino_finalizer, is_some, reconcile, reconcile_instance, reconcile_read, install, result,
}
use authorino_operator.Controller.Preflight.{Servers}
use authorino_operator.Controller.Provision.{instance_keys}
use authorino_operator.Controller.Completion.Preflight.{IsCertified}
use authorino_operator.Controller.Completion.{auth_role, install-Completes, manager_role}

-- the CR is read, and it is neither being deleted nor without the finalizer
abbrev IsInstalled : {W : Type 0} → AuthorinoReconciler W → ObjectKey → Authorino → W → Type 0
IsInstalled r key authorino w =
    (r.get_authorino key w ≡ (found authorino, w))
    × (is_some authorino.meta.deletion_timestamp ≡ false)
    × (r.contains_finalizer authorino authorino_finalizer ≡ true)

-- its reconciliation is its installation
reconcile-installs :
    {W : Type 0} (r : AuthorinoReconciler W) (servers : Servers) (key : ObjectKey)
    (authorino : Authorino) (s : State W)
    → IsInstalled r key authorino s.world
    → reconcile r servers key s
      ≡ install r
          (record { has_logger = true })
          servers
          authorino
          (record s { calls = Call.get_authorino key ∷ s.calls })
unfolding reconcile reconcile_read reconcile_instance ◌>>=◌ perform
reconcile-installs r servers key authorino s (read, alive, there) = rw (read, alive, there) refl

-- Let the server keep its promises, answer every read, create what it has just not found, apply and
-- delete what it has just found, and patch the status of the CR; let `SetControllerReference` have no
-- error for an object without owners in the namespace of the CR. If the CR that the server gives is
-- neither being deleted nor without the finalizer, there is an image, the names of the instance's
-- cluster role bindings need not be truncated, and the server has the two cluster roles and the secret
-- of each listener with TLS, then the reconciliation returns without an error and without a requeue,
-- and every object of the instance exists behind it, whatever existed before.
pub reconcile-Completes :
    {W : Type 0} (r : AuthorinoReconciler W) (servers : Servers) (key : ObjectKey)
    (authorino : Authorino) (s : State W)
    → Promises r
    → NoErrors r authorino
    → r.get_authorino key s.world ≡ (found authorino, s.world)
    → is_some authorino.meta.deletion_timestamp ≡ false
    → r.contains_finalizer authorino authorino_finalizer ≡ true
    → authorino_image r.process authorino == "" ≡ false
    → Fits authorino
    → Has r manager_role.0 manager_role.1 s.world
    → Has r auth_role.0 auth_role.1 s.world
    → IsCertified r authorino s.world authorino.spec.listener.tls
    → IsCertified r authorino s.world authorino.spec.oidc_server.tls
    → ((reconcile r servers key s).0 ≡ returned (result none))
      × All
          (λ (x : Kind × ObjectKey). Has r x.0 x.1 (reconcile r servers key s).1.world)
          (instance_keys r authorino)
reconcile-Completes r servers key authorino s promises no_errors read alive there image fits manager
      auth listener oidc =
    rw (reconcile-installs r servers key authorino s (read, alive, there)) (
      install-Completes r (record { has_logger = true }) servers authorino
        (record s { calls = Call.get_authorino key ∷ s.calls }) promises no_errors refl image fits
        manager auth listener oidc)
