-- ===== src/Controller/Laws.antt =====
-- What one reconciliation may do, and when it may panic.
use authorino_operator.Prelude.{
  ◌≡◌, ◌≢◌, refl, String, Bool, true, false, Option, none, some, List, [], ◌∷◌, Bool-cases, inl,
  inr, ap, All, if◌then◌else◌, ◌==◌, ◌∙◌,
}
use authorino_operator.Kube.{LocalObjectReference}
use authorino_operator.Api.{Authorino, Tls}
use authorino_operator.Reconcilers.Args.{enabled_by_default}
use authorino_operator.Reconcilers.Outcome.{returned}
use authorino_operator.Reconcilers.Pod.{Process, authorino_image}
use authorino_operator.Reconcilers.Pod.Laws.{HasSecret, HasSecrets, IsBuildable}
use authorino_operator.Reconcilers.Action.{
  AuthorinoReconciler, Context, Err, GoError, M, State, pure, unless, ◌>>=◌,
}
use authorino_operator.Reconcilers.Action.Keeps.{
  Ends-mono, Issues, Policy, making, Issues-bind-returned, Issues-pure, bind-eq-returned,
  unless-eq-returned_none,
}
use authorino_operator.Reconcilers.Status.{
  fail_with, set_status_failed, update_status_conditions, wrap_error_with_status_update,
}
use authorino_operator.Reconcilers.Safety.{AllowsReports-making}
use authorino_operator.Reconcilers.Privilege.{Permitted, parts-Permitted}
use authorino_operator.Controller.Preflight.{
  Servers, listener_first, oidc_first, check_secret, check_servers, installation_preflight_check,
  provided,
}
use authorino_operator.Controller.Keeps.{check_servers-Issues, reconcile_parts-Issues}
use authorino_operator.Controller.{install, reconcile_parts, requeue_on}

module _ {W : Type 0} (r : AuthorinoReconciler W) (ctx : Context) (authorino : Authorino) where
  fail_with-returned :
      (reason : String) (e : GoError) (s : State W)
      → (fail_with r authorino reason (some e) s).0 ≡ returned (some e)
  unfolding fail_with wrap_error_with_status_update set_status_failed update_status_conditions ◌>>=◌
  fail_with-returned reason e s = refl

  check_secret-provided :
      (server : String) (secret : Option String) (s : State W)
      → (check_secret r authorino server secret s).0 ≡ returned none
      → secret ≢ none
  unfolding check_secret
  check_secret-provided server none s h absent = cc (h, fail_with-returned _ _ s)
  check_secret-provided server (some secret) s h absent = cc

  provided-none : (ref : Option LocalObjectReference) → provided ref ≢ none → ref ≢ none
  provided-none ref h e = h (rw e)

  -- one round of the loop of the preflight check
  abbrev checked : String × Tls → M W Err
  checked (server, tls) =
      if enabled_by_default tls.enabled
      then check_secret r authorino server (provided tls.cert_secret)
      else pure none

  checked-HasSecret :
      (server : String) (tls : Tls) (s : State W)
      → (checked (server, tls) s).0 ≡ returned none
      → HasSecret tls
  checked-HasSecret server tls s h = elim (Bool-cases (enabled_by_default tls.enabled)) [
    | inr off ↦ inl off
    | inl on ↦ inr (
        provided-none tls.cert_secret
          (check_secret-provided server (provided tls.cert_secret) s (chosen _ _ on h)))
  ]
    where
      chosen :
          (b : Bool) (m : M W Err)
          → b ≡ true
          → ((if b then m else pure none) s).0 ≡ returned none
          → (m s).0 ≡ returned none
      chosen true m e k = k
      chosen false m e k = cc

  check_servers-HasSecret :
      (servers : List (String × Tls)) (s : State W)
      → (check_servers r authorino servers s).0 ≡ returned none
      → All (λ server. HasSecret server.1) servers
  unfolding check_servers
  check_servers-HasSecret [] s h = tt
  check_servers-HasSecret ((server, tls) ∷ rest) s h =
      let (err, here, later) =
        bind-eq-returned (checked (server, tls))
          (λ err. unless err (check_servers r authorino rest)) s h in
      let (no_error, rest_ok) =
        unless-eq-returned_none err (check_servers r authorino rest) _ later in
      (
        checked-HasSecret server tls s (here ∙ ap returned no_error),
        check_servers-HasSecret rest _ rest_ok,
      )

  -- If the preflight check finds no error, in whatever order it visits the two listeners, then each
  -- listener with TLS refers to a secret.
  pub installation_preflight_check-HasSecrets :
      (servers : Servers) (s : State W)
      → (installation_preflight_check r servers authorino s).0 ≡ returned none
      → HasSecrets authorino
  unfolding installation_preflight_check
  installation_preflight_check-HasSecrets listener_first s h =
      let found = check_servers-HasSecret _ s h in (found.0, found.1.0)
  installation_preflight_check-HasSecrets oidc_first s h =
      let found = check_servers-HasSecret _ s h in (found.1.0, found.0)

-- The permitted calls, and a panic only where there is no image at all.
abbrev installing : {W : Type 0} → Process → Authorino → Policy W
installing process authorino =
    making (Permitted authorino) (authorino_image process authorino == "" ≡ true)

unbuildable_image :
    (process : Process) (authorino : Authorino)
    → HasSecrets authorino
    → ¬ IsBuildable process authorino
    → authorino_image process authorino == "" ≡ true
unbuildable_image process authorino secrets unbuildable =
    elim (Bool-cases (authorino_image process authorino == "")) [
      | inl empty ↦ empty
      | inr set ↦ absurd (unbuildable (set, secrets))
    ]

pub install-Issues :
    {W : Type 0} (r : AuthorinoReconciler W) (ctx : Context) (servers : Servers)
    (authorino : Authorino)
    → Issues (installing r.process authorino) (install r ctx servers authorino)
unfolding install installation_preflight_check
install-Issues {W} r ctx servers authorino =
    Issues-bind-returned (installation_preflight_check r servers authorino) _
      (check_servers-Issues r ctx authorino
        (AllowsReports-making r authorino (λ kind key. tt) (λ patch n ns. (n, ns))) _)
      (λ s err h. rest err s h)
  where
    rest :
        (err : Err) (s : State W)
        → (installation_preflight_check r servers authorino s).0 ≡ returned err
        → Issues
            (installing r.process authorino)
            (requeue_on r err (reconcile_parts r ctx authorino))
    rest (some e) s h = Issues-pure _
    rest none s h = record {
      at = λ s'.
          let (calls, ends) =
            (reconcile_parts-Issues r ctx authorino (parts-Permitted r ctx authorino)).at s' in
          (
            calls,
            Ends-mono _
                (unbuildable_image r.process authorino
                  (installation_preflight_check-HasSecrets r ctx authorino servers s h))
                ends,
          );
    }

-- The installation of an instance makes only the permitted calls, whatever the server answers and
-- whichever listener is checked first, if the calls before it are permitted. A binding that it writes
-- has the instance's service account as its only subject, and refers to the manager role cluster-wide
-- only for a cluster-wide CR and in the namespace only for another. It writes no cluster role and no
-- secret, and every other object that it writes is in the CR's namespace. It deletes the manager
-- binding of the mode that is not chosen, and else only, with its UID and resource version as
-- preconditions, a binding that has the instance's service account among its subjects. It never
-- writes the CR itself but the status of this CR.
pub calls-install :
    {W : Type 0} (r : AuthorinoReconciler W) (ctx : Context) (servers : Servers)
    (authorino : Authorino) (s : State W)
    → All (Permitted authorino) s.calls
    → All (Permitted authorino) (install r ctx servers authorino s).1.calls
calls-install r ctx servers authorino s h = ((install-Issues r ctx servers authorino).at s).0 h
