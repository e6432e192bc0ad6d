-- ===== src/Controller/Completion/Preflight.antt =====
-- The preflight check, if the secrets are there.
use authorino_operator.Prelude.{
  ◌≡◌, refl, String, true, Bool-cases, none, some, List, [], ◌∷◌, All, subst, sym, inl, inr, ◌∙◌,
  if◌then◌else◌,
}
use authorino_operator.Kube.{Kind}
use authorino_operator.Api.{Authorino, Tls}
use authorino_operator.Reconcilers.Outcome.{returned}
use authorino_operator.Reconcilers.Args.{enabled_by_default}
use authorino_operator.Reconcilers.Action.{
  AuthorinoReconciler, Err, M, State, perform, pure, unless, ◌>>=◌,
}
use authorino_operator.Reconcilers.Presence.{Has, Promises}
use authorino_operator.Controller.Preflight.{
  Servers, check_secret, check_servers, installation_preflight_check, listener_first,
  namespaced_name, oidc_first, provided, secret_answer,
}

-- The server has the secret that the listener refers to, if it has TLS.
abbrev pub IsCertified : {W : Type 0} → AuthorinoReconciler W → Authorino → W → Tls → Type 0
IsCertified r authorino w tls =
    enabled_by_default tls.enabled ≡ true
    → (secret : String) × (provided tls.cert_secret ≡ some secret)
      × Has r Kind.secret (namespaced_name authorino.meta.namespace secret) w

-- no error, and the world is the same behind it
abbrev pub IsQuiet : {W : Type 0} → M W Err → State W → Type 0
IsQuiet m s = ((m s).0 ≡ returned none) × ((m s).1.world ≡ s.world)

module _ {W : Type 0} where
  IsQuiet-unless :
      (m rest : M W Err) (s : State W)
      → IsQuiet m s
      → IsQuiet rest (m s).1
      → IsQuiet (m >>= λ err. unless err rest) s
  unfolding ◌>>=◌
  IsQuiet-unless m rest s (first, same) (later, same') = rw first (later, same' ∙ same)

module _ {W : Type 0} (r : AuthorinoReconciler W) (promises : Promises r)
    (authorino : Authorino) where
  check_server-IsQuiet :
      (server : String) (tls : Tls) (s : State W)
      → IsCertified r authorino s.world tls
      → IsQuiet
          (if enabled_by_default tls.enabled
            then check_secret r authorino server (provided tls.cert_secret)
            else pure none)
          s
  unfolding check_secret secret_answer ◌>>=◌ perform pure
  check_server-IsQuiet server tls s certified = elim (Bool-cases (enabled_by_default tls.enabled)) [
    | inl on ↦
        let (secret, is, (obj, there)) = certified on in
        rw (on, is, there) (refl, promises.get_reads _ _ s.world)
    | inr off ↦ rw off (refl, refl)
  ]

  check_servers-IsQuiet :
      (servers : List (String × Tls)) (s : State W)
      → All (λ (x : String × Tls). IsCertified r authorino s.world x.1) servers
      → IsQuiet (check_servers r authorino servers) s
  unfolding check_servers pure
  check_servers-IsQuiet [] s certified = (refl, refl)
  check_servers-IsQuiet ((server, tls) ∷ rest) s (here, later) =
      let quiet = check_server-IsQuiet server tls s here in
      IsQuiet-unless _ _ s quiet (
        check_servers-IsQuiet rest _ (
          subst (λ w. All (λ (x : String × Tls). IsCertified r authorino w x.1) rest) (sym quiet.1)
            later))

  pub preflight-IsQuiet :
      (servers : Servers) (s : State W)
      → IsCertified r authorino s.world authorino.spec.listener.tls
      → IsCertified r authorino s.world authorino.spec.oidc_server.tls
      → IsQuiet (installation_preflight_check r servers authorino) s
  unfolding installation_preflight_check
  preflight-IsQuiet listener_first s listener oidc =
      check_servers-IsQuiet _ s (listener, (oidc, tt))
  preflight-IsQuiet oidc_first s listener oidc = check_servers-IsQuiet _ s (oidc, (listener, tt))
