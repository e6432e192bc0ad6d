-- ===== src/Controller/Preflight.antt =====
-- `installationPreflightCheck` of controllers/authorino_controller.go.
use authorino_operator.Prelude.{
  String, Option, none, some, List, [], ◌∷◌, ◌==◌, concat, if◌then◌else◌,
}
use authorino_operator.Kube.{Kind, LocalObjectReference, Object, ObjectKey}
use authorino_operator.Api.{Authorino, Tls}
use authorino_operator.Reconcilers.Args.{enabled_by_default}
use authorino_operator.Reconcilers.Consts.{status_tls_secret_not_provided}
use authorino_operator.Reconcilers.Action.{
  Answer, found, failed, AuthorinoReconciler, Call, Err, M, errorf, perform, pure, unless, ◌>>=◌,
}
use authorino_operator.Reconcilers.Status.{fail_with}

-- A `range` loop visits a map in any order: the map of the two servers is visited in one of two.
pub data Servers : Type 0 where
  listener_first oidc_first : Servers

abbrev pub tls_certs : Servers → Authorino → List (String × Tls)
tls_certs listener_first authorino =
    ("listener", authorino.spec.listener.tls) ∷ ("oidc", authorino.spec.oidc_server.tls) ∷ []
tls_certs oidc_first authorino =
    ("oidc", authorino.spec.oidc_server.tls) ∷ ("listener", authorino.spec.listener.tls) ∷ []

abbrev pub namespaced_name : String → String → ObjectKey
namespaced_name namespace name = record { namespace = namespace; name = name }

-- the name of the secret; `none` if there is no reference or its name is empty
abbrev pub provided : Option LocalObjectReference → Option String
provided none = none
provided (some ref) = if ref.name == "" then none else some ref.name

module _ {W : Type 0} (r : AuthorinoReconciler W) where
  unfoldable pub secret_answer : Authorino → String → String → Answer Object → M W Err
  secret_answer authorino server secret (found obj) = pure none
  secret_answer authorino server secret (failed e) =
      fail_with r authorino status_tls_secret_not_provided (
        some (
          errorf (
            concat (
              if e.not_found
              then server ∷ " secret name " ∷ secret ∷ " not found, err: " ∷ e.text ∷ []
              else "failed to get " ∷ server ∷ " secret name " ∷ secret ∷ " , err: " ∷ e.text
                ∷ []))))

  unfoldable pub check_secret : Authorino → String → Option String → M W Err
  check_secret authorino server none =
      fail_with r authorino status_tls_secret_not_provided
        (some (errorf (concat (server ∷ " secret with tls cert not provided" ∷ []))))
  check_secret authorino server (some secret) = do
    let key = namespaced_name authorino.meta.namespace secret
    answer ← perform (Call.get Kind.secret key) (r.get Kind.secret key)
    secret_answer authorino server secret answer

  unfoldable pub check_servers : Authorino → List (String × Tls) → M W Err
  check_servers authorino [] = pure none
  check_servers authorino ((server, tls) ∷ rest) = do
    err ←
        (if enabled_by_default tls.enabled
          then check_secret authorino server (provided tls.cert_secret)
          else pure none)
    unless err (check_servers authorino rest)

  unfoldable pub installation_preflight_check : Servers → Authorino → M W Err
  installation_preflight_check servers authorino =
      check_servers authorino (tls_certs servers authorino)
