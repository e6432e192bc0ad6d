-- ===== src/Lib.antt =====
-- A model of the Authorino operator, the Kubernetes controller that installs instances of Authorino
-- from custom resources (CRs) of kind `Authorino`, with proofs of its behaviour.
--
-- The program. `Reconcile` (controllers/authorino_controller.go) reads one CR. A CR that is being
-- deleted loses its cluster role bindings and then its finalizer; a new one gets the finalizer;
-- another one is installed: a preflight check of the TLS secrets, and then services, service account,
-- permissions and deployment, in this order (pkg/reconcilers/authorino_reconciler.go). Each object is
-- built by pkg/resources or pkg/reconcilers/deployment.go, and brought about by `reconcileResource`:
-- read it, and create, apply or delete it. Failures and the availability of the deployment go to the
-- status of the CR (pkg/reconcilers/status.go, pkg/condition/condition.go).
--
-- The files:
--   Api                      api/v1beta1/authorino_types.go: the CR, and `Ready`
--   Condition, Condition/*   pkg/condition/condition.go: the list of status conditions
--   Resources/Maps           pkg/resources/map_utils.go, `MapUpdateNeeded` of k8s_deployment.go
--   Resources/Names          pkg/resources/k8s_util.go: labels and the names of objects
--   Resources/Rbac           pkg/resources/k8s_rbac.go: service accounts and bindings
--   Resources/Services       pkg/resources/k8s_services.go: `NewAuthService`, `NewOIDCService`,
--                            `NewMetricsService`, `EqualServices`
--   Resources/Deployments    pkg/resources/k8s_deployment.go
--   Reconcilers/Consts       pkg/reconcilers/consts.go
--   Reconcilers/Version, Args, EnvVars, Pod
--                            pkg/reconcilers/deployment.go: `detectEnvVarAuthorinoVersion`,
--                            `buildAuthorinoArgs`, `buildAuthorinoEnv`, `AuthorinoDeployment`
--   Reconcilers/Action       the actions of the reconciler, see below
--   Reconcilers/Status       pkg/reconcilers/status.go
--   Reconcilers/Resource     `reconcileResource`, `CreateResource`, `UpdateResource`,
--                            `ApplyResource`, `DeleteResource`
--   Reconcilers/Components   `ReconcileAuthorinoDeployment`, `ReconcileAuthorinoServices`,
--                            `ReconcileAuthorinoServiceAccount`, `reconcileLeaderElectionRole`
--   Reconcilers/Permissions  `ReconcileAuthorinoPermissions`, the bindings and
--                            `cleanupLegacyClusterRoleBindings`
--   Reconcilers/Safety, Privilege
--                            which calls each of them may make
--   Reconcilers/Wiring       how services, deployment, service account and bindings fit together
--   Reconcilers/Report, Errors
--                            what the status says afterwards, and which errors are returned
--   Reconcilers/Presence     what exists after an action, over the promises of the server
--   Reconcilers/Success      what returns without an error, if the server has none
--   Controller, Controller/* controllers/authorino_controller.go: `Reconcile`,
--                            `installationPreflightCheck`, `cleanupClusterScopedPermissions`
--   Controller/Provision, Provision/*
--                            which objects an instance consists of, and what installations leave
--   Controller/Completion, Completion/*
--                            that a reconciliation completes, if nothing is missing
--   Controller/Clearance     what the finalization leaves
--   Controller/Reclaim, Isolation, Isolation/*
--                            what the written objects carry, and instances beside each other
--   Api/DeepCopy             api/v1beta1/zz_generated.deepcopy.go: the deep copies, on values with the
--                            addresses of what they point to; one `deep_copy` for every `DeepCopy`
--   Api/Scheme               api/v1beta1/groupversion_info.go: the types that are registered
--   Log                      pkg/log/logger.go: log levels and modes
--   Main                     main.go: the start of the operator, with `SetupWithManager`
--   Kube                     the types of k8s.io/api and k8s.io/apimachinery, as far as they are used
--   Prelude                  shared helpers: integers, texts and lists
--   Tests                    the theorems applied to concrete instances
--
-- State and effects. The API server is not part of the repository. An action takes a state of any
-- type `W` for the world and the list of the client calls so far, the latest first, and gives an
-- outcome (a value or a panic) and the new state. The record `AuthorinoReconciler` has, for each call
-- of the client, a function from `W` to the answer and the next `W`: the theorems hold for every such
-- record, and so for every sequence of answers, failures included, unless they name promises of the
-- server (`Promises` of Reconcilers/Presence), which also exclude other writers, that it has no errors
-- where it is used as documented (`NoErrors` of Reconcilers/Success), what its deletions do
-- (`Deletions` of Controller/Clearance), or what the libraries promise (`Controls` of
-- Controller/Reclaim, `Finalizers` of Controller/Phases). The record also has the clock,
-- `SetControllerReference`, the finalizer functions of controllerutil, `env.GetString` and SHA-256.
-- Of the `range` loops over Go maps, the one of the preflight check gets its order as an argument, and
-- the others visit the entries in the order of the list that stands for the map.
--
-- Numbers and bounds. The integers of the CR (int32, int) are printed, compared and copied, never
-- added, and are unbounded here; `strconv.Atoi` has its 64-bit bound. Lengths of names are lengths in
-- bytes; 253 is `DNS1123SubdomainMaxLength`. No definition needs fuel: every loop is over a list or a
-- text. `sort.Slice` is modelled as the insertion sort that it is for up to twelve elements.
--
-- Not modelled: log lines; the changes that the client makes to an object that it created or applied
-- (the code uses none of them but the status of a created deployment, which is empty); the parsing of
-- the flags of main.go; and what zap, logr and controller-runtime do. The deep copies leave out the
-- `TypeMeta` of `Authorino` and `AuthorinoList`, which is two texts and no pointer, and read a nil slice
-- as the empty one. The name that is truncated is cut between characters, where Go cuts between bytes:
-- this is the same for the ASCII names that Kubernetes allows.
pub mod Prelude
pub mod Kube
pub mod Api
pub mod Condition
pub mod Resources
pub mod Reconcilers
pub mod Controller
pub mod Log
pub mod Main
pub mod Tests
