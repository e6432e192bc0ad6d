-- ===== src/Reconcilers/Action.antt =====
-- Actions of the reconciler. The API server is not part of the repository: `W` stands for its
-- state, whatever that is, and the record `AuthorinoReconciler` holds what the client answers from it,
-- what `SetControllerReference` and the finalizer functions of controllerutil do, and what the clock
-- says. Each call of the client is recorded,
-- the latest first. Log lines are not modelled.
pub mod Keeps
use authorino_operator.Prelude.{
  ℕ, String, Bool, Option, none, some, List, ◌∷◌, false, if◌then◌else◌,
}
use authorino_operator.Kube.{
  Time, Kind, ObjectKey, Object, ObjectMeta, OwnerReference, Binding, TypeMeta, meta_of, with_meta,
}
use authorino_operator.Api.{Authorino, AuthorinoStatus}
use authorino_operator.Reconcilers.Outcome.{Outcome, returned, panicked}
use authorino_operator.Reconcilers.Pod.{Process}

-- A Go error: its text, and what `errors.IsNotFound` says of it.
pub record GoError : Type 0 where
  pub text : String
  pub not_found : Bool

-- `error`: nil or an error
abbrev pub Err : Type 0
Err = Option GoError

-- `fmt.Errorf`, with `%v`: an error that wraps nothing
abbrev pub errorf : String → GoError
errorf text = record { text = text; not_found = false }

pub record Preconditions : Type 0 where
  pub uid : String
  pub resource_version : String

-- the object that a status update sends: nothing but the status beside the identity
pub record StatusPatch : Type 0 where
  pub type_meta : TypeMeta
  pub name : String
  pub namespace : String
  pub status : AuthorinoStatus

pub data Answer {ℓ} (A : Type ℓ) : Type ℓ where
  found : A → Answer A
  failed : GoError → Answer A

-- `Patch` is always a server-side apply with forced ownership for the operator's field owner.
pub data Call : Type 0 where
  get : Kind → ObjectKey → Call
  get_authorino get_cluster_role_binding : ObjectKey → Call
  create : Object → Call
  update_object : Object → Call
  apply : Object → Call
  delete : Object → Option Preconditions → Call
  update : Authorino → Call
  patch_status : StatusPatch → Call

pub record AuthorinoReconciler (W : Type 0) : Type 0 where
  pub get : Kind → ObjectKey → W → Answer Object × W
  pub get_cluster_role_binding : ObjectKey → W → Answer Binding × W
  pub get_authorino : ObjectKey → W → Answer Authorino × W
  pub create : Object → W → Err × W
  pub update_object : Object → W → Err × W
  pub apply : Object → W → Err × W
  pub delete : Object → Option Preconditions → W → Err × W
  pub update : Authorino → W → Err × W
  pub patch_status : StatusPatch → W → Err × W
  pub now : W → Time × W
  pub set_controller_reference : Authorino → ObjectMeta → Err × List OwnerReference
  pub contains_finalizer : Authorino → String → Bool
  pub add_finalizer : Authorino → String → Authorino
  pub remove_finalizer : Authorino → String → Authorino
  pub process : Process
  pub sum256 : String → List ℕ

-- `logr.FromContext` finds a logger or fails.
pub record Context : Type 0 where
  pub has_logger : Bool

pub record State (W : Type 0) : Type 0 where
  pub world : W
  pub calls : List Call

abbrev pub M : Type 0 → Type 0 → Type 0
M W A = State W → Outcome A × State W

module _ {W A : Type 0} where
  unfoldable pub pure : A → M W A
  pure a s = (returned a, s)

  unfoldable pub lift : Outcome A → M W A
  lift outcome s = (outcome, s)

  -- one call of the client
  unfoldable pub perform : Call → (W → A × W) → M W A
  perform call answer s =
      let (a, world) = answer s.world in
      (returned a, record { world = world; calls = call ∷ s.calls })

  -- reading the clock is no call of the client
  unfoldable pub read_clock : (W → A × W) → M W A
  read_clock answer s = let (a, world) = answer s.world in (returned a, record s { world = world })

module _ {W A B : Type 0} where
  abbrev pub continue : Outcome A → (A → M W B) → M W B
  continue (returned a) f s = f a s
  continue (panicked message) f s = (panicked message, s)

  infixl 5 ◌>>=◌ ◌>>◌
  unfoldable pub ◌>>=◌ : M W A → (A → M W B) → M W B
  unfolding pure lift perform read_clock
  ◌>>=◌ m f s = let (outcome, s') = m s in continue outcome f s'

  abbrev pub ◌>>◌ : M W A → M W B → M W B
  m >> k = m >>= λ _. k

module _ {W : Type 0} where
  -- `if err != nil { return err }`, and then the rest
  abbrev pub unless : Err → M W Err → M W Err
  unless none rest = rest
  unless (some e) rest = pure (some e)

  -- `logger, err := logr.FromContext(ctx); if err != nil { return err }`
  abbrev pub with_logger : Context → M W Err → M W Err
  with_logger ctx rest =
      if ctx.has_logger then rest else pure (some (errorf "no logr.Logger was present"))

  -- the object with the owner references that `SetControllerReference` gives it
  abbrev pub controlled : AuthorinoReconciler W → Authorino → Object → Err × Object
  controlled r authorino obj =
      let (err, refs) = r.set_controller_reference authorino (meta_of obj) in
      (err, with_meta obj (record (meta_of obj) { owner_references = refs }))
