-- ===== src/Controller/Provision/Again.antt =====
-- What the installations do that follow the first one.
use authorino_operator.Prelude.{◌≡◌, none, [], All, All-IsIn, All-every, All-mono, All-zip}
use authorino_operator.Kube.{Kind, ObjectKey}
use authorino_operator.Api.{Authorino}
use authorino_operator.Reconcilers.Outcome.{returned}
use authorino_operator.Reconcilers.Action.{AuthorinoReconciler, Call, Context, State}
use authorino_operator.Reconcilers.Permissions.Legacy.{Fits}
use authorino_operator.Reconcilers.Presence.{Has, Promises}
use authorino_operator.Reconcilers.Safety.Writing.{WritesOnly}
use authorino_operator.Controller.{install, result}
use authorino_operator.Controller.Preflight.{Servers}
use authorino_operator.Controller.Provision.{instance_keys}
use authorino_operator.Controller.Provision.Kept.{CreatesNoneOf, install-keeps, kept}
use authorino_operator.Controller.Provision.Laws.{install-HasInstance}
use authorino_operator.Controller.Provision.Listed.{IsListed, install-IsListed}

-- From one state to the other by installations of the instance, with whatever outcomes.
pub data Reinstalls {W : Type 0} (r : AuthorinoReconciler W) (authorino : Authorino) (s : State W)
    : State W → Type 0 where
  done : Reinstalls r authorino s s
  again :
      {t : State W} (ctx : Context) (servers : Servers)
      → Reinstalls r authorino s t
      → Reinstalls r authorino s (install r ctx servers authorino t).1

-- no call that creates an object
abbrev pub CreatesNothing : Call → Type 0
CreatesNothing (Call.create obj) = ⊥
CreatesNothing _ = Unit

module _ {W : Type 0} (r : AuthorinoReconciler W) (promises : Promises r) (authorino : Authorino)
    (fits : Fits authorino) where
  -- The instance is complete, none of its objects was created, and nothing else was written.
  abbrev IsComplete : State W → Type 0
  IsComplete s =
      (kept r promises (instance_keys r authorino)).Good s
      × All (WritesOnly (IsListed r authorino)) s.calls

  Reinstalls-IsComplete : {s t : State W} → IsComplete s → Reinstalls r authorino s t → IsComplete t
  Reinstalls-IsComplete h Reinstalls.done = h
  Reinstalls-IsComplete h (Reinstalls.again {t = t} ctx servers steps) =
      let (before, listed) = Reinstalls-IsComplete h steps in
      (
        ((install-keeps r promises authorino fits ctx servers).at t).0 before,
        ((install-IsListed r ctx authorino servers).at t).0 listed,
      )

  created :
      (c : Call)
      → CreatesNoneOf (instance_keys r authorino) c × WritesOnly (IsListed r authorino) c
      → CreatesNothing c
  created (Call.create obj) (other, listed) = other listed
  created _ _ = tt

-- If the server keeps its promises, nothing else writes to it, and the names of the instance's
-- cluster role bindings need not be truncated, then the installations that follow one without an
-- error create no object, however many they are, in whatever contexts and orders of the preflight
-- check and with whatever outcomes, and after each of them every object of the instance is there.
pub Reinstalls-CreatesNothing :
    {W : Type 0} (r : AuthorinoReconciler W) (ctx : Context) (servers : Servers)
    (authorino : Authorino) (s t : State W)
    → Promises r
    → Fits authorino
    → (install r ctx servers authorino s).0 ≡ returned (result none)
    → Reinstalls r authorino (record (install r ctx servers authorino s).1 { calls = [] }) t
    → All CreatesNothing t.calls
      × All (λ (x : Kind × ObjectKey). Has r x.0 x.1 t.world) (instance_keys r authorino)
Reinstalls-CreatesNothing r ctx servers authorino s t promises fits ok steps =
    let has = install-HasInstance r ctx servers authorino s promises fits ok in
    let ((there, calls), listed) =
      Reinstalls-IsComplete r promises authorino fits
        (
          (
            λ x i.
                All-IsIn
                  (λ (y : Kind × ObjectKey).
                    Has r y.0 y.1 (install r ctx servers authorino s).1.world)
                  (instance_keys r authorino) x has i,
            tt,
          ),
          tt,
        )
        steps in
    (
      All-mono _ CreatesNothing (created r promises authorino fits) t.calls (
          All-zip (CreatesNoneOf (instance_keys r authorino)) (WritesOnly (IsListed r authorino))
            t.calls calls listed),
      All-every _ (instance_keys r authorino) there,
    )
