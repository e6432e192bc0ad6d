-- ===== src/Reconcilers/Success/Policies.antt =====
-- Actions that return without an error from the states that a policy keeps.
use authorino_operator.Prelude.{◌≡◌}
use authorino_operator.Reconcilers.Outcome.{returned}
use authorino_operator.Reconcilers.Action.{M, State, ◌>>=◌}
use authorino_operator.Reconcilers.Action.Keeps.{Issues, Policy}
use authorino_operator.Reconcilers.Success.{Gives}

-- `m` returns `ok` from every good state.
pub record Succeeds {W A : Type 0} (P : Policy W) (m : M W A) (ok : A) : Type 0 where
  pub at : (s : State W) → P.Good s → (m s).0 ≡ returned ok

module _ {W A B : Type 0} {P : Policy W} where
  pub Succeeds-bind :
      (m : M W A) (f : A → M W B) (a : A) (ok : B)
      → Issues P m
      → Succeeds P m a
      → Succeeds P (f a) ok
      → Succeeds P (m >>= f) ok
  unfolding ◌>>=◌
  Succeeds-bind m f a ok keeps first later = record {
    at = λ s good. rw (first.at s good) (later.at (m s).1 ((keeps.at s).0 good));
  }

  -- the rest succeeds in any state
  pub Succeeds-then :
      (m : M W A) (f : A → M W B) (a : A) (ok : B)
      → Succeeds P m a
      → Gives (f a) ok
      → Succeeds P (m >>= f) ok
  unfolding ◌>>=◌
  Succeeds-then m f a ok first later = record {
    at = λ s good. rw (first.at s good) (later.at (m s).1);
  }

module _ {W A : Type 0} {P : Policy W} {m : M W A} {ok : A} where
  pub Succeeds-Gives : Gives m ok → Succeeds P m ok
  Succeeds-Gives gives = record { at = λ s good. gives.at s }
