-- ===== src/Reconcilers/Action/Keeps.antt =====
-- Invariants of actions: a rule for each way to build an action.
use authorino_operator.Prelude.{◌≡◌, refl, Bool, true, false, none, some, ◌∷◌, All, if◌then◌else◌}
use authorino_operator.Reconcilers.Outcome.{Outcome, Returns, returned, panicked}
use authorino_operator.Reconcilers.Action.{
  Call, State, M, Err, Context, pure, lift, perform, read_clock, continue, unless, with_logger,
  ◌>>=◌,
}

-- What an action keeps of the world and of the calls so far, and what holds if it panics.
pub record Policy (W : Type 0) : Type 1 where
  pub Good : State W → Type 0
  pub may_panic : Type 0

-- the policy of which calls an action may make
abbrev pub making : {W : Type 0} → (Call → Type 0) → Type 0 → Policy W
making allows may_panic = record { Good = λ s. All allows s.calls; may_panic = may_panic }

-- The policy admits a call that is answered so.
pub record Allows {W A : Type 0} (P : Policy W) (c : Call) (answer : W → A × W) : Type 0 where
  pub at :
      (s : State W) → P.Good s → P.Good (record { world = (answer s.world).1; calls = c ∷ s.calls })

-- The policy admits a look at the clock.
pub record Ticks {W A : Type 0} (P : Policy W) (answer : W → A × W) : Type 0 where
  pub at : (s : State W) → P.Good s → P.Good (record s { world = (answer s.world).1 })

module _ {W A : Type 0} {allows : Call → Type 0} {may_panic : Type 0} where
  pub Allows-making :
      (c : Call) (answer : W → A × W) → allows c → Allows (making allows may_panic) c answer
  Allows-making c answer p = record { at = λ s h. (p, h) }

  pub Ticks-making : (answer : W → A × W) → Ticks (making allows may_panic) answer
  Ticks-making answer = record { at = λ s h. h }

abbrev pub Ends : {A : Type 0} → Type 0 → Outcome A → Type 0
Ends may_panic (returned a) = Unit
Ends may_panic (panicked message) = may_panic

-- where nothing is said of a panic
pub any_end : {A : Type 0} (o : Outcome A) → Ends Unit o
any_end (returned a) = tt
any_end (panicked message) = tt

pub Ends-mono : {A P Q : Type 0} (o : Outcome A) → (P → Q) → Ends P o → Ends Q o
Ends-mono (returned a) f ends = tt
Ends-mono (panicked message) f ends = f ends

pub Ends-Returns : {A : Type 0} (o : Outcome A) → Ends ⊥ o → Returns o
Ends-Returns (returned a) ends = (a, refl)
Ends-Returns (panicked message) ends = absurd ends

-- `m` keeps what is good from the state `s` on, whether it returns or panics, and it panics only if
-- it may.
abbrev pub IssuesAt : {W A : Type 0} → Policy W → M W A → State W → Type 0
IssuesAt P m s = (P.Good s → P.Good (m s).1) × Ends P.may_panic (m s).0

-- The same, from every state.
pub record Issues {W A : Type 0} (P : Policy W) (m : M W A) : Type 0 where
  pub at : (s : State W) → IssuesAt P m s

module _ {W A : Type 0} {P : Policy W} where
  pub Issues-pure : (a : A) → Issues P (pure {W = W} a)
  unfolding pure
  Issues-pure a = record { at = λ s. (λ h. h, tt) }

  pub Issues-lift : (o : Outcome A) → Ends P.may_panic o → Issues P (lift {W = W} o)
  unfolding lift
  Issues-lift o ends = record { at = λ s. (λ h. h, ends) }

  pub Issues-read_clock : (answer : W → A × W) → Ticks P answer → Issues P (read_clock answer)
  unfolding read_clock
  Issues-read_clock answer ticks = record { at = λ s. (λ h. ticks.at s h, tt) }

  pub Issues-perform :
      (c : Call) (answer : W → A × W) → Allows P c answer → Issues P (perform c answer)
  unfolding perform
  Issues-perform c answer p = record { at = λ s. (λ h. p.at s h, tt) }

  pub Issues-if : (b : Bool) (m n : M W A) → Issues P m → Issues P n → Issues P (if b then m else n)
  Issues-if true m n hm hn = hm
  Issues-if false m n hm hn = hn

  -- the same, where the branches may use the test
  pub Issues-cases :
      (b : Bool) (m n : M W A)
      → (b ≡ true → Issues P m)
      → (b ≡ false → Issues P n)
      → Issues P (if b then m else n)
  Issues-cases true m n hm hn = hm refl
  Issues-cases false m n hm hn = hn refl

module _ {W A B : Type 0} {P : Policy W} where
  Issues-continue :
      (o : Outcome A) (f : A → M W B)
      → Ends P.may_panic o
      → ((a : A) → o ≡ returned a → Issues P (f a))
      → Issues P (continue o f)
  Issues-continue (returned a) f ends h = record { at = (h a refl).at }
  Issues-continue (panicked message) f ends h = record { at = λ s. (λ k. k, ends) }

  -- the rest may use what a pure computation returns
  pub Issues-bind-lift :
      (o : Outcome A) (f : A → M W B)
      → Ends P.may_panic o
      → ((a : A) → o ≡ returned a → Issues P (f a))
      → Issues P (lift o >>= f)
  unfolding ◌>>=◌
  Issues-bind-lift o f ends h = record { at = (Issues-continue o f ends h).at }

  -- the rest may use that the first action returned its argument
  pub Issues-bind-returned :
      (m : M W A) (f : A → M W B)
      → Issues P m
      → ((s : State W) (a : A) → (m s).0 ≡ returned a → Issues P (f a))
      → Issues P (m >>= f)
  unfolding ◌>>=◌
  Issues-bind-returned m f hm hf = record {
    at = λ s.
        let (calls, ends) = hm.at s in
        let (calls', ends') = (Issues-continue (m s).0 f ends (hf s)).at (m s).1 in
        (λ h. calls' (calls h), ends');
  }

  pub Issues-bind :
      (m : M W A) (f : A → M W B) → Issues P m → ((a : A) → Issues P (f a)) → Issues P (m >>= f)
  Issues-bind m f hm hf = Issues-bind-returned m f hm (λ s a _. hf a)

module _ {W : Type 0} {P : Policy W} where
  pub Issues-unless : (err : Err) (rest : M W Err) → Issues P rest → Issues P (unless err rest)
  Issues-unless none rest h = h
  Issues-unless (some e) rest h = Issues-pure (some e)

  pub Issues-with_logger :
      (ctx : Context) (rest : M W Err) → Issues P rest → Issues P (with_logger ctx rest)
  Issues-with_logger ctx rest h = Issues-if ctx.has_logger rest _ h (Issues-pure _)

-- Inversion of a bind that returned.
pub bind-eq-returned :
    {W A B : Type 0} (m : M W A) (f : A → M W B) (s : State W) {b : B}
    → ((m >>= f) s).0 ≡ returned b
    → (a : A) × ((m s).0 ≡ returned a) × ((f a (m s).1).0 ≡ returned b)
unfolding ◌>>=◌
bind-eq-returned {W} {A} {B} m f s {b} h = go (m s).0 h
  where
    go :
        (o : Outcome A)
        → (continue o f (m s).1).0 ≡ returned b
        → (a : A) × (o ≡ returned a) × ((f a (m s).1).0 ≡ returned b)
    go (returned a) e = (a, refl, e)
    go (panicked message) e = cc

pub unless-eq-returned_none :
    {W : Type 0} (err : Err) (rest : M W Err) (s : State W)
    → (unless err rest s).0 ≡ returned none
    → (err ≡ none) × ((rest s).0 ≡ returned none)
unfolding pure
unless-eq-returned_none none rest s h = (refl, h)
unless-eq-returned_none (some e) rest s h = cc

pub ruleset issue_rules = (
  Issues-pure, Issues-lift, Issues-read_clock, Issues-perform, Issues-if, Issues-bind,
  Issues-unless, Issues-with_logger,
)
