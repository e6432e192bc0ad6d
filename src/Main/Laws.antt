-- ===== src/Main/Laws.antt =====
-- In which order the operator starts, and how it ends.
use authorino_operator.Prelude.{◌≡◌, refl, none, some, List, [], ◌∷◌, pos}
use authorino_operator.Reconcilers.Action.{Err, GoError}
use authorino_operator.Api.Scheme.{group_version}
use authorino_operator.Main.{
  Ended, Flags, Libraries, Run, Step, attempt, crashed, exited, init, main, program, run_manager,
  setup_with_manager, stopped,
}

-- How the process ends if a call fails: in a panic while it registers types or sets up the logger,
-- and with exit code 1 later.
abbrev failure : Step → GoError → Ended
failure Step.add_client_go_to_scheme e = crashed e.text
failure (Step.add_to_scheme gv) e = crashed e.text
failure (Step.set_up_logger level mode) e = crashed e.text
failure step e = exited (pos 1)

-- The calls of a list are made in order up to the first that fails.
pub data Boots : List Step → List (Step × Err) → Ended → Type 0 where
  all : Boots [] [] (exited (pos 0))
  fails :
      (step : Step) (rest : List Step) (e : GoError)
      → Boots (step ∷ rest) ((step, some e) ∷ []) (failure step e)
  goes :
      (step : Step) {rest : List Step} {trace : List (Step × Err)} {ended : Ended}
      → Boots rest trace ended
      → Boots (step ∷ rest) ((step, none) ∷ trace) ended

-- the calls from the configuration on
abbrev pub manager_sequence : Flags → List Step
manager_sequence flags =
    Step.get_config
    ∷ Step.new_manager (record {
      metrics_bind_address = flags.metrics_addr;
      webhook_port = pos 9443;
      health_probe_bind_address = flags.probe_addr;
      pprof_bind_address = flags.pprof_addr;
      leader_election = flags.enable_leader_election;
      leader_election_id = "aac3a15d.authorino.kuadrant.io";
    })
    ∷ Step.complete_controller "Deployment" "Authorino"
    ∷ Step.add_healthz_check "healthz"
    ∷ Step.add_readyz_check "readyz"
    ∷ Step.start
    ∷ []

-- the whole start
abbrev pub boot_sequence : Flags → List Step
boot_sequence flags =
    Step.add_client_go_to_scheme
    ∷ Step.add_to_scheme group_version
    ∷ Step.set_up_logger flags.log_level flags.log_mode
    ∷ manager_sequence flags

module _ {W L B : Type 0} (lib : Libraries W L B) where
  -- A run makes the calls of the list.
  abbrev Follows : List Step → Run W → Type 0
  Follows steps run = (w : W) → Boots steps (run w).1 (run w).0

  stopped-Boots :
      (stop : GoError → Ended) (step : Step) (answer : Err × W) {steps : List Step} (rest : Run W)
      → ((e : GoError) → stop e ≡ failure step e)
      → Follows steps rest
      → Boots
          (step ∷ steps)
          (stopped lib stop step answer rest).1
          (stopped lib stop step answer rest).0
  stopped-Boots stop step (none, w) rest same follows = Boots.goes step (follows w)
  stopped-Boots stop step (some e, w) rest same follows = rw (same e) (Boots.fails step _ e)

  attempt-Follows :
      (stop : GoError → Ended) (step : Step) (answer : W → Err × W) {steps : List Step}
      (rest : Run W)
      → ((e : GoError) → stop e ≡ failure step e)
      → Follows steps rest
      → Follows (step ∷ steps) (attempt lib stop step answer rest)
  unfolding attempt
  attempt-Follows stop step answer rest same follows w =
      stopped-Boots stop step (answer w) rest same follows

  run_manager-Follows : (flags : Flags) → Follows (manager_sequence flags) (run_manager lib flags)
  unfolding run_manager setup_with_manager
  run_manager-Follows flags =
      attempt-Follows _ _ _ _ (λ e. refl)
        (attempt-Follows _ _ _ _ (λ e. refl)
          (attempt-Follows _ _ _ _ (λ e. refl)
            (attempt-Follows _ _ _ _ (λ e. refl)
              (attempt-Follows _ _ _ _ (λ e. refl)
                (attempt-Follows _ _ _ _ (λ e. refl) (λ w. Boots.all))))))

  -- The start makes its calls in one order: both registrations of types, the logger, the
  -- configuration, the manager with the flags' addresses, the controller, the two checks, and the
  -- start of the manager last. The first call that fails ends it: in a panic with its message while
  -- types are registered and the logger is set up, with exit code 1 later; and if none fails, the
  -- process exits with 0.
  pub program-Boots :
      (flags : Flags) (w : W)
      → Boots (boot_sequence flags) (program lib flags w).1 (program lib flags w).0
  unfolding program init main
  program-Boots flags =
      attempt-Follows _ _ _ _ (λ e. refl)
        (attempt-Follows _ _ _ _ (λ e. refl)
          (attempt-Follows _ _ _ _ (λ e. refl) (λ w. run_manager-Follows flags _)))
