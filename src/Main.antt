-- ===== src/Main.antt =====
-- main.go: how the operator starts. The command line flags are read already; the scheme, the manager
-- and the builder of the controller (controller-runtime) are parameters, and `W` is their state. Log
-- lines are not modelled.
pub mod Laws
use authorino_operator.Prelude.{ℤ, pos, String, Bool, false, none, some, List, [], ◌∷◌}
use authorino_operator.Reconcilers.Outcome.{Outcome, panicked, returned}
use authorino_operator.Reconcilers.Action.{Err, GoError, errorf}
use authorino_operator.Api.Scheme.{
  Builders, GroupVersion, add_to_scheme as add_types_to_scheme, group_version,
}
use authorino_operator.Log.{
  LogMode, Loggers, Singletons, new_logger, set_logger, to_log_level, to_log_mode,
}

-- the values of the flags
pub record Flags : Type 0 where
  pub metrics_addr : String
  pub probe_addr : String
  pub pprof_addr : String
  pub enable_leader_election : Bool
  pub log_level : String
  pub log_mode : String

-- the values without any flag on the command line
abbrev pub default_flags : Flags
default_flags = record {
  metrics_addr = ":8080";
  probe_addr = ":8081";
  pprof_addr = ":8084";
  enable_leader_election = false;
  log_level = "info";
  log_mode = "production";
}

-- `ctrl.Options`, without the scheme
pub record ManagerOptions : Type 0 where
  pub metrics_bind_address : String
  pub webhook_port : ℤ
  pub health_probe_bind_address : String
  pub pprof_bind_address : String
  pub leader_election : Bool
  pub leader_election_id : String

-- The calls of the start that can fail. `setup_logger` is the code's own.
pub data Step : Type 0 where
  add_client_go_to_scheme get_config start : Step
  add_to_scheme : GroupVersion → Step
  set_up_logger : (level mode : String) → Step
  new_manager : ManagerOptions → Step
  complete_controller : (owns for : String) → Step
  add_healthz_check add_readyz_check : (name : String) → Step

-- How the process ends: with an exit code or in a panic.
pub data Ended : Type 0 where
  exited : ℤ → Ended
  crashed : String → Ended

-- The end, the calls with what they answered, in order, and the state.
abbrev pub Run : Type 0 → Type 0
Run W = W → Ended × List (Step × Err) × W

-- What the libraries answer. The package variables of pkg/log are a part of the state; `get_config_or_die` ends the process where `get_config` here fails
pub record Libraries (W L B : Type 0) : Type 0 where
  pub loggers : Loggers L
  pub add_client_go_to_scheme : W → Err × W
  pub builders : Builders B W
  pub with_singletons : (Singletons L → Singletons L) → W → W
  pub set_flag_logger : W → W
  pub get_config : W → Err × W
  pub new_manager : ManagerOptions → W → Err × W
  pub complete : (owns for : String) → W → Err × W
  pub add_healthz_check : String → W → Err × W
  pub add_readyz_check : String → W → Err × W
  pub start : W → Err × W

-- `log.ToLogMode` panics outside any recovery.
abbrev mode_err : Outcome LogMode → Err
mode_err (returned mode) = none
mode_err (panicked message) = some (errorf message)

-- `os.Exit(1)` after a failure
abbrev pub exit_1 : GoError → Ended
exit_1 e = exited (pos 1)

-- the panic of `utilruntime.Must`, or of a mode that is not known
abbrev pub crash : GoError → Ended
crash e = crashed e.text

module _ {W L B : Type 0} (lib : Libraries W L B) where
  -- a call, and the rest if it has no error
  abbrev pub stopped : (GoError → Ended) → Step → Err × W → Run W → Ended × List (Step × Err) × W
  stopped stop step (none, w) rest =
      let (ended, trace, w') = rest w in (ended, (step, none) ∷ trace, w')
  stopped stop step (some e, w) rest = (stop e, (step, some e) ∷ [], w)

  unfoldable pub attempt : (GoError → Ended) → Step → (W → Err × W) → Run W → Run W
  attempt stop step answer rest w = stopped stop step (answer w) rest

  -- the logger that `setupLogger` makes, for a mode
  abbrev pub named_logger : String → LogMode → L
  named_logger level mode =
      let logger = new_logger lib.loggers (to_log_level lib.loggers level) mode in
      let with_name = lib.loggers.with_name in
      with_name (with_name (with_name logger "authorino-operator") "controller") "Authorino"

  abbrev set_up : String → Outcome LogMode → W → Err × W
  set_up level (returned mode) w =
      (none, lib.with_singletons (set_logger lib.loggers (named_logger level mode)) w)
  set_up level (panicked message) w = (some (errorf message), w)

  unfoldable pub setup_logger : Flags → W → Err × W
  setup_logger flags w = set_up flags.log_level (to_log_mode flags.log_mode) w

  abbrev pub manager_options : Flags → ManagerOptions
  manager_options flags = record {
    metrics_bind_address = flags.metrics_addr;
    webhook_port = pos 9443;
    health_probe_bind_address = flags.probe_addr;
    pprof_bind_address = flags.pprof_addr;
    leader_election = flags.enable_leader_election;
    leader_election_id = "aac3a15d.authorino.kuadrant.io";
  }

  -- `SetupWithManager` of controllers/authorino_controller.go
  unfoldable pub setup_with_manager : Run W → Run W
  setup_with_manager rest =
      attempt exit_1 (Step.complete_controller "Deployment" "Authorino")
        (lib.complete "Deployment" "Authorino") rest

  -- from the configuration on
  unfoldable pub run_manager : Flags → Run W
  run_manager flags = attempt exit_1 Step.get_config lib.get_config (
      attempt exit_1 (Step.new_manager (manager_options flags))
        (lib.new_manager (manager_options flags))
        (setup_with_manager (
          attempt exit_1 (Step.add_healthz_check "healthz") (lib.add_healthz_check "healthz") (
            attempt exit_1 (Step.add_readyz_check "readyz") (lib.add_readyz_check "readyz")
              (attempt exit_1 Step.start lib.start (λ w. (exited (pos 0), [], w)))))))

  -- `ctrl.SetLogger` is called once more, with a logger that zap makes from its own flags.
  unfoldable pub main : Flags → Run W
  main flags =
      attempt crash (Step.set_up_logger flags.log_level flags.log_mode) (setup_logger flags)
        (λ w. run_manager flags (lib.set_flag_logger w))

  -- `init`, which runs before `main`
  unfoldable pub init : Run W → Run W
  init rest =
      attempt crash Step.add_client_go_to_scheme lib.add_client_go_to_scheme
        (attempt crash (Step.add_to_scheme group_version) (add_types_to_scheme lib.builders) rest)

  unfoldable pub program : Flags → Run W
  program flags = init (main flags)
