-- ===== src/Tests/Boot.antt =====
-- A start of the operator in which the manager cannot be made, and the log mode of a flag.
use authorino_operator.Prelude.{◌≡◌, ◌↔◌, ℕ, ◌+◌, String, List, [], ◌++◌, none, some, if◌then◌else◌}
use Prim.Native.String
use authorino_operator.Reconcilers.Action.{Err, errorf}
use authorino_operator.Reconcilers.Outcome.{panicked, returned}
use authorino_operator.Log.{Loggers, format_log_mode, log_mode_dev, to_log_mode, to_lower}
use authorino_operator.Log.Laws.{IsKnown, is_known, to_log_mode-format_log_mode}
use authorino_operator.Api.Scheme.{Registered}
use authorino_operator.Main.{Libraries, default_flags, program}
use authorino_operator.Main.Laws.{Boots, boot_sequence, program-Boots}

-- a logger is its name
abbrev loggers : Loggers String
loggers = record {
  unmarshal_text = λ text level. (level, none);
  new = λ level development. "";
  with_name = λ logger name. String.◌++◌ logger (String.◌++◌ "." name);
  with_values = λ logger values. logger;
  v = λ logger level. logger;
  format_level = λ level. "info";
}

-- the state counts the calls
abbrev fine : ℕ → Err × ℕ
fine w = (none, w + 1)

abbrev libraries : Libraries ℕ String (List Registered)
libraries = record {
  loggers = loggers;
  add_client_go_to_scheme = fine;
  builders = record { new = λ gv. []; register = λ types b. types ++ b; add_to_scheme = λ b. fine };
  with_singletons = λ change w. w;
  set_flag_logger = λ w. w;
  get_config = fine;
  new_manager = λ options w. (some (errorf "address already in use"), w + 1);
  complete = λ owns for. fine;
  add_healthz_check = λ name. fine;
  add_readyz_check = λ name. fine;
  start = fine;
}

program-Boots_example :
    Boots
      (boot_sequence default_flags)
      (program libraries default_flags 0).1
      (program libraries default_flags 0).0
program-Boots_example = program-Boots libraries default_flags 0

to_log_mode-format_log_mode_example :
    (to_log_mode (format_log_mode log_mode_dev)
      ≡ (if is_known log_mode_dev then returned log_mode_dev else panicked "unknown log mode"))
    × (to_log_mode "Development" ≡ returned log_mode_dev
        ↔ IsKnown log_mode_dev × (format_log_mode log_mode_dev ≡ to_lower "Development"))
to_log_mode-format_log_mode_example = to_log_mode-format_log_mode log_mode_dev "Development"
