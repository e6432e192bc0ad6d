-- ===== src/Log.antt =====
-- pkg/log/logger.go: levels, modes and the loggers that the operator makes. The loggers themselves
-- (logr, zap) are a parameter, and so is the text form of zap's levels.
pub mod Laws
use Prim.Native.String
use Prim.Native.String.{char_at}
use authorino_operator.Prelude.{
  ◌-◌, Char, code, String, Bool, false, Option, some, ℤ, pos, negsuc, leb, nat_beq, ◌&&◌, ◌==◌,
  List, if◌then◌else◌,
}
use authorino_operator.Reconcilers.Outcome.{Outcome, ◌>>=◌, panicked, returned}
use authorino_operator.Reconcilers.Action.{Err}

-- `unicode.ToLower`, as far as it gives an ASCII letter: beside "A" to "Z" only U+0130 and U+212A
-- have one. Other characters are kept, since a comparison with an ASCII text fails either way.
abbrev lower : Char → Char
lower c =
    if leb b'A' (code c) && leb (code c) b'Z'
    then char_at "abcdefghijklmnopqrstuvwxyz" (code c - b'A')
    else if nat_beq (code c) 304
    then char_at "i" 0
    else if nat_beq (code c) 8490
    then char_at "k" 0
    else c

-- `strings.ToLower`
unfoldable pub to_lower : String → String
to_lower String.[] = ""
to_lower (String.◌∷◌ c s) = String.◌∷◌ (lower c) (to_lower s)

-- `type LogMode int8`
abbrev pub LogMode : Type 0
LogMode = ℤ

abbrev pub log_mode_prod : LogMode
log_mode_prod = pos 0

abbrev pub log_mode_dev : LogMode
log_mode_dev = pos 1

abbrev is_mode : LogMode → LogMode → Bool
is_mode (pos m) (pos n) = nat_beq m n
is_mode (negsuc m) (negsuc n) = nat_beq m n
is_mode _ _ = false

-- `(f *LogMode) String()`
unfoldable pub format_log_mode : LogMode → String
format_log_mode mode =
    if is_mode mode log_mode_prod
    then "production"
    else if is_mode mode log_mode_dev
    then "development"
    else "unknown"

unfoldable pub to_log_mode : String → Outcome LogMode
to_log_mode mode =
    let lowered = to_lower mode in
    if lowered == "production"
    then returned log_mode_prod
    else if lowered == "development"
    then returned log_mode_dev
    else panicked "unknown log mode"

-- What zap and logr do: `Level.UnmarshalText`, which changes the level or leaves it and returns an
-- error, `zap.New` of a level and a development mode, and `WithName` and `WithValues`.
pub record Loggers (L : Type 0) : Type 0 where
  pub unmarshal_text : String → ℤ → ℤ × Err
  pub new : ℤ → Bool → L
  pub with_name : L → String → L
  pub with_values : L → List String → L
  pub v : L → ℤ → L
  pub format_level : ℤ → String

-- the loggers that are set once for the process
pub record Singletons (L : Type 0) : Type 0 where
  pub log : L
  pub ctrl : Option L
  pub klog : Option L

module _ {L : Type 0} (loggers : Loggers L) where
  -- The error is dropped; the level is then zap's zero level, "info".
  unfoldable pub to_log_level : String → ℤ
  to_log_level level = (loggers.unmarshal_text level (pos 0)).0

  unfoldable pub new_logger : ℤ → LogMode → L
  new_logger level mode = loggers.new level (is_mode mode log_mode_dev)

  -- A context is nil, or it has a logger or none.
  unfoldable from_context : Singletons L → Option (Option L) → List String → L
  from_context singletons (some (some logger)) values = loggers.with_values logger values
  from_context singletons _ values = loggers.with_values singletons.log values

  -- `(l *LogLevel) String()`
  unfoldable format_log_level : ℤ → String
  format_log_level level = loggers.format_level level

  -- `SetLogger`: the package variable, and the loggers of controller-runtime and klog
  unfoldable pub set_logger : L → Singletons L → Singletons L
  set_logger logger singletons = record { log = logger; ctrl = some logger; klog = some logger }

  -- `WithName`, `WithValues` and `V` of the package, from its variable
  unfoldable with_name : Singletons L → String → L
  with_name singletons name = loggers.with_name singletons.log name

  unfoldable with_values : Singletons L → List String → L
  with_values singletons values = loggers.with_values singletons.log values

  unfoldable v : Singletons L → ℤ → L
  v singletons level = loggers.v singletons.log level

  abbrev into_context : Option (Option L) → L → Option (Option L)
  into_context ctx log = some (some log)
