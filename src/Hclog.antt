-- ===== src/Hclog.antt =====
-- hclog_shim.go: the adapter from hclog to slog. The slog logger is what it has written, the newest
-- line first; an argument of a log call is of any type.
use Prim.Native.String.{len}
use kite_mcp_riskguard.Prelude.Int.{ℤ, pos}
use kite_mcp_riskguard.Prelude.{
  ℕ, ◌≡◌, refl, Bool, true, if◌then◌else◌, Option, none, some, List, [], ◌∷◌, String,
}

-- hclog's levels.
pub data Level : Type 0 where
  no_level trace debug info warn error off : Level

pub data SlogLevel : Type 0 where
  slog_debug slog_info slog_warn slog_error : SlogLevel

pub record Line (Arg : Type 0) : Type 0 where
  pub level : SlogLevel
  pub msg : String
  pub args : List Arg

-- The adapter: whether it has a logger, and its name.
pub record SlogHclogAdapter : Type 0 where
  pub has_slog : Bool
  pub name : String

-- What newHclogShim returns: a logger that discards, or an adapter.
pub data Logger : Type 0 where
  discards : Logger
  adapts : SlogHclogAdapter → Logger

-- `none`: a nil logger.
unfoldable pub new_hclog_shim : {Slog : Type 0} → Option Slog → Logger
new_hclog_shim none = discards
new_hclog_shim (some logger) = adapts (record { has_slog = true; name = "" })

unfoldable pub named : String → SlogHclogAdapter → SlogHclogAdapter
named name a = record { has_slog = a.has_slog; name = name }

unfoldable pub reset_named : String → SlogHclogAdapter → SlogHclogAdapter
reset_named name a = record { has_slog = a.has_slog; name = name }

unfoldable pub set_level : Level → SlogHclogAdapter → SlogHclogAdapter
set_level level a = a

abbrev pub get_level : SlogHclogAdapter → Level
get_level a = Level.trace

abbrev pub name_of : SlogHclogAdapter → String
name_of a = a.name

abbrev pub is_trace : SlogHclogAdapter → Bool
is_trace a = true

abbrev pub is_debug : SlogHclogAdapter → Bool
is_debug a = true

abbrev pub is_info : SlogHclogAdapter → Bool
is_info a = true

abbrev pub is_warn : SlogHclogAdapter → Bool
is_warn a = true

abbrev pub is_error : SlogHclogAdapter → Bool
is_error a = true

-- os.Stderr, or a slogWriter.
pub data Writer : Type 0 where
  stderr slog_writer : Writer

unfoldable pub standard_writer : SlogHclogAdapter → Writer
standard_writer a = if a.has_slog then slog_writer else stderr

-- What log.New makes.
pub record StdLogger : Type 0 where
  pub out : Writer
  pub prefix : String
  pub flags : ℤ

unfoldable pub standard_logger : SlogHclogAdapter → StdLogger
standard_logger a = record { out = standard_writer a; prefix = ""; flags = pos 0 }

-- The level of slog for a level of hclog, as the comment of newHclogShim lists them.
abbrev pub mapped : Level → Option SlogLevel
mapped Level.trace = some slog_debug
mapped Level.debug = some slog_debug
mapped Level.info = some slog_info
mapped Level.warn = some slog_warn
mapped Level.error = some slog_error
mapped _ = none

module _ {Arg : Type 0} where
  abbrev pub write : SlogLevel → String → List Arg → List (Line Arg) → List (Line Arg)
  write level msg args lines = record { level = level; msg = msg; args = args } ∷ lines

  unfoldable pub log :
      SlogHclogAdapter → Level → String → List Arg → List (Line Arg) → List (Line Arg)
  log a Level.trace msg args lines = write slog_debug msg args lines
  log a Level.debug msg args lines = write slog_debug msg args lines
  log a Level.info msg args lines = write slog_info msg args lines
  log a Level.warn msg args lines = write slog_warn msg args lines
  log a Level.error msg args lines = write slog_error msg args lines
  log a _ msg args lines = lines

  unfoldable pub log_trace :
      SlogHclogAdapter → String → List Arg → List (Line Arg) → List (Line Arg)
  log_trace a msg args lines = write slog_debug msg args lines

  unfoldable pub log_debug :
      SlogHclogAdapter → String → List Arg → List (Line Arg) → List (Line Arg)
  log_debug a msg args lines = write slog_debug msg args lines

  unfoldable pub log_info : SlogHclogAdapter → String → List Arg → List (Line Arg) → List (Line Arg)
  log_info a msg args lines = write slog_info msg args lines

  unfoldable pub log_warn : SlogHclogAdapter → String → List Arg → List (Line Arg) → List (Line Arg)
  log_warn a msg args lines = write slog_warn msg args lines

  unfoldable pub log_error :
      SlogHclogAdapter → String → List Arg → List (Line Arg) → List (Line Arg)
  log_error a msg args lines = write slog_error msg args lines

  unfoldable pub with_args : List Arg → SlogHclogAdapter → SlogHclogAdapter
  with_args args a = a

  -- `none` for nil.
  abbrev pub implied_args : SlogHclogAdapter → Option (List Arg)
  implied_args a = none

  -- slogWriter.Write: the number of bytes and no error.
  unfoldable pub write_bytes : String → List (Line Arg) → (ℕ × Option String) × List (Line Arg)
  write_bytes b lines = ((len b, none), write slog_info b [] lines)

  abbrev written : Option SlogLevel → String → List Arg → List (Line Arg) → List (Line Arg)
  written none msg args lines = lines
  written (some level) msg args lines = write level msg args lines

  -- Log writes one line at the mapped level, with the message and the arguments as given, or none at
  -- no level and at off; a name, a level that was set, and arguments given to With change nothing.
  pub log-mapped :
      (a : SlogHclogAdapter) (level set : Level) (name msg : String) (extra args : List Arg)
      (lines : List (Line Arg))
      → (log a level msg args lines ≡ written (mapped level) msg args lines)
        × (log (named name (set_level set (with_args extra a))) level msg args lines
            ≡ log a level msg args lines)
  unfolding log named set_level with_args
  log-mapped a Level.no_level set name msg extra args lines = (refl, refl)
  log-mapped a Level.trace set name msg extra args lines = (refl, refl)
  log-mapped a Level.debug set name msg extra args lines = (refl, refl)
  log-mapped a Level.info set name msg extra args lines = (refl, refl)
  log-mapped a Level.warn set name msg extra args lines = (refl, refl)
  log-mapped a Level.error set name msg extra args lines = (refl, refl)
  log-mapped a Level.off set name msg extra args lines = (refl, refl)
