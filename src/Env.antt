-- ===== src/Env.antt =====
-- What the package uses and does not contain: float64, the `domain.Money` value object of
-- kite-mcp-domain, the alerts database, SHA-256, the Go text functions that rest on Unicode tables
-- or on formatting, and whatever the registered lookups and plugin checks read.
-- Nothing is assumed of it here: a theorem that needs a law of these names it as a hypothesis.
use kite_mcp_riskguard.Prelude.{ℕ, Bool, Option, List, String}
use kite_mcp_riskguard.Prelude.Int.{ℤ}

-- Instants are nanoseconds since Go's zero `time.Time`, 1 January of year 1, 00:00 UTC.
abbrev pub Time : Type 0
Time = ℕ

-- The arguments that the package hands to `fmt.Sprintf`.
pub data Arg (Float : Type 0) : Type 0 where
  text : String → Arg Float
  int : ℤ → Arg Float
  float : Float → Arg Float
  duration : ℕ → Arg Float
  weekday : ℕ → Arg Float

-- A row of the table risk_limits, as `persistLimits` writes it and `LoadLimits` scans it.
pub record LimitsRow (Float : Type 0) : Type 0 where
  pub email : String
  pub max_single_order_inr : Float
  pub max_orders_per_day : ℤ
  pub max_orders_per_minute : ℤ
  pub duplicate_window_secs : ℤ
  pub max_daily_value_inr : Float
  pub auto_freeze_on_limit_hit : ℤ
  pub require_confirm_all_orders : ℤ
  pub trading_frozen : ℤ
  pub frozen_at : String
  pub frozen_by : String
  pub frozen_reason : String

-- The rows of a query: each scanned, or with the error of its scan; then the error of the iteration.
pub data Scan (Float : Type 0) : Type 0 where
  scanned : LimitsRow Float → Scan Float
  scan_failed : String → Scan Float

pub data Query (Float : Type 0) : Type 0 where
  query_failed : String → Query Float
  rows : List (Scan Float) → Option String → Query Float

pub record Env : Type 1 where
  -- float64
  pub Float : Type 0
  pub of_int : ℤ → Float
  -- `literal m k` is the constant m / 10 ^ k.
  pub literal : ℕ → ℕ → Float
  pub f_add : Float → Float → Float
  pub f_sub : Float → Float → Float
  pub f_mul : Float → Float → Float
  pub f_lt : Float → Float → Bool
  pub f_le : Float → Float → Bool
  -- `int64(x)`
  pub truncate : Float → ℤ
  -- domain.Money; `add` and `greater_than` return `none` for an error.
  pub Money : Type 0
  pub money_zero : Money
  pub new_inr : Float → Money
  pub multiply : Money → Float → Money
  pub add : Money → Money → Option Money
  pub greater_than : Money → Money → Option Bool
  pub is_zero : Money → Bool
  pub is_positive : Money → Bool
  pub to_float : Money → Float
  -- strings.ToLower, fmt.Sprintf, time.Format, time.Parse, hex of SHA-256
  pub to_lower : String → String
  pub sprintf : String → List (Arg Float) → String
  pub format_time : String → Time → String
  pub parse_time : String → String → Option Time
  pub sha256_hex : String → String
  -- Whether time.LoadLocation("Asia/Kolkata") finds the zone.
  pub tzdata : Bool
  -- alerts.DB: the upsert of a row (with the error that it may return), and the query of all rows
  pub Db : Type 0
  pub upsert : Db → LimitsRow Float → Time → Db × Option String
  pub select_all : Db → Query Float
  -- What lookups, the baseline provider and plugin checks read and change.
  pub World : Type 0
