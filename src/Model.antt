-- ===== src/Model.antt =====
-- The data of the package: limits, trackers, requests, results and the guard's state
-- (limits.go, trackers.go, per_second.go, dedup.go and the types of guard.go).
-- An `int` that counts entries or orders is a ℤ; a nil interface or pointer is `none`.
use kite_mcp_riskguard.Prelude.{ℕ, Bool, Option, List, String}
use kite_mcp_riskguard.Prelude.Int.{ℤ}
use kite_mcp_riskguard.Prelude.Dict.{Dict}
use kite_mcp_riskguard.Env.{Env, Time}
pub mod Reasons

-- `RejectionReason` is a string type: the package's constants are texts.
abbrev pub RejectionReason : Type 0
RejectionReason = String

pub record CheckResult : Type 0 where
  pub allowed : Bool
  pub reason : RejectionReason
  pub message : String

-- `CheckResult{Allowed: true}`
abbrev pub allow : CheckResult
allow = record { allowed = Bool.true; reason = ""; message = "" }

abbrev pub reject : RejectionReason → String → CheckResult
reject r m = record { allowed = Bool.false; reason = r; message = m }

-- What the clocks show while an operation runs: `time.Now()`, the guard's clock and the clock of
-- its `Dedup`.
pub record Reading : Type 0 where
  pub wall : Time
  pub clock : Time
  pub dedup_clock : Time

pub record RecentOrder : Type 0 where
  pub exchange : String
  pub tradingsymbol : String
  pub transaction_type : String
  pub quantity : ℤ
  pub placed_at : Time

pub record PerSecondBucket : Type 0 where
  pub second : ℤ
  pub count : ℤ

abbrev pub PerSecondCounter : Type 0
PerSecondCounter = Dict PerSecondBucket

pub record Dedup : Type 0 where
  pub entries : Dict Time
  pub ttl : ℕ

-- What the guard sends out, the newest first: domain events, and the notifier's calls.
pub data Effect : Type 0 where
  kill_switch_tripped : (by reason : String) → (active : Bool) → (at : Time) → Effect
  daily_counter_reset : (email : String) → (at : Time) → Effect
  rejection : (email reason : String) → (at : Time) → Effect
  auto_freeze_notified : (email reason : String) → Effect

module _ (E : Env) where
  open E use {Float, Money, World, Db}

  pub record UserLimits : Type 0 where
    pub max_single_order_inr : Money
    pub max_orders_per_day : ℤ
    pub max_orders_per_minute : ℤ
    pub duplicate_window_secs : ℤ
    pub max_daily_value_inr : Money
    pub auto_freeze_on_limit_hit : Bool
    pub require_confirm_all_orders : Bool
    pub allow_off_hours : Bool
    pub trading_frozen : Bool
    pub frozen_by : String
    pub frozen_reason : String
    pub frozen_at : Time

  pub record UserTracker : Type 0 where
    pub daily_order_count : ℤ
    pub day_reset_at : Time
    pub recent_orders : List Time
    pub recent_params : List RecentOrder
    pub daily_placed_value : Money
    pub recent_rejections : List Time

  pub record OrderCheckRequest : Type 0 where
    pub email : String
    pub tool_name : String
    pub exchange : String
    pub tradingsymbol : String
    pub transaction_type : String
    pub quantity : ℤ
    pub price : Money
    pub order_type : String
    pub confirmed : Bool
    pub client_order_id : String
    pub variety : String

  -- The lookups, each a function of the world that it reads.
  abbrev pub FreezeQuantityLookup : Type 0
  FreezeQuantityLookup = World → String → String → ℕ × Bool

  abbrev pub LtpLookup : Type 0
  LtpLookup = World → String → String → Float × Bool

  abbrev pub CircuitLookup : Type 0
  CircuitLookup = World → String → String → Float × Float × Bool

  abbrev pub MarginLookup : Type 0
  MarginLookup = World → String → Float × Bool

  abbrev pub BaselineProvider : Type 0
  BaselineProvider = World → String → ℤ → Float × Float × Float

  -- `Guard`, without its checks (Chain.antt) and its logger.
  pub record State : Type 0 where
    pub trackers : Dict UserTracker
    pub limits : Dict UserLimits
    pub freeze_lookup : Option FreezeQuantityLookup
    pub ltp_lookup : Option LtpLookup
    pub circuit_lookup : Option CircuitLookup
    pub margin_lookup : Option MarginLookup
    pub margin_check_enabled : Bool
    pub baseline : Option BaselineProvider
    pub db : Option Db
    pub has_notifier : Bool
    pub dedup : Option Dedup
    pub per_second : Option PerSecondCounter
    pub global_frozen : Bool
    pub global_frozen_by : String
    pub global_frozen_at : Time
    pub global_frozen_reason : String
    pub has_dispatcher : Bool
    pub sent : List Effect
    pub world : World
