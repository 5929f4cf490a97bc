-- ===== src/Limits.antt =====
-- limits.go: the effective limits of a user, and their persistence. Also SystemDefaults of guard.go.
use kite_mcp_riskguard.Prelude.{
  Bool, true, false, Option, none, some, List, [], ◌∷◌, String, eqb, ◌==◌, not, if◌then◌else◌,
}
use kite_mcp_riskguard.Prelude.Int.{ℤ, pos, eqb_ℤ}
use kite_mcp_riskguard.Prelude.Dict.{lookup, insert}
use kite_mcp_riskguard.Env.{Env, Time, LimitsRow, Scan, scanned, scan_failed, query_failed, rows}
use kite_mcp_riskguard.Model.{UserLimits, State}
pub mod Effective
pub mod Restart
pub mod Setup
pub mod Migration

pub data LoadError : Type 0 where
  load_risk_limits scan_risk_limits rows_err : String → LoadError

abbrev flag : Bool → ℤ
flag b = if b then pos 1 else pos 0

module _ (E : Env) where
  abbrev pub system_defaults : UserLimits E
  system_defaults = record {
    max_single_order_inr = E.new_inr (E.literal 50000 0);
    max_orders_per_day = pos 20;
    max_orders_per_minute = pos 10;
    duplicate_window_secs = pos 30;
    max_daily_value_inr = E.new_inr (E.literal 200000 0);
    auto_freeze_on_limit_hit = true;
    require_confirm_all_orders = true;
    allow_off_hours = false;
    trading_frozen = false;
    frozen_by = "";
    frozen_reason = "";
    frozen_at = 0;
  }

  -- The body of `GetEffectiveLimits` for a user with an entry.
  unfoldable pub fill_defaults : UserLimits E → UserLimits E
  fill_defaults l = record l {
    max_single_order_inr =
        if E.is_zero l.max_single_order_inr
        then system_defaults.max_single_order_inr
        else l.max_single_order_inr;
    max_orders_per_day =
        if eqb_ℤ l.max_orders_per_day (pos 0)
        then system_defaults.max_orders_per_day
        else l.max_orders_per_day;
    max_orders_per_minute =
        if eqb_ℤ l.max_orders_per_minute (pos 0)
        then system_defaults.max_orders_per_minute
        else l.max_orders_per_minute;
    duplicate_window_secs =
        if eqb_ℤ l.duplicate_window_secs (pos 0)
        then system_defaults.duplicate_window_secs
        else l.duplicate_window_secs;
    max_daily_value_inr =
        if E.is_zero l.max_daily_value_inr
        then system_defaults.max_daily_value_inr
        else l.max_daily_value_inr;
  }

  unfoldable pub get_effective_limits : String → State E → UserLimits E
  get_effective_limits email st = elim (lookup (E.to_lower email) st.limits) [
    | some l ↦ fill_defaults l
    | none ↦ system_defaults
  ]

  abbrev pub new_limits : UserLimits E
  new_limits = record {
    max_single_order_inr = E.money_zero;
    max_orders_per_day = pos 0;
    max_orders_per_minute = pos 0;
    duplicate_window_secs = pos 0;
    max_daily_value_inr = E.money_zero;
    auto_freeze_on_limit_hit = system_defaults.auto_freeze_on_limit_hit;
    require_confirm_all_orders = system_defaults.require_confirm_all_orders;
    allow_off_hours = false;
    trading_frozen = false;
    frozen_by = "";
    frozen_reason = "";
    frozen_at = 0;
  }

  -- The entry that `getOrCreateLimits` returns; its caller changes the entry and puts it back.
  unfoldable pub get_or_create_limits : String → State E → UserLimits E
  get_or_create_limits email st = elim (lookup email st.limits) [ some l ↦ l | none ↦ new_limits ]

  -- The row that `persistLimits` inserts.
  unfoldable pub row_of : String → UserLimits E → LimitsRow E.Float
  row_of email l = record {
    email = email;
    max_single_order_inr = E.to_float l.max_single_order_inr;
    max_orders_per_day = l.max_orders_per_day;
    max_orders_per_minute = l.max_orders_per_minute;
    duplicate_window_secs = l.duplicate_window_secs;
    max_daily_value_inr = E.to_float l.max_daily_value_inr;
    auto_freeze_on_limit_hit = flag l.auto_freeze_on_limit_hit;
    require_confirm_all_orders = flag l.require_confirm_all_orders;
    trading_frozen = flag l.trading_frozen;
    frozen_at =
        if eqb l.frozen_at 0 then "" else E.format_time "2006-01-02T15:04:05Z07:00" l.frozen_at;
    frozen_by = l.frozen_by;
    frozen_reason = l.frozen_reason;
  }

  -- A failed insert is logged and nothing else.
  unfoldable pub persist_limits : String → UserLimits E → Time → State E → State E
  persist_limits email l now st = elim st.db [
    | none ↦ st
    | some d ↦ record st { db = some (E.upsert d (row_of email l) now).0 }
  ]

  -- The entry that `LoadLimits` builds of a row. AllowOffHours has no column.
  unfoldable pub limits_of_row : LimitsRow E.Float → UserLimits E
  limits_of_row r = record {
    max_single_order_inr = E.new_inr r.max_single_order_inr;
    max_orders_per_day = r.max_orders_per_day;
    max_orders_per_minute = r.max_orders_per_minute;
    duplicate_window_secs = r.duplicate_window_secs;
    max_daily_value_inr = E.new_inr r.max_daily_value_inr;
    auto_freeze_on_limit_hit = not (eqb_ℤ r.auto_freeze_on_limit_hit (pos 0));
    require_confirm_all_orders = not (eqb_ℤ r.require_confirm_all_orders (pos 0));
    allow_off_hours = false;
    trading_frozen = not (eqb_ℤ r.trading_frozen (pos 0));
    frozen_by = r.frozen_by;
    frozen_reason = r.frozen_reason;
    frozen_at =
        if r.frozen_at == ""
        then 0
        else (elim (E.parse_time "2006-01-02T15:04:05Z07:00" r.frozen_at) [
          | some t ↦ t
          | none ↦ 0
        ]);
  }

  -- The loop of `LoadLimits`.
  unfoldable pub load_rows :
      List (Scan E.Float) → Option String → State E → Option LoadError × State E
  load_rows [] none st = (none, st)
  load_rows [] (some e) st = (some (rows_err e), st)
  load_rows (scan_failed e ∷ rs) _ st = (some (scan_risk_limits e), st)
  load_rows (scanned r ∷ rs) end st =
      load_rows rs end
        (record st { limits = insert (E.to_lower r.email) (limits_of_row r) st.limits })

  unfoldable pub load_limits : State E → Option LoadError × State E
  load_limits st = elim st.db [
    | none ↦ (none, st)
    | some d ↦ (elim (E.select_all d) [
      | query_failed e ↦ (some (load_risk_limits e), st)
      | rows rs end ↦ load_rows rs end st
    ])
  ]
