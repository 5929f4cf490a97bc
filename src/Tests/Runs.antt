-- ===== src/Tests/Runs.antt =====
-- Runs of a new guard's chain.
use kite_mcp_riskguard.Prelude.{◌≡◌, refl, [], ◌∷◌}
use kite_mcp_riskguard.Prelude.Dict.{lookup, insert}
use kite_mcp_riskguard.Model.{allow}
use kite_mcp_riskguard.Limits.{get_effective_limits, fill_defaults}
use kite_mcp_riskguard.Trackers.{
  get_or_create_tracker, put_tracker, maybe_reset_day, dispatch_daily_reset_if_needed,
}
use kite_mcp_riskguard.Calendar.{reset_time}
use kite_mcp_riskguard.Lifecycle.{prune}
use kite_mcp_riskguard.PerSecond.{current_count, check_per_second_rate}
use kite_mcp_riskguard.Dedup.{new_dedup, hash_key, seen_or_add, seen_or_add_key}
use kite_mcp_riskguard.Chain.{list_check_names, insert_checks, insert_check, sift}
use kite_mcp_riskguard.Checks.Account.{check_kill_switch, check_confirmation_required}
use kite_mcp_riskguard.Checks.Values.{
  check_order_value, check_margin, check_daily_value, daily_value_result, cumulative,
  check_anomaly_multiplier,
}
use kite_mcp_riskguard.Checks.Rates.{
  check_daily_order_count, check_rate_limit, check_client_order_id_duplicate, check_duplicate_order,
  prune_params, find_duplicate,
}
use kite_mcp_riskguard.Checks.Bands.{check_otr_band, check_circuit_limit, check_quantity_limit}
use kite_mcp_riskguard.Checks.Hours.{is_amo_variety, check_off_hours, check_market_hours}
use kite_mcp_riskguard.Builtin.{new_guard}
use kite_mcp_riskguard.CheckOrder.{returned, run_checks, proceed, check_order}
use kite_mcp_riskguard.Tests.Sample.{sample, order, now, started}

new_guard_names : list_check_names sample started ≡ (
    "kill_switch" ∷ "confirmation_required" ∷ "order_value" ∷ "margin_check" ∷ "circuit_limit"
    ∷ "quantity_limit" ∷ "daily_order_count" ∷ "per_second_rate" ∷ "rate_limit"
    ∷ "client_order_id_duplicate" ∷ "duplicate_order" ∷ "daily_value" ∷ "otr_band"
    ∷ "anomaly_multiplier" ∷ "off_hours" ∷ "market_hours" ∷ [])
unfolding list_check_names new_guard insert_checks insert_check sift
new_guard_names = refl

pub first_order_allowed : (check_order sample started order now).0 ≡ returned allow
unfolding check_order new_guard run_checks insert_checks insert_check sift proceed check_kill_switch
    lookup check_confirmation_required get_effective_limits fill_defaults maybe_reset_day reset_time
    check_otr_band check_circuit_limit check_quantity_limit check_order_value check_daily_value
    daily_value_result check_anomaly_multiplier check_margin check_daily_order_count
    check_rate_limit check_client_order_id_duplicate check_duplicate_order find_duplicate
    prune_params prune check_per_second_rate current_count check_off_hours check_market_hours
    is_amo_variety get_or_create_tracker put_tracker dispatch_daily_reset_if_needed new_dedup
    seen_or_add seen_or_add_key hash_key insert cumulative
first_order_allowed = refl
