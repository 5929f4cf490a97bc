-- ===== src/CheckOrder/Acceptance/Given.antt =====
-- The reason that each built-in check gives with a rejection.
use kite_mcp_riskguard.Prelude.{◌≡◌, false, some, String, arith}
use kite_mcp_riskguard.Env.{Env}
use kite_mcp_riskguard.Model.{CheckResult, OrderCheckRequest, State, Reading}
use kite_mcp_riskguard.PerSecond.{check_per_second_rate}
use kite_mcp_riskguard.Checks.Account.{check_kill_switch, check_confirmation_required}
use kite_mcp_riskguard.Checks.Values.{
  check_order_value, check_margin, check_daily_value, daily_value_result, check_anomaly_multiplier,
}
use kite_mcp_riskguard.Checks.Rates.{
  check_daily_order_count, check_rate_limit, check_client_order_id_duplicate, check_duplicate_order,
}
use kite_mcp_riskguard.Checks.Bands.{check_circuit_limit, check_quantity_limit, check_otr_band}
use kite_mcp_riskguard.Checks.Hours.{check_off_hours, check_market_hours}

abbrev pub Gives : CheckResult → String → Type 0
Gives r reason = r.allowed ≡ false → r.reason ≡ reason

module _ (E : Env) (req : OrderCheckRequest E) (email : String) (now : Reading) (st : State E) where
  pub kill_switch-Gives : Gives (check_kill_switch E email st) "trading_frozen"
  unfolding check_kill_switch
  kill_switch-Gives no_ = ground arith

  pub confirmation-Gives : Gives (check_confirmation_required E req st) "confirmation_required"
  unfolding check_confirmation_required
  confirmation-Gives no_ = ground arith

  pub order_value-Gives : Gives (check_order_value E req st) "order_value_limit"
  unfolding check_order_value
  order_value-Gives no_ = ground arith

  pub margin-Gives : Gives (check_margin E req st) "insufficient_margin"
  unfolding check_margin
  margin-Gives no_ = ground arith

  pub circuit-Gives : Gives (check_circuit_limit E req st) "circuit_breached"
  unfolding check_circuit_limit
  circuit-Gives no_ = ground arith

  pub quantity-Gives : Gives (check_quantity_limit E req st) "quantity_limit"
  unfolding check_quantity_limit
  quantity-Gives no_ = ground arith

  pub per_second-Gives : Gives (check_per_second_rate E email now st) "per_second_rate_exceeded"
  unfolding check_per_second_rate
  per_second-Gives no_ = ground arith

  pub rate_limit-Gives : Gives (check_rate_limit E email now st).0 "rate_limit"
  unfolding check_rate_limit
  rate_limit-Gives no_ = ground arith

  pub client_order_id-Gives :
      Gives (check_client_order_id_duplicate E req now st).0 "duplicate_order"
  unfolding check_client_order_id_duplicate
  client_order_id-Gives no_ = ground arith

  pub duplicate_order-Gives : Gives (check_duplicate_order E email req now st).0 "duplicate_order"
  unfolding check_duplicate_order
  duplicate_order-Gives no_ = ground arith

  pub anomaly-Gives : Gives (check_anomaly_multiplier E req st) "anomaly_high"
  unfolding check_anomaly_multiplier
  anomaly-Gives no_ = ground arith

  pub off_hours-Gives : Gives (check_off_hours E req now st) "off_hours_blocked"
  unfolding check_off_hours
  off_hours-Gives no_ = ground arith

  pub market_hours-Gives : Gives (check_market_hours E req now) "market_closed"
  unfolding check_market_hours
  market_hours-Gives no_ = ground arith

  module _ (r : CheckResult) where
    pub otr_band-Gives : check_otr_band E req st ≡ some r → Gives r "otr_band_violation"
    unfolding check_otr_band
    otr_band-Gives e no_ = ground arith

    pub daily_order_count-Gives :
        (st' : State E)
        → check_daily_order_count E email now st ≡ some (r, st')
        → Gives r "daily_order_limit"
    unfolding check_daily_order_count
    daily_order_count-Gives st' e no_ = ground arith

    pub daily_value-Gives :
        (st' : State E)
        → check_daily_value E email req now st ≡ some (r, st')
        → Gives r "daily_value_limit"
    unfolding check_daily_value daily_value_result
    daily_value-Gives st' e no_ = ground arith
