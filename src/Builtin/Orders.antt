-- ===== src/Builtin/Orders.antt =====
-- check.go, margin_check.go, circuit_limit.go and otr_band.go: the places of the built-in checks in the chain.
use kite_mcp_riskguard.Prelude.Int.{ℤ, pos}

abbrev pub order_kill_switch : ℤ
order_kill_switch = pos 100

abbrev pub order_confirmation_required : ℤ
order_confirmation_required = pos 200

abbrev pub order_order_value : ℤ
order_order_value = pos 300

abbrev pub order_margin_check : ℤ
order_margin_check = pos 325

abbrev pub order_circuit_limit : ℤ
order_circuit_limit = pos 350

abbrev pub order_quantity_limit : ℤ
order_quantity_limit = pos 400

abbrev pub order_daily_order_count : ℤ
order_daily_order_count = pos 500

abbrev pub order_per_second_rate : ℤ
order_per_second_rate = pos 600

abbrev pub order_rate_limit : ℤ
order_rate_limit = pos 700

abbrev pub order_client_order_id_dup : ℤ
order_client_order_id_dup = pos 800

abbrev pub order_duplicate_order : ℤ
order_duplicate_order = pos 900

abbrev pub order_daily_value : ℤ
order_daily_value = pos 1000

abbrev pub order_otr_band : ℤ
order_otr_band = pos 1050

abbrev pub order_anomaly_multiplier : ℤ
order_anomaly_multiplier = pos 1100

abbrev pub order_off_hours : ℤ
order_off_hours = pos 1200

abbrev pub order_market_hours : ℤ
order_market_hours = pos 1300
