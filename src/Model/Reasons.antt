-- ===== src/Model/Reasons.antt =====
-- guard.go and per_second.go: the reasons of the rules.
use kite_mcp_riskguard.Model.{RejectionReason}

abbrev pub reason_global_freeze : RejectionReason
reason_global_freeze = "global_freeze"

abbrev pub reason_trading_frozen : RejectionReason
reason_trading_frozen = "trading_frozen"

abbrev pub reason_order_value : RejectionReason
reason_order_value = "order_value_limit"

abbrev pub reason_quantity_limit : RejectionReason
reason_quantity_limit = "quantity_limit"

abbrev pub reason_daily_order_limit : RejectionReason
reason_daily_order_limit = "daily_order_limit"

abbrev pub reason_rate_limit : RejectionReason
reason_rate_limit = "rate_limit"

abbrev pub reason_duplicate_order : RejectionReason
reason_duplicate_order = "duplicate_order"

abbrev pub reason_daily_value_limit : RejectionReason
reason_daily_value_limit = "daily_value_limit"

abbrev pub reason_confirmation_required : RejectionReason
reason_confirmation_required = "confirmation_required"

abbrev pub reason_anomaly_high : RejectionReason
reason_anomaly_high = "anomaly_high"

abbrev pub reason_off_hours_blocked : RejectionReason
reason_off_hours_blocked = "off_hours_blocked"

abbrev pub reason_otr_band : RejectionReason
reason_otr_band = "otr_band_violation"

abbrev pub reason_circuit_breached : RejectionReason
reason_circuit_breached = "circuit_breached"

abbrev pub reason_insufficient_margin : RejectionReason
reason_insufficient_margin = "insufficient_margin"

abbrev pub reason_market_closed : RejectionReason
reason_market_closed = "market_closed"

abbrev pub reason_per_second_rate_exceeded : RejectionReason
reason_per_second_rate_exceeded = "per_second_rate_exceeded"
