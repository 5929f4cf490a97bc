-- ===== src/Builtin.antt =====
-- check.go: the adapters of the built-in checks, their orders, and `builtinChecks`; NewGuard of
-- guard.go.
use kite_mcp_riskguard.Prelude.{true, false, Option, none, some, List, [], ◌∷◌, String}
use kite_mcp_riskguard.Prelude.Int.{pos}
use kite_mcp_riskguard.Env.{Env}
use kite_mcp_riskguard.Model.{CheckResult, State}
use kite_mcp_riskguard.Dedup.{new_dedup, default_dedup_ttl}
use kite_mcp_riskguard.PerSecond.{new_per_second_counter, check_per_second_rate}
use kite_mcp_riskguard.Checks.Account.{check_kill_switch, check_confirmation_required}
use kite_mcp_riskguard.Checks.Values.{
  check_order_value, check_daily_value, check_anomaly_multiplier, check_margin,
}
use kite_mcp_riskguard.Checks.Rates.{
  check_daily_order_count, check_rate_limit, check_client_order_id_duplicate, check_duplicate_order,
}
use kite_mcp_riskguard.Checks.Bands.{check_otr_band, check_circuit_limit, check_quantity_limit}
use kite_mcp_riskguard.Checks.Hours.{check_off_hours, check_market_hours}
use kite_mcp_riskguard.Builtin.Orders.{
  order_kill_switch, order_confirmation_required, order_order_value, order_margin_check,
  order_circuit_limit, order_quantity_limit, order_daily_order_count, order_per_second_rate,
  order_rate_limit, order_client_order_id_dup, order_duplicate_order, order_daily_value,
  order_otr_band, order_anomaly_multiplier, order_off_hours, order_market_hours,
}
use kite_mcp_riskguard.Chain.{Eval, result, panicked, panicked_locked, Check, Guard, insert_checks}
pub mod Orders
pub mod Registration

-- What `In` panics with when LoadLocation returned nil.
abbrev pub missing_location : String
missing_location = "time: missing Location in call to Time.In"

-- What an index below the buffer of `itoa` panics with.
abbrev index_out_of_range : String
index_out_of_range = "runtime error: index out of range [-1]"

module _ (E : Env) where
  -- A rule that only reads the state.
  abbrev reading : CheckResult → State E → Eval × State E
  reading r st = (result r, st)

  abbrev updating : CheckResult × State E → Eval × State E
  updating (r, st) = (result r, st)

  -- A rule that may panic with the mutex held; what it leaves behind is not read again, since the mutex stays locked.
  abbrev locking : State E → Option (CheckResult × State E) → Eval × State E
  locking st none = (panicked_locked missing_location, st)
  locking _ (some (r, st)) = (result r, st)

  abbrev formatting : State E → Option CheckResult → Eval × State E
  formatting st none = (panicked index_out_of_range, st)
  formatting st (some r) = (result r, st)

  abbrev pub kill_switch_check : Check E
  kill_switch_check = record {
    name = "kill_switch";
    order = order_kill_switch;
    record_on_rejection = false;
    evaluate = λ req now st. reading (check_kill_switch E (E.to_lower req.email) st) st;
  }

  abbrev pub confirmation_required_check : Check E
  confirmation_required_check = record {
    name = "confirmation_required";
    order = order_confirmation_required;
    record_on_rejection = false;
    evaluate = λ req now st. reading (check_confirmation_required E req st) st;
  }

  abbrev pub order_value_check : Check E
  order_value_check = record {
    name = "order_value";
    order = order_order_value;
    record_on_rejection = true;
    evaluate = λ req now st. reading (check_order_value E req st) st;
  }

  abbrev pub margin_check : Check E
  margin_check = record {
    name = "margin_check";
    order = order_margin_check;
    record_on_rejection = false;
    evaluate = λ req now st. reading (check_margin E req st) st;
  }

  abbrev pub circuit_limit_check : Check E
  circuit_limit_check = record {
    name = "circuit_limit";
    order = order_circuit_limit;
    record_on_rejection = true;
    evaluate = λ req now st. reading (check_circuit_limit E req st) st;
  }

  abbrev pub quantity_limit_check : Check E
  quantity_limit_check = record {
    name = "quantity_limit";
    order = order_quantity_limit;
    record_on_rejection = true;
    evaluate = λ req now st. reading (check_quantity_limit E req st) st;
  }

  abbrev pub daily_order_count_check : Check E
  daily_order_count_check = record {
    name = "daily_order_count";
    order = order_daily_order_count;
    record_on_rejection = true;
    evaluate = λ req now st. locking st (check_daily_order_count E (E.to_lower req.email) now st);
  }

  abbrev pub per_second_rate_check : Check E
  per_second_rate_check = record {
    name = "per_second_rate";
    order = order_per_second_rate;
    record_on_rejection = true;
    evaluate = λ req now st. reading (check_per_second_rate E (E.to_lower req.email) now st) st;
  }

  abbrev pub rate_limit_check : Check E
  rate_limit_check = record {
    name = "rate_limit";
    order = order_rate_limit;
    record_on_rejection = true;
    evaluate = λ req now st. updating (check_rate_limit E (E.to_lower req.email) now st);
  }

  abbrev pub client_order_id_dup_check : Check E
  client_order_id_dup_check = record {
    name = "client_order_id_duplicate";
    order = order_client_order_id_dup;
    record_on_rejection = true;
    evaluate = λ req now st. updating (check_client_order_id_duplicate E req now st);
  }

  abbrev pub duplicate_order_check : Check E
  duplicate_order_check = record {
    name = "duplicate_order";
    order = order_duplicate_order;
    record_on_rejection = true;
    evaluate = λ req now st. updating (check_duplicate_order E (E.to_lower req.email) req now st);
  }

  abbrev pub daily_value_check : Check E
  daily_value_check = record {
    name = "daily_value";
    order = order_daily_value;
    record_on_rejection = true;
    evaluate = λ req now st. locking st (check_daily_value E (E.to_lower req.email) req now st);
  }

  abbrev pub otr_band_check : Check E
  otr_band_check = record {
    name = "otr_band";
    order = order_otr_band;
    record_on_rejection = true;
    evaluate = λ req now st. formatting st (check_otr_band E req st);
  }

  abbrev pub anomaly_multiplier_check : Check E
  anomaly_multiplier_check = record {
    name = "anomaly_multiplier";
    order = order_anomaly_multiplier;
    record_on_rejection = true;
    evaluate = λ req now st. reading (check_anomaly_multiplier E req st) st;
  }

  abbrev pub off_hours_check : Check E
  off_hours_check = record {
    name = "off_hours";
    order = order_off_hours;
    record_on_rejection = true;
    evaluate = λ req now st. reading (check_off_hours E req now st) st;
  }

  abbrev pub market_hours_check : Check E
  market_hours_check = record {
    name = "market_hours";
    order = order_market_hours;
    record_on_rejection = true;
    evaluate = λ req now st. reading (check_market_hours E req now) st;
  }

  -- In the order of the source, which is not that of the chain for every plugin.
  abbrev pub builtin_checks : List (Check E)
  builtin_checks =
      kill_switch_check ∷ confirmation_required_check ∷ order_value_check ∷ margin_check
      ∷ circuit_limit_check ∷ quantity_limit_check ∷ daily_order_count_check ∷ per_second_rate_check
      ∷ rate_limit_check ∷ client_order_id_dup_check ∷ duplicate_order_check ∷ daily_value_check
      ∷ otr_band_check ∷ anomaly_multiplier_check ∷ off_hours_check ∷ market_hours_check ∷ []

  -- The state of a new guard; the world is whatever surrounds it.
  abbrev pub new_state : E.World → State E
  new_state w = record {
    trackers = [];
    limits = [];
    freeze_lookup = none;
    ltp_lookup = none;
    circuit_lookup = none;
    margin_lookup = none;
    margin_check_enabled = false;
    baseline = none;
    db = none;
    has_notifier = false;
    dedup = some (new_dedup (pos default_dedup_ttl));
    per_second = some new_per_second_counter;
    global_frozen = false;
    global_frozen_by = "";
    global_frozen_at = 0;
    global_frozen_reason = "";
    has_dispatcher = false;
    sent = [];
    world = w;
  }

  unfoldable pub new_guard : E.World → Guard E
  new_guard w = record { checks = insert_checks E builtin_checks []; state = new_state w }
