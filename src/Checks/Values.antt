-- ===== src/Checks/Values.antt =====
-- The checks on an order's notional value: checkOrderValue, checkDailyValue and
-- checkAnomalyMultiplier of internal_checks.go, and margin_check.go.
use kite_mcp_riskguard.Prelude.{not, ◌&&◌, ◌||◌, Option, none, some, [], ◌∷◌, String, if◌then◌else◌}
use kite_mcp_riskguard.Prelude.Int.{ℤ, pos, leb_ℤ}
use kite_mcp_riskguard.Env.{Env, float}
use kite_mcp_riskguard.Model.Reasons.{
  reason_anomaly_high, reason_daily_value_limit, reason_insufficient_margin, reason_order_value,
}
use kite_mcp_riskguard.Model.{CheckResult, allow, reject, OrderCheckRequest, State, Reading}
use kite_mcp_riskguard.Limits.{get_effective_limits}
use kite_mcp_riskguard.Trackers.{
  get_or_create_tracker, put_tracker, maybe_reset_day, dispatch_daily_reset_if_needed,
}

module _ (E : Env) where
  open E use {Money, of_int, multiply, add, greater_than, is_positive, is_zero, to_float, sprintf}

  -- The order's value: price times quantity.
  abbrev pub notional : OrderCheckRequest E → Money
  notional req = multiply req.price (of_int req.quantity)

  unfoldable pub check_order_value : OrderCheckRequest E → State E → CheckResult
  check_order_value req st =
      if not (is_positive req.price)
      then allow
      else (let cap = (get_effective_limits E req.email st).max_single_order_inr in
          elim (greater_than (notional req) cap) [
            | none ↦ allow
            | some exceeds ↦
                if exceeds
                then reject reason_order_value (
                    sprintf "Order value Rs %.0f exceeds limit Rs %.0f"
                      (float (to_float (notional req)) ∷ float (to_float cap) ∷ []))
                else allow
          ])

  -- The day's value with this order; `none` is an error of Money.Add.
  unfoldable pub cumulative : Money → Money → Option Money
  cumulative placed order_value =
      if is_zero placed then some order_value else add placed order_value

  -- The decision of `checkDailyValue` on the value placed so far.
  unfoldable pub daily_value_result : String → Money → OrderCheckRequest E → State E → CheckResult
  daily_value_result email placed req st =
      let cap = (get_effective_limits E email st).max_daily_value_inr in
      elim (cumulative placed (notional req)) [
        | none ↦ allow
        | some total ↦ elim (greater_than total cap) [
          | none ↦ allow
          | some exceeds ↦
              if exceeds
              then reject reason_daily_value_limit (
                  sprintf
                    "Cumulative placed value Rs %.0f + this order Rs %.0f exceeds daily limit Rs %.0f"
                    (float (to_float placed)
                      ∷ float (to_float (notional req))
                      ∷ float (to_float cap)
                      ∷ []))
              else allow
        ]
      ]

  -- `none`: maybeResetDay panicked, with the mutex held.
  unfoldable pub check_daily_value :
      String → OrderCheckRequest E → Reading → State E → Option (CheckResult × State E)
  check_daily_value email req now st =
      if not (is_positive req.price)
      then some (allow, st)
      else (elim (maybe_reset_day E now.clock (get_or_create_tracker E email now.wall st)) [
        | none ↦ none
        | some (t, did_reset) ↦ some (
          daily_value_result email t.daily_placed_value req st,
          dispatch_daily_reset_if_needed E email did_reset now.wall (put_tracker E email t st),
        )
      ])

  abbrev pub anomaly_sigma_multiplier : E.Float
  anomaly_sigma_multiplier = E.literal 30 1

  abbrev pub anomaly_mean_multiplier : E.Float
  anomaly_mean_multiplier = E.literal 100 1

  abbrev pub anomaly_baseline_days : ℤ
  anomaly_baseline_days = pos 30

  unfoldable pub check_anomaly_multiplier : OrderCheckRequest E → State E → CheckResult
  check_anomaly_multiplier req st = elim st.baseline [
    | none ↦ allow
    | some user_order_stats ↦
        if not (is_positive req.price)
        then allow
        else (let order_value = to_float (notional req) in
            let (mean, stdev, _) =
              user_order_stats st.world (E.to_lower req.email) anomaly_baseline_days in
            if E.f_le mean (E.literal 0 0)
            then allow
            else (let sigma_threshold = E.f_add mean (E.f_mul anomaly_sigma_multiplier stdev) in
                let mean_threshold = E.f_mul anomaly_mean_multiplier mean in
                if E.f_lt sigma_threshold order_value && E.f_lt mean_threshold order_value
                then reject reason_anomaly_high (
                    sprintf
                      "Order value Rs %.0f is a statistical anomaly: your 30-day baseline mean is Rs %.0f (σ=Rs %.0f), so this order is both > %.0fx mean and > mean+%.0fσ. If legitimate, place a smaller order to rebuild baseline or contact admin."
                      (float order_value
                        ∷ float mean
                        ∷ float stdev
                        ∷ float anomaly_mean_multiplier
                        ∷ float anomaly_sigma_multiplier
                        ∷ []))
                else allow))
  ]

  -- margin_check.go: marginCheck.Evaluate
  unfoldable pub check_margin : OrderCheckRequest E → State E → CheckResult
  check_margin req st = elim st.margin_lookup [
    | none ↦ allow
    | some get_available_margin ↦
        if not st.margin_check_enabled || not (is_positive req.price) || leb_ℤ req.quantity (pos 0)
        then allow
        else (let (available, found) = get_available_margin st.world req.email in
            let required = to_float (notional req) in
            if not found
            then allow
            else if E.f_lt available required
            then reject reason_insufficient_margin (
                sprintf
                  "Insufficient margin: order requires Rs %.0f but only Rs %.0f is available. Reduce quantity or fund the account before retrying."
                  (float required ∷ float available ∷ []))
            else allow)
  ]
