-- ===== src/CheckOrder/Acceptance.antt =====
-- The rules of a new guard, each as the breach that it rejects, in terms of the state alone.
use kite_mcp_riskguard.Prelude.{
  ◌≡◌, ◌≢◌, ◌⊎◌, ◌<◌, Bool, true, false, Option, none, some, String, length, ltb, if◌then◌else◌,
}
use kite_mcp_riskguard.Prelude.Int.{ℤ, pos, neg_ℤ, ◌≤ℤ◌, ◌<ℤ◌}
use kite_mcp_riskguard.Env.{Env, Time}
use kite_mcp_riskguard.Calendar.{in_ist, reset_time, add_duration}
use kite_mcp_riskguard.Model.{
  OrderCheckRequest, RecentOrder, State, Reading, UserLimits, UserTracker,
}
use kite_mcp_riskguard.Limits.{get_effective_limits}
use kite_mcp_riskguard.Lifecycle.{is_frozen, prune}
use kite_mcp_riskguard.Trackers.{get_or_create_tracker}
use kite_mcp_riskguard.PerSecond.{current_count, max_orders_per_second}
use kite_mcp_riskguard.Dedup.{seen_or_add}
use kite_mcp_riskguard.Checks.Values.{notional, anomaly_baseline_days}
use kite_mcp_riskguard.Checks.Rates.{find_duplicate, prune_params, seconds_back}
use kite_mcp_riskguard.Checks.Hours.{is_amo_variety}
use kite_mcp_riskguard.Checks.BandLaws.{IsOutsideBand}
use kite_mcp_riskguard.Checks.HoursLaws.{InSession, InNight}
pub mod Rules
pub mod Given
pub mod Reasons
pub mod Verdict

module _ (E : Env) (req : OrderCheckRequest E) where
  open E use {literal, add, greater_than, is_positive, is_zero, f_add, f_mul, f_lt, f_le, to_float}

  abbrev pub lowered : String
  lowered = E.to_lower req.email

  -- The user's limits; the checks that are given the lowered email lower it again.
  abbrev pub own_limits : State E → UserLimits E
  own_limits st = get_effective_limits E req.email st

  abbrev pub lowered_limits : State E → UserLimits E
  lowered_limits st = get_effective_limits E lowered st

  abbrev pub IsUnconfirmed : State E → Type 0
  IsUnconfirmed st = ((own_limits st).require_confirm_all_orders ≡ true) × (req.confirmed ≡ false)

  abbrev pub IsTooLarge : State E → Type 0
  IsTooLarge st =
      (is_positive req.price ≡ true)
      × (greater_than (notional E req) (own_limits st).max_single_order_inr ≡ some true)

  abbrev pub IsUnfunded : State E → Type 0
  IsUnfunded st = elim st.margin_lookup [
    | none ↦ ⊥
    | some get_available_margin ↦
        let (available, found) = get_available_margin st.world req.email in
        (st.margin_check_enabled ≡ true)
        × (is_positive req.price ≡ true)
        × (pos 0 <ℤ req.quantity)
        × (found ≡ true)
        × (f_lt available (to_float (notional E req)) ≡ true)
  ]

  abbrev pub IsOutsideCircuit : State E → Type 0
  IsOutsideCircuit st = elim st.circuit_lookup [
    | none ↦ ⊥
    | some get_circuit_limits ↦
        let (lower, upper, found) = get_circuit_limits st.world req.exchange req.tradingsymbol in
        (is_positive req.price ≡ true)
        × (found ≡ true)
        × (f_le upper (literal 0 0) ≡ false)
        × ((f_lt (to_float req.price) lower ≡ true) ⊎ (f_lt upper (to_float req.price) ≡ true))
  ]

  abbrev pub IsOverFreezeQuantity : State E → Type 0
  IsOverFreezeQuantity st = elim st.freeze_lookup [
    | none ↦ ⊥
    | some get_freeze_quantity ↦
        let (freeze_qty, found) = get_freeze_quantity st.world req.exchange req.tradingsymbol in
        (req.exchange ≢ "")
        × (req.tradingsymbol ≢ "")
        × (found ≡ true)
        × (0 < freeze_qty)
        × ((req.quantity <ℤ pos 0) ⊎ (pos freeze_qty <ℤ req.quantity))
  ]

  -- What counts of the tracker on the day of the instant: nothing, if a 09:15 IST has passed since its last reset.
  abbrev pub of_today : {A : Type 0} → Reading → State E → A → (UserTracker E → A) → A
  of_today now st nothing counted =
      let t = get_or_create_tracker E lowered now.wall st in
      if ltb (in_ist t.day_reset_at) (reset_time (in_ist now.clock)) then nothing else counted t

  abbrev pub IsDayFull : Reading → State E → Type 0
  IsDayFull now st =
      (lowered_limits st).max_orders_per_day ≤ℤ of_today now st (pos 0) (λ t. t.daily_order_count)

  abbrev pub IsSecondFull : Reading → State E → Type 0
  IsSecondFull now st = elim st.per_second [
    | none ↦ ⊥
    | some c ↦ max_orders_per_second ≤ℤ current_count lowered now.clock c
  ]

  abbrev pub IsMinuteFull : Reading → State E → Type 0
  IsMinuteFull now st =
      let cutoff = add_duration now.wall (neg_ℤ (pos 60000000000)) in
      let orders = (get_or_create_tracker E lowered now.wall st).recent_orders in
      (lowered_limits st).max_orders_per_minute ≤ℤ pos (length (prune cutoff orders))

  abbrev pub IsKeyReused : Reading → State E → Type 0
  IsKeyReused now st = elim st.dedup [
    | none ↦ ⊥
    | some d ↦
        (req.client_order_id ≢ "")
        × ((seen_or_add E lowered req.client_order_id now.dedup_clock d).0 ≡ true)
  ]

  abbrev pub IsRepeated : Reading → State E → Type 0
  IsRepeated now st =
      let window = (lowered_limits st).duplicate_window_secs in
      let orders = (get_or_create_tracker E lowered now.wall st).recent_params in
      (pos 0 <ℤ window)
      × ((p : RecentOrder) × (find_duplicate E req
              (prune_params E (add_duration now.wall (seconds_back window)) orders)
            ≡ some p))

  -- The day's value with the order on top, where Money can add and compare it, exceeds the cap.
  abbrev pub IsDayValueFull : Reading → State E → Type 0
  IsDayValueFull now st =
      let placed = of_today now st E.money_zero (λ t. t.daily_placed_value) in
      let total = if is_zero placed then some (notional E req) else add placed (notional E req) in
      (is_positive req.price ≡ true)
      × ((v : E.Money) × (total ≡ some v)
          × (greater_than v (lowered_limits st).max_daily_value_inr ≡ some true))

  abbrev pub IsAnomalous : State E → Type 0
  IsAnomalous st = elim st.baseline [
    | none ↦ ⊥
    | some user_order_stats ↦
        let (mean, stdev, _) = user_order_stats st.world lowered (anomaly_baseline_days E) in
        let value = to_float (notional E req) in
        (is_positive req.price ≡ true)
        × (f_le mean (literal 0 0) ≡ false)
        × (f_lt (f_add mean (f_mul (literal 30 1) stdev)) value ≡ true)
        × (f_lt (f_mul (literal 100 1) mean) value ≡ true)
  ]

  abbrev pub IsInOffHours : Reading → State E → Type 0
  IsInOffHours now st = ((own_limits st).allow_off_hours ≡ false) × InNight (in_ist now.clock)

  abbrev pub IsMarketClosed : Reading → Type 0
  IsMarketClosed now = (is_amo_variety req.variety ≡ false) × ¬ InSession (in_ist now.clock)
