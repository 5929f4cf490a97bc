-- ===== src/CheckOrder/BuiltinIsolation.antt =====
-- The built-in checks leave the other users alone.
use kite_mcp_riskguard.Prelude.{◌≢◌, refl, Bool, String, arith, All, ◌&◌, Option-cases, inl, inr}
use kite_mcp_riskguard.Env.{Env, Time}
use kite_mcp_riskguard.Model.{UserTracker, State}
use kite_mcp_riskguard.Limits.{get_effective_limits}
use kite_mcp_riskguard.Trackers.{
  put_tracker, get_or_create_tracker, maybe_reset_day, dispatch_daily_reset_if_needed,
}
use kite_mcp_riskguard.Prelude.Int.{pos, neg_ℤ}
use kite_mcp_riskguard.Calendar.{add_duration}
use kite_mcp_riskguard.Lifecycle.{prune}
use kite_mcp_riskguard.Checks.Rates.{
  check_daily_order_count, check_rate_limit, check_client_order_id_duplicate, check_duplicate_order,
  prune_params, seconds_back,
}
use kite_mcp_riskguard.Checks.Values.{check_daily_value}
use kite_mcp_riskguard.Builtin.{
  builtin_checks, daily_order_count_check, daily_value_check, rate_limit_check,
  duplicate_order_check, client_order_id_dup_check, otr_band_check,
}
use kite_mcp_riskguard.CheckOrder.Isolation.{
  SameFor, SameFor-trans, put_tracker-SameFor, dispatch-SameFor, KeepsOthers,
}

module _ (E : Env) where
  module _ (key other : String) (differ : key ≢ other) where
    -- A tracker that is stored, and the event of its reset.
    stored-SameFor :
        (t : UserTracker E) (did_reset : Bool) (at : Time) (st : State E)
        → SameFor E other st
            (dispatch_daily_reset_if_needed E key did_reset at (put_tracker E key t st))
    stored-SameFor t did_reset at st =
        let put = put_tracker E key t st in
        SameFor-trans E other st put (dispatch_daily_reset_if_needed E key did_reset at put)
          (put_tracker-SameFor E key other differ t st)
          (dispatch-SameFor E key other differ did_reset at (put_tracker E key t st))

  daily_order_count-KeepsOthers : KeepsOthers E (daily_order_count_check E)
  unfolding check_daily_order_count
  daily_order_count-KeepsOthers req now st other differ =
      let key = E.to_lower req.email in
      elim (Option-cases (maybe_reset_day E now.clock (get_or_create_tracker E key now.wall st))) [
        | inl panics ↦ ground arith
        | inr ((t, did_reset), e) ↦
            let kept = stored-SameFor key other differ t did_reset now.wall st in
            ground (arith, kept)
      ]

  daily_value-KeepsOthers : KeepsOthers E (daily_value_check E)
  unfolding check_daily_value
  daily_value-KeepsOthers req now st other differ =
      let key = E.to_lower req.email in
      elim (Option-cases (maybe_reset_day E now.clock (get_or_create_tracker E key now.wall st))) [
        | inl panics ↦ ground arith
        | inr ((t, did_reset), e) ↦
            let kept = stored-SameFor key other differ t did_reset now.wall st in
            ground (arith, kept)
      ]

  rate_limit-KeepsOthers : KeepsOthers E (rate_limit_check E)
  unfolding check_rate_limit
  rate_limit-KeepsOthers req now st other differ =
      let key = E.to_lower req.email in
      let t = get_or_create_tracker E key now.wall st in
      let t' : UserTracker E = record t {
        recent_orders = prune (add_duration now.wall (neg_ℤ (pos 60000000000))) t.recent_orders;
      } in
      put_tracker-SameFor E key other differ t' st

  client_order_id-KeepsOthers : KeepsOthers E (client_order_id_dup_check E)
  unfolding check_client_order_id_duplicate
  client_order_id-KeepsOthers req now st other differ = ground arith

  duplicate_order-KeepsOthers : KeepsOthers E (duplicate_order_check E)
  unfolding check_duplicate_order
  duplicate_order-KeepsOthers req now st other differ =
      let key = E.to_lower req.email in
      let window = (get_effective_limits E key st).duplicate_window_secs in
      let t = get_or_create_tracker E key now.wall st in
      let t' : UserTracker E = record t {
        recent_params =
            prune_params E (add_duration now.wall (seconds_back window)) t.recent_params;
      } in
      ground (arith, put_tracker-SameFor E key other differ t' st)

  otr_band-KeepsOthers : KeepsOthers E (otr_band_check E)
  otr_band-KeepsOthers req now st other differ = ground arith

  -- Every built-in check leaves the limits and the tracker of any user but the order's as they were,
  -- and the counted orders of the second of all users and the global freeze too.
  pub builtin_checks-KeepsOthers : All (KeepsOthers E) (builtin_checks E)
  builtin_checks-KeepsOthers =
      (λ _ _ _ _ _. (refl, refl, refl, refl))
      & (λ _ _ _ _ _. (refl, refl, refl, refl))
      & (λ _ _ _ _ _. (refl, refl, refl, refl))
      & (λ _ _ _ _ _. (refl, refl, refl, refl))
      & (λ _ _ _ _ _. (refl, refl, refl, refl))
      & (λ _ _ _ _ _. (refl, refl, refl, refl))
      & daily_order_count-KeepsOthers
      & (λ _ _ _ _ _. (refl, refl, refl, refl))
      & rate_limit-KeepsOthers
      & client_order_id-KeepsOthers
      & duplicate_order-KeepsOthers
      & daily_value-KeepsOthers
      & otr_band-KeepsOthers
      & (λ _ _ _ _ _. (refl, refl, refl, refl))
      & (λ _ _ _ _ _. (refl, refl, refl, refl))
      & (λ _ _ _ _ _. (refl, refl, refl, refl))
      & tt
