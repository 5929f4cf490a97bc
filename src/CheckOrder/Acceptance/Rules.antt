-- ===== src/CheckOrder/Acceptance/Rules.antt =====
-- Each built-in check rejects exactly its breach.
use kite_mcp_riskguard.Prelude.{
  ◌≡◌, sym, ap, ◌∙◌, ◌↔◌, true, false, some, arith, eq_iff, Option-cases, Bool-cases, inl, inr,
}
use kite_mcp_riskguard.Env.{Env}
use kite_mcp_riskguard.Calendar.{add_duration}
use kite_mcp_riskguard.Model.{CheckResult, OrderCheckRequest, State, Reading}
use kite_mcp_riskguard.Lifecycle.{is_frozen, frozen_entry}
use kite_mcp_riskguard.Trackers.{get_or_create_tracker, maybe_reset_day}
use kite_mcp_riskguard.PerSecond.{check_per_second_rate}
use kite_mcp_riskguard.Checks.Account.{check_kill_switch, check_confirmation_required}
use kite_mcp_riskguard.Checks.Values.{
  notional, check_order_value, check_margin, check_daily_value, daily_value_result, cumulative,
  check_anomaly_multiplier,
}
use kite_mcp_riskguard.Checks.Rates.{
  check_daily_order_count, check_rate_limit, check_client_order_id_duplicate, check_duplicate_order,
  find_duplicate, prune_params, seconds_back,
}
use kite_mcp_riskguard.Checks.Bands.{check_circuit_limit, check_quantity_limit}
use kite_mcp_riskguard.Checks.Hours.{check_market_hours}
use kite_mcp_riskguard.CheckOrder.Acceptance.{
  lowered, lowered_limits, of_today, IsUnconfirmed, IsTooLarge, IsUnfunded, IsOutsideCircuit,
  IsOverFreezeQuantity, IsDayFull, IsSecondFull, IsMinuteFull, IsKeyReused, IsRepeated,
  IsDayValueFull, IsAnomalous, IsMarketClosed,
}

-- A rejection is exactly a breach.
abbrev pub Rejects : CheckResult → Type 0 → Type 0
Rejects r Breach = (r.allowed ≡ false) ↔ Breach

module _ (E : Env) (req : OrderCheckRequest E) where
  module _ (st : State E) where
    pub kill_switch-Rejects :
        Rejects (check_kill_switch E (lowered E req) st) (is_frozen E req.email st ≡ true)
    unfolding check_kill_switch is_frozen frozen_entry
    kill_switch-Rejects = ground arith

    pub confirmation-Rejects :
        Rejects (check_confirmation_required E req st) (IsUnconfirmed E req st)
    unfolding check_confirmation_required
    confirmation-Rejects = ground arith

    pub order_value-Rejects : Rejects (check_order_value E req st) (IsTooLarge E req st)
    unfolding check_order_value
    order_value-Rejects = ground arith

    pub margin-Rejects : Rejects (check_margin E req st) (IsUnfunded E req st)
    unfolding check_margin
    margin-Rejects = elim (Option-cases st.margin_lookup) [
      | inl off ↦ rw off (ground arith)
      | inr (f, on) ↦ rw on (ground arith)
    ]

    pub circuit-Rejects : Rejects (check_circuit_limit E req st) (IsOutsideCircuit E req st)
    unfolding check_circuit_limit
    circuit-Rejects = elim (Option-cases st.circuit_lookup) [
      | inl off ↦ rw off (ground arith)
      | inr (f, on) ↦ rw on (ground arith)
    ]

    pub quantity-Rejects : Rejects (check_quantity_limit E req st) (IsOverFreezeQuantity E req st)
    unfolding check_quantity_limit
    quantity-Rejects = elim (Option-cases st.freeze_lookup) [
      | inl off ↦ rw off (ground arith)
      | inr (f, on) ↦ rw on (ground (arith, eq_iff req.exchange "", eq_iff req.tradingsymbol ""))
    ]

    pub anomaly-Rejects : Rejects (check_anomaly_multiplier E req st) (IsAnomalous E req st)
    unfolding check_anomaly_multiplier
    anomaly-Rejects = elim (Option-cases st.baseline) [
      | inl off ↦ rw off (ground arith)
      | inr (f, on) ↦ rw on (ground arith)
    ]

  module _ (now : Reading) (st : State E) where
    pub per_second-Rejects :
        Rejects (check_per_second_rate E (lowered E req) now st) (IsSecondFull E req now st)
    unfolding check_per_second_rate
    per_second-Rejects = elim (Option-cases st.per_second) [
      | inl off ↦ rw off (ground arith)
      | inr (c, on) ↦ rw on (ground arith)
    ]

    pub rate_limit-Rejects :
        Rejects (check_rate_limit E (lowered E req) now st).0 (IsMinuteFull E req now st)
    unfolding check_rate_limit
    rate_limit-Rejects = ground arith

    pub client_order_id-Rejects :
        Rejects (check_client_order_id_duplicate E req now st).0 (IsKeyReused E req now st)
    unfolding check_client_order_id_duplicate
    client_order_id-Rejects = elim (Option-cases st.dedup) [
      | inl off ↦ rw off (ground (arith, eq_iff req.client_order_id ""))
      | inr (d, on) ↦ rw on (ground (arith, eq_iff req.client_order_id ""))
    ]

    pub duplicate_order-Rejects :
        Rejects (check_duplicate_order E (lowered E req) req now st).0 (IsRepeated E req now st)
    unfolding check_duplicate_order
    duplicate_order-Rejects =
        let window = (lowered_limits E req st).duplicate_window_secs in
        let orders = (get_or_create_tracker E (lowered E req) now.wall st).recent_params in
        elim (Option-cases (
          find_duplicate E req
            (prune_params E (add_duration now.wall (seconds_back window)) orders))) [
              | inl new_ ↦ ground arith
              | inr (p, old) ↦ (λ no_. (ground arith, (p, old)), ground arith)
            ]

    daily_value_result-Rejects :
        (placed : E.Money)
        → Rejects (daily_value_result E (lowered E req) placed req st) (
            (v : E.Money) × (cumulative E placed (notional E req) ≡ some v)
            × (E.greater_than v (lowered_limits E req st).max_daily_value_inr ≡ some true))
    unfolding daily_value_result
    daily_value_result-Rejects placed = elim (Option-cases (cumulative E placed (notional E req))) [
      | inl fails ↦ ground arith
      | inr (v, e) ↦ (λ no_. (v, e, ground arith), ground arith)
    ]

    value_rejects :
        E.tzdata ≡ true
        → (r : CheckResult) (st' : State E)
        → check_daily_value E (lowered E req) req now st ≡ some (r, st')
        → Rejects r (IsDayValueFull E req now st)
    unfolding check_daily_value maybe_reset_day cumulative
    value_rejects tz r st' e = elim (Bool-cases (E.is_positive req.price)) [
      | inr free ↦ let fine : r.allowed ≡ true = ground arith in (λ no_. cc, λ (p, _). cc)
      | inl priced ↦
          let placed = of_today E req now st E.money_zero (λ t. t.daily_placed_value) in
          let same : r ≡ daily_value_result E (lowered E req) placed req st = ground arith in
          let (to, from) = daily_value_result-Rejects placed in
          (
            λ no_. (priced, to (ap (λ (x : CheckResult). x.allowed) (sym same) ∙ no_)),
            λ (_, full). ap (λ (x : CheckResult). x.allowed) same ∙ from full,
          )
    ]

    module _ (tz : E.tzdata ≡ true) where
      pub daily_order_count-Rejects :
          (r : CheckResult) × (st' : State E) × (check_daily_order_count E (lowered E req) now st
            ≡ some (r, st'))
          × Rejects r (IsDayFull E req now st)
      unfolding check_daily_order_count maybe_reset_day
      daily_order_count-Rejects =
          elim (Option-cases (check_daily_order_count E (lowered E req) now st)) [
            | inl panics ↦ absurd (ground arith)
            | inr ((r, st'), e) ↦ (r, st', e, ground arith)
          ]

      pub daily_value-Rejects :
          (r : CheckResult) × (st' : State E) × (check_daily_value E (lowered E req) req now st
            ≡ some (r, st'))
          × Rejects r (IsDayValueFull E req now st)
      unfolding check_daily_value maybe_reset_day
      daily_value-Rejects = elim (Option-cases (check_daily_value E (lowered E req) req now st)) [
        | inl panics ↦ absurd (ground arith)
        | inr ((r, st'), e) ↦ (r, st', e, value_rejects tz r st' e)
      ]

      pub market_hours-Rejects : Rejects (check_market_hours E req now) (IsMarketClosed E req now)
      unfolding check_market_hours
      market_hours-Rejects = ground arith
