-- ===== src/CheckOrder/Alone/Answers.antt =====
-- The built-in checks of a new guard do not disturb one another.
use kite_mcp_riskguard.Prelude.{
  ◌≡◌, ◌≤◌, refl, sym, ap, ◌∙◌, Option, none, some, List, [], ◌∷◌, arith, ◌&◌, if◌then◌else◌,
  length, Option-cases, Bool-cases, inl, inr,
}
use kite_mcp_riskguard.Prelude.Int.{pos, neg_ℤ, leb_ℤ}
use kite_mcp_riskguard.Env.{Env, Time, int}
use kite_mcp_riskguard.Calendar.{add_duration}
use kite_mcp_riskguard.Model.{allow, reject, OrderCheckRequest, RecentOrder, State, Reading}
use kite_mcp_riskguard.Limits.{get_effective_limits}
use kite_mcp_riskguard.Lifecycle.{prune}
use kite_mcp_riskguard.Trackers.{get_or_create_tracker, maybe_reset_day}
use kite_mcp_riskguard.PerSecond.{check_per_second_rate}
use kite_mcp_riskguard.Checks.Rates.{
  check_rate_limit, check_client_order_id_duplicate, check_duplicate_order, find_duplicate,
  prune_params, duplicate_result, seconds_back,
}
use kite_mcp_riskguard.Checks.Values.{
  check_daily_value, daily_value_result, check_anomaly_multiplier,
}
use kite_mcp_riskguard.Checks.Bands.{check_otr_band}
use kite_mcp_riskguard.Checks.Hours.{check_off_hours}
use kite_mcp_riskguard.Chain.{Eval, result, panicked_locked, Check}
use kite_mcp_riskguard.Builtin.{
  builtin_checks, daily_order_count_check, missing_location, per_second_rate_check,
  rate_limit_check, client_order_id_dup_check, duplicate_order_check, daily_value_check,
  otr_band_check, anomaly_multiplier_check, off_hours_check,
}
use kite_mcp_riskguard.CheckOrder.{Readings}
use kite_mcp_riskguard.CheckOrder.Alone.{AnswersAsIn}
use kite_mcp_riskguard.CheckOrder.Alone.Trackers.{
  core, orders, params, day_value, orders_lem, params_lem,
}
use kite_mcp_riskguard.CheckOrder.Alone.Kept.{
  key, Alike-trans, daily_order_count-AlikeAll, rate_limit-Alike, client_order_id-Alike,
  duplicate_order-Alike, daily_value-rules,
}

module _ (E : Env) (req : OrderCheckRequest E) where
  -- The two states have the same rules.
  abbrev SameRules : State E → State E → Type 0
  SameRules s st = core E (key E req) s ≡ core E (key E req) st

  abbrev Answers : Check E → Reading → State E → State E → Type 0
  Answers c now s st = (c.evaluate req now s).0 ≡ (c.evaluate req now st).0

  module _ (now : Reading) (s st : State E) (rules : SameRules s st) where
    per_second-Answers : Answers (per_second_rate_check E) now s st
    unfolding check_per_second_rate
    per_second-Answers = ap (λ x. ((per_second_rate_check E).evaluate req now x).0) rules

    check_otr_band-same : check_otr_band E req s ≡ check_otr_band E req st
    unfolding check_otr_band
    check_otr_band-same = ap (check_otr_band E req) rules

    otr_band-Answers : Answers (otr_band_check E) now s st
    otr_band-Answers = elim (Option-cases (check_otr_band E req st)) [
      | inl panics ↦ ground (arith, check_otr_band-same)
      | inr (r, e) ↦ ground (arith, check_otr_band-same)
    ]

    anomaly-Answers : Answers (anomaly_multiplier_check E) now s st
    unfolding check_anomaly_multiplier
    anomaly-Answers = ap (λ x. ((anomaly_multiplier_check E).evaluate req now x).0) rules

    off_hours-Answers : Answers (off_hours_check E) now s st
    unfolding check_off_hours get_effective_limits
    off_hours-Answers = ap (λ x. ((off_hours_check E).evaluate req now x).0) rules

    client_order_id-Answers : s.dedup ≡ st.dedup → Answers (client_order_id_dup_check E) now s st
    unfolding check_client_order_id_duplicate
    client_order_id-Answers same = ground (arith, same)

  -- What the rate limit answers on a window of orders.
  rate_result : Reading → State E → List Time → Eval
  rate_result now st os =
      let cap = (get_effective_limits E (key E req) st).max_orders_per_minute in
      let count = pos (length (prune (add_duration now.wall (neg_ℤ (pos 60000000000))) os)) in
      result (
        if leb_ℤ cap count
        then reject "rate_limit"
            (E.sprintf "%d orders in last minute (limit: %d)" (int count ∷ int cap ∷ []))
        else allow)

  rate_limit_lem :
      (now : Reading) (s : State E)
      → ((rate_limit_check E).evaluate req now s).0
        ≡ rate_result now (core E (key E req) s) (orders E (key E req) s)
  unfolding check_rate_limit rate_result get_effective_limits
  rate_limit_lem now s = ap (rate_result now s) (orders_lem E (key E req) now.wall s)

  duplicates_result : Reading → State E → List RecentOrder → Eval
  duplicates_result now st ps =
      let window = (get_effective_limits E (key E req) st).duplicate_window_secs in
      result (
        if leb_ℤ window (pos 0)
        then allow
        else duplicate_result E req now.wall (
            find_duplicate E req (prune_params E (add_duration now.wall (seconds_back window)) ps)))

  duplicate_order_lem :
      (now : Reading) (s : State E)
      → ((duplicate_order_check E).evaluate req now s).0
        ≡ duplicates_result now (core E (key E req) s) (params E (key E req) s)
  unfolding check_duplicate_order duplicates_result get_effective_limits
  duplicate_order_lem now s =
      let window = (get_effective_limits E (key E req) s).duplicate_window_secs in
      elim (Bool-cases (leb_ℤ window (pos 0))) [
        | inl off ↦ ground arith
        | inr on ↦ ground (arith, params_lem E (key E req) now.wall s)
      ]

  value_result : State E → Option E.Money → Eval
  value_result st o =
      if E.is_positive req.price
      then (elim o [
        | none ↦ panicked_locked missing_location
        | some v ↦ result (daily_value_result E (key E req) v req st)
      ])
      else result allow

  daily_value_lem :
      (now : Reading) (s : State E)
      → ((daily_value_check E).evaluate req now s).0
        ≡ value_result (core E (key E req) s) (day_value E (key E req) now.clock now.wall s)
  unfolding check_daily_value value_result daily_value_result get_effective_limits
  daily_value_lem now s =
      elim (Option-cases
        (maybe_reset_day E now.clock (get_or_create_tracker E (key E req) now.wall s))) [
          | inl panics ↦ ground arith
          | inr ((t, did_reset), e) ↦ ground arith
        ]

  module _ (now : Reading) (s st : State E) (rules : SameRules s st) where
    rate_limit-Answers :
        orders E (key E req) s ≡ orders E (key E req) st → Answers (rate_limit_check E) now s st
    rate_limit-Answers same =
        rate_limit_lem now s
        ∙ (λ i. rate_result now (rules i) (same i))
        ∙ sym (rate_limit_lem now st)

    duplicate_order-Answers :
        params E (key E req) s ≡ params E (key E req) st
        → Answers (duplicate_order_check E) now s st
    duplicate_order-Answers same =
        duplicate_order_lem now s
        ∙ (λ i. duplicates_result now (rules i) (same i))
        ∙ sym (duplicate_order_lem now st)

    daily_value-Answers :
        day_value E (key E req) now.clock now.wall s ≡ day_value E (key E req) now.clock now.wall st
        → Answers (daily_value_check E) now s st
    daily_value-Answers same =
        daily_value_lem now s
        ∙ (λ i. value_result (rules i) (same i))
        ∙ sym (daily_value_lem now st)

  otr_band_keeps : (now : Reading) (s : State E) → ((otr_band_check E).evaluate req now s).1 ≡ s
  otr_band_keeps now s = elim (Option-cases (check_otr_band E req s)) [
    | inl panics ↦ ground arith
    | inr (r, e) ↦ ground arith
  ]

  -- Run one after another, the built-in checks answer as each in the state at the start, if the clock
  -- does not go back between the two checks that reset the day.
  pub builtin_checks-AnswersAsIn :
      (at : Readings) (st : State E)
      → (at 6).clock ≤ (at 11).clock
      → AnswersAsIn E req st (builtin_checks E) at st
  builtin_checks-AnswersAsIn at st le =
      let (after_count, dedup₁, params₁, orders₁) = daily_order_count-AlikeAll E req (at 6) st in
      let s₁ = ((daily_order_count_check E).evaluate req (at 6) st).1 in
      let (rate_kept, dedup₂, params₂) = rate_limit-Alike E req (at 6).clock (at 8) s₁ in
      let s₂ = ((rate_limit_check E).evaluate req (at 8) s₁).1 in
      let after_rate = Alike-trans E req after_count rate_kept in
      let (key_kept, params₃) = client_order_id-Alike E req (at 6).clock (at 9) s₂ in
      let s₃ = ((client_order_id_dup_check E).evaluate req (at 9) s₂).1 in
      let after_key = Alike-trans E req after_rate key_kept in
      let s₄ = ((duplicate_order_check E).evaluate req (at 10) s₃).1 in
      let after_duplicates =
        Alike-trans E req after_key (duplicate_order-Alike E req (at 6).clock (at 10) s₃) in
      let s₅ = ((daily_value_check E).evaluate req (at 11) s₄).1 in
      let rules₅ = daily_value-rules E req (at 11) s₄ ∙ after_duplicates.rules in
      let s₆ = ((otr_band_check E).evaluate req (at 12) s₅).1 in
      let rules₆ = ap (core E (key E req)) (otr_band_keeps (at 12) s₅) ∙ rules₅ in
      refl
      & refl
      & refl
      & refl
      & refl
      & refl
      & refl
      & per_second-Answers (at 7) s₁ st after_count.rules
      & rate_limit-Answers (at 8) s₁ st after_count.rules orders₁
      & client_order_id-Answers (at 9) s₂ st after_rate.rules (dedup₂ ∙ dedup₁)
      & duplicate_order-Answers (at 10) s₃ st after_key.rules (params₃ ∙ params₂ ∙ params₁)
      & daily_value-Answers (at 11) s₄ st after_duplicates.rules
          (after_duplicates.value (at 11).clock (at 11).wall le)
      & otr_band-Answers (at 12) s₅ st rules₅
      & anomaly-Answers (at 13) s₆ st rules₆
      & off_hours-Answers (at 14) s₆ st rules₆
      & refl
      & tt
