-- ===== src/CheckOrder/Acceptance/Reasons.antt =====
-- The rules of a new guard as a table: the breach, the check and the reason of each, in the order of the
-- chain.
use kite_mcp_riskguard.Prelude.{◌≡◌, refl, true, false, List, [], ◌∷◌, String, arith, map}
use kite_mcp_riskguard.Env.{Env}
use kite_mcp_riskguard.Model.{CheckResult, OrderCheckRequest, State, Reading}
use kite_mcp_riskguard.Lifecycle.{is_frozen}
use kite_mcp_riskguard.Checks.BandLaws.{IsInt64, IsOutsideBand, check_otr_band-returns}
use kite_mcp_riskguard.Checks.HoursLaws.{hours-allowed_iff}
use kite_mcp_riskguard.Chain.{Check, result}
use kite_mcp_riskguard.Builtin.{
  builtin_checks, kill_switch_check, confirmation_required_check, order_value_check, margin_check,
  circuit_limit_check, quantity_limit_check, daily_order_count_check, per_second_rate_check,
  rate_limit_check, client_order_id_dup_check, duplicate_order_check, daily_value_check,
  otr_band_check, anomaly_multiplier_check, off_hours_check, market_hours_check,
}
use kite_mcp_riskguard.CheckOrder.Acceptance.{
  lowered, IsUnconfirmed, IsTooLarge, IsUnfunded, IsOutsideCircuit, IsOverFreezeQuantity, IsDayFull,
  IsSecondFull, IsMinuteFull, IsKeyReused, IsRepeated, IsDayValueFull, IsAnomalous, IsInOffHours,
  IsMarketClosed,
}
use kite_mcp_riskguard.CheckOrder.Acceptance.Rules.{
  Rejects, kill_switch-Rejects, confirmation-Rejects, order_value-Rejects, margin-Rejects,
  circuit-Rejects, quantity-Rejects, anomaly-Rejects, per_second-Rejects, rate_limit-Rejects,
  client_order_id-Rejects, duplicate_order-Rejects, daily_order_count-Rejects, daily_value-Rejects,
  market_hours-Rejects,
}
use kite_mcp_riskguard.CheckOrder.Acceptance.Given.{
  anomaly-Gives, circuit-Gives, client_order_id-Gives, confirmation-Gives, daily_order_count-Gives,
  daily_value-Gives, duplicate_order-Gives, kill_switch-Gives, margin-Gives, market_hours-Gives,
  off_hours-Gives, order_value-Gives, otr_band-Gives, per_second-Gives, quantity-Gives,
  rate_limit-Gives,
}

pub data Rule : Type 0 where
  kill_switch confirmation order_value margin circuit freeze_quantity : Rule
  day second minute key repeated day_value band anomaly off_hours session : Rule

abbrev pub rules : List Rule
rules =
    kill_switch ∷ confirmation ∷ order_value ∷ margin ∷ circuit ∷ freeze_quantity ∷ day ∷ second
    ∷ minute ∷ key ∷ repeated ∷ day_value ∷ band ∷ anomaly ∷ off_hours ∷ session ∷ []

-- The reason that a user is given.
abbrev pub reason_of : Rule → String
reason_of kill_switch = "trading_frozen"
reason_of confirmation = "confirmation_required"
reason_of order_value = "order_value_limit"
reason_of margin = "insufficient_margin"
reason_of circuit = "circuit_breached"
reason_of freeze_quantity = "quantity_limit"
reason_of day = "daily_order_limit"
reason_of second = "per_second_rate_exceeded"
reason_of minute = "rate_limit"
reason_of key = "duplicate_order"
reason_of repeated = "duplicate_order"
reason_of day_value = "daily_value_limit"
reason_of band = "otr_band_violation"
reason_of anomaly = "anomaly_high"
reason_of off_hours = "off_hours_blocked"
reason_of session = "market_closed"

module _ (E : Env) where
  abbrev pub check_of : Rule → Check E
  check_of kill_switch = kill_switch_check E
  check_of confirmation = confirmation_required_check E
  check_of order_value = order_value_check E
  check_of margin = margin_check E
  check_of circuit = circuit_limit_check E
  check_of freeze_quantity = quantity_limit_check E
  check_of day = daily_order_count_check E
  check_of second = per_second_rate_check E
  check_of minute = rate_limit_check E
  check_of key = client_order_id_dup_check E
  check_of repeated = duplicate_order_check E
  check_of day_value = daily_value_check E
  check_of band = otr_band_check E
  check_of anomaly = anomaly_multiplier_check E
  check_of off_hours = off_hours_check E
  check_of session = market_hours_check E

  pub map-check_of : map check_of rules ≡ builtin_checks E
  map-check_of = refl

  module _ (req : OrderCheckRequest E) where
    abbrev pub IsBreached : Rule → Reading → State E → Type 0
    IsBreached kill_switch now st = is_frozen E req.email st ≡ true
    IsBreached confirmation now st = IsUnconfirmed E req st
    IsBreached order_value now st = IsTooLarge E req st
    IsBreached margin now st = IsUnfunded E req st
    IsBreached circuit now st = IsOutsideCircuit E req st
    IsBreached freeze_quantity now st = IsOverFreezeQuantity E req st
    IsBreached day now st = IsDayFull E req now st
    IsBreached second now st = IsSecondFull E req now st
    IsBreached minute now st = IsMinuteFull E req now st
    IsBreached key now st = IsKeyReused E req now st
    IsBreached repeated now st = IsRepeated E req now st
    IsBreached day_value now st = IsDayValueFull E req now st
    IsBreached band now st = IsOutsideBand E req st
    IsBreached anomaly now st = IsAnomalous E req st
    IsBreached off_hours now st = IsInOffHours E req now st
    IsBreached session now st = IsMarketClosed E req now

    -- The check of the rule answers, rejects exactly the breach, and gives the rule's reason.
    abbrev pub Decides : Rule → Reading → State E → Type 0
    Decides x now st =
        (r : CheckResult) × (((check_of x).evaluate req now st).0 ≡ result r)
        × Rejects r (IsBreached x now st)
        × (r.allowed ≡ false → r.reason ≡ reason_of x)

    module _ (tz : E.tzdata ≡ true) (truncates : (x : E.Float) → IsInt64 (E.truncate x))
        (now : Reading) (st : State E) where
      pub rule-Decides : (x : Rule) → Decides x now st
      rule-Decides kill_switch =
          (_, refl, kill_switch-Rejects E req st, kill_switch-Gives E req (lowered E req) now st)
      rule-Decides confirmation =
          (_, refl, confirmation-Rejects E req st, confirmation-Gives E req (lowered E req) now st)
      rule-Decides order_value =
          (_, refl, order_value-Rejects E req st, order_value-Gives E req (lowered E req) now st)
      rule-Decides margin =
          (_, refl, margin-Rejects E req st, margin-Gives E req (lowered E req) now st)
      rule-Decides circuit =
          (_, refl, circuit-Rejects E req st, circuit-Gives E req (lowered E req) now st)
      rule-Decides freeze_quantity =
          (_, refl, quantity-Rejects E req st, quantity-Gives E req (lowered E req) now st)
      rule-Decides day =
          let (r, st', e, rejects) = daily_order_count-Rejects E req now st tz in
          (
            r,
            ground (arith, e),
            rejects,
            daily_order_count-Gives E req (lowered E req) now st r st' e,
          )
      rule-Decides second =
          (_, refl, per_second-Rejects E req now st, per_second-Gives E req (lowered E req) now st)
      rule-Decides minute =
          (_, refl, rate_limit-Rejects E req now st, rate_limit-Gives E req (lowered E req) now st)
      rule-Decides key = (
        _,
        refl,
        client_order_id-Rejects E req now st,
        client_order_id-Gives E req (lowered E req) now st,
      )
      rule-Decides repeated = (
        _,
        refl,
        duplicate_order-Rejects E req now st,
        duplicate_order-Gives E req (lowered E req) now st,
      )
      rule-Decides day_value =
          let (r, st', e, rejects) = daily_value-Rejects E req now st tz in
          (r, ground (arith, e), rejects, daily_value-Gives E req (lowered E req) now st r st' e)
      rule-Decides band =
          let (r, e, rejects) = check_otr_band-returns E truncates req st in
          (r, ground (arith, e), rejects, otr_band-Gives E req (lowered E req) now st r e)
      rule-Decides anomaly =
          (_, refl, anomaly-Rejects E req st, anomaly-Gives E req (lowered E req) now st)
      rule-Decides off_hours = (
        _,
        refl,
        (hours-allowed_iff E req now st tz).1,
        off_hours-Gives E req (lowered E req) now st,
      )
      rule-Decides session = (
        _,
        refl,
        market_hours-Rejects E req now st tz,
        market_hours-Gives E req (lowered E req) now st,
      )
