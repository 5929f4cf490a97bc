-- ===== src/Checks/HoursLaws.antt =====
-- The trading window, in terms of the time of day.
use kite_mcp_riskguard.Prelude.{ℕ, ◌%◌, ◌≤◌, ◌<◌, ◌≡◌, ◌↔◌, ◌⊎◌, true, false, arith}
use kite_mcp_riskguard.Env.{Env}
use kite_mcp_riskguard.Calendar.{in_ist, day_length, weekday_of}
use kite_mcp_riskguard.Model.{OrderCheckRequest, State, Reading}
use kite_mcp_riskguard.Limits.{get_effective_limits}
use kite_mcp_riskguard.Checks.Hours.{is_amo_variety, check_off_hours, check_market_hours}

-- Monday to Friday, 09:15 inclusive to 15:30 exclusive, on a local clock: in nanoseconds of the day.
abbrev pub InSession : ℕ → Type 0
InSession local =
    (1 ≤ weekday_of local)
    × (weekday_of local ≤ 5)
    × (33300000000000 ≤ local % day_length)
    × (local % day_length < 55800000000000)

-- 02:00 inclusive to 06:00 exclusive.
abbrev pub InNight : ℕ → Type 0
InNight local = (7200000000000 ≤ local % day_length) × (local % day_length < 21600000000000)

module _ (E : Env) where
  -- Where the zone is there, the market-hours check allows exactly the after-market orders and the
  -- orders of a weekday's session, for every user, whatever AllowOffHours says; the off-hours check
  -- allows exactly the users with AllowOffHours and the instants outside 02:00 to 06:00. So an order
  -- that the market-hours check allows and the off-hours check rejects is an after-market order.
  pub hours-allowed_iff :
      (req : OrderCheckRequest E) (now : Reading) (st : State E)
      → E.tzdata ≡ true
      → (((check_market_hours E req now).allowed ≡ true)
          ↔ ((is_amo_variety req.variety ≡ true) ⊎ InSession (in_ist now.clock)))
        × (((check_off_hours E req now st).allowed ≡ false) ↔ (
            ((get_effective_limits E req.email st).allow_off_hours ≡ false)
            × InNight (in_ist now.clock)))
        × ¬ (
            ((check_market_hours E req now).allowed ≡ true)
            × ((check_off_hours E req now st).allowed ≡ false)
            × (is_amo_variety req.variety ≡ false))
  unfolding check_market_hours check_off_hours
  hours-allowed_iff req now st tz = (ground arith, ground arith, ground arith)
