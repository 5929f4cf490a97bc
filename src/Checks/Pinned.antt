-- ===== src/Checks/Pinned.antt =====
-- market_hours.go: PinClockToMarketHoursForTest, as the clock that it sets.
use kite_mcp_riskguard.Prelude.{
  ℕ, ◌+◌, ◌-◌, ◌*◌, ◌/◌, ◌≤◌, ◌≡◌, ap, ◌∙◌, true, eqb, if◌then◌else◌, Bool-cases, inl, inr, arith,
}
use kite_mcp_riskguard.Env.{Env, Time}
use kite_mcp_riskguard.Calendar.{day_length, in_ist, weekday_of, minute_of_day, hour_of}
use kite_mcp_riskguard.Model.{OrderCheckRequest, State, Reading}
use kite_mcp_riskguard.Checks.Hours.{check_market_hours, check_off_hours}

-- The days back to the Friday before a weekend.
abbrev pub days_back : ℕ → ℕ
days_back weekday = if eqb weekday 6 then 1 else if eqb weekday 0 then 2 else 0

-- 10:30 of that day, on the local clock.
abbrev pub half_past_ten : ℕ → ℕ
half_past_ten local =
    (local / day_length - days_back (weekday_of local)) * day_length + 37800000000000

module _ (E : Env) where
  -- The instant that the pinned clock shows at `now`; UTC where the zone is missing.
  unfoldable pub pinned_clock : Time → Time
  pinned_clock now =
      if E.tzdata then half_past_ten (in_ist now) - 19800000000000 else half_past_ten now

  pinned_local :
      (now : Time) → E.tzdata ≡ true → in_ist (pinned_clock now) ≡ half_past_ten (in_ist now)
  unfolding pinned_clock
  pinned_local now tz = ground arith

  half_past_ten-weekday :
      (local : ℕ) → (1 ≤ weekday_of (half_past_ten local)) × (weekday_of (half_past_ten local) ≤ 5)
  half_past_ten-weekday local = ground arith

  half_past_ten-minute : (local : ℕ) → minute_of_day (half_past_ten local) ≡ 630
  half_past_ten-minute local = ground arith

  -- A guard whose clock is pinned lets every order pass the market-hours check, at whatever instant it
  -- runs, weekends and nights included, with the zone or without it; and the off-hours check passes too.
  pub pinned_clock-allows :
      (now : Time) (at : Reading) (req : OrderCheckRequest E) (st : State E)
      → at.clock ≡ pinned_clock now
      → ((check_market_hours E req at).allowed ≡ true)
        × ((check_off_hours E req at st).allowed ≡ true)
  unfolding check_market_hours check_off_hours
  pinned_clock-allows now at req st e = elim (Bool-cases E.tzdata) [
    | inr missing ↦ (ground arith, ground arith)
    | inl tz ↦
        let local = ap in_ist e ∙ pinned_local now tz in
        let weekday_ok = half_past_ten-weekday (in_ist now) in
        let minute_ok = half_past_ten-minute (in_ist now) in
        let hour_ok : hour_of (half_past_ten (in_ist now)) ≡ 10 = ground arith in
        (rw local (ground arith), rw local (ground arith))
  ]
