-- ===== src/Checks/Hours.antt =====
-- The checks on the time of day: checkOffHours of internal_checks.go, and market_hours.go. The test
-- seam marketHoursISTOverride is nil outside tests, so the zone is the one that `tzdata` stands for.
use Prim.Native.Char.{code}
use mathlib.Core.List.{reverse}
use kite_mcp_riskguard.Prelude.{
  ℕ, Bool, false, not, ◌&&◌, ◌||◌, List, [], ◌∷◌, String, eqb, ltb, leb, drop_while, if◌then◌else◌,
}
use kite_mcp_riskguard.Prelude.Int.{pos}
use kite_mcp_riskguard.Env.{Env, int, text, weekday}
use kite_mcp_riskguard.Calendar.{in_ist, hour_of, minute_of_day, weekday_of}
use kite_mcp_riskguard.Model.Reasons.{reason_market_closed, reason_off_hours_blocked}
use kite_mcp_riskguard.Model.{CheckResult, allow, reject, OrderCheckRequest, State, Reading}
use kite_mcp_riskguard.Limits.{get_effective_limits}

abbrev pub codes : String → List ℕ
codes String.[] = []
codes (String.◌∷◌ c s) = code c ∷ codes s

-- `unicode.IsSpace`
abbrev pub is_space : ℕ → Bool
is_space c =
    leb 9 c && leb c 13
    || eqb c 32
    || eqb c 0x85
    || eqb c 0xa0
    || eqb c 0x1680
    || leb 0x2000 c && leb c 0x200a
    || eqb c 0x2028
    || eqb c 0x2029
    || eqb c 0x202f
    || eqb c 0x205f
    || eqb c 0x3000

abbrev pub trim_space : List ℕ → List ℕ
trim_space s = reverse (drop_while is_space (reverse (drop_while is_space s)))

-- A letter of "amo" under `EqualFold`: those letters fold to their two ASCII cases and nothing else.
abbrev either : ℕ → ℕ → ℕ → Bool
either upper lower c = eqb c upper || eqb c lower

abbrev pub equal_fold_amo : List ℕ → Bool
equal_fold_amo (a ∷ m ∷ o ∷ []) = either b'A' b'a' a && either b'M' b'm' m && either b'O' b'o' o
equal_fold_amo _ = false

unfoldable pub is_amo_variety : String → Bool
is_amo_variety variety = equal_fold_amo (trim_space (codes variety))

abbrev pub off_hours_start_ist : ℕ
off_hours_start_ist = 2

abbrev pub off_hours_end_ist : ℕ
off_hours_end_ist = 6

abbrev pub market_open_ist : ℕ
market_open_ist = 555

abbrev pub market_close_ist : ℕ
market_close_ist = 930

module _ (E : Env) where
  unfoldable pub check_off_hours : OrderCheckRequest E → Reading → State E → CheckResult
  check_off_hours req now st =
      let hour = hour_of (in_ist now.clock) in
      if (get_effective_limits E req.email st).allow_off_hours
      then allow
      else if not E.tzdata
      then allow
      else if leb off_hours_start_ist hour && ltb hour off_hours_end_ist
      then reject reason_off_hours_blocked (
          E.sprintf
            "Orders are blocked between %02d:00 and %02d:00 IST. Current IST time: %s. Enable AllowOffHours in risk_limits to opt in to 24/7 trading."
            (int (pos off_hours_start_ist)
              ∷ int (pos off_hours_end_ist)
              ∷ text (E.format_time "15:04 MST" now.clock)
              ∷ []))
      else allow

  unfoldable pub check_market_hours : OrderCheckRequest E → Reading → CheckResult
  check_market_hours req now =
      let local = in_ist now.clock in
      let day = weekday_of local in
      let minute = minute_of_day local in
      if is_amo_variety req.variety
      then allow
      else if not E.tzdata
      then allow
      else if eqb day 6 || eqb day 0
      then reject reason_market_closed (
          E.sprintf
            "NSE/BSE equity-cash market is closed on %s. Use variety=\"amo\" to queue an After-Market Order for the next session, or wait for Monday open (09:15 IST). Current IST: %s."
            (weekday day ∷ text (E.format_time "Mon 15:04 MST" now.clock) ∷ []))
      else if ltb minute market_open_ist || leb market_close_ist minute
      then reject reason_market_closed (
          E.sprintf
            "NSE/BSE equity-cash market is closed (hours: 09:15–15:30 IST, Mon–Fri). Use variety=\"amo\" to queue an After-Market Order for the next session. Current IST: %s."
            (text (E.format_time "Mon 15:04 MST" now.clock) ∷ []))
      else allow
