-- ===== src/Tests/Users.antt =====
-- The theorems on limits, trackers, freezes and counters at concrete inputs.
use kite_mcp_riskguard.Prelude.{
  Bool, if◌then◌else◌, ◌≡◌, ◌≤◌, ◌↔◌, refl, true, false, some, none, [], ◌∷◌, arith,
}
use kite_mcp_riskguard.Prelude.Int.{pos}
use kite_mcp_riskguard.Prelude.Dict.{lookup}
use kite_mcp_riskguard.Env.{Time}
use kite_mcp_riskguard.Calendar.{unix}
use kite_mcp_riskguard.Model.{State, UserTracker}
use kite_mcp_riskguard.Limits.{
  system_defaults, get_effective_limits, row_of, limits_of_row, persist_limits, load_limits,
}
use kite_mcp_riskguard.Limits.Effective.{
  IsFilled, SameFlags, get_effective_limits-IsFilled, entry_of,
}
use kite_mcp_riskguard.Limits.Restart.{load_limits-persist_limits}
use kite_mcp_riskguard.Trackers.{new_tracker, maybe_reset_day}
use kite_mcp_riskguard.Trackers.DayReset.{Passes, Reset, maybe_reset_day-once}
use kite_mcp_riskguard.Lifecycle.{check_auto_freeze}
use kite_mcp_riskguard.Lifecycle.Breaker.{is_stopped, Fires, check_auto_freeze-Fires}
use kite_mcp_riskguard.PerSecond.Bounds.{admitted, admitted-le_nine}
use kite_mcp_riskguard.Builtin.{new_state}
use kite_mcp_riskguard.Itoa.{itoa, fill}
use kite_mcp_riskguard.Itoa.RoundTrip.{parse, decode}
use kite_mcp_riskguard.Tests.Sample.{sample, asha, at_second, frozen_limits, frozen_user, stored}

get_effective_limits-IsFilled_example :
    IsFilled sample (get_effective_limits sample "ASHA@example.com" frozen_user.state)
    × SameFlags sample
        (get_effective_limits sample "ASHA@example.com" frozen_user.state)
        (entry_of sample (lookup asha frozen_user.state.limits))
get_effective_limits-IsFilled_example =
    get_effective_limits-IsFilled sample "ASHA@example.com" frozen_user.state refl refl

abbrev restarted : State sample
restarted = record (new_state sample 0) {
  db = (persist_limits sample asha frozen_limits 0 stored).db;
}

frozen_at_read :
    (limits_of_row sample (row_of sample asha frozen_limits)).frozen_at ≡ frozen_limits.frozen_at
unfolding limits_of_row row_of itoa fill parse decode
frozen_at_read = refl

load_limits-persist_limits_example :
    ((load_limits sample restarted).0 ≡ none)
    × (lookup asha (load_limits sample restarted).1.limits
        ≡ some (record frozen_limits { allow_off_hours = false }))
unfolding row_of
load_limits-persist_limits_example =
    load_limits-persist_limits sample asha frozen_limits frozen_limits.frozen_at 0
      (row_of sample asha (system_defaults sample) ∷ []) stored restarted [] [] refl refl refl
      frozen_at_read refl tt tt refl refl

abbrev stale : UserTracker sample
stale = record (new_tracker sample 0) { daily_order_count = pos 7 }

abbrev renewed : UserTracker sample
renewed = new_tracker sample (at_second 0).clock

maybe_reset_day-once_example :
    (t' : UserTracker sample) × (did : Bool) × (maybe_reset_day sample (at_second 0).clock stale
      ≡ some (t', did))
    × ((did ≡ true) ↔ Passes stale.day_reset_at (at_second 0).clock)
    × (did ≡ true → Reset sample stale (at_second 0).clock t')
    × (did ≡ false → t' ≡ stale)
    × ((clock' : Time)
        → (t'' : UserTracker sample) × (again : Bool) × (maybe_reset_day sample clock' t'
            ≡ some (t'', again))
          × (did ≡ true → (again ≡ true) ↔ Passes (at_second 0).clock clock'))
maybe_reset_day-once_example = maybe_reset_day-once sample (at_second 0).clock stale refl

abbrev rejected_thrice : State sample
rejected_thrice = record (new_state sample 0) {
  trackers =
      (
        asha,
        record (new_tracker sample 0) {
          recent_rejections = (at_second 0).wall ∷ (at_second 9).wall ∷ (at_second 60).wall ∷ [];
        },
      )
      ∷ [];
}

check_auto_freeze-Fires_example :
    (((check_auto_freeze sample asha (at_second 61).wall rejected_thrice).0 ≡ true)
      ↔ Fires sample asha (at_second 61).wall rejected_thrice)
    × (is_stopped sample asha (check_auto_freeze sample asha (at_second 61).wall rejected_thrice).1
        ≡ (if (check_auto_freeze sample asha (at_second 61).wall rejected_thrice).0
            then true
            else is_stopped sample asha rejected_thrice))
unfolding lookup
check_auto_freeze-Fires_example =
    check_auto_freeze-Fires sample asha (at_second 61).wall rejected_thrice
      (omega arith, (omega arith, (omega arith, tt)))

admitted-le_nine_example :
    admitted sample asha
      (unix (at_second 1).clock)
      ((asha, at_second 0) ∷ (asha, at_second 1) ∷ ("ben@example.com", at_second 1) ∷ [])
      (new_state sample 0)
    ≤ 9
admitted-le_nine_example =
    admitted-le_nine sample asha (unix (at_second 1).clock)
      ((asha, at_second 0) ∷ (asha, at_second 1) ∷ ("ben@example.com", at_second 1) ∷ [])
      (new_state sample 0) refl (omega arith, (omega arith, (omega arith, tt)))
