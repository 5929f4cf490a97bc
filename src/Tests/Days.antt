-- ===== src/Tests/Days.antt =====
-- The theorems on recorded orders, other users and the global freeze at concrete inputs.
use kite_mcp_riskguard.Prelude.{
  ◌≡◌, ◌≢◌, ◌↔◌, refl, true, false, Option, some, none, List, [], ◌∷◌, arith, eq_iff,
}
use kite_mcp_riskguard.Prelude.Int.{pos, ◌≤ℤ◌}
use kite_mcp_riskguard.Prelude.Dict.{lookup}
use kite_mcp_riskguard.Model.{State, UserTracker, CheckResult, OrderCheckRequest, Reading}
use kite_mcp_riskguard.Limits.{get_effective_limits}
use kite_mcp_riskguard.Trackers.{
  new_tracker, get_or_create_tracker, put_tracker, maybe_reset_day, dispatch_daily_reset_if_needed,
}
use kite_mcp_riskguard.Calendar.{reset_time}
use kite_mcp_riskguard.Lifecycle.{get_global_freeze_status, is_frozen}
use kite_mcp_riskguard.Lifecycle.GlobalFreeze.{
  Switch, on, off, last_status, transitions, switch, switch-transitions,
}
use kite_mcp_riskguard.PerSecond.{record_per_second_order}
use kite_mcp_riskguard.Checks.Rates.{check_daily_order_count, check_duplicate_order}
use kite_mcp_riskguard.Chain.{Guard}
use kite_mcp_riskguard.Builtin.{new_state, builtin_checks}
use kite_mcp_riskguard.CheckOrder.{check_order, record_order, count_order}
use kite_mcp_riskguard.CheckOrder.Isolation.{SameFor, check_order-SameFor}
use kite_mcp_riskguard.CheckOrder.BuiltinIsolation.{builtin_checks-KeepsOthers}
use kite_mcp_riskguard.CheckOrder.DailyCap.{record_all, check_daily_order_count-record_all}
use kite_mcp_riskguard.CheckOrder.Recorded.{check_duplicate_order-record_order}
use kite_mcp_riskguard.Tests.Sample.{sample, asha, order, now, at_second}

abbrev watched : State sample
watched = record (new_state sample 0) { has_dispatcher = true }

abbrev switches : List Switch
switches = on "admin" "drill" 5 ∷ on "ops" "outage" 6 ∷ off 9 ∷ []

switch-transitions_example :
    (get_global_freeze_status sample (switch sample switches watched)
      ≡ last_status switches (get_global_freeze_status sample watched))
    × ((switch sample switches watched).sent ≡ transitions false switches [])
switch-transitions_example = switch-transitions sample switches watched

abbrev built_in : Guard sample
built_in = record { checks = builtin_checks sample; state = new_state sample 0 }

ben_differs : asha ≢ "ben@example.com"
ben_differs e = ground (arith, eq_iff asha "ben@example.com", e)

check_order-SameFor_example :
    SameFor sample "ben@example.com" built_in.state (check_order sample built_in order now).1.state
    × (is_frozen sample "ben@example.com" (check_order sample built_in order now).1.state
        ≡ is_frozen sample "ben@example.com" built_in.state)
check_order-SameFor_example =
    check_order-SameFor sample built_in order now "ben@example.com" ben_differs
      (builtin_checks-KeepsOthers sample)

abbrev today : UserTracker sample
today = record (new_tracker sample (at_second 0).clock) { daily_order_count = pos 18 }

abbrev busy : State sample
busy = record (new_state sample 0) { trackers = (asha, today) ∷ [] }

abbrev two_orders : List (Option (OrderCheckRequest sample) × Reading)
two_orders = (some order, at_second 5) ∷ (none, at_second 8) ∷ []

asha_held : lookup asha busy.trackers ≡ some today
unfolding lookup
asha_held = refl

check_daily_order_count-record_all_example :
    (end : State sample) × (record_all sample asha two_orders busy ≡ some end)
    × (r : CheckResult) × (st' : State sample) × (check_daily_order_count sample asha
          (at_second 9)
          end
        ≡ some (r, st'))
    × ((r.allowed ≡ false) ↔ ((get_effective_limits sample asha busy).max_orders_per_day ≤ℤ pos 20))
unfolding reset_time
check_daily_order_count-record_all_example =
    check_daily_order_count-record_all sample asha two_orders (at_second 9) busy today 18
      (at_second 0).clock refl asha_held refl refl (omega arith) (omega arith, (omega arith, tt))
      (omega arith)

abbrev recorded : State sample
recorded =
    put_tracker sample asha (count_order sample (some order) (at_second 0) today)
      (record_per_second_order sample asha (at_second 0) busy)

order_recorded : record_order sample order.email (some order) (at_second 0) busy ≡ some recorded
unfolding record_order record_per_second_order get_or_create_tracker maybe_reset_day reset_time
    lookup dispatch_daily_reset_if_needed
order_recorded = refl

default_window : (get_effective_limits sample asha recorded).duplicate_window_secs ≡ pos 30
unfolding get_effective_limits lookup put_tracker record_per_second_order
default_window = refl

check_duplicate_order-record_order_example :
    ((check_duplicate_order sample asha order (at_second 30) recorded).0.allowed ≡ false)
    × ((check_duplicate_order sample asha order (at_second 30) recorded).0.reason
        ≡ "duplicate_order")
check_duplicate_order-record_order_example =
    check_duplicate_order-record_order sample order order (at_second 0) (at_second 30) busy recorded
      30 order_recorded refl default_window (omega arith) (omega arith) (omega arith) (omega arith)
