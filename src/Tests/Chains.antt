-- ===== src/Tests/Chains.antt =====
-- The theorems on registration, on runs that return, on restarts and on the rate limit at concrete inputs.
use kite_mcp_riskguard.Prelude.{
  ◌≢◌, inl, Bool, ◌==◌, eq_iff, if◌then◌else◌, ◌≡◌, refl, true, false, some, none, List, [], ◌∷◌,
  arith,
}
use kite_mcp_riskguard.Prelude.Dict.{lookup}
use kite_mcp_riskguard.Model.{CheckResult, UserTracker, State}
use kite_mcp_riskguard.Limits.{
  system_defaults, row_of, load_limits, get_or_create_limits, get_effective_limits,
}
use kite_mcp_riskguard.Trackers.{new_tracker}
use kite_mcp_riskguard.Calendar.{reset_time}
use kite_mcp_riskguard.CheckOrder.DailyValue.{place_all, Fits, place_all-Fits}
use kite_mcp_riskguard.Lifecycle.{freeze, is_frozen}
use kite_mcp_riskguard.Chain.{Check, Guard}
use kite_mcp_riskguard.Builtin.{new_state, new_guard, kill_switch_check}
use kite_mcp_riskguard.Builtin.Registration.{register_all}
use kite_mcp_riskguard.CheckOrder.{returned, check_order}
use kite_mcp_riskguard.CheckOrder.Returns.{NeverLocks, check_order-Returns}
use kite_mcp_riskguard.CheckOrder.Restarted.{check_order-freeze}
use kite_mcp_riskguard.CheckOrder.MinuteWindow.Log.{
  Event, placed, checked, answers, answers_of_log, check_rate_limit-refines,
}
use kite_mcp_riskguard.Subprocess.Registration.{subprocess_check}
use kite_mcp_riskguard.Tests.Sample.{sample, order, asha, now, at_second, stored}
use kite_mcp_riskguard.Tests.Hosted.{demo, hosted, cells, no_cells, example_config, hosted_order}

abbrev plugin : Check hosted
plugin = subprocess_check hosted demo cells example_config 0

plugin-NeverLocks : NeverLocks hosted plugin
plugin-NeverLocks req at st v e = ground arith

check_order-Returns_example :
    let g : Guard hosted = record (register_all hosted (plugin ∷ []) (new_guard hosted no_cells)) {
      state = new_state hosted no_cells;
    } in
    (r : CheckResult) × ((check_order hosted g hosted_order now).0 ≡ returned r)
check_order-Returns_example =
    check_order-Returns hosted no_cells (plugin ∷ []) (new_state hosted no_cells) hosted_order now
      refl (plugin-NeverLocks, tt)

-- A guard with a database and an entry of the user, and the guard of the next process.
abbrev served : State sample
served = record stored { limits = (asha, system_defaults sample) ∷ [] }

abbrev next : State sample
next = record (new_state sample 0) { db = (freeze sample order.email "admin" "review" 7 served).db }

check_order-freeze_example :
    let (err, loaded) = load_limits sample next in
    let g : Guard sample = record { checks = kill_switch_check sample ∷ []; state = loaded } in
    (err ≡ none)
    × (is_frozen sample order.email loaded ≡ true)
    × (r : CheckResult) × (check_order sample g order now ≡ (returned r, g))
    × (r.allowed ≡ false)
    × (r.reason ≡ "trading_frozen")
unfolding row_of get_or_create_limits lookup
check_order-freeze_example =
    check_order-freeze sample order.email "admin" "review" 7
      (row_of sample asha (system_defaults sample) ∷ []) served next [] [] [] order now refl refl
      refl refl refl tt tt refl refl refl

-- Two orders, five seconds apart, and a check after each and after a minute.
abbrev events : List (Event sample)
events =
    placed none (at_second 0)
    ∷ checked (at_second 2)
    ∷ placed (some order) (at_second 5)
    ∷ checked (at_second 6)
    ∷ checked (at_second 61)
    ∷ []

check_rate_limit-refines_example :
    answers sample order.email events (new_state sample 0)
    ≡ some (
        answers_of_log sample
          (get_effective_limits sample asha (new_state sample 0)).max_orders_per_minute
          events
          [])
unfolding lookup
check_rate_limit-refines_example =
    check_rate_limit-refines sample order.email events (new_state sample 0) refl refl
      (omega arith, (omega arith, (omega arith, (omega arith, (omega arith, tt)))))

-- A tracker of the day, and two orders of a thousand rupees.
abbrev today : UserTracker sample
today = new_tracker sample (at_second 0).clock

abbrev trading : State sample
trading = record (new_state sample 0) { trackers = (asha, today) ∷ [] }

compared : (b x : Bool) → b ≡ true → (if b then some x else none) ≢ none
compared true x e = λ no_. cc
compared false x e = λ no_. cc

rupees_compare :
    (m : sample.Money)
    → m.1 ≡ "INR"
    → sample.greater_than m (system_defaults sample).max_daily_value_inr ≢ none
rupees_compare m inr = compared (m.1 == "INR") _ ((eq_iff m.1 "INR").1 inr)

rupees_sum :
    (a b total : sample.Money)
    → a.1 ≡ "INR"
    → b.1 ≡ "INR"
    → sample.add a b ≡ some total
    → total.1 ≡ "INR"
rupees_sum a b total x y e = ground arith

place_all-Fits_example :
    (end : State sample) × (t' : UserTracker sample) × (place_all sample order.email
        ((order, at_second 1) ∷ (order, at_second 2) ∷ [])
        trading
      ≡ some end)
    × (lookup asha end.trackers ≡ some t')
    × Fits sample
        (system_defaults sample).max_daily_value_inr
        (λ m. m.1 ≡ "INR")
        rupees_compare
        rupees_sum
        t'.daily_placed_value
unfolding get_effective_limits lookup reset_time
place_all-Fits_example =
    place_all-Fits sample (system_defaults sample).max_daily_value_inr (λ m. m.1 ≡ "INR")
      rupees_compare rupees_sum order.email ((order, at_second 1) ∷ (order, at_second 2) ∷ [])
      trading today (at_second 0).clock refl refl refl refl
      ((omega arith, refl), ((omega arith, refl), tt)) (inl refl)
