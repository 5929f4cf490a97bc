-- ===== src/Tests/Acceptance.antt =====
-- The theorems on the rules of a new guard, and on orders in flight, at concrete inputs.
use kite_mcp_riskguard.Prelude.{◌+◌, ◌≤◌, ◌≡◌, ◌⊎◌, refl, true, false, some, arith}
use kite_mcp_riskguard.Prelude.Int.{pos}
use kite_mcp_riskguard.Model.{CheckResult, State}
use kite_mcp_riskguard.Calendar.{unix}
use kite_mcp_riskguard.Checks.BandLaws.{int64-IsInt64}
use kite_mcp_riskguard.Builtin.{new_guard, new_state}
use kite_mcp_riskguard.CheckOrder.{returned, check_order, global_freeze_result}
use kite_mcp_riskguard.CheckOrder.Acceptance.Reasons.{rules}
use kite_mcp_riskguard.CheckOrder.Acceptance.Verdict.{Verdict, check_order-Verdict}
use kite_mcp_riskguard.PerSecond.InFlight.{Flights, Runs}
use kite_mcp_riskguard.PerSecond.InFlight.Bound.{recorded-le}
use kite_mcp_riskguard.PerSecond.InFlight.Full.{recorded-full}
use kite_mcp_riskguard.Tests.Sample.{sample, asha, order, now}

-- A guard with a quote of the instrument.
abbrev quoted : State sample
quoted = record (new_state sample 0) { ltp_lookup = some (λ w e s. (pos 1000000, true)) }

check_order-Verdict_example :
    (r : CheckResult) × ((check_order sample
        (record (new_guard sample 0) { state = quoted })
        order
        now).0
      ≡ returned r)
    × (((quoted.global_frozen ≡ true) × (r ≡ global_freeze_result))
        ⊎ ((quoted.global_frozen ≡ false) × Verdict sample order rules now quoted r))
check_order-Verdict_example =
    check_order-Verdict sample 0 quoted order now refl (λ x. int64-IsInt64 _) (omega arith)

abbrev nobody : Flights sample asha
nobody = record { state = new_state sample 0; clock = (now 0).clock; in_flight = 0 }

recorded-full_example :
    (mid : Flights sample asha) × (y : Flights sample asha) × Runs sample asha 2
      (unix (now 0).clock)
      nobody
      mid
      8
    × (mid.in_flight ≡ 2)
    × Runs sample asha 2 (unix (now 0).clock) mid y 2
    × (y.in_flight ≡ 0)
recorded-full_example =
    recorded-full sample asha (now 0) 2 (new_state sample 0) (omega arith) (omega arith) refl

-- Eight orders are recorded, and two are in flight.
abbrev two_in_flight :
    (mid : Flights sample asha) × Runs sample asha 2 (unix (now 0).clock) nobody mid 8
two_in_flight =
    let (mid, _, run, _, _, _) =
      recorded-full sample asha (now 0) 2 (new_state sample 0) (omega arith) (omega arith) refl in
    (mid, run)

recorded-le_example : 8 ≤ 8 + 2
recorded-le_example =
    recorded-le sample asha 2 (unix (now 0).clock) nobody two_in_flight.0 8 (omega arith) refl refl
      two_in_flight.1
