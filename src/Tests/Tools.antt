-- ===== src/Tests/Tools.antt =====
-- The theorems on the wrapped tool calls at concrete inputs.
use kite_mcp_riskguard.Prelude.{
  ◌≡◌, ◌≢◌, refl, Bool, true, false, some, none, [], ◌∷◌, String, arith, eq_iff,
}
use kite_mcp_riskguard.Prelude.Int.{pos}
use kite_mcp_riskguard.Prelude.Dict.{lookup}
use kite_mcp_riskguard.Model.{CheckResult, allow, UserTracker}
use kite_mcp_riskguard.Limits.{get_effective_limits}
use kite_mcp_riskguard.Trackers.{new_tracker}
use kite_mcp_riskguard.Checks.Account.{check_kill_switch, check_confirmation_required}
use kite_mcp_riskguard.Chain.{Guard}
use kite_mcp_riskguard.Builtin.{new_state, kill_switch_check, confirmation_required_check}
use kite_mcp_riskguard.CheckOrder.{returned, run_checks, proceed, check_order}
use kite_mcp_riskguard.CheckOrder.Laws.{check_order-frozen}
use kite_mcp_riskguard.Middleware.{
  text, float, bool, ToolCall, Handler, forwarded, request_of, is_order_tool,
}
use kite_mcp_riskguard.Middleware.Gate.{
  run, Refuses, Succeeds, Counted, middleware-gate, middleware-counts,
}
use kite_mcp_riskguard.Tests.Sample.{sample, asha, now, at_second}

abbrev buy : ToolCall sample
buy = record {
  name = "place_order";
  arguments =
      ("exchange", text "NSE")
      ∷ ("tradingsymbol", text "INFY")
      ∷ ("quantity", float (pos 100000))
      ∷ ("price", float (pos 1000000))
      ∷ ("confirm", bool true)
      ∷ [];
}

-- A tool that answers with a text, and one that fails.
abbrev placing : Handler sample String
placing = λ call g. ((some "placed", none), g)

abbrev failing : Handler sample String
failing = λ call g. ((none, some "timeout"), g)

abbrev is_failure : String → Bool
is_failure s = false

abbrev suspended : Guard sample
suspended = record {
  checks = kill_switch_check sample ∷ [];
  state = record (new_state sample 0) { global_frozen = true };
}

place_order_is : is_order_tool buy.name ≡ true
unfolding is_order_tool
place_order_is = refl

asha_named : asha ≢ ""
asha_named e = ground (arith, eq_iff asha "", e)

suspended_stops :
    (r : CheckResult)
    → (check_order sample suspended (request_of sample asha buy) now).0 ≡ returned r
    → r.allowed ≡ false
suspended_stops r e =
    ground (arith, check_order-frozen sample (request_of sample asha buy) suspended now refl, e)

middleware-gate_example :
    (run sample (λ s. s) is_failure placing asha buy now (at_second 1) suspended
      ≡ run sample (λ s. s) is_failure failing asha buy now (at_second 1) suspended)
    × ((run sample (λ s. s) is_failure placing asha buy now (at_second 1) suspended).1
        ≡ (check_order sample suspended (request_of sample asha buy) now).1)
    × Refuses sample
        (λ s. s)
        is_failure
        (check_order sample suspended (request_of sample asha buy) now).0
        (run sample (λ s. s) is_failure placing asha buy now (at_second 1) suspended).0
middleware-gate_example =
    middleware-gate sample (λ s. s) is_failure placing failing asha buy now (at_second 1) suspended
      place_order_is asha_named suspended_stops

abbrev morning : UserTracker sample
morning = new_tracker sample (at_second 0).clock

abbrev open_guard : Guard sample
open_guard = record {
  checks = kill_switch_check sample ∷ confirmation_required_check sample ∷ [];
  state = record (new_state sample 0) { trackers = (asha, morning) ∷ [] };
}

order_passes :
    check_order sample open_guard (request_of sample asha buy) now ≡ (returned allow, open_guard)
unfolding check_order run_checks proceed check_kill_switch check_confirmation_required
    get_effective_limits request_of lookup
order_passes = refl

morning_held : lookup asha open_guard.state.trackers ≡ some morning
unfolding lookup
morning_held = refl

middleware-counts_example :
    ((run sample (λ s. s) is_failure placing asha buy now (at_second 1) open_guard).0
      ≡ forwarded (some "placed") none)
    × ((t' : UserTracker sample) × (lookup asha
            (run sample
              (λ s. s)
              is_failure
              placing
              asha
              buy
              now
              (at_second 1)
              open_guard).1.state.trackers
          ≡ some t')
        × (Succeeds sample (λ s. s) is_failure (some "placed") none
            → Counted sample
                (λ s. s)
                is_failure
                (request_of sample asha buy)
                (at_second 1)
                0
                morning
                t')
        × (¬ Succeeds sample (λ s. s) is_failure (some "placed") none → t' ≡ morning))
middleware-counts_example =
    middleware-counts sample (λ s. s) is_failure placing asha buy now (at_second 1) open_guard
      open_guard open_guard allow (some "placed") none morning 0 place_order_is asha_named
      order_passes refl refl refl morning_held (λ (day, after, le). omega (arith, after, le)) refl
      (omega arith)
