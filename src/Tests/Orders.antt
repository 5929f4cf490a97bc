-- ===== src/Tests/Orders.antt =====
-- The theorems on the chain and on CheckOrder at concrete inputs.
use kite_mcp_riskguard.Prelude.{◌≡◌, refl, ap, true, false, [], ◌∷◌, arith}
use kite_mcp_riskguard.Prelude.Dict.{lookup}
use kite_mcp_riskguard.Model.{CheckResult, allow, reject}
use kite_mcp_riskguard.Lifecycle.{frozen_entry, is_frozen}
use kite_mcp_riskguard.Lifecycle.AutoFreeze.{enabled}
use kite_mcp_riskguard.Limits.{get_effective_limits, fill_defaults}
use kite_mcp_riskguard.Checks.Account.{check_kill_switch, check_confirmation_required}
use kite_mcp_riskguard.Chain.{result, Check, Guard}
use kite_mcp_riskguard.Chain.Order.{IsOrdered}
use kite_mcp_riskguard.Builtin.{
  new_state, kill_switch_check, confirmation_required_check, order_value_check, off_hours_check,
  daily_order_count_check,
}
use kite_mcp_riskguard.CheckOrder.{
  Outcome, returned, hangs, Readings, settle, deliver, run_checks, check_order,
}
use kite_mcp_riskguard.CheckOrder.Laws.{AllPass, rejects, run_checks-first, check_order-allowed_iff}
use kite_mcp_riskguard.CheckOrder.Strikes.{Strike, strike, three_strikes_freeze}
use kite_mcp_riskguard.CheckOrder.KillSwitch.{check_order-hangs}
use kite_mcp_riskguard.Builtin.Registration.{register_all, register_all-blocks_frozen}
use kite_mcp_riskguard.Tests.Sample.{
  sample, bare, order, asha, now, at_second, started, frozen_user, bare_order, bare_guard,
}
use kite_mcp_riskguard.Tests.Runs.{first_order_allowed}

abbrev after : Guard sample
after = (check_order sample started order now).1

check_order-allowed_iff_example :
    (started.state.global_frozen ≡ false)
    × AllPass sample order started.checks now started.state after.state
    × (after.checks ≡ started.checks)
check_order-allowed_iff_example =
    (check_order-allowed_iff sample order started after now).0
      (allow, ap (λ (o : Outcome). (o, after)) first_order_allowed, refl)

abbrev frozen_message : CheckResult
frozen_message =
    reject "trading_frozen" "Trading is frozen for your account. Reason: %s. Contact admin."

confirmed_passes :
    AllPass sample order
      (confirmation_required_check sample ∷ [])
      now
      frozen_user.state
      frozen_user.state
unfolding check_confirmation_required get_effective_limits fill_defaults lookup
confirmed_passes = (allow, frozen_user.state, refl, refl, refl)

stopped_by_freeze :
    (kill_switch_check sample).evaluate order (at_second 0) frozen_user.state
    ≡ (result frozen_message, frozen_user.state)
unfolding check_kill_switch lookup
stopped_by_freeze = refl

run_checks-first_example :
    run_checks sample
      (confirmation_required_check sample
        ∷ kill_switch_check sample
        ∷ order_value_check sample
        ∷ [])
      order
      now
      frozen_user.state
    ≡ deliver sample
        (settle sample (kill_switch_check sample) asha frozen_message now frozen_user.state)
run_checks-first_example =
    run_checks-first sample order (confirmation_required_check sample ∷ [])
      (kill_switch_check sample) (order_value_check sample ∷ []) now frozen_user.state
      frozen_user.state frozen_user.state (result frozen_message) frozen_message confirmed_passes
      stopped_by_freeze (rejects refl)

abbrev guarded : Guard sample
guarded = record {
  checks = kill_switch_check sample ∷ confirmation_required_check sample ∷ [];
  state = frozen_user.state;
}

asha_frozen : is_frozen sample order.email frozen_user.state ≡ true
unfolding is_frozen frozen_entry lookup
asha_frozen = refl

bare_passes :
    AllPass bare bare_order
      (confirmation_required_check bare ∷ [])
      now
      bare_guard.state
      bare_guard.state
unfolding check_confirmation_required get_effective_limits fill_defaults lookup
bare_passes = (allow, bare_guard.state, refl, refl, refl)

check_order-hangs_example : (check_order bare bare_guard bare_order now).0 ≡ hangs
check_order-hangs_example =
    check_order-hangs bare bare_order now bare_guard (confirmation_required_check bare ∷ []) []
      bare_guard.state refl refl refl bare_passes

abbrev strike_at : Check sample → CheckResult → Readings → Strike sample asha
strike_at c r at = record { check = c; rejected = r; at = at }

abbrev too_large : CheckResult
too_large = reject "order_value_limit" "too large"

breaker_on : enabled sample asha started.state ≡ true
unfolding get_effective_limits fill_defaults lookup kite_mcp_riskguard.Builtin.new_guard
breaker_on = refl

abbrev large_at : Readings → Strike sample asha
large_at at = strike_at (order_value_check sample) too_large at

abbrev policy_strike : Strike sample asha
policy_strike = strike_at (kill_switch_check sample) frozen_message now

three_strikes_freeze_example :
    (strike sample asha policy_strike started.state ≡ started.state)
    × (frozen_entry sample asha (
          strike sample asha (large_at (λ i. at_second 290)) (
            strike sample asha
              (large_at (λ i. at_second 20))
              (strike sample asha (large_at now) started.state)))
        ≡ true)
three_strikes_freeze_example =
    three_strikes_freeze sample asha policy_strike (large_at now) (large_at (λ i. at_second 20))
      (large_at (λ i. at_second 290)) started.state refl refl refl refl breaker_on (omega arith)
      (omega arith) (omega arith) (omega arith) (omega arith)

register_all-blocks_frozen_example :
    IsOrdered sample
      (register_all sample (off_hours_check sample ∷ order_value_check sample ∷ []) started).checks
    × (let g : Guard sample =
          record (register_all sample
            (off_hours_check sample ∷ order_value_check sample ∷ [])
            started) { state = frozen_user.state } in
        (r : CheckResult) × (check_order sample g order now ≡ (returned r, g))
        × (r.allowed ≡ false)
        × (r.reason ≡ "trading_frozen"))
register_all-blocks_frozen_example =
    register_all-blocks_frozen sample 0 (off_hours_check sample ∷ order_value_check sample ∷ [])
      frozen_user.state order now (omega arith, (omega arith, tt)) refl asha_frozen
