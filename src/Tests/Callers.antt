-- ===== src/Tests/Callers.antt =====
-- The theorems on concurrent calls of CheckOrder at concrete runs.
use kite_mcp_riskguard.Prelude.{Bool, String, arith, inl, ◌≡◌, refl, false, List, [], ◌∷◌, All}
use kite_mcp_riskguard.Prelude.Int.{pos}
use kite_mcp_riskguard.Prelude.Dict.{lookup, insert}
use kite_mcp_riskguard.Model.{allow, CheckResult, State}
use kite_mcp_riskguard.Lifecycle.{freeze_global, record_rejection, check_auto_freeze}
use kite_mcp_riskguard.Checks.Account.{check_kill_switch, check_confirmation_required}
use kite_mcp_riskguard.Limits.{get_effective_limits, fill_defaults}
use kite_mcp_riskguard.Chain.{Check, Guard, result}
use kite_mcp_riskguard.Builtin.{
  new_state, kill_switch_check, confirmation_required_check, client_order_id_dup_check,
}
use kite_mcp_riskguard.CheckOrder.{returned}
use kite_mcp_riskguard.CheckOrder.Laws.{rejects}
use kite_mcp_riskguard.CheckOrder.Concurrent.Keys.{InTime}
use kite_mcp_riskguard.CheckOrder.Concurrent.Keys.Once.{StepsInTime, done-once}
use kite_mcp_riskguard.Dedup.{default_dedup_ttl, new_dedup, hash_key, seen_or_add, seen_or_add_key}
use kite_mcp_riskguard.Checks.Rates.{check_client_order_id_duplicate}
use kite_mcp_riskguard.CheckOrder.Concurrent.{
  enters, unfrozen, walks, done, passes, snapshot, allows, finishes, rejected, recorded, noted,
  stops, records, breaks, System, moved, goes, changes, Steps, here, then_,
}
use kite_mcp_riskguard.CheckOrder.Concurrent.Allowed.{Asked, Walked, done-Asked}
use kite_mcp_riskguard.Tests.Sample.{sample, order, at_second}

abbrev gates : List (Check sample)
gates = kill_switch_check sample ∷ confirmation_required_check sample ∷ []

abbrev gated : Guard sample
gated = record { checks = gates; state = new_state sample 0 }

-- An administrator freezes trading.
abbrev suspended : Guard sample
suspended = record gated { state = freeze_global sample "admin" "stop" 0 gated.state }

abbrev at_the_door : System sample
at_the_door = record { guard = gated; phase = λ i. enters }

-- The call is past its test when the freeze comes.
abbrev interrupted : System sample
interrupted = record (moved sample at_the_door 0 gated unfrozen) { guard = suspended }

abbrev walking : List (Check sample) → System sample → System sample
walking cs x = moved sample x 0 suspended (walks cs)

abbrev passed : System sample
passed = walking [] (walking (confirmation_required_check sample ∷ []) (walking gates interrupted))

abbrev finished : System sample
finished = moved sample passed 0 suspended (done (returned allow))

let_through : Steps sample (λ i. order) at_the_door finished
unfolding check_kill_switch check_confirmation_required freeze_global get_effective_limits lookup
    fill_defaults
let_through =
    then_
      (then_
        (then_
          (then_ (then_ (then_ here (goes 0 (passes refl))) (changes suspended)) (goes 0 snapshot))
          (goes 0 (allows (kill_switch_check sample) (at_second 0) allow refl refl)))
        (goes 0 (allows (confirmation_required_check sample) (at_second 0) allow refl refl)))
      (goes 0 finishes)

done-Asked_example :
    (w : Walked sample (λ i. order) 0 let_through []) × All
      (Asked sample (λ i. order) 0 w.since)
      w.taken.guard.checks
done-Asked_example =
    done-Asked sample (λ i. order) at_the_door finished 0 allow let_through refl refl refl

-- Two calls with one key, on a chain of the check of keys alone.
abbrev keys_alone : List (Check sample)
keys_alone = client_order_id_dup_check sample ∷ []

abbrev fresh_guard : Guard sample
fresh_guard = record { checks = keys_alone; state = new_state sample 0 }

abbrev submit : State sample → CheckResult × State sample
submit st = check_client_order_id_duplicate sample order (at_second 0) st

abbrev after_first : Guard sample
after_first = record fresh_guard { state = (submit fresh_guard.state).1 }

abbrev after_second : Guard sample
after_second = record fresh_guard { state = (submit after_first.state).1 }

abbrev retried : CheckResult
retried = (submit after_first.state).0

abbrev two_walk : System sample
two_walk =
    moved sample
      (moved sample
        (moved sample
          (moved sample (record { guard = fresh_guard; phase = λ i. enters }) 0 fresh_guard
            unfrozen)
          1 fresh_guard unfrozen)
        0 fresh_guard (walks keys_alone))
      1 fresh_guard (walks keys_alone)

-- The second call records its rejection, and asks the breaker.
abbrev counted : Guard sample
counted = record after_second {
  state =
      record_rejection sample (sample.to_lower order.email) retried.reason (at_second 0).wall
        after_second.state;
}

abbrev asked_breaker : Bool × State sample
asked_breaker =
    check_auto_freeze sample (sample.to_lower order.email) (at_second 0).wall counted.state

abbrev settled : Guard sample
settled = record counted { state = asked_breaker.1 }

abbrev refused : CheckResult
refused = noted sample retried asked_breaker

abbrev at_once : System sample
at_once = record { guard = fresh_guard; phase = λ i. enters }

abbrev two_checked : System sample
two_checked =
    moved sample (moved sample two_walk 0 after_first (walks [])) 1 after_second
      (rejected (client_order_id_dup_check sample) retried)

abbrev two_done : System sample
two_done =
    moved sample
      (moved sample (moved sample two_checked 0 after_second (done (returned allow))) 1 counted
        (recorded (client_order_id_dup_check sample) retried))
      1 settled (done (returned refused))

entered : Steps sample (λ i. order) at_once two_walk
entered =
    then_
      (then_ (then_ (then_ here (goes 0 (passes refl))) (goes 1 (passes refl))) (goes 0 snapshot))
      (goes 1 snapshot)

checked : Steps sample (λ i. order) at_once two_checked
unfolding check_client_order_id_duplicate seen_or_add seen_or_add_key lookup insert hash_key
    new_dedup
checked =
    then_
      (then_ entered (
        goes 0 (
          allows (client_order_id_dup_check sample) (at_second 0) (submit fresh_guard.state).0 refl
            refl)))
      (goes 1 (
        stops (client_order_id_dup_check sample) (at_second 0) (result retried) refl
          (rejects refl)))

retry_run : Steps sample (λ i. order) at_once two_done
retry_run =
    then_ (then_ (then_ checked (goes 0 finishes)) (goes 1 (records (at_second 0) refl)))
      (goes 1 (breaks (at_second 0)))

abbrev shared_key : String
shared_key = hash_key sample "asha@example.com" "order-1"

in_time :
    StepsInTime sample (λ i. order) shared_key (at_second 0).dedup_clock default_dedup_ttl retry_run
unfolding retry_run checked entered
in_time =
    let at : InTime (at_second 0).dedup_clock default_dedup_ttl (at_second 0) =
      (omega arith, omega arith) in
    (((((((((tt, tt), tt), tt), tt), (inl refl, at)), (inl refl, at)), tt), tt), tt)

done-once_example : refused.allowed ≡ false
unfolding new_dedup
done-once_example =
    done-once sample (λ i. order) shared_key (at_second 0).dedup_clock default_dedup_ttl at_once
      two_done 0 1 allow refused retry_run in_time (new_dedup (pos default_dedup_ttl), refl, refl)
      (inl refl) (λ n keyed. refl) (refl, refl) (refl, refl) (λ e. ground (arith, e)) refl refl refl
