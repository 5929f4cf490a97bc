-- ===== src/CheckOrder.antt =====
-- guard.go: CheckOrderCtx with safeEvaluate, and RecordOrder.
use Prim.Native.String.{◌++◌ as append}
use kite_mcp_riskguard.Prelude.{
  ℕ, suc, Bool, true, false, Option, none, some, List, [], ◌∷◌, ◌++◌, String, if◌then◌else◌,
}
use kite_mcp_riskguard.Prelude.Int.{ℤ, pos, ◌+ℤ◌, int64}
use kite_mcp_riskguard.Env.{Env, text}
use kite_mcp_riskguard.Model.Reasons.{reason_global_freeze}
use kite_mcp_riskguard.Model.{
  CheckResult, allow, reject, OrderCheckRequest, UserTracker, RecentOrder, State, Reading,
}
use kite_mcp_riskguard.Trackers.{
  get_or_create_tracker, put_tracker, maybe_reset_day, dispatch_daily_reset_if_needed,
}
use kite_mcp_riskguard.Lifecycle.{is_globally_frozen, record_rejection, check_auto_freeze}
use kite_mcp_riskguard.PerSecond.{record_per_second_order}
use kite_mcp_riskguard.Chain.{Eval, result, panicked, panicked_locked, Check, Guard}
use kite_mcp_riskguard.Checks.Values.{notional, cumulative}
pub mod Laws
pub mod Strikes
pub mod KillSwitch
pub mod Isolation
pub mod DailyCap
pub mod DailyValue
pub mod Recorded
pub mod BuiltinIsolation
pub mod Returns
pub mod MinuteWindow
pub mod Restarted
pub mod Alone
pub mod Acceptance
pub mod Concurrent

-- `hangs`: the call never returns, since it waits for a mutex that a recovered panic left locked.
pub data Outcome : Type 0 where
  returned : CheckResult → Outcome
  hangs : Outcome

-- The readings of the clocks that a call makes, one after another.
abbrev pub Readings : Type 0
Readings = ℕ → Reading

abbrev pub later : Readings → Readings
later at i = at (suc i)

abbrev pub frozen_suffix : String
frozen_suffix = " [Account auto-frozen due to repeated violations]"

abbrev pub global_freeze_result : CheckResult
global_freeze_result =
    reject reason_global_freeze "Trading is globally suspended. Contact the server administrator."

module _ (E : Env) where
  -- The result that `safeEvaluate` makes of a recovered panic.
  unfoldable pub check_panic : Check E → String → CheckResult
  check_panic c v =
      reject "check_panic" (E.sprintf "risk check %q panicked: %v" (text c.name ∷ text v ∷ []))

  -- What CheckOrder does with a rejection of the check: record it if the check says so, and tell the
  -- user if that froze the account.
  unfoldable pub settle :
      Check E → String → CheckResult → Readings → State E → CheckResult × State E
  settle c email r at st =
      if c.record_on_rejection
      then (let (frozen, st') =
            check_auto_freeze E email (at 2).wall
              (record_rejection E email r.reason (at 1).wall st) in
          (if frozen then record r { message = append r.message frozen_suffix } else r, st'))
      else (r, st)

  abbrev pub deliver : CheckResult × State E → Outcome × State E
  deliver (r, st) = (returned r, st)

  -- One round of the loop: `continue` after an allowed result. After a panic that left the mutex
  -- locked, recording the rejection waits for ever.
  unfoldable pub proceed :
      Check E
      → String
      → Readings
      → Eval × State E
      → (State E → Outcome × State E)
      → Outcome × State E
  proceed c email at (result r, st) continue =
      if r.allowed then continue st else deliver (settle c email r at st)
  proceed c email at (panicked v, st) continue = deliver (settle c email (check_panic c v) at st)
  proceed c email at (panicked_locked v, st) continue =
      if c.record_on_rejection then (hangs, st) else (returned (check_panic c v), st)

  -- The loop over the snapshot of the chain.
  unfoldable pub run_checks :
      List (Check E) → OrderCheckRequest E → Readings → State E → Outcome × State E
  run_checks [] req at st = (returned allow, st)
  run_checks (c ∷ cs) req at st =
      proceed c (E.to_lower req.email) at (c.evaluate req (at 0) st)
        (λ st'. run_checks cs req (later at) st')

  unfoldable pub check_order : Guard E → OrderCheckRequest E → Readings → Outcome × Guard E
  check_order g req at =
      if is_globally_frozen E g.state
      then (returned global_freeze_result, g)
      else (let (o, st) = run_checks g.checks req at g.state in (o, record g { state = st }))

  abbrev recent_order : OrderCheckRequest E → Reading → RecentOrder
  recent_order r now = record {
    exchange = r.exchange;
    tradingsymbol = r.tradingsymbol;
    transaction_type = r.transaction_type;
    quantity = r.quantity;
    placed_at = now.wall;
  }

  -- The value placed after the order; where Money.Add fails the increment is dropped.
  unfoldable pub placed_after : E.Money → OrderCheckRequest E → E.Money
  placed_after placed r =
      if E.is_positive r.price
      then (elim (cumulative E placed (notional E r)) [ some total ↦ total | none ↦ placed ])
      else placed

  -- The tracker's changes under the lock; the order's request is optional.
  unfoldable pub count_order :
      Option (OrderCheckRequest E) → Reading → UserTracker E → UserTracker E
  count_order none now t = record t {
    daily_order_count = int64 (t.daily_order_count +ℤ pos 1);
    recent_orders = t.recent_orders ++ now.wall ∷ [];
  }
  count_order (some r) now t = record t {
    daily_order_count = int64 (t.daily_order_count +ℤ pos 1);
    recent_orders = t.recent_orders ++ now.wall ∷ [];
    recent_params = t.recent_params ++ recent_order r now ∷ [];
    daily_placed_value = placed_after t.daily_placed_value r;
  }

  -- `none`: maybeResetDay panicked.
  unfoldable pub record_order :
      String → Option (OrderCheckRequest E) → Reading → State E → Option (State E)
  record_order email req now st =
      let key = E.to_lower email in
      let st' = record_per_second_order E key now st in
      elim (maybe_reset_day E now.clock (get_or_create_tracker E key now.wall st')) [
        | none ↦ none
        | some (t, did_reset) ↦ some (
            dispatch_daily_reset_if_needed E key did_reset now.wall
              (put_tracker E key (count_order req now t) st'))
      ]
