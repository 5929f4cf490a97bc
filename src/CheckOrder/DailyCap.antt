-- ===== src/CheckOrder/DailyCap.antt =====
-- The daily cap over a day's recorded orders.
use kite_mcp_riskguard.Prelude.{
  ℕ, ◌+◌, ◌≤◌, ◌<◌, ◌≡◌, ◌↔◌, refl, ◌∙◌, true, false, Option, some, none, List, [], ◌∷◌, String,
  arith, length, All,
}
use kite_mcp_riskguard.Prelude.Int.{pos, ◌≤ℤ◌, ◌+ℤ◌, int64_small, two_63}
use kite_mcp_riskguard.Prelude.Dict.{lookup, lookup-insert_self}
use kite_mcp_riskguard.Env.{Env, Time}
use kite_mcp_riskguard.Calendar.{in_ist, reset_time}
use kite_mcp_riskguard.Model.{CheckResult, OrderCheckRequest, UserTracker, State, Reading}
use kite_mcp_riskguard.Limits.{get_effective_limits}
use kite_mcp_riskguard.Trackers.{
  get_or_create_tracker, put_tracker, maybe_reset_day, dispatch_daily_reset_if_needed,
}
use kite_mcp_riskguard.PerSecond.{record_per_second_order}
use kite_mcp_riskguard.Checks.Rates.{check_daily_order_count}
use kite_mcp_riskguard.CheckOrder.{record_order, count_order}

module _ (E : Env) where
  -- Orders recorded one after another, each with its request, if any, and the clocks.
  unfoldable pub record_all :
      String → List (Option (OrderCheckRequest E) × Reading) → State E → Option (State E)
  record_all email [] st = some st
  record_all email ((req, now) ∷ os) st = elim (record_order E email req now st) [
    | none ↦ none
    | some st' ↦ record_all email os st'
  ]

  -- No 09:15 IST between the two instants, the last reset and a later one.
  abbrev pub SameDay : Time → Time → Type 0
  SameDay reset_at clock = reset_time (in_ist clock) ≤ in_ist reset_at

  pub kept_day :
      (t : UserTracker E) (clock : Time)
      → E.tzdata ≡ true
      → SameDay t.day_reset_at clock
      → maybe_reset_day E clock t ≡ some (t, false)
  unfolding maybe_reset_day
  kept_day t clock tz h = ground arith

  pub record_order-kept :
      (email : String) (req : Option (OrderCheckRequest E)) (now : Reading) (st : State E)
      (t : UserTracker E)
      → E.tzdata ≡ true
      → lookup (E.to_lower email) st.trackers ≡ some t
      → SameDay t.day_reset_at now.clock
      → (st' : State E) × (record_order E email req now st ≡ some st')
        × (lookup (E.to_lower email) st'.trackers ≡ some (count_order E req now t))
        × (st'.limits ≡ st.limits)
  unfolding record_order dispatch_daily_reset_if_needed
  record_order-kept email req now st t tz held day =
      let key = E.to_lower email in
      let st₁ = record_per_second_order E key now st in
      let same : (st₁.trackers ≡ st.trackers) × (st₁.limits ≡ st.limits) =
        unfold record_per_second_order in ground arith in
      let found : get_or_create_tracker E key now.wall st₁ ≡ t =
        unfold get_or_create_tracker in ground arith in
      let put = put_tracker E key (count_order E req now t) st₁ in
      let day_kept : maybe_reset_day E now.clock (get_or_create_tracker E key now.wall st₁)
          ≡ some (t, false) =
        rw found (kept_day t now.clock tz day) in
      (
        put,
        ground arith,
        unfold put_tracker in lookup-insert_self key _ st₁.trackers,
        unfold put_tracker in same.1,
      )

  pub same_effective :
      (key : String) (st st' : State E)
      → st'.limits ≡ st.limits
      → get_effective_limits E key st' ≡ get_effective_limits E key st
  unfolding get_effective_limits
  same_effective key st st' e = rw e refl

  check_daily_order_count_lem :
      (key : String) (now : Reading) (st : State E) (t : UserTracker E)
      → E.tzdata ≡ true
      → lookup key st.trackers ≡ some t
      → SameDay t.day_reset_at now.clock
      → (r : CheckResult) × (st' : State E) × (check_daily_order_count E key now st ≡ some (r, st'))
        × ((r.allowed ≡ false)
            ↔ ((get_effective_limits E key st).max_orders_per_day ≤ℤ t.daily_order_count))
  unfolding check_daily_order_count
  check_daily_order_count_lem key now st t tz held day =
      let found : get_or_create_tracker E key now.wall st ≡ t =
        unfold get_or_create_tracker in ground arith in
      let day_kept : maybe_reset_day E now.clock (get_or_create_tracker E key now.wall st)
          ≡ some (t, false) =
        rw found (kept_day t now.clock tz day) in
      rw (day_kept, check_daily_order_count) (_, _, refl, ground arith)

  count_order-kept :
      (req : Option (OrderCheckRequest E)) (now : Reading) (t : UserTracker E) (n : ℕ)
      → t.daily_order_count ≡ pos n
      → n + 1 < two_63
      → ((count_order E req now t).daily_order_count ≡ pos (n + 1))
        × ((count_order E req now t).day_reset_at ≡ t.day_reset_at)
  unfolding count_order ◌+ℤ◌
  count_order-kept none now t n counted small = (ground (arith, int64_small (pos (n + 1))), refl)
  count_order-kept (some r) now t n counted small =
      (ground (arith, int64_small (pos (n + 1))), refl)

  -- Within a trading day the daily check counts every recorded order: from a tracker that counts n,
  -- recording any further orders of the user succeeds, with or without their requests, and the check
  -- then rejects exactly if the user's cap is at most n and their number together. The zone is there,
  -- no 09:15 IST lies between the tracker's last reset and any of the instants, and the count stays a
  -- 64-bit number.
  pub check_daily_order_count-record_all :
      (email : String) (os : List (Option (OrderCheckRequest E) × Reading)) (now : Reading)
      (st : State E) (t : UserTracker E) (n : ℕ) (d : Time)
      → E.tzdata ≡ true
      → lookup (E.to_lower email) st.trackers ≡ some t
      → t.daily_order_count ≡ pos n
      → t.day_reset_at ≡ d
      → n + length os < two_63
      → All (λ (o : Option (OrderCheckRequest E) × Reading). SameDay d o.1.clock) os
      → SameDay d now.clock
      → (end : State E) × (record_all email os st ≡ some end)
        × (r : CheckResult) × (st' : State E) × (check_daily_order_count E
              (E.to_lower email)
              now
              end
            ≡ some (r, st'))
        × ((r.allowed ≡ false) ↔ (
            (get_effective_limits E (E.to_lower email) st).max_orders_per_day
            ≤ℤ pos (n + length os)))
  unfolding record_all
  check_daily_order_count-record_all email [] now st t n d tz held counted reset small days day =
      let (r, st', e, decides) =
        check_daily_order_count_lem (E.to_lower email) now st t tz held (omega (arith, reset)) in
      (st, refl, r, st', e, ground arith)
  check_daily_order_count-record_all email ((req, at) ∷ os) now st t n d tz held counted reset small
        (d', days) day =
      let (st₁, e, held', limits) =
        record_order-kept email req at st t tz held (omega (arith, reset)) in
      let (counted', reset') = count_order-kept req at t n counted (omega arith) in
      let (end, recorded, r, st', checked, decides) =
        check_daily_order_count-record_all email os now st₁ (count_order E req at t) (n + 1) d tz
          held' counted' (reset' ∙ reset) (omega arith) days day in
      let cap = same_effective (E.to_lower email) st st₁ limits in
      rw (e, record_all) (end, recorded, r, st', checked, ground (arith, cap))
