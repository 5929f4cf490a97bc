-- ===== src/CheckOrder/MinuteWindow.antt =====
-- The orders that a user's tracker holds, under RecordOrder and the rate limit.
use kite_mcp_riskguard.Prelude.{
  ◌≡◌, refl, ap, ◌∙◌, Bool, true, false, not, Option, some, none, List, [], ◌∷◌, ◌++◌, String,
  arith, length, if◌then◌else◌,
}
use kite_mcp_riskguard.Prelude.Int.{pos, neg_ℤ, leb_ℤ}
use kite_mcp_riskguard.Prelude.Dict.{lookup, lookup-insert_self}
use kite_mcp_riskguard.Env.{Env, Time}
use kite_mcp_riskguard.Calendar.{add_duration}
use kite_mcp_riskguard.Model.{CheckResult, allow, OrderCheckRequest, UserTracker, State, Reading}
use kite_mcp_riskguard.Limits.{get_effective_limits}
use kite_mcp_riskguard.Trackers.{
  get_or_create_tracker, put_tracker, maybe_reset_day, dispatch_daily_reset_if_needed,
}
use kite_mcp_riskguard.Lifecycle.{prune}
use kite_mcp_riskguard.Lifecycle.Pruning.{minute_ago}
use kite_mcp_riskguard.PerSecond.{record_per_second_order}
use kite_mcp_riskguard.Checks.Rates.{check_rate_limit}
use kite_mcp_riskguard.CheckOrder.{record_order, count_order}
use kite_mcp_riskguard.CheckOrder.Recorded.{tracker-record_order}
pub mod Log

module _ (E : Env) where
  abbrev orders_of : Option (UserTracker E) → List Time
  orders_of (some t) = t.recent_orders
  orders_of none = []

  -- The recorded orders that the user's tracker holds.
  abbrev pub held : String → State E → List Time
  held key st = orders_of (lookup key st.trackers)

  tracker-held :
      (key : String) (now : Time) (st : State E)
      → (get_or_create_tracker E key now st).recent_orders ≡ held key st
  unfolding get_or_create_tracker
  tracker-held key now st = ground arith

  maybe_reset_day-held :
      (clock : Time) (t t' : UserTracker E) (b : Bool)
      → maybe_reset_day E clock t ≡ some (t', b)
      → t'.recent_orders ≡ t.recent_orders
  unfolding maybe_reset_day
  maybe_reset_day-held clock t t' b e = ground arith

  verdict_lem :
      (b : Bool) (r : CheckResult) → r.allowed ≡ false → (if b then r else allow).allowed ≡ not b
  verdict_lem true r e = e
  verdict_lem false r e = refl

  pub check_rate_limit-held :
      (key : String) (now : Reading) (st : State E)
      → let (r, st') = check_rate_limit E key now st in
        (r.allowed
          ≡ not (
              leb_ℤ
                (get_effective_limits E key st).max_orders_per_minute
                (pos (length (prune (minute_ago now.wall) (held key st))))))
        × (held key st' ≡ prune (minute_ago now.wall) (held key st))
        × (st'.limits ≡ st.limits)
  unfolding check_rate_limit put_tracker
  check_rate_limit-held key now st =
      let same = tracker-held key now.wall st in
      let cut : add_duration now.wall (neg_ℤ (pos 60000000000)) ≡ minute_ago now.wall =
        omega arith in
      rw (same, cut)
        (verdict_lem _ _ refl, ap orders_of (lookup-insert_self key _ st.trackers), refl)

  returns_state :
      (email : String) (req : Option (OrderCheckRequest E)) (now : Reading) (st : State E)
      → E.tzdata ≡ true
      → (st' : State E) × (record_order E email req now st ≡ some st')
  unfolding record_order maybe_reset_day
  returns_state email req now st tz = rw tz (_, refl)

  limits-record_order :
      (email : String) (req : Option (OrderCheckRequest E)) (now : Reading) (st st' : State E)
      → record_order E email req now st ≡ some st'
      → st'.limits ≡ st.limits
  unfolding record_order dispatch_daily_reset_if_needed put_tracker record_per_second_order
  limits-record_order email req now st st' e = ground arith

  trackers-record_per_second_order :
      (key : String) (now : Reading) (st : State E)
      → (record_per_second_order E key now st).trackers ≡ st.trackers
  unfolding record_per_second_order
  trackers-record_per_second_order key now st = ground arith

  recent_orders-count_order :
      (req : Option (OrderCheckRequest E)) (now : Reading) (t : UserTracker E)
      → (count_order E req now t).recent_orders ≡ t.recent_orders ++ now.wall ∷ []
  unfolding count_order
  recent_orders-count_order none now t = refl
  recent_orders-count_order (some r) now t = refl

  pub record_order-held :
      (email : String) (req : Option (OrderCheckRequest E)) (now : Reading) (st : State E)
      → E.tzdata ≡ true
      → (st' : State E) × (record_order E email req now st ≡ some st')
        × (held (E.to_lower email) st' ≡ held (E.to_lower email) st ++ now.wall ∷ [])
        × (st'.limits ≡ st.limits)
  record_order-held email req now st tz =
      let key = E.to_lower email in
      let (st', e) = returns_state email req now st tz in
      let (t, did_reset, fine, found) = tracker-record_order E email req now st st' e in
      let st₁ = record_per_second_order E key now st in
      let before : t.recent_orders ≡ held key st =
        maybe_reset_day-held now.clock _ t did_reset fine
        ∙ tracker-held key now.wall st₁
        ∙ ap (λ m. orders_of (lookup key m)) (trackers-record_per_second_order key now st) in
      (
        st',
        e,
        ap orders_of found
            ∙ recent_orders-count_order req now t
            ∙ ap (λ l. l ++ now.wall ∷ []) before,
        limits-record_order email req now st st' e,
      )
