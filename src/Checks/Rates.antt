-- ===== src/Checks/Rates.antt =====
-- internal_checks.go: the checks on how often orders come, checkDailyOrderCount, checkRateLimit,
-- checkClientOrderIDDuplicate and checkDuplicateOrder.
use kite_mcp_riskguard.Prelude.{
  ◌*◌, ◌/◌, Bool, ◌&&◌, Option, none, some, List, [], ◌∷◌, String, ◌==◌, length, drop_while,
  if◌then◌else◌,
}
use kite_mcp_riskguard.Prelude.Int.{ℤ, pos, pos_part, neg_part, sub_ℕ, neg_ℤ, leb_ℤ, eqb_ℤ, int64}
use kite_mcp_riskguard.Env.{Env, Time, int, text, duration}
use kite_mcp_riskguard.Calendar.{before, add_duration}
use kite_mcp_riskguard.Model.Reasons.{
  reason_daily_order_limit, reason_duplicate_order, reason_rate_limit,
}
use kite_mcp_riskguard.Model.{
  CheckResult, allow, reject, OrderCheckRequest, RecentOrder, State, Reading,
}
use kite_mcp_riskguard.Limits.{get_effective_limits}
use kite_mcp_riskguard.Trackers.{
  get_or_create_tracker, put_tracker, maybe_reset_day, dispatch_daily_reset_if_needed,
}
use kite_mcp_riskguard.Lifecycle.{prune}
use kite_mcp_riskguard.Dedup.{default_dedup_ttl, seen_or_add}

-- `-time.Duration(secs) * time.Second`, wrapped to int64 for a positive number of seconds.
abbrev pub seconds_back : ℤ → ℤ
seconds_back secs = int64 (sub_ℕ 0 (pos_part secs * 1000000000))

-- `int(time.Since(at).Seconds())`
abbrev whole_seconds : Time → Time → ℤ
whole_seconds now at =
    let d = sub_ℕ now at in sub_ℕ (pos_part d / 1000000000) (neg_part d / 1000000000)

module _ (E : Env) where
  -- `none`: maybeResetDay panicked, with the mutex held.
  unfoldable pub check_daily_order_count :
      String → Reading → State E → Option (CheckResult × State E)
  check_daily_order_count email now st =
      let cap = (get_effective_limits E email st).max_orders_per_day in
      elim (maybe_reset_day E now.clock (get_or_create_tracker E email now.wall st)) [
        | none ↦ none
        | some (t, did_reset) ↦
            let count = t.daily_order_count in
            some (
              if leb_ℤ cap count
                  then reject reason_daily_order_limit (
                      E.sprintf
                        "You have placed %d orders today (limit: %d). Resets at next market open."
                        (int count ∷ int cap ∷ []))
                  else allow,
              dispatch_daily_reset_if_needed E email did_reset now.wall (put_tracker E email t st),
            )
      ]

  unfoldable pub check_rate_limit : String → Reading → State E → CheckResult × State E
  check_rate_limit email now st =
      let cap = (get_effective_limits E email st).max_orders_per_minute in
      let t = get_or_create_tracker E email now.wall st in
      let recent = prune (add_duration now.wall (neg_ℤ (pos 60000000000))) t.recent_orders in
      let count = pos (length recent) in
      (
        if leb_ℤ cap count
            then reject reason_rate_limit
                (E.sprintf "%d orders in last minute (limit: %d)" (int count ∷ int cap ∷ []))
            else allow,
        put_tracker E email (record t { recent_orders = recent }) st,
      )

  unfoldable pub check_client_order_id_duplicate :
      OrderCheckRequest E → Reading → State E → CheckResult × State E
  check_client_order_id_duplicate req now st =
      if req.client_order_id == "" then (allow, st) else (elim st.dedup [
        | none ↦ (allow, st)
        | some d ↦
            let (seen, d') =
              seen_or_add E (E.to_lower req.email) req.client_order_id now.dedup_clock d in
            (
              if seen
                  then reject reason_duplicate_order (
                      E.sprintf
                        "client_order_id %q already submitted within the last %s — this looks like a retry of a prior order. If this is a new order, use a different client_order_id."
                        (text req.client_order_id ∷ duration default_dedup_ttl ∷ []))
                  else allow,
              record st { dedup = some d' },
            )
      ])

  abbrev pub same_params : OrderCheckRequest E → RecentOrder → Bool
  same_params req prev =
      prev.exchange == req.exchange
      && prev.tradingsymbol == req.tradingsymbol
      && prev.transaction_type == req.transaction_type
      && eqb_ℤ prev.quantity req.quantity

  -- The loop that looks for the first entry with the same parameters.
  unfoldable pub find_duplicate : OrderCheckRequest E → List RecentOrder → Option RecentOrder
  find_duplicate req [] = none
  find_duplicate req (prev ∷ ps) = if same_params req prev then some prev else find_duplicate req ps

  unfoldable pub prune_params : Time → List RecentOrder → List RecentOrder
  prune_params cutoff ps = drop_while (λ p. before p.placed_at cutoff) ps

  abbrev pub duplicate_result : OrderCheckRequest E → Time → Option RecentOrder → CheckResult
  duplicate_result req now none = allow
  duplicate_result req now (some prev) = reject reason_duplicate_order (
      E.sprintf "Same order (%s %s %s qty %d) placed %d seconds ago" (
        text req.transaction_type
        ∷ text req.exchange
        ∷ text req.tradingsymbol
        ∷ int req.quantity
        ∷ int (whole_seconds now prev.placed_at)
        ∷ []))

  unfoldable pub check_duplicate_order :
      String → OrderCheckRequest E → Reading → State E → CheckResult × State E
  check_duplicate_order email req now st =
      let window = (get_effective_limits E email st).duplicate_window_secs in
      let t = get_or_create_tracker E email now.wall st in
      let recent = prune_params (add_duration now.wall (seconds_back window)) t.recent_params in
      if leb_ℤ window (pos 0) then (allow, st) else (
        duplicate_result req now.wall (find_duplicate req recent),
        put_tracker E email (record t { recent_params = recent }) st,
      )
