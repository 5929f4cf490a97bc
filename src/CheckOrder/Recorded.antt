-- ===== src/CheckOrder/Recorded.antt =====
-- What a recorded order means for the next one.
use kite_mcp_riskguard.Prelude.{
  ℕ, ◌+◌, ◌*◌, ◌≤◌, ◌<◌, ◌≡◌, refl, sym, ap, ◌∙◌, Bool, true, false, Option, some, List, [], ◌∷◌,
  ◌++◌, String, arith, Option-cases, Bool-cases, inl, inr,
}
use kite_mcp_riskguard.Prelude.Int.{pos, int64, two_63}
use kite_mcp_riskguard.Prelude.Dict.{lookup, lookup-insert_self}
use kite_mcp_riskguard.Env.{Env, Time}
use kite_mcp_riskguard.Calendar.{add_duration}
use kite_mcp_riskguard.Model.{OrderCheckRequest, RecentOrder, UserTracker, State, Reading}
use kite_mcp_riskguard.Limits.{get_effective_limits}
use kite_mcp_riskguard.Trackers.{
  get_or_create_tracker, put_tracker, maybe_reset_day, dispatch_daily_reset_if_needed,
}
use kite_mcp_riskguard.PerSecond.{record_per_second_order}
use kite_mcp_riskguard.Checks.Rates.{
  check_duplicate_order, find_duplicate, prune_params, same_params, duplicate_result, seconds_back,
}
use kite_mcp_riskguard.CheckOrder.{record_order, count_order, recent_order}

module _ (E : Env) where
  trackers-dispatch :
      (key : String) (did_reset : Bool) (at : Time) (st : State E)
      → (dispatch_daily_reset_if_needed E key did_reset at st).trackers ≡ st.trackers
  unfolding dispatch_daily_reset_if_needed
  trackers-dispatch key did_reset at st = ground arith

  lookup-put_tracker :
      (key : String) (t : UserTracker E) (st : State E)
      → lookup key (put_tracker E key t st).trackers ≡ some t
  unfolding put_tracker
  lookup-put_tracker key t st = lookup-insert_self key t st.trackers

  -- The tracker of the user that RecordOrder leaves.
  pub tracker-record_order :
      (email : String) (req : Option (OrderCheckRequest E)) (now : Reading) (st st' : State E)
      → record_order E email req now st ≡ some st'
      → (t : UserTracker E) × (did_reset : Bool) × (maybe_reset_day E now.clock (
            get_or_create_tracker E
              (E.to_lower email)
              now.wall
              (record_per_second_order E (E.to_lower email) now st))
          ≡ some (t, did_reset))
        × (lookup (E.to_lower email) st'.trackers ≡ some (count_order E req now t))
  unfolding record_order
  tracker-record_order email req now st st' e =
      let key = E.to_lower email in
      let st₁ = record_per_second_order E key now st in
      elim (Option-cases (maybe_reset_day E now.clock (get_or_create_tracker E key now.wall st₁))) [
        | inl panics ↦ ground arith
        | inr ((t, did_reset), fine) ↦
            let put = put_tracker E key (count_order E req now t) st₁ in
            let end = dispatch_daily_reset_if_needed E key did_reset now.wall put in
            let ends : end ≡ st' = ground arith in
            (
              t,
              did_reset,
              fine,
              ap (λ (s : State E). lookup key s.trackers) (sym ends)
                  ∙ ap (lookup key) (trackers-dispatch key did_reset now.wall put)
                  ∙ lookup-put_tracker key (count_order E req now t) st₁,
            )
      ]

  prune_params-append :
      (cutoff : Time) (old : List RecentOrder) (p : RecentOrder)
      → cutoff ≤ p.placed_at
      → prune_params E cutoff (old ++ p ∷ []) ≡ prune_params E cutoff old ++ p ∷ []
  unfolding prune_params
  prune_params-append cutoff [] p h = ground arith
  prune_params-append cutoff (o ∷ os) p h = ground (arith, prune_params-append cutoff os p h)

  find_duplicate-append :
      (req : OrderCheckRequest E) (ps : List RecentOrder) (p : RecentOrder)
      → same_params E req p ≡ true
      → (q : RecentOrder) × (find_duplicate E req (ps ++ p ∷ []) ≡ some q)
        × (same_params E req q ≡ true)
  unfolding find_duplicate
  find_duplicate-append req [] p h = (p, ground arith, h)
  find_duplicate-append req (o ∷ os) p h = elim (Bool-cases (same_params E req o)) [
    | inl same ↦ (o, ground arith, same)
    | inr other ↦ let (q, e, found) = find_duplicate-append req os p h in (q, ground arith, found)
  ]

  cutoff_le :
      (t u : Time) (secs : ℕ)
      → secs * 1000000000 < two_63
      → u ≤ t + secs * 1000000000
      → add_duration u (seconds_back (pos secs)) ≤ t
  unfolding int64
  cutoff_le t u secs fits close = ground arith

  -- The answer of the duplicate check for a user with a tracker.
  check_duplicate_order_lem :
      (key : String) (req : OrderCheckRequest E) (now : Reading) (st : State E) (t : UserTracker E)
      (secs : ℕ)
      → lookup key st.trackers ≡ some t
      → (get_effective_limits E key st).duplicate_window_secs ≡ pos secs
      → 0 < secs
      → (check_duplicate_order E key req now st).0
        ≡ duplicate_result E req now.wall (
            find_duplicate E req
              (prune_params E (add_duration now.wall (seconds_back (pos secs))) t.recent_params))
  unfolding check_duplicate_order
  check_duplicate_order_lem key req now st t secs held w positive =
      let found : get_or_create_tracker E key now.wall st ≡ t =
        unfold get_or_create_tracker in ground arith in
      rw (w, found) (ground arith)

  -- After an order is recorded, the same order of the same user is a duplicate for the user's window
  -- of seconds: exchange, symbol, side and quantity are the same, the window is positive and in
  -- nanoseconds a 64-bit number, and the clock did not go back.
  pub check_duplicate_order-record_order :
      (first again : OrderCheckRequest E) (now soon : Reading) (st st' : State E) (secs : ℕ)
      → record_order E first.email (some first) now st ≡ some st'
      → same_params E again (recent_order E first now) ≡ true
      → (get_effective_limits E (E.to_lower first.email) st').duplicate_window_secs ≡ pos secs
      → 0 < secs
      → secs * 1000000000 < two_63
      → now.wall ≤ soon.wall
      → soon.wall ≤ now.wall + secs * 1000000000
      → ((check_duplicate_order E (E.to_lower first.email) again soon st').0.allowed ≡ false)
        × ((check_duplicate_order E (E.to_lower first.email) again soon st').0.reason
            ≡ "duplicate_order")
  unfolding count_order
  check_duplicate_order-record_order first again now soon st st' secs e same w positive fits order
        close =
      let (t, did_reset, fine, held) = tracker-record_order first.email (some first) now st st' e in
      let cutoff = add_duration soon.wall (seconds_back (pos secs)) in
      let kept =
        prune_params-append cutoff t.recent_params (recent_order E first now)
          (cutoff_le now.wall soon.wall secs fits close) in
      let (q, found, matches) =
        find_duplicate-append again (prune_params E cutoff t.recent_params)
          (recent_order E first now) same in
      let answer =
        check_duplicate_order_lem (E.to_lower first.email) again soon st' _ secs held w positive in
      rw (answer, kept, found) (refl, refl)
