-- ===== src/CheckOrder/Alone/Trackers.antt =====
-- What the built-in checks leave of a user's tracker, as far as a later check reads it.
use kite_mcp_riskguard.Prelude.{◌≡◌, ◌≤◌, ap, Bool, Option, none, some, List, [], String, arith}
use kite_mcp_riskguard.Prelude.Dict.{lookup, lookup-insert_self}
use kite_mcp_riskguard.Env.{Env, Time}
use kite_mcp_riskguard.Calendar.{in_ist}
use kite_mcp_riskguard.Calendar.Laws.{reset_time_mono}
use kite_mcp_riskguard.Model.{UserTracker, RecentOrder, State}
use kite_mcp_riskguard.Trackers.{
  put_tracker, get_or_create_tracker, maybe_reset_day, dispatch_daily_reset_if_needed,
}

module _ (E : Env) (key : String) where
  -- The state without what the checks change.
  abbrev pub core : State E → State E
  core st = record st { trackers = []; dedup = none; sent = [] }

  abbrev pub orders : State E → List Time
  orders st = elim (lookup key st.trackers) [ none ↦ [] | some t ↦ t.recent_orders ]

  abbrev pub params : State E → List RecentOrder
  params st = elim (lookup key st.trackers) [ none ↦ [] | some t ↦ t.recent_params ]

  abbrev pub value_of : Option (UserTracker E × Bool) → Option E.Money
  value_of none = none
  value_of (some (t, did_reset)) = some t.daily_placed_value

  -- The day's value that a call finds, if it does not panic.
  abbrev pub day_value : Time → Time → State E → Option E.Money
  day_value clock wall st = value_of (maybe_reset_day E clock (get_or_create_tracker E key wall st))

  abbrev pub stored : UserTracker E → Bool → Time → State E → State E
  stored t did_reset at st =
      dispatch_daily_reset_if_needed E key did_reset at (put_tracker E key t st)

  pub orders_lem :
      (wall : Time) (st : State E) → (get_or_create_tracker E key wall st).recent_orders ≡ orders st
  unfolding get_or_create_tracker
  orders_lem wall st = ground arith

  pub params_lem :
      (wall : Time) (st : State E) → (get_or_create_tracker E key wall st).recent_params ≡ params st
  unfolding get_or_create_tracker
  params_lem wall st = ground arith

  module _ (t : UserTracker E) (did_reset : Bool) (at : Time) (st : State E) where
    pub core-stored : core (stored t did_reset at st) ≡ core st
    unfolding dispatch_daily_reset_if_needed put_tracker
    core-stored = ground arith

    pub dedup-stored : (stored t did_reset at st).dedup ≡ st.dedup
    unfolding dispatch_daily_reset_if_needed put_tracker
    dedup-stored = ground arith

    pub lookup-stored : lookup key (stored t did_reset at st).trackers ≡ some t
    unfolding dispatch_daily_reset_if_needed put_tracker
    lookup-stored = ground (arith, lookup-insert_self key t st.trackers)

  -- Resetting at an instant does not change the value that is found later.
  pub value_of-twice :
      (clock clock' : Time) (t t' : UserTracker E) (did_reset : Bool)
      → clock ≤ clock'
      → maybe_reset_day E clock t ≡ some (t', did_reset)
      → value_of (maybe_reset_day E clock' t') ≡ value_of (maybe_reset_day E clock' t)
  unfolding maybe_reset_day
  value_of-twice clock clock' t t' did_reset le e =
      ground (arith, reset_time_mono (in_ist clock) (in_ist clock'))

  -- Resetting keeps the windows.
  pub maybe_reset_day-windows :
      (clock : Time) (t t' : UserTracker E) (did_reset : Bool)
      → maybe_reset_day E clock t ≡ some (t', did_reset)
      → (t'.recent_orders ≡ t.recent_orders) × (t'.recent_params ≡ t.recent_params)
  unfolding maybe_reset_day
  maybe_reset_day-windows clock t t' did_reset e = ground arith

  -- Two trackers of a user that were just made differ in the instant of the reset only.
  pub value_of-wall :
      (clock wall wall' : Time) (st : State E) → day_value clock wall st ≡ day_value clock wall' st
  unfolding maybe_reset_day get_or_create_tracker
  value_of-wall clock wall wall' st = ground arith

  -- The value depends on the instant of the reset and on the value placed.
  pub value_of-same :
      (clock : Time) (t t' : UserTracker E)
      → t'.day_reset_at ≡ t.day_reset_at
      → t'.daily_placed_value ≡ t.daily_placed_value
      → value_of (maybe_reset_day E clock t') ≡ value_of (maybe_reset_day E clock t)
  unfolding maybe_reset_day
  value_of-same clock t t' e f = ground arith

  module _ (st : State E) (t : UserTracker E) (found : lookup key st.trackers ≡ some t) where
    get_or_create_tracker-found : (wall : Time) → get_or_create_tracker E key wall st ≡ t
    unfolding get_or_create_tracker
    get_or_create_tracker-found wall = ground arith

    pub orders-found : orders st ≡ t.recent_orders
    orders-found = ground arith

    pub params-found : params st ≡ t.recent_params
    params-found = ground arith

    pub day_value-found :
        (clock wall : Time) → day_value clock wall st ≡ value_of (maybe_reset_day E clock t)
    day_value-found clock wall =
        ap (λ u. value_of (maybe_reset_day E clock u)) (get_or_create_tracker-found wall)
