-- ===== src/Trackers.antt =====
-- trackers.go: a user's in-memory counters and windows.
use kite_mcp_riskguard.Prelude.{
  Bool, true, false, ◌&&◌, Option, none, some, List, [], ◌∷◌, String, ltb, if◌then◌else◌,
}
use kite_mcp_riskguard.Prelude.Int.{ℤ, pos}
use kite_mcp_riskguard.Prelude.Dict.{lookup, insert}
use kite_mcp_riskguard.Env.{Env, Time}
use kite_mcp_riskguard.Calendar.{in_ist, reset_time}
use kite_mcp_riskguard.Model.{UserTracker, State, Effect, daily_counter_reset, Reading}
pub mod DayReset
pub mod StatusJson

module _ (E : Env) where
  abbrev pub new_tracker : Time → UserTracker E
  new_tracker now = record {
    daily_order_count = pos 0;
    day_reset_at = now;
    recent_orders = [];
    recent_params = [];
    daily_placed_value = E.money_zero;
    recent_rejections = [];
  }

  -- The tracker that `getOrCreateTracker` returns; its caller changes it and `put_tracker` stores it.
  unfoldable pub get_or_create_tracker : String → Time → State E → UserTracker E
  get_or_create_tracker email now st = elim (lookup email st.trackers) [
    | some t ↦ t
    | none ↦ new_tracker now
  ]

  unfoldable pub put_tracker : String → UserTracker E → State E → State E
  put_tracker email t st = record st { trackers = insert email t st.trackers }

  -- `none`: the zone is missing, LoadLocation returned nil (its error is ignored), and `In(nil)`
  -- panics. Otherwise the tracker, and whether it was reset.
  unfoldable pub maybe_reset_day : Time → UserTracker E → Option (UserTracker E × Bool)
  maybe_reset_day clock t =
      if E.tzdata
      then some (
          if ltb (in_ist t.day_reset_at) (reset_time (in_ist clock))
          then (
            record t {
              daily_order_count = pos 0;
              daily_placed_value = E.money_zero;
              day_reset_at = clock;
            },
            true,
          )
          else (t, false))
      else none

  abbrev pub send : Effect → State E → State E
  send e st = record st { sent = e ∷ st.sent }

  -- lifecycle.go: dispatchDailyResetIfNeeded
  unfoldable pub dispatch_daily_reset_if_needed : String → Bool → Time → State E → State E
  dispatch_daily_reset_if_needed email did_reset at st =
      if did_reset && st.has_dispatcher then send (daily_counter_reset email at) st else st

  pub record UserStatus : Type 0 where
    pub daily_order_count : ℤ
    pub daily_placed_value : E.Money
    pub is_frozen : Bool
    pub frozen_by : String
    pub frozen_reason : String
    pub frozen_at : Time

  abbrev status_of : String → UserTracker E → State E → UserStatus
  status_of email t st = elim (lookup email st.limits) [
    | some l ↦ record {
      daily_order_count = t.daily_order_count;
      daily_placed_value = t.daily_placed_value;
      is_frozen = l.trading_frozen;
      frozen_by = l.frozen_by;
      frozen_reason = l.frozen_reason;
      frozen_at = l.frozen_at;
    }
    | none ↦ record {
      daily_order_count = t.daily_order_count;
      daily_placed_value = t.daily_placed_value;
      is_frozen = false;
      frozen_by = "";
      frozen_reason = "";
      frozen_at = 0;
    }
  ]

  unfoldable pub get_user_status : String → Reading → State E → Option (UserStatus × State E)
  get_user_status email now st =
      let key = E.to_lower email in
      elim (maybe_reset_day now.clock (get_or_create_tracker key now.wall st)) [
        | none ↦ none
        | some (t, did_reset) ↦ some (
          status_of key t st,
          dispatch_daily_reset_if_needed key did_reset now.wall (put_tracker key t st),
        )
      ]
