-- ===== src/CheckOrder/Alone/Kept.antt =====
-- What each built-in check that changes the state keeps of it for the checks behind it.
use mathlib.Core.Path.{subst}
use kite_mcp_riskguard.Prelude.{
  ◌≡◌, ◌≤◌, refl, sym, ◌∙◌, Bool, Option, some, String, arith, Option-cases, Bool-cases, inl, inr,
}
use kite_mcp_riskguard.Prelude.Dict.{lookup-insert_self}
use kite_mcp_riskguard.Env.{Env, Time}
use kite_mcp_riskguard.Model.{OrderCheckRequest, UserTracker, Dedup, State, Reading}
use kite_mcp_riskguard.Prelude.Int.{pos, leb_ℤ}
use kite_mcp_riskguard.Limits.{get_effective_limits}
use kite_mcp_riskguard.Trackers.{put_tracker, get_or_create_tracker, maybe_reset_day}
use kite_mcp_riskguard.Checks.Rates.{
  check_daily_order_count, check_rate_limit, check_client_order_id_duplicate, check_duplicate_order,
}
use kite_mcp_riskguard.Checks.Values.{check_daily_value}
use kite_mcp_riskguard.Builtin.{
  daily_order_count_check, rate_limit_check, client_order_id_dup_check, duplicate_order_check,
  daily_value_check,
}
use kite_mcp_riskguard.CheckOrder.Alone.Trackers.{
  core, orders, params, day_value, stored, orders_lem, params_lem, core-stored, dedup-stored,
  lookup-stored, orders-found, params-found, day_value-found, value_of-twice, value_of-wall,
  value_of-same, maybe_reset_day-windows,
}

module _ (E : Env) (req : OrderCheckRequest E) where
  abbrev pub key : String
  key = E.to_lower req.email

  -- The same rules, and the same value of the day from an instant on.
  pub record Alike (from : Time) (st s : State E) : Type 0 where
    pub rules : core E key s ≡ core E key st
    pub value :
        (clock wall : Time)
        → from ≤ clock
        → day_value E key clock wall s ≡ day_value E key clock wall st

  pub Alike-trans :
      {from : Time} {a b c : State E} → Alike from a b → Alike from b c → Alike from a c
  Alike-trans h k = record {
    rules = k.rules ∙ h.rules;
    value = λ clock wall le. k.value clock wall le ∙ h.value clock wall le;
  }

  abbrev AlikeAll : Time → State E → State E → Type 0
  AlikeAll from st s =
      Alike from st s
      × (s.dedup ≡ st.dedup)
      × (params E key s ≡ params E key st)
      × (orders E key s ≡ orders E key st)

  stored-AlikeAll :
      (now : Reading) (st : State E) (t : UserTracker E) (did_reset : Bool)
      → maybe_reset_day E now.clock (get_or_create_tracker E key now.wall st) ≡ some (t, did_reset)
      → AlikeAll now.clock st (stored E key t did_reset now.wall st)
  stored-AlikeAll now st t did_reset e =
      let s = stored E key t did_reset now.wall st in
      let found = lookup-stored E key t did_reset now.wall st in
      let was = get_or_create_tracker E key now.wall st in
      let (same_orders, same_params) = maybe_reset_day-windows E key now.clock was t did_reset e in
      (
        record {
          rules = core-stored E key t did_reset now.wall st;
          value = λ clock wall le.
              day_value-found E key s t found clock wall
              ∙ value_of-twice E key now.clock clock was t did_reset le e
              ∙ value_of-wall E key clock now.wall wall st;
        },
        dedup-stored E key t did_reset now.wall st,
        params-found E key s t found ∙ same_params ∙ params_lem E key now.wall st,
        orders-found E key s t found ∙ same_orders ∙ orders_lem E key now.wall st,
      )

  pub daily_order_count-AlikeAll :
      (now : Reading) (st : State E)
      → AlikeAll now.clock st ((daily_order_count_check E).evaluate req now st).1
  unfolding check_daily_order_count
  daily_order_count-AlikeAll now st =
      elim (Option-cases (maybe_reset_day E now.clock (get_or_create_tracker E key now.wall st))) [
        | inl panics ↦
            let left : ((daily_order_count_check E).evaluate req now st).1 ≡ st = ground arith in
            subst (AlikeAll now.clock st) (sym left)
              (record { rules = refl; value = λ _ _ _. refl }, refl, refl, refl)
        | inr ((t, did_reset), e) ↦
            let left : ((daily_order_count_check E).evaluate req now st).1
                ≡ stored E key t did_reset now.wall st =
              ground arith in
            subst (AlikeAll now.clock st) (sym left) (stored-AlikeAll now st t did_reset e)
      ]

  put-Alike :
      (from wall : Time) (st : State E) (t : UserTracker E)
      → t.day_reset_at ≡ (get_or_create_tracker E key wall st).day_reset_at
      → t.daily_placed_value ≡ (get_or_create_tracker E key wall st).daily_placed_value
      → Alike from st (put_tracker E key t st)
  unfolding put_tracker
  put-Alike from wall st t e f = record {
    rules = refl;
    value = λ clock wall' le.
        day_value-found E key (put_tracker E key t st) t (lookup-insert_self key t st.trackers)
          clock wall'
        ∙ value_of-same E key clock (get_or_create_tracker E key wall st) t e f
        ∙ value_of-wall E key clock wall wall' st;
  }

  put-params :
      (wall : Time) (st : State E) (t : UserTracker E)
      → t.recent_params ≡ (get_or_create_tracker E key wall st).recent_params
      → params E key (put_tracker E key t st) ≡ params E key st
  unfolding put_tracker
  put-params wall st t e =
      params-found E key (put_tracker E key t st) t (lookup-insert_self key t st.trackers)
      ∙ e
      ∙ params_lem E key wall st

  pub rate_limit-Alike :
      (from : Time) (now : Reading) (st : State E)
      → let s = ((rate_limit_check E).evaluate req now st).1 in
        Alike from st s × (s.dedup ≡ st.dedup) × (params E key s ≡ params E key st)
  unfolding check_rate_limit put_tracker
  rate_limit-Alike from now st =
      (put-Alike from now.wall st _ refl refl, refl, put-params now.wall st _ refl)

  -- A change of the keys alone.
  dedup-Alike :
      (from : Time) (st : State E) (d : Option Dedup)
      → Alike from st (record st { dedup = d })
        × (params E key (record st { dedup = d }) ≡ params E key st)
  unfolding get_or_create_tracker
  dedup-Alike from st d = (record { rules = refl; value = λ _ _ _. refl }, refl)

  pub client_order_id-Alike :
      (from : Time) (now : Reading) (st : State E)
      → let s = ((client_order_id_dup_check E).evaluate req now st).1 in
        Alike from st s × (params E key s ≡ params E key st)
  unfolding check_client_order_id_duplicate
  client_order_id-Alike from now st =
      let s = ((client_order_id_dup_check E).evaluate req now st).1 in
      let left : s ≡ record st { dedup = s.dedup } = ground arith in
      subst (λ s'. Alike from st s' × (params E key s' ≡ params E key st)) (sym left)
        (dedup-Alike from st s.dedup)

  pub duplicate_order-Alike :
      (from : Time) (now : Reading) (st : State E)
      → Alike from st ((duplicate_order_check E).evaluate req now st).1
  unfolding check_duplicate_order
  duplicate_order-Alike from now st =
      let window = (get_effective_limits E key st).duplicate_window_secs in
      elim (Bool-cases (leb_ℤ window (pos 0))) [
        | inl off ↦
            let left : ((duplicate_order_check E).evaluate req now st).1 ≡ st = ground arith in
            subst (Alike from st) (sym left) (record { rules = refl; value = λ _ _ _. refl })
        | inr on ↦ rw on (put-Alike from now.wall st _ refl refl)
      ]

  pub daily_value-rules :
      (now : Reading) (st : State E)
      → core E key ((daily_value_check E).evaluate req now st).1 ≡ core E key st
  unfolding check_daily_value
  daily_value-rules now st =
      elim (Option-cases (maybe_reset_day E now.clock (get_or_create_tracker E key now.wall st))) [
        | inl panics ↦ ground arith
        | inr ((t, did_reset), e) ↦ ground (arith, core-stored E key t did_reset now.wall st)
      ]
