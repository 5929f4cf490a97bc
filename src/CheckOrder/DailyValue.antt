-- ===== src/CheckOrder/DailyValue.antt =====
-- The daily value cap over orders that are checked and recorded in turn.
use kite_mcp_riskguard.Prelude.{
  ◌≡◌, ◌≢◌, ◌⊎◌, refl, sym, ap, ◌∙◌, Bool, true, false, Option, some, none, List, [], ◌∷◌, String,
  arith, All, if◌then◌else◌, Bool-cases, Option-cases, inl, inr,
}
use kite_mcp_riskguard.Prelude.Dict.{lookup, lookup-insert_self}
use kite_mcp_riskguard.Env.{Env, Time}
use kite_mcp_riskguard.Model.{
  CheckResult, OrderCheckRequest, UserLimits, UserTracker, State, Reading,
}
use kite_mcp_riskguard.Limits.{get_effective_limits}
use kite_mcp_riskguard.Trackers.{
  get_or_create_tracker, put_tracker, maybe_reset_day, dispatch_daily_reset_if_needed,
}
use kite_mcp_riskguard.Checks.Values.{check_daily_value, daily_value_result, cumulative, notional}
use kite_mcp_riskguard.CheckOrder.{record_order, count_order, placed_after}
use kite_mcp_riskguard.CheckOrder.DailyCap.{SameDay, kept_day, record_order-kept, same_effective}

module _ (E : Env) where
  -- Orders of one user, each checked against the day's value and recorded if the check allows it.
  -- `none`: maybeResetDay panicked.
  unfoldable pub place_all :
      String → List (OrderCheckRequest E × Reading) → State E → Option (State E)
  place_all email [] st = some st
  place_all email ((req, now) ∷ os) st = elim (check_daily_value E (E.to_lower email) req now st) [
    | none ↦ none
    | some (r, st') ↦
        if r.allowed
        then (elim (record_order E email (some req) now st') [
          | none ↦ none
          | some st'' ↦ place_all email os st''
        ])
        else place_all email os st'
  ]

  -- The cap's currency: a value in it can be compared with the cap, and a sum in it is in it.
  module _ (cap : E.Money) (InCurrency : E.Money → Type 0)
      (compares : (m : E.Money) → InCurrency m → E.greater_than m cap ≢ none)
      (sums : (a b total : E.Money)
        → InCurrency a
        → InCurrency b
        → E.add a b ≡ some total
        → InCurrency total) where
    -- A value that is zero, or in the cap's currency and not above the cap.
    abbrev pub Fits : E.Money → Type 0
    Fits v = (E.is_zero v ≡ true) ⊎ (InCurrency v × (E.greater_than v cap ≡ some false))

    cumulative-InCurrency :
        (v order_value total : E.Money)
        → Fits v
        → InCurrency order_value
        → cumulative E v order_value ≡ some total
        → InCurrency total
    unfolding cumulative
    cumulative-InCurrency v order_value total h same e = elim (Bool-cases (E.is_zero v)) [
      | inl zero_ ↦ let whole : order_value ≡ total = ground arith in rw (sym whole) same
      | inr some_ ↦
          let added : E.add v order_value ≡ some total = ground arith in
          (elim h [
            | inl zero_ ↦ cc
            | inr (inside, within) ↦ sums v order_value total inside same added
          ])
    ]

    allowed_within :
        (key : String) (v total : E.Money) (req : OrderCheckRequest E) (st : State E)
        (exceeds : Bool)
        → (get_effective_limits E key st).max_daily_value_inr ≡ cap
        → cumulative E v (notional E req) ≡ some total
        → E.greater_than total cap ≡ some exceeds
        → (daily_value_result E key v req st).allowed ≡ true
        → exceeds ≡ false
    unfolding daily_value_result
    allowed_within key v total req st exceeds capped e over ok = ground arith

    -- The value after an order that the check allows is recorded.
    placed_after-Fits :
        (key : String) (v : E.Money) (req : OrderCheckRequest E) (st : State E)
        → (get_effective_limits E key st).max_daily_value_inr ≡ cap
        → Fits v
        → InCurrency (notional E req)
        → (E.is_positive req.price ≡ true → (daily_value_result E key v req st).allowed ≡ true)
        → Fits (placed_after E v req)
    unfolding placed_after
    placed_after-Fits key v req st capped h same ok = elim (Bool-cases (E.is_positive req.price)) [
      | inr free ↦ rw free h
      | inl priced ↦ (elim (Option-cases (cumulative E v (notional E req))) [
        | inl fails ↦ rw (priced, fails, placed_after) h
        | inr (total, e) ↦ (elim (Option-cases (E.greater_than total cap)) [
          | inl wrong ↦ absurd (compares total (cumulative-InCurrency v _ total h same e) wrong)
          | inr (exceeds, over) ↦
              let within = allowed_within key v total req st exceeds capped e over (ok priced) in
              rw (priced, e, placed_after)
                (inr (cumulative-InCurrency v _ total h same e, over ∙ ap some within))
        ])
      ])
    ]

    check_daily_value_lem :
        (key : String) (req : OrderCheckRequest E) (now : Reading) (st : State E)
        (t : UserTracker E)
        → E.tzdata ≡ true
        → lookup key st.trackers ≡ some t
        → SameDay E t.day_reset_at now.clock
        → (r : CheckResult) × (st' : State E) × (check_daily_value E key req now st ≡ some (r, st'))
          × (E.is_positive req.price ≡ true
              → r ≡ daily_value_result E key t.daily_placed_value req st)
          × (lookup key st'.trackers ≡ some t)
          × (st'.limits ≡ st.limits)
    unfolding check_daily_value
    check_daily_value_lem key req now st t tz held day =
        let found : get_or_create_tracker E key now.wall st ≡ t =
          unfold get_or_create_tracker in ground arith in
        let day_kept : maybe_reset_day E now.clock (get_or_create_tracker E key now.wall st)
            ≡ some (t, false) =
          rw found (kept_day E t now.clock tz day) in
        elim (Bool-cases (E.is_positive req.price)) [
          | inl priced ↦
              rw (priced, day_kept, check_daily_value)
                (
                  _,
                  _,
                  refl,
                  (λ _. refl),
                  unfold dispatch_daily_reset_if_needed put_tracker in
                      lookup-insert_self key t st.trackers,
                  unfold dispatch_daily_reset_if_needed put_tracker in refl,
                )
          | inr free ↦ rw (free, check_daily_value) (_, _, refl, (λ no_. cc), held, refl)
        ]

    -- Within a trading day the placed value never exceeds the user's cap. From a tracker whose value is
    -- zero or within the cap, any orders that are each checked by the daily value check and, where it
    -- allows them, recorded, leave the value zero or within the cap, and every call returns. The orders'
    -- values are in the cap's currency, the zone is there, and no 09:15 IST lies between the tracker's last
    -- reset and any of the instants. An order without a positive price counts nothing.
    pub place_all-Fits :
        (email : String) (os : List (OrderCheckRequest E × Reading)) (st : State E)
        (t : UserTracker E) (d : Time)
        → E.tzdata ≡ true
        → (get_effective_limits E (E.to_lower email) st).max_daily_value_inr ≡ cap
        → lookup (E.to_lower email) st.trackers ≡ some t
        → t.day_reset_at ≡ d
        → All
            (λ (o : OrderCheckRequest E × Reading).
              SameDay E d o.1.clock × InCurrency (notional E o.0))
            os
        → Fits t.daily_placed_value
        → (end : State E) × (t' : UserTracker E) × (place_all email os st ≡ some end)
          × (lookup (E.to_lower email) end.trackers ≡ some t')
          × Fits t'.daily_placed_value
    unfolding place_all
    place_all-Fits email [] st t d tz capped held reset days h = (st, t, refl, held, h)
    place_all-Fits email ((req, now) ∷ os) st t d tz capped held reset ((day, same), days) h =
        let key = E.to_lower email in
        let today : SameDay E t.day_reset_at now.clock = omega (arith, reset, day) in
        let (r, st₁, checked, decides, held₁, limits₁) =
          check_daily_value_lem key req now st t tz held today in
        let cap₁ =
          ap (λ (l : UserLimits E). l.max_daily_value_inr) (same_effective E key st st₁ limits₁)
          ∙ capped in
        elim (Bool-cases r.allowed) [
          | inr refused ↦
              let (end, t', ran, found, fits) =
                place_all-Fits email os st₁ t d tz cap₁ held₁ reset days h in
              rw (checked, refused, place_all) (end, t', ran, found, fits)
          | inl fine ↦
              let (st₂, recorded, held₂, limits₂) =
                record_order-kept E email (some req) now st₁ t tz held₁ today in
              let cap₂ =
                ap (λ (l : UserLimits E). l.max_daily_value_inr)
                  (same_effective E key st₁ st₂ limits₂)
                ∙ cap₁ in
              let t₂ = count_order E (some req) now t in
              let h₂ : Fits t₂.daily_placed_value =
                unfold count_order in
                placed_after-Fits key t.daily_placed_value req st capped h same
                  (λ priced. ap (λ (x : CheckResult). x.allowed) (sym (decides priced)) ∙ fine) in
              let reset₂ : t₂.day_reset_at ≡ d = unfold count_order in reset in
              let (end, t', ran, found, fits) =
                place_all-Fits email os st₂ t₂ d tz cap₂ held₂ reset₂ days h₂ in
              rw (checked, fine, recorded, place_all) (end, t', ran, found, fits)
        ]
