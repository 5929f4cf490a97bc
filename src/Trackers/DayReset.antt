-- ===== src/Trackers/DayReset.antt =====
-- The daily reset at 09:15 IST.
use mathlib.Core.Path.{subst}
use kite_mcp_riskguard.Prelude.{
  ℕ, ◌+◌, ◌*◌, ◌-◌, ◌/◌, ◌≤◌, ◌<◌, ◌≡◌, ◌↔◌, refl, Bool, true, false, some, ltb, arith, Bool-cases,
  inl, inr,
}
use kite_mcp_riskguard.Prelude.Int.{pos}
use kite_mcp_riskguard.Env.{Env, Time}
use kite_mcp_riskguard.Calendar.{in_ist, open_of_day, reset_time}
use kite_mcp_riskguard.Model.{UserTracker}
use kite_mcp_riskguard.Trackers.{maybe_reset_day}

-- The instant of 09:15 IST, which is 03:45 UTC, of a day, counted from 1 January of year 1.
abbrev pub nine_fifteen : ℕ → Time
nine_fifteen day = day * 86400000000000 + 13500000000000

-- A 09:15 IST comes after the one instant and not after the other.
abbrev pub Passes : Time → Time → Type 0
Passes from to = (day : ℕ) × (from < nine_fifteen day) × (nine_fifteen day ≤ to)

Passes-reset_time : (a b : Time) → Passes a b → in_ist a < reset_time (in_ist b)
unfolding reset_time
Passes-reset_time a b (day, after, le) = ground arith

reset_time-Passes : (a b : Time) → in_ist a < reset_time (in_ist b) → Passes a b
unfolding reset_time
reset_time-Passes a b lt = elim (Bool-cases (ltb (in_ist b) (open_of_day (in_ist b)))) [
  | inl early ↦ (in_ist b / 86400000000000 - 1, ground arith, ground arith)
  | inr late ↦ (in_ist b / 86400000000000, ground arith, ground arith)
]

-- On either side of no 09:15 IST, the later instant's boundary is not after the earlier instant.
pub not_Passes : (a b : Time) → ¬ Passes a b → reset_time (in_ist b) ≤ in_ist a
not_Passes a b none_ = elim (Bool-cases (ltb (in_ist a) (reset_time (in_ist b)))) [
  | inl crossed ↦ absurd (none_ (reset_time-Passes a b (ground (arith, crossed))))
  | inr same ↦ ground (arith, same)
]

module _ (E : Env) where
  -- What a call makes of a tracker, and whether it resets.
  abbrev pub Reset : UserTracker E → Time → UserTracker E → Type 0
  Reset t clock t' =
      (t'.daily_order_count ≡ pos 0)
      × (t'.daily_placed_value ≡ E.money_zero)
      × (t'.day_reset_at ≡ clock)
      × (t'.recent_orders ≡ t.recent_orders)
      × (t'.recent_params ≡ t.recent_params)
      × (t'.recent_rejections ≡ t.recent_rejections)

  maybe_reset_day-Passes :
      (clock : Time) (t : UserTracker E)
      → E.tzdata ≡ true
      → (t' : UserTracker E) × (did : Bool) × (maybe_reset_day E clock t ≡ some (t', did))
        × ((did ≡ true) ↔ Passes t.day_reset_at clock)
        × (did ≡ true → Reset t clock t')
        × (did ≡ false → t' ≡ t)
  unfolding maybe_reset_day
  maybe_reset_day-Passes clock t tz =
      elim (Bool-cases (ltb (in_ist t.day_reset_at) (reset_time (in_ist clock)))) [
        | inl crossed ↦ (
          record t {
            daily_order_count = pos 0;
            daily_placed_value = E.money_zero;
            day_reset_at = clock;
          },
          true,
          ground arith,
          (λ _. reset_time-Passes t.day_reset_at clock (ground (arith, crossed)), λ _. refl),
          λ _. (refl, refl, refl, refl, refl, refl),
          λ no_. cc,
        )
        | inr same ↦ (
          t,
          false,
          ground arith,
          (
            λ no_. cc,
            λ passes.
                let lt = Passes-reset_time t.day_reset_at clock passes in ground (arith, same, lt),
          ),
          λ no_. cc,
          λ _. refl,
        )
      ]

  -- Where the zone is there, a call for a tracker at an instant returns, and it resets exactly if a 09:15
  -- IST comes after the tracker's last reset and not after the instant. A reset clears the day's count and
  -- value, sets its time and keeps the windows; without one the tracker stays as it was. So after a
  -- reset a later call resets again exactly if another 09:15 IST comes in between.
  pub maybe_reset_day-once :
      (clock : Time) (t : UserTracker E)
      → E.tzdata ≡ true
      → (t' : UserTracker E) × (did : Bool) × (maybe_reset_day E clock t ≡ some (t', did))
        × ((did ≡ true) ↔ Passes t.day_reset_at clock)
        × (did ≡ true → Reset t clock t')
        × (did ≡ false → t' ≡ t)
        × ((clock' : Time)
            → (t'' : UserTracker E) × (again : Bool) × (maybe_reset_day E clock' t'
                ≡ some (t'', again))
              × (did ≡ true → (again ≡ true) ↔ Passes clock clock'))
  maybe_reset_day-once clock t tz =
      let (t', did, e, iff, clears, keeps) = maybe_reset_day-Passes clock t tz in
      (
        t',
        did,
        e,
        iff,
        clears,
        keeps,
        λ clock'.
            let (t'', again, e', iff', _, _) = maybe_reset_day-Passes clock' t' tz in
            (
              t'',
              again,
              e',
              λ yes_.
                  let at : t'.day_reset_at ≡ clock = (clears yes_).2 in
                  subst (λ c. (again ≡ true) ↔ Passes c clock') at iff',
            ),
      )
