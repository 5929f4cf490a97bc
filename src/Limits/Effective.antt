-- ===== src/Limits/Effective.antt =====
-- The limits that the checks use.
use kite_mcp_riskguard.Prelude.{
  ◌≡◌, ◌≢◌, false, Option, some, none, String, arith, Option-cases, inl, inr,
}
use kite_mcp_riskguard.Prelude.Int.{pos, eqb_ℤ_iff}
use kite_mcp_riskguard.Prelude.Dict.{lookup}
use kite_mcp_riskguard.Env.{Env}
use kite_mcp_riskguard.Model.{UserLimits, State}
use kite_mcp_riskguard.Limits.{system_defaults, fill_defaults, get_effective_limits}

module _ (E : Env) where
  -- No limit of these is zero.
  abbrev pub IsFilled : UserLimits E → Type 0
  IsFilled l =
      (E.is_zero l.max_single_order_inr ≡ false)
      × (E.is_zero l.max_daily_value_inr ≡ false)
      × (l.max_orders_per_day ≢ pos 0)
      × (l.max_orders_per_minute ≢ pos 0)
      × (l.duplicate_window_secs ≢ pos 0)

  -- The flags that an entry sets, or that the defaults set for a user without one.
  abbrev pub SameFlags : UserLimits E → UserLimits E → Type 0
  SameFlags l m =
      (l.auto_freeze_on_limit_hit ≡ m.auto_freeze_on_limit_hit)
      × (l.require_confirm_all_orders ≡ m.require_confirm_all_orders)
      × (l.allow_off_hours ≡ m.allow_off_hours)
      × (l.trading_frozen ≡ m.trading_frozen)

  abbrev pub entry_of : Option (UserLimits E) → UserLimits E
  entry_of (some l) = l
  entry_of none = system_defaults E

  -- The effective limits of any user are all set: no cap, rate or window that a check reads is zero,
  -- whatever the user's entry holds, and filling in the defaults changes no flag. The two amounts of
  -- the defaults are not zero as Money.
  pub get_effective_limits-IsFilled :
      (email : String) (st : State E)
      → E.is_zero (system_defaults E).max_single_order_inr ≡ false
      → E.is_zero (system_defaults E).max_daily_value_inr ≡ false
      → IsFilled (get_effective_limits E email st)
        × SameFlags
            (get_effective_limits E email st)
            (entry_of (lookup (E.to_lower email) st.limits))
  unfolding get_effective_limits fill_defaults
  get_effective_limits-IsFilled email st h k =
      elim (Option-cases (lookup (E.to_lower email) st.limits)) [
        | inl missing ↦ ground arith
        | inr (l, found) ↦ ground (
          arith,
          eqb_ℤ_iff l.max_orders_per_day (pos 0),
          eqb_ℤ_iff l.max_orders_per_minute (pos 0),
          eqb_ℤ_iff l.duplicate_window_secs (pos 0),
        )
      ]
