-- ===== src/Lifecycle/Breaker.antt =====
-- When the circuit breaker fires, by the rejections that the user's tracker holds.
use kite_mcp_riskguard.Prelude.{
  ◌-◌, ◌≤◌, ◌≡◌, ◌↔◌, sym, ap, ◌∙◌, Bool, true, false, String, arith, if◌then◌else◌,
}
use kite_mcp_riskguard.Prelude.Dict.{lookup}
use kite_mcp_riskguard.Env.{Env, Time}
use kite_mcp_riskguard.Model.{State}
use kite_mcp_riskguard.Lifecycle.{check_auto_freeze}
use kite_mcp_riskguard.Lifecycle.Freeze.{frozen_entry_lem, frozen_of}
use kite_mcp_riskguard.Lifecycle.Pruning.{count_since, AscendsFrom, length-prune}
use kite_mcp_riskguard.Lifecycle.AutoFreeze.{
  window, auto_of, enabled_lem, check_auto_freeze-fires_iff, check_auto_freeze-frozen,
}

module _ (E : Env) (email : String) where
  -- Whether the user's entry of the limits is frozen.
  abbrev pub is_stopped : State E → Bool
  is_stopped st = frozen_of E (lookup email st.limits)

  -- The breaker is on in the user's entry, or there is none; three rejections or more are not older than
  -- five minutes; and the account is not frozen.
  pub record Fires (now : Time) (st : State E) : Type 0 where
    pub is_on : auto_of E email (lookup (E.to_lower email) st.limits) ≡ true
    pub three : 3 ≤ count_since (now - 300000000000) (window E email st)
    pub not_frozen : is_stopped st ≡ false

  -- The breaker reports a freeze exactly if it is on for the user, three rejections or more of those that
  -- the tracker holds are not older than five minutes, and the account is not frozen already; if it
  -- reports one, it leaves the account frozen, otherwise as it was. The tracker holds its rejections
  -- in ascending order.
  pub check_auto_freeze-Fires :
      (now : Time) (st : State E)
      → AscendsFrom 0 (window E email st)
      → (((check_auto_freeze E email now st).0 ≡ true) ↔ Fires now st)
        × (is_stopped (check_auto_freeze E email now st).1
            ≡ (if (check_auto_freeze E email now st).0 then true else is_stopped st))
  check_auto_freeze-Fires now st ascends =
      let (to, from) = check_auto_freeze-fires_iff E email now st in
      let counted = length-prune (now - 300000000000) 0 (window E email st) ascends in
      let frozen = frozen_entry_lem E email st in
      (
        (
          λ yes_.
              let (on, many, free) = to yes_ in
              record {
                is_on = sym (enabled_lem E email st) ∙ on;
                three = omega (arith, many, counted);
                not_frozen = sym frozen ∙ free;
              },
          λ (h : Fires now st). from (
            enabled_lem E email st ∙ h.is_on,
            omega (arith, h.three, counted),
            frozen ∙ h.not_frozen,
          ),
        ),
        sym (frozen_entry_lem E email _)
            ∙ check_auto_freeze-frozen E email now st
            ∙ ap (λ (b : Bool). if (check_auto_freeze E email now st).0 then true else b) frozen,
      )
