-- ===== src/Checks/Account.antt =====
-- internal_checks.go: the policy gates, checkKillSwitch and checkConfirmationRequired.
use kite_mcp_riskguard.Prelude.{not, none, some, [], ◌∷◌, String, ◌==◌, if◌then◌else◌}
use kite_mcp_riskguard.Prelude.Dict.{lookup}
use kite_mcp_riskguard.Env.{Env, text}
use kite_mcp_riskguard.Model.Reasons.{reason_confirmation_required, reason_trading_frozen}
use kite_mcp_riskguard.Model.{CheckResult, allow, reject, OrderCheckRequest, State}
use kite_mcp_riskguard.Limits.{get_effective_limits}

module _ (E : Env) where
  unfoldable pub check_kill_switch : String → State E → CheckResult
  check_kill_switch email st = elim (lookup email st.limits) [
    | none ↦ allow
    | some l ↦
        if l.trading_frozen
        then reject reason_trading_frozen (
            E.sprintf "Trading is frozen for your account. Reason: %s. Contact admin."
              (text (if l.frozen_reason == "" then "no reason given" else l.frozen_reason) ∷ []))
        else allow
  ]

  unfoldable pub check_confirmation_required : OrderCheckRequest E → State E → CheckResult
  check_confirmation_required req st =
      if not (get_effective_limits E req.email st).require_confirm_all_orders
      then allow
      else if req.confirmed
      then allow
      else reject reason_confirmation_required
          "Order confirmation required: every order must be explicitly acknowledged. Pass confirm=true to proceed."
