-- ===== src/CheckOrder/KillSwitch.antt =====
-- What stops every order: a user's kill switch, the global freeze, and a check that waits for ever.
use kite_mcp_riskguard.Prelude.{
  ◌≡◌, refl, ap, ◌∙◌, true, false, none, List, [], ◌∷◌, ◌++◌, String, arith,
}
use kite_mcp_riskguard.Env.{Env}
use kite_mcp_riskguard.Model.{CheckResult, allow, OrderCheckRequest, State, Reading}
use kite_mcp_riskguard.Lifecycle.{is_frozen, frozen_entry}
use kite_mcp_riskguard.Checks.Account.{check_kill_switch}
use kite_mcp_riskguard.Trackers.{maybe_reset_day}
use kite_mcp_riskguard.Checks.Rates.{check_daily_order_count}
use kite_mcp_riskguard.Chain.{result, Check, Guard}
use kite_mcp_riskguard.Builtin.{kill_switch_check, daily_order_count_check}
use kite_mcp_riskguard.CheckOrder.{
  returned, hangs, Readings, later, proceed, run_checks, check_order,
}
use kite_mcp_riskguard.CheckOrder.Laws.{
  AllPass, rejects, run_checks-first, run_checks-append, check_order-thawed,
}
use kite_mcp_riskguard.CheckOrder.Strikes.{settle-policy}

module _ (E : Env) where
  -- The kill switch check reads the entry that IsFrozen reads.
  kill_switch-frozen :
      (email : String) (st : State E)
      → is_frozen E email st ≡ true
      → (r : CheckResult) × (check_kill_switch E (E.to_lower email) st ≡ r)
        × (r.allowed ≡ false)
        × (r.reason ≡ "trading_frozen")
  unfolding check_kill_switch is_frozen frozen_entry
  kill_switch-frozen email st h = ground arith

  kill_switch-thawed :
      (email : String) (st : State E)
      → is_frozen E email st ≡ false
      → check_kill_switch E (E.to_lower email) st ≡ allow
  unfolding check_kill_switch is_frozen frozen_entry
  kill_switch-thawed email st h = ground arith

  daily_order_count-panics :
      (email : String) (now : Reading) (st : State E)
      → E.tzdata ≡ false
      → check_daily_order_count E email now st ≡ none
  unfolding check_daily_order_count maybe_reset_day
  daily_order_count-panics email now st tz = ground arith

  module _ (req : OrderCheckRequest E) (at : Readings) where
    -- A chain that starts with the kill switch rejects every order of a frozen user and leaves the
    -- guard as it was; for any other user it goes on with the rest of the chain. Trading is not
    -- globally frozen.
    pub check_order-kill_switch :
        (g : Guard E) (cs : List (Check E))
        → g.state.global_frozen ≡ false
        → g.checks ≡ kill_switch_check E ∷ cs
        → (is_frozen E req.email g.state ≡ true
            → (r : CheckResult) × (check_order E g req at ≡ (returned r, g))
              × (r.allowed ≡ false)
              × (r.reason ≡ "trading_frozen"))
          × (is_frozen E req.email g.state ≡ false
              → check_order E g req at
                ≡ let (o, st) = run_checks E cs req (later at) g.state in
                  (o, record g { state = st }))
    unfolding run_checks proceed
    check_order-kill_switch g cs free chain = (
      λ frozen.
          let (r, e, no_, why) = kill_switch-frozen req.email g.state frozen in
          let c = kill_switch_check E in
          let email = E.to_lower req.email in
          let ran : run_checks E (c ∷ cs) req at g.state ≡ (returned r, g.state) =
            run_checks-first E req [] c cs at g.state g.state g.state (result r) r refl
              (ap (λ (x : CheckResult). (result x, g.state)) e) (rejects no_)
            ∙ rw (settle-policy E email c r at g.state refl) refl in
          (r, check_order-thawed E req g at free ∙ rw (chain, ran) refl, no_, why),
      λ thawed.
          check_order-thawed E req g at free
          ∙ rw (chain, kill_switch-thawed req.email g.state thawed) refl,
    )

    -- Trading is not globally frozen, and the checks before a daily order count check allow the order:
    -- if the data of the zone is missing, the check panics with the guard's
    -- mutex locked, recording its rejection waits for that mutex, and CheckOrder never returns.
    pub check_order-hangs :
        (g : Guard E) (pre post : List (Check E)) (st : State E)
        → g.state.global_frozen ≡ false
        → E.tzdata ≡ false
        → g.checks ≡ pre ++ daily_order_count_check E ∷ post
        → AllPass E req pre at g.state st
        → (check_order E g req at).0 ≡ hangs
    unfolding run_checks proceed
    check_order-hangs g pre post st free tz chain passes =
        let ran =
          run_checks-append E req pre (daily_order_count_check E ∷ post) at g.state st passes in
        rw (check_order-thawed E req g at free, chain, ran, daily_order_count-panics _ _ st tz) refl
