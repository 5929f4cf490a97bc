-- ===== src/CheckOrder/Isolation.antt =====
-- An order of one user leaves the other users alone.
use kite_mcp_riskguard.Prelude.{
  ◌≡◌, ◌≢◌, refl, ap, sym, ◌∙◌, Bool, true, List, [], ◌∷◌, ◌++◌, ◌-◌, String, arith, All,
  Bool-cases, inl, inr,
}
use kite_mcp_riskguard.Prelude.Dict.{lookup, lookup-insert_ne}
use kite_mcp_riskguard.Env.{Env, Time}
use kite_mcp_riskguard.Model.{
  CheckResult, RejectionReason, OrderCheckRequest, UserLimits, UserTracker, State, Reading,
}
use kite_mcp_riskguard.Limits.{get_or_create_limits, persist_limits}
use kite_mcp_riskguard.Trackers.{put_tracker, get_or_create_tracker, dispatch_daily_reset_if_needed}
use kite_mcp_riskguard.Lifecycle.{
  freeze_lower, record_rejection, check_auto_freeze, is_frozen, prune, auto_freeze_window, breaker,
  breaker_reason, put_limits,
}
use kite_mcp_riskguard.Lifecycle.Freeze.{frozen_entry_lem, frozen_of}
use kite_mcp_riskguard.Chain.{Eval, result, panicked, panicked_locked, Check, Guard}
use kite_mcp_riskguard.CheckOrder.{
  Outcome, Readings, later, settle, proceed, run_checks, check_order, check_panic,
}

module _ (E : Env) where
  -- The two states agree on everything of the user `other`, on the counted orders of all users, and
  -- on the global freeze.
  abbrev pub SameFor : String → State E → State E → Type 0
  SameFor other st st' =
      (lookup other st'.limits ≡ lookup other st.limits)
      × (lookup other st'.trackers ≡ lookup other st.trackers)
      × (st'.per_second ≡ st.per_second)
      × (st'.global_frozen ≡ st.global_frozen)

  pub SameFor-trans :
      (other : String) (a b c : State E) → SameFor other a b → SameFor other b c → SameFor other a c
  SameFor-trans other a b c (l, t, p, f) (l', t', p', f') = (l' ∙ l, t' ∙ t, p' ∙ p, f' ∙ f)

  module _ (key other : String) (differ : key ≢ other) where
    pub put_tracker-SameFor :
        (t : UserTracker E) (st : State E) → SameFor other st (put_tracker E key t st)
    unfolding put_tracker
    put_tracker-SameFor t st = (refl, lookup-insert_ne other key t st.trackers differ, refl, refl)

    persist_limits-SameFor :
        (l : UserLimits E) (now : Time) (st : State E)
        → SameFor other st (persist_limits E key l now st)
    unfolding persist_limits
    persist_limits-SameFor l now st = ground arith

    freeze_lower-SameFor :
        (by reason : String) (now : Time) (st : State E)
        → SameFor other st (freeze_lower E key by reason now st)
    unfolding freeze_lower
    freeze_lower-SameFor by reason now st =
        let l : UserLimits E = record (get_or_create_limits E key st) {
          trading_frozen = true;
          frozen_by = by;
          frozen_reason = reason;
          frozen_at = now;
        } in
        let put = put_limits E key l st in
        SameFor-trans other st put (persist_limits E key l now put)
          (lookup-insert_ne other key l st.limits differ, refl, refl, refl)
          (persist_limits-SameFor l now put)

    record_rejection-SameFor :
        (reason : RejectionReason) (now : Time) (st : State E)
        → SameFor other st (record_rejection E key reason now st)
    unfolding record_rejection
    record_rejection-SameFor reason now st =
        let t = get_or_create_tracker E key now st in
        let t' : UserTracker E = record t { recent_rejections = t.recent_rejections ++ now ∷ [] } in
        ground (arith, put_tracker-SameFor t' st)

    check_auto_freeze-SameFor :
        (now : Time) (st : State E) → SameFor other st (check_auto_freeze E key now st).1
    unfolding check_auto_freeze
    check_auto_freeze-SameFor now st =
        let t = get_or_create_tracker E key now st in
        let t' : UserTracker E = record t {
          recent_rejections = prune (now - auto_freeze_window) t.recent_rejections;
        } in
        let pruned = put_tracker E key t' st in
        ground
          (arith, put_tracker-SameFor t' st, freeze_lower-SameFor breaker breaker_reason now pruned)

    settle-SameFor :
        (c : Check E) (r : CheckResult) (at : Readings) (st : State E)
        → SameFor other st (settle E c key r at st).1
    unfolding settle
    settle-SameFor c r at st =
        let recorded = record_rejection E key r.reason (at 1).wall st in
        ground (
          arith,
          record_rejection-SameFor r.reason (at 1).wall st,
          check_auto_freeze-SameFor (at 2).wall recorded,
        )

    pub dispatch-SameFor :
        (did_reset : Bool) (at : Time) (st : State E)
        → SameFor other st (dispatch_daily_reset_if_needed E key did_reset at st)
    unfolding dispatch_daily_reset_if_needed
    dispatch-SameFor did_reset at st = ground arith

  -- A check whose evaluation leaves every user but the order's alone.
  abbrev pub KeepsOthers : Check E → Type 0
  KeepsOthers c =
      (req : OrderCheckRequest E) (now : Reading) (st : State E) (other : String)
      → E.to_lower req.email ≢ other
      → SameFor other st (c.evaluate req now st).1

  module _ (req : OrderCheckRequest E) (other : String)
      (differ : E.to_lower req.email ≢ other) where
    proceed-SameFor :
        (c : Check E) (at : Readings) (ended : Eval) (st₀ st : State E)
        (k : State E → Outcome × State E)
        → SameFor other st₀ st
        → ((s : State E) → SameFor other st₀ s → SameFor other st₀ (k s).1)
        → SameFor other st₀ (proceed E c (E.to_lower req.email) at (ended, st) k).1
    unfolding proceed
    proceed-SameFor c at (result r) st₀ st k h more = elim (Bool-cases r.allowed) [
      | inl fine ↦ simp fine (more st h)
      | inr bad ↦ simp bad (
          SameFor-trans other st₀ st (settle E c (E.to_lower req.email) r at st).1 h
            (settle-SameFor (E.to_lower req.email) other differ c r at st))
    ]
    proceed-SameFor c at (panicked v) st₀ st k h more =
        let r = check_panic E c v in
        SameFor-trans other st₀ st (settle E c (E.to_lower req.email) r at st).1 h
          (settle-SameFor (E.to_lower req.email) other differ c r at st)
    proceed-SameFor c at (panicked_locked v) st₀ st k h more = ground arith

    run_checks-SameFor :
        (cs : List (Check E)) (at : Readings) (st₀ st : State E)
        → All KeepsOthers cs
        → SameFor other st₀ st
        → SameFor other st₀ (run_checks E cs req at st).1
    unfolding run_checks
    run_checks-SameFor [] at st₀ st h same = same
    run_checks-SameFor (c ∷ cs) at st₀ st (keeps, h) same =
        let ended = c.evaluate req (at 0) st in
        proceed-SameFor c at ended.0 st₀ ended.1 (λ s. run_checks E cs req (later at) s)
          (SameFor-trans other st₀ st ended.1 same (keeps req (at 0) st other differ))
          (λ s kept. run_checks-SameFor cs (later at) st₀ s h kept)

  -- An order of one user, allowed, rejected or hanging, leaves the limits, the freeze and the tracker
  -- of any other user as they were, and the counted orders of the second of all users and the global
  -- freeze too, if each check of the chain does.
  pub check_order-SameFor :
      (g : Guard E) (req : OrderCheckRequest E) (at : Readings) (other : String)
      → E.to_lower req.email ≢ E.to_lower other
      → All KeepsOthers g.checks
      → SameFor (E.to_lower other) g.state (check_order E g req at).1.state
        × (is_frozen E other (check_order E g req at).1.state ≡ is_frozen E other g.state)
  unfolding check_order is_frozen
  check_order-SameFor g req at other differ h =
      let same =
        run_checks-SameFor req (E.to_lower other) differ g.checks at g.state g.state h
          (refl, refl, refl, refl) in
      let kept : SameFor (E.to_lower other) g.state (check_order E g req at).1.state =
        ground (arith, same) in
      (
        kept,
        frozen_entry_lem E (E.to_lower other) _
            ∙ ap (frozen_of E) kept.0
            ∙ sym (frozen_entry_lem E (E.to_lower other) g.state),
      )
