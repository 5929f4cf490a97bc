-- ===== src/CheckOrder/Laws.antt =====
-- When an order is allowed, and which check decides one that is not.
use kite_mcp_riskguard.Prelude.{
  ℕ, zero, suc, ◌≡◌, refl, sym, ◌↔◌, true, false, List, [], ◌∷◌, ◌++◌, String, length, arith, ◌∙◌,
  ap, Bool-cases, inl, inr,
}
use kite_mcp_riskguard.Env.{Env}
use kite_mcp_riskguard.Model.{CheckResult, allow, OrderCheckRequest, State}
use kite_mcp_riskguard.Chain.{Eval, result, panicked, panicked_locked, Check, Guard}
use kite_mcp_riskguard.CheckOrder.{
  Outcome, returned, Readings, later, global_freeze_result, check_panic, settle, deliver, proceed,
  run_checks, check_order,
}

-- The readings from the n-th on.
abbrev pub skip : ℕ → Readings → Readings
skip zero at = at
skip (suc n) at = skip n (later at)

module _ (E : Env) (req : OrderCheckRequest E) where
  -- Every check of the list allows the request, each evaluated in the state that the one before it
  -- left, and the last leaves `end`.
  abbrev pub AllPass : List (Check E) → Readings → State E → State E → Type 0
  AllPass [] at st end = end ≡ st
  AllPass (c ∷ cs) at st end =
      (r : CheckResult) × (st' : State E) × (c.evaluate req (at 0) st ≡ (result r, st'))
      × (r.allowed ≡ true)
      × AllPass cs (later at) st' end

  -- How a check stops an order: it rejects it, or it panics and the panic is turned into a rejection.
  pub data StopsWith (c : Check E) : Eval → CheckResult → Type 0 where
    rejects : {r : CheckResult} → r.allowed ≡ false → StopsWith c (result r) r
    panics : {v : String} {r : CheckResult} → r ≡ check_panic E c v → StopsWith c (panicked v) r

  pub StopsWith-ne_allowed :
      (c : Check E) (e : Eval) (r : CheckResult) → StopsWith c e r → r.allowed ≡ false
  unfolding check_panic
  StopsWith-ne_allowed c e r (rejects bad) = bad
  StopsWith-ne_allowed c e r (panics p) = rw p refl

  pub settle_keeps_allowed :
      (c : Check E) (email : String) (r : CheckResult) (at : Readings) (st : State E)
      → (settle E c email r at st).0.allowed ≡ r.allowed
  unfolding settle
  settle_keeps_allowed c email r at st = ground arith

  module _ (c : Check E) (email : String) (at : Readings) (k : State E → Outcome × State E) where
    pub proceed_allowed :
        (r : CheckResult) (st : State E)
        → r.allowed ≡ true
        → proceed E c email at (result r, st) k ≡ k st
    unfolding proceed
    proceed_allowed r st ok = ground arith

    pub proceed_stopped :
        (e : Eval) (r : CheckResult) (st : State E)
        → StopsWith c e r
        → proceed E c email at (e, st) k ≡ deliver E (settle E c email r at st)
    unfolding proceed
    proceed_stopped e r st (rejects refused) = ground arith
    proceed_stopped e r st (panics p) = rw p

  run_checks-AllPass :
      (cs : List (Check E)) (at : Readings) (st end : State E)
      → AllPass cs at st end
      → run_checks E cs req at st ≡ (returned allow, end)
  unfolding run_checks
  run_checks-AllPass [] at st end h = rw h
  run_checks-AllPass (c ∷ cs) at st end (r, st', e, ok, h) =
      rw e (proceed_allowed c _ at _ r st' ok ∙ run_checks-AllPass cs (later at) st' end h)

  -- A run passes over a prefix of checks that allow the order.
  pub run_checks-append :
      (pre cs : List (Check E)) (at : Readings) (st st' : State E)
      → AllPass pre at st st'
      → run_checks E (pre ++ cs) req at st ≡ run_checks E cs req (skip (length pre) at) st'
  unfolding run_checks
  run_checks-append [] cs at st st' h = ap (run_checks E cs req at) (sym h)
  run_checks-append (c ∷ pre) cs at st st' (r, s, e, ok, h) =
      rw e (proceed_allowed c _ at _ r s ok ∙ run_checks-append pre cs (later at) s st' h)

  -- The first check that stops an order decides the outcome, whatever follows it in the chain.
  pub run_checks-first :
      (cs : List (Check E)) (c : Check E) (post : List (Check E)) (at : Readings)
      (st st' st'' : State E) (e : Eval) (r : CheckResult)
      → AllPass cs at st st'
      → c.evaluate req (skip (length cs) at 0) st' ≡ (e, st'')
      → StopsWith c e r
      → run_checks E (cs ++ c ∷ post) req at st
        ≡ deliver E (settle E c (E.to_lower req.email) r (skip (length cs) at) st'')
  unfolding run_checks
  run_checks-first cs c post at st st' st'' e r h ev stops =
      run_checks-append cs (c ∷ post) at st st' h
      ∙ rw ev (proceed_stopped c _ (skip (length cs) at) _ e r st'' stops)

  settle-ne_allowed :
      (c : Check E) (email : String) (r r' : CheckResult) (at : Readings) (st end : State E)
      → r.allowed ≡ false
      → deliver E (settle E c email r at st) ≡ (returned r', end)
      → r'.allowed ≡ false
  settle-ne_allowed c email r r' at st end no_ e =
      ground (arith, settle_keeps_allowed c email r at st)

  proceed_inversion :
      (c : Check E) (email : String) (at : Readings) (k : State E → Outcome × State E)
      (ended : Eval) (st end : State E) (r : CheckResult)
      → proceed E c email at (ended, st) k ≡ (returned r, end)
      → r.allowed ≡ true
      → (r' : CheckResult) × (ended ≡ result r') × (r'.allowed ≡ true) × (k st ≡ (returned r, end))
  unfolding proceed check_panic
  proceed_inversion c email at k (result r') st end r e ok = elim (Bool-cases r'.allowed) [
    | inl fine ↦ (r', refl, fine, ground arith)
    | inr bad ↦
        let refused : r.allowed ≡ false =
          settle-ne_allowed c email r' r at st end bad (ground arith) in
        cc
  ]
  proceed_inversion c email at k (panicked v) st end r e ok =
      let refused : r.allowed ≡ false =
        settle-ne_allowed c email (check_panic E c v) r at st end refl e in
      cc
  proceed_inversion c email at k (panicked_locked v) st end r e ok = ground arith

  AllPass-run_checks :
      (cs : List (Check E)) (at : Readings) (st end : State E) (r : CheckResult)
      → run_checks E cs req at st ≡ (returned r, end)
      → r.allowed ≡ true
      → (r ≡ allow) × AllPass cs at st end
  unfolding run_checks
  AllPass-run_checks [] at st end r e ok = ground arith
  AllPass-run_checks (c ∷ cs) at st end r e ok =
      let ended = c.evaluate req (at 0) st in
      let (r', same, fine, more) = proceed_inversion c _ at _ ended.0 ended.1 end r e ok in
      let (is_allow, passes) = AllPass-run_checks cs (later at) ended.1 end r more ok in
      (is_allow, (r', ended.1, ap (λ (x : Eval). (x, ended.1)) same, fine, passes))

  pub check_order-thawed :
      (g : Guard E) (at : Readings)
      → g.state.global_frozen ≡ false
      → check_order E g req at
        ≡ let (o, st) = run_checks E g.checks req at g.state in (o, record g { state = st })
  unfolding check_order
  check_order-thawed g at free = ground arith

  pub check_order-frozen :
      (g : Guard E) (at : Readings)
      → g.state.global_frozen ≡ true
      → check_order E g req at ≡ (returned global_freeze_result, g)
  unfolding check_order
  check_order-frozen g at frozen = ground arith

  thawed-allowed :
      (g g' : Guard E) (at : Readings) (r : CheckResult)
      → g.state.global_frozen ≡ false
      → check_order E g req at ≡ (returned r, g')
      → r.allowed ≡ true
      → AllPass g.checks at g.state g'.state × (g'.checks ≡ g.checks)
  thawed-allowed g g' at r free e ok =
      let ran = run_checks E g.checks req at g.state in
      let whole : Path (Outcome × Guard E) (ran.0, record g { state = ran.1 }) (returned r, g') =
        sym (check_order-thawed g at free) ∙ e in
      let ended : ran ≡ (returned r, g'.state) = λ i. ((whole i).0, (whole i).1.state) in
      (
        (AllPass-run_checks g.checks at g.state g'.state r ended ok).1,
        λ i. ((sym whole) i).1.checks,
      )

  -- An order is allowed exactly when trading is not globally frozen and every registered check, in
  -- the order of the chain and each in the state that the one before it left, allows it; the guard
  -- then keeps its chain and has the state that the last check left. So a check that rejects or
  -- panics, at any place, blocks the order.
  pub check_order-allowed_iff :
      (g g' : Guard E) (at : Readings)
      → ((r : CheckResult) × (check_order E g req at ≡ (returned r, g')) × (r.allowed ≡ true)) ↔ (
          (g.state.global_frozen ≡ false)
          × AllPass g.checks at g.state g'.state
          × (g'.checks ≡ g.checks))
  check_order-allowed_iff g g' at = (
    λ (r, e, ok). elim (Bool-cases g.state.global_frozen) [
      | inl frozen ↦
          let blocked = sym (check_order-frozen g at frozen) ∙ e in
          let refused : r.allowed ≡ false = ground arith in cc
      | inr free ↦ let (passes, same) = thawed-allowed g g' at r free e ok in (free, passes, same)
    ],
    λ (free, passes, same). (
      allow,
      check_order-thawed g at free
          ∙ ap (λ (p : Outcome × State E). (p.0, record g { state = p.1 }))
              (run_checks-AllPass g.checks at g.state g'.state passes)
          ∙ λ i. (returned allow, record { checks = (sym same) i; state = g'.state }),
      refl,
    ),
  )
