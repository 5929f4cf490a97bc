-- ===== src/CheckOrder/Acceptance/Verdict.antt =====
-- CheckOrder of a guard that NewGuard built, against the table of rules.
use kite_mcp_riskguard.Prelude.{
  ◌≡◌, ◌≤◌, ◌⊎◌, refl, ap, ◌∙◌, true, false, List, [], ◌∷◌, String, arith, Bool-cases, inl, inr,
  map,
}
use kite_mcp_riskguard.Env.{Env}
use kite_mcp_riskguard.Model.{CheckResult, allow, OrderCheckRequest, State, Reading}
use kite_mcp_riskguard.Checks.BandLaws.{IsInt64}
use kite_mcp_riskguard.Chain.{Check, Guard, result}
use kite_mcp_riskguard.Chain.Registrations.{insert_checks-ordered}
use kite_mcp_riskguard.Builtin.{new_guard, builtin_checks}
use kite_mcp_riskguard.CheckOrder.{
  returned, Readings, later, settle, run_checks, check_order, global_freeze_result,
}
use kite_mcp_riskguard.CheckOrder.Laws.{
  rejects, settle_keeps_allowed, proceed_allowed, proceed_stopped, check_order-thawed,
  check_order-frozen,
}
use kite_mcp_riskguard.CheckOrder.Alone.{AnswersAsIn}
use kite_mcp_riskguard.CheckOrder.Alone.Answers.{builtin_checks-AnswersAsIn}
use kite_mcp_riskguard.CheckOrder.Acceptance.Reasons.{
  Rule, rules, reason_of, check_of, IsBreached, Decides, rule-Decides,
}

module _ (E : Env) (req : OrderCheckRequest E) where
  -- None of the rules is breached in the state, each at the reading that its check makes.
  abbrev pub NoneBreached : List Rule → Readings → State E → Type 0
  NoneBreached [] at st = Unit
  NoneBreached (x ∷ xs) at st = (¬ IsBreached E req x (at 0) st) × NoneBreached xs (later at) st

  -- The rule is breached, and those before it are not.
  abbrev pub IsFirstBreach : List Rule → Readings → State E → Rule → Type 0
  IsFirstBreach [] at st x = ⊥
  IsFirstBreach (y ∷ ys) at st x =
      ((x ≡ y) × IsBreached E req y (at 0) st)
      ⊎ ((¬ IsBreached E req y (at 0) st) × IsFirstBreach ys (later at) st x)

  -- What the rules say: the order is allowed, or the first rule that is breached rejects it.
  abbrev pub Verdict : List Rule → Readings → State E → CheckResult → Type 0
  Verdict xs at st r =
      ((r.allowed ≡ true) × NoneBreached xs at st)
      ⊎ ((x : Rule) × IsFirstBreach xs at st x × (r.allowed ≡ false) × (r.reason ≡ reason_of x))

  settle_keeps_reason :
      (c : Check E) (email : String) (r : CheckResult) (at : Readings) (st : State E)
      → (settle E c email r at st).0.reason ≡ r.reason
  unfolding settle
  settle_keeps_reason c email r at st = ground arith

  Verdict-past :
      (x : Rule) (xs : List Rule) (at : Readings) (st : State E) (r : CheckResult)
      → ¬ IsBreached E req x (at 0) st
      → Verdict xs (later at) st r
      → Verdict (x ∷ xs) at st r
  Verdict-past x xs at st r fine (inl (ok, none_)) = inl (ok, (fine, none_))
  Verdict-past x xs at st r fine (inr (y, first, refused, why)) =
      inr (y, inr (fine, first), refused, why)

  run_checks-Verdict :
      (xs : List Rule) (at : Readings) (st s : State E)
      → ((x : Rule) (now : Reading) → Decides E req x now st)
      → AnswersAsIn E req st (map (check_of E) xs) at s
      → (r : CheckResult) × ((run_checks E (map (check_of E) xs) req at s).0 ≡ returned r)
        × Verdict xs at st r
  unfolding run_checks
  run_checks-Verdict [] at st s decides h = (allow, refl, inl (refl, tt))
  run_checks-Verdict (x ∷ xs) at st s decides (same, h) =
      let c = check_of E x in
      let key = E.to_lower req.email in
      let (r, e, to, why) = decides x (at 0) in
      let left = (c.evaluate req (at 0) s).1 in
      let more = λ (s' : State E). run_checks E (map (check_of E) xs) req (later at) s' in
      let ended : c.evaluate req (at 0) s ≡ (result r, left) = λ i. ((same ∙ e) i, left) in
      elim (Bool-cases r.allowed) [
        | inl ok ↦
            let (r', ran, verdict) = run_checks-Verdict xs (later at) st left decides h in
            (
              r',
              rw ended (ap (λ p. p.0) (proceed_allowed E req c key at more r left ok) ∙ ran),
              Verdict-past x xs at st r' (λ b. let refused = to.1 b in cc) verdict,
            )
        | inr bad ↦
            let r' = (settle E c key r at left).0 in
            (
              r',
              rw ended (
                  ap (λ p. p.0)
                    (proceed_stopped E req c key at more (result r) r left (rejects bad))),
              inr (
                x,
                inl (refl, to.0 bad),
                settle_keeps_allowed E req c key r at left ∙ bad,
                settle_keeps_reason c key r at left ∙ why bad,
              ),
            )
      ]

module _ (E : Env) where
  new_guard-builtin_checks : (w : E.World) → (new_guard E w).checks ≡ builtin_checks E
  unfolding new_guard
  new_guard-builtin_checks w = insert_checks-ordered E (builtin_checks E) [] (omega arith)

  -- CheckOrder of a guard that NewGuard built, with no further checks and in any state, returns what the
  -- rules say: the global freeze's result while it is on; otherwise an allowed result if no rule is
  -- breached, and a rejection with the reason of the first rule that is. The state at the start decides,
  -- each rule at its check's reading, though the checks run one after another and some change
  -- trackers and keys meanwhile. The zone is there, a conversion to int64 gives a 64-bit integer,
  -- and the clock does not go back between the count of the day and its value.
  pub check_order-Verdict :
      (w : E.World) (st : State E) (req : OrderCheckRequest E) (at : Readings)
      → E.tzdata ≡ true
      → ((x : E.Float) → IsInt64 (E.truncate x))
      → (at 6).clock ≤ (at 11).clock
      → (r : CheckResult) × ((check_order E (record (new_guard E w) { state = st }) req at).0
          ≡ returned r)
        × (((st.global_frozen ≡ true) × (r ≡ global_freeze_result))
            ⊎ ((st.global_frozen ≡ false) × Verdict E req rules at st r))
  check_order-Verdict w st req at tz truncates le =
      let g : Guard E = record (new_guard E w) { state = st } in
      elim (Bool-cases st.global_frozen) [
        | inl frozen ↦ (
          global_freeze_result,
          ap (λ p. p.0) (check_order-frozen E req g at frozen),
          inl (frozen, refl),
        )
        | inr free ↦
            let (r, ran, verdict) =
              run_checks-Verdict E req rules at st st
                (λ x now. rule-Decides E req tz truncates now st x)
                (builtin_checks-AnswersAsIn E req at st le) in
            let run_built_in =
              ap (λ cs. (run_checks E cs req at st).0) (new_guard-builtin_checks w) ∙ ran in
            (
              r,
              ap (λ p. p.0) (check_order-thawed E req g at free) ∙ run_built_in,
              inr (free, verdict),
            )
      ]
