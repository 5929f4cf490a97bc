-- ===== src/CheckOrder/Returns.antt =====
-- When CheckOrder returns.
use mathlib.Core.List.{reverse}
use kite_mcp_riskguard.Prelude.{
  ◌≡◌, ◌≢◌, refl, ap, ◌∙◌, true, List, [], ◌∷◌, String, All, All-reverse, ◌&◌, arith, Bool-cases,
  inl, inr,
}
use kite_mcp_riskguard.Env.{Env}
use kite_mcp_riskguard.Model.{CheckResult, OrderCheckRequest, State, Reading}
use kite_mcp_riskguard.Trackers.{maybe_reset_day}
use kite_mcp_riskguard.Checks.Rates.{check_daily_order_count}
use kite_mcp_riskguard.Checks.Values.{check_daily_value}
use kite_mcp_riskguard.Chain.{
  Eval, result, panicked, panicked_locked, Check, Guard, sift, insert_check, insert_checks,
  register_check,
}
use kite_mcp_riskguard.Builtin.{
  builtin_checks, daily_order_count_check, daily_value_check, otr_band_check, new_guard,
}
use kite_mcp_riskguard.Builtin.Registration.{register_all}
use kite_mcp_riskguard.CheckOrder.Laws.{check_order-thawed, check_order-frozen}
use kite_mcp_riskguard.CheckOrder.{
  Outcome, returned, Readings, later, proceed, run_checks, check_order,
}

module _ (E : Env) where
  -- A check that never panics with the guard's mutex locked.
  abbrev pub NeverLocks : Check E → Type 0
  NeverLocks c =
      (req : OrderCheckRequest E) (now : Reading) (st : State E) (v : String)
      → (c.evaluate req now st).0 ≢ panicked_locked v

  abbrev pub Returns : Outcome × State E → Type 0
  Returns ran = (r : CheckResult) × (ran.0 ≡ returned r)

  proceed-Returns :
      (c : Check E) (email : String) (at : Readings) (e : Eval) (st : State E)
      (k : State E → Outcome × State E)
      → ((v : String) → e ≢ panicked_locked v)
      → ((s : State E) → Returns (k s))
      → Returns (proceed E c email at (e, st) k)
  unfolding proceed
  proceed-Returns c email at (result r) st k free more = elim (Bool-cases r.allowed) [
    | inl fine ↦ simp fine (more st)
    | inr bad ↦ simp bad (_, refl)
  ]
  proceed-Returns c email at (panicked v) st k free more = (_, refl)
  proceed-Returns c email at (panicked_locked v) st k free more = absurd (free v refl)

  run_checks-Returns :
      (cs : List (Check E)) (req : OrderCheckRequest E) (at : Readings) (st : State E)
      → All NeverLocks cs
      → Returns (run_checks E cs req at st)
  unfolding run_checks
  run_checks-Returns [] req at st h = (_, refl)
  run_checks-Returns (c ∷ cs) req at st (free, h) =
      let ended = c.evaluate req (at 0) st in
      proceed-Returns c _ at ended.0 ended.1 (λ s. run_checks E cs req (later at) s)
        (free req (at 0) st) (λ s. run_checks-Returns cs req (later at) s h)

  daily_order_count-NeverLocks : E.tzdata ≡ true → NeverLocks (daily_order_count_check E)
  unfolding check_daily_order_count maybe_reset_day
  daily_order_count-NeverLocks tz req now st v e = ground arith

  daily_value-NeverLocks : E.tzdata ≡ true → NeverLocks (daily_value_check E)
  unfolding check_daily_value maybe_reset_day
  daily_value-NeverLocks tz req now st v e = ground arith

  otr_band-NeverLocks : NeverLocks (otr_band_check E)
  otr_band-NeverLocks req now st v e = ground arith

  sift-All :
      (c : Check E) (ps : List (Check E))
      → NeverLocks c
      → All NeverLocks ps
      → All NeverLocks (sift E c ps)
  unfolding sift
  sift-All c [] h hs = (h, tt)
  sift-All c (p ∷ ps) h (first, hs) = let rest = sift-All c ps h hs in ground arith

  insert_check-All :
      (c : Check E) (cs : List (Check E))
      → NeverLocks c
      → All NeverLocks cs
      → All NeverLocks (insert_check E c cs)
  unfolding insert_check
  insert_check-All c cs h hs =
      All-reverse NeverLocks (sift E c (reverse cs))
        (sift-All c (reverse cs) h (All-reverse NeverLocks cs hs))

  insert_checks-All :
      (ns cs : List (Check E))
      → All NeverLocks ns
      → All NeverLocks cs
      → All NeverLocks (insert_checks E ns cs)
  unfolding insert_checks
  insert_checks-All [] cs h hs = hs
  insert_checks-All (n ∷ ns) cs (first, h) hs =
      insert_checks-All ns (insert_check E n cs) h (insert_check-All n cs first hs)

  register_all-All :
      (cs : List (Check E)) (g : Guard E)
      → All NeverLocks cs
      → All NeverLocks g.checks
      → All NeverLocks (register_all E cs g).checks
  unfolding register_all register_check
  register_all-All [] g h hs = hs
  register_all-All (c ∷ cs) g (first, h) hs =
      register_all-All cs (register_check E c g) h (insert_check-All c g.checks first hs)

  builtin_checks-NeverLocks : E.tzdata ≡ true → All NeverLocks (builtin_checks E)
  builtin_checks-NeverLocks tz =
      (λ req now st v e. ground arith)
      & (λ req now st v e. ground arith)
      & (λ req now st v e. ground arith)
      & (λ req now st v e. ground arith)
      & (λ req now st v e. ground arith)
      & (λ req now st v e. ground arith)
      & daily_order_count-NeverLocks tz
      & (λ req now st v e. ground arith)
      & (λ req now st v e. ground arith)
      & (λ req now st v e. ground arith)
      & (λ req now st v e. ground arith)
      & daily_value-NeverLocks tz
      & otr_band-NeverLocks
      & (λ req now st v e. ground arith)
      & (λ req now st v e. ground arith)
      & (λ req now st v e. ground arith)
      & tt

  new_guard-All : (w : E.World) → E.tzdata ≡ true → All NeverLocks (new_guard E w).checks
  unfolding new_guard
  new_guard-All w tz = insert_checks-All (builtin_checks E) [] (builtin_checks-NeverLocks tz) tt

  -- Where the data of the zone is there, CheckOrder of a guard that NewGuard built returns on every
  -- order, in any state that the guard comes to and whatever the clocks show, also with further
  -- checks registered, as long as none of these panics with the guard's mutex locked.
  pub check_order-Returns :
      (w : E.World) (cs : List (Check E)) (st : State E) (req : OrderCheckRequest E) (at : Readings)
      → E.tzdata ≡ true
      → All NeverLocks cs
      → let g : Guard E = record (register_all E cs (new_guard E w)) { state = st } in
        (r : CheckResult) × ((check_order E g req at).0 ≡ returned r)
  check_order-Returns w cs st req at tz h =
      let chain = register_all-All cs (new_guard E w) h (new_guard-All w tz) in
      let g : Guard E = record (register_all E cs (new_guard E w)) { state = st } in
      elim (Bool-cases st.global_frozen) [
        | inl frozen ↦
            (_, ap (λ (o : Outcome × Guard E). o.0) (check_order-frozen E req g at frozen))
        | inr free ↦
            let (r, e) = run_checks-Returns g.checks req at st chain in
            (r, ap (λ (o : Outcome × Guard E). o.0) (check_order-thawed E req g at free) ∙ e)
      ]
