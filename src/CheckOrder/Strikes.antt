-- ===== src/CheckOrder/Strikes.antt =====
-- How rejections add up to a freeze.
use mathlib.Core.List.{append_assoc}
use kite_mcp_riskguard.Prelude.{
  ◌+◌, ◌-◌, ◌≤◌, ◌≡◌, ap, ◌∙◌, true, false, List, [], ◌∷◌, ◌++◌, String, arith, leb, length,
  length-append, if◌then◌else◌,
}
use kite_mcp_riskguard.Env.{Env, Time}
use kite_mcp_riskguard.Model.{CheckResult, State}
use kite_mcp_riskguard.Lifecycle.{
  auto_freeze_threshold, auto_freeze_window, prune, frozen_entry, record_rejection,
  check_auto_freeze,
}
use kite_mcp_riskguard.Lifecycle.AutoFreeze.{
  prune-append, window, enabled, recent, window-record_rejection, limits-record_rejection,
  check_auto_freeze-fires_iff, check_auto_freeze-frozen, check_auto_freeze-window,
  enabled-check_auto_freeze, enabled-of_limits, frozen_entry-of_limits,
}
use kite_mcp_riskguard.Chain.{Check}
use kite_mcp_riskguard.CheckOrder.{Readings, settle}

module _ (E : Env) (email : String) where
  -- A policy check's rejection leaves the guard as it was.
  pub settle-policy :
      (c : Check E) (r : CheckResult) (at : Readings) (st : State E)
      → c.record_on_rejection ≡ false
      → settle E c email r at st ≡ (r, st)
  unfolding settle
  settle-policy c r at st policy = ground arith

  settle-limit :
      (c : Check E) (r : CheckResult) (at : Readings) (st : State E)
      → c.record_on_rejection ≡ true
      → (settle E c email r at st).1
        ≡ (check_auto_freeze E email
            (at 2).wall
            (record_rejection E email r.reason (at 1).wall st)).1
  unfolding settle
  settle-limit c r at st limit = ground arith

  -- The rejections of the last five minutes, once a new one is recorded.
  abbrev pub strikes : Readings → State E → List Time
  strikes at st = prune ((at 2).wall - auto_freeze_window) (window E email st ++ (at 1).wall ∷ [])

  -- What a limit check's rejection leaves, for a user with the breaker on: the window holds it and
  -- the older ones of the last five minutes, the breaker stays on, and the account is frozen if it
  -- was or if the window now holds three.
  record StruckBy (at : Readings) (st st' : State E) : Type 0 where
    holds : window E email st' ≡ strikes at st
    stays_on : enabled E email st' ≡ true
    freezes : frozen_entry E email st' ≡ (
        if leb auto_freeze_threshold (length (strikes at st))
        then true
        else frozen_entry E email st)

  settle-StruckBy :
      (c : Check E) (r : CheckResult) (at : Readings) (st : State E)
      → c.record_on_rejection ≡ true
      → enabled E email st ≡ true
      → StruckBy at st (settle E c email r at st).1
  settle-StruckBy c r at st limit on =
      let st₁ = record_rejection E email r.reason (at 1).wall st in
      let now = (at 2).wall in
      let same = limits-record_rejection E email r.reason (at 1).wall st in
      let on₁ : enabled E email st₁ ≡ true = enabled-of_limits E email st st₁ same ∙ on in
      let added = window-record_rejection E email r.reason (at 1).wall st in
      let recent_is : recent E email now st₁ ≡ strikes at st =
        ap (prune (now - auto_freeze_window)) added in
      let fires = check_auto_freeze-fires_iff E email now st₁ in
      let frozen = check_auto_freeze-frozen E email now st₁ in
      let was = frozen_entry-of_limits E email st st₁ same in
      rw (settle-limit c r at st limit) (record {
        holds = check_auto_freeze-window E email now st₁ on₁ ∙ recent_is;
        stays_on = enabled-check_auto_freeze E email now st₁ ∙ on₁;
        freezes = ground (arith, ap (length {A = Time}) recent_is);
      })

  -- A check with its rejection and the readings of the clocks while CheckOrder settles it.
  pub record Strike : Type 0 where
    pub check : Check E
    pub rejected : CheckResult
    pub at : Readings

  abbrev pub strike : Strike → State E → State E
  strike s st = (settle E s.check email s.rejected s.at st).1

  -- A rejection by a check that does not record leaves the guard as it was. Three rejections by
  -- checks that record freeze the account of a user with the breaker on, whatever it held before, if
  -- the clock does not go back and the third is settled within five minutes of the first.
  pub three_strikes_freeze :
      (p a b c : Strike) (st : State E)
      → p.check.record_on_rejection ≡ false
      → a.check.record_on_rejection ≡ true
      → b.check.record_on_rejection ≡ true
      → c.check.record_on_rejection ≡ true
      → enabled E email st ≡ true
      → (a.at 1).wall ≤ (b.at 1).wall
      → (b.at 1).wall ≤ (c.at 1).wall
      → (a.at 2).wall ≤ (c.at 2).wall
      → (b.at 2).wall ≤ (c.at 2).wall
      → (c.at 2).wall ≤ (a.at 1).wall + auto_freeze_window
      → (strike p st ≡ st) × (frozen_entry E email (strike c (strike b (strike a st))) ≡ true)
  three_strikes_freeze p a b c st policy la lb lc on ab bc ac bc' close =
      let w = auto_freeze_window in
      let sa = settle-StruckBy a.check a.rejected a.at st la on in
      let sb = settle-StruckBy b.check b.rejected b.at (strike a st) lb sa.stays_on in
      let sc = settle-StruckBy c.check c.rejected c.at (strike b (strike a st)) lc sb.stays_on in
      let ta = (a.at 1).wall in
      let tb = (b.at 1).wall in
      let tc = (c.at 1).wall in
      let holds_a : window E email (strike a st)
          ≡ prune ((a.at 2).wall - w) (window E email st) ++ ta ∷ [] =
        sa.holds ∙ prune-append _ (window E email st) (ta ∷ []) (omega arith) in
      let older_b = prune ((b.at 2).wall - w) (prune ((a.at 2).wall - w) (window E email st)) in
      let holds_b : window E email (strike b (strike a st)) ≡ older_b ++ ta ∷ tb ∷ [] =
        sb.holds
        ∙ ap (λ l. prune ((b.at 2).wall - w) (l ++ tb ∷ [])) holds_a
        ∙ ap (prune ((b.at 2).wall - w)) (append_assoc _ (ta ∷ []) (tb ∷ []))
        ∙ prune-append _ _ (ta ∷ tb ∷ []) (omega arith) in
      let older_c = prune ((c.at 2).wall - w) older_b in
      let holds_c : strikes c.at (strike b (strike a st)) ≡ older_c ++ ta ∷ tb ∷ tc ∷ [] =
        ap (λ l. prune ((c.at 2).wall - w) (l ++ tc ∷ [])) holds_b
        ∙ ap (prune ((c.at 2).wall - w)) (append_assoc older_b (ta ∷ tb ∷ []) (tc ∷ []))
        ∙ prune-append _ older_b (ta ∷ tb ∷ tc ∷ []) (omega arith) in
      let count : length (strikes c.at (strike b (strike a st))) ≡ length older_c + 3 =
        ap length holds_c ∙ length-append older_c (ta ∷ tb ∷ tc ∷ []) in
      let reached : leb auto_freeze_threshold (length (strikes c.at (strike b (strike a st))))
          ≡ true =
        ground (arith, count) in
      (
        ap (λ (x : CheckResult × State E). x.1) (settle-policy p.check p.rejected p.at st policy),
        sc.freezes ∙ rw reached,
      )
