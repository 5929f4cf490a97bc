-- ===== src/CheckOrder/Concurrent/Allowed.antt =====
-- What an allowed result of CheckOrder says, whatever other calls and changes go on meanwhile.
use mathlib.Core.List.{append_assoc, append-nil}
use mathlib.Core.Path.{subst}
use kite_mcp_riskguard.Prelude.{
  ℕ, ◌≡◌, refl, sym, ap, ◌∙◌, true, false, List, [], ◌∷◌, ◌++◌, All, All-append, All-map, eqb,
  arith, Bool-cases, inl, inr,
}
use kite_mcp_riskguard.Env.{Env}
use kite_mcp_riskguard.Model.{CheckResult, OrderCheckRequest, Reading}
use kite_mcp_riskguard.Lifecycle.{check_auto_freeze}
use kite_mcp_riskguard.Chain.{result, Check, Guard}
use kite_mcp_riskguard.CheckOrder.{returned, check_panic, global_freeze_result}
use kite_mcp_riskguard.CheckOrder.Laws.{StopsWith-ne_allowed}
use kite_mcp_riskguard.CheckOrder.Concurrent.{
  Phase, enters, unfrozen, walks, rejected, recorded, done, noted, noted_keeps_allowed, Move,
  blocked, passes, snapshot, allows, finishes, stops, stops_locked, returns, records, breaks,
  System, moved, Step, goes, changes, Steps, here, then_, followed_by,
}

module _ (E : Env) (reqs : ℕ → OrderCheckRequest E) where
  -- In the run the i-th call, with the check as the next of its chain, evaluated it in the guard's state of
  -- that moment; the check allowed the request, and left the state of the next moment.
  pub record Asked (i : ℕ) {x y : System E} (run : Steps E reqs x y) (c : Check E) : Type 0 where
    pub at : System E
    pub next : System E
    pub to : Steps E reqs x at
    pub step : Step E reqs at next
    pub from : Steps E reqs next y
    pub whole : run ≡ followed_by E reqs (then_ to step) from
    pub rest : List (Check E)
    pub stood : at.phase i ≡ walks (c ∷ rest)
    pub went_on : next.phase i ≡ walks rest
    pub now : Reading
    pub verdict : CheckResult
    pub answered : c.evaluate (reqs i) now at.guard.state ≡ (result verdict, next.guard.state)
    pub ok : verdict.allowed ≡ true

  Asked-Step :
      (i : ℕ) {z y y' : System E} (run : Steps E reqs z y) (s : Step E reqs y y') (c : Check E)
      → Asked i run c
      → Asked i (then_ run s) c
  Asked-Step i run s c a = record {
    at = a.at;
    next = a.next;
    to = a.to;
    step = a.step;
    from = then_ a.from s;
    whole = ap (λ r. then_ r s) a.whole;
    rest = a.rest;
    stood = a.stood;
    went_on = a.went_on;
    now = a.now;
    verdict = a.verdict;
    answered = a.answered;
    ok = a.ok;
  }

  module _ (i : ℕ) {x : System E} where
    -- At a moment of the run the call was about to test the global freeze, and none was on.
    pub record Thawed {y : System E} (run : Steps E reqs x y) : Type 0 where
      pub tested : System E
      pub before : Steps E reqs x tested
      pub waited : Steps E reqs tested y
      pub whole : run ≡ followed_by E reqs before waited
      pub stood : tested.phase i ≡ enters
      pub was_free : tested.guard.state.global_frozen ≡ false

    -- At a moment of the run the call was about to test the global freeze, and none was on; at a later one it
    -- was about to take its snapshot, and the chain was some checks and then those given; since then it
    -- asked each of the former, and they allowed the request.
    pub record Walked {y : System E} (run : Steps E reqs x y) (cs : List (Check E)) : Type 0 where
      pub tested : System E
      pub taken : System E
      pub asked : List (Check E)
      pub before : Steps E reqs x tested
      pub waited : Steps E reqs tested taken
      pub since : Steps E reqs taken y
      pub whole : run ≡ followed_by E reqs (followed_by E reqs before waited) since
      pub stood_at_test : tested.phase i ≡ enters
      pub was_free : tested.guard.state.global_frozen ≡ false
      pub stood_at_snapshot : taken.phase i ≡ unfrozen
      pub chain_was : taken.guard.checks ≡ asked ++ cs
      pub allowed_each : All (Asked i since) asked

    -- What is known at a phase of the call.
    abbrev Known : Phase E → {y : System E} → Steps E reqs x y → Type 0
    Known enters run = Unit
    Known unfrozen run = Thawed run
    Known (walks cs) run = Walked run cs
    Known (rejected c r) run = r.allowed ≡ false
    Known (recorded c r) run = r.allowed ≡ false
    Known (done o) run = (r : CheckResult) → o ≡ returned r → r.allowed ≡ true → Walked run []

    -- A step, and the checks that were asked by then.
    walk_on :
        {y y' : System E} (run : Steps E reqs x y) (s : Step E reqs y y')
        (cs more left : List (Check E)) (w : Walked run cs)
        → cs ≡ more ++ left
        → All (Asked i (then_ w.since s)) more
        → Walked (then_ run s) left
    walk_on run s cs more left w e asked_more = record {
      tested = w.tested;
      taken = w.taken;
      asked = w.asked ++ more;
      before = w.before;
      waited = w.waited;
      since = then_ w.since s;
      whole = ap (λ r. then_ r s) w.whole;
      stood_at_test = w.stood_at_test;
      was_free = w.was_free;
      stood_at_snapshot = w.stood_at_snapshot;
      chain_was = w.chain_was ∙ ap (λ ds. w.asked ++ ds) e ∙ sym (append_assoc w.asked more left);
      allowed_each =
          All-append (Asked i (then_ w.since s)) w.asked more
            (All-map (Asked-Step i w.since s) w.asked w.allowed_each) asked_more;
    }

    walk_past :
        {y y' : System E} (run : Steps E reqs x y) (s : Step E reqs y y') (cs : List (Check E))
        → Walked run cs
        → Walked (then_ run s) cs
    walk_past run s cs w = walk_on run s cs [] cs w refl tt

    Known-Step :
        {y y' : System E} (run : Steps E reqs x y) (p : Phase E) (s : Step E reqs y y')
        → Known p run
        → Known p (then_ run s)
    Known-Step run enters s k = k
    Known-Step run unfrozen s k = record {
      tested = k.tested;
      before = k.before;
      waited = then_ k.waited s;
      whole = ap (λ r. then_ r s) k.whole;
      stood = k.stood;
      was_free = k.was_free;
    }
    Known-Step run (walks cs) s k = walk_past run s cs k
    Known-Step run (rejected c r) s k = k
    Known-Step run (recorded c r) s k = k
    Known-Step run (done o) s k = λ r e ok. walk_past run s [] (k r e ok)

    refused-Known :
        {y : System E} (run : Steps E reqs x y) (r : CheckResult)
        → r.allowed ≡ false
        → Known (done (returned r)) run
    refused-Known run r bad r' e ok = ground arith

    Known-Move :
        {y : System E} (run : Steps E reqs x y) {p p' : Phase E} {g : Guard E}
        → y.phase i ≡ p
        → Move E (reqs i) y.guard p g p'
        → (s : Step E reqs y (moved E y i g p')) → Known p run
        → Known p' (then_ run s)
    unfolding check_panic
    Known-Move run here_ (blocked e) s k = refused-Known _ global_freeze_result refl
    Known-Move {y} run here_ (passes e) s k = record {
      tested = y;
      before = run;
      waited = then_ here s;
      whole = refl;
      stood = here_;
      was_free = e;
    }
    Known-Move {y} run here_ snapshot s k = record {
      tested = k.tested;
      taken = y;
      asked = [];
      before = k.before;
      waited = k.waited;
      since = then_ here s;
      whole = ap (λ r. then_ r s) k.whole;
      stood_at_test = k.stood;
      was_free = k.was_free;
      stood_at_snapshot = here_;
      chain_was = refl;
      allowed_each = tt;
    }
    Known-Move {y} run here_ (allows c {cs} now r e ok) s k =
        walk_on run s (c ∷ cs) (c ∷ []) cs k refl (
          record {
            at = y;
            next = _;
            to = k.since;
            step = s;
            from = here;
            whole = refl;
            rest = cs;
            stood = here_;
            went_on = let self : eqb i i ≡ true = ground arith in rw self refl;
            now = now;
            verdict = r;
            answered = e;
            ok = ok;
          },
          tt,
        )
    Known-Move run here_ finishes s k = λ r e ok. walk_past run s [] k
    Known-Move run here_ (stops c now e {r} same why) s k =
        StopsWith-ne_allowed E (reqs i) c e r why
    Known-Move run here_ (stops_locked c now v same) s k = λ r e ok. ground arith
    Known-Move run here_ (returns {r = r} e) s k = refused-Known _ r k
    Known-Move run here_ (records now e) s k = k
    Known-Move {y} run here_ (breaks {r = r} now) s k =
        let after = check_auto_freeze E (E.to_lower (reqs i).email) now.wall y.guard.state in
        refused-Known _ (noted E r after) (noted_keeps_allowed E r after ∙ k)

  moved-Known :
      {x y : System E} (run : Steps E reqs x y) (i j : ℕ) {g : Guard E} {p : Phase E}
      (m : Move E (reqs j) y.guard (y.phase j) g p)
      → Known i (y.phase i) run
      → Known i ((moved E y j g p).phase i) (then_ run (goes j m))
  moved-Known {y = y} run i j {g} {p} m k = elim (Bool-cases (eqb i j)) [
    | inl same ↦
        let e : i ≡ j = ground (arith, same) in
        let k' : Known j (y.phase j) run = subst (λ n. Known n (y.phase n) run) e k in
        rw same (
          subst (λ n. Known n p (then_ run (goes j m))) (sym e)
            (Known-Move j run refl m (goes j m) k'))
    | inr other ↦ rw other (Known-Step i run (y.phase i) (goes j m) k)
  ]

  Steps-Known :
      {x y : System E} (i : ℕ)
      → x.phase i ≡ enters
      → (run : Steps E reqs x y) → Known i (y.phase i) run
  Steps-Known i e here = rw e tt
  Steps-Known i e (then_ run (goes j m)) = moved-Known run i j m (Steps-Known i e run)
  Steps-Known i e (then_ {y = z} run (changes g)) =
      Known-Step i run (z.phase i) (changes g) (Steps-Known i e run)

  -- Calls of CheckOrder interleave with one another and with any changes of the guard. If a call has
  -- not begun at the start of a run and has returned an allowed result at its end, then in that run it
  -- first stood before its test of the global freeze, at a moment when none was on; later it stood
  -- before its snapshot, at a moment with some chain; and after that it evaluated each check of that
  -- chain, in the guard's state of the moment, and the check allowed the request. So no change of the
  -- guard meanwhile lets it skip the test or a check of its snapshot.
  pub done-Asked :
      (x y : System E) (i : ℕ) (r : CheckResult) (run : Steps E reqs x y)
      → x.phase i ≡ enters
      → y.phase i ≡ done (returned r)
      → r.allowed ≡ true
      → (w : Walked i run []) × All (Asked i w.since) w.taken.guard.checks
  done-Asked x y i r run begins ends ok =
      let known = subst (λ p. Known i p run) ends (Steps-Known i begins run) in
      let w = known r refl ok in
      let whole = sym (w.chain_was ∙ append-nil w.asked) in
      (w, subst (All (Asked i w.since)) whole w.allowed_each)
