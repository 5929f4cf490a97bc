-- ===== src/CheckOrder/Concurrent/Keys/Once.antt =====
-- Of several concurrent calls with one idempotency key at most one is allowed.
use mathlib.Core.Path.{subst}
use kite_mcp_riskguard.Prelude.{
  ℕ, ◌≡◌, ◌≢◌, ◌⊎◌, refl, sym, ◌∙◌, true, false, String, eqb, arith, Bool-cases, inl, inr,
}
use kite_mcp_riskguard.Env.{Env, Time}
use kite_mcp_riskguard.Model.{CheckResult, OrderCheckRequest}
use kite_mcp_riskguard.Chain.{Guard}
use kite_mcp_riskguard.CheckOrder.{returned}
use kite_mcp_riskguard.CheckOrder.Concurrent.{
  Phase, enters, done, Move, System, moved, Step, goes, changes, Steps, here, then_,
}
use kite_mcp_riskguard.CheckOrder.Concurrent.Keys.{
  HasTtl, Held, IsKeyed, answered-HasTtl, answered-Held,
}
use kite_mcp_riskguard.CheckOrder.Concurrent.Keys.Moves.{
  AsksKeys, MoveInTime, Move_keeps, Move-checks, Waits, Move-Waits, IsKeyed-cases,
}

module _ (E : Env) (reqs : ℕ → OrderCheckRequest E) (k : String) (since : Time) (ttl : ℕ) where
  -- What else changes the guard leaves the keys, and keeps their check in the chain.
  abbrev pub StepInTime : {x y : System E} → Step E reqs x y → Type 0
  StepInTime (goes i m) = MoveInTime E k since ttl (reqs i) m
  StepInTime {x} (changes g) = (g.state.dedup ≡ x.guard.state.dedup) × AsksKeys E g.checks

  abbrev pub StepsInTime : {x y : System E} → Steps E reqs x y → Type 0
  StepsInTime here = Unit
  StepsInTime (then_ run s) = StepsInTime run × StepInTime s

  abbrev WaitsAt : System E → ℕ → Type 0
  WaitsAt y i = IsKeyed E k since ttl (reqs i) → Waits E k since ttl (reqs i) (y.phase i)

  -- No call with the key has passed the check of keys; or the key is held, and all but one wait.
  abbrev Passed : System E → Type 0
  Passed y =
      ((i : ℕ) → WaitsAt y i)
      ⊎ (Held E k since ttl y.guard.state.dedup × ((one : ℕ) × ((i : ℕ) → i ≢ one → WaitsAt y i)))

  pub record Orderly (y : System E) : Type 0 where
    pub has_ttl : HasTtl E k since ttl y.guard.state.dedup
    pub asks : AsksKeys E y.guard.checks
    pub passed : Passed y

  -- A call's step, seen from each call.
  moved-WaitsAt :
      (y : System E) (j : ℕ) (g : Guard E) (p : Phase E) (i : ℕ)
      → WaitsAt y i
      → (i ≡ j → IsKeyed E k since ttl (reqs j) → Waits E k since ttl (reqs j) p)
      → WaitsAt (moved E y j g p) i
  moved-WaitsAt y j g p i was own keyed = elim (Bool-cases (eqb i j)) [
    | inl same ↦
        let e : i ≡ j = ground (arith, same) in
        rw same (
          subst (λ n. Waits E k since ttl (reqs n) p) (sym e)
            (own e (subst (λ n. IsKeyed E k since ttl (reqs n)) e keyed)))
    | inr other ↦ rw other (was keyed)
  ]

  goes-Passed :
      (y : System E) (j : ℕ) {g : Guard E} {p : Phase E}
      (m : Move E (reqs j) y.guard (y.phase j) g p)
      → MoveInTime E k since ttl (reqs j) m
      → Orderly y
      → Passed (moved E y j g p)
  goes-Passed y j {g} {p} m t h =
      let step = Move-Waits E k since ttl (reqs j) m t in
      elim h.passed [
        | inl all_ ↦ (elim (IsKeyed-cases E k since ttl (reqs j)) [
          | inr unkeyed ↦
              inl (λ i. moved-WaitsAt y j g p i (all_ i) (λ e keyed. absurd (unkeyed keyed)))
          | inl keyed ↦ (elim (step keyed h.asks h.has_ttl (all_ j keyed)) [
            | inl w ↦ inl (λ i. moved-WaitsAt y j g p i (all_ i) (λ e _. w))
            | inr (held, _) ↦
                inr (held, (j, λ i ne. moved-WaitsAt y j g p i (all_ i) (λ e _. absurd (ne e))))
          ])
        ])
        | inr (held, (one, others)) ↦ inr (
          Move_keeps E k since ttl (reqs j) (Held E k since ttl)
              (λ now st in_time. answered-Held E k since ttl (reqs j) now st in_time) m t held,
          (
            one,
            λ i ne. moved-WaitsAt y j g p i (others i ne) (λ e keyed.
                elim (step keyed h.asks h.has_ttl (others j (λ f. ne (e ∙ f)) keyed)) [
                  | inl w ↦ w
                  | inr (_, new_) ↦ absurd (new_ held)
                ]),
          ),
        )
      ]

  Step-Orderly : {y z : System E} (s : Step E reqs y z) → StepInTime s → Orderly y → Orderly z
  Step-Orderly {y} (goes j m) t h = record {
    has_ttl =
        Move_keeps E k since ttl (reqs j) (HasTtl E k since ttl)
          (λ now st in_time. answered-HasTtl E k since ttl (reqs j) now st) m t h.has_ttl;
    asks = subst (AsksKeys E) (sym (Move-checks E k since ttl (reqs j) m)) h.asks;
    passed = goes-Passed y j m t h;
  }
  Step-Orderly {y} (changes g) (same, asks) h = record {
    has_ttl = subst (HasTtl E k since ttl) (sym same) h.has_ttl;
    asks = asks;
    passed = elim h.passed [
      | inl all_ ↦ inl all_
      | inr (held, others) ↦ inr (subst (Held E k since ttl) (sym same) held, others)
    ];
  }

  Steps-Orderly :
      {x y : System E} (run : Steps E reqs x y) → StepsInTime run → Orderly x → Orderly y
  Steps-Orderly here t h = h
  Steps-Orderly (then_ run s) (t, u) h = Step-Orderly s u (Steps-Orderly run t h)

  refused :
      (y : System E) (n : ℕ) (r : CheckResult)
      → WaitsAt y n
      → IsKeyed E k since ttl (reqs n)
      → y.phase n ≡ done (returned r)
      → r.allowed ≡ false
  refused y n r waits keyed ends = subst (Waits E k since ttl (reqs n)) ends (waits keyed) r refl

  -- Calls of CheckOrder interleave in any order, with other changes of the guard that leave the keys and
  -- their check in place. The guard has a Dedup of the given time to live, its chain has the check of
  -- keys, any other check that is evaluated leaves the keys, and the clock of Dedup shows only instants
  -- from a given one on, less than the time to live after it. Then of all calls with one key, none of which
  -- had begun, at most one is allowed: if one is, any other that returns is rejected.
  pub done-once :
      (x y : System E) (i j : ℕ) (r r' : CheckResult) (run : Steps E reqs x y)
      → StepsInTime run
      → HasTtl E k since ttl x.guard.state.dedup
      → AsksKeys E x.guard.checks
      → ((n : ℕ) → IsKeyed E k since ttl (reqs n) → x.phase n ≡ enters)
      → IsKeyed E k since ttl (reqs i)
      → IsKeyed E k since ttl (reqs j)
      → i ≢ j
      → y.phase i ≡ done (returned r)
      → y.phase j ≡ done (returned r')
      → r.allowed ≡ true
      → r'.allowed ≡ false
  done-once x y i j r r' run t has_ttl asks begin keyed_i keyed_j ne ends_i ends_j ok =
      let h = Steps-Orderly run t (record {
        has_ttl = has_ttl;
        asks = asks;
        passed = inl (λ n keyed. subst (Waits E k since ttl (reqs n)) (sym (begin n keyed)) tt);
      }) in
      elim h.passed [
        | inl all_ ↦ refused y j r' (all_ j) keyed_j ends_j
        | inr (_, (one, others)) ↦ (elim (Bool-cases (eqb j one)) [
          | inl same ↦
              let e : j ≡ one = ground (arith, same) in
              let bad = refused y i r (others i (λ f. ne (f ∙ sym e))) keyed_i ends_i in cc
          | inr other ↦ refused y j r' (others j (λ f. ground (arith, f, other))) keyed_j ends_j
        ])
      ]
