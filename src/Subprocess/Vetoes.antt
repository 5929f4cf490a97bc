-- ===== src/Subprocess/Vetoes.antt =====
-- A registered subprocess check in the chain of a guard.
use kite_mcp_riskguard.Prelude.{
  ◌≡◌, ◌≢◌, refl, true, false, Option, none, some, List, [], ◌∷◌, ◌++◌, String, length, arith,
  Option-cases, inl, inr,
}
use kite_mcp_riskguard.Prelude.Int.{ℤ}
use kite_mcp_riskguard.Env.{Env}
use kite_mcp_riskguard.Model.{CheckResult, OrderCheckRequest, State, Reading}
use kite_mcp_riskguard.Chain.{result, Check, Guard, register_check}
use kite_mcp_riskguard.Chain.Order.{IsOrdered, insert_check-placement}
use kite_mcp_riskguard.CheckOrder.{returned, Readings, later, check_order}
use kite_mcp_riskguard.CheckOrder.Laws.{AllPass, check_order-allowed_iff, skip}
use kite_mcp_riskguard.Subprocess.{SubprocessCheckConfig, Host, evaluate, new_subprocess_check}
use kite_mcp_riskguard.Subprocess.FailClosed.{PluginAllows, evaluate_sound}
use kite_mcp_riskguard.Subprocess.Registration.{
  validate_iff, Heap, subprocess_check, config, SubprocessChecksumEmitter,
  register_subprocess_check, register_subprocess_check_with_sbom,
}

module _ (E : Env) where
  AllPass-split :
      (req : OrderCheckRequest E) (pre : List (Check E)) (c : Check E) (post : List (Check E))
      (at : Readings) (st end : State E)
      → AllPass E req (pre ++ c ∷ post) at st end
      → (st' : State E) × AllPass E req pre at st st'
        × AllPass E req (c ∷ post) (skip (length pre) at) st' end
  AllPass-split req [] c post at st end h = (st, refl, h)
  AllPass-split req (p ∷ pre) c post at st end (r, s, e, ok, h) =
      let (st', before, after) = AllPass-split req pre c post (later at) s end h in
      (st', (r, s, e, ok, before), after)

  module _ (H : Host E.Float) (heap : Heap E H) where
    -- The check's cell holds a plugin that is not closed and allows the request.
    abbrev pub Vouches : heap.Cell → OrderCheckRequest E → State E → Type 0
    Vouches cell req st =
        let s = heap.load cell st.world in
        (s.closed ≡ false) × PluginAllows E H req s (heap.host st.world)

    subprocess_check-Vouches :
        (cfg : SubprocessCheckConfig) (cell : heap.Cell) (req : OrderCheckRequest E) (at : Reading)
        (st st' : State E) (r : CheckResult)
        → (subprocess_check E H heap cfg cell).evaluate req at st ≡ (result r, st')
        → r.allowed ≡ true
        → Vouches cell req st
    subprocess_check-Vouches cfg cell req at st st' r e yes_ =
        let s = heap.load cell st.world in
        let h = heap.host st.world in
        elim (Option-cases (evaluate E H req s h)) [
          | inl nil_ ↦ ground arith
          | inr ((r', (s', h')), ran) ↦
              let same : r' ≡ r = ground arith in
              evaluate_sound E H req s s' h h' r (rw (ran, same) refl) yes_
        ]

    register-valid :
        (name executable : String) (order : ℤ) (g : Guard E)
        → name ≢ ""
        → executable ≢ ""
        → let cfg = config E H heap name executable order in
          let (cell, w) = heap.alloc (new_subprocess_check H cfg) g.state.world in
          register_subprocess_check E H heap name executable order g ≡ (
            none,
            register_check E
                (subprocess_check E H heap cfg cell)
                (record g { state = record g.state { world = w } }),
          )
    unfolding register_subprocess_check
    register-valid name executable order g named placed =
        let fine = (validate_iff E (config E H heap name executable order)).1 (named, placed) in
        rw (fine, register_subprocess_check) refl

    -- Where a check stands in the chain of a guard.
    pub record Placed (cfg : SubprocessCheckConfig) (old new : List (Check E)) : Type 0 where
      pub cell : heap.Cell
      pub before : List (Check E)
      pub after : List (Check E)
      pub others : old ≡ before ++ after
      pub chain : new ≡ before ++ subprocess_check E H heap cfg cell ∷ after

    register-Placed :
        (name executable : String) (order : ℤ) (g : Guard E)
        → name ≢ ""
        → executable ≢ ""
        → IsOrdered E g.checks
        → let (err, g') = register_subprocess_check E H heap name executable order g in
          (err ≡ none)
          × IsOrdered E g'.checks
          × Placed (config E H heap name executable order) g.checks g'.checks
    unfolding register_check
    register-Placed name executable order g named placed ordered =
        let cfg = config E H heap name executable order in
        let (cell, w) = heap.alloc (new_subprocess_check H cfg) g.state.world in
        let c = subprocess_check E H heap cfg cell in
        let (before, after, whole, new, _, _, still) =
          insert_check-placement E c g.checks ordered in
        rw (register-valid name executable order g named placed) (
          refl,
          still,
          record { cell = cell; before = before; after = after; others = whole; chain = new },
        )

    sbom-Placed :
        (name executable : String) (order : ℤ) (emit : Option (SubprocessChecksumEmitter E))
        (g : Guard E)
        → name ≢ ""
        → executable ≢ ""
        → IsOrdered E g.checks
        → let (err, g') =
            register_subprocess_check_with_sbom E H heap name executable order emit g in
          (err ≡ none)
          × IsOrdered E g'.checks
          × Placed (config E H heap name executable order) g.checks g'.checks
    unfolding register_subprocess_check_with_sbom
    sbom-Placed name executable order none g named placed ordered =
        register-Placed name executable order g named placed ordered
    sbom-Placed name executable order (some emit) g named placed ordered =
        register-Placed name executable order _ named placed ordered

    -- A registered subprocess check vetoes. A registration with a name and an executable returns no
    -- error, whether or not the checksum was computed, and puts the check at one place of the ordered
    -- chain. If CheckOrder of that guard, in any state, then allows an order, the checks before
    -- that place all allowed it, and the plugin was not closed when its turn came and answered
    -- without an error that the order is allowed.
    pub register_subprocess_check-vetoes :
        (name executable : String) (order : ℤ) (emit : Option (SubprocessChecksumEmitter E))
        (g g' g'' : Guard E) (err : Option String) (st : State E) (req : OrderCheckRequest E)
        (at : Readings) (r : CheckResult)
        → name ≢ ""
        → executable ≢ ""
        → IsOrdered E g.checks
        → register_subprocess_check_with_sbom E H heap name executable order emit g ≡ (err, g')
        → check_order E (record g' { state = st }) req at ≡ (returned r, g'')
        → r.allowed ≡ true
        → (err ≡ none)
          × (p : Placed (config E H heap name executable order) g.checks g'.checks) × (st' : State
              E)
          × AllPass E req p.before at st st'
          × Vouches p.cell req st'
    register_subprocess_check-vetoes name executable order emit g g' g'' err st req at r named
          placed ordered e ran yes_ =
        let (fine, _, p) =
          rw e at (sbom-Placed name executable order emit g named placed ordered) in
        let cfg = config E H heap name executable order in
        let g₁ : Guard E = record g' { state = st } in
        let (_, passes, _) = (check_order-allowed_iff E req g₁ g'' at).0 (r, ran, yes_) in
        let c = subprocess_check E H heap cfg p.cell in
        let (st', before, (r', s, ev, ok, _)) =
          AllPass-split req p.before c p.after at st g''.state (rw p.chain at passes) in
        (
          fine,
          p,
          st',
          before,
          subprocess_check-Vouches cfg p.cell req (skip (length p.before) at 0) st' s r' ev ok,
        )
