-- ===== src/CheckOrder/Alone.antt =====
-- The built-in checks, run one after another, and each by itself.
use mathlib.Core.Path.{subst}
use kite_mcp_riskguard.Prelude.{◌≡◌, refl, List, [], ◌∷◌}
use kite_mcp_riskguard.Env.{Env}
use kite_mcp_riskguard.Model.{CheckResult, OrderCheckRequest, State, Reading}
use kite_mcp_riskguard.Chain.{result, Check}
use kite_mcp_riskguard.CheckOrder.{Readings, later}
use kite_mcp_riskguard.CheckOrder.Laws.{AllPass}
pub mod Trackers
pub mod Kept
pub mod Answers

module _ (E : Env) (req : OrderCheckRequest E) where
  -- Run from `now` one after another, the checks answer as in `st`.
  abbrev pub AnswersAsIn : State E → List (Check E) → Readings → State E → Type 0
  AnswersAsIn st [] at now = Unit
  AnswersAsIn st (c ∷ cs) at now =
      ((c.evaluate req (at 0) now).0 ≡ (c.evaluate req (at 0) st).0)
      × AnswersAsIn st cs (later at) (c.evaluate req (at 0) now).1
