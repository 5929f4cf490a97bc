-- ===== src/Chain.antt =====
-- The `Check` interface of check.go, and the ordered chain of guard.go.
use mathlib.Core.List.{reverse}
use kite_mcp_riskguard.Prelude.{
  ℕ, suc, Bool, true, false, List, [], ◌∷◌, String, map, if◌then◌else◌,
}
use kite_mcp_riskguard.Prelude.Int.{ℤ, ltb_ℤ}
use kite_mcp_riskguard.Env.{Env}
use kite_mcp_riskguard.Model.{CheckResult, OrderCheckRequest, State, Reading}
pub mod Order
pub mod Reordering
pub mod Registrations
pub mod Classes

-- How a call of `Evaluate` ends: it returns, it panics, or it panics while it holds the guard's
-- mutex, which no deferred unlock releases.
pub data Eval : Type 0 where
  result : CheckResult → Eval
  panicked : String → Eval
  panicked_locked : String → Eval

module _ (E : Env) where
  pub record Check : Type 0 where
    pub name : String
    pub order : ℤ
    pub record_on_rejection : Bool
    pub evaluate : OrderCheckRequest E → Reading → State E → Eval × State E

  -- The backward walk of `insertCheckLocked`, on the list from its end: the new check moves past
  -- those with a strictly greater order.
  unfoldable pub sift : Check → List Check → List Check
  sift c [] = c ∷ []
  sift c (p ∷ ps) = if ltb_ℤ c.order p.order then p ∷ sift c ps else c ∷ p ∷ ps

  unfoldable pub insert_check : Check → List Check → List Check
  insert_check c cs = reverse (sift c (reverse cs))

  -- `for _, c := range … { g.insertCheckLocked(c) }`
  unfoldable pub insert_checks : List Check → List Check → List Check
  insert_checks [] cs = cs
  insert_checks (n ∷ ns) cs = insert_checks ns (insert_check n cs)

  pub record Guard : Type 0 where
    pub checks : List Check
    pub state : State E

  unfoldable pub register_check : Check → Guard → Guard
  register_check c g = record g { checks = insert_check c g.checks }

  unfoldable pub list_check_names : Guard → List String
  list_check_names g = map (λ (c : Check). c.name) g.checks
