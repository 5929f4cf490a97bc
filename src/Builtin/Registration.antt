-- ===== src/Builtin/Registration.antt =====
-- Guards that NewGuard and RegisterCheck build.
use mathlib.Core.Path.{subst}
use kite_mcp_riskguard.Prelude.{
  ◌≡◌, refl, sym, ap, ◌∙◌, true, false, List, [], ◌∷◌, ◌++◌, arith, All,
}
use kite_mcp_riskguard.Prelude.Int.{pos, ◌≤ℤ◌, ◌<ℤ◌}
use kite_mcp_riskguard.Env.{Env}
use kite_mcp_riskguard.Model.{CheckResult, OrderCheckRequest, State}
use kite_mcp_riskguard.Lifecycle.{is_frozen}
use kite_mcp_riskguard.Chain.{Check, Guard, sift, insert_check, insert_checks, register_check}
use kite_mcp_riskguard.Chain.Order.{IsOrdered, insert_check-placement}
use kite_mcp_riskguard.Chain.Registrations.{insert_checks-IsOrdered}
use kite_mcp_riskguard.Builtin.{kill_switch_check, builtin_checks, new_guard}
use kite_mcp_riskguard.CheckOrder.{returned, Readings, check_order}
use kite_mcp_riskguard.CheckOrder.KillSwitch.{check_order-kill_switch}

module _ (E : Env) where
  -- RegisterCheck, for some checks one after another.
  unfoldable pub register_all : List (Check E) → Guard E → Guard E
  register_all [] g = g
  register_all (c ∷ cs) g = register_all cs (register_check E c g)

  pub insert_check-IsOrdered :
      (c : Check E) (cs : List (Check E)) → IsOrdered E cs → IsOrdered E (insert_check E c cs)
  insert_check-IsOrdered c cs h =
      let (before, after, whole, placed, le, lt, ordered) = insert_check-placement E c cs h in
      ordered

  -- The kill switch comes first.
  abbrev pub Starts : List (Check E) → Type 0
  Starts cs = (rest : List (Check E)) × (cs ≡ kill_switch_check E ∷ rest)

  split-Starts :
      (c : Check E) (before after rest : List (Check E))
      → pos 100 ≤ℤ c.order
      → All (λ d. c.order <ℤ d.order) after
      → kill_switch_check E ∷ rest ≡ before ++ after
      → Starts (before ++ c ∷ after)
  split-Starts c (b ∷ bs) after rest le lt whole =
      let head : b ≡ kill_switch_check E = ground (arith, whole) in
      (bs ++ c ∷ after, ap (λ d. d ∷ bs ++ c ∷ after) head)
  split-Starts c [] [] rest le lt whole = ground arith
  split-Starts c [] (a ∷ as_) rest le (first, lt) whole =
      let head : a ≡ kill_switch_check E = ground (arith, whole) in
      let late : c.order <ℤ pos 100 = subst (λ (d : Check E). c.order <ℤ d.order) head first in
      absurd (omega (arith, late))

  pub insert_check-Starts :
      (c : Check E) (cs : List (Check E))
      → IsOrdered E cs
      → pos 100 ≤ℤ c.order
      → Starts cs
      → Starts (insert_check E c cs)
  insert_check-Starts c cs h le (rest, starts) =
      let (before, after, whole, placed, _, lt, _) = insert_check-placement E c cs h in
      let (rest', e) = split-Starts c before after rest le lt (sym starts ∙ whole) in
      (rest', placed ∙ e)

  register_all-Starts :
      (cs : List (Check E)) (g : Guard E)
      → All (λ (c : Check E). pos 100 ≤ℤ c.order) cs
      → IsOrdered E g.checks
      → Starts g.checks
      → IsOrdered E (register_all cs g).checks × Starts (register_all cs g).checks
  unfolding register_all register_check
  register_all-Starts [] g le h starts = (h, starts)
  register_all-Starts (c ∷ cs) g (first, le) h starts =
      register_all-Starts cs (register_check E c g) le (insert_check-IsOrdered c g.checks h)
        (insert_check-Starts c g.checks h first starts)

  pub new_guard-Starts : (w : E.World) → Starts (new_guard E w).checks
  unfolding new_guard insert_checks insert_check sift
  new_guard-Starts w = (_, refl)

  -- Whatever checks are registered on a new guard, at orders of 100 or more, the chain is ordered,
  -- and in any state that it comes to, as long as trading is not globally frozen, every order of a
  -- frozen user is rejected as such and leaves the guard as it was.
  pub register_all-blocks_frozen :
      (w : E.World) (cs : List (Check E)) (st : State E) (req : OrderCheckRequest E) (at : Readings)
      → All (λ (c : Check E). pos 100 ≤ℤ c.order) cs
      → st.global_frozen ≡ false
      → is_frozen E req.email st ≡ true
      → IsOrdered E (register_all cs (new_guard E w)).checks
        × (let g : Guard E = record (register_all cs (new_guard E w)) { state = st } in
            (r : CheckResult) × (check_order E g req at ≡ (returned r, g))
            × (r.allowed ≡ false)
            × (r.reason ≡ "trading_frozen"))
  register_all-blocks_frozen w cs st req at le free frozen =
      let base : IsOrdered E (new_guard E w).checks =
        unfold new_guard in insert_checks-IsOrdered E (builtin_checks E) [] tt in
      let (ordered, (rest, starts)) =
        register_all-Starts cs (new_guard E w) le base (new_guard-Starts w) in
      let g : Guard E = record (register_all cs (new_guard E w)) { state = st } in
      (ordered, (check_order-kill_switch E req at g rest free starts).0 frozen)
