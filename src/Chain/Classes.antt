-- ===== src/Chain/Classes.antt =====
-- The chains of guard.go as classes of registrations: what RegisterCheck keeps of their order.
use mathlib.Core.Equiv.{IsEquiv, iso_to_equiv}
use mathlib.Core.HLevel.{Σ_prop_path, Σ_set, ×_prop, prop→set}
use mathlib.Core.Quot
use mathlib.Core.Quot.{Quot, Quot-set}
use native.Mathlib.Bridge.{le_prop}
use kite_mcp_riskguard.Prelude.{List, [], ◌∷◌, All}
use kite_mcp_riskguard.Prelude.Int.{◌≤ℤ◌}
use kite_mcp_riskguard.Env.{Env}
use kite_mcp_riskguard.Chain.{Check, insert_checks}
use kite_mcp_riskguard.Chain.Order.{IsOrdered}
use kite_mcp_riskguard.Chain.Registrations.{
  Exchanged, Exchanged-sym, Exchanged-chain, insert_checks-respects, insert_checks-IsOrdered,
  insert_checks-ordered,
}

module _ (E : Env) where
  All-prop : (c : Check E) (cs : List (Check E)) → IsProp (All (λ d. c.order ≤ℤ d.order) cs)
  All-prop c [] = hlevel
  All-prop c (d ∷ cs) = ×_prop le_prop (All-prop c cs)

  IsOrdered-prop : (cs : List (Check E)) → IsProp (IsOrdered E cs)
  IsOrdered-prop [] = hlevel
  IsOrdered-prop (c ∷ cs) = ×_prop (All-prop c cs) (IsOrdered-prop cs)

  -- Sequences of registrations, up to exchanges of neighbours of different orders.
  abbrev pub Registrations : Type 0
  Registrations = Quot (Exchanged E)

  abbrev pub OrderedChain : Type 0
  OrderedChain = (cs : List (Check E)) × IsOrdered E cs

  OrderedChain-set : IsSet (Check E) → IsSet OrderedChain
  OrderedChain-set checks = Σ_set (hlevel) (λ cs. prop→set (IsOrdered-prop cs))

  -- The chain that a class of registrations gives.
  pub chain_of : IsSet (Check E) → Registrations → OrderedChain
  chain_of checks =
      Quot.lift (OrderedChain-set checks)
        (λ ns. (insert_checks E ns [], insert_checks-IsOrdered E ns [] tt))
        (λ ns ms e. Σ_prop_path IsOrdered-prop (insert_checks-respects E [] e))

  -- The registrations up to exchanges of neighbours of different orders are the ordered chains: each
  -- ordered chain comes from registrations, and from one class of them only. The checks form a set.
  pub chain_of-IsEquiv : (checks : IsSet (Check E)) → IsEquiv (chain_of checks)
  unfolding chain_of
  chain_of-IsEquiv checks =
      (iso_to_equiv (record {
        fun = chain_of checks;
        inv = λ (cs, h). Quot.mk cs;
        rinv = λ (cs, h). Σ_prop_path IsOrdered-prop (insert_checks-ordered E cs [] h);
        linv =
            Quot.ind (λ q. Quot-set _ _)
              (λ ns. Quot.sound (Exchanged-sym E (Exchanged-chain E ns [])));
      })).1
