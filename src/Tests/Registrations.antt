-- ===== src/Tests/Registrations.antt =====
-- The theorems on sequences of registrations at concrete checks.
use mathlib.Core.Equiv.{IsEquiv}
use mathlib.Core.HLevel.{hedberg}
use kite_mcp_riskguard.Prelude.{◌≡◌, ◌↔◌, List, [], ◌∷◌, String, ◌==◌, eq_iff, Bool-cases, inl, inr}
use kite_mcp_riskguard.Chain.{Check, insert_checks}
use kite_mcp_riskguard.Chain.Registrations.{Exchanged, insert_checks-Exchanged}
use kite_mcp_riskguard.Chain.Classes.{chain_of, chain_of-IsEquiv}
use kite_mcp_riskguard.Builtin.{order_value_check, off_hours_check}
use kite_mcp_riskguard.Tests.Sample.{sample}

abbrev value_first : List (Check sample)
value_first = order_value_check sample ∷ off_hours_check sample ∷ []

abbrev hours_first : List (Check sample)
hours_first = off_hours_check sample ∷ order_value_check sample ∷ []

insert_checks-Exchanged_example :
    (insert_checks sample value_first [] ≡ insert_checks sample hours_first [])
    ↔ Exchanged sample value_first hours_first
insert_checks-Exchanged_example = insert_checks-Exchanged sample value_first hours_first

String-discrete : Discrete String
String-discrete s t = elim (Bool-cases (s == t)) [
  | inl e ↦ yes ((eq_iff s t).0 e)
  | inr e ↦ no (λ p. let again = (eq_iff s t).1 p in cc)
]

checks_set : IsSet (Check sample)
checks_set = hlevel (hedberg String-discrete)

chain_of-IsEquiv_example : IsEquiv (chain_of sample checks_set)
chain_of-IsEquiv_example = chain_of-IsEquiv sample checks_set
