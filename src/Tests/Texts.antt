-- ===== src/Tests/Texts.antt =====
-- The theorems on idempotency keys, hours, and formatted numbers at concrete inputs.
use kite_mcp_riskguard.Prelude.{◌≡◌, ◌⊎◌, some, List, [], ◌∷◌, String, arith, ◌-◌}
use kite_mcp_riskguard.Prelude.Int.{pos, negsuc, two_63}
use kite_mcp_riskguard.Calendar.{seconds}
use kite_mcp_riskguard.Dedup.{new_dedup, default_dedup_ttl}
use kite_mcp_riskguard.Dedup.History.{Use, submit, clean, answers, verdicts, new_dedup-refines}
use kite_mcp_riskguard.Itoa.{itoa}
use kite_mcp_riskguard.Itoa.RoundTrip.{parse, itoa-parse}

abbrev uses : List Use
uses =
    submit "a" 5 ∷ submit "b" 7 ∷ submit "a" 9 ∷ clean (seconds 905) ∷ submit "a" (seconds 906) ∷ []

new_dedup-refines_example : answers uses (new_dedup (pos 0)) ≡ verdicts default_dedup_ttl uses []
new_dedup-refines_example =
    new_dedup-refines (pos 0) uses
      (omega arith, (omega arith, (omega arith, (omega arith, (omega arith, tt)))))

itoa-parse_example :
    (s : String) × (itoa (negsuc 41) ≡ some s)
    × ((negsuc 41 ≡ negsuc (two_63 - 1)) × (s ≡ "-") ⊎ (parse s ≡ negsuc 41))
itoa-parse_example = itoa-parse (negsuc 41) (omega arith) (omega arith)
