-- ===== src/Chain/Reordering.antt =====
-- The chain does not depend on the order of registration, where the checks' orders differ.
use mathlib.Core.List.{reverse, reverse-reverse}
use kite_mcp_riskguard.Prelude.{◌≡◌, ◌≢◌, refl, sym, ap, ◌∙◌, List, [], ◌∷◌, All, arith, inl, inr}
use kite_mcp_riskguard.Prelude.Int.{◌<ℤ◌, ℤ_compare}
use kite_mcp_riskguard.Env.{Env}
use kite_mcp_riskguard.Chain.{Check, sift, insert_check, insert_checks}

module _ (E : Env) where
  -- The same checks, in another order.
  pub data Reordered : List (Check E) → List (Check E) → Type 0 where
    same : {cs : List (Check E)} → Reordered cs cs
    keep : (c : Check E) {cs ds : List (Check E)} → Reordered cs ds → Reordered (c ∷ cs) (c ∷ ds)
    swap : (c d : Check E) {cs : List (Check E)} → Reordered (c ∷ d ∷ cs) (d ∷ c ∷ cs)
    twice : {cs ds es : List (Check E)} → Reordered cs ds → Reordered ds es → Reordered cs es

  -- No two of the checks have the same order.
  abbrev pub IsDistinct : List (Check E) → Type 0
  IsDistinct [] = Unit
  IsDistinct (c ∷ cs) = All (λ d. c.order ≢ d.order) cs × IsDistinct cs

  All-Reordered {κ} :
      {cs ds : List (Check E)} (P : Check E → Type κ) → Reordered cs ds → All P cs → All P ds
  All-Reordered P same h = h
  All-Reordered P (keep c r) (p, h) = (p, All-Reordered P r h)
  All-Reordered P (swap c d) (p, (q, h)) = (q, (p, h))
  All-Reordered P (twice r s) h = All-Reordered P s (All-Reordered P r h)

  IsDistinct-Reordered : {cs ds : List (Check E)} → Reordered cs ds → IsDistinct cs → IsDistinct ds
  IsDistinct-Reordered same h = h
  IsDistinct-Reordered (keep c r) (p, h) =
      (All-Reordered (λ d. c.order ≢ d.order) r p, IsDistinct-Reordered r h)
  IsDistinct-Reordered (swap c d) ((cd, p), (q, h)) = (((λ e. cd (sym e)), q), (p, h))
  IsDistinct-Reordered (twice r s) h = IsDistinct-Reordered s (IsDistinct-Reordered r h)

  sift_later :
      (c d : Check E) (ps : List (Check E))
      → c.order <ℤ d.order
      → sift E c (sift E d ps) ≡ sift E d (sift E c ps)
  unfolding sift
  sift_later c d [] lt = ground arith
  sift_later c d (p ∷ ps) lt = let rest = sift_later c d ps lt in ground arith

  sift_twice :
      (c d : Check E) (ps : List (Check E))
      → c.order ≢ d.order
      → sift E c (sift E d ps) ≡ sift E d (sift E c ps)
  sift_twice c d ps differ = elim (ℤ_compare c.order d.order) [
    | inl (inl less) ↦ sift_later c d ps less
    | inl (inr equal) ↦ absurd (differ equal)
    | inr more ↦ sym (sift_later d c ps more)
  ]

  pub insert_check_twice :
      (c d : Check E) (cs : List (Check E))
      → c.order ≢ d.order
      → insert_check E c (insert_check E d cs) ≡ insert_check E d (insert_check E c cs)
  unfolding insert_check
  insert_check_twice c d cs differ =
      ap (λ l. reverse (sift E c l)) (reverse-reverse (sift E d (reverse cs)))
      ∙ ap reverse (sift_twice c d (reverse cs) differ)
      ∙ ap (λ l. reverse (sift E d l)) (sym (reverse-reverse (sift E c (reverse cs))))

  reordered_lem :
      {ns ms : List (Check E)}
      → Reordered ns ms
      → (cs : List (Check E)) → IsDistinct ns
      → insert_checks E ns cs ≡ insert_checks E ms cs
  unfolding insert_checks
  reordered_lem same cs h = refl
  reordered_lem (keep c r) cs (p, h) = reordered_lem r (insert_check E c cs) h
  reordered_lem (swap c d {cs = ns}) cs ((cd, p), h) =
      ap (insert_checks E ns) (sym (insert_check_twice c d cs cd))
  reordered_lem (twice r s) cs h =
      reordered_lem r cs h ∙ reordered_lem s cs (IsDistinct-Reordered r h)

  -- Registering checks whose orders all differ gives one chain, whichever of them is registered first,
  -- and on top of any chain.
  pub insert_checks-Reordered :
      (ns ms cs : List (Check E))
      → Reordered ns ms
      → IsDistinct ns
      → insert_checks E ns cs ≡ insert_checks E ms cs
  insert_checks-Reordered ns ms cs r h = reordered_lem r cs h
