-- ===== src/Chain/Registrations.antt =====
-- Sequences of registrations, RegisterCheck of guard.go one after another, and the chains that they give.
use kite_mcp_riskguard.Prelude.{
  ◌≡◌, ◌≢◌, ◌↔◌, refl, sym, ap, ◌∙◌, List, [], ◌∷◌, ◌++◌, All, All-right, arith,
}
use mathlib.Core.List.{append_assoc, append-nil}
use kite_mcp_riskguard.Prelude.Int.{◌<ℤ◌, ◌≤ℤ◌}
use kite_mcp_riskguard.Env.{Env}
use kite_mcp_riskguard.Chain.{Check, insert_check, insert_checks}
use kite_mcp_riskguard.Chain.Order.{IsOrdered, insert_check-split, insert_check-placement}
use kite_mcp_riskguard.Chain.Reordering.{insert_check_twice}

module _ (E : Env) where
  -- One sequence of registrations becomes the other by exchanging neighbours of different orders.
  pub data Exchanged : List (Check E) → List (Check E) → Type 0 where
    same : {cs : List (Check E)} → Exchanged cs cs
    keep : (c : Check E) {cs ds : List (Check E)} → Exchanged cs ds → Exchanged (c ∷ cs) (c ∷ ds)
    swap :
        (c d : Check E) {cs : List (Check E)}
        → c.order ≢ d.order
        → Exchanged (c ∷ d ∷ cs) (d ∷ c ∷ cs)
    twice : {cs ds es : List (Check E)} → Exchanged cs ds → Exchanged ds es → Exchanged cs es

  pub Exchanged-sym : {cs ds : List (Check E)} → Exchanged cs ds → Exchanged ds cs
  Exchanged-sym same = same
  Exchanged-sym (keep c e) = keep c (Exchanged-sym e)
  Exchanged-sym (swap c d differ) = swap d c (λ e. differ (sym e))
  Exchanged-sym (twice e f) = twice (Exchanged-sym f) (Exchanged-sym e)

  Exchanged-before :
      (bs : List (Check E)) {cs ds : List (Check E)}
      → Exchanged cs ds
      → Exchanged (bs ++ cs) (bs ++ ds)
  Exchanged-before [] e = e
  Exchanged-before (b ∷ bs) e = keep b (Exchanged-before bs e)

  -- A check goes in front of checks of greater orders.
  Exchanged-pass :
      (c : Check E) (ps cs : List (Check E))
      → All (λ d. c.order <ℤ d.order) ps
      → Exchanged (ps ++ c ∷ cs) (c ∷ ps ++ cs)
  Exchanged-pass c [] cs h = same
  Exchanged-pass c (p ∷ ps) cs (less, h) =
      twice (keep p (Exchanged-pass c ps cs h)) (swap p c (λ e. ground arith))

  pub insert_checks-respects :
      {ns ms : List (Check E)} (cs : List (Check E))
      → Exchanged ns ms
      → insert_checks E ns cs ≡ insert_checks E ms cs
  unfolding insert_checks
  insert_checks-respects cs same = refl
  insert_checks-respects cs (keep c e) = insert_checks-respects (insert_check E c cs) e
  insert_checks-respects cs (swap c d {cs = ns} differ) =
      ap (insert_checks E ns) (sym (insert_check_twice E c d cs differ))
  insert_checks-respects cs (twice e f) = insert_checks-respects cs e ∙ insert_checks-respects cs f

  Exchanged-placed :
      (c : Check E) (cs chain before after ns : List (Check E))
      → cs ≡ before ++ after
      → chain ≡ before ++ c ∷ after
      → All (λ d. c.order <ℤ d.order) after
      → Exchanged (cs ++ c ∷ ns) (chain ++ ns)
  Exchanged-placed c cs chain before after ns whole placed greater =
      rw (whole, placed, append_assoc before after (c ∷ ns), append_assoc before (c ∷ after) ns)
        (Exchanged-before before (Exchanged-pass c after ns greater))

  Exchanged-insert :
      (c : Check E) (cs ns : List (Check E)) → Exchanged (cs ++ c ∷ ns) (insert_check E c cs ++ ns)
  Exchanged-insert c cs ns =
      let s = insert_check-split E c cs in
      Exchanged-placed c cs (insert_check E c cs) s.before s.after ns s.whole s.placed s.greater

  pub Exchanged-chain : (ns cs : List (Check E)) → Exchanged (cs ++ ns) (insert_checks E ns cs)
  unfolding insert_checks
  Exchanged-chain [] cs = rw (append-nil cs) same
  Exchanged-chain (n ∷ ns) cs =
      twice (Exchanged-insert n cs ns) (Exchanged-chain ns (insert_check E n cs))

  -- Two sequences of registrations on an empty chain give the same chain exactly if one becomes the
  -- other by exchanging neighbours of different orders, as often as one likes.
  pub insert_checks-Exchanged :
      (ns ms : List (Check E)) → (insert_checks E ns [] ≡ insert_checks E ms []) ↔ Exchanged ns ms
  insert_checks-Exchanged ns ms = (
    λ e. twice (Exchanged-chain ns []) (rw e (Exchanged-sym (Exchanged-chain ms []))),
    insert_checks-respects [],
  )

  pub insert_checks-IsOrdered :
      (ns cs : List (Check E)) → IsOrdered E cs → IsOrdered E (insert_checks E ns cs)
  unfolding insert_checks
  insert_checks-IsOrdered [] cs h = h
  insert_checks-IsOrdered (n ∷ ns) cs h =
      let (_, _, _, _, _, _, ordered) = insert_check-placement E n cs h in
      insert_checks-IsOrdered ns (insert_check E n cs) ordered

  -- A check that no check of the chain exceeds goes to the end.
  -- Nothing is greater than `c` and at most `c`.
  no_greater :
      (c : Check E) (cs before after : List (Check E))
      → cs ≡ before ++ after
      → All (λ d. d.order ≤ℤ c.order) cs
      → All (λ d. c.order <ℤ d.order) after
      → after ≡ []
  no_greater c cs before [] whole le lt = refl
  no_greater c cs before (d ∷ ds) whole le lt =
      let les = All-right (λ d. d.order ≤ℤ c.order) before (d ∷ ds) (rw whole at le) in
      absurd (omega (arith, les.0, lt.0))

  insert_check_last :
      (c : Check E) (cs : List (Check E))
      → All (λ d. d.order ≤ℤ c.order) cs
      → insert_check E c cs ≡ cs ++ c ∷ []
  insert_check_last c cs le =
      let s = insert_check-split E c cs in
      let none_after = no_greater c cs s.before s.after s.whole le s.greater in
      s.placed ∙ λ i.
      (sym (s.whole ∙ ap (λ l. s.before ++ l) none_after ∙ append-nil s.before)) i
      ++ c ∷ none_after i

  IsOrdered-le :
      (c : Check E) (cs ds : List (Check E))
      → IsOrdered E (cs ++ c ∷ ds)
      → All (λ d. d.order ≤ℤ c.order) cs
  IsOrdered-le c [] ds h = tt
  IsOrdered-le c (d ∷ cs) ds (first, h) =
      ((All-right (λ e. d.order ≤ℤ e.order) cs (c ∷ ds) first).0, IsOrdered-le c cs ds h)

  pub insert_checks-ordered :
      (ns cs : List (Check E)) → IsOrdered E (cs ++ ns) → insert_checks E ns cs ≡ cs ++ ns
  unfolding insert_checks
  insert_checks-ordered [] cs h = sym (append-nil cs)
  insert_checks-ordered (n ∷ ns) cs h =
      let whole : (cs ++ n ∷ []) ++ ns ≡ cs ++ n ∷ ns = append_assoc cs (n ∷ []) ns in
      rw (insert_check_last n cs (IsOrdered-le n cs ns h))
        (insert_checks-ordered ns (cs ++ n ∷ []) (rw (sym whole) at h) ∙ whole)
