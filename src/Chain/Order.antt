-- ===== src/Chain/Order.antt =====
-- The order of the check chain under registration.
use mathlib.Core.List.{reverse, reverse-append, reverse-reverse, reverse-cons, append_assoc}
use kite_mcp_riskguard.Prelude.{
  ◌≡◌, refl, sym, ap, List, [], ◌∷◌, ◌++◌, All, All-append, All-left, All-right, All-reverse,
  All-map, arith, Bool-cases, inl, inr, ◌∙◌,
}
use kite_mcp_riskguard.Prelude.Int.{◌≤ℤ◌, ◌<ℤ◌, ltb_ℤ}
use kite_mcp_riskguard.Env.{Env}
use kite_mcp_riskguard.Chain.{Check, sift, insert_check}

module _ (E : Env) where
  -- `sift` takes a list apart into the checks that the new one moves past and the rest, at whose head
  -- it stops.
  abbrev StopsAt : Check E → List (Check E) → Type 0
  StopsAt c [] = Unit
  StopsAt c (p ∷ ps) = p.order ≤ℤ c.order

  record SiftSplit (c : Check E) (ps : List (Check E)) : Type 0 where
    passed : List (Check E)
    rest : List (Check E)
    whole : ps ≡ passed ++ rest
    placed : sift E c ps ≡ passed ++ c ∷ rest
    greater : All (λ p. c.order <ℤ p.order) passed
    stopped : StopsAt c rest

  sift-split : (c : Check E) (ps : List (Check E)) → SiftSplit c ps
  unfolding sift
  sift-split c [] = record {
    passed = [];
    rest = [];
    whole = refl;
    placed = refl;
    greater = tt;
    stopped = tt;
  }
  sift-split c (p ∷ ps) = elim (Bool-cases (ltb_ℤ c.order p.order)) [
    | inl past ↦
        let s = sift-split c ps in
        record {
          passed = p ∷ s.passed;
          rest = s.rest;
          whole = ap (λ l. p ∷ l) s.whole;
          placed = rw past (ap (λ l. p ∷ l) s.placed);
          greater = (ground arith, s.greater);
          stopped = s.stopped;
        }
    | inr stop ↦ record {
      passed = [];
      rest = p ∷ ps;
      whole = refl;
      placed = rw stop refl;
      greater = tt;
      stopped = ground arith;
    }
  ]

  -- A chain in ascending order.
  abbrev pub IsOrdered : List (Check E) → Type 0
  IsOrdered [] = Unit
  IsOrdered (c ∷ cs) = All (λ d. c.order ≤ℤ d.order) cs × IsOrdered cs

  IsOrdered-left : (xs ys : List (Check E)) → IsOrdered (xs ++ ys) → IsOrdered xs
  IsOrdered-left [] ys h = tt
  IsOrdered-left (x ∷ xs) ys (p, h) =
      (All-left (λ d. x.order ≤ℤ d.order) xs ys p, IsOrdered-left xs ys h)

  IsOrdered-right : (xs ys : List (Check E)) → IsOrdered (xs ++ ys) → IsOrdered ys
  IsOrdered-right [] ys h = h
  IsOrdered-right (x ∷ xs) ys (p, h) = IsOrdered-right xs ys h

  -- The last check of an ordered chain bounds them all.
  All-le_last :
      (c p : Check E) (ps : List (Check E))
      → IsOrdered (ps ++ p ∷ [])
      → p.order ≤ℤ c.order
      → All (λ d. d.order ≤ℤ c.order) (ps ++ p ∷ [])
  All-le_last c p [] h le = (le, tt)
  All-le_last c p (q ∷ ps) (first, h) le =
      let bound = All-right (λ d. q.order ≤ℤ d.order) ps (p ∷ []) first in
      (omega (arith, bound.0), All-le_last c p ps h le)

  -- A check fits between those that it does not precede and those with a greater order.
  IsOrdered-insert :
      (c : Check E) (before after : List (Check E))
      → IsOrdered (before ++ after)
      → All (λ d. d.order ≤ℤ c.order) before
      → All (λ d. c.order <ℤ d.order) after
      → IsOrdered (before ++ c ∷ after)
  IsOrdered-insert c [] after h le lt =
      (All-map (λ d (p : c.order <ℤ d.order). omega arith) after lt, h)
  IsOrdered-insert c (b ∷ bs) after (first, h) (p, le) lt = (
    All-append (λ d. b.order ≤ℤ d.order) bs (c ∷ after)
        (All-left (λ d. b.order ≤ℤ d.order) bs after first)
        (p, All-right (λ d. b.order ≤ℤ d.order) bs after first),
    IsOrdered-insert c bs after h le lt,
  )

  before_le :
      (c : Check E) (rest : List (Check E))
      → StopsAt c rest
      → IsOrdered (reverse rest)
      → All (λ d. d.order ≤ℤ c.order) (reverse rest)
  before_le c [] s h = tt
  before_le c (p ∷ ps) s h =
      rw (reverse-cons p ps) (All-le_last c p (reverse ps) (rw (reverse-cons p ps) at h) s)

  -- Where a registered check comes to stand, in any chain.
  pub record Insertion (c : Check E) (cs : List (Check E)) : Type 0 where
    pub before : List (Check E)
    pub after : List (Check E)
    pub whole : cs ≡ before ++ after
    pub placed : insert_check E c cs ≡ before ++ c ∷ after
    pub greater : All (λ d. c.order <ℤ d.order) after
    pub bounded : IsOrdered cs → All (λ d. d.order ≤ℤ c.order) before

  pub insert_check-split : (c : Check E) (cs : List (Check E)) → Insertion c cs
  unfolding insert_check
  insert_check-split c cs =
      let s = sift-split c (reverse cs) in
      let before = reverse s.rest in
      let after = reverse s.passed in
      let whole : cs ≡ before ++ after =
        sym (reverse-reverse cs) ∙ ap reverse s.whole ∙ reverse-append s.passed s.rest in
      record {
        before = before;
        after = after;
        whole = whole;
        placed =
            ap reverse s.placed
            ∙ reverse-append s.passed (c ∷ s.rest)
            ∙ ap (λ l. l ++ after) (reverse-cons c s.rest)
            ∙ append_assoc before (c ∷ []) after;
        greater = All-reverse (λ d. c.order <ℤ d.order) s.passed s.greater;
        bounded = λ h. before_le c s.rest s.stopped (IsOrdered-left before after (rw whole at h));
      }

  -- Registering a check in an ordered chain puts it behind every check whose order is not greater
  -- and in front of every check whose order is greater; the others keep their places, so the checks
  -- of one order stand as they were registered, and the chain is ordered again.
  pub insert_check-placement :
      (c : Check E) (cs : List (Check E))
      → IsOrdered cs
      → (before : List (Check E)) × (after : List (Check E)) × (cs ≡ before ++ after)
        × (insert_check E c cs ≡ before ++ c ∷ after)
        × All (λ d. d.order ≤ℤ c.order) before
        × All (λ d. c.order <ℤ d.order) after
        × IsOrdered (insert_check E c cs)
  insert_check-placement c cs h =
      let s = insert_check-split c cs in
      let le = s.bounded h in
      let ordered : IsOrdered (s.before ++ s.after) = rw s.whole at h in
      (
        s.before,
        s.after,
        s.whole,
        s.placed,
        le,
        s.greater,
        rw s.placed (IsOrdered-insert c s.before s.after ordered le s.greater),
      )
