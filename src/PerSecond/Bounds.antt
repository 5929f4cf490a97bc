-- ===== src/PerSecond/Bounds.antt =====
-- The cap of nine orders in a calendar second, for orders that are checked and recorded in turn.
use mathlib.Core.Path.{subst, ap₂}
use kite_mcp_riskguard.Prelude.{
  ℕ, ◌+◌, ◌≤◌, ◌<◌, ◌≡◌, refl, Bool, true, false, ◌&&◌, Option, none, some, List, [], ◌∷◌, String,
  ◌==◌, eq_iff, arith, if◌then◌else◌, Bool-cases, inl, inr,
}
use kite_mcp_riskguard.Prelude.Int.{
  ℤ, pos, ◌≤ℤ◌, ◌<ℤ◌, pos_part, leb_ℤ, eqb_ℤ, eqb_ℤ_iff, ℤ_compare, ◌+ℤ◌, int64_small,
}
use kite_mcp_riskguard.Prelude.Dict.{Dict, lookup, lookup-insert}
use kite_mcp_riskguard.Env.{Env, Time}
use kite_mcp_riskguard.Calendar.{unix}
use kite_mcp_riskguard.Model.{PerSecondBucket, State, Reading}
use kite_mcp_riskguard.PerSecond.{
  max_orders_per_second, bump, current_count, increment, check_per_second_rate,
  record_per_second_order,
}

-- The count of a bucket in a second.
abbrev spent : ℤ → Option PerSecondBucket → ℕ
spent s none = 0
spent s (some b) = if eqb_ℤ b.second s then pos_part b.count else 0

-- A bucket that an ascending clock and the cap allow, seen from the instant `now`.
abbrev IsCapped : Time → Option PerSecondBucket → Type 0
IsCapped now none = Unit {0}
IsCapped now (some b) = (b.second ≤ℤ unix now) × (pos 1 ≤ℤ b.count) × (b.count ≤ℤ pos 9)

current_count_lem :
    (u : String) (now : Time) (c : Dict PerSecondBucket)
    → IsCapped now (lookup u c)
    → current_count u now c ≡ pos (spent (unix now) (lookup u c))
unfolding current_count
current_count_lem u now c h = ground arith

bump-spent :
    (now : Time) (o : Option PerSecondBucket)
    → IsCapped now o
    → spent (unix now) o < 9
    → IsCapped now (some (bump (unix now) o))
      × (spent (unix now) (some (bump (unix now) o)) ≡ spent (unix now) o + 1)
unfolding ◌+ℤ◌
bump-spent now none h lt = ground (arith, eqb_ℤ_iff (unix now) (unix now))
bump-spent now (some b) h lt = ground (
  arith,
  eqb_ℤ_iff b.second (unix now),
  eqb_ℤ_iff (unix now) (unix now),
  int64_small (b.count +ℤ pos 1),
)

-- One order of the user `u` at the instant `t`: checked, and recorded if the check allows it.
abbrev place_on : String → Time → Dict PerSecondBucket → Bool × Dict PerSecondBucket
place_on u t c =
    if leb_ℤ max_orders_per_second (current_count u t c)
    then (false, c)
    else (true, increment u t c)

abbrev unit : Bool → ℕ
unit b = if b then 1 else 0

unix_mono : (t u : Time) → t ≤ u → unix t ≤ℤ unix u
unix_mono t u h = ground arith

IsCapped-later : (t u : Time) (o : Option PerSecondBucket) → t ≤ u → IsCapped t o → IsCapped u o
IsCapped-later t u none h k = tt
IsCapped-later t u (some b) h k = ground (arith, unix_mono t u h)

spent_le : (s : ℤ) (t : Time) (o : Option PerSecondBucket) → IsCapped t o → spent s o ≤ 9
spent_le s t none h = omega arith
spent_le s t (some b) h = ground arith

module _ (e : String) where
  -- A placement keeps the cap on the user's bucket, and raises its count by one if it is an admitted
  -- order of that user.
  place_on-IsCapped :
      (u : String) (t : Time) (c : Dict PerSecondBucket)
      → IsCapped t (lookup e c)
      → IsCapped t (lookup e (place_on u t c).1)
        × (spent (unix t) (lookup e (place_on u t c).1)
            ≡ unit ((place_on u t c).0 && u == e) + spent (unix t) (lookup e c))
  unfolding increment
  place_on-IsCapped u t c h = elim (Bool-cases (u == e)) [
    | inl mine ↦
        let same : u ≡ e = (eq_iff u e).0 mine in
        ground (
          arith,
          same,
          current_count_lem e t c h,
          bump-spent t (lookup e c) h,
          lookup-insert e u (bump (unix t) (lookup u c)) c,
        )
    | inr other ↦ ground (arith, lookup-insert e u (bump (unix t) (lookup u c)) c)
  ]

-- Instants that do not go back, from `t` on.
abbrev pub IsAscending : Time → List (String × Reading) → Type 0
IsAscending t [] = Unit {0}
IsAscending t ((u, now) ∷ ps) = (t ≤ now.clock) × IsAscending now.clock ps

module _ (e : String) (s : ℤ) where
  abbrev counts : Bool → String → Time → ℕ
  counts ok u t = unit (ok && u == e && eqb_ℤ (unix t) s)

  counts-le : (ok : Bool) (u : String) (t : Time) → counts ok u t ≤ unit (ok && u == e)
  counts-le ok u t = ground arith

  admitted_on : List (String × Reading) → Dict PerSecondBucket → ℕ
  admitted_on [] c = 0
  admitted_on ((u, now) ∷ ps) c =
      let (ok, c') = place_on u now.clock c in counts ok u now.clock + admitted_on ps c'

  admitted_on-passed :
      (ps : List (String × Reading)) (t : Time) (c : Dict PerSecondBucket)
      → IsAscending t ps
      → s <ℤ unix t
      → admitted_on ps c ≡ 0
  unfolding admitted_on
  admitted_on-passed [] t c h lt = refl
  admitted_on-passed ((u, now) ∷ ps) t c (le, h) lt =
      let mono = unix_mono t now.clock le in
      ground (
        arith,
        eqb_ℤ_iff (unix now.clock) s,
        admitted_on-passed ps now.clock (place_on u now.clock c).1 h,
      )

  spent-future :
      (t : Time) (o : Option PerSecondBucket) → IsCapped t o → unix t <ℤ s → spent s o ≡ 0
  spent-future t none h lt = refl
  spent-future t (some b) h lt = ground (arith, eqb_ℤ_iff b.second s)

  admitted_on-le :
      (ps : List (String × Reading)) (t : Time) (c : Dict PerSecondBucket)
      → IsAscending t ps
      → IsCapped t (lookup e c)
      → admitted_on ps c + spent s (lookup e c) ≤ 9
  unfolding admitted_on
  admitted_on-le [] t c h k = omega (arith, spent_le s t (lookup e c) k)
  admitted_on-le ((u, now) ∷ ps) t c (le, h) k =
      let k' = IsCapped-later t now.clock (lookup e c) le k in
      let c' = (place_on u now.clock c).1 in
      let (kept, more) = place_on-IsCapped e u now.clock c k' in
      let ih = admitted_on-le ps now.clock c' h kept in
      elim (ℤ_compare (unix now.clock) s) [
        | inl (inl before_s) ↦
            let zero = spent-future now.clock (lookup e c) k' before_s in
            ground (arith, eqb_ℤ_iff (unix now.clock) s)
        | inl (inr now_s) ↦
            let more' =
              subst
                (λ (x : ℤ).
                  spent x (lookup e c')
                  ≡ unit ((place_on u now.clock c).0 && u == e) + spent x (lookup e c))
                now_s more in
            omega (arith, counts-le (place_on u now.clock c).0 u now.clock)
        | inr after_s ↦
            let none_left = admitted_on-passed ps now.clock c' h after_s in
            ground (arith, eqb_ℤ_iff (unix now.clock) s, spent_le s now.clock (lookup e c) k')
      ]

module _ (E : Env) where
  -- One order: checked, and recorded if the check allows it, with no other order in between.
  abbrev pub place : String → Reading → State E → Bool × State E
  place u now st =
      let ok = (check_per_second_rate E u now st).allowed in
      (ok, if ok then record_per_second_order E u now st else st)

  -- How many of the orders placed one after another are admitted for the user `e` in second `s`.
  unfoldable pub admitted : String → ℤ → List (String × Reading) → State E → ℕ
  admitted e s [] st = 0
  admitted e s ((u, now) ∷ ps) st =
      let (ok, st') = place u now st in counts e s ok u now.clock + admitted e s ps st'

  place_lem :
      (u : String) (now : Reading) (st : State E) (c : Dict PerSecondBucket)
      → st.per_second ≡ some c
      → ((place u now st).0 ≡ (place_on u now.clock c).0)
        × ((place u now st).1.per_second ≡ some (place_on u now.clock c).1)
  unfolding check_per_second_rate record_per_second_order
  place_lem u now st c h = ground arith

  admitted_lem :
      (e : String) (s : ℤ) (ps : List (String × Reading)) (st : State E) (c : Dict PerSecondBucket)
      → st.per_second ≡ some c
      → admitted e s ps st ≡ admitted_on e s ps c
  unfolding admitted admitted_on
  admitted_lem e s [] st c h = refl
  admitted_lem e s ((u, now) ∷ ps) st c h =
      let (ok, left) = place_lem u now st c h in
      ap₂ (λ (b : Bool) n. counts e s b u now.clock + n) ok
        (admitted_lem e s ps (place u now st).1 (place_on u now.clock c).1 left)

  -- Of any orders, of any users, that are checked and recorded one after another from the counter of
  -- a new guard, at most nine are admitted for a user in one calendar second, if the clock does not
  -- go back.
  pub admitted-le_nine :
      (e : String) (s : ℤ) (ps : List (String × Reading)) (st : State E)
      → st.per_second ≡ some []
      → IsAscending 0 ps
      → admitted e s ps st ≤ 9
  unfolding lookup
  admitted-le_nine e s ps st fresh h =
      rw (admitted_lem e s ps st [] fresh) (omega (arith, admitted_on-le e s ps 0 [] h tt))
