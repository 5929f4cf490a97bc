-- ===== src/PerSecond/InFlight/Full.antt =====
-- Runs that fill a second.
use mathlib.Core.Path.{subst}
use kite_mcp_riskguard.Prelude.{
  ℕ, zero, suc, ◌+◌, ◌≤◌, ◌<◌, ◌≡◌, refl, true, some, [], String, arith, if◌then◌else◌,
}
use kite_mcp_riskguard.Prelude.Int.{pos, eqb_ℤ, eqb_ℤ_iff, two_63}
use kite_mcp_riskguard.Prelude.Dict.{Dict, lookup}
use kite_mcp_riskguard.Env.{Env}
use kite_mcp_riskguard.Calendar.{unix}
use kite_mcp_riskguard.Model.{PerSecondBucket, State, Reading}
use kite_mcp_riskguard.PerSecond.{
  current_count, increment, check_per_second_rate, record_per_second_order,
}
use kite_mcp_riskguard.PerSecond.Race.{current_count-increment}
use kite_mcp_riskguard.PerSecond.InFlight.{Flights, takes_off, records, Runs, here, then_}

module _ (E : Env) (e : String) (now : Reading) (k : ℕ) where
  abbrev aloft : State E → ℕ → Flights E e
  aloft st f = record { state = st; clock = now.clock; in_flight = f }

  -- The user's count in the second of the reading.
  abbrev Counts : ℕ → State E → Type 0
  Counts m st =
      (c : Dict PerSecondBucket) × (st.per_second ≡ some c) × (current_count e now.clock c ≡ pos m)

  below :
      (m : ℕ) (st : State E)
      → Counts m st
      → m < 9
      → (check_per_second_rate E e now st).allowed ≡ true
  unfolding check_per_second_rate
  below m st (c, held, e') lt = ground arith

  Counts-record :
      (m : ℕ) (st : State E)
      → Counts m st
      → m + 1 < two_63
      → Counts (m + 1) (record_per_second_order E e now st)
  unfolding record_per_second_order
  Counts-record m st (c, held, e') small =
      (increment e now.clock c, ground arith, current_count-increment e now.clock c m e' small)

  abbrev RunsTo : Flights E e → Flights E e → ℕ → Type 0
  RunsTo x y n = Runs E e k (unix now.clock) x y n

  one_more : (n : ℕ) → suc n ≡ (if eqb_ℤ (unix now.clock) (unix now.clock) then 1 else 0) + n
  one_more n =
      let self = (eqb_ℤ_iff (unix now.clock) (unix now.clock)).1 refl in ground (arith, self)

  none_more : (n : ℕ) → n ≡ 0 + n
  none_more n = omega arith

  -- The orders in flight are recorded.
  land :
      (x : Flights E e) (j n m : ℕ) (st : State E)
      → j ≤ k
      → Counts m st
      → m + j < two_63
      → RunsTo x (aloft st j) n
      → (st' : State E) × Counts (m + j) st' × RunsTo x (aloft st' 0) (n + j)
  land x zero n m st le count small r = (
    st,
    subst (λ i. Counts i st) (omega arith) count,
    subst (RunsTo x (aloft st 0)) (omega arith) r,
  )
  land x (suc j) n m st le count small r =
      let st₁ = record_per_second_order E e now st in
      let landed = then_ r (records now refl refl) (omega arith) (one_more n) in
      let (st', count', r') =
        land x j (suc n) (m + 1) st₁ (omega arith) (Counts-record m st count (omega arith))
          (omega arith) landed in
      (
        st',
        subst (λ i. Counts i st') (omega arith) count',
        subst (RunsTo x (aloft st' 0)) (omega arith) r',
      )

  -- Some orders take off before the first of them is recorded.
  take_off :
      (x : Flights E e) (j n : ℕ) (st : State E)
      → j ≤ k
      → (check_per_second_rate E e now st).allowed ≡ true
      → RunsTo x (aloft st 0) n
      → RunsTo x (aloft st j) n
  take_off x zero n st le ok r = r
  take_off x (suc j) n st le ok r =
      then_ (take_off x j n st (omega arith) ok r) (takes_off now refl ok) le (none_more n)

  -- Below the cap one order after another is recorded.
  in_turn :
      (m : ℕ) (st : State E)
      → 1 ≤ k
      → m ≤ 9
      → Counts 0 st
      → (st' : State E) × Counts m st' × RunsTo (aloft st 0) (aloft st' 0) m
  in_turn zero st some_ le count = (st, count, here)
  in_turn (suc m) st some_ le count =
      let (st', count', r) = in_turn m st some_ (omega arith) count in
      let ok = below m st' count' (omega arith) in
      let (st'', count'', r') =
        land (aloft st 0) 1 m m st' some_ count' (omega arith)
          (take_off (aloft st 0) 1 m st' some_ ok r) in
      (
        st'',
        subst (λ i. Counts i st'') (omega arith) count'',
        subst (RunsTo (aloft st 0) (aloft st'' 0)) (omega arith) r',
      )

  -- The cap of nine does not hold with orders in flight. From an empty counter, for `k` of at least one
  -- as long as the count stays a 64-bit number, there is a run in one second, with never more than `k`
  -- orders in flight, to a moment where eight orders of the user are recorded and `k` more have been
  -- allowed and none of these is recorded; and on from there to one where those `k` are recorded too.
  pub recorded-full :
      (st : State E)
      → 1 ≤ k
      → 8 + k < two_63
      → st.per_second ≡ some []
      → (mid : Flights E e) × (y : Flights E e) × Runs E e k (unix now.clock) (aloft st 0) mid 8
        × (mid.in_flight ≡ k)
        × Runs E e k (unix now.clock) mid y k
        × (y.in_flight ≡ 0)
  unfolding current_count lookup
  recorded-full st some_ small empty =
      let (st', count, r) = in_turn 8 st some_ (omega arith) ([], empty, refl) in
      let ok = below 8 st' count (omega arith) in
      let (st'', _, r') = land (aloft st' k) k 0 8 st' (omega arith) count small here in
      (
        aloft st' k,
        aloft st'' 0,
        take_off (aloft st 0) k 8 st' (omega arith) ok r,
        refl,
        subst (RunsTo (aloft st' k) (aloft st'' 0)) (omega arith) r',
        refl,
      )
