-- ===== src/PerSecond/Race.antt =====
-- Concurrent orders of one user in one calendar second: every check runs before any order is
-- recorded, since CheckOrder only reads the counter and RecordOrder follows the placed order.
use kite_mcp_riskguard.Prelude.{
  ℕ, zero, suc, ◌+◌, ◌<◌, ◌≡◌, ◌↔◌, ap, ◌∙◌, true, some, none, String, arith,
}
use kite_mcp_riskguard.Prelude.Int.{ℤ, pos, ◌+ℤ◌, eqb_ℤ_iff, int64_small, two_63}
use kite_mcp_riskguard.Prelude.Dict.{Dict, lookup, lookup-insert_self}
use kite_mcp_riskguard.Env.{Env, Time}
use kite_mcp_riskguard.Calendar.{unix}
use kite_mcp_riskguard.Model.{PerSecondBucket, State, Reading}
use kite_mcp_riskguard.PerSecond.{
  bump, current_count, increment, check_per_second_rate, record_per_second_order,
}

pub current_count-increment :
    (key : String) (now : Time) (c : Dict PerSecondBucket) (m : ℕ)
    → current_count key now c ≡ pos m
    → m + 1 < two_63
    → current_count key now (increment key now c) ≡ pos (m + 1)
unfolding current_count increment ◌+ℤ◌
current_count-increment key now c m h small = ground (
  arith,
  lookup-insert_self key (bump (unix now) (lookup key c)) c,
  eqb_ℤ_iff (unix now) (unix now),
  int64_small (pos (m + 1)),
)

module _ (E : Env) (key : String) (now : Reading) where
  -- RecordOrder's part for the counter, for `k` orders.
  unfoldable pub record_times : ℕ → State E → State E
  record_times zero st = st
  record_times (suc k) st = record_times k (record_per_second_order E key now st)

  -- The count that the check reads.
  abbrev pub counted : State E → ℤ
  counted st = elim st.per_second [ some c ↦ current_count key now.clock c | none ↦ pos 0 ]

  -- From any count below the cap, the check admits an order, and since it only reads, it admits any
  -- number of concurrent orders before the first is recorded. Recording them all counts them all, so
  -- the count of the second can pass the cap of nine, and the threshold of ten. There is a counter,
  -- and the count stays a 64-bit number.
  pub admitted-record_times :
      (k m : ℕ) (c : Dict PerSecondBucket) (st : State E)
      → st.per_second ≡ some c
      → current_count key now.clock c ≡ pos m
      → m + k < two_63
      → (((check_per_second_rate E key now st).allowed ≡ true) ↔ (m < 9))
        × (counted (record_times k st) ≡ pos (m + k))
  unfolding record_times check_per_second_rate record_per_second_order
  admitted-record_times zero m c st h e small = (ground arith, ground arith)
  admitted-record_times (suc k) m c st h e small =
      let c' = increment key now.clock c in
      let st' = record_per_second_order E key now st in
      let h' : st'.per_second ≡ some c' = ground arith in
      let e' = current_count-increment key now.clock c m e (omega arith) in
      let (_, more) = admitted-record_times k (m + 1) c' st' h' e' (omega arith) in
      (ground arith, more ∙ ap pos (omega arith))
