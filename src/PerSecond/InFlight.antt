-- ===== src/PerSecond/InFlight.antt =====
-- Orders of one user of which some are in flight: checked and allowed, their tool running, and not yet
-- recorded (middleware.go calls RecordOrder after the tool).
use kite_mcp_riskguard.Prelude.{
  ℕ, zero, suc, ◌+◌, ◌≤◌, ◌<◌, ◌≡◌, ◌≢◌, refl, sym, ap, ◌∙◌, Bool, true, false, Option, none, some,
  List, [], ◌∷◌, String, ◌==◌, eq_iff, arith, if◌then◌else◌, Bool-cases, Option-cases, inl, inr,
}
use kite_mcp_riskguard.Prelude.Int.{
  ℤ, pos, ◌≤ℤ◌, ◌<ℤ◌, pos_part, leb_ℤ, eqb_ℤ, eqb_ℤ_iff, ℤ_compare, ◌+ℤ◌, int64, int64_small,
  two_63,
}
use kite_mcp_riskguard.Prelude.Dict.{
  Dict, lookup, lookup-insert, lookup-insert_self, lookup-insert_ne,
}
use kite_mcp_riskguard.Env.{Env, Time}
use kite_mcp_riskguard.Calendar.{unix}
use kite_mcp_riskguard.Model.{PerSecondBucket, State, Reading}
use kite_mcp_riskguard.PerSecond.{
  bump, current_count, increment, check_per_second_rate, record_per_second_order,
}
pub mod Buckets
pub mod Bound
pub mod Full

module _ (E : Env) (e : String) where
  pub record Flights : Type 0 where
    pub state : State E
    pub clock : Time
    pub in_flight : ℕ

  pub data Move (x : Flights) : Flights → Type 0 where
    waits : (t : Time) → x.clock ≤ t → Move x (record x { clock = t })
    -- The check allows an order of the user.
    takes_off :
        (now : Reading)
        → now.clock ≡ x.clock
        → (check_per_second_rate E e now x.state).allowed ≡ true
        → Move x (record x { in_flight = suc x.in_flight })
    -- Its tool has succeeded, and RecordOrder counts it.
    records :
        (now : Reading) {n : ℕ}
        → now.clock ≡ x.clock
        → x.in_flight ≡ suc n
        → Move x (record x { state = record_per_second_order E e now x.state; in_flight = n })
    -- Its tool has failed.
    fails : {n : ℕ} → x.in_flight ≡ suc n → Move x (record x { in_flight = n })
    -- RecordOrder counts an order of another user.
    records_other :
        (u : String) (now : Reading)
        → u ≢ e
        → now.clock ≡ x.clock
        → Move x (record x { state = record_per_second_order E u now x.state })

  abbrev pub recorded_in : ℤ → {x y : Flights} → Move x y → ℕ
  recorded_in s (records now at some_) = if eqb_ℤ (unix now.clock) s then 1 else 0
  recorded_in s (waits t le) = 0
  recorded_in s (takes_off now at ok) = 0
  recorded_in s (fails some_) = 0
  recorded_in s (records_other u now other at) = 0

  -- Runs with at most `k` orders of the user in flight, in which `n` are recorded in the second `s`.
  pub data Runs (k : ℕ) (s : ℤ) (x : Flights) : Flights → ℕ → Type 0 where
    here : Runs k s x x 0
    then_ :
        {y z : Flights} {n m : ℕ}
        → Runs k s x y n
        → (move : Move y z) → z.in_flight ≤ k
        → m ≡ recorded_in s move + n
        → Runs k s x z m
