-- ===== src/PerSecond.antt =====
-- per_second.go: orders counted by user and calendar second.
use kite_mcp_riskguard.Prelude.{Bool, not, Option, none, some, List, [], ◌∷◌, String, if◌then◌else◌}
use kite_mcp_riskguard.Prelude.Int.{ℤ, pos, ◌+ℤ◌, eqb_ℤ, leb_ℤ, int64}
use kite_mcp_riskguard.Prelude.Dict.{Dict, lookup, insert}
use kite_mcp_riskguard.Env.{Env, Time, Arg, int}
use kite_mcp_riskguard.Calendar.{unix}
use kite_mcp_riskguard.Model.Reasons.{reason_per_second_rate_exceeded}
use kite_mcp_riskguard.Model.{
  CheckResult, allow, reject, PerSecondBucket, PerSecondCounter, State, Reading,
}
pub mod Bounds
pub mod Race
pub mod InFlight

abbrev pub max_orders_per_second : ℤ
max_orders_per_second = pos 9

abbrev pub new_per_second_counter : PerSecondCounter
new_per_second_counter = []

unfoldable pub current_count : String → Time → PerSecondCounter → ℤ
current_count email now c = elim (lookup email c) [
  | none ↦ pos 0
  | some b ↦ if not (eqb_ℤ b.second (unix now)) then pos 0 else b.count
]

-- The bucket that `increment` stores.
abbrev pub bump : ℤ → Option PerSecondBucket → PerSecondBucket
bump sec none = record { second = sec; count = pos 1 }
bump sec (some b) =
    if not (eqb_ℤ b.second sec)
    then record { second = sec; count = pos 1 }
    else record b { count = int64 (b.count +ℤ pos 1) }

unfoldable pub increment : String → Time → PerSecondCounter → PerSecondCounter
increment email now c = insert email (bump (unix now) (lookup email c)) c

module _ (E : Env) where
  unfoldable pub check_per_second_rate : String → Reading → State E → CheckResult
  check_per_second_rate email now st = elim st.per_second [
    | none ↦ allow
    | some c ↦
        let count = current_count email now.clock c in
        if leb_ℤ max_orders_per_second count
        then reject reason_per_second_rate_exceeded (
            E.sprintf
              "Per-second order rate exceeded: %d orders already submitted in this calendar second (cap: %d, reserved 1-order headroom below the broker-side 10/sec SEBI threshold). Wait for the next second before retrying."
              (int count ∷ int max_orders_per_second ∷ []))
        else allow
  ]

  unfoldable pub record_per_second_order : String → Reading → State E → State E
  record_per_second_order email now st = elim st.per_second [
    | none ↦ st
    | some c ↦ record st { per_second = some (increment email now.clock c) }
  ]
