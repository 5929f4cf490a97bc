-- ===== src/Lifecycle.antt =====
-- lifecycle.go: the global and the per-user freeze, and the auto-freeze circuit breaker.
use kite_mcp_riskguard.Prelude.{
  ℕ, ◌-◌, Bool, true, false, not, ◌&&◌, none, some, List, [], ◌∷◌, ◌++◌, String, leb, length,
  drop_while, if◌then◌else◌,
}
use kite_mcp_riskguard.Prelude.Dict.{lookup, insert}
use kite_mcp_riskguard.Env.{Env, Time}
use kite_mcp_riskguard.Calendar.{minutes, before}
use kite_mcp_riskguard.Model.{
  UserLimits, State, RejectionReason, kill_switch_tripped, rejection, auto_freeze_notified,
}
use kite_mcp_riskguard.Limits.{get_effective_limits, get_or_create_limits, persist_limits}
use kite_mcp_riskguard.Trackers.{get_or_create_tracker, put_tracker, send}
pub mod Freeze
pub mod AutoFreeze
pub mod Pruning
pub mod GlobalFreeze
pub mod Breaker

abbrev pub auto_freeze_threshold : ℕ
auto_freeze_threshold = 3

abbrev pub auto_freeze_window : ℕ
auto_freeze_window = minutes 5

abbrev pub breaker : String
breaker = "riskguard:circuit-breaker"

abbrev pub breaker_reason : String
breaker_reason = "Automatic safety freeze: repeated limit violations"

-- `slice[start:]` for the first `start` that is not before the cutoff.
unfoldable pub prune : Time → List Time → List Time
prune cutoff ts = drop_while (λ t. before t cutoff) ts

pub record GlobalFreezeStatus : Type 0 where
  pub is_frozen : Bool
  pub frozen_by : String
  pub reason : String
  pub frozen_at : Time

module _ (E : Env) where
  unfoldable pub freeze_global : String → String → Time → State E → State E
  freeze_global by reason now st =
      let frozen = record st {
        global_frozen = true;
        global_frozen_by = by;
        global_frozen_reason = reason;
        global_frozen_at = now;
      } in
      if not st.global_frozen && st.has_dispatcher
      then send E (kill_switch_tripped by reason true now) frozen
      else frozen

  unfoldable pub unfreeze_global : Time → State E → State E
  unfreeze_global now st =
      let thawed = record st {
        global_frozen = false;
        global_frozen_by = "";
        global_frozen_reason = "";
        global_frozen_at = 0;
      } in
      if st.global_frozen && st.has_dispatcher
      then send E (kill_switch_tripped "" "" false now) thawed
      else thawed

  abbrev pub is_globally_frozen : State E → Bool
  is_globally_frozen st = st.global_frozen

  unfoldable pub get_global_freeze_status : State E → GlobalFreezeStatus
  get_global_freeze_status st = record {
    is_frozen = st.global_frozen;
    frozen_by = st.global_frozen_by;
    reason = st.global_frozen_reason;
    frozen_at = st.global_frozen_at;
  }

  abbrev pub put_limits : String → UserLimits E → State E → State E
  put_limits email l st = record st { limits = insert email l st.limits }

  -- `Freeze` and the breaker's freeze, for an email in lower case.
  unfoldable pub freeze_lower : String → String → String → Time → State E → State E
  freeze_lower email by reason now st =
      let l = record (get_or_create_limits E email st) {
        trading_frozen = true;
        frozen_by = by;
        frozen_reason = reason;
        frozen_at = now;
      } in
      persist_limits E email l now (put_limits email l st)

  unfoldable pub freeze : String → String → String → Time → State E → State E
  freeze email by reason now st = freeze_lower (E.to_lower email) by reason now st

  unfoldable pub unfreeze : String → Time → State E → State E
  unfreeze email now st =
      let key = E.to_lower email in
      let l = record (get_or_create_limits E key st) {
        trading_frozen = false;
        frozen_by = "";
        frozen_reason = "";
        frozen_at = 0;
      } in
      persist_limits E key l now (put_limits key l st)

  -- Whether the entry of a map key is frozen, as IsFrozen, the kill switch and the breaker look it up.
  unfoldable pub frozen_entry : String → State E → Bool
  frozen_entry key st = elim (lookup key st.limits) [ some l ↦ l.trading_frozen | none ↦ false ]

  unfoldable pub is_frozen : String → State E → Bool
  is_frozen email st = frozen_entry (E.to_lower email) st

  unfoldable pub record_rejection : String → RejectionReason → Time → State E → State E
  record_rejection email reason now st =
      let t = get_or_create_tracker E email now st in
      let st' =
        put_tracker E email (record t { recent_rejections = t.recent_rejections ++ now ∷ [] }) st in
      if st'.has_dispatcher then send E (rejection email reason now) st' else st'

  abbrev notify : String → State E → State E
  notify email st =
      if st.has_notifier then send E (auto_freeze_notified email breaker_reason) st else st

  -- The cutoff is `now - auto_freeze_window`. No instant is before the zero time, so where `-` stops
  -- at 0 nothing is dropped, as in Go.
  unfoldable pub check_auto_freeze : String → Time → State E → Bool × State E
  check_auto_freeze email now st =
      if (get_effective_limits E email st).auto_freeze_on_limit_hit
      then (let t = get_or_create_tracker E email now st in
          let recent = prune (now - auto_freeze_window) t.recent_rejections in
          let st' = put_tracker E email (record t { recent_rejections = recent }) st in
          if leb auto_freeze_threshold (length recent)
          then (if frozen_entry email st'
              then (false, st')
              else (true, notify email (freeze_lower email breaker breaker_reason now st')))
          else (false, st'))
      else (false, st)
