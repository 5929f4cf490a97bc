-- ===== src/Lifecycle/AutoFreeze.antt =====
-- The circuit breaker: when it freezes an account, and what a recorded rejection leaves.
use kite_mcp_riskguard.Prelude.{
  ◌-◌, ◌≤◌, ◌≡◌, refl, sym, ap, ◌∙◌, ◌↔◌, Bool, true, false, Option, some, none, List, [], ◌∷◌,
  ◌++◌, String, eq_iff, length, All, arith, if◌then◌else◌,
}
use kite_mcp_riskguard.Prelude.Dict.{Dict, lookup, insert, lookup-insert, lookup-insert_self}
use kite_mcp_riskguard.Env.{Env, Time}
use kite_mcp_riskguard.Model.{
  UserLimits, UserTracker, State, RejectionReason, Effect, auto_freeze_notified,
}
use kite_mcp_riskguard.Limits.{get_effective_limits, fill_defaults, get_or_create_limits}
use kite_mcp_riskguard.Trackers.{get_or_create_tracker, put_tracker, send}
use text.Mathlib.TextPositions.{eq_refl}
use kite_mcp_riskguard.Lifecycle.{
  auto_freeze_threshold, auto_freeze_window, prune, freeze_lower, frozen_entry, record_rejection,
  check_auto_freeze, breaker, breaker_reason,
}
use kite_mcp_riskguard.Lifecycle.Freeze.{
  frozen_entry_lem, frozen_of, frozen_entry-freeze_lower, limits-freeze_lower,
  trackers-persist_limits,
}

-- Entries that are not before the cutoff are kept behind whatever is kept of the older ones.
pub prune-append :
    (cutoff : Time) (old kept : List Time)
    → All (λ t. cutoff ≤ t) kept
    → prune cutoff (old ++ kept) ≡ prune cutoff old ++ kept
unfolding prune
prune-append cutoff [] [] h = refl
prune-append cutoff [] (t ∷ ts) h = ground arith
prune-append cutoff (o ∷ os) kept h = ground (arith, prune-append cutoff os kept h)

module _ (E : Env) where
  frozen_entry-send :
      (key : String) (e : Effect) (st : State E)
      → frozen_entry E key (send E e st) ≡ frozen_entry E key st
  unfolding frozen_entry
  frozen_entry-send key e st = refl

module _ (E : Env) (email : String) where
  abbrev rejections_of : Option (UserTracker E) → List Time
  rejections_of (some t) = t.recent_rejections
  rejections_of none = []

  -- The rejections that the user's tracker holds.
  abbrev pub window : State E → List Time
  window st = rejections_of (lookup email st.trackers)

  -- Whether the breaker is on for the user.
  abbrev pub enabled : State E → Bool
  enabled st = (get_effective_limits E email st).auto_freeze_on_limit_hit

  tracker-window :
      (now : Time) (st : State E)
      → (get_or_create_tracker E email now st).recent_rejections ≡ window st
  unfolding get_or_create_tracker
  tracker-window now st = ground arith

  window-put_tracker :
      (t : UserTracker E) (st : State E) → window (put_tracker E email t st) ≡ t.recent_rejections
  unfolding put_tracker
  window-put_tracker t st = ap rejections_of (lookup-insert_self email t st.trackers)

  pub window-record_rejection :
      (reason : RejectionReason) (at : Time) (st : State E)
      → window (record_rejection E email reason at st) ≡ window st ++ at ∷ []
  unfolding record_rejection
  window-record_rejection reason at st =
      let t = get_or_create_tracker E email at st in
      let t' : UserTracker E = record t { recent_rejections = t.recent_rejections ++ at ∷ [] } in
      ground (arith, tracker-window at st, window-put_tracker t' st)

  pub limits-record_rejection :
      (reason : RejectionReason) (at : Time) (st : State E)
      → (record_rejection E email reason at st).limits ≡ st.limits
  unfolding record_rejection put_tracker
  limits-record_rejection reason at st = ground arith

  -- The state that `check_auto_freeze` has when it counts.
  abbrev pruned : Time → State E → State E
  pruned now st =
      let t = get_or_create_tracker E email now st in
      put_tracker E email
        (record t { recent_rejections = prune (now - auto_freeze_window) t.recent_rejections }) st

  -- The rejections within the last five minutes.
  abbrev pub recent : Time → State E → List Time
  recent now st = prune (now - auto_freeze_window) (window st)

  frozen_entry-pruned :
      (now : Time) (st : State E) → frozen_entry E email (pruned now st) ≡ frozen_entry E email st
  unfolding frozen_entry put_tracker
  frozen_entry-pruned now st = refl

  -- When the breaker fires, by the pruned window.
  pub check_auto_freeze-fires_iff :
      (now : Time) (st : State E)
      → ((check_auto_freeze E email now st).0 ≡ true) ↔ (
          (enabled st ≡ true)
          × (auto_freeze_threshold ≤ length (recent now st))
          × (frozen_entry E email st ≡ false))
  unfolding check_auto_freeze
  check_auto_freeze-fires_iff now st =
      ground (arith, tracker-window now st, frozen_entry-pruned now st)

  -- What the breaker leaves: the account is frozen if it was or if a freeze is reported.
  pub check_auto_freeze-frozen :
      (now : Time) (st : State E)
      → frozen_entry E email (check_auto_freeze E email now st).1
        ≡ (if (check_auto_freeze E email now st).0 then true else frozen_entry E email st)
  unfolding check_auto_freeze
  check_auto_freeze-frozen now st =
      let frozen : State E = freeze_lower E email breaker breaker_reason now (pruned now st) in
      ground (
        arith,
        tracker-window now st,
        frozen_entry-pruned now st,
        frozen_entry-freeze_lower E email breaker breaker_reason email now (pruned now st),
        eq_refl email,
        frozen_entry-send E email (auto_freeze_notified email breaker_reason) frozen,
      )

  trackers-freeze_lower :
      (by reason : String) (now : Time) (st : State E)
      → (freeze_lower E email by reason now st).trackers ≡ st.trackers
  unfolding freeze_lower
  trackers-freeze_lower by reason now st = trackers-persist_limits E email _ now _

  window-freeze_lower :
      (by reason : String) (now : Time) (st : State E)
      → window (freeze_lower E email by reason now st) ≡ window st
  window-freeze_lower by reason now st =
      ap (λ m. rejections_of (lookup email m)) (trackers-freeze_lower by reason now st)

  pub check_auto_freeze-window :
      (now : Time) (st : State E)
      → enabled st ≡ true
      → window (check_auto_freeze E email now st).1 ≡ recent now st
  unfolding check_auto_freeze
  check_auto_freeze-window now st on =
      let t = get_or_create_tracker E email now st in
      let t' : UserTracker E = record t {
        recent_rejections = prune (now - auto_freeze_window) t.recent_rejections;
      } in
      ground (
        arith,
        tracker-window now st,
        window-put_tracker t' st,
        window-freeze_lower breaker breaker_reason now (pruned now st),
      )

  abbrev pub auto_of : Option (UserLimits E) → Bool
  auto_of (some l) = l.auto_freeze_on_limit_hit
  auto_of none = true

  pub enabled_lem : (st : State E) → enabled st ≡ auto_of (lookup (E.to_lower email) st.limits)
  unfolding get_effective_limits fill_defaults
  enabled_lem st = ground arith

  auto_of-insert :
      (key : String) (l : UserLimits E) (m : Dict (UserLimits E))
      → l.auto_freeze_on_limit_hit ≡ auto_of (lookup email m)
      → auto_of (lookup key (insert email l m)) ≡ auto_of (lookup key m)
  auto_of-insert key l m same = ground (arith, lookup-insert key email l m, eq_iff email key)

  auto_of-get_or_create :
      (st : State E)
      → (get_or_create_limits E email st).auto_freeze_on_limit_hit
        ≡ auto_of (lookup email st.limits)
  unfolding get_or_create_limits
  auto_of-get_or_create st = ground arith

  enabled-freeze_lower :
      (by reason : String) (now : Time) (st : State E)
      → enabled (freeze_lower E email by reason now st) ≡ enabled st
  enabled-freeze_lower by reason now st =
      enabled_lem _
      ∙ ap (λ m. auto_of (lookup (E.to_lower email) m))
          (limits-freeze_lower E email by reason now st)
      ∙ auto_of-insert (E.to_lower email) _ st.limits (auto_of-get_or_create st)
      ∙ sym (enabled_lem st)

  pub enabled-of_limits : (st st' : State E) → st'.limits ≡ st.limits → enabled st' ≡ enabled st
  enabled-of_limits st st' e =
      enabled_lem st' ∙ ap (λ m. auto_of (lookup (E.to_lower email) m)) e ∙ sym (enabled_lem st)

  pub enabled-check_auto_freeze :
      (now : Time) (st : State E) → enabled (check_auto_freeze E email now st).1 ≡ enabled st
  unfolding check_auto_freeze put_tracker
  enabled-check_auto_freeze now st =
      let frozen : State E = freeze_lower E email breaker breaker_reason now (pruned now st) in
      ground (
        arith,
        enabled-freeze_lower breaker breaker_reason now (pruned now st),
        enabled-of_limits st (pruned now st) refl,
        enabled-of_limits frozen (send E (auto_freeze_notified email breaker_reason) frozen) refl,
      )

  pub frozen_entry-of_limits :
      (st st' : State E)
      → st'.limits ≡ st.limits
      → frozen_entry E email st' ≡ frozen_entry E email st
  frozen_entry-of_limits st st' e =
      frozen_entry_lem E email st'
      ∙ ap (λ m. frozen_of E (lookup email m)) e
      ∙ sym (frozen_entry_lem E email st)
