-- ===== src/CheckOrder/Concurrent/Keys/Moves.antt =====
-- The steps of a call, as far as idempotency keys go.
use mathlib.Core.Path.{subst}
use kite_mcp_riskguard.Prelude.{
  ℕ, ◌≡◌, ◌⊎◌, refl, sym, ap, false, Option, List, [], ◌∷◌, String, ◌==◌, eq_iff, arith, Bool-cases,
  inl, inr,
}
use kite_mcp_riskguard.Env.{Env, Time}
use kite_mcp_riskguard.Model.{CheckResult, OrderCheckRequest, Dedup, State, Reading}
use kite_mcp_riskguard.Limits.{persist_limits}
use kite_mcp_riskguard.Trackers.{put_tracker}
use kite_mcp_riskguard.Lifecycle.{freeze_lower, record_rejection, check_auto_freeze}
use kite_mcp_riskguard.Dedup.{hash_key}
use kite_mcp_riskguard.Chain.{result, Check, Guard}
use kite_mcp_riskguard.Builtin.{client_order_id_dup_check}
use kite_mcp_riskguard.CheckOrder.{returned, check_panic}
use kite_mcp_riskguard.CheckOrder.Laws.{StopsWith-ne_allowed}
use kite_mcp_riskguard.CheckOrder.Concurrent.{
  Phase, enters, unfrozen, walks, rejected, recorded, done, noted_keeps_allowed, Move, blocked,
  passes, snapshot, allows, finishes, stops, stops_locked, returns, records, breaks,
}
use kite_mcp_riskguard.CheckOrder.Concurrent.Keys.{
  InTime, HasTtl, Held, IsKeyed, allowed-Held, allowed-ne_Held,
}

module _ (E : Env) where
  -- The check of keys, or one that leaves the keys as they are.
  abbrev pub IsTame : Check E → Type 0
  IsTame c =
      (c ≡ client_order_id_dup_check E)
      ⊎ ((req : OrderCheckRequest E) (now : Reading) (st : State E)
          → (c.evaluate req now st).1.dedup ≡ st.dedup)

  -- The check of keys is among them.
  abbrev pub AsksKeys : List (Check E) → Type 0
  AsksKeys [] = ⊥
  AsksKeys (c ∷ cs) = (c ≡ client_order_id_dup_check E) ⊎ AsksKeys cs

  record_rejection-dedup :
      (email reason : String) (at : Time) (st : State E)
      → (record_rejection E email reason at st).dedup ≡ st.dedup
  unfolding record_rejection put_tracker
  record_rejection-dedup email reason at st = ground arith

  check_auto_freeze-dedup :
      (email : String) (at : Time) (st : State E)
      → (check_auto_freeze E email at st).1.dedup ≡ st.dedup
  unfolding check_auto_freeze put_tracker freeze_lower persist_limits
  check_auto_freeze-dedup email at st = ground arith

  module _ (k : String) (since : Time) (ttl : ℕ) where
    pub IsKeyed-cases :
        (req : OrderCheckRequest E) → IsKeyed E k since ttl req ⊎ (¬ IsKeyed E k since ttl req)
    IsKeyed-cases req =
        let h = hash_key E (E.to_lower req.email) req.client_order_id in
        elim (Bool-cases (req.client_order_id == "")) [
          | inl none_ ↦ inr (λ (some_, _). cc)
          | inr some_ ↦ (elim (Bool-cases (h == k)) [
            | inl same ↦ inl (some_, (eq_iff h k).0 same)
            | inr other ↦ inr (λ (_, same). let yes_ = (eq_iff h k).1 same in cc)
          ])
        ]

    module _ (req : OrderCheckRequest E) where
      -- The checks of a step are tame, and read the clock of Dedup in time.
      abbrev pub MoveInTime : {g g' : Guard E} {p p' : Phase E} → Move E req g p g' p' → Type 0
      MoveInTime (blocked e) = Unit
      MoveInTime (passes e) = Unit
      MoveInTime snapshot = Unit
      MoveInTime (allows c now r e ok) = IsTame c × InTime since ttl now
      MoveInTime finishes = Unit
      MoveInTime (stops c now e same why) = IsTame c × InTime since ttl now
      MoveInTime (stops_locked c now v same) = IsTame c × InTime since ttl now
      MoveInTime (returns e) = Unit
      MoveInTime (records now e) = Unit
      MoveInTime (breaks now) = Unit

      -- What the check of keys keeps of the keys, a step keeps.
      module _ (Q : Option Dedup → Type 0)
          (kept : (now : Reading) (st : State E)
            → InTime since ttl now
            → Q st.dedup
            → Q ((client_order_id_dup_check E).evaluate req now st).1.dedup) where
        tame_keeps :
            (c : Check E) (now : Reading) (st st' : State E)
            → (c.evaluate req now st).1 ≡ st'
            → IsTame c × InTime since ttl now
            → Q st.dedup
            → Q st'.dedup
        tame_keeps c now st st' left (inl e, in_time) h =
            subst (λ (s : State E). Q s.dedup) left
              (subst (λ (c' : Check E). Q (c'.evaluate req now st).1.dedup) (sym e)
                (kept now st in_time h))
        tame_keeps c now st st' left (inr keeps, in_time) h =
            subst (λ (s : State E). Q s.dedup) left (subst Q (sym (keeps req now st)) h)

        pub Move_keeps :
            {g g' : Guard E} {p p' : Phase E} (m : Move E req g p g' p')
            → MoveInTime m
            → Q g.state.dedup
            → Q g'.state.dedup
        Move_keeps (blocked e) t h = h
        Move_keeps (passes e) t h = h
        Move_keeps snapshot t h = h
        Move_keeps {g} (allows c now r {st} e ok) t h =
            tame_keeps c now g.state st (ap (λ x. x.1) e) t h
        Move_keeps finishes t h = h
        Move_keeps {g} (stops c now e {r} {st} same why) t h =
            tame_keeps c now g.state st (ap (λ x. x.1) same) t h
        Move_keeps {g} (stops_locked c now v {st} same) t h =
            tame_keeps c now g.state st (ap (λ x. x.1) same) t h
        Move_keeps (returns e) t h = h
        Move_keeps {g} (records now e) t h =
            subst Q (sym (record_rejection-dedup _ _ now.wall g.state)) h
        Move_keeps {g} (breaks now) t h =
            subst Q (sym (check_auto_freeze-dedup _ now.wall g.state)) h

      pub Move-checks :
          {g g' : Guard E} {p p' : Phase E} → Move E req g p g' p' → g'.checks ≡ g.checks
      Move-checks (blocked e) = refl
      Move-checks (passes e) = refl
      Move-checks snapshot = refl
      Move-checks (allows c now r e ok) = refl
      Move-checks finishes = refl
      Move-checks (stops c now e same why) = refl
      Move-checks (stops_locked c now v same) = refl
      Move-checks (returns e) = refl
      Move-checks (records now e) = refl
      Move-checks (breaks now) = refl

      -- A call with the key has not passed the check of keys, or it was stopped.
      abbrev pub Waits : Phase E → Type 0
      Waits enters = Unit
      Waits unfrozen = Unit
      Waits (walks cs) = AsksKeys cs
      Waits (rejected c r) = r.allowed ≡ false
      Waits (recorded c r) = r.allowed ≡ false
      Waits (done o) = (r : CheckResult) → o ≡ returned r → r.allowed ≡ false

      pub Move-Waits :
          {g g' : Guard E} {p p' : Phase E} (m : Move E req g p g' p')
          → MoveInTime m
          → IsKeyed E k since ttl req
          → AsksKeys g.checks
          → HasTtl E k since ttl g.state.dedup
          → Waits p
          → Waits p' ⊎ (Held E k since ttl g'.state.dedup × ¬ Held E k since ttl g.state.dedup)
      unfolding check_panic
      Move-Waits (blocked e) t keyed asks on w = inl (λ r e'. ground arith)
      Move-Waits (passes e) t keyed asks on w = inl tt
      Move-Waits snapshot t keyed asks on w = inl asks
      Move-Waits {g} (allows c now r {st} e ok) (tame, in_time) keyed asks on (inl dup) =
          let e' : (client_order_id_dup_check E).evaluate req now g.state ≡ (result r, st) =
            subst (λ (c' : Check E). c'.evaluate req now g.state ≡ (result r, st)) dup e in
          inr (
            subst (λ (s : State E). Held E k since ttl s.dedup) (ap (λ x. x.1) e')
                (allowed-Held E k since ttl req now g.state keyed r (ap (λ x. x.0) e') ok in_time
                  on),
            allowed-ne_Held E k since ttl req now g.state keyed r (ap (λ x. x.0) e') ok in_time,
          )
      Move-Waits (allows c now r e ok) t keyed asks on (inr more) = inl more
      Move-Waits finishes t keyed asks on w = absurd w
      Move-Waits (stops c now e {r} same why) t keyed asks on w =
          inl (StopsWith-ne_allowed E req c e r why)
      Move-Waits (stops_locked c now v same) t keyed asks on w = inl (λ r e'. ground arith)
      Move-Waits (returns {r = r} e) t keyed asks on w = inl (λ r' e'. ground arith)
      Move-Waits (records now e) t keyed asks on w = inl w
      Move-Waits {g} (breaks {r = r} now) t keyed asks on w =
          let after = check_auto_freeze E (E.to_lower req.email) now.wall g.state in
          let same = noted_keeps_allowed E r after in inl (λ r' e'. ground (arith, same, e', w))
