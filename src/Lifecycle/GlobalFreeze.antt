-- ===== src/Lifecycle/GlobalFreeze.antt =====
-- The global freeze under any sequence of FreezeGlobal and UnfreezeGlobal.
use kite_mcp_riskguard.Prelude.{
  ◌≡◌, refl, Bool, true, false, List, [], ◌∷◌, String, arith, if◌then◌else◌, Bool-cases, inl, inr,
}
use kite_mcp_riskguard.Env.{Env, Time}
use kite_mcp_riskguard.Model.{State, Effect, kill_switch_tripped}
use kite_mcp_riskguard.Lifecycle.{
  freeze_global, unfreeze_global, GlobalFreezeStatus, get_global_freeze_status,
}

-- A call of an administrator.
pub data Switch : Type 0 where
  on : (by reason : String) → Time → Switch
  off : Time → Switch

abbrev pub flips : Switch → Bool
flips (on by reason at) = true
flips (off at) = false

-- The status that the calls leave, from the one before them: the last call alone decides it.
abbrev pub last_status : List Switch → GlobalFreezeStatus → GlobalFreezeStatus
last_status [] s = s
last_status (on by reason at ∷ ws) s =
    last_status ws (record { is_frozen = true; frozen_by = by; reason = reason; frozen_at = at })
last_status (off at ∷ ws) s =
    last_status ws (record { is_frozen = false; frozen_by = ""; reason = ""; frozen_at = 0 })

-- The events, the oldest last: one for each call that changes whether trading is frozen.
abbrev pub transitions : Bool → List Switch → List Effect → List Effect
transitions was [] sent = sent
transitions was (on by reason at ∷ ws) sent =
    transitions true ws (if was then sent else kill_switch_tripped by reason true at ∷ sent)
transitions was (off at ∷ ws) sent =
    transitions false ws (if was then kill_switch_tripped "" "" false at ∷ sent else sent)

module _ (E : Env) where
  unfoldable pub switch : List Switch → State E → State E
  switch [] st = st
  switch (on by reason at ∷ ws) st = switch ws (freeze_global E by reason at st)
  switch (off at ∷ ws) st = switch ws (unfreeze_global E at st)

  last_status-switch :
      (ws : List Switch) (st : State E)
      → get_global_freeze_status E (switch ws st) ≡ last_status ws (get_global_freeze_status E st)
  unfolding switch freeze_global unfreeze_global get_global_freeze_status
  last_status-switch [] st = refl
  last_status-switch (on by reason at ∷ ws) st =
      ground (arith, last_status-switch ws (freeze_global E by reason at st))
  last_status-switch (off at ∷ ws) st =
      ground (arith, last_status-switch ws (unfreeze_global E at st))

  sent-switch :
      (ws : List Switch) (st : State E)
      → st.has_dispatcher ≡ true
      → (switch ws st).sent ≡ transitions st.global_frozen ws st.sent
  unfolding switch freeze_global unfreeze_global
  sent-switch [] st h = refl
  sent-switch (on by reason at ∷ ws) st h =
      ground (arith, sent-switch ws (freeze_global E by reason at st))
  sent-switch (off at ∷ ws) st h = ground (arith, sent-switch ws (unfreeze_global E at st))

  unsent-switch :
      (ws : List Switch) (st : State E) → st.has_dispatcher ≡ false → (switch ws st).sent ≡ st.sent
  unfolding switch freeze_global unfreeze_global
  unsent-switch [] st h = refl
  unsent-switch (on by reason at ∷ ws) st h =
      ground (arith, unsent-switch ws (freeze_global E by reason at st))
  unsent-switch (off at ∷ ws) st h = ground (arith, unsent-switch ws (unfreeze_global E at st))

  -- After any calls of FreezeGlobal and UnfreezeGlobal, on any guard, the status is the one that the last
  -- call set, with its author, reason and time even where trading was frozen already. With a
  -- dispatcher, exactly the calls that changed whether trading is frozen have sent an event, and
  -- without one nothing was sent.
  pub switch-transitions :
      (ws : List Switch) (st : State E)
      → (get_global_freeze_status E (switch ws st) ≡ last_status ws (get_global_freeze_status E st))
        × ((switch ws st).sent
            ≡ (if st.has_dispatcher then transitions st.global_frozen ws st.sent else st.sent))
  switch-transitions ws st = (
    last_status-switch ws st,
    elim (Bool-cases st.has_dispatcher) [
      | inl with_ ↦ ground (arith, sent-switch ws st with_)
      | inr without ↦ ground (arith, unsent-switch ws st without)
    ],
  )
