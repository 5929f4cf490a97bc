-- ===== src/Lifecycle/Freeze.antt =====
-- What freezing a user changes, and what it leaves alone.
use kite_mcp_riskguard.Prelude.{
  ◌≡◌, refl, sym, ap, ◌∙◌, Bool, true, false, Option, none, some, String, ◌==◌, arith,
  if◌then◌else◌, Option-cases, inl, inr,
}
use kite_mcp_riskguard.Prelude.Dict.{lookup, insert, lookup-insert}
use kite_mcp_riskguard.Env.{Env, Time}
use kite_mcp_riskguard.Model.{UserLimits, State}
use kite_mcp_riskguard.Limits.{get_or_create_limits, persist_limits}
use kite_mcp_riskguard.Lifecycle.{freeze_lower, freeze, unfreeze, frozen_entry, is_frozen}

module _ (E : Env) where
  -- Persisting touches the database alone.
  pub limits-persist_limits :
      (key : String) (l : UserLimits E) (now : Time) (st : State E)
      → (persist_limits E key l now st).limits ≡ st.limits
  unfolding persist_limits
  limits-persist_limits key l now st = ground arith

  pub trackers-persist_limits :
      (key : String) (l : UserLimits E) (now : Time) (st : State E)
      → (persist_limits E key l now st).trackers ≡ st.trackers
  unfolding persist_limits
  trackers-persist_limits key l now st = ground arith

  pub limits-freeze_lower :
      (key by reason : String) (now : Time) (st : State E)
      → (freeze_lower E key by reason now st).limits
        ≡ insert key
            (record (get_or_create_limits E key st) {
              trading_frozen = true;
              frozen_by = by;
              frozen_reason = reason;
              frozen_at = now;
            })
            st.limits
  unfolding freeze_lower
  limits-freeze_lower key by reason now st = limits-persist_limits key _ now _

  limits-unfreeze :
      (email : String) (now : Time) (st : State E)
      → (unfreeze E email now st).limits
        ≡ insert
            (E.to_lower email)
            (record (get_or_create_limits E (E.to_lower email) st) {
              trading_frozen = false;
              frozen_by = "";
              frozen_reason = "";
              frozen_at = 0;
            })
            st.limits
  unfolding unfreeze
  limits-unfreeze email now st = limits-persist_limits _ _ now _

  -- `frozen_entry` of a map.
  abbrev pub frozen_of : Option (UserLimits E) → Bool
  frozen_of (some l) = l.trading_frozen
  frozen_of none = false

  pub frozen_entry_lem :
      (key : String) (st : State E) → frozen_entry E key st ≡ frozen_of (lookup key st.limits)
  unfolding frozen_entry
  frozen_entry_lem key st = elim (Option-cases (lookup key st.limits)) [
    | inl missing ↦ rw (missing, frozen_entry)
    | inr (l, found) ↦ rw (found, frozen_entry)
  ]

  frozen_of-if :
      (b : Bool) (l : UserLimits E) (o : Option (UserLimits E))
      → frozen_of (if b then some l else o) ≡ (if b then l.trading_frozen else frozen_of o)
  frozen_of-if true l o = refl
  frozen_of-if false l o = refl

  -- The freeze flags after an entry is written.
  frozen_entry-insert :
      (key other : String) (l : UserLimits E) (st st' : State E)
      → st'.limits ≡ insert key l st.limits
      → frozen_entry E other st'
        ≡ (if key == other then l.trading_frozen else frozen_entry E other st)
  frozen_entry-insert key other l st st' e =
      frozen_entry_lem other st'
      ∙ ap frozen_of (ap (lookup other) e ∙ lookup-insert other key l st.limits)
      ∙ frozen_of-if (key == other) l (lookup other st.limits)
      ∙ ap (λ (b : Bool). if key == other then l.trading_frozen else b)
          (sym (frozen_entry_lem other st))

  pub frozen_entry-freeze_lower :
      (key by reason other : String) (now : Time) (st : State E)
      → frozen_entry E other (freeze_lower E key by reason now st)
        ≡ (if key == other then true else frozen_entry E other st)
  frozen_entry-freeze_lower key by reason other now st =
      frozen_entry-insert key other _ st _ (limits-freeze_lower key by reason now st)

  -- Freezing a user makes IsFrozen true of every spelling of the email that has the same lower case,
  -- unfreezing makes it false of them, and neither changes the answer for any other user.
  is_frozen-freeze-unfreeze :
      (email by reason other : String) (now : Time) (st : State E)
      → (is_frozen E other (freeze E email by reason now st)
          ≡ (if E.to_lower email == E.to_lower other then true else is_frozen E other st))
        × (is_frozen E other (unfreeze E email now st)
            ≡ (if E.to_lower email == E.to_lower other then false else is_frozen E other st))
  unfolding is_frozen freeze
  is_frozen-freeze-unfreeze email by reason other now st = (
    frozen_entry-freeze_lower (E.to_lower email) by reason (E.to_lower other) now st,
    frozen_entry-insert (E.to_lower email) (E.to_lower other) _ st _ (limits-unfreeze email now st),
  )
