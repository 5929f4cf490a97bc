-- ===== src/CheckOrder/Restarted.antt =====
-- A freeze across a restart of the process.
use kite_mcp_riskguard.Prelude.{
  ◌≡◌, refl, ap, ◌∙◌, true, false, Option, none, some, List, [], ◌∷◌, ◌++◌, String, All, arith,
}
use kite_mcp_riskguard.Prelude.Dict.{lookup}
use kite_mcp_riskguard.Env.{Env, Time, Scan, scanned, rows}
use kite_mcp_riskguard.Model.{CheckResult, OrderCheckRequest, UserLimits, State}
use kite_mcp_riskguard.Limits.{LoadError, row_of, get_or_create_limits, load_rows, load_limits}
use kite_mcp_riskguard.Limits.Restart.{
  IsOther, load_limits_lem, persisted_db, load_limits-persist_limits,
}
use kite_mcp_riskguard.Lifecycle.{put_limits, freeze_lower, freeze, frozen_entry, is_frozen}
use kite_mcp_riskguard.Chain.{Check, Guard}
use kite_mcp_riskguard.Builtin.{kill_switch_check}
use kite_mcp_riskguard.CheckOrder.{returned, Readings, check_order}
use kite_mcp_riskguard.CheckOrder.KillSwitch.{check_order-kill_switch}

module _ (E : Env) where
  global_frozen-load_rows :
      (rs : List (Scan E.Float)) (end : Option String) (st : State E)
      → (load_rows E rs end st).1.global_frozen ≡ st.global_frozen
  unfolding load_rows
  global_frozen-load_rows [] none st = refl
  global_frozen-load_rows [] (some e) st = refl
  global_frozen-load_rows (scanned r ∷ rs) end st = global_frozen-load_rows rs end _
  global_frozen-load_rows (Scan.scan_failed e ∷ rs) end st = refl

  is_frozen-entry :
      (email : String) (l : UserLimits E) (st : State E)
      → lookup (E.to_lower email) st.limits ≡ some l
      → l.trading_frozen ≡ true
      → is_frozen E email st ≡ true
  unfolding is_frozen frozen_entry
  is_frozen-entry email l st found frozen = ground arith

  -- The entry that Freeze writes.
  abbrev pub frozen_limits_of : String → String → String → Time → State E → UserLimits E
  frozen_limits_of key by reason now st = record (get_or_create_limits E key st) {
    trading_frozen = true;
    frozen_by = by;
    frozen_reason = reason;
    frozen_at = now;
  }

  -- A freeze outlives the process. An admin freezes a user of a guard with a database; a new guard
  -- with that database loads its limits: it loads without an error, the user is frozen, and CheckOrder
  -- rejects each of the user's orders as such, whatever the spelling of the email. The database holds
  -- the row that was upserted and no other row of the user, the amounts come back from their floats,
  -- lower case is final, and the new guard's chain starts with the kill switch and has no global freeze.
  pub check_order-freeze :
      (email by reason : String) (now : Time) (d : E.Db) (st st' : State E)
      (pre post : List (Scan E.Float)) (cs : List (Check E)) (req : OrderCheckRequest E)
      (at : Readings)
      → let key = E.to_lower email in
        let l = frozen_limits_of key by reason now st in
        E.to_lower key ≡ key
        → E.to_lower req.email ≡ key
        → E.new_inr (E.to_float l.max_single_order_inr) ≡ l.max_single_order_inr
        → E.new_inr (E.to_float l.max_daily_value_inr) ≡ l.max_daily_value_inr
        → E.select_all (E.upsert d (row_of E key l) now).0
          ≡ rows (pre ++ scanned (row_of E key l) ∷ post) none
        → All (IsOther E key) pre
        → All (IsOther E key) post
        → st.db ≡ some d
        → st'.db ≡ (freeze E email by reason now st).db
        → st'.global_frozen ≡ false
        → let (err, loaded) = load_limits E st' in
          let g : Guard E = record { checks = kill_switch_check E ∷ cs; state = loaded } in
          (err ≡ none)
          × (is_frozen E req.email loaded ≡ true)
          × (r : CheckResult) × (check_order E g req at ≡ (returned r, g))
          × (r.allowed ≡ false)
          × (r.reason ≡ "trading_frozen")
  unfolding freeze freeze_lower
  check_order-freeze email by reason now d st st' pre post cs req at lower same m₁ m₂ selected h k
        db db' free =
      let key = E.to_lower email in
      let l = frozen_limits_of key by reason now st in
      let put = put_limits E key l st in
      let row = row_of E key l in
      let loaded = (load_limits E st').1 in
      let (fine, found) =
        load_limits-persist_limits E key l _ now d put st' pre post lower m₁ m₂ refl selected h k db
          db' in
      let stored : st'.db ≡ some (E.upsert d row now).0 = db' ∙ persisted_db E key l now put d db in
      let rs = pre ++ scanned row ∷ post in
      let still : loaded.global_frozen ≡ false =
        ap (λ (p : Option LoadError × State E). p.1.global_frozen)
          (load_limits_lem E st' (E.upsert d row now).0 rs stored selected)
        ∙ global_frozen-load_rows rs none st'
        ∙ free in
      let frozen : is_frozen E req.email loaded ≡ true =
        is_frozen-entry req.email _ loaded (ap (λ j. lookup j loaded.limits) same ∙ found) refl in
      let g : Guard E = record { checks = kill_switch_check E ∷ cs; state = loaded } in
      let (r, e, no_, why) = (check_order-kill_switch E req at g cs still refl).0 frozen in
      (fine, frozen, r, e, no_, why)
