-- ===== src/Limits/Restart.antt =====
-- What persistence carries over a restart.
use kite_mcp_riskguard.Prelude.{
  ◌≡◌, ◌≢◌, refl, sym, ap, ◌∙◌, false, Option, some, none, List, [], ◌∷◌, ◌++◌, String, arith, All,
}
use kite_mcp_riskguard.Prelude.Dict.{lookup, insert, lookup-insert_self, lookup-insert_ne}
use kite_mcp_riskguard.Env.{Env, Time, LimitsRow, Scan, scanned, rows}
use kite_mcp_riskguard.Model.{UserLimits, State}
use kite_mcp_riskguard.Limits.{
  LoadError, row_of, limits_of_row, load_rows, load_limits, persist_limits,
}

module _ (E : Env) where
  -- A row of another user, or a row that does not scan.
  abbrev pub IsOther : String → Scan E.Float → Type 0
  IsOther key (scanned r) = key ≢ E.to_lower r.email
  IsOther key _ = ⊥

  load_rows-others :
      (key : String) (rs : List (Scan E.Float)) (st : State E)
      → All (IsOther key) rs
      → (load_rows E rs none st).0 ≡ none
        × (lookup key (load_rows E rs none st).1.limits ≡ lookup key st.limits)
  unfolding load_rows
  load_rows-others key [] st h = (refl, refl)
  load_rows-others key (scanned r ∷ rs) st (other, h) =
      let st' : State E = record st {
        limits = insert (E.to_lower r.email) (limits_of_row E r) st.limits;
      } in
      let (fine, same) = load_rows-others key rs st' h in
      (
        fine,
        same
            ∙ lookup-insert_ne key (E.to_lower r.email) (limits_of_row E r) st.limits
                (λ e. other (sym e)),
      )
  load_rows-others key (Scan.scan_failed e ∷ rs) st (other, h) = absurd other

  load_rows-own :
      (key : String) (r : LimitsRow E.Float) (pre post : List (Scan E.Float)) (st : State E)
      → E.to_lower r.email ≡ key
      → All (IsOther key) pre
      → All (IsOther key) post
      → (load_rows E (pre ++ scanned r ∷ post) none st).0 ≡ none
        × (lookup key (load_rows E (pre ++ scanned r ∷ post) none st).1.limits
            ≡ some (limits_of_row E r))
  unfolding load_rows
  load_rows-own key r [] post st e h k =
      let st' : State E = record st {
        limits = insert (E.to_lower r.email) (limits_of_row E r) st.limits;
      } in
      let (fine, same) = load_rows-others key post st' k in
      (
        fine,
        same
            ∙ ap (λ j. lookup key (insert j (limits_of_row E r) st.limits)) e
            ∙ lookup-insert_self key (limits_of_row E r) st.limits,
      )
  load_rows-own key r (scanned q ∷ pre) post st e (other, h) k =
      load_rows-own key r pre post
        (record st { limits = insert (E.to_lower q.email) (limits_of_row E q) st.limits }) e h k
  load_rows-own key r (Scan.scan_failed x ∷ pre) post st e (other, h) k = absurd other

  -- An entry is written as a row and read back but for two fields: AllowOffHours, which no column
  -- holds, comes back false, and FrozenAt comes back as the text's reading of it.
  limits_of_row-row_of :
      (email : String) (l : UserLimits E) (at : Time)
      → E.new_inr (E.to_float l.max_single_order_inr) ≡ l.max_single_order_inr
      → E.new_inr (E.to_float l.max_daily_value_inr) ≡ l.max_daily_value_inr
      → (limits_of_row E (row_of E email l)).frozen_at ≡ at
      → limits_of_row E (row_of E email l) ≡ record l { allow_off_hours = false; frozen_at = at }
  unfolding limits_of_row row_of
  limits_of_row-row_of email l at h k e = ground arith

  pub persisted_db :
      (key : String) (l : UserLimits E) (now : Time) (st : State E) (d : E.Db)
      → st.db ≡ some d
      → (persist_limits E key l now st).db ≡ some (E.upsert d (row_of E key l) now).0
  unfolding persist_limits
  persisted_db key l now st d e = ground arith

  pub load_limits_lem :
      (st : State E) (d : E.Db) (rs : List (Scan E.Float))
      → st.db ≡ some d
      → E.select_all d ≡ rows rs none
      → load_limits E st ≡ load_rows E rs none st
  unfolding load_limits
  load_limits_lem st d rs e q = ground arith

  -- A user's limits survive a restart. If the database holds a row that is upserted and no other row
  -- of that user, Money comes back from its float, and `at` is the reading of the freeze's time, then
  -- a guard that is loaded from the database after the entry was persisted loads without an error and
  -- holds the entry again, the freeze and its author and reason included; but the opt-in to trade in
  -- the off hours is lost, whatever it was.
  pub load_limits-persist_limits :
      (key : String) (l : UserLimits E) (at now : Time) (d : E.Db) (st st' : State E)
      (pre post : List (Scan E.Float))
      → E.to_lower key ≡ key
      → E.new_inr (E.to_float l.max_single_order_inr) ≡ l.max_single_order_inr
      → E.new_inr (E.to_float l.max_daily_value_inr) ≡ l.max_daily_value_inr
      → (limits_of_row E (row_of E key l)).frozen_at ≡ at
      → E.select_all (E.upsert d (row_of E key l) now).0
        ≡ rows (pre ++ scanned (row_of E key l) ∷ post) none
      → All (IsOther key) pre
      → All (IsOther key) post
      → st.db ≡ some d
      → st'.db ≡ (persist_limits E key l now st).db
      → ((load_limits E st').0 ≡ none)
        × (lookup key (load_limits E st').1.limits
            ≡ some (record l { allow_off_hours = false; frozen_at = at }))
  unfolding row_of
  load_limits-persist_limits key l at now d st st' pre post lower m₁ m₂ f selected h k db db' =
      let r = row_of E key l in
      let stored : st'.db ≡ some (E.upsert d r now).0 = db' ∙ persisted_db key l now st d db in
      let loaded =
        load_limits_lem st' (E.upsert d r now).0 (pre ++ scanned r ∷ post) stored selected in
      let own = load_rows-own key r pre post st' lower h k in
      (
        ap (λ (p : Option LoadError × State E). p.0) loaded ∙ own.0,
        ap (λ (p : Option LoadError × State E). lookup key p.1.limits) loaded
            ∙ own.1
            ∙ ap some (limits_of_row-row_of key l at m₁ m₂ f),
      )
