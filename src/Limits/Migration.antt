-- ===== src/Limits/Migration.antt =====
-- What InitTable leaves in the database.
use kite_mcp_riskguard.Prelude.{
  ◌≡◌, refl, ap, ◌∙◌, Bool, true, false, ◌||◌, none, some, List, [], ◌∷◌, String, ◌==◌, All, ◌&◌,
  arith, if◌then◌else◌,
}
use kite_mcp_riskguard.Env.{Env}
use kite_mcp_riskguard.Model.{State}
use kite_mcp_riskguard.Limits.Setup.{
  Ddl, create_table_if_not_exists, add_column, risk_limits_columns, migrations, ExecDdl, migrate,
  init_table,
}

-- The columns of the table's first version, which no migration adds.
abbrev pub first_columns : List String
first_columns =
    "email" ∷ "max_single_order_inr" ∷ "max_orders_per_day" ∷ "trading_frozen" ∷ "frozen_at"
    ∷ "frozen_by" ∷ "frozen_reason" ∷ "updated_at" ∷ []

-- The columns that the INSERT of persistLimits names.
abbrev pub inserted_columns : List String
inserted_columns =
    "email" ∷ "max_single_order_inr" ∷ "max_orders_per_day" ∷ "max_orders_per_minute"
    ∷ "duplicate_window_secs" ∷ "max_daily_value_inr" ∷ "auto_freeze_on_limit_hit"
    ∷ "require_confirm_all_orders" ∷ "trading_frozen" ∷ "frozen_at" ∷ "frozen_by" ∷ "frozen_reason"
    ∷ "updated_at" ∷ []

abbrev pub listed : String → List (String × String) → Bool
listed c [] = false
listed c ((k, kind) ∷ ks) = k == c || listed c ks

abbrev added : String → List Ddl → Bool
added c [] = false
added c (add_column t k kind ∷ ss) = k == c || added c ss
added c (create_table_if_not_exists t ks ∷ ss) = added c ss

abbrev IsMigration : Ddl → Type 0
IsMigration (add_column t k kind) = t ≡ "risk_limits"
IsMigration (create_table_if_not_exists t ks) = ⊥

module _ (E : Env) (exec : ExecDdl E) where
  -- SQLite on the table risk_limits, where no other error occurs: CREATE TABLE IF NOT EXISTS makes a
  -- table of the columns or leaves the one that is there; ALTER TABLE ADD COLUMN adds the column, and
  -- fails if the table has it.
  pub record Sqlite (table : E.Db → Bool) (has : String → E.Db → Bool) : Type 0 where
    pub creates :
        (d : E.Db) (ks : List (String × String))
        → let (d', err) = exec d (create_table_if_not_exists "risk_limits" ks) in
          (err ≡ none)
          × (table d' ≡ true)
          × ((c : String) → has c d' ≡ (if table d then has c d else listed c ks))
    pub adds :
        (d : E.Db) (k kind : String)
        → table d ≡ true
        → let (d', err) = exec d (add_column "risk_limits" k kind) in
          (table d' ≡ true) × ((c : String) → has c d' ≡ (k == c || has c d))

  module _ (table : E.Db → Bool) (has : String → E.Db → Bool) (sqlite : Sqlite table has) where
    if_lem : (b x y : Bool) → (b ≡ true → x ≡ true) → y ≡ true → (if b then x else y) ≡ true
    if_lem true x y h e = h refl
    if_lem false x y h e = e

    or_assoc : (a b c : Bool) → (b || (a || c)) ≡ ((a || b) || c)
    or_assoc true true c = refl
    or_assoc true false c = refl
    or_assoc false true c = refl
    or_assoc false false c = refl

    has-migrate :
        (ss : List Ddl) (d : E.Db) (c : String)
        → All IsMigration ss
        → table d ≡ true
        → has c (migrate E exec ss d) ≡ (added c ss || has c d)
    unfolding migrate
    has-migrate [] d c h there = refl
    has-migrate (add_column t k kind ∷ ss) d c (same, h) there =
        let (there', now_) = sqlite.adds d k kind there in
        rw same (
          has-migrate ss (exec d (add_column "risk_limits" k kind)).0 c h there'
          ∙ ap (λ b. added c ss || b) (now_ c)
          ∙ or_assoc (k == c) (added c ss) (has c d))
    has-migrate (create_table_if_not_exists t ks ∷ ss) d c (no_, h) there = absurd no_

    init_table_lem :
        (st : State E) (d d₁ : E.Db)
        → st.db ≡ some d
        → (exec d (create_table_if_not_exists "risk_limits" risk_limits_columns)).1 ≡ none
        → (exec d (create_table_if_not_exists "risk_limits" risk_limits_columns)).0 ≡ d₁
        → init_table E exec st ≡ (none, record st { db = some (migrate E exec migrations d₁) })
    unfolding init_table
    init_table_lem st d d₁ db fine made = ground arith

    -- InitTable brings any earlier table up to date. On a database without the table, or with one that
    -- has at least the columns of its first version, it returns no error, and then the table has every
    -- column that persistLimits inserts, also auto_freeze_on_limit_hit, which only a migration makes.
    pub init_table-has :
        (st : State E) (d : E.Db)
        → st.db ≡ some d
        → (table d ≡ true → All (λ c. has c d ≡ true) first_columns)
        → (d' : E.Db) × (init_table E exec st ≡ (none, record st { db = some d' }))
          × All (λ c. has c d' ≡ true) inserted_columns
    init_table-has st d db first =
        let d₁ = (exec d (create_table_if_not_exists "risk_limits" risk_limits_columns)).0 in
        let (fine, there, created) = sqlite.creates d risk_limits_columns in
        let d' = migrate E exec migrations d₁ in
        let now_ : (c : String) → has c d' ≡ (added c migrations || has c d₁) =
          λ c. has-migrate migrations d₁ c (refl, (refl, (refl, (refl, (refl, tt))))) there in
        let base : (c : String)
            → listed c risk_limits_columns ≡ true
            → (table d ≡ true → has c d ≡ true)
            → has c d₁ ≡ true =
          λ c new old.
            created c ∙ if_lem (table d) (has c d) (listed c risk_limits_columns) old new in
        let old : (c : String) → added c migrations ≡ false → has c d₁ ≡ true → has c d' ≡ true =
          λ c out h. now_ c ∙ ap (λ b. b || has c d₁) out ∙ h in
        (
          d',
          init_table_lem st d d₁ db fine refl,
          old "email" refl (base "email" refl (λ t. (first t).0))
              & old "max_single_order_inr" refl
                  (base "max_single_order_inr" refl (λ t. (first t).1.0))
              & old "max_orders_per_day" refl
                  (base "max_orders_per_day" refl (λ t. (first t).1.1.0))
              & now_ "max_orders_per_minute"
              & now_ "duplicate_window_secs"
              & now_ "max_daily_value_inr"
              & now_ "auto_freeze_on_limit_hit"
              & now_ "require_confirm_all_orders"
              & old "trading_frozen" refl (base "trading_frozen" refl (λ t. (first t).1.1.1.0))
              & old "frozen_at" refl (base "frozen_at" refl (λ t. (first t).1.1.1.1.0))
              & old "frozen_by" refl (base "frozen_by" refl (λ t. (first t).1.1.1.1.1.0))
              & old "frozen_reason" refl (base "frozen_reason" refl (λ t. (first t).1.1.1.1.1.1.0))
              & old "updated_at" refl (base "updated_at" refl (λ t. (first t).1.1.1.1.1.1.1.0))
              & tt,
        )
