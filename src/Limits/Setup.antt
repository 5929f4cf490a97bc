-- ===== src/Limits/Setup.antt =====
-- limits.go: InitTable, and the setters of hooks. The statements of InitTable are values, a column with
-- its type and default; the database that runs them is a parameter. A setter with a nil argument unsets.
use kite_mcp_riskguard.Prelude.{Bool, Option, none, some, List, [], ◌∷◌, String}
use kite_mcp_riskguard.Env.{Env}
use kite_mcp_riskguard.Model.{
  State, FreezeQuantityLookup, LtpLookup, CircuitLookup, MarginLookup, BaselineProvider,
}

pub data Ddl : Type 0 where
  create_table_if_not_exists : (table : String) → (columns : List (String × String)) → Ddl
  add_column : (table column kind : String) → Ddl

abbrev pub risk_limits_columns : List (String × String)
risk_limits_columns =
    ("email", "TEXT PRIMARY KEY")
    ∷ ("max_single_order_inr", "REAL NOT NULL DEFAULT 50000")
    ∷ ("max_orders_per_day", "INTEGER NOT NULL DEFAULT 20")
    ∷ ("max_orders_per_minute", "INTEGER NOT NULL DEFAULT 10")
    ∷ ("duplicate_window_secs", "INTEGER NOT NULL DEFAULT 30")
    ∷ ("max_daily_value_inr", "REAL NOT NULL DEFAULT 200000")
    ∷ ("require_confirm_all_orders", "INTEGER NOT NULL DEFAULT 1")
    ∷ ("trading_frozen", "INTEGER NOT NULL DEFAULT 0")
    ∷ ("frozen_at", "TEXT DEFAULT ''")
    ∷ ("frozen_by", "TEXT DEFAULT ''")
    ∷ ("frozen_reason", "TEXT DEFAULT ''")
    ∷ ("updated_at", "TEXT NOT NULL")
    ∷ []

abbrev pub migrations : List Ddl
migrations =
    add_column "risk_limits" "max_orders_per_minute" "INTEGER NOT NULL DEFAULT 10"
    ∷ add_column "risk_limits" "duplicate_window_secs" "INTEGER NOT NULL DEFAULT 30"
    ∷ add_column "risk_limits" "max_daily_value_inr" "REAL NOT NULL DEFAULT 200000"
    ∷ add_column "risk_limits" "auto_freeze_on_limit_hit" "INTEGER NOT NULL DEFAULT 1"
    ∷ add_column "risk_limits" "require_confirm_all_orders" "INTEGER NOT NULL DEFAULT 1"
    ∷ []

module _ (E : Env) where
  -- `db.ExecDDL`, with the error that it may return.
  abbrev pub ExecDdl : Type 0
  ExecDdl = E.Db → Ddl → E.Db × Option String

  -- The loop over the migrations: the errors are ignored.
  unfoldable pub migrate : ExecDdl → List Ddl → E.Db → E.Db
  migrate exec [] d = d
  migrate exec (s ∷ ss) d = migrate exec ss (exec d s).0

  unfoldable pub init_table : ExecDdl → State E → Option String × State E
  init_table exec st = elim st.db [
    | none ↦ (none, st)
    | some d ↦
        let (d₁, err) = exec d (create_table_if_not_exists "risk_limits" risk_limits_columns) in
        (elim err [
          | some e ↦ (some e, record st { db = some d₁ })
          | none ↦ (none, record st { db = some (migrate exec migrations d₁) })
        ])
  ]

  open E use {Db}

  abbrev pub set_db : Option Db → State E → State E
  set_db db st = record st { db = db }

  abbrev pub set_freeze_quantity_lookup : Option (FreezeQuantityLookup E) → State E → State E
  set_freeze_quantity_lookup lookup st = record st { freeze_lookup = lookup }

  abbrev pub set_ltp_lookup : Option (LtpLookup E) → State E → State E
  set_ltp_lookup lookup st = record st { ltp_lookup = lookup }

  abbrev pub set_circuit_lookup : Option (CircuitLookup E) → State E → State E
  set_circuit_lookup lookup st = record st { circuit_lookup = lookup }

  abbrev pub set_margin_lookup : Option (MarginLookup E) → State E → State E
  set_margin_lookup lookup st = record st { margin_lookup = lookup }

  abbrev pub set_margin_check_enabled : Bool → State E → State E
  set_margin_check_enabled enabled st = record st { margin_check_enabled = enabled }

  abbrev pub set_baseline_provider : Option (BaselineProvider E) → State E → State E
  set_baseline_provider p st = record st { baseline = p }

  -- Whether there is a notifier, and a dispatcher; what they do is in the list of what was sent.
  abbrev pub set_auto_freeze_notifier : Bool → State E → State E
  set_auto_freeze_notifier fn st = record st { has_notifier = fn }

  abbrev pub set_event_dispatcher : Bool → State E → State E
  set_event_dispatcher d st = record st { has_dispatcher = d }
