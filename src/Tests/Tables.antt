-- ===== src/Tests/Tables.antt =====
-- The theorem on InitTable at a database that is its table's columns, if there is a table.
use kite_mcp_riskguard.Prelude.{
  ◌≡◌, refl, ap, Bool, true, false, ◌||◌, Option, none, some, List, [], ◌∷◌, String, ◌==◌, eq_iff,
  All, ◌&◌, if◌then◌else◌, Bool-cases, inl, inr,
}
use kite_mcp_riskguard.Env.{Env, rows}
use kite_mcp_riskguard.Model.{State}
use kite_mcp_riskguard.Builtin.{new_state}
use kite_mcp_riskguard.Limits.Setup.{create_table_if_not_exists, add_column, ExecDdl, init_table}
use kite_mcp_riskguard.Limits.Migration.{
  Sqlite, listed, first_columns, inserted_columns, init_table-has,
}
use kite_mcp_riskguard.Tests.Sample.{sample}

abbrev schemas : Env
schemas = record sample {
  Db = Option (List String);
  upsert = λ d r now. (d, none);
  select_all = λ d. rows [] none;
}

abbrev contains : String → List String → Bool
contains c [] = false
contains c (k ∷ ks) = k == c || contains c ks

abbrev names : List (String × String) → List String
names [] = []
names ((k, kind) ∷ ks) = k ∷ names ks

abbrev table : Option (List String) → Bool
table none = false
table (some ks) = true

abbrev has : String → Option (List String) → Bool
has c none = false
has c (some ks) = contains c ks

abbrev exec : ExecDdl schemas
exec none (create_table_if_not_exists t ks) = (some (names ks), none)
exec (some cs) (create_table_if_not_exists t ks) = (some cs, none)
exec none (add_column t k kind) = (none, some "no such table")
exec (some cs) (add_column t k kind) =
    if contains k cs then (some cs, some "duplicate column name") else (some (k ∷ cs), none)

contains-names : (c : String) (ks : List (String × String)) → contains c (names ks) ≡ listed c ks
contains-names c [] = refl
contains-names c ((k, kind) ∷ ks) = ap (λ b. k == c || b) (contains-names c ks)

contains_again :
    (k c : String) (cs : List String)
    → contains k cs ≡ true
    → contains c cs ≡ (k == c || contains c cs)
contains_again k c cs h = elim (Bool-cases (k == c)) [
  | inl same ↦ let e = (eq_iff k c).0 same in rw (same, ← e) h
  | inr other ↦ rw other refl
]

exec-creates :
    (d : Option (List String)) (ks : List (String × String))
    → let (d', err) = exec d (create_table_if_not_exists "risk_limits" ks) in
      (err ≡ none)
      × (table d' ≡ true)
      × ((c : String) → has c d' ≡ (if table d then has c d else listed c ks))
exec-creates none ks = (refl, refl, λ c. contains-names c ks)
exec-creates (some cs) ks = (refl, refl, λ c. refl)

exec-adds :
    (d : Option (List String)) (k kind : String)
    → table d ≡ true
    → let (d', err) = exec d (add_column "risk_limits" k kind) in
      (table d' ≡ true) × ((c : String) → has c d' ≡ (k == c || has c d))
exec-adds none k kind there = cc
exec-adds (some cs) k kind there = elim (Bool-cases (contains k cs)) [
  | inl again ↦ rw again (refl, λ c. contains_again k c cs again)
  | inr new ↦ rw new (refl, λ c. refl)
]

exec-Sqlite : Sqlite schemas exec table has
exec-Sqlite = record { creates = exec-creates; adds = exec-adds }

-- A table of the first version.
abbrev old : State schemas
old = record (new_state schemas 0) { db = some (some first_columns) }

init_table-has_example :
    (d' : schemas.Db) × (init_table schemas exec old ≡ (none, record old { db = some d' }))
    × All (λ c. has c d' ≡ true) inserted_columns
init_table-has_example =
    init_table-has schemas exec table has exec-Sqlite old (some first_columns) refl
      (λ t. refl & refl & refl & refl & refl & refl & refl & refl & tt)
