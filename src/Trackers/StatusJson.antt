-- ===== src/Trackers/StatusJson.antt =====
-- trackers.go: MarshalJSON and UnmarshalJSON of UserStatus. encoding/json is a parameter.
use kite_mcp_riskguard.Prelude.{◌≡◌, ap, ◌∙◌, Bool, Option, none, some, String}
use kite_mcp_riskguard.Prelude.Int.{ℤ, pos}
use kite_mcp_riskguard.Env.{Env, Time}
use kite_mcp_riskguard.Trackers.{UserStatus}

-- The members of the object: those of the alias, and the value as a number, which hides the Money of
-- the alias.
pub record StatusMembers (Float : Type 0) : Type 0 where
  pub daily_order_count : ℤ
  pub is_frozen : Bool
  pub frozen_by : String
  pub frozen_reason : String
  pub frozen_at : Time
  pub daily_placed_value : Float

-- json.Marshal, and json.Unmarshal into members that have values; an error may leave some of them set.
pub record Json (Float : Type 0) : Type 0 where
  pub marshal : StatusMembers Float → String × Option String
  pub unmarshal : String → StatusMembers Float → StatusMembers Float × Option String

module _ (E : Env) (json : Json E.Float) where
  abbrev pub members : UserStatus E → E.Float → StatusMembers E.Float
  members s value = record {
    daily_order_count = s.daily_order_count;
    is_frozen = s.is_frozen;
    frozen_by = s.frozen_by;
    frozen_reason = s.frozen_reason;
    frozen_at = s.frozen_at;
    daily_placed_value = value;
  }

  -- `alias: (*alias)(s)` shares all fields with `s` but the value.
  abbrev pub shared_fields : UserStatus E → StatusMembers E.Float → UserStatus E
  shared_fields s m = record s {
    daily_order_count = m.daily_order_count;
    is_frozen = m.is_frozen;
    frozen_by = m.frozen_by;
    frozen_reason = m.frozen_reason;
    frozen_at = m.frozen_at;
  }

  unfoldable pub marshal_json : UserStatus E → String × Option String
  marshal_json s = json.marshal (members s (E.to_float s.daily_placed_value))

  abbrev read_into :
      UserStatus E → StatusMembers E.Float × Option String → Option String × UserStatus E
  read_into s (m, some err) = (some err, shared_fields s m)
  read_into s (m, none) =
      (none, record (shared_fields s m) { daily_placed_value = E.new_inr m.daily_placed_value })

  unfoldable pub unmarshal_json : String → UserStatus E → Option String × UserStatus E
  unmarshal_json data_ s = read_into s (json.unmarshal data_ (members s (E.of_int (pos 0))))

  -- A status survives the wire: what UnmarshalJSON makes of the text of MarshalJSON is the status,
  -- whatever it is read into, if encoding/json reads its own texts back and the Money comes back from
  -- its float, as an amount in rupees does.
  pub unmarshal_json-marshal_json :
      (s s₀ : UserStatus E) (text : String)
      → ((m m₀ : StatusMembers E.Float) (t : String)
          → json.marshal m ≡ (t, none)
          → json.unmarshal t m₀ ≡ (m, none))
      → E.new_inr (E.to_float s.daily_placed_value) ≡ s.daily_placed_value
      → marshal_json s ≡ (text, none)
      → unmarshal_json text s₀ ≡ (none, s)
  unfolding marshal_json unmarshal_json
  unmarshal_json-marshal_json s s₀ text reads comes_back e =
      ap (read_into s₀) (reads _ (members s₀ (E.of_int (pos 0))) text e)
      ∙ ap (λ (v : E.Money). (none, record s { daily_placed_value = v })) comes_back
