-- ===== src/Middleware.antt =====
-- middleware.go: the wrapper of a tool call, and IsOrderTool of guard.go. The next handler, the
-- translations of the caller's locale and the email of the context are parameters.
use Prim.Native.String.{◌++◌ as append}
use kite_mcp_riskguard.Prelude.{
  ℕ, Bool, true, false, not, ◌&&◌, ◌||◌, Option, none, some, List, [], ◌∷◌, String, ◌==◌,
  if◌then◌else◌,
}
use kite_mcp_riskguard.Prelude.Int.{ℤ, pos}
use kite_mcp_riskguard.Prelude.Dict.{Dict, lookup}
use kite_mcp_riskguard.Env.{Env}
use kite_mcp_riskguard.Model.{CheckResult, OrderCheckRequest, State, Reading}
use kite_mcp_riskguard.Chain.{Guard}
use kite_mcp_riskguard.CheckOrder.{Outcome, returned, hangs, Readings, check_order, record_order}
pub mod Gate

-- The keys of `orderTools`.
abbrev pub order_tools : List String
order_tools =
    "place_order" ∷ "modify_order" ∷ "close_position" ∷ "close_all_positions" ∷ "place_gtt_order"
    ∷ "modify_gtt_order" ∷ "place_mf_order" ∷ "place_mf_sip" ∷ []

abbrev contains : String → List String → Bool
contains s [] = false
contains s (t ∷ ts) = t == s || contains s ts

unfoldable pub is_order_tool : String → Bool
is_order_tool name = contains name order_tools

-- A value of Go's `any`, as far as the four conversions tell them apart.
pub data Value (Float : Type 0) : Type 0 where
  text : String → Value Float
  float : Float → Value Float
  int : ℤ → Value Float
  bool : Bool → Value Float
  other : Value Float

-- How a call of the wrapped handler ends: with a tool error, with what the next handler returned, or
-- not at all, in CheckOrder; or with a panic of RecordOrder.
pub data Reply (Response : Type 0) : Type 0 where
  blocked : String → Reply Response
  forwarded : Option Response → Option String → Reply Response
  never : Reply Response
  panics : Reply Response

module _ (E : Env) where
  pub record ToolCall : Type 0 where
    pub name : String
    pub arguments : Dict (Value E.Float)

  abbrev pub safe_string : Option (Value E.Float) → String
  safe_string (some (text s)) = s
  safe_string _ = ""

  -- `int(n)` of a float64 truncates.
  abbrev pub safe_int : Option (Value E.Float) → ℤ
  safe_int (some (float x)) = E.truncate x
  safe_int (some (int n)) = n
  safe_int _ = pos 0

  abbrev pub safe_float : Option (Value E.Float) → E.Float
  safe_float (some (float x)) = x
  safe_float _ = E.literal 0 0

  abbrev pub safe_bool : Option (Value E.Float) → Bool
  safe_bool (some (bool b)) = b
  safe_bool _ = false

  -- The request that the arguments make, with the trigger price where the price is zero.
  unfoldable pub request_of : String → ToolCall → OrderCheckRequest E
  request_of email call =
      let arg : String → Option (Value E.Float) = λ k. lookup k call.arguments in
      let price = E.new_inr (safe_float (arg "price")) in
      record {
        email = email;
        tool_name = call.name;
        exchange = safe_string (arg "exchange");
        tradingsymbol = safe_string (arg "tradingsymbol");
        transaction_type = safe_string (arg "transaction_type");
        quantity = safe_int (arg "quantity");
        price = if E.is_zero price then E.new_inr (safe_float (arg "trigger_price")) else price;
        order_type = safe_string (arg "order_type");
        confirmed = safe_bool (arg "confirm");
        client_order_id = safe_string (arg "client_order_id");
        variety = safe_string (arg "variety");
      }

  -- The handler that is wrapped: its response and its error. It may use the guard too.
  abbrev pub Handler : Type 0 → Type 0
  Handler Response = ToolCall → Guard E → (Option Response × Option String) × Guard E

  module _ (translate : String → String) where
    -- `translate` is i18n.T at the caller's locale; it gives back a key that it does not know.
    unfoldable pub rejection_message : CheckResult → String
    rejection_message r =
        let key = append "riskguard.reason." r.reason in
        let translated = translate key in
        if translated == key
        then r.message
        else if not (r.message == "") && not (r.message == translated)
        then append translated (append " (" (append r.message ")"))
        else translated

    module _ {Response : Type 0} (is_error : Response → Bool) where
      -- `err == nil && response != nil && !response.IsError`
      unfoldable pub succeeded : Option Response → Option String → Bool
      succeeded (some r) none = not (is_error r)
      succeeded _ _ = false

      -- After the next handler: a successful order is recorded.
      unfoldable pub after_next :
          String
          → OrderCheckRequest E
          → Reading
          → (Option Response × Option String) × Guard E
          → Reply Response × Guard E
      after_next email req now ((response, err), g) =
          if succeeded response err
          then (elim (record_order E email (some req) now g.state) [
            | none ↦ (panics, g)
            | some st ↦ (forwarded response err, record g { state = st })
          ])
          else (forwarded response err, g)

      abbrev pub forward : (Option Response × Option String) × Guard E → Reply Response × Guard E
      forward ((response, err), g) = (forwarded response err, g)

      -- What the outcome of CheckOrder leads to. The guard is the one that CheckOrder left.
      unfoldable pub after_check :
          Handler Response
          → String
          → ToolCall
          → OrderCheckRequest E
          → Reading
          → Outcome × Guard E
          → Reply Response × Guard E
      after_check next email call req now (hangs, g) = (never, g)
      after_check next email call req now (returned r, g) =
          if not r.allowed
          then (
            blocked
                (append "ORDER BLOCKED [" (append r.reason (append "]: " (rejection_message r)))),
            g,
          )
          else after_next email req now (next call g)

      unfoldable pub middleware :
          Handler Response
          → String
          → ToolCall
          → Readings
          → Reading
          → Guard E
          → Reply Response × Guard E
      middleware next email call at now g =
          if not (is_order_tool call.name)
          then forward (next call g)
          else if email == ""
          then forward (next call g)
          else (let req = request_of email call in
              after_check next email call req now (check_order E g req at))
