-- ===== src/Checkrpc.antt =====
-- checkrpc/types.go: the wire types, the server adapter of a plugin and the host's proxy. net/rpc is a
-- parameter: `Call` at the reply types that the proxy uses. A plugin keeps a state of type S.
use kite_mcp_riskguard.Prelude.{Bool, false, Option, none, some, String}
use kite_mcp_riskguard.Prelude.Int.{ℤ, pos}
pub mod Plugin
pub mod Proxy

pub record OrderCheckRequestWire (Float : Type 0) : Type 0 where
  pub email : String
  pub tool_name : String
  pub exchange : String
  pub tradingsymbol : String
  pub transaction_type : String
  pub quantity : ℤ
  pub price : Float
  pub order_type : String
  pub confirmed : Bool
  pub client_order_id : String

pub record CheckResultWire : Type 0 where
  pub allowed : Bool
  pub reason : String
  pub message : String

-- `var resp CheckResultWire`
abbrev pub zero_result : CheckResultWire
zero_result = record { allowed = false; reason = ""; message = "" }

-- What a method of the plugin does: it returns its value with no error, it returns an error, or it
-- panics, and its process dies.
pub data Ran {ℓ} (A : Type ℓ) : Type ℓ where
  answers : A → Ran A
  fails : String → Ran A
  crashes : Ran A

-- The interface that a plugin implements.
pub record CheckRpc (Float S : Type 0) : Type 0 where
  pub name : S → Ran String × S
  pub order : S → Ran ℤ × S
  pub record_on_rejection : S → Ran Bool × S
  pub evaluate : OrderCheckRequestWire Float → S → Ran CheckResultWire × S

-- How a handler of the server ends: with the reply's value and the error that it returns, or not.
pub data Handled {ℓ} (A : Type ℓ) : Type ℓ where
  returns : (reply : A) → (err : Option String) → Handled A
  dies : Handled A

-- The body of each handler: on an error the reply stays as it was.
abbrev pub handle {ℓ} : {A : Type ℓ} → A → Ran A → Handled A
handle reply (answers a) = returns a none
handle reply (fails err) = returns reply (some err)
handle reply crashes = dies

module _ {Float S : Type 0} (impl : CheckRpc Float S) where
  unfoldable pub server_name : String → S → Handled String × S
  server_name reply s = let (r, s') = impl.name s in (handle reply r, s')

  unfoldable pub server_order : ℤ → S → Handled ℤ × S
  server_order reply s = let (r, s') = impl.order s in (handle reply r, s')

  unfoldable pub server_record_on_rejection : Bool → S → Handled Bool × S
  server_record_on_rejection reply s =
      let (r, s') = impl.record_on_rejection s in (handle reply r, s')

  unfoldable pub server_evaluate :
      OrderCheckRequestWire Float → CheckResultWire → S → Handled CheckResultWire × S
  server_evaluate req reply s = let (r, s') = impl.evaluate req s in (handle reply r, s')

-- `rpc.Client.Call`, with the method's name, the argument where it is not empty, and the reply's
-- variable as it stands; Conn is the connection with whatever is at its other end.
pub record RpcClient (Float Conn : Type 0) : Type 0 where
  pub call_string : String → String → Conn → (String × Option String) × Conn
  pub call_int : String → ℤ → Conn → (ℤ × Option String) × Conn
  pub call_bool : String → Bool → Conn → (Bool × Option String) × Conn
  pub call_evaluate :
      String
      → OrderCheckRequestWire Float
      → CheckResultWire
      → Conn
      → (CheckResultWire × Option String) × Conn

module _ {Float Conn : Type 0} (rpc : RpcClient Float Conn) where
  unfoldable pub client_name : Conn → (String × Option String) × Conn
  client_name c = rpc.call_string "Plugin.Name" "" c

  unfoldable pub client_order : Conn → (ℤ × Option String) × Conn
  client_order c = rpc.call_int "Plugin.Order" (pos 0) c

  unfoldable pub client_record_on_rejection : Conn → (Bool × Option String) × Conn
  client_record_on_rejection c = rpc.call_bool "Plugin.RecordOnRejection" false c

  unfoldable pub client_evaluate :
      OrderCheckRequestWire Float → Conn → (CheckResultWire × Option String) × Conn
  client_evaluate req c = rpc.call_evaluate "Plugin.Evaluate" req zero_result c
