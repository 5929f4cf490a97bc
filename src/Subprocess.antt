-- ===== src/Subprocess.antt =====
-- subprocess_check.go: a check that runs in a child process. hashicorp/go-plugin, the file system and
-- the running processes are the parameter Host; each SubprocessCheck lives in a cell of the heap.
-- One call at a time; Subprocess/Concurrent.antt has the steps of concurrent ones.
use Prim.Native.String.{◌++◌ as append}
use kite_mcp_riskguard.Prelude.{
  Bool, true, false, Option, none, some, List, [], ◌∷◌, String, ◌==◌, if◌then◌else◌,
}
use kite_mcp_riskguard.Prelude.Int.{ℤ}
use kite_mcp_riskguard.Env.{Env, text}
use kite_mcp_riskguard.Model.{CheckResult, reject, OrderCheckRequest, State}
use kite_mcp_riskguard.Chain.{Check, Guard, result, register_check}
use kite_mcp_riskguard.Checkrpc.{OrderCheckRequestWire, CheckResultWire, CheckRpc}
use kite_mcp_riskguard.Checkrpc.Plugin.{
  HandshakeConfig, handshake, CheckPlugin, plugin_map, dispense_key,
}
pub mod FailClosed
pub mod Registration
pub mod Vetoes
pub mod Discovered
pub mod Concurrent
pub mod Example

pub record SubprocessCheckConfig : Type 0 where
  pub name : String
  pub order : ℤ
  pub record_on_rejection : Bool
  pub executable : String
  pub args : List String

-- A value or an error.
pub data Result {ℓ} (A : Type ℓ) : Type ℓ where
  ok : A → Result A
  error : String → Result A

pub data Protocol : Type 0 where
  net_rpc grpc : Protocol

-- go-plugin's ClientConfig, without its logger.
pub record ClientConfig (Float : Type 0) : Type 0 where
  pub handshake_config : HandshakeConfig
  pub plugins : List (String × CheckPlugin (CheckRpc Float Unit))
  pub path : String
  pub args : List String
  pub allowed_protocols : List Protocol

abbrev pub client_config : {Float : Type 0} → SubprocessCheckConfig → ClientConfig Float
client_config cfg = record {
  handshake_config = handshake;
  plugins = plugin_map;
  path = cfg.executable;
  args = cfg.args;
  allowed_protocols = net_rpc ∷ [];
}

-- What the package uses of go-plugin, of the files and of the processes. `S` is their state.
pub record Host (Float : Type 0) : Type 1 where
  pub S : Type 0
  pub Client : Type 0
  pub Conn : Type 0
  pub Raw : Type 0
  pub Proxy : Type 0
  pub new_client : ClientConfig Float → S → Client × S
  -- `client.Client()`, which starts the process and shakes hands
  pub connect : Client → S → Result Conn × S
  pub dispense : Conn → String → S → Result Raw × S
  -- `raw.(checkrpc.CheckRPC)`, and the name of the type of `raw`
  pub as_check_rpc : Raw → Option Proxy
  pub type_name : Raw → String
  pub kill : Client → S → S
  pub evaluate : Proxy → OrderCheckRequestWire Float → S → (CheckResultWire × Option String) × S
  -- os.Open and io.Copy, down to the bytes in hex of their SHA-256
  pub open_file : String → S → Result String
  pub sha256_hex_of : String → S → Result String

module _ {Float : Type 0} (H : Host Float) where
  pub record SubprocessCheck : Type 0 where
    pub cfg : SubprocessCheckConfig
    pub client : Option H.Client
    pub proxy : Option H.Proxy
    pub closed : Bool

  abbrev pub new_subprocess_check : SubprocessCheckConfig → SubprocessCheck
  new_subprocess_check cfg = record { cfg = cfg; client = none; proxy = none; closed = false }

  unfoldable pub launch_locked : SubprocessCheck → H.S → Option String × (SubprocessCheck × H.S)
  launch_locked s h =
      let (client, h₁) = H.new_client (client_config s.cfg) h in
      let (connected, h₂) = H.connect client h₁ in
      elim connected [
        | error err ↦ (some (append "launch subprocess: " err), (s, H.kill client h₂))
        | ok rpc_client ↦
            let (dispensed, h₃) = H.dispense rpc_client dispense_key h₂ in
            (elim dispensed [
              | error err ↦ (some (append "dispense check proxy: " err), (s, H.kill client h₃))
              | ok raw ↦ (elim (H.as_check_rpc raw) [
                | none ↦ (
                  some (
                      append "dispensed proxy is not checkrpc.CheckRPC (got "
                        (append (H.type_name raw) ")")),
                  (s, H.kill client h₃),
                )
                | some proxy ↦ (none, (record s { client = some client; proxy = some proxy }, h₃))
              ])
            ])
      ]

  -- The answer of ensureProxy: a nil proxy with no error would be `ok none`.
  abbrev launched :
      Option String × (SubprocessCheck × H.S) → Result (Option H.Proxy) × (SubprocessCheck × H.S)
  launched (some err, sh) = (error err, sh)
  launched (none, (s, h)) = (ok s.proxy, (s, h))

  unfoldable pub ensure_proxy :
      SubprocessCheck → H.S → Result (Option H.Proxy) × (SubprocessCheck × H.S)
  ensure_proxy s h = elim s.proxy [
    | some p ↦ (ok (some p), (s, h))
    | none ↦ launched (launch_locked s h)
  ]

  unfoldable pub discard_client : SubprocessCheck → H.S → SubprocessCheck × H.S
  discard_client s h = elim s.client [
    | none ↦ (s, h)
    | some c ↦ (record s { client = none; proxy = none }, H.kill c h)
  ]

  unfoldable pub close : SubprocessCheck → H.S → SubprocessCheck × H.S
  close s h = discard_client (record s { closed = true }) h

module _ (E : Env) where
  -- The request without its variety, which the wire type does not have.
  abbrev pub wire_of : OrderCheckRequest E → OrderCheckRequestWire E.Float
  wire_of req = record {
    email = req.email;
    tool_name = req.tool_name;
    exchange = req.exchange;
    tradingsymbol = req.tradingsymbol;
    transaction_type = req.transaction_type;
    quantity = req.quantity;
    price = E.to_float req.price;
    order_type = req.order_type;
    confirmed = req.confirmed;
    client_order_id = req.client_order_id;
  }

  abbrev pub fail_closed : SubprocessCheckConfig → String → String → CheckResult
  fail_closed cfg reason detail =
      reject reason
        (E.sprintf "subprocess plugin %q unavailable: %s" (text cfg.name ∷ text detail ∷ []))

  abbrev pub result_of : CheckResultWire → CheckResult
  result_of r = record { allowed = r.allowed; reason = r.reason; message = r.message }

module _ (E : Env) (H : Host E.Float) where
  -- After the RPC call.
  abbrev answered :
      SubprocessCheck H
      → (CheckResultWire × Option String) × H.S
      → CheckResult × (SubprocessCheck H × H.S)
  answered s ((resp, none), h) = (result_of E resp, (s, h))
  answered s ((resp, some err), h) =
      (fail_closed E s.cfg "subprocess_rpc_error" err, discard_client H s h)

  -- After ensureProxy. A call of a nil proxy would panic; no run of ensureProxy returns one.
  abbrev with_proxy :
      OrderCheckRequest E
      → Result (Option H.Proxy) × (SubprocessCheck H × H.S)
      → Option (CheckResult × (SubprocessCheck H × H.S))
  with_proxy req (error err, (s, h)) =
      some (fail_closed E s.cfg "subprocess_unavailable" err, (s, h))
  with_proxy req (ok none, (s, h)) = none
  with_proxy req (ok (some p), (s, h)) = some (answered s (H.evaluate p (wire_of E req) h))

  -- `none`: a nil dereference.
  unfoldable pub evaluate :
      OrderCheckRequest E
      → SubprocessCheck H
      → H.S
      → Option (CheckResult × (SubprocessCheck H × H.S))
  evaluate req s h =
      if s.closed
      then some (fail_closed E s.cfg "subprocess_closed" "plugin was shut down", (s, h))
      else with_proxy req (ensure_proxy H s h)
