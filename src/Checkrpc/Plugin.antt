-- ===== src/Checkrpc/Plugin.antt =====
-- checkrpc/types.go: what go-plugin is configured with, on the host's side and on the plugin's.
use kite_mcp_riskguard.Prelude.{Option, none, List, [], ◌∷◌, String}
use kite_mcp_riskguard.Prelude.Int.{ℤ, pos}

-- go-plugin's HandshakeConfig.
pub record HandshakeConfig : Type 0 where
  pub protocol_version : ℤ
  pub magic_cookie_key : String
  pub magic_cookie_value : String

abbrev pub handshake : HandshakeConfig
handshake = record {
  protocol_version = pos 1;
  magic_cookie_key = "KITE_RISKGUARD_CHECK_PLUGIN";
  magic_cookie_value = "riskguard-check-v1";
}

-- The adapter of an implementation, which is nil on the host's side.
pub record CheckPlugin (Impl : Type 0) : Type 0 where
  pub impl : Option Impl

pub record CheckRpcServer (Impl : Type 0) : Type 0 where
  pub impl : Option Impl

pub record CheckRpcClient (Conn : Type 0) : Type 0 where
  pub client : Conn

-- Neither method fails.
abbrev pub server_of : {Impl : Type 0} → CheckPlugin Impl → CheckRpcServer Impl
server_of p = record { impl = p.impl }

abbrev pub client_of : {Impl Conn : Type 0} → CheckPlugin Impl → Conn → CheckRpcClient Conn
client_of p c = record { client = c }

abbrev pub dispense_key : String
dispense_key = "check"

abbrev pub plugin_map : {Impl : Type 0} → List (String × CheckPlugin Impl)
plugin_map = ("check", record { impl = none }) ∷ []
