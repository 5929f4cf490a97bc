-- ===== src/Checkrpc/Proxy.antt =====
-- The host's proxy against the plugin that is served.
use kite_mcp_riskguard.Prelude.{◌≡◌, false, Option, none, some, String}
use kite_mcp_riskguard.Prelude.Int.{pos}
use kite_mcp_riskguard.Checkrpc.{
  OrderCheckRequestWire, zero_result, Ran, answers, fails, crashes, CheckRpc, Handled, returns,
  dies, handle, server_name, server_order, server_record_on_rejection, server_evaluate, RpcClient,
  client_name, client_order, client_record_on_rejection, client_evaluate,
}

-- What a call gives for what the handler did, as net/rpc documents it: the reply is sent where the
-- handler returns no error, otherwise its error; a server that dies in the handler breaks the
-- connection, which is an error too. The caller's variable is written only by a reply.
abbrev pub Transports {ℓ} : {A : Type ℓ} → A → Handled A → A × Option String → Type ℓ
Transports reply (returns a none) got = got ≡ (a, none)
Transports reply (returns a (some err)) got = got ≡ (reply, some err)
Transports reply dies got = (err : String) × (got ≡ (reply, some err))

-- The value and the error of a plugin's method, as its caller in one process would see them; a panic
-- shows as some error.
abbrev pub Seen {ℓ} : {A : Type ℓ} → A → Ran A → A × Option String → Type ℓ
Seen initial (answers a) got = got ≡ (a, none)
Seen initial (fails err) got = got ≡ (initial, some err)
Seen initial crashes got = (err : String) × (got ≡ (initial, some err))

module _ {Float S Conn : Type 0} (impl : CheckRpc Float S) (rpc : RpcClient Float Conn)
    (plugin : Conn → S) where
  -- The connection leads to the server of the plugin: a call under a method's name runs its handler
  -- in the plugin's state, on a reply with the zero value.
  pub record Serves : Type 0 where
    pub serves_name :
        (c : Conn)
        → let (got, c') = rpc.call_string "Plugin.Name" "" c in
          let (h, s) = server_name impl "" (plugin c) in Transports "" h got × (plugin c' ≡ s)
    pub serves_order :
        (c : Conn)
        → let (got, c') = rpc.call_int "Plugin.Order" (pos 0) c in
          let (h, s) = server_order impl (pos 0) (plugin c) in
          Transports (pos 0) h got × (plugin c' ≡ s)
    pub serves_record_on_rejection :
        (c : Conn)
        → let (got, c') = rpc.call_bool "Plugin.RecordOnRejection" false c in
          let (h, s) = server_record_on_rejection impl false (plugin c) in
          Transports false h got × (plugin c' ≡ s)
    pub serves_evaluate :
        (req : OrderCheckRequestWire Float) (c : Conn)
        → let (got, c') = rpc.call_evaluate "Plugin.Evaluate" req zero_result c in
          let (h, s) = server_evaluate impl req zero_result (plugin c) in
          Transports zero_result h got × (plugin c' ≡ s)

  Transports-Seen {ℓ} :
      {A : Type ℓ} (z : A) (r : Ran A) (got : A × Option String)
      → Transports z (handle z r) got
      → Seen z r got
  Transports-Seen z (answers a) got h = h
  Transports-Seen z (fails err) got h = h
  Transports-Seen z crashes got h = h

  -- Over net/rpc each of the proxy's four methods gives what the plugin's own method gives: its value
  -- with no error, or its error with the zero value, and an error where it panics; and the plugin is
  -- left in the state that its own method leaves.
  pub proxy-Seen :
      Serves
      → (req : OrderCheckRequestWire Float) (c : Conn)
      → Seen "" (impl.name (plugin c)).0 (client_name rpc c).0
        × Seen (pos 0) (impl.order (plugin c)).0 (client_order rpc c).0
        × Seen false (impl.record_on_rejection (plugin c)).0 (client_record_on_rejection rpc c).0
        × Seen zero_result (impl.evaluate req (plugin c)).0 (client_evaluate rpc req c).0
        × (plugin (client_evaluate rpc req c).1 ≡ (impl.evaluate req (plugin c)).1)
  unfolding client_name client_order client_record_on_rejection client_evaluate
  proxy-Seen s req c =
      unfold server_name server_order server_record_on_rejection server_evaluate in
      (
        Transports-Seen "" _ _ (s.serves_name c).0,
        Transports-Seen (pos 0) _ _ (s.serves_order c).0,
        Transports-Seen false _ _ (s.serves_record_on_rejection c).0,
        Transports-Seen zero_result _ _ (s.serves_evaluate req c).0,
        (s.serves_evaluate req c).1,
      )
