-- ===== src/Subprocess/Example.antt =====
-- examples/riskguard-check-plugin/main.go: the example plugin, and the host's check in front of it.
use Prim.Native.String.{◌++◌ as append}
use text.Mathlib.Text.{starts_with}
use kite_mcp_riskguard.Prelude.{
  ◌≡◌, ◌≢◌, eq_iff, ◌↔◌, refl, ap, ◌∙◌, true, false, Option, none, some, List, [], ◌∷◌, String,
  ◌==◌, if◌then◌else◌, arith, Bool-cases, inl, inr,
}
use kite_mcp_riskguard.Prelude.Int.{pos}
use kite_mcp_riskguard.Env.{Env}
use kite_mcp_riskguard.Model.{CheckResult, OrderCheckRequest}
use kite_mcp_riskguard.Checkrpc.{
  OrderCheckRequestWire, CheckResultWire, zero_result, Ran, answers, crashes, CheckRpc, RpcClient,
  client_evaluate,
}
use kite_mcp_riskguard.Checkrpc.Plugin.{HandshakeConfig, handshake, CheckPlugin, dispense_key}
use kite_mcp_riskguard.Checkrpc.Proxy.{Seen, Serves, proxy-Seen}
use kite_mcp_riskguard.Subprocess.{
  Host, ok, SubprocessCheck, ensure_proxy, discard_client, fail_closed, evaluate, wire_of,
  result_of,
}

abbrev pub blocked_message : String → String
blocked_message s =
    append "symbol " (append s " matched a BLOCKED_ prefix; orders on these symbols are rejected")

module _ {Float : Type 0} where
  unfoldable pub example_evaluate : OrderCheckRequestWire Float → Ran CheckResultWire
  example_evaluate req =
      if req.tradingsymbol == "PANIC_ME"
      then crashes
      else if starts_with req.tradingsymbol "BLOCKED_"
      then answers (record {
        allowed = false;
        reason = "blocked_prefix";
        message = blocked_message req.tradingsymbol;
      })
      else answers (record { allowed = true; reason = ""; message = "" })

  -- It keeps no state.
  abbrev pub example_check : CheckRpc Float Unit
  example_check = record {
    name = λ s. (answers "example_check", s);
    order = λ s. (answers (pos 5000), s);
    record_on_rejection = λ s. (answers false, s);
    evaluate = λ req s. (example_evaluate req, s);
  }

-- go-plugin's ServeConfig, of a plugin that answers net/rpc alone.
pub record ServeConfig (Impl : Type 0) : Type 0 where
  pub handshake_config : HandshakeConfig
  pub plugins : List (String × CheckPlugin Impl)

abbrev pub serve_config : {Float : Type 0} → ServeConfig (CheckRpc Float Unit)
serve_config = record {
  handshake_config = handshake;
  plugins = (dispense_key, record { impl = some example_check }) ∷ [];
}

differs : (s t : String) → (s == t) ≡ false → s ≢ t
differs s t no_ same = let yes_ = (eq_iff s t).1 same in cc

module _ (E : Env) (H : Host E.Float) where
  -- What the example plugin means for an order.
  abbrev pub example_reason : String → String
  example_reason sym_ =
      if sym_ == "PANIC_ME"
      then "subprocess_rpc_error"
      else if starts_with sym_ "BLOCKED_"
      then "blocked_prefix"
      else ""

  module _ (req : OrderCheckRequest E) (s s₁ : SubprocessCheck H) (h h₁ h₂ : H.S) (p : H.Proxy)
      (opened : s.closed ≡ false) (ensured : ensure_proxy H s h ≡ (ok (some p), (s₁, h₁))) where
    evaluate_answered :
        (a : CheckResultWire)
        → H.evaluate p (wire_of E req) h₁ ≡ ((a, none), h₂)
        → evaluate E H req s h ≡ some (result_of E a, (s₁, h₂))
    unfolding evaluate
    evaluate_answered a asked = ground (arith, ensured, asked, opened)

    evaluate_broken :
        (a : CheckResultWire) (err : String)
        → H.evaluate p (wire_of E req) h₁ ≡ ((a, some err), h₂)
        → evaluate E H req s h
          ≡ some (fail_closed E s₁.cfg "subprocess_rpc_error" err, discard_client H s₁ h₂)
    unfolding evaluate
    evaluate_broken a err asked = ground (arith, ensured, asked, opened)

    -- The check's verdict on the order, and what the call leaves.
    abbrev pub Decides : Type 0
    Decides =
        (r : CheckResult) × (s' : SubprocessCheck H) × (h' : H.S) × (evaluate E H req s h
          ≡ some (r, (s', h')))
        × (r.reason ≡ example_reason req.tradingsymbol)
        × ((r.allowed ≡ true) ↔ (example_reason req.tradingsymbol ≡ ""))
        × ((s', h')
            ≡ (if req.tradingsymbol == "PANIC_ME" then discard_client H s₁ h₂ else (s₁, h₂)))

    after_seen :
        (got : CheckResultWire × Option String)
        → H.evaluate p (wire_of E req) h₁ ≡ (got, h₂)
        → Seen zero_result (example_evaluate (wire_of E req)) got
        → Decides
    unfolding example_evaluate
    after_seen got asked seen = elim (Bool-cases (req.tradingsymbol == "PANIC_ME")) [
      | inl boom ↦
          let (err, e) : (err : String) × (got ≡ (zero_result, some err)) = rw boom at seen in
          (
            _,
            _,
            _,
            evaluate_broken zero_result err (asked ∙ ap (λ g. (g, h₂)) e),
            rw boom refl,
            rw boom (λ no_. cc, λ same. absurd (differs "subprocess_rpc_error" "" refl same)),
            rw boom refl,
          )
      | inr calm ↦ (elim (Bool-cases (starts_with req.tradingsymbol "BLOCKED_")) [
        | inl bad ↦
            let e = rw (calm, bad) at seen in
            (
              _,
              _,
              _,
              evaluate_answered _ (asked ∙ ap (λ g. (g, h₂)) e),
              rw (calm, bad) refl,
              rw (calm, bad) (λ no_. cc, λ same. absurd (differs "blocked_prefix" "" refl same)),
              rw calm refl,
            )
        | inr fine ↦
            let e = rw (calm, fine) at seen in
            (
              _,
              _,
              _,
              evaluate_answered _ (asked ∙ ap (λ g. (g, h₂)) e),
              rw (calm, fine) refl,
              rw (calm, fine) (λ yes_. refl, λ same. refl),
              rw calm refl,
            )
      ])
    ]

    -- The host in front of the example plugin. The check is open and has a proxy, which is the RPC
    -- client of a connection that serves the plugin. Then a call returns, allows the order unless its
    -- symbol is PANIC_ME or starts with BLOCKED_, and gives blocked_prefix as the reason of the latter;
    -- the former kills the plugin, is rejected as subprocess_rpc_error, and its client is torn down,
    -- while any other order leaves the process cached.
    pub example_decides :
        {Conn : Type 0} (rpc : RpcClient E.Float Conn) (plugin : Conn → Unit) (conn : H.S → Conn)
        → Serves example_check rpc plugin
        → ((x : H.S)
            → (H.evaluate p (wire_of E req) x).0 ≡ (client_evaluate rpc (wire_of E req) (conn x)).0)
        → (H.evaluate p (wire_of E req) h₁).1 ≡ h₂
        → Decides
    example_decides rpc plugin conn serves proxied left =
        let (_, _, _, seen, _) =
          proxy-Seen example_check rpc plugin serves (wire_of E req) (conn h₁) in
        let got = client_evaluate rpc (wire_of E req) (conn h₁) in
        after_seen got.0 (λ i. (proxied h₁ i, left i)) seen
