-- ===== src/Subprocess/FailClosed.antt =====
-- When a subprocess check allows an order, and what a call leaves.
use kite_mcp_riskguard.Prelude.{
  ◌≡◌, ◌≢◌, ◌↔◌, refl, true, false, Option, none, some, String, arith, Bool-cases, inl, inr,
}
use kite_mcp_riskguard.Env.{Env}
use kite_mcp_riskguard.Model.{CheckResult, OrderCheckRequest}
use kite_mcp_riskguard.Checkrpc.{CheckResultWire}
use kite_mcp_riskguard.Subprocess.{
  Host, Result, ok, error, SubprocessCheck, launch_locked, ensure_proxy, discard_client, close,
  wire_of, fail_closed, result_of, evaluate,
}

-- The cached client and the cached proxy come and go together.
abbrev pub Paired {ℓ κ} : {A : Type ℓ} {B : Type κ} → Option A → Option B → Type 0
Paired none none = Unit
Paired (some a) (some b) = Unit
Paired _ _ = ⊥

module _ (E : Env) (H : Host E.Float) where
  ensure_proxy-Paired :
      (s : SubprocessCheck H) (h : H.S)
      → (Paired s.client s.proxy
          → Paired (ensure_proxy H s h).1.0.client (ensure_proxy H s h).1.0.proxy)
        × ((ensure_proxy H s h).0 ≢ ok none)
        × ((ensure_proxy H s h).1.0.closed ≡ s.closed)
  unfolding ensure_proxy launch_locked
  ensure_proxy-Paired s h = (λ paired. ground arith, ground arith, ground arith)

  discard_client-Paired :
      (s : SubprocessCheck H) (h : H.S)
      → Paired s.client s.proxy
      → Paired (discard_client H s h).0.client (discard_client H s h).0.proxy
  unfolding discard_client
  discard_client-Paired s h paired = ground arith

  -- The plugin that is cached or was just launched answers the request, with no error, that it is
  -- allowed.
  abbrev pub PluginAllows : OrderCheckRequest E → SubprocessCheck H → H.S → Type 0
  PluginAllows req s h =
      (p : H.Proxy) × (s₁ : SubprocessCheck H) × (h₁ h₂ : H.S) × (resp : CheckResultWire)
      × (ensure_proxy H s h ≡ (ok (some p), (s₁, h₁)))
      × (H.evaluate p (wire_of E req) h₁ ≡ ((resp, none), h₂))
      × (resp.allowed ≡ true)

  -- The rest of a call, once the proxy is there or is not.
  pub record Verdict (req : OrderCheckRequest E) (s : SubprocessCheck H) (h : H.S) : Type 0 where
    pub decision : CheckResult
    pub left : SubprocessCheck H
    pub host : H.S
    pub returned : evaluate E H req s h ≡ some (decision, (left, host))
    pub paired : Paired s.client s.proxy → Paired left.client left.proxy
    pub sound : decision.allowed ≡ true → PluginAllows req s h
    pub complete : PluginAllows req s h → decision.allowed ≡ true

  after_reply :
      (req : OrderCheckRequest E) (s s₁ : SubprocessCheck H) (h h₁ h₂ : H.S) (p : H.Proxy)
      (resp : CheckResultWire) (err : Option String)
      → ensure_proxy H s h ≡ (ok (some p), (s₁, h₁))
      → H.evaluate p (wire_of E req) h₁ ≡ ((resp, err), h₂)
      → s.closed ≡ false
      → (Paired s.client s.proxy → Paired s₁.client s₁.proxy)
      → Verdict req s h
  unfolding evaluate
  after_reply req s s₁ h h₁ h₂ p resp none e reply opened paired = record {
    decision = result_of E resp;
    left = s₁;
    host = h₂;
    returned = ground (arith, e, reply);
    paired = paired;
    sound = λ yes_. (p, s₁, h₁, h₂, resp, e, reply, yes_);
    complete = λ (p', s', h', h'', resp', e', reply', yes_). cc;
  }
  after_reply req s s₁ h h₁ h₂ p resp (some err) e reply opened paired = record {
    decision = fail_closed E s₁.cfg "subprocess_rpc_error" err;
    left = (discard_client H s₁ h₂).0;
    host = (discard_client H s₁ h₂).1;
    returned = ground (arith, e, reply);
    paired = λ before. discard_client-Paired s₁ h₂ (paired before);
    sound = λ no_. cc;
    complete = λ (p', s', h', h'', resp', e', reply', yes_). cc;
  }

  after_proxy :
      (req : OrderCheckRequest E) (s : SubprocessCheck H) (h : H.S) (got : Result (Option H.Proxy))
      (s₁ : SubprocessCheck H) (h₁ : H.S)
      → ensure_proxy H s h ≡ (got, (s₁, h₁))
      → s.closed ≡ false
      → (Paired s.client s.proxy → Paired s₁.client s₁.proxy)
      → got ≢ ok none
      → Verdict req s h
  unfolding evaluate
  after_proxy req s h (error err) s₁ h₁ e opened paired no_nil = record {
    decision = fail_closed E s₁.cfg "subprocess_unavailable" err;
    left = s₁;
    host = h₁;
    returned = ground (arith, e);
    paired = paired;
    sound = λ no_. cc;
    complete = λ (p, s', h', h'', resp, e', _, _). cc;
  }
  after_proxy req s h (ok none) s₁ h₁ e opened paired no_nil = absurd (no_nil refl)
  after_proxy req s h (ok (some p)) s₁ h₁ e opened paired no_nil =
      let reply = H.evaluate p (wire_of E req) h₁ in
      after_reply req s s₁ h h₁ reply.1 p reply.0.0 reply.0.1 e refl opened paired

  evaluate_closed :
      (req : OrderCheckRequest E) (s : SubprocessCheck H) (h : H.S)
      → s.closed ≡ true
      → evaluate E H req s h
        ≡ some (fail_closed E s.cfg "subprocess_closed" "plugin was shut down", (s, h))
  unfolding evaluate
  evaluate_closed req s h shut = ground arith

  evaluate_open :
      (req : OrderCheckRequest E) (s : SubprocessCheck H) (h : H.S)
      → s.closed ≡ false
      → Verdict req s h
  evaluate_open req s h opened =
      let (kept, no_nil, _) = ensure_proxy-Paired s h in
      after_proxy req s h _ _ _ refl opened kept no_nil

  pub evaluate_sound :
      (req : OrderCheckRequest E) (s s' : SubprocessCheck H) (h h' : H.S) (r : CheckResult)
      → evaluate E H req s h ≡ some (r, (s', h'))
      → r.allowed ≡ true
      → (s.closed ≡ false) × PluginAllows req s h
  evaluate_sound req s s' h h' r e yes_ = elim (Bool-cases s.closed) [
    | inl shut ↦ let refused = evaluate_closed req s h shut in cc
    | inr opened ↦
        let v = evaluate_open req s h opened in
        let yours : v.decision.allowed ≡ true = let back = v.returned in cc in
        (opened, v.sound yours)
  ]

  -- A subprocess check fails closed. Every call returns, keeps the cached client and proxy together,
  -- and allows the order exactly if the check is not closed and the plugin, cached or just launched,
  -- answers without an error that it is allowed. A closed check rejects every order as
  -- subprocess_closed and touches nothing, and closing it again changes nothing.
  pub evaluate-FailClosed :
      (req : OrderCheckRequest E) (s : SubprocessCheck H) (h : H.S)
      → Paired s.client s.proxy
      → ((r : CheckResult) × (s' : SubprocessCheck H) × (h' : H.S) × (evaluate E H req s h
            ≡ some (r, (s', h')))
          × Paired s'.client s'.proxy
          × ((r.allowed ≡ true) ↔ ((s.closed ≡ false) × PluginAllows req s h)))
        × (let (s', h') = close H s h in
            (evaluate E H req s' h'
              ≡ some (fail_closed E s.cfg "subprocess_closed" "plugin was shut down", (s', h')))
            × (close H s' h' ≡ (s', h')))
  unfolding evaluate close discard_client
  evaluate-FailClosed req s h paired = (
    elim (Bool-cases s.closed) [
      | inl shut ↦ (
        fail_closed E s.cfg "subprocess_closed" "plugin was shut down",
        s,
        h,
        ground arith,
        paired,
        (λ no_. cc, λ (opened, _). cc),
      )
      | inr opened ↦
          let v = evaluate_open req s h opened in
          (
            v.decision,
            v.left,
            v.host,
            v.returned,
            v.paired paired,
            (λ y. (opened, v.sound y), λ x. v.complete x.1),
          )
    ],
    (ground arith, ground arith),
  )
