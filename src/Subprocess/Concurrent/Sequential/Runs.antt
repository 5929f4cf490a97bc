-- ===== src/Subprocess/Concurrent/Sequential/Runs.antt =====
-- SubprocessCheck.Evaluate as a run of the steps.
use kite_mcp_riskguard.Prelude.{
  ℕ, ◌≡◌, ◌⊎◌, refl, sym, ap, ◌∙◌, Bool, true, false, Option, none, some, String, arith, Bool-cases,
  inl, inr,
}
use kite_mcp_riskguard.Env.{Env}
use kite_mcp_riskguard.Model.{CheckResult, OrderCheckRequest}
use kite_mcp_riskguard.Checkrpc.{CheckResultWire}
use kite_mcp_riskguard.Subprocess.{
  Host, ok, SubprocessCheck, ensure_proxy, discard_client, evaluate, wire_of, fail_closed,
  result_of,
}
use kite_mcp_riskguard.Subprocess.Concurrent.{
  update, Shared, Pc, tear_down, Move, refuse, enter, reuse, miss, launch, launch_fails, answer,
  rpc_error, discard, System, moved, crashed, goes, crash, Steps, here, then_,
}
use kite_mcp_riskguard.Subprocess.Concurrent.Sequential.{
  Numbers, Launches, view, Linked, number_of, same_view,
}
use kite_mcp_riskguard.Subprocess.Concurrent.Sequential.Launching.{
  launch_locked-Outcomes, failed_view, launched-view,
}

-- From `c₀` a run gets to a state in which the goroutines share `sh` and `i` stands at `p`.
abbrev pub Reaches : System → ℕ → Shared → Pc → Type 0
Reaches c₀ i sh p = (d : System) × Steps c₀ d × (d.shared ≡ sh) × (d.pc i ≡ p)

advance :
    {c₀ : System} {i : ℕ} {sh sh' : Shared} {p p' : Pc}
    → Reaches c₀ i sh p
    → Move sh p sh' p'
    → Reaches c₀ i sh' p'
advance {i = i} {sh' = sh'} {p' = p'} (d, r, e, f) m =
    (moved d i sh' p', then_ r (goes i (rw (e, f) m)), refl, ground arith)

crashes :
    {c₀ : System} {i : ℕ} {sh : Shared} {p : Pc} (q : ℕ)
    → Reaches c₀ i sh p
    → Reaches c₀ i (record sh { alive = update sh.alive q false }) p
crashes q (d, r, e, f) = (
  crashed d q,
  then_ r (crash q),
  ap (λ (s : Shared). record s { alive = update s.alive q false }) e,
  f,
)

retarget :
    {c₀ : System} {i : ℕ} {sh sh' : Shared} {p : Pc}
    → sh ≡ sh'
    → Reaches c₀ i sh p
    → Reaches c₀ i sh' p
retarget same (d, r, e, f) = (d, r, e ∙ same, f)

retarget_pc :
    {c₀ : System} {i : ℕ} {sh : Shared} {p p' : Pc}
    → p ≡ p'
    → Reaches c₀ i sh p
    → Reaches c₀ i sh p'
retarget_pc same (d, r, e, f) = (d, r, e, f ∙ same)

module _ (E : Env) (H : Host E.Float) (n : Numbers E H) (laws : Launches E H n) where
  Linked-client :
      (client : Option H.Client) (p : H.Proxy)
      → Linked E H n client (some p)
      → (c : H.Client) × (client ≡ some c) × (n.of_client c ≡ n.of_proxy p)
  Linked-client (some c) p same = (c, refl, same)
  Linked-client none p no_ = absurd no_

  discard_client-Linked :
      (s : SubprocessCheck H) (h : H.S) (c : H.Client)
      → s.client ≡ some c
      → Linked E H n (discard_client H s h).0.client (discard_client H s h).0.proxy
  unfolding discard_client
  discard_client-Linked s h c has_client = rw (has_client, discard_client) tt

  -- A call that ran, as a run of the steps.
  pub record Ran (c₀ : System) (i : ℕ) (req : OrderCheckRequest E) (s : SubprocessCheck H) (h : H.S)
      : Type 0 where
    pub decision : CheckResult
    pub left : SubprocessCheck H
    pub host : H.S
    pub returned : evaluate E H req s h ≡ some (decision, (left, host))
    pub answered : Bool
    pub reaches : Reaches c₀ i (view E H n left host) (Pc.done answered)
    pub sound : decision.allowed ≡ true → answered ≡ true
    pub linked : Linked E H n left.client left.proxy

  discarded_view :
      (s : SubprocessCheck H) (h : H.S) (c : H.Client) (p : H.Proxy)
      → s.client ≡ some c
      → s.proxy ≡ some p
      → n.of_client c ≡ n.of_proxy p
      → tear_down (view E H n s h) ≡ view E H n (discard_client H s h).0 (discard_client H s h).1
  unfolding discard_client
  discarded_view s h c p has_client has_proxy_ same =
      let (next', alive') = laws.kills c h in
      rw (has_client, has_proxy_, discard_client)
        (λ i. record {
          closed = s.closed;
          cached = none;
          next = (sym next') i;
          alive = (sym (alive' ∙ ap (λ m. update (n.alive h) m false) same)) i;
        })

  module _ (c₀ : System) (i : ℕ) (req : OrderCheckRequest E) where
    after_failure :
        (s : SubprocessCheck H) (h h' : H.S) (p : H.Proxy)
        → n.next h' ≡ n.next h
        → (n.alive h' ≡ n.alive h) ⊎ (n.alive h' ≡ update (n.alive h) (n.of_proxy p) false)
        → Reaches c₀ i (view E H n s h) Pc.failed
        → Reaches c₀ i (view E H n s h') Pc.failed
    after_failure s h h' p next' (inl same) there =
        retarget (sym (same_view E H n s h h' next' same)) there
    after_failure s h h' p next' (inr died) there =
        let sh : Shared = record (view E H n s h) {
          alive = update (n.alive h) (n.of_proxy p) false;
        } in
        let e : sh ≡ view E H n s h' = λ j. record {
          closed = s.closed;
          cached = number_of E H n s.proxy;
          next = (sym next') j;
          alive = (sym died) j;
        } in
        retarget e (crashes (n.of_proxy p) there)

    -- From the proxy on.
    after_proxy :
        (s s₁ : SubprocessCheck H) (h h₁ : H.S) (c : H.Client) (p : H.Proxy)
        → s.closed ≡ false
        → ensure_proxy H s h ≡ (ok (some p), (s₁, h₁))
        → s₁.client ≡ some c
        → s₁.proxy ≡ some p
        → n.of_client c ≡ n.of_proxy p
        → Reaches c₀ i (view E H n s₁ h₁) (Pc.has_proxy (n.of_proxy p))
        → (resp : CheckResultWire) (err : Option String) (h₂ : H.S)
        → H.evaluate p (wire_of E req) h₁ ≡ ((resp, err), h₂)
        → Ran c₀ i req s h
    unfolding evaluate
    after_proxy s s₁ h h₁ c p opened e has_client has_proxy_ same there resp none h₂ asked =
        let (runs, next₂, alive₂) = laws.answering p req h₁ resp h₂ asked in
        record {
          decision = result_of E resp;
          left = s₁;
          host = h₂;
          returned = ground (arith, e, asked, opened);
          answered = true;
          reaches = rw (same_view E H n s₁ h₁ h₂ next₂ alive₂) (advance there (answer runs));
          sound = λ yes_. refl;
          linked = rw (has_client, has_proxy_) same;
        }
    after_proxy s s₁ h h₁ c p opened e has_client has_proxy_ same there resp (some err) h₂ asked =
        let (next₂, alive₂) = laws.failing p req h₁ resp err h₂ asked in
        let failed = advance there rpc_error in
        let now_ : Reaches c₀ i (view E H n s₁ h₂) Pc.failed =
          after_failure s₁ h₁ h₂ p next₂ alive₂ failed in
        record {
          decision = fail_closed E s₁.cfg "subprocess_rpc_error" err;
          left = (discard_client H s₁ h₂).0;
          host = (discard_client H s₁ h₂).1;
          returned = ground (arith, e, asked, opened);
          answered = false;
          reaches =
              rw (sym (discarded_view s₁ h₂ c p has_client has_proxy_ same)) (advance now_ discard);
          sound = λ no_. cc;
          linked = discard_client-Linked s₁ h₂ c has_client;
        }

    open_call :
        (s : SubprocessCheck H) (h : H.S)
        → s.closed ≡ false
        → Linked E H n s.client s.proxy
        → (p : Option H.Proxy) → s.proxy ≡ p
        → Reaches c₀ i (view E H n s h) Pc.passed_closed
        → Ran c₀ i req s h
    unfolding evaluate ensure_proxy
    open_call s h opened linked (some p) has_proxy_ there =
        let (c, has_client, same) = Linked-client s.client p (rw has_proxy_ at linked) in
        let asked = H.evaluate p (wire_of E req) h in
        let ensured : ensure_proxy H s h ≡ (ok (some p), (s, h)) = ground (arith, has_proxy_) in
        let given = advance there (reuse (ap (number_of E H n) has_proxy_)) in
        after_proxy s s h h c p opened ensured has_client has_proxy_ same given asked.0.0 asked.0.1
          asked.1 refl
    open_call s h opened linked none empty there =
        let missed : Reaches c₀ i (view E H n s h) Pc.missed =
          advance there (miss (ap (number_of E H n) empty)) in
        elim (launch_locked-Outcomes E H n laws s h) [
          | inr (err, h', e, next', alive') ↦ record {
            decision = fail_closed E s.cfg "subprocess_unavailable" err;
            left = s;
            host = h';
            returned = ground (arith, e, empty, opened);
            answered = false;
            reaches =
                retarget (failed_view E H n laws s h h' next' alive')
                  (advance missed (launch_fails (ap (number_of E H n) empty)));
            sound = λ no_. cc;
            linked = linked;
          }
          | inl (p, c, h', e, same, first, next', alive') ↦
              let s₁ : SubprocessCheck H = record s { client = some c; proxy = some p } in
              let asked = H.evaluate p (wire_of E req) h' in
              let ensured : ensure_proxy H s h ≡ (ok (some p), (s₁, h')) =
                ground (arith, e, empty) in
              let given : Reaches c₀ i (view E H n s₁ h') (Pc.has_proxy (n.of_proxy p)) =
                retarget_pc (ap (λ m. Pc.has_proxy m) (sym first)) (
                  retarget (launched-view E H n laws s s₁ h h' p refl refl first next' alive')
                    (advance missed (launch (ap (number_of E H n) empty)))) in
              after_proxy s s₁ h h' c p opened ensured refl refl same given asked.0.0 asked.0.1
                asked.1 refl
        ]

    -- With go-plugin as documented, a call of Evaluate on a check whose client and proxy are of one process
    -- returns, and a goroutine of the concurrent model that calls Evaluate on what the check shares gets, by
    -- steps, from the call to its return, where what is shared is the check and the host as the call leaves
    -- them; the steps answer if the call lets the order pass, and the client and the proxy left are of one
    -- process.
    pub evaluate_runs :
        (s : SubprocessCheck H) (h : H.S)
        → c₀.shared ≡ view E H n s h
        → c₀.pc i ≡ Pc.calls
        → Linked E H n s.client s.proxy
        → Ran c₀ i req s h
    unfolding evaluate
    evaluate_runs s h same at_call linked = elim (Bool-cases s.closed) [
      | inl shut ↦ record {
        decision = fail_closed E s.cfg "subprocess_closed" "plugin was shut down";
        left = s;
        host = h;
        returned = ground (arith, shut);
        answered = false;
        reaches = advance (c₀, here, same, at_call) (refuse shut);
        sound = λ no_. cc;
        linked = linked;
      }
      | inr opened ↦
          open_call s h opened linked s.proxy refl
            (advance (c₀, here, same, at_call) (enter opened))
    ]
