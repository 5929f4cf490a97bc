-- ===== src/Tests/Processes.antt =====
-- The theorem on a call of Evaluate as a run of steps, on a host that keeps the running processes.
use kite_mcp_riskguard.Prelude.{
  ℕ, ◌≡◌, refl, Bool, true, false, ◌&&◌, ◌∙◌, sym, ap, none, Option, if◌then◌else◌, some, suc, ltb,
  arith, inl, String,
}
use kite_mcp_riskguard.Prelude.Int.{ℤ}
use kite_mcp_riskguard.Checkrpc.{client_evaluate, CheckResultWire, zero_result}
use kite_mcp_riskguard.Subprocess.{
  Host, Result, ok, error, SubprocessCheck, new_subprocess_check, wire_of,
}
use kite_mcp_riskguard.Subprocess.Concurrent.{update, Pc}
use kite_mcp_riskguard.Subprocess.Concurrent.Orphans.{started}
use kite_mcp_riskguard.Subprocess.Concurrent.Sequential.{Numbers, Launches, view}
use kite_mcp_riskguard.Subprocess.Concurrent.Sequential.Runs.{Ran, evaluate_runs}
use kite_mcp_riskguard.Tests.Sample.{sample, order}
use kite_mcp_riskguard.Tests.Hosted.{demo_rpc, example_config}

-- The numbers in use, and which of them run.
abbrev masked : ℕ → (ℕ → Bool) → ℕ → Bool
masked m f n = ltb n m && f n

masked_new : (m : ℕ) (f : ℕ → Bool) → masked (suc m) (update f m false) ≡ masked m f
masked_new m f = λ i n. (pointwise n) i
  where
    pointwise : (n : ℕ) → masked (suc m) (update f m false) n ≡ masked m f n
    pointwise n = ground arith

masked_started :
    (m : ℕ) (f : ℕ → Bool) → masked (suc m) (update f m true) ≡ update (masked (suc m) f) m true
masked_started m f = λ i n. (pointwise n) i
  where
    pointwise : (n : ℕ) → masked (suc m) (update f m true) n ≡ update (masked (suc m) f) m true n
    pointwise n = ground arith

masked_killed : (m c : ℕ) (f : ℕ → Bool) → masked m (update f c false) ≡ update (masked m f) c false
masked_killed m c f = λ i n. (pointwise n) i
  where
    pointwise : (n : ℕ) → masked m (update f c false) n ≡ update (masked m f) c false n
    pointwise n = ground arith

abbrev Tracked : Type 0
Tracked = ℕ × (ℕ → Bool)

abbrev answer_of :
    Bool → CheckResultWire × Option String → Tracked → (CheckResultWire × Option String) × Tracked
answer_of running answer h =
    if running then (answer, h) else ((zero_result, some "connection is shut down"), h)

-- A host that keeps the next number and which processes run.
abbrev tracked : Host ℤ
tracked = record {
  S = Tracked;
  Client = ℕ;
  Conn = ℕ;
  Raw = ℕ;
  Proxy = ℕ;
  new_client = λ cfg h. (h.0, (suc h.0, update h.1 h.0 false));
  connect = λ c h. (ok c, (h.0, update h.1 c true));
  dispense = λ c key h. (ok c, h);
  as_check_rpc = λ r. some r;
  type_name = λ r. "";
  kill = λ c h. (h.0, update h.1 c false);
  evaluate = λ p w h. answer_of (masked h.0 h.1 p) (client_evaluate demo_rpc w tt).0 h;
  open_file = λ path h. ok path;
  sha256_hex_of = λ f h. ok f;
}

abbrev numbers : Numbers sample tracked
numbers = record {
  of_client = λ c. c;
  of_conn = λ c. c;
  of_raw = λ r. r;
  of_proxy = λ p. p;
  next = λ h. h.0;
  alive = λ h. masked h.0 h.1;
}

answered_running :
    (running : Bool) (answer : CheckResultWire × Option String) (h h' : Tracked)
    (resp : CheckResultWire)
    → answer_of running answer h ≡ ((resp, none), h')
    → (running ≡ true) × (h' ≡ h)
answered_running true answer h h' resp e = (refl, ap (λ x. x.1) (sym e))
answered_running false answer h h' resp e = let no_ = ap (λ x. x.0.1) e in cc

answer_keeps :
    (running : Bool) (answer : CheckResultWire × Option String) (h h' : Tracked)
    (got : CheckResultWire × Option String)
    → answer_of running answer h ≡ (got, h')
    → h' ≡ h
answer_keeps true answer h h' got e = ap (λ x. x.1) (sym e)
answer_keeps false answer h h' got e = ap (λ x. x.1) (sym e)

abbrev or_ok : {A : Type 0} → A → Result A → A
or_ok a (ok b) = b
or_ok a (error err) = a

abbrev is_ok : {A : Type 0} → Result A → Bool
is_ok (ok b) = true
is_ok (error err) = false

tracked-Launches : Launches sample tracked numbers
tracked-Launches = record {
  unused = λ h. ground arith;
  creates = λ x h. (refl, refl, masked_new h.0 h.1);
  connects = λ x h conn h' e. (
    ap (λ r. or_ok h.0 r.0) (sym e),
    ap (λ r. r.1.0) (sym e),
    ap (λ r. masked r.1.0 r.1.1) (sym e) ∙ masked_started h.0 (update h.1 h.0 false),
  );
  fails_to_connect = λ x h err h' e. absurd (let no_ = ap (λ r. is_ok r.0) e in cc);
  dispenses = λ conn h raw h' e. ap (λ r. or_ok conn r.0) (sym e);
  dispensing = λ conn h. (refl, refl);
  casts = λ raw p e. cc;
  kills = λ c h. (refl, masked_killed h.0 c h.1);
  answering = λ p req h resp h' e.
      let (run, same) =
        answered_running (masked h.0 h.1 p) (client_evaluate demo_rpc (wire_of sample req) tt).0 h
          h' resp e in
      (run, ap (λ x. x.0) same, ap (λ x. masked x.0 x.1) same);
  failing = λ p req h resp err h' e.
      let same =
        answer_keeps (masked h.0 h.1 p) (client_evaluate demo_rpc (wire_of sample req) tt).0 h h'
          (resp, some err) e in
      (ap (λ x. x.0) same, inl (ap (λ x. masked x.0 x.1) same));
}

-- The first call, on which the plugin is launched.
abbrev idle : SubprocessCheck tracked
idle = new_subprocess_check tracked example_config

nothing_runs : (started (λ i. Pc.calls)).shared ≡ view sample tracked numbers idle (0, λ n. false)
nothing_runs = λ i. record { closed = false; cached = none; next = 0; alive = λ n. (pointwise n) i }
  where
    pointwise : (n : ℕ) → false ≡ masked 0 (λ m. false) n
    pointwise n = ground arith

evaluate_runs_example :
    Ran sample tracked numbers tracked-Launches
      (started (λ i. Pc.calls))
      0
      order
      idle
      (0, λ n. false)
evaluate_runs_example =
    evaluate_runs sample tracked numbers tracked-Launches (started (λ i. Pc.calls)) 0 order idle
      (0, λ n. false) nothing_runs refl tt
