-- ===== src/Tests/Subprocesses.antt =====
-- The theorems on subprocess checks at concrete inputs.
use kite_mcp_riskguard.Prelude.{◌≡◌, ◌↔◌, refl, true, false, Option, none, some, [], String, eq_iff}
use kite_mcp_riskguard.Prelude.Int.{pos}
use kite_mcp_riskguard.Model.{CheckResult, allow, State}
use kite_mcp_riskguard.Chain.{Guard, register_check, insert_check, sift}
use kite_mcp_riskguard.CheckOrder.{Outcome, returned, check_order, run_checks, proceed}
use kite_mcp_riskguard.CheckOrder.Laws.{AllPass}
use kite_mcp_riskguard.Checkrpc.{client_evaluate}
use kite_mcp_riskguard.Subprocess.{
  ok, SubprocessCheck, ensure_proxy, launch_locked, evaluate, fail_closed, close,
}
use kite_mcp_riskguard.Subprocess.FailClosed.{Paired, PluginAllows, evaluate-FailClosed}
use kite_mcp_riskguard.Subprocess.Registration.{
  validate, config, register_subprocess_check, register_subprocess_check_with_sbom,
}
use kite_mcp_riskguard.Subprocess.Vetoes.{Placed, Vouches, register_subprocess_check-vetoes}
use kite_mcp_riskguard.Subprocess.Example.{example_evaluate, Decides, example_decides}
use kite_mcp_riskguard.Tests.Sample.{sample, now, order}
use kite_mcp_riskguard.Tests.Hosted.{
  demo_rpc, demo-Serves, demo, idle_check, hosted, cells, hosted_order, bare_chain,
}

evaluate-FailClosed_example :
    ((r : CheckResult) × (s' : SubprocessCheck demo) × (h' : demo.S) × (evaluate sample demo order
          idle_check 0
        ≡ some (r, (s', h')))
      × Paired s'.client s'.proxy
      × ((r.allowed ≡ true)
          ↔ ((idle_check.closed ≡ false) × PluginAllows sample demo order idle_check 0)))
    × (let (s', h') = close demo idle_check 0 in
        (evaluate sample demo order s' h'
          ≡ some (
            fail_closed sample idle_check.cfg "subprocess_closed" "plugin was shut down",
            (s', h'),
          ))
        × (close demo s' h' ≡ (s', h')))
evaluate-FailClosed_example = evaluate-FailClosed sample demo order idle_check 0 tt

-- A run of CheckOrder with the example plugin.
abbrev registration : Option String × Guard hosted
registration =
    register_subprocess_check_with_sbom hosted demo cells "example" "/opt/riskguard-check-plugin"
      (pos 2500) none bare_chain

abbrev ran : Outcome × Guard hosted
ran = check_order hosted (record (registration.1) { state = registration.1.state }) hosted_order now

ran_allowed : ran.0 ≡ returned allow
unfolding register_subprocess_check_with_sbom register_subprocess_check validate register_check
    insert_check sift check_order run_checks proceed evaluate ensure_proxy launch_locked
    client_evaluate example_evaluate
ran_allowed = refl

register_subprocess_check-vetoes_example :
    (registration.0 ≡ none)
    × (p : Placed hosted demo cells
        (config hosted demo cells "example" "/opt/riskguard-check-plugin" (pos 2500))
        []
        registration.1.checks)
    × (st' : State hosted) × AllPass hosted hosted_order p.before now registration.1.state st'
    × Vouches hosted demo cells p.cell hosted_order st'
register_subprocess_check-vetoes_example =
    register_subprocess_check-vetoes hosted demo cells "example" "/opt/riskguard-check-plugin"
      (pos 2500) none bare_chain registration.1 ran.1 registration.0 registration.1.state
      hosted_order now allow (λ e. let no_ = (eq_iff "example" "").1 e in cc)
      (λ e. let no_ = (eq_iff "/opt/riskguard-check-plugin" "").1 e in cc) tt refl
      (λ i. (ran_allowed i, ran.1)) refl

ensured :
    ensure_proxy demo idle_check 0
    ≡ (ok (some 0), (record idle_check { client = some 0; proxy = some 0 }, 1))
unfolding ensure_proxy launch_locked
ensured = refl

example_decides_example :
    Decides sample demo order idle_check
      (record idle_check { client = some 0; proxy = some 0 })
      0
      1
      1
      0
      refl
      ensured
example_decides_example =
    example_decides sample demo order idle_check
      (record idle_check { client = some 0; proxy = some 0 }) 0 1 1 0 refl ensured demo_rpc (λ c. c)
      (λ n. tt) demo-Serves (λ x. refl) refl
