-- ===== src/Subprocess/Discovered.antt =====
-- DiscoverPlugins with the guard's RegisterSubprocessCheck as its registrar.
use kite_mcp_riskguard.Prelude.{
  ◌≡◌, refl, sym, ap, ◌∙◌, true, false, Option, some, List, [], ◌∷◌, String, arith, All,
  Option-cases, inl, inr,
}
use kite_mcp_riskguard.Prelude.Int.{ℤ, pos, ◌≤ℤ◌}
use kite_mcp_riskguard.Env.{Env}
use kite_mcp_riskguard.Model.{CheckResult, OrderCheckRequest, State}
use kite_mcp_riskguard.Lifecycle.{is_frozen}
use kite_mcp_riskguard.Chain.{Guard, register_check}
use kite_mcp_riskguard.Chain.Order.{IsOrdered}
use kite_mcp_riskguard.Builtin.Registration.{Starts, insert_check-IsOrdered, insert_check-Starts}
use kite_mcp_riskguard.CheckOrder.{returned, Readings, check_order}
use kite_mcp_riskguard.CheckOrder.KillSwitch.{check_order-kill_switch}
use kite_mcp_riskguard.Discovery.{
  PluginDiscoveryEntry, PluginRegistrar, contents, Decoded, entries, DiscoverError, failure,
  joined_errors, register_entries, discover_plugins,
}
use kite_mcp_riskguard.Subprocess.{Host, new_subprocess_check}
use kite_mcp_riskguard.Subprocess.Registration.{
  validate, Heap, subprocess_check, config, register_subprocess_check,
}

module _ (E : Env) (H : Host E.Float) (heap : Heap E H) where
  -- `g.RegisterSubprocessCheck`, as a registrar.
  abbrev pub registrar : PluginRegistrar (Guard E)
  registrar name executable order g = register_subprocess_check E H heap name executable order g

  -- The errors of the entries without a name or an executable.
  abbrev pub invalid : List PluginDiscoveryEntry → List (String × String)
  invalid [] = []
  invalid (e ∷ es) =
      failure e.name (validate E (config E H heap e.name e.executable e.order)) (invalid es)

  abbrev pub IsGuarded : Guard E → Type 0
  IsGuarded g = IsOrdered E g.checks × Starts E g.checks

  register_subprocess_check-validate :
      (name executable : String) (order : ℤ) (g : Guard E)
      → (register_subprocess_check E H heap name executable order g).0
        ≡ validate E (config E H heap name executable order)
  unfolding register_subprocess_check
  register_subprocess_check-validate name executable order g = ground arith

  register_subprocess_check-IsGuarded :
      (name executable : String) (order : ℤ) (g : Guard E)
      → pos 100 ≤ℤ order
      → IsGuarded g
      → IsGuarded (register_subprocess_check E H heap name executable order g).1
  unfolding register_subprocess_check register_check
  register_subprocess_check-IsGuarded name executable order g le (ordered, starts) =
      let cfg = config E H heap name executable order in
      elim (Option-cases (validate E cfg)) [
        | inl fine ↦
            let (cell, w) = heap.alloc (new_subprocess_check H cfg) g.state.world in
            let c = subprocess_check E H heap cfg cell in
            rw (fine, register_subprocess_check)
              (
                insert_check-IsOrdered E c g.checks ordered,
                insert_check-Starts E c g.checks ordered le starts,
              )
        | inr (err, bad) ↦ rw (bad, register_subprocess_check) (ordered, starts)
      ]

  register_entries-IsGuarded :
      (es : List PluginDiscoveryEntry) (g : Guard E)
      → All (λ (e : PluginDiscoveryEntry). pos 100 ≤ℤ e.order) es
      → IsGuarded g
      → ((register_entries registrar es g).0 ≡ invalid es)
        × IsGuarded (register_entries registrar es g).1
  unfolding register_entries
  register_entries-IsGuarded [] g le h = (refl, h)
  register_entries-IsGuarded (e ∷ es) g (first, le) h =
      let (same, kept) =
        register_entries-IsGuarded es _ le
          (register_subprocess_check-IsGuarded e.name e.executable e.order g first h) in
      (rw (register_subprocess_check-validate e.name e.executable e.order g, same) refl, kept)

  -- Plugins that a manifest installs as subprocess checks do not displace the kill switch. If the
  -- chain is ordered and starts with it, and every entry's order is 100 or more, then DiscoverPlugins
  -- reports exactly the entries without a name or an executable, the chain stays so, and in any state
  -- of that guard without a global freeze an order of a frozen user is rejected as such and leaves
  -- the guard, and so the plugins' processes, as it was.
  pub discover_plugins-blocks_frozen :
      {Bytes : Type 0} (bytes : Bytes) (decode : Bytes → Decoded) (es : List PluginDiscoveryEntry)
      (g g' : Guard E) (err : Option DiscoverError) (st : State E) (req : OrderCheckRequest E)
      (at : Readings)
      → decode bytes ≡ entries es
      → All (λ (e : PluginDiscoveryEntry). pos 100 ≤ℤ e.order) es
      → IsGuarded g
      → discover_plugins (contents bytes) decode (some registrar) g ≡ (err, g')
      → st.global_frozen ≡ false
      → is_frozen E req.email st ≡ true
      → (err ≡ joined_errors (invalid es))
        × IsGuarded g'
        × (let g₁ : Guard E = record g' { state = st } in
            (r : CheckResult) × (check_order E g₁ req at ≡ (returned r, g₁))
            × (r.allowed ≡ false)
            × (r.reason ≡ "trading_frozen"))
  unfolding discover_plugins
  discover_plugins-blocks_frozen bytes decode es g g' err st req at decoded le h e free frozen =
      let (errs, kept) = register_entries-IsGuarded es g le h in
      let ran = register_entries registrar es g in
      let same : Path (Option DiscoverError × Guard E) (joined_errors ran.0, ran.1) (err, g') =
        rw (decoded, discover_plugins) at e in
      let kept' : IsGuarded g' =
        rw (ap (λ (p : Option DiscoverError × Guard E). p.1) same) at kept in
      let g₁ : Guard E = record g' { state = st } in
      (
        sym (ap (λ (p : Option DiscoverError × Guard E). p.0) same) ∙ ap joined_errors errs,
        kept',
        (check_order-kill_switch E req at g₁ kept'.1.0 free kept'.1.1).0 frozen,
      )
