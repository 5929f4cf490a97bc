-- ===== src/Tests/Plugins.antt =====
-- The theorem on plugin discovery at a concrete manifest.
use kite_mcp_riskguard.Prelude.{
  ℕ, suc, ◌≡◌, refl, none, some, List, [], ◌∷◌, String, ◌==◌, map, if◌then◌else◌,
}
use kite_mcp_riskguard.Prelude.Int.{pos}
use kite_mcp_riskguard.Discovery.{
  PluginDiscoveryEntry, PluginRegistrar, contents, entries, joined_errors, discover_plugins,
}
use kite_mcp_riskguard.Discovery.BestEffort.{Attempt, failures, watched, discover_plugins-attempts}

abbrev plugin : String → PluginDiscoveryEntry
plugin n = record { name = n; executable = "/opt/plugins"; order = pos 2000 }

abbrev manifest : List PluginDiscoveryEntry
manifest = plugin "broken" ∷ plugin "volatility" ∷ []

-- Counts the registered plugins.
abbrev registrar : PluginRegistrar ℕ
registrar =
    λ name executable order n. if name == "broken" then (some "no such file", n) else (none, suc n)

abbrev file : String
file = "[]"

discover_plugins-attempts_example :
    let (err, (end, log)) =
      discover_plugins (contents file) (λ b. entries manifest) (some (watched registrar)) (0, []) in
    (map (λ (a : Attempt). a.entry) log ≡ manifest)
    × (err ≡ joined_errors (failures log))
    × (end ≡ (discover_plugins (contents file) (λ b. entries manifest) (some registrar) 0).1)
discover_plugins-attempts_example =
    discover_plugins-attempts registrar file (λ b. entries manifest) manifest 0 refl
