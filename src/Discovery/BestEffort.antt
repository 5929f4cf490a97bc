-- ===== src/Discovery/BestEffort.antt =====
-- One broken plugin does not block the others.
use kite_mcp_riskguard.Prelude.{
  ◌≡◌, refl, sym, ap, ◌∙◌, Option, some, List, [], ◌∷◌, ◌++◌, String, map,
}
use mathlib.Core.List.{append_assoc, append-nil}
use kite_mcp_riskguard.Discovery.{
  PluginDiscoveryEntry, PluginRegistrar, contents, Decoded, entries, failure, register_entries,
  joined_errors, discover_plugins,
}

-- A call of the registrar, and what it returned.
pub record Attempt : Type 0 where
  pub entry : PluginDiscoveryEntry
  pub returned : Option String

abbrev pub failures : List Attempt → List (String × String)
failures [] = []
failures (a ∷ as_) = failure a.entry.name a.returned (failures as_)

module _ {Host : Type 0} where
  -- The registrar with a log of its calls.
  abbrev pub watched : PluginRegistrar Host → PluginRegistrar (Host × List Attempt)
  watched registrar name executable order (host, log) =
      let (err, host') = registrar name executable order host in
      let e : PluginDiscoveryEntry = record {
        name = name;
        executable = executable;
        order = order;
      } in
      (err, (host', log ++ record { entry = e; returned = err } ∷ []))

  record Watched (registrar : PluginRegistrar Host) (es : List PluginDiscoveryEntry) (host : Host)
      (log : List Attempt) : Type 0 where
    attempts : List Attempt
    logged : (register_entries (watched registrar) es (host, log)).1.1 ≡ log ++ attempts
    each_once : map (λ (a : Attempt). a.entry) attempts ≡ es
    reported : (register_entries (watched registrar) es (host, log)).0 ≡ failures attempts
    same_host :
        (register_entries (watched registrar) es (host, log)).1.0
        ≡ (register_entries registrar es host).1

  register_entries-Watched :
      (registrar : PluginRegistrar Host) (es : List PluginDiscoveryEntry) (host : Host)
      (log : List Attempt)
      → Watched registrar es host log
  unfolding register_entries
  register_entries-Watched registrar [] host log = record {
    attempts = [];
    logged = sym (append-nil log);
    each_once = refl;
    reported = refl;
    same_host = refl;
  }
  register_entries-Watched registrar (e ∷ es) host log =
      let (err, host') = registrar e.name e.executable e.order host in
      let a : Attempt = record { entry = e; returned = err } in
      let more = register_entries-Watched registrar es host' (log ++ a ∷ []) in
      record {
        attempts = a ∷ more.attempts;
        logged = more.logged ∙ append_assoc log (a ∷ []) more.attempts;
        each_once = ap (λ l. e ∷ l) more.each_once;
        reported = ap (failure e.name err) more.reported;
        same_host = more.same_host;
      }

  -- A manifest that decodes to some entries has every entry registered, once and in order, whatever
  -- the registrar answers for the others: a log of the registrar's calls holds exactly the entries,
  -- the host ends as without the log, and the error joins exactly the errors of the calls, or is
  -- none if none failed.
  pub discover_plugins-attempts :
      {Bytes : Type 0} (registrar : PluginRegistrar Host) (bytes : Bytes) (decode : Bytes → Decoded)
      (es : List PluginDiscoveryEntry) (host : Host)
      → decode bytes ≡ entries es
      → let (err, (end, log)) =
          discover_plugins (contents bytes) decode (some (watched registrar)) (host, []) in
        (map (λ (a : Attempt). a.entry) log ≡ es)
        × (err ≡ joined_errors (failures log))
        × (end ≡ (discover_plugins (contents bytes) decode (some registrar) host).1)
  unfolding discover_plugins
  discover_plugins-attempts registrar bytes decode es host e =
      let w = register_entries-Watched registrar es host [] in
      rw (e, discover_plugins)
        (
          ap (map (λ (a : Attempt). a.entry)) w.logged ∙ w.each_once,
          ap joined_errors (w.reported ∙ ap failures (sym w.logged)),
          w.same_host,
        )
