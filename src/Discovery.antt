-- ===== src/Discovery.antt =====
-- plugin_discovery.go: DiscoverPlugins. The file system, the JSON decoder and the registrar are
-- parameters; an error is its text, and a wrapped one keeps what it wraps.
use kite_mcp_riskguard.Prelude.{Option, none, some, List, [], ◌∷◌, String}
use kite_mcp_riskguard.Prelude.Int.{ℤ}
pub mod BestEffort

pub record PluginDiscoveryEntry : Type 0 where
  pub name : String
  pub executable : String
  pub order : ℤ

-- os.ReadFile of the manifest: `missing` is an error that wraps os.ErrNotExist.
pub data ManifestFile (Bytes : Type 0) : Type 0 where
  missing : ManifestFile Bytes
  unreadable : String → ManifestFile Bytes
  contents : Bytes → ManifestFile Bytes

-- json.Unmarshal into the entries.
pub data Decoded : Type 0 where
  malformed : String → Decoded
  entries : List PluginDiscoveryEntry → Decoded

pub data DiscoverError : Type 0 where
  nil_registrar : DiscoverError
  read_manifest : String → DiscoverError
  parse_manifest : String → DiscoverError
  -- errors.Join of the errors of the plugins named
  joined : List (String × String) → DiscoverError

-- A registrar changes the host's state and may return an error.
abbrev pub PluginRegistrar : Type 0 → Type 0
PluginRegistrar Host = String → String → ℤ → Host → Option String × Host

abbrev pub failure : String → Option String → List (String × String) → List (String × String)
failure name none later = later
failure name (some err) later = (name, err) ∷ later

abbrev pub joined_errors : List (String × String) → Option DiscoverError
joined_errors [] = none
joined_errors (e ∷ es) = some (joined (e ∷ es))

module _ {Host : Type 0} where
  -- The loop over the entries: the errors, the first one first, and the host.
  unfoldable pub register_entries :
      PluginRegistrar Host → List PluginDiscoveryEntry → Host → List (String × String) × Host
  register_entries registrar [] host = ([], host)
  register_entries registrar (e ∷ es) host =
      let (err, host') = registrar e.name e.executable e.order host in
      let (errs, end) = register_entries registrar es host' in (failure e.name err errs, end)

  unfoldable pub discover_plugins :
      {Bytes : Type 0}
      → ManifestFile Bytes
      → (Bytes → Decoded)
      → Option (PluginRegistrar Host)
      → Host
      → Option DiscoverError × Host
  discover_plugins file decode none host = (some nil_registrar, host)
  discover_plugins missing decode (some registrar) host = (none, host)
  discover_plugins (unreadable err) decode (some registrar) host = (some (read_manifest err), host)
  discover_plugins (contents data_) decode (some registrar) host = elim (decode data_) [
    | malformed err ↦ (some (parse_manifest err), host)
    | entries es ↦ let (errs, end) = register_entries registrar es host in (joined_errors errs, end)
  ]
