-- ===== src/Subprocess/Registration.antt =====
-- subprocess_check.go: Validate, RegisterSubprocessCheck with its SBOM variant, and the subprocess
-- check as a check of the chain. Its fields, which the chain shares by a pointer, are a cell of a heap
-- that is part of the world.
use Prim.Native.String.{◌++◌ as append}
use kite_mcp_riskguard.Prelude.{
  ◌≡◌, ◌≢◌, ◌↔◌, false, Option, none, some, [], ◌∷◌, String, ◌==◌, eq_iff, if◌then◌else◌,
  Bool-cases, inl, inr, arith,
}
use kite_mcp_riskguard.Prelude.Int.{ℤ}
use kite_mcp_riskguard.Env.{Env, text}
use kite_mcp_riskguard.Model.{CheckResult, State}
use kite_mcp_riskguard.Chain.{Eval, result, panicked, Check, Guard, register_check}
use kite_mcp_riskguard.Subprocess.{
  SubprocessCheckConfig, ok, error, Host, SubprocessCheck, new_subprocess_check, evaluate,
}

module _ (E : Env) where
  -- The error of a configuration, if any.
  unfoldable pub validate : SubprocessCheckConfig → Option String
  validate c =
      if c.name == ""
      then some "riskguard: subprocess check Name is empty"
      else if c.executable == ""
      then some
          (E.sprintf "riskguard: subprocess check %q has empty Executable path" (text c.name ∷ []))
      else none

  -- Where the subprocess checks live, and what surrounds them.
  pub record Heap (H : Host E.Float) : Type 1 where
    pub Cell : Type 0
    pub alloc : SubprocessCheck H → E.World → Cell × E.World
    pub load : Cell → E.World → SubprocessCheck H
    pub host : E.World → H.S
    pub store : Cell → SubprocessCheck H × H.S → E.World → E.World

  -- `emit(name, executable, checksum, err)`
  abbrev pub SubprocessChecksumEmitter : Type 0
  SubprocessChecksumEmitter = String → String → String → Option String → E.World → E.World

  module _ (H : Host E.Float) (heap : Heap H) where
    abbrev nil_dereference : String
    nil_dereference = "runtime error: invalid memory address or nil pointer dereference"

    abbrev evaluated :
        heap.Cell → State E → Option (CheckResult × (SubprocessCheck H × H.S)) → Eval × State E
    evaluated cell st none = (panicked nil_dereference, st)
    evaluated cell st (some (r, sh)) = (result r, record st { world = heap.store cell sh st.world })

    -- The methods of the interface Check on a pointer to a SubprocessCheck.
    abbrev pub subprocess_check : SubprocessCheckConfig → heap.Cell → Check E
    subprocess_check cfg cell = record {
      name = cfg.name;
      order = cfg.order;
      record_on_rejection = cfg.record_on_rejection;
      evaluate = λ req now st.
          evaluated cell st (evaluate E H req (heap.load cell st.world) (heap.host st.world));
    }

    abbrev pub config : String → String → ℤ → SubprocessCheckConfig
    config name executable order = record {
      name = name;
      order = order;
      record_on_rejection = false;
      executable = executable;
      args = [];
    }

    unfoldable pub register_subprocess_check :
        String → String → ℤ → Guard E → Option String × Guard E
    register_subprocess_check name executable order g =
        let cfg = config name executable order in
        elim (validate cfg) [
          | some err ↦ (some err, g)
          | none ↦
              let (cell, w) = heap.alloc (new_subprocess_check H cfg) g.state.world in
              (
                none,
                register_check E (subprocess_check cfg cell)
                    (record g { state = record g.state { world = w } }),
              )
        ]

    -- The checksum and the error.
    unfoldable pub checksum_executable : String → H.S → String × Option String
    checksum_executable path h = elim (H.open_file path h) [
      | error err ↦ ("", some (append "checksumExecutable: open " (append path (append ": " err))))
      | ok f ↦ (elim (H.sha256_hex_of f h) [
        | error err ↦
            ("", some (append "checksumExecutable: hash " (append path (append ": " err))))
        | ok hex ↦ (append "sha256:" hex, none)
      ])
    ]

    abbrev emitted :
        String → String → String × Option String → SubprocessChecksumEmitter → E.World → E.World
    emitted name executable (checksum, err) emit w = emit name executable checksum err w

    -- `none`: a nil emitter.
    unfoldable pub register_subprocess_check_with_sbom :
        String → String → ℤ → Option SubprocessChecksumEmitter → Guard E → Option String × Guard E
    register_subprocess_check_with_sbom name executable order none g =
        register_subprocess_check name executable order g
    register_subprocess_check_with_sbom name executable order (some emit) g =
        let w = g.state.world in
        let w' = emitted name executable (checksum_executable executable (heap.host w)) emit w in
        register_subprocess_check name executable order
          (record g { state = record g.state { world = w' } })

  -- A configuration is in order exactly if it has a name and an executable.
  pub validate_iff :
      (c : SubprocessCheckConfig) → (validate c ≡ none) ↔ ((c.name ≢ "") × (c.executable ≢ ""))
  unfolding validate
  validate_iff c =
      let named = eq_iff c.name "" in
      let placed = eq_iff c.executable "" in
      elim (Bool-cases (c.name == "")) [
        | inl bad ↦ (λ e. ground arith, λ (x, y). absurd (x (named.0 bad)))
        | inr good ↦ (elim (Bool-cases (c.executable == "")) [
          | inl bad ↦ (λ e. ground arith, λ (x, y). absurd (y (placed.0 bad)))
          | inr fine ↦ (
            λ e. (λ x. (let same = named.1 x in cc), λ x. (let same = placed.1 x in cc)),
            λ _. ground arith,
          )
        ])
      ]
