-- ===== src/Subprocess/Concurrent/Orphans.antt =====
-- No process is lost, and what a Close leaves behind.
use kite_mcp_riskguard.Prelude.{
  ℕ, ◌<◌, ◌≡◌, ◌≢◌, refl, true, false, none, some, eqb, arith, Bool-cases, inl, inr,
}
use kite_mcp_riskguard.Subprocess.Concurrent.{
  update, Shared, Pc, tear_down, Move, refuse, enter, reuse, miss, found, launch, launch_fails,
  answer, rpc_error, discard, store, close, System, Step, goes, crash, Steps, here, then_, fresh,
}

-- Every running process is the cached one.
abbrev pub NoOrphan : Shared → Type 0
NoOrphan s = (p : ℕ) → s.alive p ≡ true → s.cached ≡ some p

tear_down-NoOrphan : (s : Shared) → NoOrphan s → NoOrphan (tear_down s)
tear_down-NoOrphan s h p runs = (let old = h p in ground arith)

Move-NoOrphan : {s s' : Shared} {p p' : Pc} → Move s p s' p' → NoOrphan s → NoOrphan s'
Move-NoOrphan (refuse e) h = h
Move-NoOrphan (enter e) h = h
Move-NoOrphan (reuse e) h = h
Move-NoOrphan (miss e) h = h
Move-NoOrphan (found e) h = h
Move-NoOrphan {s = s} (launch e) h = λ p runs. (let old = h p in ground arith)
Move-NoOrphan (launch_fails e) h = h
Move-NoOrphan (answer e) h = h
Move-NoOrphan rpc_error h = h
Move-NoOrphan {s = s} discard h = tear_down-NoOrphan s h
Move-NoOrphan store h = h
Move-NoOrphan {s = s} close h = tear_down-NoOrphan s h

Step-NoOrphan : {c d : System} → Step c d → NoOrphan c.shared → NoOrphan d.shared
Step-NoOrphan (goes i m) h = Move-NoOrphan m h
Step-NoOrphan {c = c} (crash q) h = λ p runs. (let old = h p in ground arith)

Steps-NoOrphan : {c d : System} → Steps c d → NoOrphan c.shared → NoOrphan d.shared
Steps-NoOrphan here h = h
Steps-NoOrphan (then_ r s) h = Step-NoOrphan s (Steps-NoOrphan r h)

-- The cached process has a number that was given out.
abbrev pub IsNumbered : Shared → Type 0
IsNumbered s = (p : ℕ) → s.cached ≡ some p → p < s.next

tear_down-IsNumbered : (s : Shared) → IsNumbered s → IsNumbered (tear_down s)
tear_down-IsNumbered s h p e = (let old = h p in ground arith)

Move-IsNumbered : {s s' : Shared} {p p' : Pc} → Move s p s' p' → IsNumbered s → IsNumbered s'
Move-IsNumbered (refuse e) h = h
Move-IsNumbered (enter e) h = h
Move-IsNumbered (reuse e) h = h
Move-IsNumbered (miss e) h = h
Move-IsNumbered (found e) h = h
Move-IsNumbered (launch e) h = λ p same. ground arith
Move-IsNumbered (launch_fails e) h = λ p same. cc
Move-IsNumbered (answer e) h = h
Move-IsNumbered rpc_error h = h
Move-IsNumbered {s = s} discard h = tear_down-IsNumbered s h
Move-IsNumbered store h = h
Move-IsNumbered {s = s} close h = tear_down-IsNumbered s h

Step-IsNumbered : {c d : System} → Step c d → IsNumbered c.shared → IsNumbered d.shared
Step-IsNumbered (goes i m) h = Move-IsNumbered m h
Step-IsNumbered (crash q) h = h

pub Steps-IsNumbered : {c d : System} → Steps c d → IsNumbered c.shared → IsNumbered d.shared
Steps-IsNumbered here h = h
Steps-IsNumbered (then_ r s) h = Step-IsNumbered s (Steps-IsNumbered r h)

-- No goroutine is between the test of `closed` and the proxy.
abbrev pub IsSettled : Pc → Type 0
IsSettled p = (p ≢ Pc.passed_closed) × (p ≢ Pc.missed)

-- After a Close, with no goroutine on its way to a launch.
abbrev pub IsQuiet : System → Type 0
IsQuiet c = (c.shared.closed ≡ true) × (c.shared.cached ≡ none) × ((i : ℕ) → IsSettled (c.pc i))

tear_down-quiet :
    (s : Shared)
    → s.closed ≡ true
    → s.cached ≡ none
    → ((tear_down s).closed ≡ true) × ((tear_down s).cached ≡ none)
tear_down-quiet s shut empty = (ground arith, ground arith)

Move-quiet :
    {s s' : Shared} {p p' : Pc}
    → Move s p s' p'
    → s.closed ≡ true
    → s.cached ≡ none
    → IsSettled p
    → (s'.closed ≡ true) × (s'.cached ≡ none) × IsSettled p'
Move-quiet (refuse e) shut empty (a, b) = (shut, empty, (λ x. cc, λ x. cc))
Move-quiet (enter e) shut empty (a, b) = cc
Move-quiet (reuse e) shut empty (a, b) = cc
Move-quiet (miss e) shut empty (a, b) = absurd (a refl)
Move-quiet (found e) shut empty (a, b) = cc
Move-quiet (launch e) shut empty (a, b) = absurd (b refl)
Move-quiet (launch_fails e) shut empty (a, b) = absurd (b refl)
Move-quiet (answer e) shut empty (a, b) = (shut, empty, (λ x. cc, λ x. cc))
Move-quiet rpc_error shut empty (a, b) = (shut, empty, (λ x. cc, λ x. cc))
Move-quiet {s = s} discard shut empty (a, b) =
    let (shut', empty') = tear_down-quiet s shut empty in (shut', empty', (λ x. cc, λ x. cc))
Move-quiet store shut empty (a, b) = (refl, empty, (λ x. cc, λ x. cc))
Move-quiet {s = s} close shut empty (a, b) =
    let (shut', empty') = tear_down-quiet s shut empty in (shut', empty', (λ x. cc, λ x. cc))

IsSettled-update :
    (pc : ℕ → Pc) (i : ℕ) (p : Pc) (j : ℕ)
    → IsSettled (pc j)
    → IsSettled p
    → IsSettled (update pc i p j)
IsSettled-update pc i p j h h' = elim (Bool-cases (eqb j i)) [
  | inl same ↦ rw same h'
  | inr other ↦ rw other h
]

Step-IsQuiet : {c d : System} → Step c d → IsQuiet c → IsQuiet d
Step-IsQuiet {c = c} (goes i {p = p} m) (shut, empty, settled) =
    let (shut', empty', here_) = Move-quiet m shut empty (settled i) in
    (shut', empty', λ j. IsSettled-update c.pc i p j (settled j) here_)
Step-IsQuiet (crash q) h = h

Steps-IsQuiet : {c d : System} → Steps c d → IsQuiet c → IsQuiet d
Steps-IsQuiet here h = h
Steps-IsQuiet (then_ r s) h = Step-IsQuiet s (Steps-IsQuiet r h)

-- Some goroutines on a check that was just constructed.
abbrev pub started : (ℕ → Pc) → System
started pc = record { shared = fresh; pc = pc }

-- However the calls of Evaluate and Close interleave, and whenever processes die, from a check that was
-- just constructed: each running process of the check is the cached one, so at most one runs, and
-- its number was given out.
pub started-NoOrphan :
    (pc : ℕ → Pc) (c : System)
    → Steps (started pc) c
    → NoOrphan c.shared
      × ((p q : ℕ) → c.shared.alive p ≡ true → c.shared.alive q ≡ true → p ≡ q)
      × ((p : ℕ) → c.shared.cached ≡ some p → p < c.shared.next)
started-NoOrphan pc c run =
    let kept = Steps-NoOrphan run (λ p runs. cc) in
    (
      kept,
      λ p q x y. (let a = kept p x in let b = kept q y in ground arith),
      Steps-IsNumbered run (λ p runs. cc),
    )

-- Close is final for whoever comes later: once a Close has torn the client down, and no goroutine is
-- between the test of `closed` and its proxy, no process of the check runs, then or ever after.
pub close_is_final :
    (pc : ℕ → Pc) (c d : System) (p : ℕ)
    → Steps (started pc) c
    → IsQuiet c
    → Steps c d
    → (d.shared.alive p ≡ false) × IsQuiet d
close_is_final pc c d p run quiet more =
    let still = Steps-NoOrphan more (Steps-NoOrphan run (λ p runs. cc)) in
    let (shut, empty, settled) = Steps-IsQuiet more quiet in
    (
      (elim (Bool-cases (d.shared.alive p)) [
        | inl runs ↦ let cached = still p runs in cc
        | inr dead ↦ dead
      ]),
      (shut, empty, settled),
    )
