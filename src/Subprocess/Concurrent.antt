-- ===== src/Subprocess/Concurrent.antt =====
-- subprocess_check.go: calls of Evaluate and of Close on one SubprocessCheck from many goroutines,
-- interleaved in any order. A step is what runs under one lock, or one atomic operation, or the RPC
-- call, for which no lock is held. The client and the proxy are one process, under a fresh number.
use kite_mcp_riskguard.Prelude.{
  ℕ, suc, ◌+◌, ◌≡◌, Bool, true, false, Option, none, some, eqb, if◌then◌else◌,
}
pub mod Orphans
pub mod Races
pub mod Sequential

abbrev pub update {ℓ} : {A : Type ℓ} → (ℕ → A) → ℕ → A → ℕ → A
update f i a j = if eqb j i then a else f j

-- What the goroutines share, and the processes that run.
pub record Shared : Type 0 where
  pub closed : Bool
  pub cached : Option ℕ
  pub next : ℕ
  pub alive : ℕ → Bool

-- Where a goroutine stands. Of Evaluate: before the test of `closed`; past it; past the reader lock
-- with no proxy seen; with the proxy of a process; after an RPC error; done, and whether it answered.
-- Of Close: before its store; before its teardown; done.
pub data Pc : Type 0 where
  calls passed_closed missed failed : Pc
  has_proxy : ℕ → Pc
  done : (answered : Bool) → Pc
  closes stored closed_down : Pc

-- `if s.client != nil { … }`, the critical section of discardClient and of Close.
abbrev pub tear_down : Shared → Shared
tear_down s = elim s.cached [
  | none ↦ s
  | some p ↦ record s { cached = none; alive = update s.alive p false }
]

-- launchLocked: the fresh process runs and is cached, or it is killed again.
abbrev pub launched : Shared → Shared
launched s = record s {
  cached = some s.next;
  next = suc s.next;
  alive = update s.alive s.next true;
}

abbrev pub launch_failed : Shared → Shared
launch_failed s = record s { next = suc s.next }

-- A goroutine's steps.
pub data Move (s : Shared) : Pc → Shared → Pc → Type 0 where
  refuse : s.closed ≡ true → Move s calls s (done false)
  enter : s.closed ≡ false → Move s calls s passed_closed
  -- ensureProxy, under the reader lock
  reuse : {p : ℕ} → s.cached ≡ some p → Move s passed_closed s (has_proxy p)
  miss : s.cached ≡ none → Move s passed_closed s missed
  -- ensureProxy, under the writer lock
  found : {p : ℕ} → s.cached ≡ some p → Move s missed s (has_proxy p)
  launch : s.cached ≡ none → Move s missed (launched s) (has_proxy s.next)
  launch_fails : s.cached ≡ none → Move s missed (launch_failed s) (done false)
  -- the RPC call
  answer : {p : ℕ} → s.alive p ≡ true → Move s (has_proxy p) s (done true)
  rpc_error : {p : ℕ} → Move s (has_proxy p) s failed
  discard : Move s failed (tear_down s) (done false)
  store : Move s closes (record s { closed = true }) stored
  close : Move s stored (tear_down s) closed_down

pub record System : Type 0 where
  pub shared : Shared
  pub pc : ℕ → Pc

abbrev pub moved : System → ℕ → Shared → Pc → System
moved c i s p = record { shared = s; pc = update c.pc i p }

abbrev pub crashed : System → ℕ → System
crashed c p = record c { shared = record c.shared { alive = update c.shared.alive p false } }

pub data Step (c : System) : System → Type 0 where
  goes : (i : ℕ) {s : Shared} {p : Pc} → Move c.shared (c.pc i) s p → Step c (moved c i s p)
  -- A process dies by itself.
  crash : (p : ℕ) → Step c (crashed c p)

pub data Steps (c : System) : System → Type 0 where
  here : Steps c c
  then_ : {d e : System} → Steps c d → Step d e → Steps c e

-- A check that was just constructed, with some goroutines that call Evaluate and Close.
abbrev pub fresh : Shared
fresh = record { closed = false; cached = none; next = 0; alive = λ p. false }
