-- ===== src/Tests/Goroutines.antt =====
-- The theorems on concurrent calls at concrete runs.
use kite_mcp_riskguard.Prelude.{
  ℕ, ◌<◌, ◌≡◌, refl, true, false, some, eqb, arith, Bool-cases, inl, inr,
}
use kite_mcp_riskguard.Subprocess.Concurrent.{
  update, Pc, tear_down, launched, enter, miss, launch, store, close, System, moved, goes, Steps,
  here, then_, fresh,
}
use kite_mcp_riskguard.Subprocess.Concurrent.Orphans.{
  NoOrphan, IsQuiet, IsSettled, started, started-NoOrphan, close_is_final,
}
use kite_mcp_riskguard.Subprocess.Concurrent.Races.{launch_outlives_close}

-- Everyone calls Evaluate but for goroutine 1, which calls Close.
abbrev pcs : ℕ → Pc
pcs = update (λ i. Pc.calls) 1 Pc.closes

-- Goroutine 0 finds no proxy.
abbrev looked : System
looked = moved (moved (started pcs) 0 fresh Pc.passed_closed) 0 fresh Pc.missed

looks : Steps (started pcs) looked
looks = then_ (then_ here (goes 0 (enter refl))) (goes 0 (miss refl))

-- It launches.
abbrev running : System
running = moved looked 0 (launched fresh) (Pc.has_proxy 0)

runs : Steps (started pcs) running
runs = then_ looks (goes 0 (launch refl))

started-NoOrphan_example :
    NoOrphan running.shared
    × ((p q : ℕ) → running.shared.alive p ≡ true → running.shared.alive q ≡ true → p ≡ q)
    × ((p : ℕ) → running.shared.cached ≡ some p → p < running.shared.next)
started-NoOrphan_example = started-NoOrphan pcs running runs

-- Goroutine 1 closes.
abbrev down : System
down =
    moved (moved running 1 (record running.shared { closed = true }) Pc.stored) 1
      (tear_down (record running.shared { closed = true })) Pc.closed_down

closed : Steps (started pcs) down
closed = then_ (then_ runs (goes 1 store)) (goes 1 close)

settled : (i : ℕ) → IsSettled (down.pc i)
settled i = elim (Bool-cases (eqb i 1)) [
  | inl one ↦ rw one (λ x. cc, λ x. cc)
  | inr more ↦ (elim (Bool-cases (eqb i 0)) [
    | inl zero_ ↦ rw (more, zero_) (λ x. cc, λ x. cc)
    | inr others ↦ rw (more, others) (λ x. cc, λ x. cc)
  ])
]

close_is_final_example : (down.shared.alive 0 ≡ false) × IsQuiet down
close_is_final_example = close_is_final pcs down down 0 closed (refl, refl, settled) here

launch_outlives_close_example :
    (d : System) × Steps looked d
    × (d.shared.closed ≡ true)
    × (d.pc 1 ≡ Pc.closed_down)
    × (d.pc 0 ≡ Pc.has_proxy 0)
    × (d.shared.alive 0 ≡ true)
launch_outlives_close_example =
    launch_outlives_close looked 0 1 (λ e. omega (arith, e)) refl refl refl
