-- ===== src/Subprocess/Concurrent/Races.antt =====
-- Two interleavings that the lock does not rule out.
use mathlib.Core.Path.{subst}
use kite_mcp_riskguard.Prelude.{
  ℕ, ◌<◌, ◌≡◌, ◌≢◌, refl, sym, ◌∙◌, true, false, none, some, eqb, arith, Bool-cases, inl, inr,
}
use kite_mcp_riskguard.Subprocess.Concurrent.Orphans.{started, Steps-IsNumbered}
use kite_mcp_riskguard.Subprocess.Concurrent.{
  update, Shared, Pc, tear_down, launched, Move, refuse, enter, reuse, miss, found, launch,
  launch_fails, answer, rpc_error, discard, store, close, System, moved, Step, goes, crash, Steps,
  here, then_,
}

update_same {ℓ} : {A : Type ℓ} (f : ℕ → A) (i : ℕ) (a : A) → update f i a i ≡ a
update_same f i a = ground arith

update_other {ℓ} : {A : Type ℓ} (f : ℕ → A) (i j : ℕ) (a : A) → j ≢ i → update f i a j ≡ f j
update_other f i j a h = ground arith

tear_down_empty : (s : Shared) → s.cached ≡ none → tear_down s ≡ s
tear_down_empty s e = ground arith

-- One goroutine's step, given where it stands.
go :
    {b : System} (c : System) (i : ℕ) (p : Pc) {s : Shared} {p' : Pc}
    → Steps b c
    → c.pc i ≡ p
    → Move c.shared p s p'
    → Steps b (moved c i s p')
go c i p r e m = then_ r (goes i (rw e m))

-- Close does not stop a call that is past the test of `closed`. Wherever a call has found no proxy,
-- nothing is cached, and another goroutine is about to close, that Close can run to its end and the
-- call can then launch a process: the check is closed, Close has returned, and the process runs.
pub launch_outlives_close :
    (c : System) (i j : ℕ)
    → i ≢ j
    → c.pc i ≡ Pc.missed
    → c.pc j ≡ Pc.closes
    → c.shared.cached ≡ none
    → (d : System) × Steps c d
      × (d.shared.closed ≡ true)
      × (d.pc j ≡ Pc.closed_down)
      × (d.pc i ≡ Pc.has_proxy c.shared.next)
      × (d.shared.alive c.shared.next ≡ true)
launch_outlives_close c i j differ at_i at_j empty =
    let s₁ : Shared = record c.shared { closed = true } in
    let c₁ = moved c j s₁ Pc.stored in
    let r₁ : Steps c c₁ = go c j Pc.closes here at_j store in
    let c₂ = moved c₁ j s₁ Pc.closed_down in
    let r₂ : Steps c c₂ =
      subst (λ s. Steps c (moved c₁ j s Pc.closed_down)) (tear_down_empty s₁ empty)
        (go c₁ j Pc.stored r₁ (update_same c.pc j Pc.stored) close) in
    let waits : c₂.pc i ≡ Pc.missed =
      update_other c₁.pc j i Pc.closed_down differ
      ∙ update_other c.pc j i Pc.stored differ
      ∙ at_i in
    (
      moved c₂ i (launched s₁) (Pc.has_proxy c.shared.next),
      go c₂ i Pc.missed r₂ waits (launch empty),
      refl,
      update_other c₂.pc i j (Pc.has_proxy c.shared.next) (λ e. differ (sym e))
          ∙ update_same c₁.pc j Pc.closed_down,
      update_same c₂.pc i (Pc.has_proxy c.shared.next),
      update_same c.shared.alive c.shared.next true,
    )

-- Where a call stands that was given the process q and has not answered.
abbrev pub IsLost : ℕ → Pc → Type 0
IsLost q (Pc.has_proxy p) = p ≡ q
IsLost q Pc.failed = Unit
IsLost q (Pc.done answered) = answered ≡ false
IsLost q _ = ⊥

-- It is lost, and its process is gone for good.
abbrev pub IsDoomed : ℕ → ℕ → System → Type 0
IsDoomed j q c = (c.shared.alive q ≡ false) × (q < c.shared.next) × IsLost q (c.pc j)

Move-gone :
    {s s' : Shared} {p p' : Pc} (q : ℕ)
    → Move s p s' p'
    → s.alive q ≡ false
    → q < s.next
    → (s'.alive q ≡ false) × (q < s'.next)
Move-gone q (refuse e) dead old = (dead, old)
Move-gone q (enter e) dead old = (dead, old)
Move-gone q (reuse e) dead old = (dead, old)
Move-gone q (miss e) dead old = (dead, old)
Move-gone q (found e) dead old = (dead, old)
Move-gone q (launch e) dead old = (ground arith, ground arith)
Move-gone q (launch_fails e) dead old = (ground arith, ground arith)
Move-gone q (answer e) dead old = (dead, old)
Move-gone q rpc_error dead old = (dead, old)
Move-gone q discard dead old = (ground arith, ground arith)
Move-gone q store dead old = (dead, old)
Move-gone q close dead old = (ground arith, ground arith)

Move-IsLost :
    {s s' : Shared} {p p' : Pc} (q : ℕ)
    → Move s p s' p'
    → s.alive q ≡ false
    → IsLost q p
    → IsLost q p'
Move-IsLost q (refuse e) dead no_ = absurd no_
Move-IsLost q (enter e) dead no_ = absurd no_
Move-IsLost q (reuse e) dead no_ = absurd no_
Move-IsLost q (miss e) dead no_ = absurd no_
Move-IsLost q (found e) dead no_ = absurd no_
Move-IsLost q (launch e) dead no_ = absurd no_
Move-IsLost q (launch_fails e) dead no_ = absurd no_
Move-IsLost q (answer e) dead same = cc
Move-IsLost q rpc_error dead same = tt
Move-IsLost q discard dead same = refl
Move-IsLost q store dead no_ = absurd no_
Move-IsLost q close dead no_ = absurd no_

IsLost-update :
    (q i j : ℕ) (pc : ℕ → Pc) (p : Pc)
    → IsLost q (pc j)
    → ((i ≡ j) → IsLost q p)
    → IsLost q (update pc i p j)
IsLost-update q i j pc p h h' = elim (Bool-cases (eqb j i)) [
  | inl same ↦ rw same (h' (ground arith))
  | inr other ↦ rw other h
]

Step-IsDoomed : {c d : System} (j q : ℕ) → Step c d → IsDoomed j q c → IsDoomed j q d
Step-IsDoomed {c = c} j q (goes i {p = p} m) (dead, old, lost) =
    let (dead', old') = Move-gone q m dead old in
    (dead', old', IsLost-update q i j c.pc p lost (λ e. Move-IsLost q m dead (rw e lost)))
Step-IsDoomed j q (crash p) (dead, old, lost) = (ground arith, old, lost)

Steps-IsDoomed : {c d : System} (j q : ℕ) → Steps c d → IsDoomed j q c → IsDoomed j q d
Steps-IsDoomed j q here h = h
Steps-IsDoomed j q (then_ r s) h = Step-IsDoomed j q s (Steps-IsDoomed j q r h)

-- The teardown after an RPC error does not ask which process failed. Where the call of i failed, even
-- on a process of the past, while the call of j is with the cached process q, the teardown of i takes
-- q down, whatever its state, and whatever follows, the call of j never answers.
pub discard_takes_healthy :
    (pc : ℕ → Pc) (c d : System) (i j q : ℕ)
    → Steps (started pc) c
    → c.pc i ≡ Pc.failed
    → c.pc j ≡ Pc.has_proxy q
    → c.shared.cached ≡ some q
    → Steps (moved c i (tear_down c.shared) (Pc.done false)) d
    → (d.pc j ≢ Pc.done true) × Step c (moved c i (tear_down c.shared) (Pc.done false))
discard_takes_healthy pc c d i j q run at_i at_j cached more =
    let old : q < c.shared.next = Steps-IsNumbered run (λ p e. cc) q cached in
    let c' = moved c i (tear_down c.shared) (Pc.done false) in
    let doomed : IsDoomed j q c' = (
      ground arith,
      ground arith,
      IsLost-update q i j c.pc (Pc.done false) (rw at_j refl) (λ e. refl),
    ) in
    let (_, _, lost) = Steps-IsDoomed j q more doomed in
    (
      λ answered. (let l : true ≡ false = subst (IsLost q) answered lost in cc),
      goes i (rw at_i discard),
    )
