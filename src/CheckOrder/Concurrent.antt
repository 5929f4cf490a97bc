-- ===== src/CheckOrder/Concurrent.antt =====
-- guard.go: calls of CheckOrder from many goroutines, interleaved in any order with one another and
-- with everything else that uses the guard. A step of a call is what it does between two releases of
-- the guard's lock, but a check's Evaluate, which takes the lock more than once, is one step. A mutex
-- that a panic left locked stops only the call that waits for it.
use Prim.Native.String.{◌++◌ as append}
use kite_mcp_riskguard.Prelude.{
  ℕ, ◌≡◌, Bool, true, false, arith, List, [], ◌∷◌, String, eqb, if◌then◌else◌,
}
use kite_mcp_riskguard.Env.{Env}
use kite_mcp_riskguard.Model.{CheckResult, allow, OrderCheckRequest, State, Reading}
use kite_mcp_riskguard.Lifecycle.{record_rejection, check_auto_freeze}
use kite_mcp_riskguard.Chain.{Eval, result, panicked_locked, Check, Guard}
use kite_mcp_riskguard.CheckOrder.{
  Outcome, returned, hangs, check_panic, frozen_suffix, global_freeze_result,
}
use kite_mcp_riskguard.CheckOrder.Laws.{StopsWith}
pub mod Allowed
pub mod Keys

module _ (E : Env) where
  -- A copy of the chain, which a later registration does not change.
  abbrev pub snapshot_checks : Guard E → List (Check E)
  snapshot_checks g = g.checks

  -- Where a call stands: before the test of the global freeze; past it; with the checks of its snapshot
  -- that are left; with a rejection, before recordRejection and before checkAutoFreeze; at its end.
  pub data Phase : Type 0 where
    enters unfrozen : Phase
    walks : List (Check E) → Phase
    rejected recorded : Check E → CheckResult → Phase
    done : Outcome → Phase

  -- The message after checkAutoFreeze, and the state it leaves.
  abbrev pub noted : CheckResult → Bool × State E → CheckResult
  noted r (frozen, st) = if frozen then record r { message = append r.message frozen_suffix } else r

  pub noted_keeps_allowed :
      (r : CheckResult) (after : Bool × State E) → (noted r after).allowed ≡ r.allowed
  noted_keeps_allowed r after = ground arith

  module _ (req : OrderCheckRequest E) where
    abbrev pub key : String
    key = E.to_lower req.email

    -- A call's steps.
    pub data Move (g : Guard E) : Phase → Guard E → Phase → Type 0 where
      blocked :
          g.state.global_frozen ≡ true → Move g enters g (done (returned global_freeze_result))
      passes : g.state.global_frozen ≡ false → Move g enters g unfrozen
      snapshot : Move g unfrozen g (walks (snapshot_checks g))
      allows :
          (c : Check E) {cs : List (Check E)} (now : Reading) (r : CheckResult) {st : State E}
          → c.evaluate req now g.state ≡ (result r, st)
          → r.allowed ≡ true
          → Move g (walks (c ∷ cs)) (record g { state = st }) (walks cs)
      finishes : Move g (walks []) g (done (returned allow))
      stops :
          (c : Check E) {cs : List (Check E)} (now : Reading) (e : Eval) {r : CheckResult}
          {st : State E}
          → c.evaluate req now g.state ≡ (e, st)
          → StopsWith E req c e r
          → Move g (walks (c ∷ cs)) (record g { state = st }) (rejected c r)
      stops_locked :
          (c : Check E) {cs : List (Check E)} (now : Reading) (v : String) {st : State E}
          → c.evaluate req now g.state ≡ (panicked_locked v, st)
          → Move g
              (walks (c ∷ cs))
              (record g { state = st })
              (done (if c.record_on_rejection then hangs else returned (check_panic E c v)))
      returns :
          {c : Check E} {r : CheckResult}
          → c.record_on_rejection ≡ false
          → Move g (rejected c r) g (done (returned r))
      records :
          {c : Check E} {r : CheckResult} (now : Reading)
          → c.record_on_rejection ≡ true
          → Move g
              (rejected c r)
              (record g { state = record_rejection E key r.reason now.wall g.state })
              (recorded c r)
      breaks :
          {c : Check E} {r : CheckResult} (now : Reading)
          → Move g
              (recorded c r)
              (record g { state = (check_auto_freeze E key now.wall g.state).1 })
              (done (returned (noted r (check_auto_freeze E key now.wall g.state))))

  pub record System : Type 0 where
    pub guard : Guard E
    pub phase : ℕ → Phase

  abbrev pub set_phase : (ℕ → Phase) → ℕ → Phase → ℕ → Phase
  set_phase f i p j = if eqb j i then p else f j

  abbrev pub moved : System → ℕ → Guard E → Phase → System
  moved x i g p = record { guard = g; phase = set_phase x.phase i p }

  -- The i-th call is of the i-th request.
  module _ (reqs : ℕ → OrderCheckRequest E) where
    pub data Step (x : System) : System → Type 0 where
      goes :
          (i : ℕ) {g : Guard E} {p : Phase}
          → Move (reqs i) x.guard (x.phase i) g p
          → Step x (moved x i g p)
      -- Anything else that changes the guard: an admin's freeze, a registration, an order that is recorded.
      changes : (g : Guard E) → Step x (record x { guard = g })

    pub data Steps (x : System) : System → Type 0 where
      here : Steps x x
      then_ : {y z : System} → Steps x y → Step y z → Steps x z

    -- One run and then another.
    abbrev pub followed_by : {x y z : System} → Steps x y → Steps y z → Steps x z
    followed_by r here = r
    followed_by r (then_ q s) = then_ (followed_by r q) s
