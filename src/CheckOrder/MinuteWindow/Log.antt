-- ===== src/CheckOrder/MinuteWindow/Log.antt =====
-- The rate limit as a log of the recorded orders.
use kite_mcp_riskguard.Prelude.{
  ◌≤◌, ◌≡◌, refl, sym, ap, ◌∙◌, Bool, true, not, Option, some, none, List, [], ◌∷◌, ◌++◌, String,
  arith, length, All, All-append, All-map,
}
use kite_mcp_riskguard.Prelude.Int.{ℤ, pos, leb_ℤ}
use kite_mcp_riskguard.Prelude.Dict.{lookup}
use kite_mcp_riskguard.Env.{Env, Time}
use kite_mcp_riskguard.Model.{OrderCheckRequest, UserLimits, State, Reading}
use kite_mcp_riskguard.Limits.{get_effective_limits}
use kite_mcp_riskguard.Lifecycle.{prune}
use kite_mcp_riskguard.Lifecycle.Pruning.{
  count_since, minute_ago, AscendsFrom, length-prune, prune-prune, AscendsFrom-append,
}
use kite_mcp_riskguard.Lifecycle.AutoFreeze.{prune-append}
use kite_mcp_riskguard.Checks.Rates.{check_rate_limit}
use kite_mcp_riskguard.CheckOrder.{record_order}
use kite_mcp_riskguard.CheckOrder.DailyCap.{same_effective}
use kite_mcp_riskguard.CheckOrder.MinuteWindow.{held, check_rate_limit-held, record_order-held}

module _ (E : Env) where
  -- What happens to one user's orders: one is placed, or one is checked against the rate limit.
  pub data Event : Type 0 where
    placed : (req : Option (OrderCheckRequest E)) → (now : Reading) → Event
    checked : (now : Reading) → Event

  abbrev pub instant : Event → Time
  instant (placed req now) = now.wall
  instant (checked now) = now.wall

  -- The answers of the rate limit, true for an allowed order. `none`: RecordOrder panicked.
  unfoldable pub answers : String → List Event → State E → Option (List Bool)
  answers email [] st = some []
  answers email (placed req now ∷ es) st = elim (record_order E email req now st) [
    | none ↦ none
    | some st' ↦ answers email es st'
  ]
  answers email (checked now ∷ es) st =
      let (r, st') = check_rate_limit E (E.to_lower email) now st in
      let rest = answers email es st' in
      (elim rest [ none ↦ none | some bs ↦ some (r.allowed ∷ bs) ])

  -- The same of a log of all placed orders, which forgets nothing.
  abbrev pub answers_of_log : ℤ → List Event → List Time → List Bool
  answers_of_log cap [] log = []
  answers_of_log cap (placed req now ∷ es) log = answers_of_log cap es (log ++ now.wall ∷ [])
  answers_of_log cap (checked now ∷ es) log =
      not (leb_ℤ cap (pos (count_since (minute_ago now.wall) log))) ∷ answers_of_log cap es log

  abbrev pub Ascends : Time → List Event → Type 0
  Ascends from [] = Unit
  Ascends from (e ∷ es) = (from ≤ instant e) × Ascends (instant e) es

  -- The tracker holds the log but for orders that are past every later window.
  record Tracks (log : List Time) (from : Time) (kept : List Time) : Type 0 where
    cutoff : Time
    passed : cutoff ≤ minute_ago from
    pruned : kept ≡ prune cutoff log
    ascends : AscendsFrom 0 log
    bounded : All (λ t. t ≤ from) log

  placed-Tracks :
      (log : List Time) (from t : Time) (kept : List Time)
      → from ≤ t
      → Tracks log from kept
      → Tracks (log ++ t ∷ []) t (kept ++ t ∷ [])
  placed-Tracks log from t kept le h =
      let later : All (λ u. u ≤ t) log = All-map (λ u (p : u ≤ from). omega arith) log h.bounded in
      record {
        cutoff = h.cutoff;
        passed = (let p = h.passed in omega (arith, p));
        pruned =
            ap (λ l. l ++ t ∷ []) h.pruned
            ∙ sym (prune-append h.cutoff log (t ∷ []) ((let p = h.passed in omega (arith, p)), tt));
        ascends = AscendsFrom-append 0 t log h.ascends (omega arith) later;
        bounded = All-append (λ u. u ≤ t) log (t ∷ []) later (omega arith, tt);
      }

  checked-Tracks :
      (log : List Time) (from t : Time) (kept : List Time)
      → from ≤ t
      → Tracks log from kept
      → Tracks log t (prune (minute_ago t) kept)
        × (length (prune (minute_ago t) kept) ≡ count_since (minute_ago t) log)
  checked-Tracks log from t kept le h =
      let pruned : prune (minute_ago t) kept ≡ prune (minute_ago t) log =
        ap (prune (minute_ago t)) h.pruned
        ∙ prune-prune h.cutoff (minute_ago t) log (let p = h.passed in omega (arith, p)) in
      (
        record {
          cutoff = minute_ago t;
          passed = omega arith;
          pruned = pruned;
          ascends = h.ascends;
          bounded = All-map (λ u (p : u ≤ from). omega arith) log h.bounded;
        },
        ap length pruned ∙ length-prune (minute_ago t) 0 log h.ascends,
      )

  answers_lem :
      (email : String) (es : List Event) (st : State E) (log : List Time) (from : Time)
      → E.tzdata ≡ true
      → Tracks log from (held E (E.to_lower email) st)
      → Ascends from es
      → answers email es st
        ≡ some (
            answers_of_log
              (get_effective_limits E (E.to_lower email) st).max_orders_per_minute
              es
              log)
  unfolding answers
  answers_lem email [] st log from tz h up = refl
  answers_lem email (placed req now ∷ es) st log from tz h (le, up) =
      let (st', e, kept, limits) = record_order-held E email req now st tz in
      let more : Tracks (log ++ now.wall ∷ []) now.wall (held E (E.to_lower email) st') =
        rw kept (placed-Tracks log from now.wall (held E (E.to_lower email) st) le h) in
      let same = same_effective E (E.to_lower email) st st' limits in
      rw (e, answers)
        (answers_lem email es st' (log ++ now.wall ∷ []) now.wall tz more up
          ∙ ap
              (λ (l : UserLimits E).
                some (answers_of_log l.max_orders_per_minute es (log ++ now.wall ∷ [])))
              same)
  answers_lem email (checked now ∷ es) st log from tz h (le, up) =
      let key = E.to_lower email in
      let (verdict, kept, limits) = check_rate_limit-held E key now st in
      let (r, st') = check_rate_limit E key now st in
      let (h', counted) = checked-Tracks log from now.wall (held E key st) le h in
      let more : Tracks log now.wall (held E key st') = rw kept h' in
      let same = same_effective E key st st' limits in
      let ih = answers_lem email es st' log now.wall tz more up in
      rw (ih, verdict, counted, same) refl

  -- The rate limit is a sliding window over all orders ever placed. However a user's orders and rate
  -- checks follow one another, at instants that do not go back and from a state without a tracker of
  -- the user, every RecordOrder returns, and each check answers as a log that forgets nothing: it
  -- rejects exactly if the orders placed at most a minute before it reach the user's limit. The
  -- entries that checks and the day's reset drop are never missed. The zone is there.
  pub check_rate_limit-refines :
      (email : String) (es : List Event) (st : State E)
      → E.tzdata ≡ true
      → lookup (E.to_lower email) st.trackers ≡ none
      → Ascends 0 es
      → answers email es st
        ≡ some (
            answers_of_log
              (get_effective_limits E (E.to_lower email) st).max_orders_per_minute
              es
              [])
  check_rate_limit-refines email es st tz fresh up =
      let start : Tracks [] 0 [] = record {
        cutoff = 0;
        passed = omega arith;
        pruned = unfold prune in refl;
        ascends = tt;
        bounded = tt;
      } in
      answers_lem email es st [] 0 tz (rw fresh start) up
