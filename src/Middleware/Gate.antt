-- ===== src/Middleware/Gate.antt =====
-- The gate in front of the order tools.
use Prim.Native.String.{◌++◌ as append}
use mathlib.Core.Path.{subst}
use kite_mcp_riskguard.Prelude.{
  ℕ, ◌+◌, ◌<◌, ◌≡◌, ◌≢◌, ◌↔◌, refl, sym, ap, ◌∙◌, Bool, true, false, Option, none, some, [], ◌∷◌,
  ◌++◌, String, eq_iff, arith, Bool-cases, inl, inr,
}
use kite_mcp_riskguard.Prelude.Int.{pos, int64_small, ◌+ℤ◌, two_63}
use kite_mcp_riskguard.Env.{Env}
use kite_mcp_riskguard.Model.{CheckResult, OrderCheckRequest, Reading, UserTracker}
use kite_mcp_riskguard.Chain.{Guard}
use kite_mcp_riskguard.CheckOrder.{Outcome, returned, hangs, Readings, check_order, count_order}
use kite_mcp_riskguard.Prelude.Dict.{lookup}
use kite_mcp_riskguard.CheckOrder.DailyCap.{SameDay, record_order-kept}
use kite_mcp_riskguard.Trackers.DayReset.{Passes, not_Passes}
use kite_mcp_riskguard.Middleware.{
  is_order_tool, ToolCall, Handler, Reply, blocked, forwarded, never, rejection_message, request_of,
  succeeded, after_next, after_check, middleware,
}

module _ (E : Env) (translate : String → String) {Response : Type 0}
    (is_error : Response → Bool) where
  abbrev pub run :
      Handler E Response
      → String
      → ToolCall E
      → Readings
      → Reading
      → Guard E
      → Reply Response × Guard E
  run next email call at now g = middleware E translate is_error next email call at now g

  -- An order tool's call of a known user goes through CheckOrder.
  gated :
      (next : Handler E Response) (email : String) (call : ToolCall E) (at : Readings)
      (now : Reading) (g : Guard E)
      → is_order_tool call.name ≡ true
      → email ≢ ""
      → run next email call at now g
        ≡ after_check E translate is_error next email call
            (request_of E email call)
            now
            (check_order E g (request_of E email call) at)
  unfolding middleware
  gated next email call at now g tool known = ground (arith, eq_iff email "")

  -- The reply to an order that CheckOrder did not allow: a tool error with the reason and the message, or
  -- none where CheckOrder hangs.
  abbrev pub Refuses : Outcome → Reply Response → Type 0
  Refuses hangs reply = reply ≡ never
  Refuses (returned r) reply =
      reply
      ≡ blocked (
          append "ORDER BLOCKED ["
            (append r.reason (append "]: " (rejection_message E translate r))))

  after_check-stopped :
      (next next' : Handler E Response) (email : String) (call : ToolCall E)
      (req : OrderCheckRequest E) (now : Reading) (o : Outcome) (g : Guard E)
      → ((r : CheckResult) → o ≡ returned r → r.allowed ≡ false)
      → (after_check E translate is_error next email call req now (o, g)
          ≡ after_check E translate is_error next' email call req now (o, g))
        × ((after_check E translate is_error next email call req now (o, g)).1 ≡ g)
        × Refuses o (after_check E translate is_error next email call req now (o, g)).0
  unfolding after_check
  after_check-stopped next next' email call req now hangs g stopped = (refl, refl, refl)
  after_check-stopped next next' email call req now (returned r) g stopped =
      rw (stopped r refl, after_check) (refl, refl, refl)

  -- An order tool's call of a known user reaches the tool only if CheckOrder allows the order: where
  -- it does not, the reply is a tool error with the reason and the message of the rejection, or none
  -- where CheckOrder never returns; the guard is the one that CheckOrder left, and both are the same
  -- whatever the tool does.
  pub middleware-gate :
      (next next' : Handler E Response) (email : String) (call : ToolCall E) (at : Readings)
      (now : Reading) (g : Guard E)
      → is_order_tool call.name ≡ true
      → email ≢ ""
      → ((r : CheckResult)
          → (check_order E g (request_of E email call) at).0 ≡ returned r
          → r.allowed ≡ false)
      → (run next email call at now g ≡ run next' email call at now g)
        × ((run next email call at now g).1 ≡ (check_order E g (request_of E email call) at).1)
        × Refuses (check_order E g (request_of E email call) at).0 (run next email call at now g).0
  unfolding middleware after_check
  middleware-gate next next' email call at now g tool known stopped =
      let req = request_of E email call in
      let (o, g') = check_order E g req at in
      let (same, left, refuses) = after_check-stopped next next' email call req now o g' stopped in
      let through = gated next email call at now g tool known in
      (
        through ∙ same ∙ sym (gated next' email call at now g tool known),
        ap (λ (x : Reply Response × Guard E). x.1) through ∙ left,
        subst (λ (x : Reply Response × Guard E). Refuses o x.0) (sym through) refuses,
      )

  after_check-allowed :
      (next : Handler E Response) (email : String) (call : ToolCall E) (req : OrderCheckRequest E)
      (now : Reading) (r : CheckResult) (g : Guard E)
      → r.allowed ≡ true
      → after_check E translate is_error next email call req now (returned r, g)
        ≡ after_next E translate is_error email req now (next call g)
  unfolding after_check
  after_check-allowed next email call req now r g ok = ground arith

  -- The tool gave a response that is no error, and no error.
  abbrev pub Succeeds : Option Response → Option String → Type 0
  Succeeds response err =
      (err ≡ none) × ((resp : Response) × (response ≡ some resp) × (is_error resp ≡ false))

  succeeded-Succeeds :
      (response : Option Response) (err : Option String)
      → (succeeded E translate is_error response err ≡ true) ↔ Succeeds response err
  unfolding succeeded
  succeeded-Succeeds none err = (λ e. cc, λ (_, (_, e, _)). cc)
  succeeded-Succeeds (some resp) (some e) = (λ e. cc, λ (e, _). cc)
  succeeded-Succeeds (some resp) none =
      (λ e. (refl, (resp, refl, ground arith)), λ (_, (resp', e, fine)). ground arith)

  -- The tracker after an order of the user was counted, from one that had counted `n` orders.
  pub record Counted (req : OrderCheckRequest E) (now : Reading) (n : ℕ) (t t' : UserTracker E)
      : Type 0 where
    pub one_more : t'.daily_order_count ≡ pos (n + 1)
    pub at_now : t'.recent_orders ≡ t.recent_orders ++ now.wall ∷ []
    pub with_params :
        t'.recent_params
        ≡ t.recent_params
          ++ record {
            exchange = req.exchange;
            tradingsymbol = req.tradingsymbol;
            transaction_type = req.transaction_type;
            quantity = req.quantity;
            placed_at = now.wall;
          }
            ∷ []

  count_order-Counted :
      (req : OrderCheckRequest E) (now : Reading) (n : ℕ) (t : UserTracker E)
      → t.daily_order_count ≡ pos n
      → n + 1 < two_63
      → Counted req now n t (count_order E (some req) now t)
  unfolding count_order
  count_order-Counted req now n t e small = record {
    one_more = (unfold ◌+ℤ◌ in ground (arith, int64_small (pos (n + 1))));
    at_now = refl;
    with_params = refl;
  }

  after_next-counts :
      (email : String) (req : OrderCheckRequest E) (now : Reading) (response : Option Response)
      (err : Option String) (g : Guard E) (t : UserTracker E) (n : ℕ)
      → E.tzdata ≡ true
      → lookup (E.to_lower email) g.state.trackers ≡ some t
      → SameDay E t.day_reset_at now.clock
      → t.daily_order_count ≡ pos n
      → n + 1 < two_63
      → let after = after_next E translate is_error email req now ((response, err), g) in
        (after.0 ≡ forwarded response err)
        × ((t' : UserTracker E) × (lookup (E.to_lower email) after.1.state.trackers ≡ some t')
            × (Succeeds response err → Counted req now n t t')
            × (¬ Succeeds response err → t' ≡ t))
  unfolding after_next
  after_next-counts email req now response err g t n tz held day many small =
      let (st, recorded, counted, _) =
        record_order-kept E email (some req) now g.state t tz held day in
      let (to, from) = succeeded-Succeeds response err in
      elim (Bool-cases (succeeded E translate is_error response err)) [
        | inl yes_ ↦
            rw (after_next, yes_, recorded)
              (
                refl,
                (
                  count_order E (some req) now t,
                  counted,
                  λ _. count_order-Counted req now n t many small,
                  λ no_. absurd (no_ (to yes_)),
                ),
              )
        | inr no_ ↦
            rw (after_next, no_)
              (refl, (t, held, λ yes_. absurd (let y = from yes_ in cc), λ _. refl))
      ]

  -- An allowed order tool's call of a known user always gives the tool's own reply, and it counts as
  -- an order of the user exactly if the tool succeeded: a response that is no error, and no error.
  -- Then the day's count is one more, and the order's time and parameters are the last of the windows;
  -- otherwise the tracker is as the tool left it. After the tool the user has a tracker with a count
  -- below the greatest int, no 09:15 IST has passed since its last reset, and the zone is there.
  pub middleware-counts :
      (next : Handler E Response) (email : String) (call : ToolCall E) (at : Readings)
      (now : Reading) (g g₁ g₂ : Guard E) (r : CheckResult) (response : Option Response)
      (err : Option String) (t : UserTracker E) (n : ℕ)
      → is_order_tool call.name ≡ true
      → email ≢ ""
      → check_order E g (request_of E email call) at ≡ (returned r, g₁)
      → r.allowed ≡ true
      → next call g₁ ≡ ((response, err), g₂)
      → E.tzdata ≡ true
      → lookup (E.to_lower email) g₂.state.trackers ≡ some t
      → ¬ Passes t.day_reset_at now.clock
      → t.daily_order_count ≡ pos n
      → n + 1 < two_63
      → ((run next email call at now g).0 ≡ forwarded response err)
        × ((t' : UserTracker E) × (lookup
                (E.to_lower email)
                (run next email call at now g).1.state.trackers
              ≡ some t')
            × (Succeeds response err → Counted (request_of E email call) now n t t')
            × (¬ Succeeds response err → t' ≡ t))
  middleware-counts next email call at now g g₁ g₂ r response err t n tool known checked ok replied
        tz held none_passed many small =
      let day = not_Passes t.day_reset_at now.clock none_passed in
      let req = request_of E email call in
      let whole : run next email call at now g
          ≡ after_next E translate is_error email req now ((response, err), g₂) =
        gated next email call at now g tool known
        ∙ ap (after_check E translate is_error next email call req now) checked
        ∙ after_check-allowed next email call req now r g₁ ok
        ∙ ap (after_next E translate is_error email req now) replied in
      let (reply, (t', found, yes_, no_)) =
        after_next-counts email req now response err g₂ t n tz held day many small in
      (
        ap (λ (x : Reply Response × Guard E). x.0) whole ∙ reply,
        (
          t',
          ap (λ (x : Reply Response × Guard E). lookup (E.to_lower email) x.1.state.trackers) whole
              ∙ found,
          yes_,
          no_,
        ),
      )
