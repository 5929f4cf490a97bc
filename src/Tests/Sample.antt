-- ===== src/Tests/Sample.antt =====
-- A concrete surrounding for the package: numbers in ten-thousandths, rupees, a database that is a
-- list of rows; and users, requests and guards.
use Prim.Native.Char.{Char, code}
use Prim.Native.String.{char_at}
use kite_mcp_riskguard.Prelude.{
  ℕ, zero, suc, ◌+◌, ◌*◌, ◌-◌, ◌/◌, ◌&&◌, true, false, some, none, List, [], ◌∷◌, map, String, leb,
  ◌==◌, if◌then◌else◌,
}
use kite_mcp_riskguard.Prelude.Int.{
  ℤ, pos, pos_part, neg_part, sub_ℕ, neg_ℤ, ◌+ℤ◌, ltb_ℤ, leb_ℤ, eqb_ℤ, int64,
}
use kite_mcp_riskguard.Env.{Env, LimitsRow, scanned, rows}
use kite_mcp_riskguard.Calendar.{seconds, hours, day_length}
use kite_mcp_riskguard.Model.{OrderCheckRequest, UserLimits, State, Reading}
use kite_mcp_riskguard.Limits.{system_defaults, row_of}
use kite_mcp_riskguard.Itoa.{itoa}
use kite_mcp_riskguard.Itoa.RoundTrip.{parse}
use kite_mcp_riskguard.Chain.{Guard}
use kite_mcp_riskguard.Builtin.{
  new_state, new_guard, confirmation_required_check, daily_order_count_check,
}
use kite_mcp_riskguard.CheckOrder.{Readings}

abbrev fixed_mul : ℤ → ℤ → ℤ
fixed_mul a b =
    sub_ℕ ((pos_part a * pos_part b + neg_part a * neg_part b) / 10000)
      ((pos_part a * neg_part b + neg_part a * pos_part b) / 10000)

abbrev scale : ℕ → ℕ
scale zero = 10000
scale (suc k) = scale k / 10

-- An amount and its currency.
abbrev Amount : Type 0
Amount = ℤ × String

abbrev lower_char : Char → Char
lower_char c =
    if leb 65 (code c) && leb (code c) 90
    then char_at "abcdefghijklmnopqrstuvwxyz" (code c - 65)
    else c

abbrev lower : String → String
lower String.[] = String.[]
lower (String.◌∷◌ c s) = String.◌∷◌ (lower_char c) (lower s)

abbrev Rows : Type 0
Rows = List (LimitsRow ℤ)

abbrev upsert_row : LimitsRow ℤ → Rows → Rows
upsert_row r [] = r ∷ []
upsert_row r (q ∷ qs) = if q.email == r.email then r ∷ qs else q ∷ upsert_row r qs

abbrev pub sample : Env
sample = record {
  Float = ℤ;
  of_int = λ n. fixed_mul n (pos 100000000);
  literal = λ m k. pos (m * scale k);
  f_add = λ a b. a +ℤ b;
  f_sub = λ a b. a +ℤ neg_ℤ b;
  f_mul = fixed_mul;
  f_lt = λ a b. ltb_ℤ a b;
  f_le = λ a b. leb_ℤ a b;
  truncate = λ a. int64 (sub_ℕ (pos_part a / 10000) (neg_part a / 10000));
  Money = Amount;
  money_zero = (pos 0, "");
  new_inr = λ a. (a, "INR");
  multiply = λ m x. (fixed_mul m.0 x, m.1);
  add = λ m n. if m.1 == n.1 then some (m.0 +ℤ n.0, m.1) else none;
  greater_than = λ m n. if m.1 == n.1 then some (ltb_ℤ n.0 m.0) else none;
  is_zero = λ m. eqb_ℤ m.0 (pos 0);
  is_positive = λ m. ltb_ℤ (pos 0) m.0;
  to_float = λ m. m.0;
  to_lower = lower;
  sprintf = λ f args. f;
  format_time = λ layout t. elim (itoa (pos t)) [ some s ↦ s | none ↦ "" ];
  parse_time = λ layout s. some (pos_part (parse s));
  sha256_hex = λ s. s;
  tzdata = true;
  Db = Rows;
  upsert = λ d r now. (upsert_row r d, none);
  select_all = λ d. rows (map (λ r. scanned r) d) none;
  World = ℕ;
}

-- A machine without the zone's data.
abbrev pub bare : Env
bare = record sample { tzdata = false }

-- Monday, 3 January 2000, 10:00 in Asia/Kolkata, and `s` seconds later.
abbrev pub at_second : ℕ → Reading
at_second s =
    let t = 730121 * day_length + hours 10 - 19800000000000 + seconds s in
    record { wall = t; clock = t; dedup_clock = t }

abbrev pub now : Readings
now i = at_second 0

-- An order of ten shares at 100 rupees, confirmed.
abbrev pub order : OrderCheckRequest sample
order = record {
  email = "Asha@example.com";
  tool_name = "place_order";
  exchange = "NSE";
  tradingsymbol = "INFY";
  transaction_type = "BUY";
  quantity = pos 10;
  price = (pos 1000000, "INR");
  order_type = "LIMIT";
  confirmed = true;
  client_order_id = "order-1";
  variety = "regular";
}

abbrev pub asha : String
asha = "asha@example.com"

abbrev pub frozen_limits : UserLimits sample
frozen_limits = record (system_defaults sample) {
  trading_frozen = true;
  frozen_by = "admin";
  frozen_reason = "review";
  frozen_at = 63000000000000000000;
  allow_off_hours = true;
}

abbrev pub started : Guard sample
started = new_guard sample 0

abbrev pub frozen_user : Guard sample
frozen_user = record {
  checks = started.checks;
  state = record (new_state sample 0) { limits = (asha, frozen_limits) ∷ [] };
}

abbrev pub bare_order : OrderCheckRequest bare
bare_order = record {
  email = order.email;
  tool_name = order.tool_name;
  exchange = order.exchange;
  tradingsymbol = order.tradingsymbol;
  transaction_type = order.transaction_type;
  quantity = order.quantity;
  price = order.price;
  order_type = order.order_type;
  confirmed = order.confirmed;
  client_order_id = order.client_order_id;
  variety = order.variety;
}

-- A chain of the confirmation gate and the daily count, on that machine.
abbrev pub bare_guard : Guard bare
bare_guard = record {
  checks = confirmation_required_check bare ∷ daily_order_count_check bare ∷ [];
  state = new_state bare 0;
}

-- A guard with a database that holds one user's limits.
abbrev pub stored : State sample
stored = record (new_state sample 0) {
  db = some (row_of sample asha (system_defaults sample) ∷ []);
}
