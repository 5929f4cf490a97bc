-- ===== src/Calendar/Laws.antt =====
-- The boundary of the trading day.
use kite_mcp_riskguard.Prelude.{ℕ, ◌+◌, ◌≤◌, ◌<◌, ◌↔◌, arith}
use kite_mcp_riskguard.Calendar.{day_length, reset_time}

pub reset_time-le : (local : ℕ) → 33300000000000 ≤ local → reset_time local ≤ local
unfolding reset_time
reset_time-le local h = ground arith

pub lt-reset_time : (local : ℕ) → local < reset_time local + day_length
unfolding reset_time
lt-reset_time local = ground arith

-- A later clock is past a boundary that the earlier one was not exactly if the boundaries differ.
pub reset_time-crossed_iff :
    (a b : ℕ) → 33300000000000 ≤ a → a ≤ b → (a < reset_time b) ↔ (reset_time a < reset_time b)
unfolding reset_time
reset_time-crossed_iff a b h le = ground arith

pub reset_time_mono : (a b : ℕ) → a ≤ b → reset_time a ≤ reset_time b
unfolding reset_time
reset_time_mono a b h = ground arith
