-- ===== src/Calendar.antt =====
-- The parts of Go's `time` package that the package uses: durations in nanoseconds, Unix seconds,
-- and the clock and calendar of Asia/Kolkata, which is 5:30 ahead of UTC the year round (since
-- October 1945).
use kite_mcp_riskguard.Prelude.{ℕ, ◌+◌, ◌-◌, ◌*◌, ◌/◌, ◌%◌, Bool, ltb, if◌then◌else◌}
use kite_mcp_riskguard.Prelude.Int.{ℤ, pos_part, neg_part, sub_ℕ}
use kite_mcp_riskguard.Env.{Time}
pub mod Laws

abbrev pub seconds : ℕ → ℕ
seconds n = n * 1000000000

abbrev pub minutes : ℕ → ℕ
minutes n = n * 60000000000

abbrev pub hours : ℕ → ℕ
hours n = n * 3600000000000

abbrev pub day_length : ℕ
day_length = 86400000000000

-- The clock of Asia/Kolkata at an instant: nanoseconds since midnight of 1 January of year 1 there.
abbrev pub in_ist : Time → ℕ
in_ist t = t + 19800000000000

-- `t.Add(d)`; an instant before the zero time becomes the zero time, and no instant is before either.
abbrev pub add_duration : Time → ℤ → Time
add_duration t d = t + pos_part d - neg_part d

-- `t.Before(u)`
abbrev pub before : Time → Time → Bool
before t u = ltb t u

-- `t.Unix()`
abbrev pub unix : Time → ℤ
unix t = sub_ℕ (t / 1000000000) 62135596800

-- Hour, minute of the day, and weekday (Sunday is 0; 1 January of year 1 was a Monday), of a local
-- clock.
abbrev pub hour_of : ℕ → ℕ
hour_of local = local % day_length / 3600000000000

abbrev pub minute_of_day : ℕ → ℕ
minute_of_day local = local % day_length / 60000000000

abbrev pub weekday_of : ℕ → ℕ
weekday_of local = (local / day_length + 1) % 7

-- 09:15 of the local day.
abbrev pub open_of_day : ℕ → ℕ
open_of_day local = local / day_length * day_length + 33300000000000

-- The boundary of `maybeResetDay` on the local clock: 09:15 of today, or of yesterday before 09:15.
-- A zone without daylight saving has days of one length. On the first day of year 1 `-` stops at 0,
-- where Go would go below its zero time: no instant is before either.
unfoldable pub reset_time : ℕ → ℕ
reset_time local =
    let today = open_of_day local in if ltb local today then today - day_length else today
