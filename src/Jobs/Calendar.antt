-- ===== src/Jobs/Calendar.antt =====
-- The calendar of internal/jobs/scheduler.go over internal/chinatime: times are nanoseconds since
-- 1970 UTC, the zone is UTC+8 without daylight saving, and a date is the number of its day in that
-- zone. Its text "2006-01-02" stands for this number.
pub mod NextRun
use fund_dashboard.Prelude.{
  ℕ, ◌+◌, ◌*◌, ◌-◌, ◌/◌, ◌%◌, ◌&&◌, Bool, true, false, Option, none, some, leb, ◌==◌, if◌then◌else◌,
  second,
}

pub data Job : Type 0 where
  startup_refresh price_dca holdings wal dca_backfill : Job

-- `chinatime.Loc`, in seconds east of UTC.
abbrev pub loc : ℕ
loc = 8 * 3600

-- The seconds of a time on the clock of the zone.
abbrev pub local_seconds : ℕ → ℕ
local_seconds t = t / second + loc

abbrev pub day_of : ℕ → ℕ
day_of t = local_seconds t / 86400

-- `t.Hour()`
abbrev pub hour_of : ℕ → ℕ
hour_of t = local_seconds t % 86400 / 3600

-- `t.Weekday()` of a day: Sunday is 0, and day 0 is a Thursday.
abbrev pub weekday_of : ℕ → ℕ
weekday_of d = (d + 4) % 7

-- `time.Date(…, hour, 0, 0, 0, chinatime.Loc)`, in seconds on the clock of the zone.
abbrev at_hour : ℕ → ℕ → ℕ
at_hour d hour = d * 86400 + hour * 3600

-- The first day from a day on that has the weekday; `none` is -1, no constraint.
abbrev shift_to : Option ℕ → ℕ → ℕ
shift_to none d = d
shift_to (some w) d = d + (w + 7 - weekday_of d) % 7

abbrev period : Option ℕ → ℕ
period none = 1
period (some w) = 7

-- The result is a time after 1970, so `-` is exact.
target : ℕ → Option ℕ → ℕ → ℕ
target hour weekday now =
    let d = shift_to weekday (day_of now) in
    (if leb (at_hour d hour * second) (now + loc * second)
      then at_hour (d + period weekday) hour
      else at_hour d hour)
    - loc

unfoldable pub next_run_epoch : Job → ℕ → ℕ
unfolding target
next_run_epoch holdings now = target 10 (some 6) now
next_run_epoch price_dca now = target 20 none now
next_run_epoch wal now = target 3 none now
next_run_epoch _ now = 0

-- The cases of the `switch` of `tick`, which the code tests in this order.
unfoldable pub window_at : ℕ → Option Job
window_at now =
    if hour_of now == 20
    then some price_dca
    else if (hour_of now == 10) && (weekday_of (day_of now) == 6)
    then some holdings
    else if leb 6 (hour_of now) && leb (hour_of now) 9
    then some dca_backfill
    else if hour_of now == 3
    then some wal
    else none
