-- ===== src/Prelude/Time.antt =====
-- Go's `time.Duration` and `time.Time` as numbers of nanoseconds (from an origin before every time
-- in use), and the constants of package time.
use Prim.Native.Nat.{ℕ, ◌*◌}

abbrev pub second : ℕ
second = 1_000_000_000

abbrev pub minute : ℕ
minute = 60 * second

abbrev pub hour : ℕ
hour = 60 * minute
