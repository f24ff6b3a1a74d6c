-- ===== src/Http/RateLimit.antt =====
-- internal/httpapi/ratelimit.go: a token bucket per key. The clock is an argument, the mutex makes a
-- call one step, and times are nanoseconds. A token is counted in parts of which a rate of one token
-- a minute makes one each nanosecond, so the amounts are whole numbers where the code has floating
-- point; the rounding of float64 is left out. Rate and burst are positive.
pub mod Bound
mod Tests
use fund_dashboard.Prelude.{
  ℕ, suc, ◌+◌, ◌-◌, ◌*◌, ◌/◌, Bool, true, false, List, [], ◌∷◌, Option, none, some, String, Dict,
  empty_dict, insert, ltb, leb, if◌then◌else◌, minute, min, str_eq,
}

-- The parts of a token: the nanoseconds of a minute.
abbrev pub token_parts : ℕ
token_parts = minute

abbrev pub sweep_interval : ℕ
sweep_interval = 5 * minute

pub record Bucket : Type 0 where
  pub tokens : ℕ
  pub last : ℕ

-- `rate` is the tokens a minute, `burst` counts parts; no sweep yet is the zero time, `none`.
pub record RateLimiter : Type 0 where
  pub rate : ℕ
  pub burst : ℕ
  pub buckets : Dict Bucket
  pub last_sweep : Option ℕ

pub new_rate_limiter : ℕ → ℕ → RateLimiter
new_rate_limiter rate_per_minute burst = record {
  rate = if leb rate_per_minute 0 then 1 else rate_per_minute;
  burst = token_parts * (if leb burst 0 then 1 else burst);
  buckets = empty_dict;
  last_sweep = none;
}

-- What accrues in a time.
pub gain : ℕ → ℕ → ℕ
gain rate d = rate * d

pub refilled : ℕ → ℕ → ℕ → Bucket → Bucket
refilled rate burst now b =
    if ltb b.last now
    then record { tokens = min burst (b.tokens + gain rate (now - b.last)); last = now }
    else b

-- The sweep of one bucket: it goes if it would be full.
pub swept_bucket : ℕ → ℕ → ℕ → Option Bucket → Option Bucket
swept_bucket rate burst now none = none
swept_bucket rate burst now (some b) =
    if leb burst (refilled rate burst now b).tokens then none else some b

pub sweep_due : ℕ → Option ℕ → Bool
sweep_due now none = true
sweep_due now (some t) = leb (t + sweep_interval) now

pub sweep : ℕ → RateLimiter → RateLimiter
sweep now rl =
    if sweep_due now rl.last_sweep
    then record rl {
      buckets = λ k. swept_bucket rl.rate rl.burst now (rl.buckets k);
      last_sweep = some now;
    }
    else rl

pub bucket_or_new : ℕ → ℕ → Option Bucket → Bucket
bucket_or_new burst now none = record { tokens = burst; last = now }
bucket_or_new burst now (some b) = b

-- The bucket after a call, whether the call is let through, and the wait if not.
pub take_token : ℕ → Bucket → Bucket × Bool × ℕ
take_token rate b =
    if leb token_parts b.tokens
    then (record b { tokens = b.tokens - token_parts }, true, 0)
    else (b, false, (token_parts - b.tokens) / rate)

pub allow_swept : ℕ → String → RateLimiter → RateLimiter × Bool × ℕ
allow_swept now key rl =
    let (b, ok, wait) =
      take_token rl.rate
        (refilled rl.rate rl.burst now (bucket_or_new rl.burst now (rl.buckets key))) in
    (record rl { buckets = insert key b rl.buckets }, ok, wait)

-- `RateLimiter.Allow`.
pub allow : ℕ → String → RateLimiter → RateLimiter × Bool × ℕ
allow now key rl = allow_swept now key (sweep now rl)

-- How many calls of a key are let through in a run of calls, each at its time.
pub admitted : String → List (ℕ × String) → RateLimiter → ℕ
admitted key [] rl = 0
admitted key ((now, k) ∷ calls) rl =
    let answer = allow now k rl in
    let rest = admitted key calls answer.0 in
    if str_eq k key then (if answer.1 then suc rest else rest) else rest
