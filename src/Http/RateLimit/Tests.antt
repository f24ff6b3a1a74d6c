-- ===== src/Http/RateLimit/Tests.antt =====
-- internal/httpapi/ratelimit.go on concrete calls.
use fund_dashboard.Prelude.{ℕ, ◌+◌, ◌-◌, ◌*◌, ◌≤◌, ◌≡◌, List, [], ◌∷◌, refl, arith, String, second}
use fund_dashboard.Http.RateLimit.{
  token_parts, new_rate_limiter, admitted, allow, allow_swept, sweep, sweep_due, swept_bucket,
  refilled, gain, bucket_or_new, take_token,
}
use fund_dashboard.Http.RateLimit.Bound.{last_time, admitted_bounded}

-- Two calls at once and one after ten seconds, at six a minute with a burst of one.
abbrev calls : List (ℕ × String)
calls = (0, "a") ∷ (0, "a") ∷ (10 * second, "a") ∷ []

counted : admitted "a" calls (new_rate_limiter 6 1) ≡ 2
unfolding admitted new_rate_limiter allow allow_swept sweep sweep_due swept_bucket refilled gain
    bucket_or_new take_token
counted = refl

admitted_bounded_example :
    let rl = new_rate_limiter 6 1 in
    token_parts * admitted "a" calls rl ≤ rl.burst + rl.rate * (last_time 0 calls - 0)
admitted_bounded_example =
    admitted_bounded 6 1 0 "a" calls (omega arith, (omega arith, (omega arith, tt)))
