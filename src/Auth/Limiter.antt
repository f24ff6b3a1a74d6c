-- ===== src/Auth/Limiter.antt =====
-- internal/auth/limiter.go. The clock is an argument of each method, the mutex makes each method
-- one step, and a Go map is the function of its lookups. Times and durations are nanoseconds;
-- `t.After(now.Add(-w))` is written `now < t + w`, and `now.Sub(t) < d` is `now < t + d`.
pub mod Escalation
pub mod Invariant
pub mod Lock
pub mod Window
pub mod Global
pub mod Collect
mod Tests
use fund_dashboard.Prelude.{
  ℕ, zero, suc, ◌+◌, ◌-◌, ◌*◌, ◌/◌, ◌<◌, ◌≤◌, ◌≡◌, String, Bool, true, false, not, ◌&&◌, ◌||◌, List,
  [], ◌∷◌, ◌++◌, Option, none, some, Dict, empty_dict, insert, delete, length, keep, ltb, leb, ◌==◌,
  if◌then◌else◌, minute, hour,
}

pub record Limiter : Type 0 where
  pub fails : Dict (List ℕ)
  pub locked_until : Dict ℕ
  pub lock_strikes : Dict ℕ
  pub last_failure : Dict ℕ
  pub global_fails : List ℕ
  pub last_prune : Option ℕ  -- `none` is the zero time
  pub max_fails : ℕ
  pub fail_window : ℕ
  pub lockout : ℕ
  pub global_per_hour : ℕ

abbrev pub max_lockout : ℕ
max_lockout = 24 * hour

abbrev pub max_lock_strikes : ℕ
max_lock_strikes = 64

abbrev pub strike_decay : ℕ
strike_decay = 7 * (24 * hour)

abbrev pub prune_interval : ℕ
prune_interval = minute

abbrev pub new_limiter : Limiter
new_limiter = record {
  fails = empty_dict;
  locked_until = empty_dict;
  lock_strikes = empty_dict;
  last_failure = empty_dict;
  global_fails = [];
  last_prune = none;
  max_fails = 5;
  fail_window = 15 * minute;
  lockout = 15 * minute;
  global_per_hour = 20;
}

-- A missing key reads as the zero value.
abbrev pub or_nil : Option (List ℕ) → List ℕ
or_nil none = []
or_nil (some ts) = ts

abbrev pub or_zero : Option ℕ → ℕ
or_zero none = 0
or_zero (some n) = n

abbrev pub is_some : {A : Type 0} → Option A → Bool
is_some none = false
is_some (some a) = true

-- The times after `now - window`.
pub prune : ℕ → ℕ → List ℕ → List ℕ
prune now window = keep (λ t. ltb now (t + window))

-- The loop of `escalatedLockout`, with the rounds that are left.
pub double_capped : ℕ → ℕ → ℕ
double_capped zero d = d
double_capped (suc rounds) d =
    let rest = double_capped rounds (d * 2) in if leb (max_lockout / 2) d then max_lockout else rest

pub escalated_lockout : ℕ → ℕ → ℕ
escalated_lockout base strikes =
    if leb strikes 1 || base == 0 then base else double_capped (strikes - 1) base

-- The bodies of the three loops of `pruneStaleLocked`, each at one key.
abbrev pub unlapsed : ℕ → Option ℕ → Option ℕ
unlapsed now none = none
unlapsed now (some until) = if ltb now until then some until else none

abbrev pub some_unless_empty : List ℕ → Option (List ℕ)
some_unless_empty [] = none
some_unless_empty (t ∷ ts) = some (t ∷ ts)

pub in_window : ℕ → ℕ → Option (List ℕ) → Option (List ℕ)
in_window now window none = none
in_window now window (some times) = some_unless_empty (prune now window times)

abbrev pub is_idle : ℕ → Option ℕ → Option (List ℕ) → Option ℕ → Bool
is_idle now locked counting none = false
is_idle now locked counting (some last) =
    not (is_some locked) && not (is_some counting) && not (ltb now (last + strike_decay))

pub collect : ℕ → Limiter → Limiter
collect now l =
    let locked = λ (k : String). unlapsed now (l.locked_until k) in
    let counting = λ (k : String). in_window now l.fail_window (l.fails k) in
    let idle = λ (k : String). is_idle now (locked k) (counting k) (l.last_failure k) in
    record l {
      last_prune = some now;
      locked_until = locked;
      fails = counting;
      last_failure = λ k. if idle k then none else l.last_failure k;
      lock_strikes = λ k. if idle k then none else l.lock_strikes k;
    }

abbrev pub is_recent : ℕ → Option ℕ → Bool
is_recent now none = false
is_recent now (some last) = ltb now (last + prune_interval)

pub prune_stale_locked : ℕ → Limiter → Limiter
prune_stale_locked now l = if is_recent now l.last_prune then l else collect now l

-- The two results of `Allow`; `panics` is `globalFails[0]` of an empty slice.
pub data Reply : Type 0 where
  reply : ℕ → Bool → Reply
  panics : Reply

abbrev pub put_kept : String → List ℕ → Dict (List ℕ) → Dict (List ℕ)
put_kept key [] m = delete key m
put_kept key (t ∷ ts) m = insert key (t ∷ ts) m

abbrev pub oldest_expires : ℕ → List ℕ → Reply
oldest_expires now [] = panics
oldest_expires now (oldest ∷ rest) = reply (oldest + hour - now) false

-- `Allow` after the global window has been checked.
pub allow_key : ℕ → String → Limiter → Limiter
allow_key now key l =
    let kept = prune now l.fail_window (or_nil (l.fails key)) in
    let fails = put_kept key kept l.fails in
    record l { fails = if leb l.max_fails (length kept) then delete key fails else fails }

-- `Allow` after the lock of the key has been checked.
pub allow_unlocked : ℕ → String → Limiter → Limiter × Reply
allow_unlocked now key l =
    let s = prune_stale_locked now l in
    let g = record s { global_fails = prune now hour s.global_fails } in
    if leb g.global_per_hour (length g.global_fails)
    then (g, oldest_expires now g.global_fails)
    else (allow_key now key g, reply 0 true)

pub allow : ℕ → String → Limiter → Limiter × Reply
allow now key l = elim (l.locked_until key) [
  | none ↦ allow_unlocked now key l
  | some until ↦
      if ltb now until
      then (l, reply (until - now) false)
      else allow_unlocked now key (record l { locked_until = delete key l.locked_until })
]

-- `Failure` up to the test against `MaxFails`.
pub record_failure : ℕ → String → Limiter → Limiter
record_failure now key l = record l {
  global_fails = prune now hour l.global_fails ++ now ∷ [];
  fails = insert key (prune now l.fail_window (or_nil (l.fails key)) ++ now ∷ []) l.fails;
  last_failure = insert key now l.last_failure;
}

abbrev pub next_strikes : ℕ → ℕ
next_strikes n = if ltb n max_lock_strikes then n + 1 else n

-- The branch of `Failure` that locks the key.
pub trip : ℕ → String → Limiter → Limiter
trip now key l =
    let strikes = next_strikes (or_zero (l.lock_strikes key)) in
    record l {
      lock_strikes =
          if ltb (or_zero (l.lock_strikes key)) max_lock_strikes
          then insert key strikes l.lock_strikes
          else l.lock_strikes;
      locked_until = insert key (now + escalated_lockout l.lockout strikes) l.locked_until;
      fails = delete key l.fails;
    }

pub failure : ℕ → String → Limiter → Limiter × Bool × ℕ
failure now key l =
    let r = record_failure now key l in
    if leb r.max_fails (length (or_nil (r.fails key)))
    then (
      prune_stale_locked now (trip now key r),
      true,
      escalated_lockout r.lockout (next_strikes (or_zero (r.lock_strikes key))),
    )
    else (prune_stale_locked now r, false, 0)

pub success : String → Limiter → Limiter
success key l = record l {
  fails = delete key l.fails;
  locked_until = delete key l.locked_until;
  lock_strikes = delete key l.lock_strikes;
  last_failure = delete key l.last_failure;
}

-- The calls of the handlers, each at its time.
pub data Call : Type 0 where
  allows fails succeeds : String → Call

pub step : ℕ → Call → Limiter → Limiter
step now (allows key) l = (allow now key l).0
step now (fails key) l = (failure now key l).0
step now (succeeds key) l = success key l

pub run : List (ℕ × Call) → Limiter → Limiter
run [] l = l
run ((now, c) ∷ cs) l = run cs (step now c l)
