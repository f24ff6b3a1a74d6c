-- ===== src/Auth/Limiter/Global.antt =====
-- The window over all keys in internal/auth/limiter.go, and the answers of `Allow`.
use fund_dashboard.Prelude.{
  ℕ, ◌+◌, ◌≤◌, ◌<◌, ◌≡◌, ◌≢◌, String, true, false, List, [], ◌∷◌, ◌++◌, arith, length, refl, ◌↔◌,
  ap, ltb, hour, delete, All, tally, length-keep, if◌then◌else◌,
}
use fund_dashboard.Auth.Limiter.Collect.{IsLapsed}
use fund_dashboard.Auth.Limiter.{
  Limiter, Reply, reply, panics, prune, collect, prune_stale_locked, allow_key, allow_unlocked,
  allow, record_failure, trip, failure, success, Call, allows, fails, succeeds, step, run,
  oldest_expires,
}

-- How many recorded failures lie in the hour before a time.
abbrev pub recent : ℕ → Limiter → ℕ
recent now l = tally (λ t. ltb now (t + hour)) l.global_fails

-- Times that are pruned earlier are out of the window later.
tally-prune :
    (now t : ℕ) (ts : List ℕ)
    → t ≤ now
    → tally (λ u. ltb now (u + hour)) (prune t hour ts) ≡ tally (λ u. ltb now (u + hour)) ts
unfolding prune
tally-prune now t [] h = refl
tally-prune now t (u ∷ us) h = ground (arith, tally-prune now t us h)

tally_snoc :
    (now t : ℕ) (ts : List ℕ)
    → tally (λ u. ltb now (u + hour)) (ts ++ t ∷ [])
      ≡ tally (λ u. ltb now (u + hour)) ts + (if ltb now (t + hour) then 1 else 0)
tally_snoc now t [] = ground arith
tally_snoc now t (u ∷ us) = ground (arith, tally_snoc now t us)

length-prune :
    (now : ℕ) (ts : List ℕ) → length (prune now hour ts) ≡ tally (λ u. ltb now (u + hour)) ts
unfolding prune
length-prune now ts = length-keep (λ t. ltb now (t + hour)) ts

prune_stale_locked-global :
    (t : ℕ) (l : Limiter)
    → ((prune_stale_locked t l).global_fails ≡ l.global_fails)
      × ((prune_stale_locked t l).global_per_hour ≡ l.global_per_hour)
unfolding prune_stale_locked collect
prune_stale_locked-global t l = ground arith

-- What each call adds to the failures of the hour before a later time.
abbrev pub adds : ℕ → ℕ × Call → ℕ
adds now (t, allows k) = 0
adds now (t, fails k) = if ltb now (t + hour) then 1 else 0
adds now (t, succeeds k) = 0

failure-recent :
    (now t : ℕ) (k : String) (l : Limiter)
    → t ≤ now
    → (recent now (failure t k l).0 ≡ recent now l + adds now (t, fails k))
      × ((failure t k l).0.global_per_hour ≡ l.global_per_hour)
unfolding failure record_failure trip
failure-recent now t k l h =
    let r = record_failure t k l in
    ground (
      arith,
      prune_stale_locked-global t r,
      prune_stale_locked-global t (trip t k r),
      tally_snoc now t (prune t hour l.global_fails),
      tally-prune now t l.global_fails,
    )

allow-recent :
    (now t : ℕ) (k : String) (l : Limiter)
    → t ≤ now
    → (recent now (allow t k l).0 ≡ recent now l)
      × ((allow t k l).0.global_per_hour ≡ l.global_per_hour)
unfolding allow allow_unlocked allow_key
allow-recent now t k l h = ground (
  arith,
  prune_stale_locked-global t l,
  prune_stale_locked-global t (record l { locked_until = delete k l.locked_until }),
  tally-prune now t l.global_fails,
)

abbrev Before : ℕ → ℕ × Call → Type 0
Before now (t, c) = t ≤ now

abbrev pub count_failures : ℕ → List (ℕ × Call) → ℕ
count_failures now [] = 0
count_failures now (c ∷ cs) = adds now c + count_failures now cs

run-recent :
    (now : ℕ) (cs : List (ℕ × Call)) (l : Limiter)
    → All (Before now) cs
    → (recent now (run cs l) ≡ recent now l + count_failures now cs)
      × ((run cs l).global_per_hour ≡ l.global_per_hour)
unfolding run step success
run-recent now [] l h = ground arith
run-recent now ((t, allows k) ∷ cs) l h =
    ground (arith, run-recent now cs (allow t k l).0 h.1, allow-recent now t k l h.0)
run-recent now ((t, fails k) ∷ cs) l h =
    ground (arith, run-recent now cs (failure t k l).0 h.1, failure-recent now t k l h.0)
run-recent now ((t, succeeds k) ∷ cs) l h = ground (arith, run-recent now cs (success k l) h.1)

-- What `allow` answers once no lock is pending.
abbrev Answers : ℕ → Limiter → Reply → Type 0
Answers now l r = (r ≡ reply 0 true) ↔ (recent now l < l.global_per_hour)

allow_unlocked-Answers :
    (now : ℕ) (key : String) (l : Limiter) → Answers now l (allow_unlocked now key l).1
unfolding allow_unlocked
allow_unlocked-Answers now key l =
    let s = prune_stale_locked now l in
    let (g, n) = prune_stale_locked-global now l in
    let e = length-prune now s.global_fails in
    ground (arith, e, n, ap (λ (ts : List ℕ). tally (λ u. ltb now (u + hour)) ts) g)

-- An attempt is let through exactly when no lock of its key is pending and fewer than
-- `GlobalPerHour` failures of any keys lie in the past hour.
pub allow-verdict :
    (now : ℕ) (key : String) (l : Limiter)
    → ((allow now key l).1 ≡ reply 0 true)
      ↔ (IsLapsed now (l.locked_until key) × (recent now l < l.global_per_hour))
unfolding allow
allow-verdict now key l = ground (
  arith,
  allow_unlocked-Answers now key l,
  allow_unlocked-Answers now key (record l { locked_until = delete key l.locked_until }),
)

-- After any calls up to a time, an attempt of any key at that time is refused if the failures among
-- those calls that lie in the hour before it number at least `GlobalPerHour`.
pub global_guard :
    (now : ℕ) (key : String) (l : Limiter) (cs : List (ℕ × Call))
    → All (Before now) cs
    → l.global_per_hour ≤ count_failures now cs
    → (allow now key (run cs l)).1 ≢ reply 0 true
global_guard now key l cs h n e =
    omega (arith, run-recent now cs l h, ((allow-verdict now key (run cs l)).0 e).1)

-- A reply that is not a panic, with a wait that fits its verdict.
abbrev pub IsHonest : Reply → Type 0
IsHonest panics = ⊥
IsHonest (reply wait true) = wait ≡ 0
IsHonest (reply wait false) = 0 < wait

oldest_expires-IsHonest :
    (now : ℕ) (ts : List ℕ)
    → 0 < length (prune now hour ts)
    → IsHonest (oldest_expires now (prune now hour ts))
unfolding prune
oldest_expires-IsHonest now [] h = ground arith
oldest_expires-IsHonest now (t ∷ ts) h = ground (arith, oldest_expires-IsHonest now ts)

allow_unlocked-IsHonest :
    (now : ℕ) (key : String) (l : Limiter)
    → 0 < l.global_per_hour
    → IsHonest (allow_unlocked now key l).1
unfolding allow_unlocked
allow_unlocked-IsHonest now key l h =
    let s = prune_stale_locked now l in
    ground (arith, prune_stale_locked-global now l, oldest_expires-IsHonest now s.global_fails)

-- With a positive `GlobalPerHour`, `Allow` never panics, lets an attempt through with no wait, and
-- refuses one with a positive wait.
pub allow-IsHonest :
    (now : ℕ) (key : String) (l : Limiter) → 0 < l.global_per_hour → IsHonest (allow now key l).1
unfolding allow
allow-IsHonest now key l h = ground (
  arith,
  allow_unlocked-IsHonest now key l h,
  allow_unlocked-IsHonest now key (record l { locked_until = delete key l.locked_until }) h,
)
