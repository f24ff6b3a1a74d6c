-- ===== src/Http/RateLimit/Bound.antt =====
-- How many calls the rate limiter of internal/httpapi/ratelimit.go lets through.
use fund_dashboard.Prelude.{
  ℕ, ◌+◌, ◌-◌, ◌*◌, ◌≤◌, ◌≡◌, true, false, List, [], ◌∷◌, Option, none, some, refl, arith, String,
  if◌then◌else◌, str_eq, eq_iff, Bool-cases, inl, inr, sym, subst,
}
use fund_dashboard.Http.RateLimit.{
  token_parts, Bucket, RateLimiter, gain, refilled, swept_bucket, sweep_due, sweep, bucket_or_new,
  take_token, allow_swept, allow, admitted, new_rate_limiter,
}

-- The times do not go back, and the last one.
abbrev pub IsOrdered : ℕ → List (ℕ × String) → Type 0
IsOrdered t [] = Unit
IsOrdered t ((now, k) ∷ calls) = (t ≤ now) × IsOrdered now calls

abbrev pub last_time : ℕ → List (ℕ × String) → ℕ
last_time t [] = t
last_time t ((now, k) ∷ calls) = last_time now calls

gain_add :
    (rate a b c : ℕ) → a ≤ b → b ≤ c → gain rate (c - a) ≡ gain rate (b - a) + gain rate (c - b)
unfolding gain
gain_add rate a b c h h' =
    let split : c - a ≡ (b - a) + (c - b) = omega arith in rw split (omega arith)

gain_mono : (rate a b : ℕ) → a ≤ b → gain rate a ≤ gain rate b
unfolding gain
gain_mono rate a b h = let split : b ≡ a + (b - a) = omega arith in rw split (omega arith)

-- With `spent` parts let through since `start`, the account of a key's bucket at a time.
IsCovered : ℕ → ℕ → ℕ → ℕ → ℕ → Option Bucket → Type 0
IsCovered rate burst start spent t none = (start ≤ t) × (spent ≤ gain rate (t - start))
IsCovered rate burst start spent t (some b) =
    (start ≤ b.last) × (b.last ≤ t) × (spent + b.tokens ≤ burst + gain rate (b.last - start))

module _ (rate burst start : ℕ) where
  covered_end :
      (spent t : ℕ) (o : Option Bucket)
      → IsCovered rate burst start spent t o
      → spent ≤ burst + gain rate (t - start)
  unfolding IsCovered
  covered_end spent t none h = omega (arith, h.1)
  covered_end spent t (some b) h =
      omega (arith, h.2, gain_mono rate (b.last - start) (t - start) (omega arith))

  IsCovered-later :
      (spent t t' : ℕ) (o : Option Bucket)
      → t ≤ t'
      → IsCovered rate burst start spent t o
      → IsCovered rate burst start spent t' o
  unfolding IsCovered
  IsCovered-later spent t t' none le h = (
    omega (arith, h.0),
    omega (arith, h.1, gain_mono rate (t - start) (t' - start) (omega arith)),
  )
  IsCovered-later spent t t' (some b) le h = (h.0, omega (arith, h.1), h.2)

  IsCovered-refilled :
      (spent now : ℕ) (b : Bucket)
      → IsCovered rate burst start spent now (some b)
      → IsCovered rate burst start spent now (some (refilled rate burst now b))
  unfolding IsCovered refilled
  IsCovered-refilled spent now b h = ground (arith, h, gain_add rate start b.last now h.0 h.1)

  IsCovered-swept :
      (spent now : ℕ) (o : Option Bucket)
      → IsCovered rate burst start spent now o
      → IsCovered rate burst start spent now (swept_bucket rate burst now o)
  unfolding IsCovered swept_bucket refilled
  IsCovered-swept spent now none h = h
  IsCovered-swept spent now (some b) h = ground (arith, h, gain_add rate start b.last now h.0 h.1)

  IsCovered-new :
      (spent now : ℕ) (o : Option Bucket)
      → IsCovered rate burst start spent now o
      → IsCovered rate burst start spent now (some (bucket_or_new burst now o))
  unfolding IsCovered bucket_or_new
  IsCovered-new spent now none h = (h.0, omega arith, omega (arith, h.1))
  IsCovered-new spent now (some b) h = h

  -- The account after a call.
  IsCovered-taken :
      (spent now : ℕ) (b : Bucket)
      → IsCovered rate burst start spent now (some b)
      → let answer = take_token rate b in
        IsCovered rate burst start
          (if answer.1 then spent + token_parts else spent)
          now
          (some answer.0)
  unfolding IsCovered take_token
  IsCovered-taken spent now b h = ground (arith, h)

-- A limiter whose bucket of a key is accounted for.
IsAccounted : ℕ → ℕ → ℕ → ℕ → ℕ → String → RateLimiter → Type 0
IsAccounted rate burst start spent t key rl =
    (rl.rate ≡ rate) × (rl.burst ≡ burst) × IsCovered rate burst start spent t (rl.buckets key)

module _ (rate burst start : ℕ) (key : String) where
  sweep-IsAccounted :
      (spent now : ℕ) (rl : RateLimiter)
      → IsAccounted rate burst start spent now key rl
      → IsAccounted rate burst start spent now key (sweep now rl)
  unfolding sweep IsAccounted
  sweep-IsAccounted spent now rl h = elim (Bool-cases (sweep_due now rl.last_sweep)) [
    | inl due ↦
        rw due (
          h.0,
          h.1,
          rw (h.0, h.1) (IsCovered-swept rate burst start spent now (rl.buckets key) h.2),
        )
    | inr early ↦ rw early h
  ]

  -- A call of another key.
  other-IsAccounted :
      (spent now : ℕ) (k : String) (rl : RateLimiter)
      → str_eq k key ≡ false
      → IsAccounted rate burst start spent now key rl
      → IsAccounted rate burst start spent now key (allow_swept now k rl).0
  unfolding allow_swept IsAccounted
  other-IsAccounted spent now k rl e h = (h.0, h.1, rw e h.2)

  own-IsAccounted :
      (spent now : ℕ) (k : String) (rl : RateLimiter)
      → str_eq k key ≡ true
      → IsAccounted rate burst start spent now key rl
      → let answer = allow_swept now k rl in
        IsAccounted rate burst start
          (if answer.1 then spent + token_parts else spent)
          now
          key
          answer.0
  unfolding allow_swept IsAccounted
  own-IsAccounted spent now k rl e h =
      let same : key ≡ k = sym ((eq_iff k key).0 e) in
      let here =
        subst (λ (x : String). IsCovered rate burst start spent now (rl.buckets x)) same h.2 in
      let b = refilled rate burst now (bucket_or_new burst now (rl.buckets k)) in
      (
        h.0,
        h.1,
        rw (e, h.0, h.1)
            (IsCovered-taken rate burst start spent now b (
              IsCovered-refilled rate burst start spent now (bucket_or_new burst now (rl.buckets k))
                (IsCovered-new rate burst start spent now (rl.buckets k) here))),
      )

  bounded_from :
      (calls : List (ℕ × String)) (spent t : ℕ) (rl : RateLimiter)
      → IsAccounted rate burst start spent t key rl
      → IsOrdered t calls
      → spent + token_parts * admitted key calls rl ≤ burst + gain rate (last_time t calls - start)
  unfolding admitted allow IsAccounted
  bounded_from [] spent t rl h o =
      omega (arith, covered_end rate burst start spent t (rl.buckets key) h.2)
  bounded_from ((now, k) ∷ calls) spent t rl h o =
      let swept =
        sweep-IsAccounted spent now rl
          (h.0, h.1, IsCovered-later rate burst start spent t now (rl.buckets key) o.0 h.2) in
      let answer = allow_swept now k (sweep now rl) in
      elim (Bool-cases (str_eq k key)) [
        | inr other ↦ rw other (
            bounded_from calls spent now answer.0
              (other-IsAccounted spent now k (sweep now rl) other swept) o.1)
        | inl mine ↦
            let own = own-IsAccounted spent now k (sweep now rl) mine swept in
            rw mine (elim (Bool-cases answer.1) [
              | inl passed ↦
                  let rest =
                    bounded_from calls (spent + token_parts) now answer.0 (rw passed at own) o.1 in
                  rw passed (omega (arith, rest))
              | inr held ↦ rw held (bounded_from calls spent now answer.0 (rw held at own) o.1)
            ])
      ]

-- In any run of calls of any keys at times that do not go back, a new limiter lets through of one
-- key no more than its burst and what its rate yields from the start to the last call.
pub admitted_bounded :
    (rate_per_minute burst start : ℕ) (key : String) (calls : List (ℕ × String))
    → IsOrdered start calls
    → let rl = new_rate_limiter rate_per_minute burst in
      token_parts * admitted key calls rl ≤ rl.burst + rl.rate * (last_time start calls - start)
unfolding new_rate_limiter gain IsAccounted IsCovered
admitted_bounded rate_per_minute burst start key calls o =
    let rl = new_rate_limiter rate_per_minute burst in
    let bound =
      bounded_from rl.rate rl.burst start key calls 0 start rl
        (refl, refl, (omega arith, omega arith)) o in
    omega (arith, bound)
