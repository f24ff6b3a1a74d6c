-- ===== src/Auth/Limiter/Escalation.antt =====
-- `escalatedLockout` of internal/auth/limiter.go.
use native.Mathlib.Nat.{pow-suc, mul_assoc, mul_comm}
use fund_dashboard.Prelude.{
  ℕ, zero, suc, ◌-◌, ◌*◌, ◌/◌, ◌^◌, ◌≤◌, ◌≡◌, min, arith, leb, leb→le, Bool-cases, inl, inr, sym,
  ap, ◌∙◌,
}
use fund_dashboard.Auth.Limiter.{double_capped, escalated_lockout, max_lockout}

pow_pos : (n : ℕ) → 1 ≤ 2 ^ n
pow_pos zero = omega arith
pow_pos (suc n) = omega (arith, pow_pos n, pow-suc 2 n)

-- One more round doubles first.
double_pow : (n d : ℕ) → d * 2 ^ suc n ≡ d * 2 * 2 ^ n
double_pow n d =
    ap (λ (k : ℕ). d * k) (pow-suc 2 n ∙ mul_comm (2 ^ n) 2) ∙ sym (mul_assoc d 2 (2 ^ n))

le-mul_pow : (n d : ℕ) → d ≤ d * 2 ^ n
le-mul_pow n d = grind (arith, pow_pos n)

double_capped_lem :
    (rounds d : ℕ) → d ≤ max_lockout → double_capped rounds d ≡ min (d * 2 ^ rounds) max_lockout
unfolding double_capped
double_capped_lem zero d h = omega arith
double_capped_lem (suc rounds) d h = elim (Bool-cases (leb (max_lockout / 2) d)) [
  | inl big ↦ rw big (omega (arith, leb→le _ _ big, le-mul_pow rounds (d * 2), double_pow rounds d))
  | inr small ↦ rw small (ground (arith, double_capped_lem rounds (d * 2), double_pow rounds d))
]

-- The lock after `n + 1` strikes is the base doubled `n` times and capped at 24 hours, for a base
-- that does not pass the cap.
pub escalated_lockout-eq_min :
    (base n : ℕ)
    → base ≤ max_lockout
    → escalated_lockout base (suc n) ≡ min (base * 2 ^ n) max_lockout
unfolding escalated_lockout
escalated_lockout-eq_min zero n h = ground arith
escalated_lockout-eq_min (suc b) zero h = ground arith
escalated_lockout-eq_min (suc b) (suc n) h =
    ground (arith, double_capped_lem (suc (suc n) - 1) (suc b))

pub escalated_lockout-le :
    (base n : ℕ) → base ≤ max_lockout → escalated_lockout base (suc n) ≤ max_lockout
escalated_lockout-le base n h = omega (arith, escalated_lockout-eq_min base n h)

pub le-escalated_lockout : (base n : ℕ) → base ≤ max_lockout → base ≤ escalated_lockout base (suc n)
le-escalated_lockout base n h = omega (arith, escalated_lockout-eq_min base n h, le-mul_pow n base)
