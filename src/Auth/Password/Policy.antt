-- ===== src/Auth/Password/Policy.antt =====
-- The password rules, as one condition on the bytes.
use fund_dashboard.Prelude.{
  ℕ, ◌≤◌, ◌≡◌, ◌↔◌, Bool, true, false, ◌&&◌, ◌||◌, not, [], ◌∷◌, arith, refl, Bytes, length,
}
use fund_dashboard.Auth.Password.{validate_password, letter_and_digit, is_letter, is_digit}

-- Some byte passes a test.
pub any : (ℕ → Bool) → Bytes → Bool
any p [] = false
any p (c ∷ s) = p c || any p s

-- A letter is no digit, so the order of the cases does not matter.
letter_no_digit : (c : ℕ) → is_letter c ≡ true → is_digit c ≡ false
unfolding is_letter is_digit
letter_no_digit c h = ground arith

letter_and_digit_lem :
    (l d : Bool) (s : Bytes)
    → l && d ≡ false
    → letter_and_digit l d s ≡ (l || any is_letter s) && (d || any is_digit s)
unfolding letter_and_digit any
letter_and_digit_lem l d [] h = ground arith
letter_and_digit_lem l d (c ∷ s) h = ground (
  arith,
  letter_no_digit c,
  letter_and_digit_lem (l || is_letter c) (d || (not (is_letter c) && is_digit c)) s,
)

-- A password is accepted exactly when it has 12 to 256 bytes, among them an ASCII letter and an
-- ASCII digit.
validate_password_iff :
    (s : Bytes)
    → (validate_password s ≡ true)
      ↔ ((12 ≤ length s) × (length s ≤ 256) × (any is_letter s ≡ true) × (any is_digit s ≡ true))
unfolding validate_password
validate_password_iff s = ground (arith, letter_and_digit_lem false false s refl)
