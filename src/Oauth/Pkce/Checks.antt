-- ===== src/Oauth/Pkce/Checks.antt =====
-- The checks of a code challenge and of a code verifier, as conditions.
use fund_dashboard.Prelude.{
  ==_iff, ◌≤◌, ◌≡◌, ◌↔◌, ◌⊎◌, Bool, true, ◌&&◌, [], ◌∷◌, arith, refl, ◌==◌, Bytes, beq, beq_iff,
  length, All, Bool-cases, inl, inr, ap,
}
use fund_dashboard.Go.Base64.{url, encode}
use fund_dashboard.Oauth.Pkce.{
  s256, is_s256, is_unreserved, all_unreserved, validate_code_challenge, same_bytes, subtle_equal,
  verify_code_verifier,
}

same_bytes_iff :
    (z : Bool) (x y : Bytes)
    → length x ≡ length y
    → (same_bytes z x y ≡ true) ↔ ((z ≡ true) × (beq x y ≡ true))
unfolding same_bytes beq
same_bytes_iff z [] [] h = ground arith
same_bytes_iff z [] (b ∷ y) h = ground arith
same_bytes_iff z (a ∷ x) [] h = ground arith
same_bytes_iff z (a ∷ x) (b ∷ y) h =
    ground (arith, same_bytes_iff (z && (a == b)) x y (omega arith))

-- The comparison in constant time is equality.
pub subtle_equal_iff : (x y : Bytes) → (subtle_equal x y ≡ true) ↔ (x ≡ y)
unfolding subtle_equal
subtle_equal_iff x y = elim (Bool-cases (length x == length y)) [
  | inl same ↦
      ground
        (arith, same_bytes_iff true x y ((==_iff (length x) (length y)).0 same), beq_iff x y, same)
  | inr differ ↦
      (λ h. absurd (ground arith), λ e. absurd (ground (arith, ap (λ (s : Bytes). length s) e)))
]

beq_self : beq s256 s256 ≡ true
unfolding beq
beq_self = refl

is_s256_iff : (method : Bytes) → (is_s256 method ≡ true) ↔ ((method ≡ []) ⊎ (method ≡ s256))
unfolding is_s256
is_s256_iff method = elim (Bool-cases (beq method [])) [
  | inl e ↦ (λ h. inl ((beq_iff method []).0 e), λ h. rw e beq_self)
  | inr e ↦ (
    λ h. inr ((beq_iff method s256).0 (rw e at h)),
    λ h. rw e (elim h [
      | inl n ↦ absurd (ground (arith, e, (beq_iff method []).1 n))
      | inr q ↦ (beq_iff method s256).1 q
    ]),
  )
]

nonempty : (s : Bytes) → (beq s [] ≡ true) ↔ (length s ≡ 0)
unfolding beq
nonempty [] = ground arith
nonempty (c ∷ s) = ground arith

all_unreserved_iff : (s : Bytes) → (all_unreserved s ≡ true) ↔ All (λ c. is_unreserved c ≡ true) s
unfolding all_unreserved
all_unreserved_iff [] = ground arith
all_unreserved_iff (c ∷ s) = ground (arith, all_unreserved_iff s)

challenge_tests :
    (challenge method : Bytes)
    → (validate_code_challenge challenge method ≡ true) ↔ (
        (43 ≤ length challenge)
        × (length challenge ≤ 128)
        × (all_unreserved challenge ≡ true)
        × (is_s256 method ≡ true))
unfolding validate_code_challenge
challenge_tests challenge method = ground (arith, nonempty challenge)

-- A challenge is accepted exactly when it has 43 to 128 characters, all of them unreserved, and the
-- method is S256 or left out.
pub validate_code_challenge_iff :
    (challenge method : Bytes)
    → (validate_code_challenge challenge method ≡ true) ↔ (
        (43 ≤ length challenge)
        × (length challenge ≤ 128)
        × All (λ c. is_unreserved c ≡ true) challenge
        × ((method ≡ []) ⊎ (method ≡ s256)))
validate_code_challenge_iff challenge method =
    let tests = challenge_tests challenge method in
    let shape = all_unreserved_iff challenge in
    let name = is_s256_iff method in
    (
      λ h. let (lo, hi, u, m) = tests.0 h in (lo, hi, shape.0 u, name.0 m),
      λ h. let (lo, hi, u, m) = h in tests.1 (lo, hi, shape.1 u, name.1 m),
    )

-- A verifier is accepted exactly when it has 43 to 128 characters and the challenge is its SHA-256
-- in base64url, and is not empty.
pub verify_code_verifier_iff :
    (sha256 : Bytes → Bytes) (verifier challenge : Bytes)
    → (verify_code_verifier sha256 verifier challenge ≡ true) ↔ (
        (43 ≤ length verifier)
        × (length verifier ≤ 128)
        × ((challenge ≡ []) → ⊥)
        × (encode url (sha256 verifier) ≡ challenge))
unfolding verify_code_verifier
verify_code_verifier_iff sha256 verifier challenge = ground (
  arith,
  subtle_equal_iff (encode url (sha256 verifier)) challenge,
  beq_iff challenge [],
  beq_iff verifier [],
)
