-- ===== src/Oauth/Pkce.antt =====
-- The PKCE checks of internal/oauth/pkce.go. SHA-256 is a parameter.
pub mod Checks
use fund_dashboard.Prelude.{
  ℕ, Bool, true, false, ◌&&◌, ◌||◌, not, List, [], ◌∷◌, leb, ltb, ◌==◌, if◌then◌else◌, Bytes, bytes,
  beq, length,
}
use fund_dashboard.Go.Base64.{url, encode}

abbrev pub s256 : Bytes
s256 = bytes "S256"

-- The unreserved characters of RFC 7636.
unfoldable pub is_unreserved : ℕ → Bool
is_unreserved c =
    (leb b'a' c && leb c b'z' || leb b'A' c && leb c b'Z' || leb b'0' c && leb c b'9')
    || (c == b'-' || c == b'.' || c == b'_' || c == b'~')

unfoldable pub all_unreserved : Bytes → Bool
all_unreserved [] = true
all_unreserved (c ∷ s) = let rest = all_unreserved s in if is_unreserved c then rest else false

-- The method is S256, which is also the default.
unfoldable pub is_s256 : Bytes → Bool
is_s256 method = beq (if beq method [] then s256 else method) s256

-- `ValidateCodeChallenge`: whether there is no error.
unfoldable pub validate_code_challenge : Bytes → Bytes → Bool
validate_code_challenge challenge method =
    if beq challenge []
    then false
    else if not (is_s256 method)
    then false
    else if ltb (length challenge) 43 || ltb 128 (length challenge)
    then false
    else all_unreserved challenge

-- The accumulator `diff` is kept as whether it is zero: `a ^ b` is zero for equal bytes only, and
-- `|=` keeps a zero only from two.
unfoldable pub same_bytes : Bool → Bytes → Bytes → Bool
same_bytes zero_diff (a ∷ x) (b ∷ y) = same_bytes (zero_diff && (a == b)) x y
same_bytes zero_diff _ _ = zero_diff

unfoldable pub subtle_equal : Bytes → Bytes → Bool
subtle_equal a b = if not (length a == length b) then false else same_bytes true a b

unfoldable pub verify_code_verifier : (Bytes → Bytes) → Bytes → Bytes → Bool
verify_code_verifier sha256 verifier challenge =
    if beq verifier [] || beq challenge []
    then false
    else if ltb (length verifier) 43 || ltb 128 (length verifier)
    then false
    else subtle_equal (encode url (sha256 verifier)) challenge
