-- ===== src/Oauth/Jwt.antt =====
-- `VerifyAccessToken` of internal/oauth/jwt.go. SHA-256, encoding/json, encoding/asn1 and ECDSA are
-- parameters. The errors are one.
pub mod Sound
pub mod Signed
mod Tests
use fund_dashboard.Prelude.{
  ℕ, ◌+◌, Bool, not, List, [], ◌∷◌, ◌++◌, Option, none, some, leb, ltb, ◌==◌, if◌then◌else◌, Bytes,
  bytes, beq, length, take, drop,
}
use fund_dashboard.Go.Base64.{url, decode}
use fund_dashboard.Go.Text.{trim_space, split}
use fund_dashboard.Oauth.State.{unix}
use fund_dashboard.Oauth.Store.{mentions}
use fund_dashboard.Oauth.Signing.{Claims, Header, alg_es256, raw_to_asn1_es256}
use fund_dashboard.Oauth.Flow.{split_scopes}

-- SHA-256, encoding/json, encoding/asn1 on the two numbers of a signature, and ECDSA with the public
-- half of the active key, which gets a digest and a signature in DER.
pub record Verifier : Type 0 where
  pub sha256 : Bytes → Bytes
  pub read_header : Bytes → Option Header
  pub read_claims : Bytes → Option Claims
  pub write_asn1 : Bytes → Bytes → Option Bytes
  pub verify_asn1 : Bytes → Bytes → Bool

-- `expiry` is a second of the Unix epoch.
pub record AccessToken : Type 0 where
  pub issuer : Bytes
  pub audience : Bytes
  pub client_id : Bytes
  pub subject : Bytes
  pub scopes : List Bytes
  pub expiry : ℕ
  pub jwt_id : Bytes

-- Five minutes, in seconds.
abbrev pub max_future_issued_at_skew : ℕ
max_future_issued_at_skew = 300

abbrev pub access_of : Claims → AccessToken
access_of claims = record {
  issuer = claims.issuer;
  audience = claims.audience;
  client_id = claims.client_id;
  subject = claims.subject;
  scopes = split_scopes claims.scope;
  expiry = claims.expiry;
  jwt_id = claims.jwt_id;
}

der_or_nil : Option Bytes → Bytes
der_or_nil none = []
der_or_nil (some out) = out

unfoldable pub must_asn1 : Verifier → Bytes → Bytes → Bytes
unfolding der_or_nil
must_asn1 v r ss = der_or_nil (v.write_asn1 r ss)

module _ (now : ℕ) (issuer audience : Bytes) where
  check_claims : Option Claims → Option AccessToken
  check_claims none = none
  check_claims (some claims) =
      if not (beq claims.issuer issuer)
      then none
      else if not (beq claims.audience audience)
      then none
      else if leb claims.expiry (unix now)
      then none
      else if ltb (unix now + max_future_issued_at_skew) claims.issued_at
      then none
      else some (access_of claims)

module _ (v : Verifier) (now : ℕ) (issuer audience : Bytes) where
  read_body : Option Bytes → Option Claims
  read_body none = none
  read_body (some text) = v.read_claims text

  check_numbers : Bytes → Bytes → Option (Bytes × Bytes) → Option AccessToken
  check_numbers header body none = none
  check_numbers header body (some (r, ss)) =
      if not (v.verify_asn1 (v.sha256 (header ++ b'.' ∷ body)) (must_asn1 v r ss))
      then none
      else check_claims now issuer audience (read_body (decode url body))

  check_signature : Bytes → Bytes → Option Bytes → Option AccessToken
  check_signature header body none = none
  check_signature header body (some raw) = check_numbers header body (raw_to_asn1_es256 raw)

  read_head : Option Bytes → Option Header
  read_head none = none
  read_head (some text) = v.read_header text

  check_header : Bytes → Bytes → Bytes → Bytes → Option Header → Option AccessToken
  check_header kid header body signature none = none
  check_header kid header body signature (some h) =
      if not (beq h.alg alg_es256)
      then none
      else if not (beq h.kid kid)
      then none
      else check_signature header body (decode url signature)

  check_segments : Bytes → List Bytes → Option AccessToken
  check_segments kid (header ∷ body ∷ signature ∷ []) =
      check_header kid header body signature (read_head (decode url header))
  check_segments kid _ = none

  -- For the id of the active key, if there is one.
  unfoldable pub verify_access_token : Option Bytes → Bytes → Option AccessToken
  unfolding check_segments check_header read_head check_signature check_numbers read_body
      check_claims
  verify_access_token none token = none
  verify_access_token (some kid) token = check_segments kid (split b'.' (trim_space token))

pub has_scope : AccessToken → Bytes → Bool
has_scope t scope = mentions t.scopes scope
