-- ===== src/Oauth/Jwt/Signed.antt =====
-- `SignAccessToken` and `VerifyAccessToken` of internal/oauth/jwt.go, one after the other.
use fund_dashboard.Prelude.{
  ℕ, ◌+◌, ◌≤◌, ◌<◌, ◌≡◌, true, List, [], ◌∷◌, ◌++◌, some, refl, arith, Bytes, beq_iff, ap, All, ◌∙◌,
}
use mathlib.Core.List.{append_assoc}
use fund_dashboard.Go.Base64.{url, encode, decode-encode, encode_above, encode_dotless, IsByte}
use fund_dashboard.Go.Text.{trim_space, trim_space_dense, split, split_piece, split_last}
use fund_dashboard.Oauth.State.{Server, success, unix}
use fund_dashboard.Oauth.Signing.{
  Claims, Header, Signer, alg_es256, access_header, signing_input, raw_to_asn1_es256,
}
use fund_dashboard.Oauth.Signing.Raw.{append-All, IsCoordinate, sign_es256-read}
use fund_dashboard.Oauth.Flow.{Service, sign_access_token}
use fund_dashboard.Oauth.Flow.Exchange.{good}
use fund_dashboard.Oauth.Flow.Mint.{IsSigned, sign-IsSigned}
use fund_dashboard.Oauth.Jwt.{
  Verifier, must_asn1, check_numbers, max_future_issued_at_skew, access_of, check_claims, read_body,
  check_signature, read_head, check_header, check_segments, verify_access_token,
}

-- The parts of a token whose parts are in base64url.
compact-parts :
    (head body raw : Bytes)
    → All IsByte head
    → All IsByte body
    → All IsByte raw
    → split b'.' (trim_space (encode url head ++ b'.' ∷ (encode url body ++ b'.' ∷ encode url raw)))
      ≡ encode url head ∷ encode url body ∷ encode url raw ∷ []
compact-parts head body raw h b r =
    let H = encode url head in
    let B = encode url body in
    let R = encode url raw in
    let dense : All (λ c. 43 ≤ c) (H ++ b'.' ∷ (B ++ b'.' ∷ R)) =
      append-All (λ c. 43 ≤ c) H (b'.' ∷ (B ++ b'.' ∷ R)) (encode_above url head h)
        (
          omega arith,
          append-All (λ c. 43 ≤ c) B (b'.' ∷ R) (encode_above url body b)
              (omega arith, encode_above url raw r),
        ) in
    rw
      (
        trim_space_dense (H ++ b'.' ∷ (B ++ b'.' ∷ R)) dense,
        split_piece b'.' H (B ++ b'.' ∷ R) (encode_dotless url head h),
        split_piece b'.' B R (encode_dotless url body b),
        split_last b'.' R (encode_dotless url raw r),
      )
      refl

signed-verifies :
    (v : Verifier) (now : ℕ) (claims : Claims) (head body raw kid r ss : Bytes) (h : Header)
    → All IsByte head
    → All IsByte body
    → All IsByte raw
    → v.read_header head ≡ some h
    → h.alg ≡ alg_es256
    → h.kid ≡ kid
    → raw_to_asn1_es256 raw ≡ some (r, ss)
    → v.verify_asn1 (v.sha256 (encode url head ++ b'.' ∷ encode url body)) (must_asn1 v r ss) ≡ true
    → v.read_claims body ≡ some claims
    → unix now < claims.expiry
    → claims.issued_at ≤ unix now + max_future_issued_at_skew
    → check_segments v now claims.issuer claims.audience kid
        (encode url head ∷ encode url body ∷ encode url raw ∷ [])
      ≡ some (access_of claims)
unfolding check_segments check_header check_signature check_numbers check_claims read_head read_body
signed-verifies v now claims head body raw kid r ss h hb bb rb read alg same numbers valid said live
      timely =
    rw
      (
        decode-encode url head hb,
        read,
        decode-encode url raw rb,
        numbers,
        decode-encode url body bb,
        said,
      )
      (ground (
        arith,
        (beq_iff h.alg alg_es256).1 alg,
        (beq_iff h.kid kid).1 same,
        valid,
        (beq_iff claims.issuer claims.issuer).1 refl,
        (beq_iff claims.audience claims.audience).1 refl,
        live,
        timely,
      ))

-- A token that the server signs verifies under the id of its key as its claims, until it expires
-- and from five minutes before its issue. For one SHA-256 on both sides, signatures of ECDSA that
-- are valid for their digest and hold two positive numbers below 2 ^ 256, ASN.1 that is written as
-- it was read, and JSON of headers and of these claims that is bytes and is read as it was written.
pub sign_verify :
    (c : Signer) (v : Verifier) (s : Service) (w : Server) (now : ℕ) (claims : Claims)
    (token : Bytes)
    → ((x : Bytes) → v.sha256 x ≡ c.sha256 x)
    → ((digest seed der : Bytes)
        → c.sign_asn1 digest seed ≡ some der
        → v.verify_asn1 digest der ≡ true)
    → ((digest seed der r ss : Bytes)
        → c.sign_asn1 digest seed ≡ some der
        → c.read_asn1 der ≡ some (r, ss)
        → IsCoordinate r × IsCoordinate ss × (v.write_asn1 r ss ≡ some der))
    → ((h : Header) → v.read_header (c.header_json h) ≡ some h)
    → v.read_claims (c.claims_json claims) ≡ some claims
    → All IsByte (c.header_json (access_header c.kid))
    → All IsByte (c.claims_json claims)
    → unix now < claims.expiry
    → claims.issued_at ≤ unix now + max_future_issued_at_skew
    → (sign_access_token c s claims w).0 ≡ success token
    → verify_access_token v now claims.issuer claims.audience (some c.kid) token
      ≡ some (access_of claims)
unfolding verify_access_token signing_input must_asn1
sign_verify c v s w now claims token sha ecdsa asn1 header said hb bb live timely ok =
    let head = c.header_json (access_header c.kid) in
    let body = c.claims_json claims in
    let input = encode url head ++ b'.' ∷ encode url body in
    let (seed, raw, signed, made) =
      good (IsSigned c s claims) (sign_access_token c s claims w).0 token
        (sign-IsSigned c s claims w tt).1 ok in
    let (der, r, ss, from, read, rb, numbers) =
      sign_es256-read c (c.sha256 input) seed raw
        (λ der r ss q f.
          let (first, second, back) = asn1 (c.sha256 input) seed der r ss q f in (first, second))
        signed in
    let back : v.write_asn1 r ss ≡ some der = (asn1 (c.sha256 input) seed der r ss from read).2 in
    let proven : v.verify_asn1 (v.sha256 input) (must_asn1 v r ss) ≡ true =
      rw (sha input, back) (ecdsa (c.sha256 input) seed der from) in
    let same : token ≡ encode url head ++ (b'.' ∷ (encode url body ++ b'.' ∷ encode url raw)) =
      made ∙ append_assoc (encode url head) (b'.' ∷ encode url body) (b'.' ∷ encode url raw) in
    ap
      (λ (x : Bytes).
        check_segments v now claims.issuer claims.audience c.kid (split b'.' (trim_space x)))
      same
    ∙ ap (λ (x : List Bytes). check_segments v now claims.issuer claims.audience c.kid x)
        (compact-parts head body raw hb bb rb)
    ∙ signed-verifies v now claims head body raw c.kid r ss (access_header c.kid) hb bb rb
        (header (access_header c.kid)) refl refl numbers proven said live timely
