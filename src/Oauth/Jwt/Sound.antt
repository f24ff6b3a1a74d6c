-- ===== src/Oauth/Jwt/Sound.antt =====
-- What `VerifyAccessToken` of internal/oauth/jwt.go has checked when it answers a token.
use fund_dashboard.Prelude.{
  Bool-cases, inl, inr, ◌==◌, ==_iff, if◌then◌else◌, not, take, drop, ℕ, ◌+◌, ◌≤◌, ◌<◌, ◌≡◌, true,
  List, [], ◌∷◌, ◌++◌, Option, none, some, refl, arith, Bytes, beq_iff, length, sym, ap,
}
use fund_dashboard.Go.Base64.{url, decode}
use fund_dashboard.Go.Text.{trim_space, split}
use fund_dashboard.Oauth.State.{unix}
use fund_dashboard.Oauth.Signing.{Claims, Header, alg_es256, set_bytes, raw_to_asn1_es256}
use fund_dashboard.Oauth.Jwt.{
  Verifier, AccessToken, must_asn1, check_numbers, max_future_issued_at_skew, access_of,
  check_claims, read_body, check_signature, read_head, check_header, check_segments,
  verify_access_token,
}

-- The claims are for the audience, by the issuer, in time, and the token is what they say.
abbrev IsTimely : ℕ → Bytes → Bytes → AccessToken → Claims → Type 0
IsTimely now issuer audience t claims =
    (claims.issuer ≡ issuer)
    × (claims.audience ≡ audience)
    × (unix now < claims.expiry)
    × (claims.issued_at ≤ unix now + max_future_issued_at_skew)
    × (access_of claims ≡ t)

claims_sound :
    (now : ℕ) (issuer audience : Bytes) (o : Option Claims) (t : AccessToken)
    → check_claims now issuer audience o ≡ some t
    → (claims : Claims) × (o ≡ some claims) × IsTimely now issuer audience t claims
unfolding check_claims
claims_sound now issuer audience none t e = absurd (ground (arith, e))
claims_sound now issuer audience (some c) t e =
    (c, refl, ground (arith, e, beq_iff c.issuer issuer, beq_iff c.audience audience))

module _ (v : Verifier) (now : ℕ) (issuer audience : Bytes) where
  body_some :
      (o : Option Bytes) (claims : Claims)
      → read_body v now issuer audience o ≡ some claims
      → (text : Bytes) × (o ≡ some text) × (v.read_claims text ≡ some claims)
  unfolding read_body
  body_some none claims e = absurd (ground (arith, e))
  body_some (some text) claims e = (text, refl, e)

  head_some :
      (o : Option Bytes) (h : Header)
      → read_head v now issuer audience o ≡ some h
      → (text : Bytes) × (o ≡ some text) × (v.read_header text ≡ some h)
  unfolding read_head
  head_some none h e = absurd (ground (arith, e))
  head_some (some text) h e = (text, refl, e)

  abbrev IsSignedBy : Bytes → Bytes → Bytes → AccessToken → Type 0
  IsSignedBy header body signature t =
      ((raw : Bytes) × (decode url signature ≡ some raw)
        × (length raw ≡ 64)
        × (v.verify_asn1 (v.sha256 (header ++ b'.' ∷ body))
              (must_asn1 v (set_bytes (take 32 raw)) (set_bytes (drop 32 raw)))
            ≡ true))
      × ((claims : Claims) × (text : Bytes) × (decode url body ≡ some text)
          × (v.read_claims text ≡ some claims)
          × IsTimely now issuer audience t claims)

  signature_sound :
      (header body signature : Bytes) (o : Option Bytes) (t : AccessToken)
      → decode url signature ≡ o
      → check_signature v now issuer audience header body o ≡ some t
      → IsSignedBy header body signature t
  unfolding check_signature check_numbers raw_to_asn1_es256
  signature_sound header body signature none t h e = absurd (ground (arith, e))
  signature_sound header body signature (some raw) t h e =
      let r = set_bytes (take 32 raw) in
      let ss = set_bytes (drop 32 raw) in
      let digest = v.sha256 (header ++ b'.' ∷ body) in
      let read = read_body v now issuer audience (decode url body) in
      elim (Bool-cases (length raw == 64)) [
        | inl size ↦
            let numbers : (if not (v.verify_asn1 digest (must_asn1 v r ss))
                  then none
                  else check_claims now issuer audience read)
                ≡ some t =
              rw size at e in
            let (valid, rest) : (v.verify_asn1 digest (must_asn1 v r ss) ≡ true)
                × (check_claims now issuer audience read ≡ some t) =
              ground (arith, numbers) in
            let (claims, found, timely) = claims_sound now issuer audience read t rest in
            let (text, there, given) = body_some (decode url body) claims found in
            ((raw, h, (==_iff (length raw) 64).0 size, valid), (claims, text, there, given, timely))
        | inr wrong ↦ absurd (ground (arith, (rw wrong at e)))
      ]

  header_sound :
      (kid header body signature : Bytes) (o : Option Header) (t : AccessToken)
      → check_header v now issuer audience kid header body signature o ≡ some t
      → ((h : Header) × (o ≡ some h) × (h.alg ≡ alg_es256) × (h.kid ≡ kid))
        × IsSignedBy header body signature t
  unfolding check_header
  header_sound kid header body signature none t e = absurd (ground (arith, e))
  header_sound kid header body signature (some h) t e =
      let (alg, same, rest) : (h.alg ≡ alg_es256)
          × (h.kid ≡ kid)
          × (check_signature v now issuer audience header body (decode url signature) ≡ some t) =
        ground (arith, e, beq_iff h.alg alg_es256, beq_iff h.kid kid) in
      (
        (h, refl, alg, same),
        signature_sound header body signature (decode url signature) t refl rest,
      )

  abbrev IsVerified : Bytes → List Bytes → AccessToken → Type 0
  IsVerified kid parts t =
      (header : Bytes) × (body : Bytes) × (signature : Bytes) × (parts
        ≡ header ∷ body ∷ signature ∷ [])
      × ((h : Header) × (text : Bytes) × (decode url header ≡ some text)
          × (v.read_header text ≡ some h)
          × (h.alg ≡ alg_es256)
          × (h.kid ≡ kid))
      × IsSignedBy header body signature t

  parts_sound :
      (kid : Bytes) (parts : List Bytes) (t : AccessToken)
      → check_segments v now issuer audience kid parts ≡ some t
      → IsVerified kid parts t
  unfolding check_segments
  parts_sound kid [] t e = absurd (ground (arith, e))
  parts_sound kid (a ∷ []) t e = absurd (ground (arith, e))
  parts_sound kid (a ∷ b ∷ []) t e = absurd (ground (arith, e))
  parts_sound kid (a ∷ b ∷ c ∷ d ∷ r) t e = absurd (ground (arith, e))
  parts_sound kid (a ∷ b ∷ c ∷ []) t e =
      let (head, signed) =
        header_sound kid a b c (read_head v now issuer audience (decode url a)) t e in
      let (h, read, alg, same) = head in
      let (text, found, given) = head_some (decode url a) h read in
      (a, b, c, refl, (h, text, found, given, alg, same), signed)

-- A token that verifies has three parts; its header names ES256 and the active key; its third part
-- is a signature of 64 bytes whose two halves are valid for the first two parts; and its claims are
-- by the issuer, for the audience, not expired and not issued more than five minutes ahead, and are
-- what is answered.
pub verify_sound :
    (v : Verifier) (now : ℕ) (issuer audience : Bytes) (key : Option Bytes) (token : Bytes)
    (t : AccessToken)
    → verify_access_token v now issuer audience key token ≡ some t
    → (header : Bytes) × (body : Bytes) × (signature : Bytes) × (split b'.' (trim_space token)
        ≡ header ∷ body ∷ signature ∷ [])
      × ((h : Header) × (text : Bytes) × (decode url header ≡ some text)
          × (v.read_header text ≡ some h)
          × (h.alg ≡ alg_es256)
          × (key ≡ some h.kid))
      × ((raw : Bytes) × (decode url signature ≡ some raw)
          × (length raw ≡ 64)
          × (v.verify_asn1
                (v.sha256 (header ++ b'.' ∷ body))
                (must_asn1 v (set_bytes (take 32 raw)) (set_bytes (drop 32 raw)))
              ≡ true))
      × ((claims : Claims) × (text : Bytes) × (decode url body ≡ some text)
          × (v.read_claims text ≡ some claims)
          × (claims.issuer ≡ issuer)
          × (claims.audience ≡ audience)
          × (unix now < claims.expiry)
          × (claims.issued_at ≤ unix now + max_future_issued_at_skew)
          × (access_of claims ≡ t))
unfolding verify_access_token
verify_sound v now issuer audience none token t e = absurd (ground (arith, e))
verify_sound v now issuer audience (some kid) token t e =
    let (
      header,
      body,
      signature,
      parts,
      (h, text, found, read, alg, same),
      (signed, (claims, ctext, cfound, cread, timely)),
    ) =
      parts_sound v now issuer audience kid (split b'.' (trim_space token)) t e in
    (
      header,
      body,
      signature,
      parts,
      (h, text, found, read, alg, ap (λ (x : Bytes). some x) (sym same)),
      signed,
      (claims, ctext, cfound, cread, timely.0, timely.1, timely.2, timely.3, timely.4),
    )
