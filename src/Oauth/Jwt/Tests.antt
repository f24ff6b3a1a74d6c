-- ===== src/Oauth/Jwt/Tests.antt =====
-- A signed access token and its verification, on concrete values.
use fund_dashboard.Prelude.{
  take-append, drop-append, Option, take, drop, beq_iff, sym, ap, ◌∙◌, ◌+◌, ◌*◌, ◌≤◌, ◌<◌, ◌≡◌,
  true, false, Bool, [], ◌∷◌, ◌++◌, none, some, refl, arith, Bytes, bytes, beq, length, second,
  hour, All, subst, ltb, ◌&&◌, if◌then◌else◌,
}
use fund_dashboard.Go.Base64.{url, encode, decode, IsByte}
use fund_dashboard.Go.Text.{trim_space, split}
use fund_dashboard.Oauth.State.{Server, success, unix}
use fund_dashboard.Oauth.Signing.{
  Claims, Header, Signer, alg_es256, access_header, signing_input, sign_es256, set_bytes,
  raw_to_asn1_es256,
}
use fund_dashboard.Oauth.Signing.Raw.{IsCoordinate}
use fund_dashboard.Oauth.Flow.{Service, sign_access_token, compact, scope_read}
use fund_dashboard.Oauth.Jwt.{
  Verifier, must_asn1, check_numbers, max_future_issued_at_skew, access_of, check_claims, read_body,
  check_signature, read_head, check_header, check_segments, verify_access_token,
}
use fund_dashboard.Oauth.Jwt.Sound.{verify_sound}
use fund_dashboard.Oauth.Jwt.Signed.{sign_verify}

all_bytes : Bytes → Bool
all_bytes [] = true
all_bytes (c ∷ s) = ltb c 256 && all_bytes s

all_bytes-IsByte : (s : Bytes) → all_bytes s ≡ true → All IsByte s
unfolding all_bytes
all_bytes-IsByte [] h = tt
all_bytes-IsByte (c ∷ s) h = ground (arith, h, all_bytes-IsByte s)

abbrev claims : Claims
claims = record {
  issuer = bytes "https://f";
  subject = bytes "fund-owner";
  audience = bytes "https://f/mcp";
  client_id = bytes "cli";
  scope = scope_read;
  expiry = 3600;
  issued_at = 0;
  jwt_id = bytes "j";
  token_type = bytes "at+jwt";
}

-- Stand-ins. The numbers of a signature are of 31 and of 32 bytes, with their sizes before them in DER.
abbrev first : Bytes
first = bytes "123456789abcdef0123456789abcdef"

abbrev other : Bytes
other = bytes "fedcba9876543210fedcba9876543210"

abbrev der : Bytes
der = 31 ∷ (first ++ other)

-- A header is written with the sizes of its first two members before them.
abbrev write_header : Header → Bytes
write_header h = length h.alg ∷ length h.typ ∷ (h.alg ++ (h.typ ++ h.kid))

abbrev read_header : Bytes → Option Header
read_header (n ∷ m ∷ x) =
    some (record { alg = take n x; typ = take m (drop n x); kid = drop m (drop n x) })
read_header _ = none

reads_header : (h : Header) → read_header (write_header h) ≡ some h
reads_header h =
    let rest = h.typ ++ h.kid in
    let alg = take-append h.alg rest in
    let left = drop-append h.alg rest in
    rw (alg, left, take-append h.typ h.kid, drop-append h.typ h.kid) refl

abbrev signer : Signer
signer = record {
  kid = bytes "k";
  sha256 = λ x. x;
  header_json = write_header;
  claims_json = λ c. bytes "b";
  sign_asn1 = λ digest seed. some der;
  read_asn1 = λ x. if beq x der then some (first, other) else none;
}

abbrev verifier : Verifier
verifier = record {
  sha256 = λ x. x;
  read_header = read_header;
  read_claims = λ x. if beq x (bytes "b") then some claims else none;
  write_asn1 = λ r s. some (length r ∷ (r ++ s));
  verify_asn1 = λ digest x. beq x der;
}

abbrev service : Service
service = record {
  options = record {
    public_base_url = [];
    resource_path = bytes "/mcp";
    access_ttl = hour;
    refresh_ttl = 720 * hour;
    code_ttl = 60 * second;
    auto_approve = true;
    allow_write_scope = false;
  };
  has_store = true;
  has_key = true;
}

abbrev server : Server
server = record {
  codes = λ k. none;
  screens = λ k. none;
  clients = [];
  tokens = [];
  approvals = [];
  signing_key = none;
  faults = [];
  entropy = some (bytes "s") ∷ [];
}

abbrev token : Bytes
token =
    (encode url (write_header (access_header (bytes "k"))) ++ b'.' ∷ encode url (bytes "b"))
    ++ b'.' ∷ encode url ((0 ∷ first) ++ other)

signs : (sign_access_token signer service claims server).0 ≡ success token
unfolding sign_access_token compact signing_input sign_es256 beq
signs = refl

is_signature :
    (digest seed x : Bytes)
    → signer.sign_asn1 digest seed ≡ some x
    → verifier.verify_asn1 digest x ≡ true
is_signature digest seed x e =
    let same : der ≡ x = ground (arith, e) in (beq_iff x der).1 (sym same)

first-IsCoordinate : IsCoordinate first
unfolding IsCoordinate all_bytes
first-IsCoordinate = (omega arith, all_bytes-IsByte first refl, omega arith)

other-IsCoordinate : IsCoordinate other
unfolding IsCoordinate all_bytes
other-IsCoordinate = (omega arith, all_bytes-IsByte other refl, omega arith)

are_numbers :
    (digest seed x r s : Bytes)
    → signer.sign_asn1 digest seed ≡ some x
    → signer.read_asn1 x ≡ some (r, s)
    → IsCoordinate r × IsCoordinate s × (verifier.write_asn1 r s ≡ some x)
are_numbers digest seed x r s e f =
    let same : der ≡ x = ground (arith, e) in
    let pair : some (first, other) ≡ some (r, s) =
      sym (rw ((beq_iff der der).1 refl) refl) ∙ ap (λ (y : Bytes). signer.read_asn1 y) same ∙ f in
    let a : first ≡ r = ground (arith, pair) in
    let b : other ≡ s = ground (arith, pair) in
    (
      subst IsCoordinate a first-IsCoordinate,
      subst IsCoordinate b other-IsCoordinate,
      ap (λ (y : Bytes). verifier.write_asn1 y s) (sym a)
          ∙ ap (λ (y : Bytes). verifier.write_asn1 first y) (sym b)
          ∙ ap (λ (y : Bytes). some y) same,
    )

header_bytes : All IsByte (write_header (access_header (bytes "k")))
unfolding all_bytes
header_bytes = all_bytes-IsByte (write_header (access_header (bytes "k"))) refl

reads_claims : verifier.read_claims (bytes "b") ≡ some claims
unfolding beq
reads_claims = refl

verified :
    verify_access_token verifier
      (60 * second)
      claims.issuer
      claims.audience
      (some (bytes "k"))
      token
    ≡ some (access_of claims)
unfolding verify_access_token check_segments check_header check_signature check_numbers check_claims
    raw_to_asn1_es256 must_asn1 read_head read_body beq decode encode split trim_space
verified = refl

sign_verify_example :
    verify_access_token verifier
      (60 * second)
      claims.issuer
      claims.audience
      (some (bytes "k"))
      token
    ≡ some (access_of claims)
sign_verify_example =
    sign_verify signer verifier service server (60 * second) claims token (λ x. refl) is_signature
      are_numbers reads_header reads_claims header_bytes (omega arith) (omega arith) (omega arith)
      signs

verify_sound_example :
    (head : Bytes) × (body : Bytes) × (third : Bytes) × (split b'.' (trim_space token)
      ≡ head ∷ body ∷ third ∷ [])
    × ((h : Header) × (text : Bytes) × (decode url head ≡ some text)
        × (verifier.read_header text ≡ some h)
        × (h.alg ≡ alg_es256)
        × (some (bytes "k") ≡ some h.kid))
    × ((raw : Bytes) × (decode url third ≡ some raw)
        × (length raw ≡ 64)
        × (verifier.verify_asn1
              (verifier.sha256 (head ++ b'.' ∷ body))
              (must_asn1 verifier (set_bytes (take 32 raw)) (set_bytes (drop 32 raw)))
            ≡ true))
    × ((said : Claims) × (text : Bytes) × (decode url body ≡ some text)
        × (verifier.read_claims text ≡ some said)
        × (said.issuer ≡ claims.issuer)
        × (said.audience ≡ claims.audience)
        × (unix (60 * second) < said.expiry)
        × (said.issued_at ≤ unix (60 * second) + max_future_issued_at_skew)
        × (access_of said ≡ access_of claims))
verify_sound_example =
    verify_sound verifier (60 * second) claims.issuer claims.audience (some (bytes "k")) token
      (access_of claims) verified
