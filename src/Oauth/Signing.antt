-- ===== src/Oauth/Signing.antt =====
-- The signing of access tokens in internal/oauth/jwt.go: the text that is signed, and the raw form of a
-- signature. SHA-256, encoding/json, encoding/asn1 and ECDSA are parameters. A `big.Int` is its
-- big-endian bytes without leading zeros, as `Bytes` gives them.
pub mod Raw
use fund_dashboard.Prelude.{
  ℕ, ◌-◌, List, [], ◌∷◌, ◌++◌, Option, none, some, leb, if◌then◌else◌, Bytes, bytes, length, zero,
  suc, not, ◌==◌, take, drop,
}
use fund_dashboard.Go.Base64.{url, encode}

pub record Claims : Type 0 where
  pub issuer : Bytes
  pub subject : Bytes
  pub audience : Bytes
  pub client_id : Bytes
  pub scope : Bytes
  pub expiry : ℕ
  pub issued_at : ℕ
  pub jwt_id : Bytes
  pub token_type : Bytes

-- The members of a token's header.
pub record Header : Type 0 where
  pub alg : Bytes
  pub typ : Bytes
  pub kid : Bytes

abbrev pub alg_es256 : Bytes
alg_es256 = bytes "ES256"

-- The active key: its id, and ECDSA with its private half, which gets a digest and randomness and
-- answers a signature in DER, two numbers. `json.Marshal` does not fail on texts and numbers.
pub record Signer : Type 0 where
  pub kid : Bytes
  pub sha256 : Bytes → Bytes
  pub header_json : Header → Bytes
  pub claims_json : Claims → Bytes
  pub sign_asn1 : Bytes → Bytes → Option Bytes
  pub read_asn1 : Bytes → Option (Bytes × Bytes)

abbrev pub access_header : Bytes → Header
access_header kid = record { alg = alg_es256; typ = bytes "JWT"; kid = kid }

zeros : ℕ → Bytes
zeros zero = []
zeros (suc n) = 0 ∷ zeros n

-- The number at the end of 32 zero bytes. For a longer one the code panics, which is `none` here.
padded_32 : Bytes → Option Bytes
padded_32 number =
    if leb (length number) 32 then some (zeros (32 - length number) ++ number) else none

append_both : Option Bytes → Option Bytes → Option Bytes
append_both (some a) (some b) = some (a ++ b)
append_both _ _ = none

raw_of : Option (Bytes × Bytes) → Option Bytes
raw_of none = none
raw_of (some (r, s)) = append_both (padded_32 r) (padded_32 s)

-- `big.Int.SetBytes`: the number without its leading zeros.
unfoldable pub set_bytes : Bytes → Bytes
set_bytes [] = []
set_bytes (b ∷ bs) = let rest = set_bytes bs in if b == 0 then rest else b ∷ bs

unfoldable pub raw_to_asn1_es256 : Bytes → Option (Bytes × Bytes)
unfolding set_bytes
raw_to_asn1_es256 raw =
    if not (length raw == 64) then none else some (set_bytes (take 32 raw), set_bytes (drop 32 raw))

module _ (c : Signer) where
  pub encode_segment_pair : Header → Claims → Bytes
  encode_segment_pair header claims =
      encode url (c.header_json header) ++ b'.' ∷ encode url (c.claims_json claims)

  unfoldable pub signing_input : Claims → Bytes
  unfolding encode_segment_pair
  signing_input claims = encode_segment_pair (access_header c.kid) claims

  asn1_to_raw_es256 : Bytes → Option Bytes
  asn1_to_raw_es256 der = raw_of (c.read_asn1 der)

  raw_signature : Option Bytes → Option Bytes
  raw_signature none = none
  raw_signature (some der) = asn1_to_raw_es256 der

  -- The raw signature of a digest.
  unfoldable pub sign_es256 : Bytes → Bytes → Option Bytes
  unfolding raw_signature asn1_to_raw_es256 raw_of append_both padded_32 zeros
  sign_es256 digest seed = raw_signature (c.sign_asn1 digest seed)
