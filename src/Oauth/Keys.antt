-- ===== src/Oauth/Keys.antt =====
-- `EnsureSigningKey` of internal/oauth/jwt.go. The PEM form of a key and the generation of one from
-- random bytes are parameters. `meanwhile` is what other processes do to the database between the
-- first look at it and the insertion of a new key.
pub mod Agreed
mod Tests
use fund_dashboard.Prelude.{
  ℕ, Bool, true, false, not, [], Option, none, some, if◌then◌else◌, Bytes, bytes, beq,
}
use fund_dashboard.Go.Text.{trim_space}
use fund_dashboard.Oauth.State.{
  SigningKey, Server, plain, success, Flow, ◌>>=◌, ◌>>◌, pure, raise, read_random, unix,
}
use fund_dashboard.Oauth.Store.{load_signing_key, insert_signing_key_if_absent}

-- `signingKey`: the id and the private key, as its PEM text.
pub record Key : Type 0 where
  pub kid : Bytes
  pub private_pem : Bytes
  pub jwk_json : Bytes

pub record Keys : Type 0 where
  pub parse_private_key_pem : Bytes → Option Key
  pub generate : Bytes → Option Key

module _ (k : Keys) where
  parsed : Option Key → Flow Key
  parsed none = raise plain
  parsed (some key) = pure key

  generate_signing_key : Flow Key
  generate_signing_key = do seed ← read_random; parsed (k.generate seed)

  abbrev pub row_of : ℕ → Key → SigningKey
  row_of now key = record {
    kid = key.kid;
    algorithm = bytes "ES256";
    private_key_pem = key.private_pem;
    public_jwk_json = key.jwk_json;
    created_at = unix now;
  }

  adopt : Option SigningKey → Flow Key
  adopt none = raise plain
  adopt (some row) = parsed (k.parse_private_key_pem row.private_key_pem)

  -- The loser of a race adopts the winner's key.
  settle : Key → Bool → Flow Key
  settle key true = pure key
  settle key false = load_signing_key >>= adopt

  pub wait : (Server → Server) → Flow (Unit {0})
  wait meanwhile w = (success tt, meanwhile w)

  create : (Server → Server) → ℕ → Flow Key
  create meanwhile now = do
    key ← generate_signing_key
    wait meanwhile
    inserted ← insert_signing_key_if_absent (row_of now key)
    settle key inserted

  or_create : (Server → Server) → ℕ → Option SigningKey → Flow Key
  or_create meanwhile now (some row) = adopt (some row)
  or_create meanwhile now none = create meanwhile now

  -- With the configured key and whether there is a database; the answer is the active key.
  pub ensure_signing_key : (Server → Server) → ℕ → Bytes → Bool → Flow Key
  ensure_signing_key meanwhile now signing_key_pem has_store =
      let pem = trim_space signing_key_pem in
      if not (beq pem [])
      then parsed (k.parse_private_key_pem pem)
      else if not has_store
      then generate_signing_key
      else load_signing_key >>= or_create meanwhile now
