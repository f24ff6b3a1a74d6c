-- ===== src/Oauth/State.antt =====
-- The state of the authorization server of internal/oauth: pending codes and consent screens in
-- memory, and the tables oauth_clients, oauth_refresh_tokens, oauth_client_consents and
-- oauth_signing_key. A SQL statement fails by a schedule and has then changed nothing. Codes and
-- screens expire at nanoseconds, rows at seconds.
pub mod Ensures
pub mod Reaches
pub mod Answers
use fund_dashboard.Prelude.{
  ℕ, ◌/◌, Bool, true, false, List, [], ◌∷◌, Option, none, some, Bytes, second,
}

pub record Grant : Type 0 where
  pub client_id : Bytes
  pub redirect_uri : Bytes
  pub scopes : List Bytes
  pub resource : Bytes
  pub code_challenge : Bytes
  pub code_challenge_method : Bytes
  pub session_id : Bytes
  pub authorized_at : ℕ

pub record CodeEntry : Type 0 where
  pub grant : Grant
  pub expires_at : ℕ

-- `redirect` is empty until a decision.
pub record ConsentEntry : Type 0 where
  pub grant : Grant
  pub state : Bytes
  pub expires_at : ℕ
  pub redirect : Bytes

-- A client, without the flag of a metadata document.
pub record Client : Type 0 where
  pub id : Bytes
  pub name : Bytes
  pub redirect_uris : List Bytes
  pub grant_types : List Bytes
  pub token_endpoint_auth_method : Bytes
  pub scope : Bytes
  pub client_uri : Bytes
  pub registration_access_token : Bytes
  pub created_at : ℕ

pub record SigningKey : Type 0 where
  pub kid : Bytes
  pub algorithm : Bytes
  pub private_key_pem : Bytes
  pub public_jwk_json : Bytes
  pub created_at : ℕ

-- A row of oauth_refresh_tokens; NULL is `none`.
pub record RefreshToken : Type 0 where
  pub id : Bytes
  pub client_id : Bytes
  pub scope : Bytes
  pub resource : Bytes
  pub created_at : ℕ
  pub expires_at : ℕ
  pub revoked_at : Option ℕ

-- A row of oauth_client_consents.
pub record Approval : Type 0 where
  pub client_id : Bytes
  pub scope : Bytes
  pub approved_at : ℕ

-- A Go map with text keys, as the function of its lookups.
abbrev pub Table : Type 0 → Type 0
Table V = Bytes → Option V

pub record Server : Type 0 where
  pub codes : Table CodeEntry
  pub screens : Table ConsentEntry
  pub clients : List Client
  pub tokens : List RefreshToken
  pub approvals : List Approval
  pub signing_key : Option SigningKey
  pub faults : List Bool
  pub entropy : List (Option Bytes)

-- The code of a `Failure`; `plain` is an error that is none.
pub data Failure : Type 0 where
  invalid_request invalid_client invalid_grant unsupported_grant_type : Failure
  unsupported_response_type invalid_redirect_uri server_error plain : Failure

pub data Outcome (A : Type 0) : Type 0 where
  success : A → Outcome A
  failed : Failure → Outcome A

abbrev pub Flow : Type 0 → Type 0
Flow A = Server → Outcome A × Server

infixl 5 ◌>>=◌ ◌>>◌
abbrev pub ◌>>=◌ : {A B : Type 0} → Flow A → (A → Flow B) → Flow B
◌>>=◌ m f w = elim (m w).0 [ success a ↦ f a (m w).1 | failed e ↦ (failed e, (m w).1) ]

abbrev pub ◌>>◌ : {B : Type 0} → Flow (Unit {0}) → Flow B → Flow B
◌>>◌ m k = m >>= λ _. k

abbrev pub pure : {A : Type 0} → A → Flow A
pure a w = (success a, w)

abbrev pub raise : {A : Type 0} → Failure → Flow A
raise e w = (failed e, w)

-- An action whose error is answered as a server error.
abbrev pub as_server_error : {A : Type 0} → Flow A → Flow A
as_server_error m w = elim (m w).0 [
  | success a ↦ (success a, (m w).1)
  | failed e ↦ (failed server_error, (m w).1)
]

abbrev succeed : {A : Type 0} → A × Server → Outcome A × Server
succeed (a, w) = (success a, w)

run_query : {A : Type 0} → List Bool → (Server → A × Server) → Flow A
run_query [] f w = succeed (f w)
run_query (true ∷ rest) f w = (failed plain, record w { faults = rest })
run_query (false ∷ rest) f w = succeed (f (record w { faults = rest }))

unfoldable pub query : {A : Type 0} → (Server → A × Server) → Flow A
unfolding run_query
query f w = run_query w.faults f w

-- `rand.Read`: the next of the reads to come.
abbrev pub take_random : List (Option Bytes) → Flow Bytes
take_random [] w = (failed plain, w)
take_random (some b ∷ rest) w = (success b, record w { entropy = rest })
take_random (none ∷ rest) w = (failed plain, record w { entropy = rest })

abbrev pub read_random : Flow Bytes
read_random w = take_random w.entropy w

-- `t.Unix()`.
abbrev pub unix : ℕ → ℕ
unix t = t / second
