-- ===== src/Auth/Service.antt =====
-- internal/auth/service.go: set-up, log-in, sessions with sliding renewal, password change. SHA-256
-- and argon2 are parameters. A method takes the readings of its clock, in seconds of the epoch; TTL
-- and MaxAge are nanoseconds.
pub mod Steps
pub mod Cap
pub mod Login
pub mod Renewal
pub mod Active
pub mod Revoke
pub mod SetUp
pub mod Change
mod Tests
use fund_dashboard.Prelude.{
  ℕ, zero, suc, ◌+◌, ◌*◌, ◌/◌, ◌≤◌, ◌<◌, ◌≡◌, Bool, true, false, ◌&&◌, ◌||◌, not, List, [], ◌∷◌,
  ◌++◌, Option, none, some, leb, ltb, ◌==◌, if◌then◌else◌, Bytes, beq, length, take, keep, map,
  hour, second,
}
use fund_dashboard.Go.Base64.{url, encode}
use fund_dashboard.Go.Text.{hex, trim_space}
use fund_dashboard.Auth.Password.{IdKey, hash_password, verify_password, validate_password}
use fund_dashboard.Auth.Store.{
  Err, Result, ok, err, invalid_credentials, already_initialized, not_initialized, env_managed,
  weak_password, session_not_found, malformed_phc, entropy_error, Session, AuthEvent, World, Exec,
  ◌>>=◌, ◌>>◌, pure, raise, credential_hash, insert_credential_if_absent, update_credential_hash,
  create_session, session_by_id, touch_session, delete_session, delete_session_by_prefix,
  delete_other_sessions, delete_expired_sessions, SessionPage, insert_auth_event,
}
use fund_dashboard.Auth.Store

pub record Crypto : Type 0 where
  pub sha256 : Bytes → Bytes
  pub id_key : IdKey

pub record Options : Type 0 where
  pub env_hash : Bytes
  pub ttl : ℕ
  pub max_age : ℕ

pub record Service : Type 0 where
  pub env_hash : Bytes
  pub ttl : ℕ
  pub max_age : ℕ

-- A duration that is not positive takes the default; the window never passes the absolute cap.
pub new_service : Options → Service
new_service opts =
    let ttl = if opts.ttl == 0 then 720 * hour else opts.ttl in
    let max_age = if opts.max_age == 0 then 2160 * hour else opts.max_age in
    record {
      env_hash = trim_space opts.env_hash;
      ttl = if ltb max_age ttl then max_age else ttl;
      max_age = max_age;
    }

-- `int64(d.Seconds())`.
abbrev pub seconds : ℕ → ℕ
seconds d = d / second

pub session_ttl : Service → ℕ
session_ttl s = s.ttl

abbrev pub is_empty : Bytes → Bool
is_empty [] = true
is_empty (c ∷ s) = false

pub record Status : Type 0 where
  pub initialized : Bool
  pub env_managed : Bool

-- `rand.Read` of so many bytes.
abbrev pub read_random : Exec Bytes
read_random w = elim w.entropy [
  | [] ↦ (err entropy_error, w)
  | some b ∷ rest ↦ (ok b, record w { entropy = rest })
  | none ∷ rest ↦ (err entropy_error, record w { entropy = rest })
]

pub generate_token : Exec Bytes
generate_token = do buf ← read_random; pure (encode url buf)

abbrev or_malformed : Option Bool → Exec Bool
or_malformed none = raise malformed_phc
or_malformed (some b) = pure b

pub get_status : Service → Exec Status
get_status s =
    if not (is_empty s.env_hash)
    then pure (record { initialized = true; env_managed = true })
    else do
      hash ← credential_hash
      pure (record { initialized = not (is_empty hash); env_managed = false })

pub active_hash : Service → Exec Bytes
active_hash s = if not (is_empty s.env_hash) then pure s.env_hash else credential_hash

pub is_lower_hex : Bytes → Bool
is_lower_hex [] = true
is_lower_hex (c ∷ s) =
    let rest = is_lower_hex s in
    if not (leb b'0' c && leb c b'9' || leb b'a' c && leb c b'f') then false else rest

-- The new expiry of a session that is renewed.
pub renewed_expiry : Service → ℕ → Session → ℕ
renewed_expiry s now sess =
    let new_expiry = now + seconds s.ttl in
    let cap = sess.created_at + seconds s.max_age in if ltb cap new_expiry then cap else new_expiry

pub due : Service → ℕ → Session → Bool
due s now sess =
    ltb (sess.last_seen_at + seconds s.ttl / 2) now
    && ltb sess.expires_at (renewed_expiry s now sess)

-- `Authenticate` for what the store returned for an id.
pub admit : Service → ℕ → Bytes → Option Session → Exec (Option Session)
unfolding due
admit s now id none = pure none
admit s now id (some sess) =
    if leb sess.expires_at now
    then pure none
    else if not (due s now sess)
    then pure (some sess)
    else do
      touch_session id now (renewed_expiry s now sess)
      pure (some (record sess { last_seen_at = now; expires_at = renewed_expiry s now sess }))

module _ (c : Crypto) where
  pub token_id : Bytes → Bytes
  token_id token = hex (c.sha256 token)

  pub new_session : Service → ℕ → Bytes → Bytes → Exec Bytes
  new_session s now ip user_agent = do
    token ← generate_token
    create_session (record {
      id = token_id token;
      created_at = now;
      expires_at = now + seconds s.ttl;
      last_seen_at = now;
      ip = ip;
      user_agent = user_agent;
    })
    pure token

  -- The clock is read for the credential and again for the session. The salt is read from the
  -- random source before the token.
  pub setup : Service → Bytes → ℕ → ℕ → Bytes → Bytes → Exec Bytes
  setup s password stored_at opened_at ip user_agent =
      if not (is_empty s.env_hash)
      then raise env_managed
      else if not (validate_password password)
      then raise weak_password
      else do
        salt ← read_random
        inserted ← insert_credential_if_absent (hash_password c.id_key password salt) stored_at
        if not inserted then raise already_initialized else new_session s opened_at ip user_agent

  pub login : Service → Bytes → ℕ → Bytes → Bytes → Exec Bytes
  login s password now ip user_agent = do
    hash ← active_hash s
    if is_empty hash then raise not_initialized else do
      good ← or_malformed (verify_password c.id_key password hash)
      if not good then raise invalid_credentials else new_session s now ip user_agent

  pub authenticate : Service → Bytes → ℕ → Exec (Option Session)
  authenticate s token now = do
    sess ← session_by_id (token_id token)
    admit s now (token_id token) sess

  pub revoke : Bytes → Exec (Unit {0})
  revoke token = if is_empty token then pure tt else delete_session (token_id token)

  pub change_password : Service → Bytes → Bytes → Bytes → ℕ → Exec (Unit {0})
  change_password s current_token old_password new_password now =
      if not (is_empty s.env_hash)
      then raise env_managed
      else if not (validate_password new_password)
      then raise weak_password
      else do
        hash ← credential_hash
        if is_empty hash then raise not_initialized else do
          good ← or_malformed (verify_password c.id_key old_password hash)
          if not good then raise invalid_credentials else do
            salt ← read_random
            update_credential_hash (hash_password c.id_key new_password salt) now
            delete_other_sessions (token_id current_token)

pub revoke_by_id_prefix : Bytes → Exec (Unit {0})
revoke_by_id_prefix prefix =
    if ltb (length prefix) 8 || not (is_lower_hex prefix) then raise session_not_found else do
      deleted ← delete_session_by_prefix prefix
      if deleted == 0 then raise session_not_found else pure tt

pub sweep_expired : ℕ → Exec ℕ
sweep_expired now = delete_expired_sessions now

-- A failed write of the audit row is logged and swallowed.
pub record_auth_event : AuthEvent → Exec (Unit {0})
record_auth_event e w = (ok tt, (insert_auth_event e w).1)

pub list_auth_events : ℕ → Exec (List AuthEvent)
list_auth_events limit = Store.list_auth_events limit

pub sweep_auth_events : ℕ → Exec ℕ
sweep_auth_events cutoff = Store.sweep_auth_events cutoff

pub record SessionInfo : Type 0 where
  pub id_prefix : Bytes
  pub created_at : ℕ
  pub expires_at : ℕ
  pub last_seen_at : ℕ
  pub ip : Bytes
  pub user_agent : Bytes
  pub current : Bool

pub record SessionList : Type 0 where
  pub items : List SessionInfo
  pub total : ℕ
  pub truncated : Bool

abbrev pub session_info : Bytes → Session → SessionInfo
session_info current_id s = record {
  id_prefix = take 8 s.id;
  created_at = s.created_at;
  expires_at = s.expires_at;
  last_seen_at = s.last_seen_at;
  ip = s.ip;
  user_agent = take 120 s.user_agent;
  current = beq s.id current_id;
}

-- The stable sort by `Current`: the current ones first, both parts in their order.
pub anchor_current : List SessionInfo → List SessionInfo
anchor_current items = keep (λ i. i.current) items ++ keep (λ i. not i.current) items

pub list_sessions : Crypto → Bytes → Exec SessionList
list_sessions c current_token = do
  listed ← Store.list_sessions
  pure (record {
    items = anchor_current (map (session_info (token_id c current_token)) listed.sessions);
    total = listed.total;
    truncated = listed.truncated;
  })

-- The calls that the HTTP handlers and the daily sweep make, each with the clock's readings.
pub data Call : Type 0 where
  sets_up : Bytes → ℕ → ℕ → Bytes → Bytes → Call
  logs_in : Bytes → ℕ → Bytes → Bytes → Call
  authenticates : Bytes → ℕ → Call
  revokes : Bytes → Call
  changes_password : Bytes → Bytes → Bytes → ℕ → Call
  revokes_prefix : Bytes → Call
  sweeps : ℕ → Call
  lists : Bytes → Call
  records_event : AuthEvent → Call
  sweeps_events : ℕ → Call

pub step : Crypto → Service → Call → World → World
step c s (sets_up password t u ip ua) w = (setup c s password t u ip ua w).1
step c s (logs_in password now ip ua) w = (login c s password now ip ua w).1
step c s (authenticates token now) w = (authenticate c s token now w).1
step c s (revokes token) w = (revoke c token w).1
step c s (changes_password token old new now) w = (change_password c s token old new now w).1
step c s (revokes_prefix prefix) w = (revoke_by_id_prefix prefix w).1
step c s (sweeps now) w = (sweep_expired now w).1
step c s (lists token) w = (list_sessions c token w).1
step c s (records_event e) w = (record_auth_event e w).1
step c s (sweeps_events cutoff) w = (sweep_auth_events cutoff w).1

pub run : Crypto → Service → List Call → World → World
run c s [] w = w
run c s (k ∷ ks) w = run c s ks (step c s k w)
