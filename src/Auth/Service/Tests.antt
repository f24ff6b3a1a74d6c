-- ===== src/Auth/Service/Tests.antt =====
-- internal/auth/service.go on concrete calls.
use fund_dashboard.Auth.Store.{
  with_hash, update_credential_hash, delete_where, delete_other_sessions,
}
use fund_dashboard.Auth.Password.{
  check_parts, decode_parts, decoded, in_bounds, read_params, read_param, is_version,
  letter_and_digit, is_letter, is_digit,
}
use fund_dashboard.Prelude.{inl}
use fund_dashboard.Prelude.{
  ℕ, zero, suc, ◌+◌, ◌*◌, ◌<◌, ◌≡◌, ◌≢◌, true, [], ◌∷◌, none, some, arith, refl, Bytes, bytes, beq,
  has_prefix, length, All, hour,
}
use fund_dashboard.Go.Base64.{encode, decode}
use fund_dashboard.Go.Text.{split, cut, parse_uint32, scan_version, hex, trim_space}
use fund_dashboard.Auth.Password.{decode_phc, hash_password, verify_password, validate_password}
use fund_dashboard.Auth.Store.{
  ok, Session, World, find, statement, session_by_id, touch_session, hash_of, credential_hash,
  create_session, insert_credential_if_absent,
}
use fund_dashboard.Auth.Service.{
  Crypto, Options, Service, new_service, seconds, token_id, authenticate, admit, due,
  renewed_expiry, login, setup, change_password, revoke_by_id_prefix, is_lower_hex, sweep_expired,
  active_hash, new_session, generate_token, authenticates, sweeps, run,
}
use fund_dashboard.Auth.Service.Cap.{IsSound, run-IsSound_new}
use fund_dashboard.Auth.Service.Renewal.{renewed, authenticate_sound}
use fund_dashboard.Auth.Service.Active.{stays_admitted, active_until_cap}
use fund_dashboard.Auth.Service.Login.{opened, current_hash, login-authenticate}
use fund_dashboard.Auth.Service.SetUp.{setup_once}
use fund_dashboard.Auth.Service.Change.{change_password_revokes}
use fund_dashboard.Auth.Service.Revoke.{revoke_by_id_prefix_exact, sweep_invisible}

-- Stand-ins for SHA-256 and argon2.
abbrev fill : ℕ → ℕ → Bytes
fill zero b = []
fill (suc n) b = b ∷ fill n b

abbrev crypto : Crypto
crypto = record { sha256 = λ s. s; id_key = λ p s t m n len. fill len (length p) }

abbrev options : Options
options = record { env_hash = []; ttl = 0; max_age = 0 }

abbrev service : Service
service = record { env_hash = []; ttl = 720 * hour; max_age = 2160 * hour }

service_lem : new_service options ≡ service
unfolding new_service trim_space
service_lem = refl

abbrev row : Session
row = record {
  id = bytes "746f6b656e";
  created_at = 1000;
  expires_at = 2593000;
  last_seen_at = 1000;
  ip = [];
  user_agent = [];
}

abbrev world : World
world = record { credential = none; sessions = row ∷ []; events = []; faults = []; entropy = [] }

token_lem : token_id crypto (bytes "token") ≡ row.id
unfolding token_id hex
token_lem = refl

run-IsSound_new_example :
    IsSound
      (new_service options)
      (run crypto
        (new_service options)
        (authenticates (bytes "token") 1500000 ∷ sweeps 2000000 ∷ [])
        world).sessions
unfolding new_service trim_space find
run-IsSound_new_example =
    run-IsSound_new crypto options (authenticates (bytes "token") 1500000 ∷ sweeps 2000000 ∷ [])
      world (record { unique = (refl, tt); capped = (omega arith, tt) })

abbrev renewed_row : Session
renewed_row = record row { last_seen_at = 1500000; expires_at = 4092000 }

found : find (token_id crypto (bytes "token")) world.sessions ≡ some row
unfolding find token_id hex beq
found = refl

authenticated :
    (authenticate crypto service (bytes "token") 1500000 world).0 ≡ ok (some renewed_row)
unfolding authenticate admit due renewed_expiry token_id hex find session_by_id touch_session
    statement beq
authenticated = refl

authenticate_sound_example :
    (1500000 < renewed_row.expires_at)
    × (renewed_row.id ≡ token_id crypto (bytes "token"))
    × (1500000 < renewed_row.created_at + seconds service.max_age)
unfolding find
authenticate_sound_example =
    authenticate_sound crypto service (bytes "token") 1500000 world renewed_row
      (record { unique = (refl, tt); capped = (omega arith, tt) }) authenticated

active_until_cap_example :
    stays_admitted crypto service (bytes "token") (1200000 ∷ 2400000 ∷ 3600000 ∷ []) world ≡ true
active_until_cap_example =
    active_until_cap crypto service (bytes "token") (1200000 ∷ 2400000 ∷ 3600000 ∷ []) world row
      refl found (inl (omega arith)) (omega arith, (omega arith, (omega arith, tt)))
      (omega arith, (omega arith, (omega arith, tt)))

revoke_by_id_prefix_exact_example :
    revoke_by_id_prefix (bytes "746f6b65") world ≡ (ok tt, record world { sessions = [] })
unfolding is_lower_hex has_prefix
revoke_by_id_prefix_exact_example = revoke_by_id_prefix_exact (bytes "746f6b65") world refl

sweep_invisible_example :
    (authenticate crypto service (bytes "token") 2593000 (sweep_expired 2592000 world).1).0
    ≡ (authenticate crypto service (bytes "token") 2593000 world).0
unfolding find
sweep_invisible_example =
    sweep_invisible crypto service (bytes "token") 2592000 2593000 world refl (refl, tt)
      (omega arith)

abbrev password : Bytes
password = bytes "horse batt 7"

abbrev set_up : World
set_up = record {
  credential = some (record {
    password_hash = bytes "$argon2id$v=19$m=1024,t=2,p=1$AAAA$DAwM";
    created_at = 0;
    updated_at = 0;
  });
  sessions = row ∷ [];
  events = [];
  faults = [];
  entropy = some (0 ∷ 0 ∷ 0 ∷ []) ∷ [];
}

abbrev logged_in : World
logged_in = record set_up {
  sessions = row ∷ opened crypto service (bytes "AAAA") 5000 [] [] ∷ [];
  entropy = [];
}

logs_in_lem : login crypto service password 5000 [] [] set_up ≡ (ok (bytes "AAAA"), logged_in)
unfolding login active_hash new_session generate_token credential_hash create_session statement
    token_id hex find encode verify_password decode_phc check_parts decode_parts decoded in_bounds
    read_params read_param is_version split cut parse_uint32 scan_version decode beq
logs_in_lem = refl

login-authenticate_example :
    (verify_password crypto.id_key password (current_hash service set_up) ≡ some true)
    × ((authenticate crypto service (bytes "AAAA") 6000 logged_in).0
        ≡ ok (some (renewed service 6000 (opened crypto service (bytes "AAAA") 5000 [] []))))
login-authenticate_example =
    login-authenticate crypto service password (bytes "AAAA") 5000 6000 [] [] set_up logged_in
      logs_in_lem refl (omega arith)

abbrev blank : World
blank = record {
  credential = none;
  sessions = [];
  events = [];
  faults = [];
  entropy = some (1 ∷ 2 ∷ 3 ∷ []) ∷ some (0 ∷ 0 ∷ 0 ∷ []) ∷ [];
}

sets_up_lem : (setup crypto service password 1 2 [] [] blank).0 ≡ ok (bytes "AAAA")
unfolding setup new_session generate_token validate_password letter_and_digit is_letter is_digit
    insert_credential_if_absent hash_password create_session statement token_id hex find encode
sets_up_lem = refl

setup_once_example :
    (setup crypto service
      (bytes "another pass 8")
      7
      8
      []
      []
      (run crypto service (sweeps 5 ∷ []) (setup crypto service password 1 2 [] [] blank).1)).0
    ≢ ok (bytes "AQID")
setup_once_example =
    setup_once crypto service password (bytes "another pass 8") 1 2 7 8 [] [] [] [] (bytes "AAAA")
      (bytes "AQID") (sweeps 5 ∷ []) blank sets_up_lem

abbrev new_password : Bytes
new_password = bytes "another pass 8"

abbrev current_token : Bytes
current_token = bytes "token"

changes_lem :
    (change_password crypto service current_token password new_password 9 set_up).0 ≡ ok tt
unfolding change_password validate_password letter_and_digit is_letter is_digit credential_hash
    statement update_credential_hash delete_other_sessions delete_where verify_password decode_phc
    check_parts decode_parts decoded in_bounds read_params read_param is_version split cut
    parse_uint32 scan_version decode beq
changes_lem = refl

change_password_revokes_example :
    let v = (change_password crypto service current_token password new_password 9 set_up).1 in
    (validate_password new_password ≡ true)
    × (verify_password crypto.id_key password (hash_of set_up.credential) ≡ some true)
    × ((salt : Bytes) × (v.credential
          ≡ with_hash (hash_password crypto.id_key new_password salt) 9 set_up.credential))
    × All (λ x. x.id ≡ token_id crypto current_token) v.sessions
    × (find (token_id crypto current_token) v.sessions
        ≡ find (token_id crypto current_token) set_up.sessions)
change_password_revokes_example =
    change_password_revokes crypto service current_token password new_password 9 set_up changes_lem
