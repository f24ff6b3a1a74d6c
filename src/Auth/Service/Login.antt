-- ===== src/Auth/Service/Login.antt =====
-- `Login` of internal/auth/service.go, and `Authenticate` after it.
use fund_dashboard.Auth.Service.Renewal.{authenticate_live, renewed}
use fund_dashboard.Auth.Service.{authenticate}
use fund_dashboard.Prelude.{Option-cases}
use fund_dashboard.Auth.Store.Keeps.{credential_hash_cases}
use fund_dashboard.Auth.Store.Rows.{Result-cases}
use fund_dashboard.Auth.Store.{not_initialized, invalid_credentials}
use fund_dashboard.Auth.Store.{pure, raise}
use fund_dashboard.Prelude.{
  ℕ, ◌+◌, ◌<◌, ◌≡◌, inl, inr, true, not, List, [], ◌∷◌, ◌++◌, none, some, refl, arith,
  if◌then◌else◌, Bytes, sym, subst, ap, ◌∙◌, Bool-cases,
}
use fund_dashboard.Auth.Password.{verify_password}
use fund_dashboard.Auth.Store.{
  Result, ok, err, Session, World, Exec, ◌>>=◌, ◌>>◌, find, create_session, hash_of,
}
use fund_dashboard.Auth.Store.Rows.{find-append}
use fund_dashboard.Auth.Store.Keeps.{create_session_cases}
use fund_dashboard.Auth.Service.{
  Crypto, Service, seconds, generate_token, or_malformed, is_empty, active_hash, token_id,
  new_session, login,
}

-- The row of a session that a log-in opens.
abbrev pub opened : Crypto → Service → Bytes → ℕ → Bytes → Bytes → Session
opened c s token now ip ua = record {
  id = token_id c token;
  created_at = now;
  expires_at = now + seconds s.ttl;
  last_seen_at = now;
  ip = ip;
  user_agent = ua;
}

-- Either an error and the rows as they were, or a token and its one new row.
abbrev pub Opens : Crypto → Service → ℕ → Bytes → Bytes → World → Result Bytes × World → Type 0
Opens c s now ip ua w (ok token, v) =
    (find (token_id c token) w.sessions ≡ none)
    × (v.sessions ≡ w.sessions ++ opened c s token now ip ua ∷ [])
Opens c s now ip ua w (err e, v) = v.sessions ≡ w.sessions

sessions-generate_token : (w : World) → (generate_token w).1.sessions ≡ w.sessions
unfolding generate_token
sessions-generate_token w = ground arith

-- The hash that log-ins are checked against.
abbrev pub current_hash : Service → World → Bytes
current_hash s w = if not (is_empty s.env_hash) then s.env_hash else hash_of w.credential

module _ (c : Crypto) (s : Service) (now : ℕ) (ip ua : Bytes) where
  create-Opens :
      (token : Bytes) (w v : World)
      → v.sessions ≡ w.sessions
      → Opens c s now ip ua w ((create_session (opened c s token now ip ua) >> pure token) v)
  create-Opens token w v same = elim (create_session_cases (opened c s token now ip ua) v) [
    | inl (e, kept, _) ↦ rw (e, ◌>>=◌) (kept ∙ same)
    | inr (e, fresh, added, _) ↦
        rw (e, ◌>>=◌)
          (
            ap (find (token_id c token)) (sym same) ∙ fresh,
            added ∙ ap (λ (ss : List Session). ss ++ opened c s token now ip ua ∷ []) same,
          )
  ]

  new_session-Opens :
      (w v : World) → v.sessions ≡ w.sessions → Opens c s now ip ua w (new_session c s now ip ua v)
  unfolding new_session
  new_session-Opens w v same =
      let same' = sessions-generate_token v ∙ same in
      elim (Result-cases (generate_token v).0) [
        | inl (token, e) ↦ rw (e, ◌>>=◌) (create-Opens token w (generate_token v).1 same')
        | inr (x, e) ↦ rw (e, ◌>>=◌) same'
      ]

  -- The part of `Login` after the hash has been read.
  abbrev check : Bytes → Bytes → Exec Bytes
  check password hash =
      if is_empty hash
      then raise not_initialized
      else (or_malformed (verify_password c.id_key password hash) >>= λ good.
          if not good then raise invalid_credentials else new_session c s now ip ua)

  check-Opens :
      (password hash : Bytes) (w v : World)
      → v.sessions ≡ w.sessions
      → Opens c s now ip ua w (check password hash v)
  check-Opens password [] w v same = same
  check-Opens password (b ∷ hash) w v same =
      elim (Option-cases (verify_password c.id_key password (b ∷ hash))) [
        | inl e ↦ rw e same
        | inr (good, e) ↦ elim (Bool-cases good) [
          | inl y ↦ rw (e ∙ ap some y) (new_session-Opens w v same)
          | inr n ↦ rw (e ∙ ap some n) same
        ]
      ]

  sessions-active_hash : (w : World) → (active_hash s w).1.sessions ≡ w.sessions
  unfolding active_hash
  sessions-active_hash w = ground (arith, credential_hash_cases w)

  -- A log-in either fails and leaves the rows of auth_sessions as they were, or it answers a token
  -- whose id no row had and adds the one row of the new session, which expires a window later.
  pub login-Opens :
      (password : Bytes) (w : World) → Opens c s now ip ua w (login c s password now ip ua w)
  unfolding login
  login-Opens password w = elim (Result-cases (active_hash s w).0) [
    | inl (hash, e) ↦
        rw (e, ◌>>=◌) (check-Opens password hash w (active_hash s w).1 (sessions-active_hash w))
    | inr (x, e) ↦ rw (e, ◌>>=◌) (sessions-active_hash w)
  ]

  check_verified :
      (password hash token : Bytes) (v : World)
      → (check password hash v).0 ≡ ok token
      → verify_password c.id_key password hash ≡ some true
  check_verified password [] token v e = absurd (ground arith)
  check_verified password (b ∷ hash) token v e = ground arith

  active_hash_cases : (w : World) (h : Bytes) → (active_hash s w).0 ≡ ok h → h ≡ current_hash s w
  unfolding active_hash
  active_hash_cases w h e = ground (arith, credential_hash_cases w)

  login_verified :
      (password token : Bytes) (w : World)
      → (login c s password now ip ua w).0 ≡ ok token
      → verify_password c.id_key password (current_hash s w) ≡ some true
  unfolding login
  login_verified password token w e = elim (Result-cases (active_hash s w).0) [
    | inl (hash, a) ↦
        subst (λ (h : Bytes). verify_password c.id_key password h ≡ some true)
          (active_hash_cases w hash a)
          (check_verified password hash token (active_hash s w).1 (rw (a, ◌>>=◌) at e))
    | inr (x, a) ↦ absurd (ground (arith, a))
  ]

-- A log-in that answers a token has verified the password against the active hash, the configured
-- one or else the stored one; and while the database works from then on, `Authenticate` admits that
-- token at every time before a window has passed, with the session that the log-in opened.
pub login-authenticate :
    (c : Crypto) (s : Service) (password token : Bytes) (now t : ℕ) (ip ua : Bytes) (w v : World)
    → login c s password now ip ua w ≡ (ok token, v)
    → v.faults ≡ []
    → t < now + seconds s.ttl
    → (verify_password c.id_key password (current_hash s w) ≡ some true)
      × ((authenticate c s token t v).0 ≡ ok (some (renewed s t (opened c s token now ip ua))))
login-authenticate c s password token now t ip ua w v e healthy lt =
    let (fresh, added) =
      subst (λ (r : Result Bytes × World). Opens c s now ip ua w r) e
        (login-Opens c s now ip ua password w) in
    let row = opened c s token now ip ua in
    let found : find (token_id c token) v.sessions ≡ some row =
      ap (find (token_id c token)) added
      ∙ find-append (token_id c token) w.sessions row fresh refl in
    (
      login_verified c s now ip ua password token w (ap (λ (r : Result Bytes × World). r.0) e),
      (authenticate_live c s token t v healthy row found lt).0,
    )
