-- ===== src/Auth/Service/Steps.antt =====
-- Properties of the tables that are closed under the five changes which the calls of
-- internal/auth/service.go make: deletion of sessions, a new session, a renewal, the first
-- credential and a new hash.
use fund_dashboard.Auth.Store.{Credential, with_hash}
use fund_dashboard.Auth.Store.Keeps.{tables, tables_lem}
use fund_dashboard.Auth.Store.Keeps.{Tables}
use fund_dashboard.Prelude.{ap}
use fund_dashboard.Prelude.{
  ℕ, ◌+◌, ◌≡◌, Bool, not, List, [], ◌∷◌, ◌++◌, Option, none, some, refl, arith, ltb, Bytes, keep,
  subst, sym, inl, inr, ◌⊎◌, ◌==◌, length, ◌||◌,
}
use fund_dashboard.Auth.Store.{
  Err, Result, ok, err, db_error, Session, AuthEvent, World, Exec, ◌>>=◌, pure, raise, find, touch,
  touch_session, session_by_id, delete_session, delete_session_by_prefix, delete_other_sessions,
  delete_expired_sessions,
}
use fund_dashboard.Auth.Store
use fund_dashboard.Auth.Store.Keeps.{
  Keeps, Keeps-pure, Keeps-raise, Keeps-bind, Keeps-if, Keeps-delete_where, Keeps-credential_hash,
  Keeps-insert_credential_if_absent, Keeps-update_credential_hash, Keeps-insert_auth_event,
  Keeps-sweep_auth_events, Keeps-list_sessions, Keeps-create_session, session_by_id_cases,
  touch_session_cases,
}
use fund_dashboard.Auth.Password.{validate_password}
use fund_dashboard.Auth.Service.{
  Crypto, Service, seconds, read_random, generate_token, or_malformed, is_empty, active_hash,
  renewed_expiry, admit, token_id, new_session, setup, login, authenticate, revoke, change_password,
  revoke_by_id_prefix, is_lower_hex, sweep_expired, record_auth_event, sweep_auth_events,
  list_sessions, Call, sets_up, logs_in, authenticates, revokes, changes_password, revokes_prefix,
  sweeps, lists, records_event, sweeps_events, step, run,
}

-- What it takes for the calls to keep a property of the tables.
pub record IsClosed (s : Service) (P : Tables → Type 0) : Type 0 where
  pub deletes :
      (t : Tables) (p : Session → Bool) → P t → P (record t { sessions = keep p t.sessions })
  pub opens :
      (t : Tables) (x : Session)
      → P t
      → x.expires_at ≡ x.created_at + seconds s.ttl
      → find x.id t.sessions ≡ none
      → P (record t { sessions = t.sessions ++ x ∷ [] })
  pub renews :
      (t : Tables) (id : Bytes) (now : ℕ) (x : Session)
      → P t
      → find id t.sessions ≡ some x
      → P (record t { sessions = touch id now (renewed_expiry s now x) t.sessions })
  pub inserts :
      (t : Tables) (k : Credential)
      → P t
      → t.credential ≡ none
      → P (record t { credential = some k })
  pub updates :
      (t : Tables) (hash : Bytes) (now : ℕ)
      → P t
      → P (record t { credential = with_hash hash now t.credential })

pub tables-read_random : (w : World) → tables (read_random w).1 ≡ tables w
tables-read_random w = ground arith

-- `Authenticate` changes the tables at most by its renewal.
admit-tables :
    (s : Service) (now : ℕ) (id : Bytes) (x : Session) (w : World)
    → (tables (admit s now id (some x) w).1 ≡ tables w)
      ⊎ (tables (admit s now id (some x) w).1
          ≡ record (tables w) { sessions = touch id now (renewed_expiry s now x) w.sessions })
unfolding admit
admit-tables s now id x w = ground (arith, touch_session_cases id now (renewed_expiry s now x) w)

-- `Authenticate` fails as the database does, or treats the row that the token's id has.
pub authenticate_cases :
    (c : Crypto) (s : Service) (token : Bytes) (now : ℕ) (w : World)
    → let id = token_id c token in
      let v = (session_by_id id w).1 in
      (tables v ≡ tables w)
      × ((authenticate c s token now w ≡ (err db_error, v))
          ⊎ (authenticate c s token now w ≡ admit s now id (find id w.sessions) v))
unfolding authenticate
authenticate_cases c s token now w =
    let id = token_id c token in
    let (same, k, r) = session_by_id_cases id w in
    (
      tables_lem (session_by_id id w).1 w k same,
      elim r [ inl e ↦ inl (rw (e, ◌>>=◌)) | inr e ↦ inr (rw (e, ◌>>=◌)) ],
    )

module _ (s : Service) {P : Tables → Type 0} (closed : IsClosed s P) where
  Keeps-read_random : Keeps P read_random
  Keeps-read_random = record { at = λ w v. subst P (sym (tables-read_random w)) v }

  Keeps-delete : (p : Session → Bool) → Keeps P (Store.delete_where p)
  Keeps-delete p = Keeps-delete_where p (λ t. closed.deletes t (λ x. not (p x)))

  Keeps-generate_token : Keeps P generate_token
  unfolding generate_token
  Keeps-generate_token = Keeps-bind Keeps-read_random (λ b. Keeps-pure _)

  Keeps-or_malformed : (o : Option Bool) → Keeps P (or_malformed o)
  Keeps-or_malformed none = Keeps-raise _
  Keeps-or_malformed (some b) = Keeps-pure b

  Keeps-active_hash : Keeps P (active_hash s)
  unfolding active_hash
  Keeps-active_hash = Keeps-if (not (is_empty s.env_hash)) (Keeps-pure _) Keeps-credential_hash

  Keeps-delete_session : (id : Bytes) → Keeps P (delete_session id)
  unfolding delete_session
  Keeps-delete_session id = Keeps-bind (Keeps-delete _) (λ n. Keeps-pure tt)

  Keeps-delete_other : (id : Bytes) → Keeps P (delete_other_sessions id)
  unfolding delete_other_sessions
  Keeps-delete_other id = Keeps-bind (Keeps-delete _) (λ n. Keeps-pure tt)

  Keeps-revoke_by_id_prefix : (p : Bytes) → Keeps P (revoke_by_id_prefix p)
  unfolding revoke_by_id_prefix delete_session_by_prefix
  Keeps-revoke_by_id_prefix p =
      Keeps-if (ltb (length p) 8 || not (is_lower_hex p)) (Keeps-raise _)
        (Keeps-bind (Keeps-delete _) (λ n. Keeps-if (n == 0) (Keeps-raise _) (Keeps-pure tt)))

  Keeps-sweep_expired : (now : ℕ) → Keeps P (sweep_expired now)
  unfolding sweep_expired delete_expired_sessions
  Keeps-sweep_expired now = Keeps-delete _

  admit-keeps :
      (now : ℕ) (id : Bytes) (o : Option Session) (w : World)
      → P (tables w)
      → find id w.sessions ≡ o
      → P (tables (admit s now id o w).1)
  unfolding admit
  admit-keeps now id none w v e = v
  admit-keeps now id (some x) w v e = elim (admit-tables s now id x w) [
    | inl same ↦ subst P (sym same) v
    | inr moved ↦ subst P (sym moved) (closed.renews (tables w) id now x v e)
  ]

  module _ (c : Crypto) where
    pub Keeps-new_session : (now : ℕ) (ip ua : Bytes) → Keeps P (new_session c s now ip ua)
    unfolding new_session
    Keeps-new_session now ip ua = Keeps-bind Keeps-generate_token (λ t.
        Keeps-bind (Keeps-create_session _ (λ r v. closed.opens r _ v refl)) (λ u. Keeps-pure t))

    Keeps-setup :
        (password : Bytes) (t u : ℕ) (ip ua : Bytes) → Keeps P (setup c s password t u ip ua)
    unfolding setup
    Keeps-setup password t u ip ua = Keeps-if (not (is_empty s.env_hash)) (Keeps-raise _) (
        Keeps-if (not (validate_password password)) (Keeps-raise _) (
          Keeps-bind Keeps-read_random (λ salt.
            Keeps-bind (Keeps-insert_credential_if_absent _ t (λ r. closed.inserts r _))
              (λ i. Keeps-if (not i) (Keeps-raise _) (Keeps-new_session u ip ua)))))

    Keeps-login :
        (password : Bytes) (now : ℕ) (ip ua : Bytes) → Keeps P (login c s password now ip ua)
    unfolding login
    Keeps-login password now ip ua = Keeps-bind Keeps-active_hash (λ h.
        Keeps-if (is_empty h) (Keeps-raise _) (
          Keeps-bind (Keeps-or_malformed _)
            (λ good. Keeps-if (not good) (Keeps-raise _) (Keeps-new_session now ip ua))))

    Keeps-revoke : (token : Bytes) → Keeps P (revoke c token)
    unfolding revoke
    Keeps-revoke token = Keeps-if (is_empty token) (Keeps-pure tt) (Keeps-delete_session _)

    Keeps-change_password :
        (token old new : Bytes) (now : ℕ) → Keeps P (change_password c s token old new now)
    unfolding change_password
    Keeps-change_password token old new now = Keeps-if (not (is_empty s.env_hash)) (Keeps-raise _) (
        Keeps-if (not (validate_password new)) (Keeps-raise _) (
          Keeps-bind Keeps-credential_hash (λ h. Keeps-if (is_empty h) (Keeps-raise _) (
            Keeps-bind (Keeps-or_malformed _) (λ good. Keeps-if (not good) (Keeps-raise _) (
              Keeps-bind Keeps-read_random (λ salt.
                Keeps-bind (Keeps-update_credential_hash _ now (λ r. closed.updates r _ now))
                  (λ u. Keeps-delete_other _))))))))

    Keeps-authenticate : (token : Bytes) (now : ℕ) → Keeps P (authenticate c s token now)
    Keeps-authenticate token now = record {
      at = λ w v.
          let id = token_id c token in
          let (same, r) = authenticate_cases c s token now w in
          let v' : P (tables (session_by_id id w).1) = subst P (sym same) v in
          elim r [
            | inl e ↦ rw e v'
            | inr e ↦ rw e (
                admit-keeps now id (find id w.sessions) _ v'
                  (ap (λ (t : Tables). find id t.sessions) same))
          ];
    }

    Keeps-list : (token : Bytes) → Keeps P (list_sessions c token)
    unfolding list_sessions
    Keeps-list token = Keeps-bind Keeps-list_sessions (λ page. Keeps-pure _)

    Keeps-record : (e : AuthEvent) → Keeps P (record_auth_event e)
    unfolding record_auth_event
    Keeps-record e = record { at = (Keeps-insert_auth_event {P = P} e).at }

    Keeps-sweep_events : (cutoff : ℕ) → Keeps P (sweep_auth_events cutoff)
    unfolding sweep_auth_events
    Keeps-sweep_events cutoff = Keeps-sweep_auth_events cutoff

    step-keeps : (k : Call) (w : World) → P (tables w) → P (tables (step c s k w))
    unfolding step
    step-keeps (sets_up password t u ip ua) w v = (Keeps-setup password t u ip ua).at w v
    step-keeps (logs_in password now ip ua) w v = (Keeps-login password now ip ua).at w v
    step-keeps (authenticates token now) w v = (Keeps-authenticate token now).at w v
    step-keeps (revokes token) w v = (Keeps-revoke token).at w v
    step-keeps (changes_password token old new now) w v =
        (Keeps-change_password token old new now).at w v
    step-keeps (revokes_prefix prefix) w v = (Keeps-revoke_by_id_prefix prefix).at w v
    step-keeps (sweeps now) w v = (Keeps-sweep_expired now).at w v
    step-keeps (lists token) w v = (Keeps-list token).at w v
    step-keeps (records_event e) w v = (Keeps-record e).at w v
    step-keeps (sweeps_events cutoff) w v = (Keeps-sweep_events cutoff).at w v

    pub run-keeps : (ks : List Call) (w : World) → P (tables w) → P (tables (run c s ks w))
    unfolding run
    run-keeps [] w v = v
    run-keeps (k ∷ ks) w v = run-keeps ks (step c s k w) (step-keeps k w v)
