-- ===== src/Auth/Service/Renewal.antt =====
-- `Authenticate` of internal/auth/service.go, with its sliding renewal.
use fund_dashboard.Prelude.{
  ℕ, ◌+◌, ◌≤◌, ◌<◌, ◌≡◌, inl, inr, [], Option, none, some, refl, arith, if◌then◌else◌, Bytes, sym,
  ap, ◌∙◌, le→leb,
}
use fund_dashboard.Auth.Store.{Result, ok, Session, World, ◌>>=◌, find, session_by_id}
use fund_dashboard.Auth.Store.Rows.{All-find, find-touch, find-has_id}
use fund_dashboard.Auth.Store.Keeps.{touch_session_cases}
use fund_dashboard.Auth.Store.Healthy.{session_by_id_lem, touch_session_lem}
use fund_dashboard.Auth.Service.Cap.{IsSound, IsCapped}
use fund_dashboard.Auth.Service.Steps.{authenticate_cases}
use fund_dashboard.Auth.Service.{
  Crypto, Service, seconds, renewed_expiry, due, admit, token_id, authenticate,
}

-- The session that `Authenticate` leaves for a live one.
unfoldable pub renewed : Service → ℕ → Session → Session
renewed s now x =
    if due s now x then record x { last_seen_at = now; expires_at = renewed_expiry s now x } else x

module _ (c : Crypto) (s : Service) (token : Bytes) (now : ℕ) (w : World)
    (healthy : w.faults ≡ []) where
  pub authenticate_lem :
      authenticate c s token now w
      ≡ admit s now (token_id c token) (find (token_id c token) w.sessions) w
  unfolding authenticate
  authenticate_lem = let e = session_by_id_lem w healthy (token_id c token) in rw (e, ◌>>=◌) (rw e)

  admit_live :
      (id : Bytes) (x : Session)
      → now < x.expires_at
      → find id w.sessions ≡ some x
      → ((admit s now id (some x) w).0 ≡ ok (some (renewed s now x)))
        × (find id (admit s now id (some x) w).1.sessions ≡ some (renewed s now x))
        × ((admit s now id (some x) w).1.faults ≡ [])
  unfolding admit renewed
  admit_live id x lt e = ground (
    arith,
    touch_session_lem w healthy id now (renewed_expiry s now x),
    find-touch id now (renewed_expiry s now x) w.sessions x e,
  )

  -- A live session.
  -- expired, and then the answer is the renewed session, which is also what the table holds.
  pub authenticate_live :
      (x : Session)
      → find (token_id c token) w.sessions ≡ some x
      → now < x.expires_at
      → let (r, v) = authenticate c s token now w in
        (r ≡ ok (some (renewed s now x)))
        × (find (token_id c token) v.sessions ≡ some (renewed s now x))
        × (v.faults ≡ [])
  authenticate_live x e lt = rw (authenticate_lem, e) (admit_live (token_id c token) x lt e)

-- Without a live row for its id a token is refused, and nothing changes.
pub authenticate_dead :
    (c : Crypto) (s : Service) (token : Bytes) (now : ℕ) (w : World)
    → w.faults ≡ []
    → ((x : Session) → find (token_id c token) w.sessions ≡ some x → x.expires_at ≤ now)
    → authenticate c s token now w ≡ (ok none, w)
unfolding admit
authenticate_dead c s token now w healthy dead =
    rw (authenticate_lem c s token now w healthy) (go (find (token_id c token) w.sessions) refl)
  where
    go :
        (o : Option Session)
        → find (token_id c token) w.sessions ≡ o
        → admit s now (token_id c token) o w ≡ (ok none, w)
    go none e = refl
    go (some x) e = rw (le→leb x.expires_at now (dead x e))

-- A token that is admitted has a session that has not expired and not reached MaxAge, also while
-- statements fail; the session is created when it was, and is the row of the token's id.
admit-some :
    (s : Service) (now : ℕ) (id : Bytes) (x y : Session) (w : World)
    → (admit s now id (some x) w).0 ≡ ok (some y)
    → (now < x.expires_at) × (y ≡ renewed s now x)
unfolding admit renewed
admit-some s now id x y w e = ground (arith, touch_session_cases id now (renewed_expiry s now x) w)

renewed-live :
    (s : Service) (now : ℕ) (x : Session)
    → now < x.expires_at
    → IsCapped s x
    → ((renewed s now x).id ≡ x.id)
      × ((renewed s now x).created_at ≡ x.created_at)
      × (x.expires_at ≤ (renewed s now x).expires_at)
      × IsCapped s (renewed s now x)
unfolding renewed due renewed_expiry
renewed-live s now x lt cap = ground arith

-- In a sound table, a session that `Authenticate` answers has the id of the token, expires after
-- the present, and was created less than MaxAge ago.
pub authenticate_sound :
    (c : Crypto) (s : Service) (token : Bytes) (now : ℕ) (w : World) (y : Session)
    → IsSound s w.sessions
    → (authenticate c s token now w).0 ≡ ok (some y)
    → (now < y.expires_at) × (y.id ≡ token_id c token) × (now < y.created_at + seconds s.max_age)
authenticate_sound c s token now w y v e = elim (authenticate_cases c s token now w).1 [
  | inl fails ↦ absurd (ground (arith, ap (λ (r : Result (Option Session) × World). r.0) fails))
  | inr runs ↦
      go (find (token_id c token) w.sessions) refl
        (sym (ap (λ (r : Result (Option Session) × World). r.0) runs) ∙ e)
]
  where
    go :
        (o : Option Session)
        → find (token_id c token) w.sessions ≡ o
        → (admit s now (token_id c token) o (session_by_id (token_id c token) w).1).0 ≡ ok (some y)
        → (now < y.expires_at)
          × (y.id ≡ token_id c token)
          × (now < y.created_at + seconds s.max_age)
    go none f r = absurd (unfold admit in ground arith)
    go (some x) f r =
        let (lt, q) = admit-some s now (token_id c token) x y _ r in
        let cap = All-find (IsCapped s) (token_id c token) w.sessions x v.capped f in
        let l = renewed-live s now x lt cap in
        rw q
          (omega (arith, l), l.0 ∙ find-has_id (token_id c token) w.sessions x f, omega (arith, l))
