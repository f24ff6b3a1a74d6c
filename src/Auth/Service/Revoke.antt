-- ===== src/Auth/Service/Revoke.antt =====
-- `RevokeByIDPrefix` and `SweepExpired` of internal/auth/service.go.
use fund_dashboard.Auth.Service.{renewed_expiry}
use fund_dashboard.Auth.Store.Healthy.{touch_session_lem}
use fund_dashboard.Auth.Store.Unique.{IsUnique}
use fund_dashboard.Prelude.{beq_iff, le→leb}
use fund_dashboard.Prelude.{
  ℕ, ◌≤◌, ◌<◌, ◌≡◌, ◌⊎◌, inl, inr, Bool, true, not, ◌&&◌, ◌||◌, List, [], ◌∷◌, Option, none, some,
  refl, arith, ltb, ◌==◌, if◌then◌else◌, Bytes, keep, tally, has_prefix, length, Bool-cases,
  fun_ext,
}
use fund_dashboard.Auth.Store.{
  ok, err, session_not_found, Session, World, find, delete_session_by_prefix,
  delete_expired_sessions,
}
use fund_dashboard.Auth.Store.Rows.{IsPlain, like-prefix, find-keep-none}
use fund_dashboard.Auth.Store.Healthy.{delete_where_lem}
use fund_dashboard.Auth.Service.Renewal.{authenticate_lem}
use fund_dashboard.Auth.Service.{
  Crypto, Service, is_lower_hex, revoke_by_id_prefix, sweep_expired, token_id, authenticate, admit,
}

-- The hex alphabet has no wildcard.
is_lower_hex-IsPlain : (p : Bytes) → is_lower_hex p ≡ true → IsPlain p
unfolding is_lower_hex
is_lower_hex-IsPlain [] h = tt
is_lower_hex-IsPlain (c ∷ p) h =
    ((ground arith, ground arith), is_lower_hex-IsPlain p (ground arith))

abbrev starts : Bytes → Session → Bool
starts p s = has_prefix p s.id

delete_session_by_prefix_lem :
    (p : Bytes) (w : World)
    → w.faults ≡ []
    → IsPlain p
    → delete_session_by_prefix p w ≡ (
      ok (tally (starts p) w.sessions),
      record w { sessions = keep (λ s. not (starts p s)) w.sessions },
    )
unfolding delete_session_by_prefix
delete_session_by_prefix_lem p w h plain =
    rw (fun_ext (λ (s : Session). like-prefix p s.id plain)) (delete_where_lem w h (starts p))

-- While the database works, revoking by a prefix removes exactly the sessions whose id begins with
-- it, and succeeds exactly when there is one; a prefix that is shorter than eight characters or is
-- not lowercase hex is refused and removes nothing.
pub revoke_by_id_prefix_exact :
    (p : Bytes) (w : World)
    → w.faults ≡ []
    → let usable = not (ltb (length p) 8) && is_lower_hex p in
      revoke_by_id_prefix p w ≡ (
        (if usable && not (tally (starts p) w.sessions == 0) then ok tt else err session_not_found),
        (if usable then record w { sessions = keep (λ s. not (starts p s)) w.sessions } else w),
      )
unfolding revoke_by_id_prefix
revoke_by_id_prefix_exact p w h = elim (Bool-cases (ltb (length p) 8 || not (is_lower_hex p))) [
  | inl bad ↦ ground arith
  | inr good ↦
      ground (arith, delete_session_by_prefix_lem p w h (is_lower_hex-IsPlain p (ground arith)))
]

abbrev unexpired : ℕ → Session → Bool
unexpired now s = not (ltb s.expires_at now)

-- What a lookup finds after the sweep has been found before, and the other way round if it is live.
find_sweep :
    (id : Bytes) (now t : ℕ) (ss : List Session)
    → now ≤ t
    → IsUnique ss
    → (find id (keep (unexpired now) ss) ≡ find id ss)
      ⊎ ((x : Session) × (find id ss ≡ some x)
          × (x.expires_at < now)
          × (find id (keep (unexpired now) ss) ≡ none))
unfolding find
find_sweep id now t [] le u = inl refl
find_sweep id now t (x ∷ ss) le u =
    ground
      (arith, find_sweep id now t ss le u.1, find-keep-none id (unexpired now) ss, beq_iff x.id id)

admit-expired :
    (s : Service) (t : ℕ) (id : Bytes) (x : Session) (w : World)
    → x.expires_at ≤ t
    → admit s t id (some x) w ≡ (ok none, w)
unfolding admit
admit-expired s t id x w le = rw (le→leb x.expires_at t le)

admit-answer :
    (s : Service) (t : ℕ) (id : Bytes) (o : Option Session) (v w : World)
    → v.faults ≡ []
    → w.faults ≡ []
    → (admit s t id o v).0 ≡ (admit s t id o w).0
unfolding admit
admit-answer s t id none v w h k = refl
admit-answer s t id (some x) v w h k = ground (
  arith,
  touch_session_lem v h id t (renewed_expiry s t x),
  touch_session_lem w k id t (renewed_expiry s t x),
)

abbrev swept : ℕ → World → World
swept now w = record w { sessions = keep (unexpired now) w.sessions }

sweep_expired_lem : (now : ℕ) (w : World) → w.faults ≡ [] → (sweep_expired now w).1 ≡ swept now w
unfolding sweep_expired delete_expired_sessions
sweep_expired_lem now w h = rw (delete_where_lem w h (λ s. ltb s.expires_at now))

-- While the database works and ids are unique, `Authenticate` answers for every token from the time
-- of a sweep on as it would have without the sweep.
pub sweep_invisible :
    (c : Crypto) (s : Service) (token : Bytes) (now t : ℕ) (w : World)
    → w.faults ≡ []
    → IsUnique w.sessions
    → now ≤ t
    → (authenticate c s token t (sweep_expired now w).1).0 ≡ (authenticate c s token t w).0
sweep_invisible c s token now t w h u le =
    let id = token_id c token in
    let v = swept now w in
    rw (sweep_expired_lem now w h, authenticate_lem c s token t w h)
      (rw (authenticate_lem c s token t v h) (elim (find_sweep id now t w.sessions le u) [
        | inl same ↦ rw same (admit-answer s t id (find id w.sessions) v w h h)
        | inr (x, e, old, gone) ↦
            rw (gone, e) (rw (admit-expired s t id x w (omega arith)) (unfold admit in refl))
      ]))
