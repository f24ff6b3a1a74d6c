-- ===== src/Auth/Store/Healthy.antt =====
-- The statements while the database does not fail.
use fund_dashboard.Prelude.{ℕ, ◌≡◌, Bool, not, [], Bytes, keep, tally}
use fund_dashboard.Auth.Store.{
  ok, Session, World, statement, run_statement, find, touch, session_by_id, touch_session,
  delete_where, credential_hash, hash_of,
}

module _ (w : World) (healthy : w.faults ≡ []) where
  pub session_by_id_lem : (id : Bytes) → session_by_id id w ≡ (ok (find id w.sessions), w)
  unfolding session_by_id statement
  session_by_id_lem id = rw (healthy, run_statement)

  pub credential_hash_lem : credential_hash w ≡ (ok (hash_of w.credential), w)
  unfolding credential_hash statement
  credential_hash_lem = rw (healthy, run_statement)

  pub touch_session_lem :
      (id : Bytes) (t x : ℕ)
      → touch_session id t x w ≡ (ok tt, record w { sessions = touch id t x w.sessions })
  unfolding touch_session statement
  touch_session_lem id t x = rw (healthy, run_statement)

  pub delete_where_lem :
      (p : Session → Bool)
      → delete_where p w
        ≡ (ok (tally p w.sessions), record w { sessions = keep (λ s. not (p s)) w.sessions })
  unfolding delete_where statement
  delete_where_lem p = rw (healthy, run_statement)
