-- ===== src/Auth/Service/SetUp.antt =====
-- `Setup` of internal/auth/service.go, after other calls.
use fund_dashboard.Auth.Store.{env_managed, weak_password}
use fund_dashboard.Auth.Store.Keeps.{Tables}
use fund_dashboard.Auth.Store.Rows.{if_ok, bind_ok}
use fund_dashboard.Auth.Service.Steps.{Keeps-new_session, tables-read_random}
use fund_dashboard.Auth.Store.Keeps.{insert_credential_cases}
use fund_dashboard.Auth.Store.{raise, insert_credential_if_absent, already_initialized}
use fund_dashboard.Auth.Service.Steps.{IsClosed, run-keeps}
use fund_dashboard.Prelude.{
  ℕ, ◌≡◌, ◌≢◌, inl, inr, not, List, none, arith, if◌then◌else◌, Bytes, sym, ap, ◌∙◌,
}
use fund_dashboard.Auth.Password.{hash_password, validate_password}
use fund_dashboard.Auth.Store.{Result, ok, World, Exec, ◌>>=◌}
use fund_dashboard.Auth.Service.{
  Crypto, Service, read_random, is_empty, new_session, setup, Call, run,
}

-- There is a credential.
abbrev pub IsInitialized : World → Type 0
IsInitialized w = w.credential ≢ none

IsInitialized-IsClosed : (s : Service) → IsClosed s (λ t. t.credential ≢ none)
IsInitialized-IsClosed s = record {
  deletes = λ t p v. v;
  opens = λ t x v e fresh. v;
  renews = λ t id now x v e. v;
  inserts = λ t k v e f. cc;
  updates = λ t hash now v e. ground (arith, v);
}

module _ (c : Crypto) (s : Service) (password : Bytes) (t u : ℕ) (ip ua : Bytes) where
  -- The part of `SetUp` after the salt has been read.
  abbrev insert_hash : Bytes → Exec Bytes
  insert_hash salt =
      insert_credential_if_absent (hash_password c.id_key password salt) t >>= λ inserted.
      if not inserted then raise already_initialized else new_session c s u ip ua

  insert_hash_initialized :
      (salt : Bytes) (w : World) (token : Bytes)
      → IsInitialized w
      → (insert_hash salt w).0 ≢ ok token
  insert_hash_initialized salt w token i e =
      ground (arith, insert_credential_cases (hash_password c.id_key password salt) t w)

  insert_hash_initializes :
      (salt : Bytes) (w : World) (token : Bytes)
      → (insert_hash salt w).0 ≡ ok token
      → IsInitialized (insert_hash salt w).1
  insert_hash_initializes salt w token e =
      let hash = hash_password c.id_key password salt in
      let v = (insert_credential_if_absent hash t w).1 in
      elim (insert_credential_cases hash t w) [
        | inl (f, _) ↦ absurd (ground (arith, f))
        | inr (inl (_, f, i)) ↦
            rw (f, ◌>>=◌) ((Keeps-new_session s (IsInitialized-IsClosed s) c u ip ua).at v i)
        | inr (inr (_, f, _)) ↦ absurd (ground (arith, f))
      ]

  -- An answered `SetUp` is its last part, after a salt has been read.
  setup_ok :
      (w : World) (token : Bytes)
      → (setup c s password t u ip ua w).0 ≡ ok token
      → (salt : Bytes) × (setup c s password t u ip ua w ≡ insert_hash salt (read_random w).1)
  unfolding setup
  setup_ok w token e =
      let (_, p) = if_ok (not (is_empty s.env_hash)) env_managed _ w token e in
      let e1 = rw p at e in
      let (_, q) = if_ok (not (validate_password password)) weak_password _ w token e1 in
      let e2 = rw q at e1 in
      let (salt, _, r) = bind_ok read_random insert_hash w token e2 in (salt, rw (p, q) r)

  setup_initialized :
      (w : World) (token : Bytes) → IsInitialized w → (setup c s password t u ip ua w).0 ≢ ok token
  setup_initialized w token i e =
      let (salt, q) = setup_ok w token e in
      insert_hash_initialized salt (read_random w).1 token
        (λ n. i (sym (ap (λ (x : Tables). x.credential) (tables-read_random w)) ∙ n))
        (sym (ap (λ (r : Result Bytes × World). r.0) q) ∙ e)

  setup_initializes :
      (w : World) (token : Bytes)
      → (setup c s password t u ip ua w).0 ≡ ok token
      → IsInitialized (setup c s password t u ip ua w).1
  setup_initializes w token e =
      let (salt, q) = setup_ok w token e in
      let e' = sym (ap (λ (r : Result Bytes × World). r.0) q) ∙ e in
      rw q (insert_hash_initializes salt (read_random w).1 token e')

-- Once a set-up has answered a token, none ever answers one again, whatever calls come in between
-- and whatever fails.
pub setup_once :
    (c : Crypto) (s : Service) (p p' : Bytes) (t u t' u' : ℕ) (ip ua ip' ua' token token' : Bytes)
    (ks : List Call) (w : World)
    → (setup c s p t u ip ua w).0 ≡ ok token
    → (setup c s p' t' u' ip' ua' (run c s ks (setup c s p t u ip ua w).1)).0 ≢ ok token'
setup_once c s p p' t u t' u' ip ua ip' ua' token token' ks w e =
    setup_initialized c s p' t' u' ip' ua' _ token' (
      run-keeps s (IsInitialized-IsClosed s) c ks (setup c s p t u ip ua w).1
        (setup_initializes c s p t u ip ua w token e))
