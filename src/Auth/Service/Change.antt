-- ===== src/Auth/Service/Change.antt =====
-- `ChangePassword` of internal/auth/service.go.
use fund_dashboard.Prelude.{Option-cases}
use fund_dashboard.Prelude.{
  ℕ, ◌≡◌, inl, inr, Bool, true, not, List, [], ◌∷◌, some, arith, if◌then◌else◌, Bytes, beq_iff, All,
  sym, subst, ap, ◌∙◌, keep,
}
use fund_dashboard.Auth.Password.{verify_password, hash_password, validate_password}
use fund_dashboard.Auth.Store.{
  Result, ok, env_managed, weak_password, not_initialized, invalid_credentials, Session, World,
  Exec, ◌>>=◌, ◌>>◌, raise, has_id, with_hash, hash_of, credential_hash, update_credential_hash,
  delete_other_sessions, find,
}
use fund_dashboard.Auth.Store.Rows.{if_ok, bind_ok, find-keep, find-has_id, find-keep-none}
use fund_dashboard.Auth.Store.Keeps.{
  Tables, tables, tables_lem, credential_hash_cases, update_then_delete,
}
use fund_dashboard.Auth.Service.Steps.{tables-read_random}
use fund_dashboard.Auth.Service.{
  Crypto, Service, read_random, or_malformed, is_empty, token_id, change_password,
}

module _ (c : Crypto) (token old new : Bytes) (now : ℕ) where
  -- The parts of `ChangePassword` after the hash has been read and after the salt.
  abbrev store_hash : Bytes → Exec (Unit {0})
  store_hash salt = do
    update_credential_hash (hash_password c.id_key new salt) now
    delete_other_sessions (token_id c token)

  abbrev check_good : Bool → Exec (Unit {0})
  check_good good = if not good then raise invalid_credentials else (read_random >>= store_hash)

  abbrev check_old : Bytes → Exec (Unit {0})
  check_old hash =
      if is_empty hash
      then raise not_initialized
      else (or_malformed (verify_password c.id_key old hash) >>= check_good)

  verified :
      (b : ℕ) (hash : Bytes) (w : World)
      → (check_old (b ∷ hash) w).0 ≡ ok tt
      → verify_password c.id_key old (b ∷ hash) ≡ some true
  verified b hash w e = ground arith

  -- An answered change of the password is its last part, after the old one has been verified.
  check_old_ok :
      (hash : Bytes) (w : World)
      → (check_old hash w).0 ≡ ok tt
      → (verify_password c.id_key old hash ≡ some true)
        × ((salt : Bytes) × (check_old hash w ≡ store_hash salt (read_random w).1))
  check_old_ok [] w e = absurd (ground arith)
  check_old_ok (b ∷ hash) w e =
      let v = verified b hash w e in
      let q : check_old (b ∷ hash) w ≡ (read_random >>= store_hash) w = rw v in
      let e' = sym (ap (λ (x : Result (Unit {0}) × World). x.0) q) ∙ e in
      let (salt, _, r) = bind_ok read_random store_hash w tt e' in (v, (salt, q ∙ r))

module _ (c : Crypto) (s : Service) (token old new : Bytes) (now : ℕ) where
  change_password_ok :
      (w : World)
      → (change_password c s token old new now w).0 ≡ ok tt
      → (is_empty s.env_hash ≡ true)
        × (validate_password new ≡ true)
        × ((hash : Bytes) × ((credential_hash w).0 ≡ ok hash)
            × (change_password c s token old new now w
                ≡ check_old c token old new now hash (credential_hash w).1))
  unfolding change_password
  change_password_ok w e =
      let (a, p) = if_ok (not (is_empty s.env_hash)) env_managed _ w tt e in
      let e1 = rw p at e in
      let (b, q) = if_ok (not (validate_password new)) weak_password _ w tt e1 in
      let e2 = rw q at e1 in
      let (hash, h, r) = bind_ok credential_hash (check_old c token old new now) w tt e2 in
      (ground arith, ground arith, (hash, h, rw (p, q) r))

only_id :
    (id : Bytes) (ss : List Session) → All (λ x. x.id ≡ id) (keep (λ s. not (not (has_id id s))) ss)
only_id id [] = tt
only_id id (x ∷ ss) = ground (arith, only_id id ss, beq_iff x.id id)

find_only :
    (id : Bytes) (ss : List Session) → find id (keep (λ s. not (not (has_id id s))) ss) ≡ find id ss
find_only id ss = elim (Option-cases (find id ss)) [
  | inl e ↦ find-keep-none id (λ s. not (not (has_id id s))) ss e ∙ sym e
  | inr (x, e) ↦
      find-keep id (λ s. not (not (has_id id s))) ss x e
        (ground (arith, beq_iff x.id id, find-has_id id ss x e))
      ∙ sym e
]

-- The tables after an answered change.
abbrev changed : Crypto → Bytes → Bytes → Bytes → ℕ → World → Tables
changed c token new salt now w = record {
  credential = with_hash (hash_password c.id_key new salt) now w.credential;
  sessions = keep (λ s. not (not (has_id (token_id c token) s))) w.sessions;
}

change_password-tables :
    (c : Crypto) (s : Service) (token old new : Bytes) (now : ℕ) (w : World)
    → (change_password c s token old new now w).0 ≡ ok tt
    → (validate_password new ≡ true)
      × (verify_password c.id_key old (hash_of w.credential) ≡ some true)
      × ((salt : Bytes) × (tables (change_password c s token old new now w).1
            ≡ changed c token new salt now w))
change_password-tables c s token old new now w e =
    let (_, valid, (hash, h, q)) = change_password_ok c s token old new now w e in
    let (same, cred, r) = credential_hash_cases w in
    let w1 = (credential_hash w).1 in
    let is_hash : hash ≡ hash_of w.credential = ground arith in
    let e1 = sym (ap (λ (x : Result (Unit {0}) × World). x.0) q) ∙ e in
    let (good, (salt, t)) = check_old_ok c token old new now hash w1 e1 in
    let e2 = sym (ap (λ (x : Result (Unit {0}) × World). x.0) t) ∙ e1 in
    let w2 = (read_random w1).1 in
    let z : tables w2 ≡ tables w = tables-read_random w1 ∙ tables_lem w1 w cred same in
    let y = update_then_delete (hash_password c.id_key new salt) (token_id c token) now w2 e2 in
    (
      valid,
      subst (λ (k : Bytes). verify_password c.id_key old k ≡ some true) is_hash good,
      (
        salt,
        ap (λ (x : Result (Unit {0}) × World). tables x.1) (q ∙ t)
            ∙ y
            ∙ ap
                (λ (x : Tables). record {
                  credential = with_hash (hash_password c.id_key new salt) now x.credential;
                  sessions = keep (λ s. not (not (has_id (token_id c token) s))) x.sessions;
                })
                z,
      ),
    )

-- An answered change of the password has verified the old password and accepted the new one; the
-- stored hash is then a hash of the new password, every session left has the id of the current
-- token, and that session is as it was.
pub change_password_revokes :
    (c : Crypto) (s : Service) (token old new : Bytes) (now : ℕ) (w : World)
    → (change_password c s token old new now w).0 ≡ ok tt
    → let v = (change_password c s token old new now w).1 in
      (validate_password new ≡ true)
      × (verify_password c.id_key old (hash_of w.credential) ≡ some true)
      × ((salt : Bytes) × (v.credential
            ≡ with_hash (hash_password c.id_key new salt) now w.credential))
      × All (λ x. x.id ≡ token_id c token) v.sessions
      × (find (token_id c token) v.sessions ≡ find (token_id c token) w.sessions)
change_password_revokes c s token old new now w e =
    let (valid, good, (salt, q)) = change_password-tables c s token old new now w e in
    let id = token_id c token in
    let ss = ap (λ (x : Tables). x.sessions) q in
    (
      valid,
      good,
      (salt, ap (λ (x : Tables). x.credential) q),
      subst (All (λ x. x.id ≡ id)) (sym ss) (only_id id w.sessions),
      ap (find id) ss ∙ find_only id w.sessions,
    )
