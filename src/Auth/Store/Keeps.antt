-- ===== src/Auth/Store/Keeps.antt =====
-- Actions on the tables that keep a property of the credential and of the rows of auth_sessions.
use fund_dashboard.Prelude.{◌≢◌}
use fund_dashboard.Auth.Store.{◌>>◌, has_id}
use fund_dashboard.Auth.Store.{insert_if_absent, with_hash}
use fund_dashboard.Auth.Store.{hash_of}
use fund_dashboard.Prelude.{
  subst, sym, ℕ, ◌≡◌, Bool, true, false, not, List, [], ◌∷◌, ◌++◌, Option, none, some, refl, arith,
  if◌then◌else◌, Bytes, keep, ◌==◌, ◌⊎◌, inl, inr,
}
use fund_dashboard.Auth.Store.{
  Err, Result, ok, err, db_error, Session, AuthEvent, Credential, World, Exec, ◌>>=◌, pure, raise,
  statement, run_statement, credential_hash, insert_credential_if_absent, update_credential_hash,
  find, touch, create_session, session_by_id, touch_session, delete_where, delete_other_sessions,
  insert_auth_event, list_sessions, list_auth_events, sweep_auth_events,
}

-- The two tables that decide who gets in.
pub record Tables : Type 0 where
  pub credential : Option Credential
  pub sessions : List Session

abbrev pub tables : World → Tables
tables w = record { credential = w.credential; sessions = w.sessions }

pub record Keeps (P : Tables → Type 0) {A : Type 0} (m : Exec A) : Type 0 where
  pub at : (w : World) → P (tables w) → P (tables (m w).1)

run_statement-keeps :
    {A : Type 0} (P : Tables → Type 0) (f : World → A × World) (faults : List Bool) (w : World)
    → ((v : World) → P (tables v) → P (tables (f v).1))
    → P (tables w)
    → P (tables (run_statement faults f w).1)
unfolding run_statement
run_statement-keeps P f [] w h p = h w p
run_statement-keeps P f (true ∷ rest) w h p = p
run_statement-keeps P f (false ∷ rest) w h p = h (record w { faults = rest }) p

module _ {P : Tables → Type 0} where
  pub Keeps-pure : {A : Type 0} (a : A) → Keeps P (pure a)
  Keeps-pure a = record { at = λ w h. h }

  pub Keeps-raise : {A : Type 0} (e : Err) → Keeps P (raise {A = A} e)
  Keeps-raise e = record { at = λ w h. h }

  after_bind :
      {A B : Type 0} (f : A → Exec B) (w : World) (r : Result A)
      → ((a : A) → Keeps P (f a))
      → P (tables w)
      → P (let x : Result B × World = elim r [ ok a ↦ f a w | err e ↦ (err e, w) ] in tables x.1)
  after_bind f w (ok a) k h = (k a).at w h
  after_bind f w (err e) k h = h

  pub Keeps-bind :
      {A B : Type 0} {m : Exec A} {f : A → Exec B}
      → Keeps P m
      → ((a : A) → Keeps P (f a))
      → Keeps P (m >>= f)
  Keeps-bind {m = m} {f = f} k l = record { at = λ w h. after_bind f (m w).1 (m w).0 l (k.at w h) }

  pub Keeps-if :
      {A : Type 0} (b : Bool) {m n : Exec A} → Keeps P m → Keeps P n → Keeps P (if b then m else n)
  Keeps-if true k l = k
  Keeps-if false k l = l

  -- A statement keeps what its effect on the rows keeps; a failed one changes nothing.
  pub Keeps-statement :
      {A : Type 0} (f : World → A × World)
      → ((v : World) → P (tables v) → P (tables (f v).1))
      → Keeps P (statement f)
  unfolding statement
  Keeps-statement f h = record { at = λ w p. run_statement-keeps P f w.faults w h p }

  pub Keeps-delete_where :
      (p : Session → Bool)
      → ((t : Tables) → P t → P (record t { sessions = keep (λ s. not (p s)) t.sessions }))
      → Keeps P (delete_where p)
  unfolding delete_where
  Keeps-delete_where p h = Keeps-statement _ (λ v q. h (tables v) q)

  pub Keeps-credential_hash : Keeps P credential_hash
  unfolding credential_hash
  Keeps-credential_hash = Keeps-statement _ (λ v q. q)

  pub Keeps-insert_credential_if_absent :
      (hash : Bytes) (now : ℕ)
      → ((t : Tables)
          → P t
          → t.credential ≡ none
          → P (record t {
            credential = some (record { password_hash = hash; created_at = now; updated_at = now });
          }))
      → Keeps P (insert_credential_if_absent hash now)
  unfolding insert_credential_if_absent
  Keeps-insert_credential_if_absent hash now h =
      Keeps-statement _ (λ v q. inserted v v.credential refl q)
    where
      inserted :
          (v : World) (o : Option Credential)
          → v.credential ≡ o
          → P (tables v)
          → P (record (tables v) {
            credential =
                (insert_if_absent o
                  (record { password_hash = hash; created_at = now; updated_at = now })).0;
          })
      inserted v none e q = h (tables v) q e
      inserted v (some old) e q =
          subst (λ (x : Option Credential). P (record (tables v) { credential = x })) e q

  pub Keeps-update_credential_hash :
      (hash : Bytes) (now : ℕ)
      → ((t : Tables) → P t → P (record t { credential = with_hash hash now t.credential }))
      → Keeps P (update_credential_hash hash now)
  unfolding update_credential_hash
  Keeps-update_credential_hash hash now h = Keeps-statement _ (λ v q. h (tables v) q)

  pub Keeps-insert_auth_event : (e : AuthEvent) → Keeps P (insert_auth_event e)
  unfolding insert_auth_event
  Keeps-insert_auth_event e = Keeps-statement _ (λ v q. q)

  pub Keeps-sweep_auth_events : (cutoff : ℕ) → Keeps P (sweep_auth_events cutoff)
  unfolding sweep_auth_events
  Keeps-sweep_auth_events cutoff = Keeps-statement _ (λ v q. q)

  pub Keeps-list_auth_events : (limit : ℕ) → Keeps P (list_auth_events limit)
  unfolding list_auth_events
  Keeps-list_auth_events limit =
      Keeps-if (limit == 0) (Keeps-pure []) (Keeps-statement _ (λ v q. q))

  pub Keeps-list_sessions : Keeps P list_sessions
  unfolding list_sessions
  Keeps-list_sessions =
      Keeps-bind (Keeps-statement _ (λ v q. q))
        (λ n. Keeps-bind (Keeps-statement _ (λ v q. q)) (λ ss. Keeps-pure _))

-- What `session_by_id` returns, with the rows as they were.
pub session_by_id_cases :
    (id : Bytes) (w : World)
    → ((session_by_id id w).1.sessions ≡ w.sessions)
      × ((session_by_id id w).1.credential ≡ w.credential)
      × (((session_by_id id w).0 ≡ err db_error)
          ⊎ ((session_by_id id w).0 ≡ ok (find id w.sessions)))
unfolding session_by_id statement run_statement
session_by_id_cases id w = ground arith

pub credential_hash_cases :
    (w : World)
    → ((credential_hash w).1.sessions ≡ w.sessions)
      × ((credential_hash w).1.credential ≡ w.credential)
      × (((credential_hash w).0 ≡ err db_error)
          ⊎ ((credential_hash w).0 ≡ ok (hash_of w.credential)))
unfolding credential_hash statement run_statement
credential_hash_cases w = ground arith

-- The result is whether there was no row.
pub insert_credential_cases :
    (hash : Bytes) (now : ℕ) (w : World)
    → (((insert_credential_if_absent hash now w).0 ≡ err db_error)
        × (tables (insert_credential_if_absent hash now w).1 ≡ tables w))
      ⊎ ((w.credential ≡ none)
          × ((insert_credential_if_absent hash now w).0 ≡ ok true)
          × ((insert_credential_if_absent hash now w).1.credential ≢ none))
      ⊎ ((w.credential ≢ none)
          × ((insert_credential_if_absent hash now w).0 ≡ ok false)
          × (tables (insert_credential_if_absent hash now w).1 ≡ tables w))
unfolding insert_credential_if_absent statement run_statement
insert_credential_cases hash now w = ground arith

pub update_then_delete :
    (hash id : Bytes) (now : ℕ) (w : World)
    → ((update_credential_hash hash now >> delete_other_sessions id) w).0 ≡ ok tt
    → tables ((update_credential_hash hash now >> delete_other_sessions id) w).1 ≡ record {
      credential = with_hash hash now w.credential;
      sessions = keep (λ s. not (not (has_id id s))) w.sessions;
    }
unfolding update_credential_hash delete_other_sessions delete_where statement run_statement
update_then_delete hash id now w e = ground arith

pub touch_session_cases :
    (id : Bytes) (t x : ℕ) (w : World)
    → (((touch_session id t x w).0 ≡ err db_error)
        × ((touch_session id t x w).1.sessions ≡ w.sessions)
        × ((touch_session id t x w).1.credential ≡ w.credential))
      ⊎ (((touch_session id t x w).0 ≡ ok tt)
          × ((touch_session id t x w).1.sessions ≡ touch id t x w.sessions)
          × ((touch_session id t x w).1.credential ≡ w.credential))
unfolding touch_session statement run_statement
touch_session_cases id t x w = ground arith

-- A row is added only where no row has its id.
pub create_session_cases :
    (s : Session) (w : World)
    → (((create_session s w).0 ≡ err db_error)
        × ((create_session s w).1.sessions ≡ w.sessions)
        × ((create_session s w).1.credential ≡ w.credential))
      ⊎ (((create_session s w).0 ≡ ok tt)
          × (find s.id w.sessions ≡ none)
          × ((create_session s w).1.sessions ≡ w.sessions ++ s ∷ [])
          × ((create_session s w).1.credential ≡ w.credential))
unfolding create_session statement run_statement
create_session_cases s w = ground arith

pub tables_lem :
    (v w : World) → v.credential ≡ w.credential → v.sessions ≡ w.sessions → tables v ≡ tables w
tables_lem v w c s = ground arith

pub Keeps-create_session :
    {P : Tables → Type 0} (s : Session)
    → ((t : Tables)
        → P t
        → find s.id t.sessions ≡ none
        → P (record t { sessions = t.sessions ++ s ∷ [] }))
    → Keeps P (create_session s)
Keeps-create_session {P} s h = record {
  at = λ w p. elim (create_session_cases s w) [
    | inl (_, same, c) ↦ subst P (sym (tables_lem (create_session s w).1 w c same)) p
    | inr (_, fresh, added, c) ↦
        let q : tables (create_session s w).1
            ≡ record (tables w) { sessions = w.sessions ++ s ∷ [] } =
          ground arith in
        subst P (sym q) (h (tables w) p fresh)
  ];
}
