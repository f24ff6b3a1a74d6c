-- ===== src/Auth/Store.antt =====
-- internal/auth/store.go over the tables auth_credentials, auth_sessions and auth_events. A SQL
-- statement reads and writes the tables as its text says, or fails and has changed nothing; which
-- statements fail is a schedule in the state. Times are seconds of the Unix epoch.
pub mod Rows
pub mod Unique
pub mod Keeps
pub mod Healthy
use fund_dashboard.Prelude.{
  ℕ, zero, suc, ◌+◌, ◌≤◌, ◌<◌, ◌≡◌, Bool, true, false, ◌&&◌, ◌||◌, not, List, [], ◌∷◌, ◌++◌, Option,
  none, some, leb, ltb, ◌==◌, if◌then◌else◌, Bytes, beq, length, take, keep, tally,
}

-- The sentinel errors of the package, and the failures of the database and of the random source.
pub data Err : Type 0 where
  invalid_credentials already_initialized not_initialized env_managed : Err
  weak_password session_not_found rate_limited malformed_phc : Err
  db_error entropy_error : Err

pub data Result (A : Type 0) : Type 0 where
  ok : A → Result A
  err : Err → Result A

pub record Session : Type 0 where
  pub id : Bytes
  pub created_at : ℕ
  pub expires_at : ℕ
  pub last_seen_at : ℕ
  pub ip : Bytes
  pub user_agent : Bytes

-- The row of auth_credentials.
pub record Credential : Type 0 where
  pub password_hash : Bytes
  pub created_at : ℕ
  pub updated_at : ℕ

pub record AuthEvent : Type 0 where
  pub ts : ℕ
  pub event : Bytes
  pub ip : Bytes
  pub user_agent : Bytes
  pub detail : Bytes

-- The tables, the events newest first (by descending id); whether each coming statement fails; and
-- the coming reads of the random source, where `none` is a failed one.
pub record World : Type 0 where
  pub credential : Option Credential
  pub sessions : List Session
  pub events : List AuthEvent
  pub faults : List Bool
  pub entropy : List (Option Bytes)

abbrev pub Exec : Type 0 → Type 0
Exec A = World → Result A × World

infixl 5 ◌>>=◌ ◌>>◌
abbrev pub ◌>>=◌ : {A B : Type 0} → Exec A → (A → Exec B) → Exec B
◌>>=◌ m f w = elim (m w).0 [ ok a ↦ f a (m w).1 | err e ↦ (err e, (m w).1) ]

abbrev pub ◌>>◌ : {B : Type 0} → Exec (Unit {0}) → Exec B → Exec B
◌>>◌ m k = m >>= λ _. k

abbrev pub pure : {A : Type 0} → A → Exec A
pure a w = (ok a, w)

abbrev pub raise : {A : Type 0} → Err → Exec A
raise e w = (err e, w)

abbrev done : {A : Type 0} → A × World → Result A × World
done (a, w) = (ok a, w)

run_statement : {A : Type 0} → List Bool → (World → A × World) → Exec A
run_statement [] f w = done (f w)
run_statement (true ∷ rest) f w = (err db_error, record w { faults = rest })
run_statement (false ∷ rest) f w = done (f (record w { faults = rest }))

unfoldable pub statement : {A : Type 0} → (World → A × World) → Exec A
unfolding run_statement
statement f w = run_statement w.faults f w

abbrev pub hash_of : Option Credential → Bytes
hash_of none = []
hash_of (some c) = c.password_hash

unfoldable pub credential_hash : Exec Bytes
credential_hash = statement (λ w. (hash_of w.credential, w))

-- `ON CONFLICT(id) DO NOTHING`; the result is whether a row was inserted.
abbrev pub insert_if_absent : Option Credential → Credential → Option Credential × Bool
insert_if_absent none c = (some c, true)
insert_if_absent (some old) c = (some old, false)

unfoldable pub insert_credential_if_absent : Bytes → ℕ → Exec Bool
insert_credential_if_absent hash now = statement λ w.
    let (row, inserted) =
      insert_if_absent w.credential
        (record { password_hash = hash; created_at = now; updated_at = now }) in
    (inserted, record w { credential = row })

abbrev pub with_hash : Bytes → ℕ → Option Credential → Option Credential
with_hash hash now none = none
with_hash hash now (some c) = some (record c { password_hash = hash; updated_at = now })

unfoldable pub update_credential_hash : Bytes → ℕ → Exec (Unit {0})
update_credential_hash hash now =
    statement λ w. (tt, record w { credential = with_hash hash now w.credential })

abbrev pub has_id : Bytes → Session → Bool
has_id id s = beq s.id id

-- The row with an id, of the list of all rows.
unfoldable pub find : Bytes → List Session → Option Session
find id [] = none
find id (s ∷ ss) = let rest = find id ss in if has_id id s then some s else rest

-- The id is the primary key: a second row with it is refused by the database.
abbrev pub insert_row : Option Session → Session → Exec (Unit {0})
insert_row (some old) s w = (err db_error, w)
insert_row none s w = (ok tt, record w { sessions = w.sessions ++ s ∷ [] })

unfoldable pub create_session : Session → Exec (Unit {0})
create_session s = do clash ← statement (λ w. (find s.id w.sessions, w)); insert_row clash s

unfoldable pub session_by_id : Bytes → Exec (Option Session)
session_by_id id = statement (λ w. (find id w.sessions, w))

abbrev pub touched : Bytes → ℕ → ℕ → Session → Session
touched id last_seen_at expires_at s =
    if has_id id s then record s { last_seen_at = last_seen_at; expires_at = expires_at } else s

unfoldable pub touch : Bytes → ℕ → ℕ → List Session → List Session
touch id last_seen_at expires_at [] = []
touch id last_seen_at expires_at (s ∷ ss) =
    touched id last_seen_at expires_at s ∷ touch id last_seen_at expires_at ss

unfoldable pub touch_session : Bytes → ℕ → ℕ → Exec (Unit {0})
touch_session id last_seen_at expires_at =
    statement λ w. (tt, record w { sessions = touch id last_seen_at expires_at w.sessions })

-- `DELETE FROM auth_sessions WHERE …`, with the number of rows removed.
unfoldable pub delete_where : (Session → Bool) → Exec ℕ
delete_where p =
    statement λ w. (tally p w.sessions, record w { sessions = keep (λ s. not (p s)) w.sessions })

unfoldable pub delete_session : Bytes → Exec (Unit {0})
delete_session id = do _ ← delete_where (has_id id); pure tt

-- SQL's LIKE: `%` stands for any text and `_` for one character. Letters are compared as they are;
-- SQLite also folds the case of ASCII letters, which session ids do not have.
abbrev like_any : (Bytes → Bool) → Bytes → Bool
like_any f [] = f []
like_any f (c ∷ s) = f (c ∷ s) || like_any f s

abbrev like_one : ℕ → (Bytes → Bool) → Bytes → Bool
like_one p f [] = false
like_one p f (c ∷ s) = (p == b'_' || p == c) && f s

unfoldable pub like : Bytes → Bytes → Bool
like [] [] = true
like [] (c ∷ s) = false
like (p ∷ ps) s = let rest = like ps in if p == b'%' then like_any rest s else like_one p rest s

unfoldable pub delete_session_by_prefix : Bytes → Exec ℕ
delete_session_by_prefix prefix = delete_where (λ s. like (prefix ++ b'%' ∷ []) s.id)

unfoldable pub delete_other_sessions : Bytes → Exec (Unit {0})
delete_other_sessions keep_id = do _ ← delete_where (λ s. not (has_id keep_id s)); pure tt

unfoldable pub delete_expired_sessions : ℕ → Exec ℕ
delete_expired_sessions now = delete_where (λ s. ltb s.expires_at now)

-- The order of two texts by their bytes.
unfoldable pub text_lt : Bytes → Bytes → Bool
text_lt [] [] = false
text_lt [] (b ∷ t) = true
text_lt (a ∷ s) [] = false
text_lt (a ∷ s) (b ∷ t) = ltb a b || ((a == b) && text_lt s t)

-- `ORDER BY`: the rows sorted by a strict order, rows that tie in the order of the table.
insert_by : {A : Type 0} → (A → A → Bool) → A → List A → List A
insert_by before x [] = x ∷ []
insert_by before x (y ∷ ys) =
    let rest = insert_by before x ys in if before y x then y ∷ rest else x ∷ y ∷ ys

unfoldable pub order_by : {A : Type 0} → (A → A → Bool) → List A → List A
unfolding insert_by
order_by before [] = []
order_by before (x ∷ xs) = insert_by before x (order_by before xs)

abbrev pub seen_later : Session → Session → Bool
seen_later a b =
    ltb b.last_seen_at a.last_seen_at || ((a.last_seen_at == b.last_seen_at) && text_lt b.id a.id)

abbrev pub session_list_limit : ℕ
session_list_limit = 200

pub record SessionPage : Type 0 where
  pub sessions : List Session
  pub total : ℕ
  pub truncated : Bool

-- The count and the rows are two statements.
unfoldable pub list_sessions : Exec SessionPage
list_sessions = do
  total ← statement (λ w. (length w.sessions, w))
  out ← statement (λ w. (take session_list_limit (order_by seen_later w.sessions), w))
  pure (record { sessions = out; total = total; truncated = ltb (length out) total })

unfoldable pub insert_auth_event : AuthEvent → Exec (Unit {0})
insert_auth_event e = statement (λ w. (tt, record w { events = e ∷ w.events }))

abbrev pub newer : AuthEvent → AuthEvent → Bool
newer a b = ltb b.ts a.ts

-- A limit that is not positive returns nothing without a statement.
unfoldable pub list_auth_events : ℕ → Exec (List AuthEvent)
list_auth_events limit =
    if limit == 0
    then pure []
    else statement λ w. (take (if ltb 500 limit then 500 else limit) (order_by newer w.events), w)

unfoldable pub sweep_auth_events : ℕ → Exec ℕ
sweep_auth_events cutoff = statement λ w. (
  tally (λ e. ltb e.ts cutoff) w.events,
  record w { events = keep (λ e. not (ltb e.ts cutoff)) w.events },
)
