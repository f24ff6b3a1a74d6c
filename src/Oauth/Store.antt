-- ===== src/Oauth/Store.antt =====
-- internal/oauth/store.go over a database that is there. The lists of texts in the columns of a
-- client are kept as lists.
pub mod Lookup
pub mod Keeps
pub mod Clients
use fund_dashboard.Prelude.{
  ℕ, ◌+◌, ◌*◌, ◌-◌, Bool, true, false, ◌&&◌, ◌||◌, not, List, [], ◌∷◌, ◌++◌, Option, none, some,
  leb, ltb, ◌==◌, if◌then◌else◌, Bytes, beq, length, keep, tally, map,
}
use fund_dashboard.Go.Base64.{url, encode}
use fund_dashboard.Go.Text.{hex}
use fund_dashboard.Oauth.State.{
  Client, SigningKey, RefreshToken, Approval, Server, Failure, plain, Outcome, success, failed,
  Flow, ◌>>=◌, ◌>>◌, pure, raise, query, read_random,
}

unfoldable pub load_signing_key : Flow (Option SigningKey)
load_signing_key = query (λ w. (w.signing_key, w))

abbrev pub key_if_absent : Option SigningKey → SigningKey → Option SigningKey × Bool
key_if_absent none k = (some k, true)
key_if_absent (some old) k = (some old, false)

unfoldable pub insert_signing_key_if_absent : SigningKey → Flow Bool
insert_signing_key_if_absent key = query λ w.
    let (row, inserted) = key_if_absent w.signing_key key in
    (inserted, record w { signing_key = row })

unfoldable pub find_client : Bytes → List Client → Option Client
find_client id [] = none
find_client id (c ∷ cs) = let rest = find_client id cs in if beq c.id id then some c else rest

-- `ON CONFLICT(client_id) DO UPDATE`: all columns but the time of creation.
abbrev updated : Client → Client → Client
updated c old = if beq old.id c.id then record c { created_at = old.created_at } else old

abbrev upsert_client : Option Client → Client → List Client → List Client
upsert_client none c cs = cs ++ c ∷ []
upsert_client (some old) c cs = map (updated c) cs

unfoldable pub insert_client : Client → Flow (Unit {0})
unfolding find_client
insert_client c =
    query λ w. (tt, record w { clients = upsert_client (find_client c.id w.clients) c w.clients })

unfoldable pub client_by_id : Bytes → Flow (Option Client)
client_by_id id = query (λ w. (find_client id w.clients, w))

pub delete_client_consent : Bytes → Flow (Unit {0})
delete_client_consent id =
    query λ w. (tt, record w { approvals = keep (λ a. not (beq a.client_id id)) w.approvals })

pub delete_client : Bytes → Flow (Unit {0})
delete_client id = do
  query (λ w. (tt, record w { clients = keep (λ c. not (beq c.id id)) w.clients }))
  delete_client_consent id

abbrev pub is_approval : Bytes → Bytes → Approval → Bool
is_approval client_id scope a = beq a.client_id client_id && beq a.scope scope

-- `ON CONFLICT(client_id, scope) DO NOTHING`.
pub add_approval : Approval → List Approval → List Approval
add_approval a rows =
    if tally (is_approval a.client_id a.scope) rows == 0 then rows ++ a ∷ [] else rows

pub record_client_consent : Bytes → Bytes → ℕ → Flow (Unit {0})
unfolding add_approval
record_client_consent client_id scope approved_at = query λ w. (
  tt,
  record w {
    approvals =
        add_approval (record { client_id = client_id; scope = scope; approved_at = approved_at })
          w.approvals;
  },
)

unfoldable pub mentions : List Bytes → Bytes → Bool
mentions [] scope = false
mentions (s ∷ ss) scope = beq s scope || mentions ss scope

abbrev pub counts : Bytes → List Bytes → Approval → Bool
counts client_id scopes a = beq a.client_id client_id && mentions scopes a.scope

unfoldable pub has_client_consent : Bytes → List Bytes → Flow Bool
has_client_consent client_id scopes =
    if length scopes == 0
    then pure false
    else query (λ w. (tally (counts client_id scopes) w.approvals == length scopes, w))

module _ (sha256 : Bytes → Bytes) where
  unfoldable pub token_id : Bytes → Bytes
  token_id raw = hex (sha256 raw)

  unfoldable pub new_refresh_token : Flow (Bytes × Bytes)
  new_refresh_token = do buf ← read_random; pure (encode url buf, token_id (encode url buf))

abbrev pub refresh_token_retention : ℕ
refresh_token_retention = 30 * 86400

abbrev pub is_old : Option ℕ → ℕ → Bool
is_old none cutoff = false
is_old (some t) cutoff = ltb 0 t && leb t cutoff

-- The predicate of the sweep.
pub stale : ℕ → RefreshToken → Bool
stale cutoff t = leb t.expires_at cutoff || is_old t.revoked_at cutoff

-- A failed sweep is logged and swallowed.
unfoldable pub sweep_expired_refresh_tokens : ℕ → Server → Server
sweep_expired_refresh_tokens now w =
    if leb now refresh_token_retention
    then w
    else (query
        (λ v. (
          tt {0},
          record v { tokens = keep (λ t. not (stale (now - refresh_token_retention) t)) v.tokens },
        ))
        w).1

unfoldable pub find_token : Bytes → List RefreshToken → Option RefreshToken
find_token id [] = none
find_token id (t ∷ ts) = let rest = find_token id ts in if beq t.id id then some t else rest

-- The id is the primary key.
abbrev insert_token_row : Option RefreshToken → RefreshToken → Flow (Unit {0})
insert_token_row (some old) t w = (failed plain, w)
insert_token_row none t w = (success tt, record w { tokens = w.tokens ++ t ∷ [] })

abbrev nil_unless_zero : Option ℕ → Option ℕ
nil_unless_zero none = none
nil_unless_zero (some t) = if t == 0 then none else some t

abbrev sweep_after : ℕ → Flow (Unit {0})
sweep_after now w = (success tt, sweep_expired_refresh_tokens now w)

unfoldable pub insert_refresh_token : RefreshToken → Flow (Unit {0})
insert_refresh_token t = do
  clash ← query (λ w. (find_token t.id w.tokens, w))
  insert_token_row clash (record t { revoked_at = nil_unless_zero t.revoked_at })
  sweep_after t.created_at

-- NULL is scanned as zero.
abbrev pub scanned : Option ℕ → ℕ
scanned none = 0
scanned (some t) = t

unfoldable pub usable : ℕ → Option RefreshToken → Option RefreshToken
usable now none = none
usable now (some t) =
    if not (scanned t.revoked_at == 0) || leb t.expires_at now then none else some t

unfoldable pub refresh_token_by_id : Bytes → ℕ → Flow (Option RefreshToken)
refresh_token_by_id id now = query (λ w. (usable now (find_token id w.tokens), w))

abbrev pub first_revoked : Option ℕ → ℕ → Option ℕ
first_revoked none now = some now
first_revoked (some t) now = some t

unfoldable pub revoke_where : (RefreshToken → Bool) → ℕ → List RefreshToken → List RefreshToken
revoke_where p now [] = []
revoke_where p now (t ∷ ts) =
    (if p t then record t { revoked_at = first_revoked t.revoked_at now } else t)
    ∷ revoke_where p now ts

unfoldable pub revoke_refresh_token : Bytes → ℕ → Flow (Unit {0})
revoke_refresh_token id now =
    query λ w. (tt, record w { tokens = revoke_where (λ t. beq t.id id) now w.tokens })

unfoldable pub revoke_client_tokens : Bytes → ℕ → Flow (Unit {0})
revoke_client_tokens client_id now =
    query
      λ w. (tt, record w { tokens = revoke_where (λ t. beq t.client_id client_id) now w.tokens })

pub count_clients : Flow ℕ
count_clients = query (λ w. (length w.clients, w))
