-- ===== src/Oauth/Clients.antt =====
-- internal/oauth/clients.go: redirect URIs, dynamic registration and client-id metadata documents.
-- Package net/url, the fetching of a document and its JSON are parameters.
pub mod Safe
pub mod Keeps
pub mod Resolve
pub mod Target
use fund_dashboard.Prelude.{
  ℕ, ◌+◌, ◌*◌, map, Bool, true, false, not, ◌&&◌, ◌||◌, List, [], ◌∷◌, ◌++◌, Option, none, some,
  leb, ltb, ◌==◌, if◌then◌else◌, Bytes, bytes, beq, has_prefix, keep, length, take, minute,
}
use fund_dashboard.Go.Base64.{url, encode}
use fund_dashboard.Go.Text.{trim_space}
use fund_dashboard.Go.Search.{to_lower}
use fund_dashboard.Oauth.State.{
  Client, Server, Failure, invalid_client, invalid_redirect_uri, server_error, Outcome, success,
  failed, Flow, ◌>>=◌, ◌>>◌, pure, raise, as_server_error, read_random, unix,
}
use fund_dashboard.Oauth.Store.{mentions, insert_client, client_by_id}
use fund_dashboard.Oauth.Flow.{Service}
use fund_dashboard.Oauth.Scopes.{dedupe_strings}

-- What the code reads of a `url.URL`; `hostname` is the host without its port.
pub record Url : Type 0 where
  pub scheme : Bytes
  pub host : Bytes
  pub hostname : Bytes
  pub path : Bytes
  pub raw_query : Bytes
  pub fragment : Bytes
  pub has_user : Bool
  pub text : Bytes

-- The members of a metadata document.
pub record Document : Type 0 where
  pub client_name : Bytes
  pub redirect_uris : List Bytes
  pub scope : Bytes
  pub client_uri : Bytes
  pub grant_types : List Bytes

-- `fetch` is the answer to a request for a URL at a time.
pub record Net : Type 0 where
  pub parse : Bytes → Option Url
  pub fetch : ℕ → Bytes → Option Bytes
  pub decode : Bytes → Option Document

unfoldable pub is_loopback_host : Bytes → Bool
is_loopback_host host =
    let h = to_lower host in
    beq h (bytes "localhost")
    || beq h (bytes "127.0.0.1")
    || beq h (bytes "::1")
    || beq h (bytes "[::1]")

abbrev is_wild : ℕ → Bool
is_wild c = c == b'*' || c == b'?' || c == b'[' || c == b']' || c == b'{' || c == b'}' || c == b'\\'

-- `strings.ContainsAny(host, "*?[]{}\\")`
unfoldable pub has_wild : Bytes → Bool
has_wild [] = false
has_wild (c ∷ s) = is_wild c || has_wild s

unfoldable pub truncate : Bytes → ℕ → Bytes
truncate value max = let v = trim_space value in if leb (length v) max then v else take max v

abbrev pub outcome : {A : Type 0} → Outcome A → Flow A
outcome o w = (o, w)

unfoldable pub new_client_id : Flow Bytes
new_client_id = do buf ← read_random; pure (encode url buf)

unfoldable pub is_grant : Bytes → Bool
is_grant g = beq g (bytes "authorization_code") || beq g (bytes "refresh_token")

unfoldable pub both_if_none : List Bytes → List Bytes
both_if_none [] = bytes "authorization_code" ∷ bytes "refresh_token" ∷ []
both_if_none (g ∷ gs) = g ∷ gs

unfoldable pub normalize_grant_types : List Bytes → List Bytes
normalize_grant_types requested =
    dedupe_strings (both_if_none (keep is_grant (map trim_space requested)))

unfoldable pub with_first : Bytes → Option (List Bytes) → Option (List Bytes)
with_first uri none = none
with_first uri (some uris) = some (uri ∷ uris)

pub record RegisterClientRequest : Type 0 where
  pub client_name : Bytes
  pub redirect_uris : List Bytes
  pub grant_types : List Bytes
  pub token_endpoint_auth_method : Bytes
  pub scope : Bytes
  pub client_uri : Bytes

unfoldable pub auth_method : Bytes → Bytes
auth_method requested = let m = trim_space requested in if beq m [] then bytes "none" else m

abbrev beq_nil : List Bytes → Bool
beq_nil [] = true
beq_nil (u ∷ us) = false

unfoldable pub name_or : Bytes → Bytes → Bytes
name_or name other = let n = trim_space name in if beq n [] then other else n

unfoldable pub registered : ℕ → RegisterClientRequest → List Bytes → Bytes → Client
registered now req cleaned id = record {
  id = id;
  name = truncate (name_or req.client_name (bytes "MCP client " ++ take 8 id)) 120;
  redirect_uris = cleaned;
  grant_types = normalize_grant_types req.grant_types;
  token_endpoint_auth_method = auth_method req.token_endpoint_auth_method;
  scope = trim_space req.scope;
  client_uri = trim_space req.client_uri;
  registration_access_token = [];
  created_at = unix now;
}

-- A client of a metadata document; the flag that says so is left out.
described : Bytes → Url → Document → List Bytes → Client
described id u doc cleaned = record {
  id = id;
  name = truncate (name_or doc.client_name u.host) 120;
  redirect_uris = cleaned;
  grant_types = normalize_grant_types doc.grant_types;
  token_endpoint_auth_method = bytes "none";
  scope = trim_space doc.scope;
  client_uri = trim_space doc.client_uri;
  registration_access_token = [];
  created_at = 0;
}

pub record CacheEntry : Type 0 where
  pub client : Client
  pub expires_at : ℕ

-- `cimdResolver`: the hosts allowed and the documents resolved.
pub record Resolver : Type 0 where
  pub hosts : Bytes → Bool
  pub cache : Bytes → Option CacheEntry

abbrev pub cimd_cache_ttl : ℕ
cimd_cache_ttl = 10 * minute

abbrev put_cached : Bytes → Client → ℕ → (Bytes → Option CacheEntry) → Bytes → Option CacheEntry
put_cached id client expires_at cache k =
    if beq k id then some (record { client = client; expires_at = expires_at }) else cache k

unfoldable pub absolute_https : Bytes → Url → Option Bytes
absolute_https uri u =
    let scheme = to_lower u.scheme in
    if beq scheme (bytes "https")
    then some uri
    else if beq scheme (bytes "http") && is_loopback_host u.hostname
    then some uri
    else none

unfoldable pub check_url : Bytes → Option Url → Option Bytes
check_url uri none = none
check_url uri (some u) =
    if beq u.scheme []
    then none
    else if not (beq u.fragment [])
    then none
    else if beq u.hostname [] || has_wild u.hostname
    then none
    else if u.has_user
    then none
    else absolute_https uri u

unfoldable pub loopback_urls : Option Url → Option Url → Bool
loopback_urls (some a) (some b) =
    (beq a.scheme (bytes "http") && beq b.scheme (bytes "http"))
    && (is_loopback_host a.hostname && is_loopback_host b.hostname)
    && (beq a.path b.path && beq a.raw_query b.raw_query)
loopback_urls _ _ = false

abbrev single_uri : List Bytes → Option Bytes
single_uri (uri ∷ []) = some uri
single_uri _ = none

module _ (net : Net) where
  -- `none` is an error.
  unfoldable pub normalize_redirect_uri : Bytes → Option Bytes
  normalize_redirect_uri raw =
      let uri = trim_space raw in if beq uri [] then none else check_url uri (net.parse uri)

  unfoldable pub loopback_equivalent : Bytes → Bytes → Bool
  loopback_equivalent registered candidate =
      loopback_urls (net.parse registered) (net.parse candidate)

  unfoldable pub is_registered : List Bytes → Bytes → Bool
  is_registered [] uri = false
  is_registered (r ∷ rs) uri = beq r uri || loopback_equivalent r uri || is_registered rs uri

  unfoldable pub validate_redirect_uri : Client → Bytes → Option Bytes
  validate_redirect_uri client redirect_uri =
      let uri = trim_space redirect_uri in
      if beq uri []
      then single_uri client.redirect_uris
      else if is_registered client.redirect_uris uri
      then some uri
      else none

  -- The loop of `RegisterClient` over the URIs, with those it has seen.
  unfoldable pub clean_from : List Bytes → List Bytes → Option (List Bytes)
  clean_from seen [] = some []
  clean_from seen (raw ∷ raws) = elim (normalize_redirect_uri raw) [
    | none ↦ none
    | some uri ↦ elim (mentions seen uri) [
      | true ↦ clean_from seen raws
      | false ↦ with_first uri (clean_from (uri ∷ seen) raws)
    ]
  ]

  -- The loop of `Resolve`.
  pub normalize_all : List Bytes → Option (List Bytes)
  normalize_all [] = some []
  normalize_all (raw ∷ raws) = elim (normalize_redirect_uri raw) [
    | none ↦ none
    | some uri ↦ with_first uri (normalize_all raws)
  ]

  module _ (s : Service) where
    unfoldable pub new_client : ℕ → RegisterClientRequest → List Bytes → Flow Client
    new_client now req cleaned = do
      id ← as_server_error new_client_id
      let client = registered now req cleaned id
      as_server_error (if s.has_store then insert_client client else pure tt)
      pure client

    -- The response repeats the members of the client.
    unfoldable pub register_client : ℕ → RegisterClientRequest → Flow Client
    register_client now req =
        if beq_nil req.redirect_uris
        then raise invalid_client
        else elim (clean_from [] req.redirect_uris) [
          | none ↦ raise invalid_redirect_uri
          | some cleaned ↦
              if not (beq (auth_method req.token_endpoint_auth_method) (bytes "none"))
              then raise invalid_client
              else new_client now req cleaned
        ]

    -- `cimdResolver.Resolve` for a parsed client id.
    document_client : ℕ → Bytes → Url → Document → Resolver → Outcome (Client × Resolver)
    document_client now id u doc r =
        if beq_nil doc.redirect_uris
        then failed invalid_client
        else elim (normalize_all doc.redirect_uris) [
          | none ↦ failed invalid_client
          | some cleaned ↦
              let client = described id u doc cleaned in
              success
                (client, record r { cache = put_cached id client (now + cimd_cache_ttl) r.cache })
        ]

    fetch_document : ℕ → Bytes → Url → Resolver → Outcome (Client × Resolver)
    fetch_document now id u r = elim (net.fetch now u.text) [
      | none ↦ failed invalid_client
      | some body ↦ elim (net.decode body) [
        | none ↦ failed invalid_client
        | some doc ↦ document_client now id u doc r
      ]
    ]

    cached : ℕ → Bytes → Url → Option CacheEntry → Resolver → Outcome (Client × Resolver)
    cached now id u none r = fetch_document now id u r
    cached now id u (some e) r =
        if ltb now e.expires_at then success (e.client, r) else fetch_document now id u r

    resolve_url : ℕ → Bytes → Option Url → Resolver → Outcome (Client × Resolver)
    resolve_url now id none r = failed invalid_client
    resolve_url now id (some u) r =
        if not (beq u.scheme (bytes "https"))
        then failed invalid_client
        else if not (r.hosts (to_lower u.hostname))
        then failed invalid_client
        else cached now id u (r.cache id) r

    pub resolve : ℕ → Bytes → Resolver → Outcome (Client × Resolver)
    resolve now id r = resolve_url now id (net.parse id) r

    unfoldable pub stored_or_document :
        ℕ → Bytes → Resolver → Option Client → Flow (Client × Resolver)
    stored_or_document now id r (some client) = pure (client, r)
    stored_or_document now id r none =
        if has_prefix (bytes "https://") id
        then outcome (resolve now id r)
        else raise invalid_client

    -- `ResolveClient`
    unfoldable pub resolve_client : ℕ → Bytes → Resolver → Flow (Client × Resolver)
    resolve_client now client_id r =
        let id = trim_space client_id in
        if beq id [] then raise invalid_client else do
          found ← as_server_error (if s.has_store then client_by_id id else pure none)
          stored_or_document now id r found
