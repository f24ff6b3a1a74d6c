-- ===== src/Oauth/Clients/Resolve.antt =====
-- `ResolveClient` and `cimdResolver.Resolve` of internal/oauth/clients.go answer clients whose redirect
-- URIs are safe.
use fund_dashboard.Prelude.{
  ℕ, ◌+◌, Bool, true, false, not, List, [], Option, none, some, if◌then◌else◌, Bytes, bytes, beq,
  ltb, has_prefix,
}
use fund_dashboard.Go.Text.{trim_space}
use fund_dashboard.Go.Search.{to_lower}
use fund_dashboard.Oauth.State.{
  Client, Approval, invalid_client, Outcome, success, failed, Flow, ◌>>=◌, pure, raise,
  as_server_error,
}
use fund_dashboard.Oauth.State.Ensures.{
  IsGood, Ensures, Ensures-pure, Ensures-raise, Ensures-bind, Ensures-if, Ensures-as_server_error,
}
use fund_dashboard.Oauth.Store.{client_by_id}
use fund_dashboard.Oauth.Store.Clients.{IsFound, client_by_id-keeps}
use fund_dashboard.Oauth.Flow.{Service}
use fund_dashboard.Oauth.Clients.{
  Url, Document, Net, CacheEntry, Resolver, cimd_cache_ttl, put_cached, described, normalize_all,
  document_client, fetch_document, cached, resolve_url, resolve, outcome, stored_or_document,
  resolve_client, beq_nil,
}
use fund_dashboard.Oauth.Clients.Safe.{IsSafeClient, AllSafe, normalize_all-AllSafe}
use fund_dashboard.Oauth.Clients.Keeps.{dated, AreSafe}

if-IsGood :
    {A : Type 0} (Q : A → Type 0) (b : Bool) (x y : Outcome A)
    → IsGood Q x
    → IsGood Q y
    → IsGood Q (if b then x else y)
if-IsGood Q true x y h k = h
if-IsGood Q false x y h k = k

module _ (net : Net) where
  abbrev pub IsSafeEntry : Option CacheEntry → Type 0
  IsSafeEntry none = Unit
  IsSafeEntry (some e) = IsSafeClient net e.client

  -- All cached documents have safe targets.
  abbrev pub IsSafeResolver : Resolver → Type 0
  IsSafeResolver r = (k : Bytes) → IsSafeEntry (r.cache k)

  abbrev pub IsResolved : Client × Resolver → Type 0
  IsResolved (client, r) = IsSafeClient net client × IsSafeResolver r

  put_cached-IsSafe :
      (id : Bytes) (client : Client) (t : ℕ) (r : Resolver) (k : Bytes)
      → IsSafeClient net client
      → IsSafeResolver r
      → IsSafeEntry (put_cached id client t r.cache k)
  put_cached-IsSafe id client t r k h safe =
      elim (beq k id)
        as (λ b.
          IsSafeEntry
            (if b then some (record { client = client; expires_at = t }) else r.cache k)) [
              | true ↦ h
              | false ↦ safe k
            ]

  document-IsResolved :
      (s : Service) (now : ℕ) (id : Bytes) (u : Url) (doc : Document) (r : Resolver)
      → IsSafeResolver r
      → IsGood IsResolved (document_client net s now id u doc r)
  unfolding document_client described
  document-IsResolved s now id u doc r safe =
      let made : List Bytes → Outcome (Client × Resolver) = λ cleaned.
        let client = described id u doc cleaned in
        success
          (client, record r { cache = put_cached id client (now + cimd_cache_ttl) r.cache }) in
      if-IsGood IsResolved (beq_nil doc.redirect_uris) (failed invalid_client)
        (elim (normalize_all net doc.redirect_uris) [
          | none ↦ failed invalid_client
          | some cleaned ↦ made cleaned
        ])
        tt
        (elim (normalize_all net doc.redirect_uris)
            as (λ o.
              AllSafe net o
              → IsGood IsResolved (elim o as (λ x. Outcome (Client × Resolver)) [
                | none ↦ failed invalid_client
                | some cleaned ↦ made cleaned
              ])) [
                | none ↦ λ h. tt
                | some cleaned ↦ λ h. (
                  h,
                  λ k.
                      put_cached-IsSafe id (described id u doc cleaned) (now + cimd_cache_ttl) r k h
                        safe,
                )
              ]
          (normalize_all-AllSafe net doc.redirect_uris))

  module _ (s : Service) where
    fetched-IsResolved :
        (now : ℕ) (id : Bytes) (u : Url) (r : Resolver)
        → IsSafeResolver r
        → IsGood IsResolved (fetch_document net s now id u r)
    unfolding fetch_document
    fetched-IsResolved now id u r safe =
        elim (net.fetch now u.text)
          as (λ o. IsGood IsResolved (elim o as (λ x. Outcome (Client × Resolver)) [
            | none ↦ failed invalid_client
            | some body ↦ elim (net.decode body) [
              | none ↦ failed invalid_client
              | some doc ↦ document_client net s now id u doc r
            ]
          ])) [
            | none ↦ tt
            | some body ↦
                elim (net.decode body)
                  as (λ o. IsGood IsResolved (elim o as (λ x. Outcome (Client × Resolver)) [
                    | none ↦ failed invalid_client
                    | some doc ↦ document_client net s now id u doc r
                  ])) [ none ↦ tt | some doc ↦ document-IsResolved s now id u doc r safe ]
          ]

    cached-IsResolved :
        (now : ℕ) (id : Bytes) (u : Url) (o : Option CacheEntry) (r : Resolver)
        → IsSafeEntry o
        → IsSafeResolver r
        → IsGood IsResolved (cached net s now id u o r)
    unfolding cached
    cached-IsResolved now id u none r h safe = fetched-IsResolved now id u r safe
    cached-IsResolved now id u (some e) r h safe =
        if-IsGood IsResolved (ltb now e.expires_at) (success (e.client, r))
          (fetch_document net s now id u r) (h, safe) (fetched-IsResolved now id u r safe)

    url-IsResolved :
        (now : ℕ) (id : Bytes) (o : Option Url) (r : Resolver)
        → IsSafeResolver r
        → IsGood IsResolved (resolve_url net s now id o r)
    unfolding resolve_url
    url-IsResolved now id none r safe = tt
    url-IsResolved now id (some u) r safe =
        let known : Outcome (Client × Resolver) = cached net s now id u (r.cache id) r in
        let hosted : Outcome (Client × Resolver) =
          if not (r.hosts (to_lower u.hostname)) then failed invalid_client else known in
        if-IsGood IsResolved (not (beq u.scheme (bytes "https"))) (failed invalid_client) hosted tt
          (if-IsGood IsResolved (not (r.hosts (to_lower u.hostname))) (failed invalid_client) known
            tt (cached-IsResolved now id u (r.cache id) r (safe id) safe))

    module _ (rows : List Approval) where
      outcome-keeps :
          (o : Outcome (Client × Resolver))
          → IsGood IsResolved o
          → Ensures (AreSafe net rows) IsResolved (outcome o)
      outcome-keeps o h w p = (p, h)

      found-keeps :
          (now : ℕ) (id : Bytes) (r : Resolver) (o : Option Client)
          → IsSafeResolver r
          → IsFound (IsSafeClient net) (dated net) o
          → Ensures (AreSafe net rows) IsResolved (stored_or_document net s now id r o)
      unfolding stored_or_document resolve
      found-keeps now id r none safe h =
          Ensures-if (AreSafe net rows) IsResolved (has_prefix (bytes "https://") id)
            (outcome (resolve_url net s now id (net.parse id) r)) (raise invalid_client)
            (outcome-keeps (resolve_url net s now id (net.parse id) r)
              (url-IsResolved now id (net.parse id) r safe))
            (λ e. Ensures-raise (AreSafe net rows) IsResolved invalid_client)
      found-keeps now id r (some c) safe h =
          Ensures-pure (AreSafe net rows) IsResolved (c, r) (h, safe)

      -- A client that is resolved has safe targets, and the cache keeps to such.
      pub resolve_client-keeps :
          (now : ℕ) (id : Bytes) (r : Resolver)
          → IsSafeResolver r
          → Ensures (AreSafe net rows) IsResolved (resolve_client net s now id r)
      unfolding resolve_client
      resolve_client-keeps now given r safe =
          let id = trim_space given in
          let IsKnown = IsFound (IsSafeClient net) (dated net) in
          let load : Flow (Option Client) = if s.has_store then client_by_id id else pure none in
          let answer : Flow (Client × Resolver) =
            as_server_error load >>= stored_or_document net s now id r in
          Ensures-if (AreSafe net rows) IsResolved (beq id []) (raise invalid_client) answer
            (Ensures-raise (AreSafe net rows) IsResolved invalid_client)
            (λ e.
              Ensures-bind (AreSafe net rows) IsKnown IsResolved (as_server_error load)
                (stored_or_document net s now id r)
                (Ensures-as_server_error (AreSafe net rows) IsKnown load (
                  Ensures-if (AreSafe net rows) IsKnown s.has_store (client_by_id id) (pure none)
                    (client_by_id-keeps (IsSafeClient net) (dated net) rows id)
                    (λ e'. Ensures-pure (AreSafe net rows) IsKnown none tt)))
                (λ o h. found-keeps now id r o safe h))
