-- ===== src/Http/McpAuth/Operator.antt =====
-- Who may write through /mcp: the operator role of internal/httpapi/mcp_auth.go.
use fund_dashboard.Prelude.{
  ℕ, ◌≡◌, ◌≢◌, ◌⊎◌, inl, inr, Bool, true, List, [], ◌∷◌, Option, none, some, refl, arith, Bytes,
  bytes, beq, beq_iff, Bool-cases, ap, sym, ◌∙◌,
}
use fund_dashboard.Go.Text.{trim_space}
use fund_dashboard.Agent.Registry.{Role, analyst, operator}
use fund_dashboard.Oauth.Store.{mentions}
use fund_dashboard.Oauth.Flow.{Service, scope_write, resource_of}
use fund_dashboard.Oauth.Scopes.{role_for_scopes}
use fund_dashboard.Oauth.Jwt.{Verifier, AccessToken, verify_access_token}
use fund_dashboard.Http.McpAuth.{
  Request, McpAuthScope, admitted, resolve_oauth_issuer, bearer_token, is_key, match_mcp_key,
  map_oauth_role, capped_role, oauth_scope, scope_for, verify_mcp_oauth_token, or_invalid,
  without_key, or_oauth, mcp_auth,
}

operator_scopes :
    (xs : List Bytes) → role_for_scopes xs ≡ bytes "operator" → mentions xs scope_write ≡ true
unfolding role_for_scopes mentions
operator_scopes [] e = absurd (ground (arith, e))
operator_scopes (x ∷ xs) e = ground (arith, e, operator_scopes xs)

operator_name : (name : Bytes) → map_oauth_role name ≡ some operator → name ≡ bytes "operator"
unfolding map_oauth_role
operator_name name e = ground (arith, e, beq_iff name (bytes "operator"))

capped_role-operator :
    (b : Bool) (role : Role) → capped_role b role ≡ operator → (b ≡ true) × (role ≡ operator)
unfolding capped_role
capped_role-operator b role e = ground (arith, e)

-- A verified token that may write: writing is enabled, and it has the scope.
IsWriter : Service → Option AccessToken → McpAuthScope → Type 0
IsWriter s o m =
    (s.options.allow_write_scope ≡ true)
    × ((t : AccessToken) × (o ≡ some t)
        × (mentions t.scopes scope_write ≡ true)
        × (m.client_id ≡ t.client_id))

role-IsWriter :
    (s : Service) (t : AccessToken) (m : McpAuthScope) (o : Option Role)
    → map_oauth_role (role_for_scopes t.scopes) ≡ o
    → oauth_scope s t o ≡ some m
    → m.role ≡ operator
    → IsWriter s (some t) m
unfolding oauth_scope IsWriter
role-IsWriter s t m none q e r = absurd (ground (arith, e))
role-IsWriter s t m (some role) q e r =
    let same : (capped_role s.options.allow_write_scope role ≡ m.role)
        × (t.client_id ≡ m.client_id) =
      ground (arith, e) in
    let (enabled, is) = capped_role-operator s.options.allow_write_scope role (same.0 ∙ r) in
    (
      enabled,
      (
        t,
        refl,
        operator_scopes t.scopes
            (operator_name (role_for_scopes t.scopes) (q ∙ ap (λ (x : Role). some x) is)),
        sym same.1,
      ),
    )

scope-IsWriter :
    (s : Service) (o : Option AccessToken) (m : McpAuthScope)
    → scope_for s o ≡ some m
    → m.role ≡ operator
    → IsWriter s o m
unfolding scope_for
scope-IsWriter s none m e r = absurd (ground (arith, e))
scope-IsWriter s (some t) m e r =
    role-IsWriter s t m (map_oauth_role (role_for_scopes t.scopes)) refl (ground (arith, e)) r

is_key_lem : (key token : Bytes) → is_key key token ≡ true → (key ≢ []) × (token ≡ key)
unfolding is_key
is_key_lem key token e = (
  λ blank. absurd (ground (arith, e, (beq_iff key []).1 blank)),
  ground (arith, e, beq_iff token key),
)

key_operator :
    (token admin public : Bytes) (m : McpAuthScope)
    → match_mcp_key token admin public ≡ some m
    → m.role ≡ operator
    → is_key admin token ≡ true
unfolding match_mcp_key
key_operator token admin public m e r = elim (Bool-cases (is_key admin token)) [
  | inl holds ↦ holds
  | inr fails ↦ elim (Bool-cases (is_key public token)) [
    | inl reader ↦
        let role : analyst ≡ m.role = ground (arith, e, fails, reader) in
        absurd (ground (arith, role ∙ r))
    | inr neither ↦ absurd (ground (arith, e, fails, neither))
  ]
]

module _ (v : Verifier) (now : ℕ) (key : Option Bytes) where
  -- The operator role comes from the key of the administrator, or from a token that may write.
  IsOperator : Bytes → Option Service → Request → Bytes → McpAuthScope → Type 0
  IsOperator admin svc r token m =
      ((admin ≢ []) × (token ≡ admin))
      ⊎ ((s : Service) × (svc ≡ some s)
          × IsWriter s
              (verify_access_token v now (resolve_oauth_issuer r s)
                (resource_of s (resolve_oauth_issuer r s)) key token)
              m)

  oauth_operator :
      (s : Service) (r : Request) (token : Bytes) (m : McpAuthScope) (o : Option McpAuthScope)
      → verify_mcp_oauth_token v now key r s token ≡ o
      → or_invalid v now key o ≡ admitted m
      → m.role ≡ operator
      → IsWriter s
          (verify_access_token v now
            (resolve_oauth_issuer r s)
            (resource_of s (resolve_oauth_issuer r s))
            key
            token)
          m
  unfolding or_invalid verify_mcp_oauth_token
  oauth_operator s r token m none q e role = absurd (ground (arith, e))
  oauth_operator s r token m (some scope) q e role =
      scope-IsWriter s
        (verify_access_token v now (resolve_oauth_issuer r s)
          (resource_of s (resolve_oauth_issuer r s)) key token)
        m (ground (arith, q, e)) role

  found_operator :
      (admin public : Bytes) (svc : Option Service) (r : Request) (token : Bytes) (m : McpAuthScope)
      (o : Option McpAuthScope)
      → match_mcp_key token admin public ≡ o
      → or_oauth v now key admin public svc r token o ≡ admitted m
      → m.role ≡ operator
      → IsOperator admin svc r token m
  unfolding or_oauth without_key IsOperator
  found_operator admin public svc r token m (some scope) q e role =
      inl (is_key_lem admin token (key_operator token admin public m (ground (arith, q, e)) role))
  found_operator admin public none r token m none q e role = absurd (ground (arith, e))
  found_operator admin public (some s) r token m none q e role =
      inr (
        s,
        refl,
        oauth_operator s r token m (verify_mcp_oauth_token v now key r s token) refl e role,
      )

-- A request to /mcp has the operator role only with the configured key of the administrator as its
-- bearer token, or, where OAuth is on and write access is enabled, with a token that verifies for
-- the issuer and the resource of this server, has fund.write among its scopes, and is of the client
-- that is answered; whenever and however the token was issued.
pub operator_sound :
    (v : Verifier) (now : ℕ) (key : Option Bytes) (admin_key public_key : Bytes)
    (svc : Option Service) (r : Request) (m : McpAuthScope)
    → mcp_auth v now key admin_key public_key svc r ≡ admitted m
    → m.role ≡ operator
    → ((trim_space admin_key ≢ []) × (bearer_token r.authorization ≡ trim_space admin_key))
      ⊎ ((s : Service) × (svc ≡ some s)
          × (s.options.allow_write_scope ≡ true)
          × ((t : AccessToken) × (verify_access_token v now
                  (resolve_oauth_issuer r s)
                  (resource_of s (resolve_oauth_issuer r s))
                  key
                  (bearer_token r.authorization)
                ≡ some t)
              × (mentions t.scopes scope_write ≡ true)
              × (m.client_id ≡ t.client_id)))
unfolding mcp_auth IsOperator IsWriter
operator_sound v now key admin_key public_key svc r m e role =
    let admin = trim_space admin_key in
    let public = trim_space public_key in
    let token = bearer_token r.authorization in
    elim (Bool-cases (beq token [])) [
      | inl missing ↦ absurd (ground (arith, (rw missing at e)))
      | inr given ↦
          elim (found_operator v now key admin public svc r token m
            (match_mcp_key token admin public) refl (rw given at e) role) [
              | inl by_key ↦ inl by_key
              | inr (s, on, writer) ↦ inr (s, on, writer.0, writer.1)
            ]
    ]
