-- ===== src/Http/McpAuth/Tests.antt =====
-- The credentials of /mcp on concrete values.
use fund_dashboard.Prelude.{
  ◌*◌, ◌≡◌, ◌≢◌, ◌⊎◌, true, false, Bool, [], ◌++◌, some, refl, Bytes, bytes, beq, hour, second,
}
use fund_dashboard.Go.Base64.{decode}
use fund_dashboard.Go.Text.{trim_space, trim_end, split, fields}
use fund_dashboard.Go.Search.{to_lower, contains}
use fund_dashboard.Agent.Registry.{analyst, operator}
use fund_dashboard.Oauth.Store.{mentions}
use fund_dashboard.Oauth.Signing.{Claims, alg_es256, raw_to_asn1_es256}
use fund_dashboard.Oauth.Flow.{Service, scope_write, resource_of, split_scopes}
use fund_dashboard.Oauth.Scopes.{role_for_scopes}
use fund_dashboard.Oauth.Jwt.{Verifier, AccessToken, must_asn1, verify_access_token}
use fund_dashboard.Http.McpAuth.{
  Request, McpAuthScope, admitted, head_of, scheme_of, resolve_oauth_issuer, equal_fold,
  without_prefix, bearer_token, is_key, match_mcp_key, map_oauth_role, capped_role, oauth_scope,
  scope_for, verify_mcp_oauth_token, or_invalid, without_key, or_oauth, mcp_auth,
}
use fund_dashboard.Http.McpAuth.Operator.{operator_sound}

abbrev claims : Claims
claims = record {
  issuer = bytes "https://f";
  subject = bytes "fund-owner";
  audience = bytes "https://f/mcp";
  client_id = bytes "cli";
  scope = scope_write;
  expiry = 3600;
  issued_at = 0;
  jwt_id = bytes "j";
  token_type = bytes "at+jwt";
}

-- Stand-ins that accept any signature.
abbrev verifier : Verifier
verifier = record {
  sha256 = λ x. x;
  read_header = λ x. some (record { alg = alg_es256; typ = bytes "JWT"; kid = bytes "k" });
  read_claims = λ x. some claims;
  write_asn1 = λ r s. some (r ++ s);
  verify_asn1 = λ digest x. true;
}

abbrev service : Bool → Service
service allow_write_scope = record {
  options = record {
    public_base_url = bytes "https://f/";
    resource_path = bytes "/mcp";
    access_ttl = hour;
    refresh_ttl = 720 * hour;
    code_ttl = 60 * second;
    auto_approve = true;
    allow_write_scope = allow_write_scope;
  };
  has_store = true;
  has_key = true;
}

abbrev token : Bytes
token =
    bytes
      "AAAA.AAAA.AAAAAAAAAAAAAAAAAAAAAAAAAAAAAAAAAAAAAAAAAAAAAAAAAAAAAAAAAAAAAAAAAAAAAAAAAAAAAAAAAAAAAA"

abbrev request : Request
request = record {
  authorization = bytes "bearer " ++ token;
  forwarded_proto = [];
  has_tls = false;
  host = bytes "f";
}

abbrev writer : McpAuthScope
writer = record { role = operator; key = bytes "oauth"; client_id = bytes "cli" }

writes :
    mcp_auth verifier second (some (bytes "k")) [] [] (some (service true)) request
    ≡ admitted writer
unfolding mcp_auth or_oauth without_key or_invalid verify_mcp_oauth_token scope_for oauth_scope
    capped_role map_oauth_role match_mcp_key is_key bearer_token without_prefix equal_fold
    resolve_oauth_issuer scheme_of head_of resource_of role_for_scopes split_scopes
    verify_access_token must_asn1 raw_to_asn1_es256 decode trim_space trim_end split fields to_lower
    contains beq
writes = refl

-- The same token, once write access is switched off.
reads :
    mcp_auth verifier second (some (bytes "k")) [] [] (some (service false)) request
    ≡ admitted (record writer { role = analyst })
unfolding mcp_auth or_oauth without_key or_invalid verify_mcp_oauth_token scope_for oauth_scope
    capped_role map_oauth_role match_mcp_key is_key bearer_token without_prefix equal_fold
    resolve_oauth_issuer scheme_of head_of resource_of role_for_scopes split_scopes
    verify_access_token must_asn1 raw_to_asn1_es256 decode trim_space trim_end split fields to_lower
    contains beq
reads = refl

operator_sound_example :
    ((trim_space [] ≢ []) × (bearer_token request.authorization ≡ trim_space []))
    ⊎ ((s : Service) × (some (service true) ≡ some s)
        × (s.options.allow_write_scope ≡ true)
        × ((t : AccessToken) × (verify_access_token verifier second
                (resolve_oauth_issuer request s)
                (resource_of s (resolve_oauth_issuer request s))
                (some (bytes "k"))
                (bearer_token request.authorization)
              ≡ some t)
            × (mentions t.scopes scope_write ≡ true)
            × (writer.client_id ≡ t.client_id)))
operator_sound_example =
    operator_sound verifier second (some (bytes "k")) [] [] (some (service true)) request writer
      writes refl
