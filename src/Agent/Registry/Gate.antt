-- ===== src/Agent/Registry/Gate.antt =====
-- `Authorize` of internal/agenttools/registry_authz.go, as one condition.
use fund_dashboard.Prelude.{◌≡◌, ◌↔◌, Bool, true, false, none, arith}
use fund_dashboard.Agent.Registry.{
  Role, Tool, confirms, is_disabled, requires_review, role_allows_scope, authorize_tool,
}

-- A call of a tool is allowed exactly when neither its permission nor its scope is disabled, no
-- review is both enforced and needed, the role allows the scope, and it is confirmed if its
-- permission asks for that.
authorize_tool_iff :
    (t : Tool) (role : Role) (confirmed enforce_reviewed : Bool)
    → (authorize_tool t role confirmed enforce_reviewed ≡ none) ↔ (
        (is_disabled t.permission t.scope ≡ false)
        × (enforce_reviewed ≡ true → requires_review t.migration ≡ false)
        × (role_allows_scope role t.scope ≡ true)
        × (confirms t.permission ≡ true → confirmed ≡ true))
unfolding authorize_tool
authorize_tool_iff t role confirmed enforce_reviewed = ground arith
