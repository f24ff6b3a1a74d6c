-- ===== src/Agent/Registry.antt =====
-- internal/agenttools: tools, roles and the authorization of a call (registry.go,
-- registry_authz.go). The fields of a tool that no decision reads are left out.
pub mod Gate
use fund_dashboard.Prelude.{
  ℕ, Bool, true, false, ◌&&◌, ◌||◌, not, List, [], ◌∷◌, Option, none, some, if◌then◌else◌, Bytes,
  bytes, beq,
}

pub data Scope : Type 0 where
  read_scope write_scope maintenance_scope external_context_scope disabled_scope : Scope
  other_scope : Bytes → Scope

pub data Permission : Type 0 where
  allowed_permission requires_confirmation_permission disabled_permission : Permission
  other_permission : Bytes → Permission

pub data Role : Type 0 where
  viewer analyst maintainer operator : Role
  other_role : Bytes → Role

pub data DenyReason : Type 0 where
  unknown_tool disabled review_needed scope_not_allowed confirmation_required : DenyReason

pub record Migration : Type 0 where
  pub permission_source : Bytes
  pub review_required : Bool

pub record Tool : Type 0 where
  pub name : Bytes
  pub scope : Scope
  pub permission : Permission
  pub required : Bool
  pub token_ttl : Option ℕ
  pub migration : Option Migration

abbrev pub confirms : Permission → Bool
confirms requires_confirmation_permission = true
confirms allowed_permission = false
confirms disabled_permission = false
confirms (other_permission p) = false

abbrev pub is_disabled : Permission → Scope → Bool
is_disabled disabled_permission s = true
is_disabled p disabled_scope = true
is_disabled p s = false

unfoldable pub role_allows_scope : Role → Scope → Bool
role_allows_scope viewer read_scope = true
role_allows_scope analyst read_scope = true
role_allows_scope analyst external_context_scope = true
role_allows_scope maintainer read_scope = true
role_allows_scope maintainer maintenance_scope = true
role_allows_scope maintainer external_context_scope = true
role_allows_scope operator read_scope = true
role_allows_scope operator maintenance_scope = true
role_allows_scope operator external_context_scope = true
role_allows_scope operator write_scope = true
role_allows_scope _ _ = false

unfoldable pub requires_review : Option Migration → Bool
requires_review none = false
requires_review (some m) = m.review_required || beq m.permission_source (bytes "inferred")

-- The index maps a name to the last tool that has it.
unfoldable pub lookup_tool : Bytes → List Tool → Option Tool
lookup_tool name [] = none
lookup_tool name (t ∷ ts) = elim (lookup_tool name ts) [
  | some u ↦ some u
  | none ↦ if beq t.name name then some t else none
]

-- `Authorize` for a tool that is there: `none` is allowed.
unfoldable pub authorize_tool : Tool → Role → Bool → Bool → Option DenyReason
authorize_tool t role confirmed enforce_reviewed =
    if is_disabled t.permission t.scope
    then some disabled
    else if enforce_reviewed && requires_review t.migration
    then some review_needed
    else if not (role_allows_scope role t.scope)
    then some scope_not_allowed
    else if confirms t.permission && not confirmed
    then some confirmation_required
    else none

unfoldable pub authorize : List Tool → Bytes → Role → Bool → Bool → Option DenyReason
authorize tools name role confirmed enforce_reviewed = elim (lookup_tool name tools) [
  | none ↦ some unknown_tool
  | some t ↦ authorize_tool t role confirmed enforce_reviewed
]
