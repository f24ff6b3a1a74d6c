-- ===== src/Agent/Confirmations.antt =====
-- internal/confirmations/confirmation.go. HMAC, SHA-256 and the JSON text of a payload are
-- parameters. Times are nanoseconds.
pub mod Issued
use fund_dashboard.Prelude.{
  ℕ, ◌+◌, ◌*◌, Bool, true, false, ◌&&◌, not, List, [], ◌∷◌, Option, none, some, ltb, ◌==◌,
  if◌then◌else◌, Bytes, beq, second,
}
use fund_dashboard.Go.Base64.{url, encode}
use fund_dashboard.Go.Text.{hex}
use fund_dashboard.Agent.Registry.{Tool, confirms}

pub data Refusal : Type 0 where
  confirmation_not_required payload_hash_failed tool_mismatch payload_mismatch : Refusal
  token_mismatch already_used expired invalid_confirmation_lifetime random_failed : Refusal

pub record Record : Type 0 where
  pub tool : Bytes
  pub token_hash : Bytes
  pub payload_hash : Bytes
  pub expires_at : ℕ
  pub used_at : Option ℕ
  pub created_at : ℕ

-- `marshal` answers `none` for a payload that has no JSON text.
pub record Manager (Payload : Type 0) : Type 0 where
  pub hmac : Bytes → Bytes
  pub sha256 : Bytes → Bytes
  pub marshal : Payload → Option Bytes

pub data Verdict (A : Type 0) : Type 0 where
  accepts : A → Verdict A
  refuses : Refusal → Verdict A

unfoldable pub requires_confirmation : Tool → Bool
requires_confirmation t = t.required && confirms t.permission

-- The lifetime of the input, or of the tool's policy if the input has none. Lifetimes are not
-- negative here; the code refuses a negative one.
abbrev policy_ttl : ℕ → Option ℕ → ℕ
policy_ttl ttl none = ttl
policy_ttl ttl (some seconds) = if ttl == 0 then seconds * second else ttl

abbrev pub is_used : Option ℕ → Bool
is_used none = false
is_used (some t) = true

module _ {Payload : Type 0} (m : Manager Payload) where
  unfoldable pub hash_text : Option Bytes → Option Bytes
  hash_text none = none
  hash_text (some text) = some (hex (m.sha256 text))

  unfoldable pub payload_hash : Payload → Option Bytes
  payload_hash p = hash_text (m.marshal p)

  unfoldable pub token_hash : Bytes → Bytes
  token_hash token = hex (m.hmac token)

  unfoldable pub new_record : Bytes → Bytes → Bytes → ℕ → ℕ → Record
  new_record tool token hash ttl now = record {
    tool = tool;
    token_hash = token_hash token;
    payload_hash = hash;
    expires_at = now + ttl;
    used_at = none;
    created_at = now;
  }

  unfoldable pub issue_with : Bytes → ℕ → ℕ → Option Bytes → Option Bytes → Verdict (Bytes × Record)
  issue_with tool ttl now none entropy = refuses payload_hash_failed
  issue_with tool ttl now (some hash) none = refuses random_failed
  issue_with tool ttl now (some hash) (some buf) =
      accepts (encode url buf, new_record tool (encode url buf) hash ttl now)

  -- `Issue`, given what the random source read: the token and its record.
  unfoldable pub issue : Tool → Payload → ℕ → Option Bytes → ℕ → Verdict (Bytes × Record)
  issue t p ttl entropy now =
      if not (requires_confirmation t)
      then refuses confirmation_not_required
      else if policy_ttl ttl t.token_ttl == 0
      then refuses invalid_confirmation_lifetime
      else issue_with t.name (policy_ttl ttl t.token_ttl) now (payload_hash p) entropy

  -- The tests of `Verify` once the payload has its hash.
  unfoldable pub verify_hashed : Record → Bytes → Bytes → ℕ → Option Refusal
  verify_hashed r hash token now =
      if not (beq r.payload_hash hash)
      then some payload_mismatch
      else if not (beq r.token_hash (token_hash token))
      then some token_mismatch
      else if is_used r.used_at
      then some already_used
      else if not (ltb now r.expires_at)
      then some expired
      else none

  unfoldable pub verify_payload : Record → Bytes → ℕ → Option Bytes → Option Refusal
  verify_payload r token now none = some payload_hash_failed
  verify_payload r token now (some hash) = verify_hashed r hash token now

  -- `Verify`: `none` is no error.
  unfoldable pub verify : Record → Bytes → Tool → Payload → ℕ → Option Refusal
  verify r token t p now =
      if not (beq r.tool t.name)
      then some tool_mismatch
      else verify_payload r token now (payload_hash p)
