-- ===== src/Agent/Claims/Tests.antt =====
-- The agent tools on concrete calls.
use fund_dashboard.Prelude.{
  ℕ, ◌*◌, ◌≡◌, ◌<◌, true, false, List, [], ◌∷◌, none, some, refl, arith, ◌==◌, if◌then◌else◌, Bytes,
  bytes, beq, second,
}
use fund_dashboard.Go.Base64.{encode}
use fund_dashboard.Go.Text.{hex}
use fund_dashboard.Agent.Registry.{
  write_scope, requires_confirmation_permission, operator, Tool, requires_review, role_allows_scope,
  lookup_tool, authorize_tool, authorize,
}
use fund_dashboard.Agent.Confirmations.{
  Record, Manager, accepts, requires_confirmation, hash_text, payload_hash, token_hash, issue,
  issue_with, new_record, verify, verify_payload, verify_hashed,
}
use fund_dashboard.Agent.Confirmations.Issued.{issued_verifies}
use fund_dashboard.Agent.Claims.{
  identity_too_long_for, authorize_gated_tool, gate_for, Input, begins, System, mark_used, verdict,
  check_record, pass_gate, load_phase, mark_result, take_phase, take_turn, Event, turns, handle,
  interleave,
}
use fund_dashboard.Agent.Claims.Exclusive.{is_won, is_row}
use fund_dashboard.Agent.Claims.Winner.{one_winner}

abbrev manager : Manager Bytes
manager = record { hmac = λ s. s; sha256 = λ s. s; marshal = λ p. some p }

abbrev tool : Tool
tool = record {
  name = bytes "add";
  scope = write_scope;
  permission = requires_confirmation_permission;
  required = true;
  token_ttl = some 300;
  migration = none;
}

abbrev stored : Record
stored = record {
  tool = bytes "add";
  token_hash = bytes "4151";
  payload_hash = bytes "70";
  expires_at = 300 * second;
  used_at = none;
  created_at = 0;
}

issued : issue manager tool (bytes "p") 0 (some (1 ∷ [])) 0 ≡ accepts (bytes "AQ", stored)
unfolding issue requires_confirmation issue_with payload_hash hash_text hex new_record token_hash
    encode
issued = refl

issued_verifies_example : verify manager stored (bytes "AQ") tool (bytes "p") 7 ≡ none
issued_verifies_example =
    issued_verifies manager tool (bytes "p") 0 0 7 (some (1 ∷ [])) (bytes "AQ") stored issued
      (omega arith)

abbrev input : Input Bytes
input = record {
  tool = bytes "add";
  role = operator;
  caller = [];
  request_id = [];
  confirmation_id = 0;
  token = bytes "AQ";
  payload = bytes "p";
  enforce_reviewed = true;
  ttl = 0;
}

abbrev inputs : ℕ → Input Bytes
inputs i = input

abbrev tools : List Tool
tools = tool ∷ []

abbrev system : System
system = record {
  rows = λ k. if k == 0 then some stored else none;
  next_id = 1;
  audit_rows = 0;
  phases = λ i. begins;
}

abbrev turn : ℕ → Event manager tools
turn i = turns (record { thread = i; now = 7; db_fails = false })

-- Both read the record before either claims it.
abbrev race : List (Event manager tools)
race = turn 0 ∷ turn 1 ∷ turn 1 ∷ turn 0 ∷ []

wins : is_won ((interleave manager tools inputs race system).phases 1) ≡ true
unfolding interleave handle take_turn take_phase load_phase identity_too_long_for pass_gate
    authorize_gated_tool gate_for lookup_tool authorize authorize_tool role_allows_scope
    requires_review check_record verdict verify verify_payload verify_hashed payload_hash hash_text
    token_hash hex mark_result mark_used beq
wins = refl

rows_below : (k : ℕ) → is_row (system.rows k) ≡ true → k < 1
rows_below k h = ground (arith, h)

one_winner_example : is_won ((interleave manager tools inputs race system).phases 0) ≡ false
one_winner_example =
    one_winner manager tools inputs race system 1 0 rows_below (λ t. refl) (λ e. ground (arith, e))
      refl wins
