-- ===== src/Agent/Claims.antt =====
-- internal/agentops/service.go over internal/repository/agentstate/confirmation_repo.go: preparing
-- a confirmation, and claiming it. A claim is a thread that makes one database statement a turn, so
-- the turns of several claims interleave in any order. Every statement may fail.
pub mod Exclusive
pub mod Winner
mod Tests
use fund_dashboard.Prelude.{
  ℕ, suc, ◌+◌, Bool, true, false, ◌&&◌, ◌||◌, not, List, [], ◌∷◌, Option, none, some, ltb, ◌==◌,
  if◌then◌else◌, Bytes, length,
}
use fund_dashboard.Agent.Registry.{Tool, Role, DenyReason, confirms, lookup_tool, authorize}
use fund_dashboard.Agent.Confirmations.{
  Refusal, already_used, Record, Manager, Verdict, accepts, refuses, issue, is_used, verify,
}

pub data ClaimError : Type 0 where
  identity_too_long unknown_tool_named confirmation_not_needed unknown_confirmation store_failed :
      ClaimError
  denied : DenyReason → ClaimError
  refused : Refusal → ClaimError

abbrev pub max_agent_identity_length : ℕ
max_agent_identity_length = 128

pub identity_too_long_for : Bytes → Bytes → Bool
identity_too_long_for caller request_id =
    ltb max_agent_identity_length (length caller)
    || ltb max_agent_identity_length (length request_id)

pub data Gate : Type 0 where
  opens : Tool → Gate
  closes : ClaimError → Gate

gate_for : Option Tool → Option DenyReason → Gate
gate_for none d = closes unknown_tool_named
gate_for (some t) (some reason) = closes (denied reason)
gate_for (some t) none =
    if not (confirms t.permission) then closes confirmation_not_needed else opens t

-- `authorizeGatedTool`.
pub authorize_gated_tool : List Tool → Bytes → Role → Bool → Gate
authorize_gated_tool tools name role enforce_reviewed =
    gate_for (lookup_tool name tools) (authorize tools name role true enforce_reviewed)

-- The input of a claim, and of a preparation but for the id and the token.
pub record Input (Payload : Type 0) : Type 0 where
  pub tool : Bytes
  pub role : Role
  pub caller : Bytes
  pub request_id : Bytes
  pub confirmation_id : ℕ
  pub token : Bytes
  pub payload : Payload
  pub enforce_reviewed : Bool
  pub ttl : ℕ

-- Where a claim stands: not begun; the record read and verified; the confirmation claimed; the
-- result recorded in the audit table, or not; or an error.
pub data Phase : Type 0 where
  begins : Phase
  verified claimed : Record → Phase
  replied : Record → Bool → Phase
  lost : ClaimError → Phase

-- The table agent_confirmations by its key, the next key, the number of audit rows, and the threads.
pub record System : Type 0 where
  pub rows : ℕ → Option Record
  pub next_id : ℕ
  pub audit_rows : ℕ
  pub phases : ℕ → Phase

abbrev pub set_phase : ℕ → Phase → (ℕ → Phase) → ℕ → Phase
set_phase i p phases j = if j == i then p else phases j

abbrev pub set_row : ℕ → Record → (ℕ → Option Record) → ℕ → Option Record
set_row k r rows j = if j == k then some r else rows j

-- A turn of a thread at a time, and whether its statement fails.
pub record Turn : Type 0 where
  pub thread : ℕ
  pub now : ℕ
  pub db_fails : Bool

-- `MarkUsed` of a row: the row it leaves, if it was the first.
pub mark_used : ℕ → Option Record → Option Record
mark_used now none = none
mark_used now (some r) = if is_used r.used_at then none else some (record r { used_at = some now })

module _ {Payload : Type 0} (m : Manager Payload) (tools : List Tool) where
  verdict : Option Refusal → Record → Phase
  verdict none r = verified r
  verdict (some e) r = lost (refused e)

  check_record : Input Payload → Tool → ℕ → Option Record → Phase
  check_record input t now none = lost unknown_confirmation
  check_record input t now (some r) = verdict (verify m r input.token t input.payload now) r

  pass_gate : Input Payload → ℕ → Bool → Option Record → Gate → Phase
  pass_gate input now db_fails row (closes e) = lost e
  pass_gate input now db_fails row (opens t) =
      if db_fails then lost store_failed else check_record input t now row

  -- `ClaimConfirmation` up to and with `Verify`, for the row that the table has.
  pub load_phase : Input Payload → ℕ → Bool → Option Record → Phase
  load_phase input now db_fails row =
      if identity_too_long_for input.caller input.request_id
      then lost identity_too_long
      else pass_gate input now db_fails row
          (authorize_gated_tool tools input.tool input.role input.enforce_reviewed)

  mark_result : ℕ → ℕ → Record → Option Record → System → System
  mark_result i k r none sys = record sys {
    phases = set_phase i (lost (refused already_used)) sys.phases;
  }
  mark_result i k r (some marked) sys = record sys {
    rows = set_row k marked sys.rows;
    phases = set_phase i (claimed r) sys.phases;
  }

  pub take_phase : (ℕ → Input Payload) → Turn → Phase → System → System
  take_phase inputs t begins sys =
      let input = inputs t.thread in
      record sys {
        phases =
            set_phase t.thread (load_phase input t.now t.db_fails (sys.rows input.confirmation_id))
              sys.phases;
      }
  take_phase inputs t (verified r) sys =
      let k = (inputs t.thread).confirmation_id in
      if t.db_fails
      then record sys { phases = set_phase t.thread (lost store_failed) sys.phases }
      else mark_result t.thread k r (mark_used t.now (sys.rows k)) sys
  take_phase inputs t (claimed r) sys = record sys {
    audit_rows = if t.db_fails then sys.audit_rows else suc sys.audit_rows;
    phases = set_phase t.thread (replied r (not t.db_fails)) sys.phases;
  }
  take_phase inputs t (replied r saved) sys = sys
  take_phase inputs t (lost e) sys = sys

  -- The next statement of `ClaimConfirmation` in a thread.
  pub take_turn : (ℕ → Input Payload) → Turn → System → System
  take_turn inputs t sys = take_phase inputs t (sys.phases t.thread) sys

  save_record : Verdict (Bytes × Record) → Bool → Bool → System → System
  save_record (refuses e) save_fails audit_fails sys = sys
  save_record (accepts (token, r)) true audit_fails sys = sys
  save_record (accepts (token, r)) false audit_fails sys = record sys {
    rows = set_row sys.next_id r sys.rows;
    next_id = suc sys.next_id;
    audit_rows = if audit_fails then sys.audit_rows else suc sys.audit_rows;
  }

  prepare_gated : Input Payload → ℕ → Option Bytes → Bool → Bool → Gate → System → System
  prepare_gated input now entropy save_fails audit_fails (closes e) sys = sys
  prepare_gated input now entropy save_fails audit_fails (opens t) sys =
      save_record (issue m t input.payload input.ttl entropy now) save_fails audit_fails sys

  -- What `PrepareConfirmation` leaves. A row whose audit row fails to be saved stays.
  pub prepare_confirmation : Input Payload → ℕ → Option Bytes → Bool → Bool → System → System
  prepare_confirmation input now entropy save_fails audit_fails sys =
      if identity_too_long_for input.caller input.request_id
      then sys
      else prepare_gated input now entropy save_fails audit_fails
          (authorize_gated_tool tools input.tool input.role input.enforce_reviewed) sys

  pub data Event : Type 0 where
    turns : Turn → Event
    prepares : Input Payload → ℕ → Option Bytes → Bool → Bool → Event

  pub handle : (ℕ → Input Payload) → Event → System → System
  handle inputs (turns t) sys = take_turn inputs t sys
  handle inputs (prepares input now entropy save_fails audit_fails) sys =
      prepare_confirmation input now entropy save_fails audit_fails sys

  -- An interleaving of threads and preparations.
  unfoldable pub interleave : (ℕ → Input Payload) → List Event → System → System
  interleave inputs [] sys = sys
  interleave inputs (e ∷ es) sys = interleave inputs es (handle inputs e sys)
