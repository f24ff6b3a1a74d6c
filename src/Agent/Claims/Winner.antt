-- ===== src/Agent/Claims/Winner.antt =====
-- Claims of one confirmation by several threads, in `ClaimConfirmation` of
-- internal/agentops/service.go.
use fund_dashboard.Prelude.{
  ℕ, ◌<◌, ◌≡◌, ◌≢◌, Bool, true, false, not, List, [], ◌∷◌, Option, none, some, refl, arith, Bytes,
  Bool-cases, inl, inr,
}
use fund_dashboard.Agent.Registry.{Tool}
use fund_dashboard.Agent.Confirmations.{
  Refusal, Record, Manager, Verdict, accepts, refuses, issue, is_used, verify,
}
use fund_dashboard.Agent.Claims.{
  Gate, opens, closes, authorize_gated_tool, identity_too_long_for, Input, Phase, begins, verified,
  claimed, replied, lost, System, set_phase, Turn, mark_used, verdict, check_record, pass_gate,
  load_phase, mark_result, take_phase, take_turn, save_record, prepare_gated, prepare_confirmation,
  Event, turns, prepares, handle, interleave,
}
use fund_dashboard.Agent.Claims.Exclusive.{
  is_won, is_row, IsExclusive, no_winner, set_lost, set_kept, new_winner, new_row,
}

module _ {Payload : Type 0} (m : Manager Payload) (tools : List Tool)
    (inputs : ℕ → Input Payload) where
  abbrev ids : ℕ → ℕ
  ids i = (inputs i).confirmation_id

  verdict-lost : (o : Option Refusal) (r : Record) → is_won (verdict m tools o r) ≡ false
  unfolding verdict
  verdict-lost none r = refl
  verdict-lost (some e) r = refl

  check-lost :
      (input : Input Payload) (t : Tool) (now : ℕ) (o : Option Record)
      → is_won (check_record m tools input t now o) ≡ false
  unfolding check_record
  check-lost input t now none = refl
  check-lost input t now (some r) = verdict-lost (verify m r input.token t input.payload now) r

  gate-lost :
      (input : Input Payload) (now : ℕ) (b : Bool) (o : Option Record) (g : Gate)
      → is_won (pass_gate m tools input now b o g) ≡ false
  unfolding pass_gate
  gate-lost input now b o (closes e) = refl
  gate-lost input now true o (opens t) = refl
  gate-lost input now false o (opens t) = check-lost input t now o

  load-lost :
      (input : Input Payload) (now : ℕ) (b : Bool) (o : Option Record)
      → is_won (load_phase m tools input now b o) ≡ false
  unfolding load_phase
  load-lost input now b o =
      elim (Bool-cases (identity_too_long_for input.caller input.request_id)) [
        | inl long ↦ rw long refl
        | inr short ↦ rw short (
            gate-lost input now b o
              (authorize_gated_tool tools input.tool input.role input.enforce_reviewed))
      ]

  loses :
      (sys : System) (i : ℕ) (p : Phase)
      → is_won p ≡ false
      → IsExclusive ids sys
      → IsExclusive ids (record sys { phases = set_phase i p sys.phases })
  loses sys i p l x =
      no_winner ids sys (set_phase i p sys.phases) sys.audit_rows (set_lost ids sys i p l) x

  mark-keeps :
      (sys : System) (i now : ℕ) (r : Record) (o : Option Record)
      → sys.rows (ids i) ≡ o
      → IsExclusive ids sys
      → IsExclusive ids (mark_result m tools i (ids i) r (mark_used now o) sys)
  unfolding mark_result mark_used
  mark-keeps sys i now r none e x = loses sys i _ refl x
  mark-keeps sys i now r (some row) e x = elim (Bool-cases (is_used row.used_at)) [
    | inl taken ↦ rw taken (loses sys i _ refl x)
    | inr free ↦
        rw free (
          new_winner ids sys i r (record row { used_at = some now }) refl (rw e free) (rw e refl) x)
  ]

  phase-keeps :
      (sys : System) (t : Turn) (p : Phase)
      → sys.phases t.thread ≡ p
      → IsExclusive ids sys
      → IsExclusive ids (take_phase m tools inputs t p sys)
  unfolding take_phase
  phase-keeps sys t begins e x =
      loses sys t.thread _ (load-lost (inputs t.thread) t.now t.db_fails (sys.rows (ids t.thread)))
        x
  phase-keeps sys t (verified r) e x = elim (Bool-cases t.db_fails) [
    | inl fails ↦ rw fails (loses sys t.thread _ refl x)
    | inr runs ↦ rw runs (mark-keeps sys t.thread t.now r (sys.rows (ids t.thread)) refl x)
  ]
  phase-keeps sys t (claimed r) e x =
      no_winner ids sys _ _ (set_kept ids sys t.thread (replied r (not t.db_fails)) (rw e refl)) x
  phase-keeps sys t (replied r saved) e x = x
  phase-keeps sys t (lost f) e x = x

  save-keeps :
      (v : Verdict (Bytes × Record)) (a b : Bool) (sys : System)
      → IsExclusive ids sys
      → IsExclusive ids (save_record m tools v a b sys)
  unfolding save_record
  save-keeps (refuses e) a b sys x = x
  save-keeps (accepts (token, r)) true b sys x = x
  save-keeps (accepts (token, r)) false b sys x = new_row ids sys r _ x

  gated-keeps :
      (input : Input Payload) (now : ℕ) (entropy : Option Bytes) (a b : Bool) (g : Gate)
      (sys : System)
      → IsExclusive ids sys
      → IsExclusive ids (prepare_gated m tools input now entropy a b g sys)
  unfolding prepare_gated
  gated-keeps input now entropy a b (closes e) sys x = x
  gated-keeps input now entropy a b (opens t) sys x =
      save-keeps (issue m t input.payload input.ttl entropy now) a b sys x

  handle-keeps :
      (event : Event m tools) (sys : System)
      → IsExclusive ids sys
      → IsExclusive ids (handle m tools inputs event sys)
  unfolding handle take_turn prepare_confirmation
  handle-keeps (turns t) sys x = phase-keeps sys t (sys.phases t.thread) refl x
  handle-keeps (prepares input now entropy a b) sys x =
      elim (Bool-cases (identity_too_long_for input.caller input.request_id)) [
        | inl long ↦ rw long x
        | inr short ↦ rw short (
            gated-keeps input now entropy a b
              (authorize_gated_tool tools input.tool input.role input.enforce_reviewed) sys x)
      ]

  pub interleave-IsExclusive :
      (events : List (Event m tools)) (sys : System)
      → IsExclusive ids sys
      → IsExclusive ids (interleave m tools inputs events sys)
  unfolding interleave
  interleave-IsExclusive [] sys x = x
  interleave-IsExclusive (e ∷ es) sys x =
      interleave-IsExclusive es (handle m tools inputs e sys) (handle-keeps e sys x)

none_won : (sys : System) (t : ℕ) → sys.phases t ≡ begins → is_won (sys.phases t) ≡ true → ⊥
none_won sys t e h = ground (arith, e, h)

-- Of two claims of one confirmation at most one succeeds: from a state where no claim has begun and
-- every row has a key below the next one, after any interleaving of the statements of any number of
-- claims and of preparations, whichever statements fail, if a claim has succeeded then no other
-- claim of the same confirmation has.
pub one_winner :
    {Payload : Type 0} (m : Manager Payload) (tools : List Tool) (inputs : ℕ → Input Payload)
    (events : List (Event m tools)) (sys : System) (i j : ℕ)
    → ((k : ℕ) → is_row (sys.rows k) ≡ true → k < sys.next_id)
    → ((t : ℕ) → sys.phases t ≡ begins)
    → i ≢ j
    → (inputs i).confirmation_id ≡ (inputs j).confirmation_id
    → is_won ((interleave m tools inputs events sys).phases i) ≡ true
    → is_won ((interleave m tools inputs events sys).phases j) ≡ false
one_winner m tools inputs events sys i j below start d e w =
    (interleave-IsExclusive m tools inputs events sys (record {
      below = below;
      used = λ t h. absurd (none_won sys t (start t) h);
      single = λ t u a b h. absurd (none_won sys t (start t) h);
    })).single
      i j d e w
