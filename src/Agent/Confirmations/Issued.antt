-- ===== src/Agent/Confirmations/Issued.antt =====
-- A confirmation that was issued, and its verification.
use fund_dashboard.Prelude.{
  ℕ, ◌<◌, ◌≡◌, ◌↔◌, false, Option, none, some, refl, arith, Bytes, beq_iff, subst, ap,
}
use fund_dashboard.Agent.Registry.{Tool}
use fund_dashboard.Agent.Confirmations.{
  Record, Manager, Verdict, accepts, refuses, policy_ttl, is_used, payload_hash, token_hash,
  new_record, issue, issue_with, verify, verify_payload, verify_hashed,
}

abbrev pair_of : Bytes × Record → Verdict (Bytes × Record) → Bytes × Record
pair_of d (accepts x) = x
pair_of d (refuses e) = d

module _ {Payload : Type 0} (m : Manager Payload) where
  verify_hashed_iff :
      (r : Record) (hash token : Bytes) (now : ℕ)
      → (verify_hashed m r hash token now ≡ none) ↔ (
          (r.payload_hash ≡ hash)
          × (r.token_hash ≡ token_hash m token)
          × (is_used r.used_at ≡ false)
          × (now < r.expires_at))
  unfolding verify_hashed
  verify_hashed_iff r hash token now =
      ground (arith, beq_iff r.payload_hash hash, beq_iff r.token_hash (token_hash m token))

  verify_payload_iff :
      (r : Record) (token : Bytes) (now : ℕ) (o : Option Bytes)
      → (verify_payload m r token now o ≡ none) ↔ (
          (o ≡ some r.payload_hash)
          × (r.token_hash ≡ token_hash m token)
          × (is_used r.used_at ≡ false)
          × (now < r.expires_at))
  unfolding verify_payload
  verify_payload_iff r token now none = (λ h. absurd (ground arith), λ h. absurd (ground arith))
  verify_payload_iff r token now (some hash) = ground (arith, verify_hashed_iff r hash token now)

-- A confirmation verifies exactly when the tool, the payload's hash and the token's hash are those
-- of the record, the record is not used, and it has not expired.
verify_iff :
    {Payload : Type 0} (m : Manager Payload) (r : Record) (token : Bytes) (t : Tool) (p : Payload)
    (now : ℕ)
    → (verify m r token t p now ≡ none) ↔ (
        (r.tool ≡ t.name)
        × (payload_hash m p ≡ some r.payload_hash)
        × (r.token_hash ≡ token_hash m token)
        × (is_used r.used_at ≡ false)
        × (now < r.expires_at))
unfolding verify
verify_iff m r token t p now =
    ground (arith, beq_iff r.tool t.name, verify_payload_iff m r token now (payload_hash m p))

issued_record :
    {Payload : Type 0} (m : Manager Payload) (tool : Bytes) (ttl issued_at : ℕ)
    (o entropy : Option Bytes) (token : Bytes) (r : Record)
    → issue_with m tool ttl issued_at o entropy ≡ accepts (token, r)
    → (r.tool ≡ tool)
      × (o ≡ some r.payload_hash)
      × (r.token_hash ≡ token_hash m token)
      × (is_used r.used_at ≡ false)
unfolding issue_with new_record
issued_record m tool ttl issued_at none entropy token r e = absurd (ground arith)
issued_record m tool ttl issued_at (some hash) none token r e = absurd (ground arith)
issued_record m tool ttl issued_at (some hash) (some buf) token r e =
    let q = ap (pair_of (token, r)) e in
    subst
      (λ (x : Bytes × Record).
        (x.1.tool ≡ tool)
        × (some hash ≡ some x.1.payload_hash)
        × (x.1.token_hash ≡ token_hash m x.0)
        × (is_used x.1.used_at ≡ false))
      q (refl, refl, refl, refl)

-- A confirmation that was issued verifies with its token, its tool and its payload at every time
-- before it expires.
pub issued_verifies :
    {Payload : Type 0} (m : Manager Payload) (t : Tool) (p : Payload) (ttl issued_at now : ℕ)
    (entropy : Option Bytes) (token : Bytes) (r : Record)
    → issue m t p ttl entropy issued_at ≡ accepts (token, r)
    → now < r.expires_at
    → verify m r token t p now ≡ none
unfolding issue
issued_verifies m t p ttl issued_at now entropy token r e lt =
    let made =
      issued_record m t.name (policy_ttl ttl t.token_ttl) issued_at (payload_hash m p) entropy token
        r (ground (arith, e)) in
    (verify_iff m r token t p now).1 (made.0, made.1, made.2, made.3, lt)
