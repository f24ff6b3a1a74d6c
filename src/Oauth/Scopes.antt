-- ===== src/Oauth/Scopes.antt =====
-- Scopes of internal/oauth: negotiation and the role they grant (metadata.go), and duplicates
-- (clients.go).
use fund_dashboard.Prelude.{
  ◌<◌, ◌≡◌, inl, inr, Bool, true, false, List, [], ◌∷◌, refl, arith, Bytes, bytes, beq, beq_iff,
  All, if◌then◌else◌, keep, length, Bool-cases, ap, sym, ◌∙◌, subst,
}
use fund_dashboard.Go.Text.{fields, join, trim_space}
use fund_dashboard.Go.Text.Fields.{IsWord, fields-join, fields-trim_space}
use fund_dashboard.Oauth.Store.{mentions}
use fund_dashboard.Oauth.Flow.{
  Options, scope_read, scope_write, split_scopes, join_scopes, is_present,
}

unfoldable pub scopes_supported : Options → List Bytes
scopes_supported o = if o.allow_write_scope then scope_read ∷ scope_write ∷ [] else scope_read ∷ []

-- The loop of `dedupeStrings`, with what it has seen.
unfoldable pub dedupe_from : List Bytes → List Bytes → List Bytes
dedupe_from seen [] = []
dedupe_from seen (v ∷ vs) =
    let skipped = dedupe_from seen vs in
    let kept = dedupe_from (v ∷ seen) vs in if mentions seen v then skipped else v ∷ kept

unfoldable pub dedupe_strings : List Bytes → List Bytes
dedupe_strings vs = dedupe_from [] vs

unfoldable pub read_if_none : List Bytes → List Bytes
read_if_none [] = scope_read ∷ []
read_if_none (x ∷ xs) = x ∷ xs

unfoldable pub negotiate_scopes : Options → Bytes → List Bytes
negotiate_scopes o requested =
    read_if_none (dedupe_strings (keep (mentions (scopes_supported o)) (split_scopes requested)))

unfoldable pub role_for_scopes : List Bytes → Bytes
role_for_scopes [] = bytes "analyst"
role_for_scopes (x ∷ xs) =
    let rest = role_for_scopes xs in if beq x scope_write then bytes "operator" else rest

dedupe_from-All :
    (P : Bytes → Type 0) (seen vs : List Bytes) → All P vs → All P (dedupe_from seen vs)
unfolding dedupe_from
dedupe_from-All P seen [] h = tt
dedupe_from-All P seen (v ∷ vs) h =
    ground (arith, dedupe_from-All P seen vs h.1, dedupe_from-All P (v ∷ seen) vs h.1)

keep_passes : (p : Bytes → Bool) (xs : List Bytes) → All (λ x. p x ≡ true) (keep p xs)
keep_passes p [] = tt
keep_passes p (x ∷ xs) = ground (arith, keep_passes p xs)

read-supported : (o : Options) → mentions (scopes_supported o) scope_read ≡ true
unfolding mentions scopes_supported beq
read-supported o =
    elim o.allow_write_scope
      as (λ b.
        mentions (if b then scope_read ∷ scope_write ∷ [] else scope_read ∷ []) scope_read ≡ true) [
          | true ↦ refl
          | false ↦ refl
        ]

read_if_none-All :
    (P : Bytes → Type 0) (xs : List Bytes)
    → P scope_read
    → All P xs
    → All P (read_if_none xs) × (0 < length (read_if_none xs))
unfolding read_if_none
read_if_none-All P [] r h = ((r, tt), omega arith)
read_if_none-All P (x ∷ xs) r h = (h, omega arith)

-- Scopes that are granted are supported, and there is one.
pub negotiate_scopes-supported :
    (o : Options) (requested : Bytes)
    → All (λ x. mentions (scopes_supported o) x ≡ true) (negotiate_scopes o requested)
      × (0 < length (negotiate_scopes o requested))
unfolding negotiate_scopes dedupe_strings
negotiate_scopes-supported o requested =
    let p = mentions (scopes_supported o) in
    let P = λ (x : Bytes). p x ≡ true in
    let asked = keep p (split_scopes requested) in
    read_if_none-All P (dedupe_from [] asked) (read-supported o)
      (dedupe_from-All P [] asked (keep_passes p (split_scopes requested)))

read_only : (x : Bytes) → mentions (scope_read ∷ []) x ≡ true → beq x scope_write ≡ false
unfolding mentions
read_only x h =
    subst (λ (y : Bytes). beq y scope_write ≡ false) ((beq_iff scope_read x).0 (ground (arith, h)))
      (unfold beq in refl)

role_of_readers :
    (xs : List Bytes)
    → All (λ x. mentions (scope_read ∷ []) x ≡ true) xs
    → role_for_scopes xs ≡ bytes "analyst"
unfolding role_for_scopes
role_of_readers [] h = refl
role_of_readers (x ∷ xs) h = rw (read_only x h.0) (role_of_readers xs h.1)

-- The scopes that a request for authorization obtains do not stand for the operator role where write
-- access is not enabled.
role-negotiated :
    (o : Options) (requested : Bytes)
    → o.allow_write_scope ≡ false
    → role_for_scopes (negotiate_scopes o requested) ≡ bytes "analyst"
unfolding scopes_supported
role-negotiated o requested h = role_of_readers (negotiate_scopes o requested) (
    subst
      (λ (b : Bool).
        All (λ x. mentions (if b then scope_read ∷ scope_write ∷ [] else scope_read ∷ []) x ≡ true)
          (negotiate_scopes o requested))
      h (negotiate_scopes-supported o requested).0)

words_present : (ss : List Bytes) → All IsWord ss → keep is_present ss ≡ ss
unfolding beq
words_present [] h = refl
words_present ([] ∷ ss) h = absurd h.0
words_present ((c ∷ w) ∷ ss) h = ap (λ (r : List Bytes). (c ∷ w) ∷ r) (words_present ss h.1)

-- Scopes survive being stored as one text and split again, if each is a word: not empty and without
-- white space.
pub split_scopes-join : (ss : List Bytes) → All IsWord ss → split_scopes (join_scopes ss) ≡ ss
unfolding split_scopes join_scopes
split_scopes-join ss h =
    let raw = join b' ' ss in
    let read : fields (trim_space raw) ≡ ss = fields-trim_space raw ∙ fields-join ss h in
    elim (Bool-cases (beq (trim_space raw) [])) [
      | inl empty ↦
          rw empty
            (sym (ap fields ((beq_iff (trim_space raw) []).0 empty) ∙ unfold fields in refl) ∙ read)
      | inr full ↦ rw (full, read) (words_present ss h)
    ]
