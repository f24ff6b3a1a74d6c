-- ===== src/Db/Rebind/Complete.antt =====
-- A query that can be lexed is rewritten: the scanner finds each piece.
use fund_dashboard.Prelude.{
  ℕ, zero, suc, ◌+◌, ◌-◌, ◌≤◌, ◌<◌, ◌≡◌, ◌≢◌, ◌⊎◌, ◌↔◌, inl, inr, refl, sym, ap, subst, ◌∙◌, true,
  false, ◌&&◌, List, [], ◌∷◌, ◌++◌, Option, none, some, ◌==◌, Bytes, All, Bool-cases, arith, length,
  length-append, ==_iff,
}
use fund_dashboard.Db.Rebind.Sound.{not_starts, Literal-pos, Rewrites, Outcome, rebind_from-Outcome}
use fund_dashboard.Db.Rebind.Dollar.{
  Closes, dollar_quote_tag_at-Closes, delim-append, scan_dollar_quote_first,
  dollar_quote_tag_at_tag,
}
use mathlib.Core.List.{append_assoc}
use fund_dashboard.Db.Rebind.{
  unterminated_string, unterminated_identifier, unterminated_comment, unterminated_dollar, copied,
  scan_quoted, scan_line_comment, scan_block_comment, scan_dollar_quote, dollar_quote_tag_at, delim,
  starts, copy, placeholder, scanned, line, dollar, next, emit, param, turn, rebind_from, rebind,
  has_placeholder, Result, ok, out_of_fuel,
}
use fund_dashboard.Db.Rebind.Lexical.{
  NotPair, NotNext, AtEndOfLine, Quoted, close, doubled, inside, Comment, leave_last, leave, enter,
  within, Literal, quoted, line_comment, block_comment, dollar_quoted, Ordinary, Piece, Lexes, done,
  a_literal, a_byte, a_parameter, number, IsTag,
}

scan_quoted_close :
    (q : ℕ) (rest : Bytes) → NotNext q rest → scan_quoted q (q ∷ rest) ≡ some (q ∷ [], rest)
unfolding scan_quoted
scan_quoted_close q [] h = ground arith
scan_quoted_close q (d ∷ s) h = ground arith

scan_quoted_doubled :
    (q : ℕ) (s : Bytes) → scan_quoted q (q ∷ q ∷ s) ≡ copied (q ∷ q ∷ []) (scan_quoted q s)
unfolding scan_quoted
scan_quoted_doubled q s = rw ((==_iff q q).1 refl, scan_quoted) (rw ((==_iff q q).1 refl))

Quoted-pos : {q : ℕ} {t : Bytes} → Quoted q t → 0 < length t
Quoted-pos close = omega arith
Quoted-pos (doubled h) = omega arith
Quoted-pos (inside k h) = omega arith

scan_quoted_inside :
    (q c : ℕ) (t rest : Bytes)
    → c ≢ q
    → 0 < length t
    → scan_quoted q (c ∷ (t ++ rest)) ≡ copied (c ∷ []) (scan_quoted q (t ++ rest))
unfolding scan_quoted
scan_quoted_inside q c [] rest n p = absurd (omega arith)
scan_quoted_inside q c (d ∷ t) rest n p =
    let h : (c == q) ≡ false = ground arith in rw (h, scan_quoted) refl

Quoted-scan :
    {q : ℕ} {t : Bytes} (rest : Bytes)
    → Quoted q t
    → NotNext q rest
    → scan_quoted q (t ++ rest) ≡ some (t, rest)
Quoted-scan {q} rest close n = scan_quoted_close q rest n
Quoted-scan {q} rest (doubled {t} h) n =
    scan_quoted_doubled q (t ++ rest) ∙ ap (copied (q ∷ q ∷ [])) (Quoted-scan rest h n)
Quoted-scan {q} rest (inside {c} {t} k h) n =
    scan_quoted_inside q c t rest k (Quoted-pos h) ∙ ap (copied (c ∷ [])) (Quoted-scan rest h n)

line-scan :
    (t rest : Bytes)
    → All (λ c. c ≢ 10) t
    → AtEndOfLine rest
    → scan_line_comment (t ++ rest) ≡ (t, rest)
unfolding scan_line_comment
line-scan [] [] h e = refl
line-scan [] (c ∷ s) h e = ground arith
line-scan (c ∷ t) rest h e = ground (arith, line-scan t rest h.1 e)

Comment-pos : {d : ℕ} {t : Bytes} → Comment d t → 0 < length t
Comment-pos (leave_last e) = omega arith
Comment-pos (leave l h) = omega arith
Comment-pos (enter h) = omega arith
Comment-pos (within a b h) = omega arith

scan_block_within :
    (n c : ℕ) (t rest : Bytes)
    → NotPair b'/' b'*' (c ∷ t)
    → NotPair b'*' b'/' (c ∷ t)
    → 0 < length t
    → scan_block_comment n (c ∷ (t ++ rest)) ≡ copied (c ∷ []) (scan_block_comment n (t ++ rest))
unfolding scan_block_comment
scan_block_within n c [] rest a b p = absurd (omega arith)
scan_block_within n c (d ∷ t) rest a b p =
    let h : ((c == b'/') && (d == b'*')) ≡ false = ground arith in
    let k : ((c == b'*') && (d == b'/')) ≡ false = ground arith in
    rw (h, scan_block_comment) (rw k refl)

Comment-scan :
    {d : ℕ} {t : Bytes} (rest : Bytes)
    → Comment d t
    → scan_block_comment d (t ++ rest) ≡ some (t, rest)
unfolding scan_block_comment
Comment-scan {d} rest (leave_last e) =
    let h : (d - 1 == 0) ≡ true = ground arith in rw (h, scan_block_comment) refl
Comment-scan {d} rest (leave {t} l h) =
    let k : (d - 1 == 0) ≡ false = ground arith in
    rw (k, scan_block_comment) (ap (copied (b'*' ∷ b'/' ∷ [])) (Comment-scan rest h))
Comment-scan {d} rest (enter {t} h) = ap (copied (b'/' ∷ b'*' ∷ [])) (Comment-scan rest h)
Comment-scan {d} rest (within {c} {t} a b h) =
    scan_block_within d c t rest a b (Comment-pos h) ∙ ap (copied (c ∷ [])) (Comment-scan rest h)

-- The scanner finds a text.
abbrev Finds : Bytes → Bytes → Type 0
Finds [] rest = ⊥
Finds (c ∷ t) rest = next c (t ++ rest) ≡ copy (c ∷ t) rest

next_string :
    (s : Bytes)
    → next b'\'' s ≡ scanned unterminated_string (copied (b'\'' ∷ []) (scan_quoted b'\'' s))
unfolding next
next_string s = refl

next_identifier :
    (s : Bytes)
    → next b'"' s ≡ scanned unterminated_identifier (copied (b'"' ∷ []) (scan_quoted b'"' s))
unfolding next
next_identifier s = refl

next-line : (s : Bytes) → next b'-' (b'-' ∷ s) ≡ line (scan_line_comment (b'-' ∷ b'-' ∷ s))
unfolding next
next-line s = refl

next_block :
    (s : Bytes)
    → next b'/' (b'*' ∷ s)
      ≡ scanned unterminated_comment (copied (b'/' ∷ b'*' ∷ []) (scan_block_comment 1 s))
unfolding next scan_block_comment
next_block s = refl

next-dollar : (s : Bytes) → next b'$' s ≡ dollar (dollar_quote_tag_at s) s
unfolding next
next-dollar s = rw (not_starts b'-' b'-' b'$' s (λ e. omega arith)) refl

line-two :
    (t rest : Bytes)
    → All (λ c. c ≢ 10) t
    → AtEndOfLine rest
    → scan_line_comment (b'-' ∷ b'-' ∷ (t ++ rest)) ≡ (b'-' ∷ b'-' ∷ t, rest)
line-two t rest h e =
    line-scan (b'-' ∷ b'-' ∷ t) rest ((λ p. omega arith), ((λ p. omega arith), h)) e

-- A dollar quote after its first byte, bracketed to the right.
quote_after-eq :
    (tag body rest : Bytes)
    → (tag ++ b'$' ∷ []) ++ (body ++ delim tag) ++ rest
      ≡ tag ++ (b'$' ∷ (body ++ (delim tag ++ rest)))
quote_after-eq tag body rest =
    append_assoc (tag ++ b'$' ∷ []) (body ++ delim tag) rest
    ∙ append_assoc tag (b'$' ∷ []) ((body ++ delim tag) ++ rest)
    ∙ ap (λ x. tag ++ (b'$' ∷ x)) (append_assoc body (delim tag) rest)

next_quote :
    (tag body rest : Bytes)
    → IsTag tag
    → ((a b : Bytes) → body ++ (delim tag ++ rest) ≡ a ++ (delim tag ++ b) → length body ≤ length a)
    → next b'$' (tag ++ (b'$' ∷ (body ++ (delim tag ++ rest))))
      ≡ copy (delim tag ++ (body ++ delim tag)) rest
next_quote tag body rest i h =
    let s = tag ++ (b'$' ∷ (body ++ (delim tag ++ rest))) in
    next-dollar s
    ∙ ap (λ o. dollar o s) (dollar_quote_tag_at_tag tag (body ++ (delim tag ++ rest)) i)
    ∙ ap (λ x. scanned unterminated_dollar (scan_dollar_quote tag x))
        (sym (delim-append tag (body ++ (delim tag ++ rest))))
    ∙ ap (scanned unterminated_dollar) (scan_dollar_quote_first tag body rest h)

Literal-Finds : {t rest : Bytes} → Literal t rest → Finds t rest
Literal-Finds {rest = rest} (quoted {q} {t} (inl e) h n) =
    subst (λ (x : ℕ). next x (t ++ rest) ≡ copy (x ∷ t) rest) (sym e)
      (next_string (t ++ rest)
        ∙ ap (λ o. scanned unterminated_string (copied (b'\'' ∷ []) o))
            (Quoted-scan rest (subst (λ (x : ℕ). Quoted x t) e h)
              (subst (λ (x : ℕ). NotNext x rest) e n)))
Literal-Finds {rest = rest} (quoted {q} {t} (inr e) h n) =
    subst (λ (x : ℕ). next x (t ++ rest) ≡ copy (x ∷ t) rest) (sym e)
      (next_identifier (t ++ rest)
        ∙ ap (λ o. scanned unterminated_identifier (copied (b'"' ∷ []) o))
            (Quoted-scan rest (subst (λ (x : ℕ). Quoted x t) e h)
              (subst (λ (x : ℕ). NotNext x rest) e n)))
Literal-Finds {rest = rest} (line_comment {t} h e) =
    next-line (t ++ rest) ∙ ap line (line-two t rest h e)
Literal-Finds {rest = rest} (block_comment {t} h) =
    next_block (t ++ rest)
    ∙ ap (λ o. scanned unterminated_comment (copied (b'/' ∷ b'*' ∷ []) o)) (Comment-scan rest h)
Literal-Finds {rest = rest} (dollar_quoted tag body i h) =
    ap (next b'$') (quote_after-eq tag body rest) ∙ next_quote tag body rest i h

test_ne : (c k : ℕ) → c ≢ k → (c == k) ≡ false
test_ne c k h = ground arith

NotPair-starts : (a b c : ℕ) (s : Bytes) → NotPair a b (c ∷ s) → starts a b (c ∷ s) ≡ false
NotPair-starts a b c [] h = refl
NotPair-starts a b c (d ∷ s) h = ground arith

-- The tests of `next`, all false.
next_plain : (c : ℕ) (s : Bytes) → Ordinary c s → c ≢ b'$' → next c s ≡ copy (c ∷ []) s
unfolding next
next_plain c s o d =
    rw
      (
        test_ne c b'\'' o.no_quote,
        test_ne c b'"' o.no_identifier,
        NotPair-starts b'-' b'-' c s o.no_line,
        NotPair-starts b'/' b'*' c s o.no_block,
        test_ne c b'$' d,
        test_ne c b'?' o.no_placeholder,
      )
      refl

no_tag_none :
    (s : Bytes) (o : Option Bytes)
    → Closes IsTag s o
    → ((tag t : Bytes) → IsTag tag → s ≢ tag ++ (b'$' ∷ t))
    → o ≡ none
no_tag_none s none h n = refl
no_tag_none s (some tag) h n = absurd (n tag h.1.0 h.0 h.1.1)

next_no_quote : (s : Bytes) → Ordinary b'$' s → next b'$' s ≡ copy (b'$' ∷ []) s
next_no_quote s o =
    next-dollar s
    ∙ ap (λ x. dollar x s)
        (no_tag_none s (dollar_quote_tag_at s) (dollar_quote_tag_at-Closes s)
          (λ tag t i e. o.no_dollar refl tag t i (ap (λ x. b'$' ∷ x) e ∙ sym (delim-append tag t))))

Ordinary-next : (c : ℕ) (s : Bytes) → Ordinary c s → next c s ≡ copy (c ∷ []) s
Ordinary-next c s o = elim (Bool-cases (c == b'$')) [
  | inl e ↦
      let p = (==_iff c b'$').0 e in
      subst (λ (x : ℕ). next x s ≡ copy (x ∷ []) s) (sym p)
        (next_no_quote s (subst (λ (x : ℕ). Ordinary x s) p o))
  | inr n ↦ next_plain c s o (λ e. ground (arith, e, n))
]

next_parameter : (s : Bytes) → next b'?' s ≡ placeholder s
unfolding next
next_parameter s = rw (not_starts b'-' b'-' b'?' s (λ e. omega arith)) refl

Literal-turn :
    (n f : ℕ) (t rest : Bytes)
    → Finds t rest
    → rebind_from (suc f) n (t ++ rest) ≡ emit t (rebind_from f n rest)
unfolding rebind_from
Literal-turn n f [] rest h = absurd h
Literal-turn n f (c ∷ t) rest h = ap (turn n (rebind_from f)) h

-- With enough fuel every piece is found.
pub Lexes-rebind :
    {s : Bytes} {ps : List Piece} (f n : ℕ)
    → Lexes s ps
    → length s < f
    → rebind_from f n s ≡ ok (number n ps)
unfolding rebind_from number
Lexes-rebind zero n h l = absurd (omega arith)
Lexes-rebind (suc f) n done l = refl
Lexes-rebind (suc f) n (a_literal {t} {rest} h r) l =
    Literal-turn n f t rest (Literal-Finds h)
    ∙ ap (emit t) (Lexes-rebind f n r (omega (arith, length-append {0} t rest, Literal-pos h)))
Lexes-rebind (suc f) n (a_byte {c} {rest} o r) l =
    ap (turn n (rebind_from f)) (Ordinary-next c rest o)
    ∙ ap (emit (c ∷ [])) (Lexes-rebind f n r (omega arith))
Lexes-rebind (suc f) n (a_parameter {rest} r) l =
    ap (turn n (rebind_from f)) (next_parameter rest)
    ∙ ap (emit (param (n + 1))) (Lexes-rebind f (n + 1) r (omega arith))

-- The texts that a query becomes: itself, or its pieces with the parameters numbered.
abbrev pub Becomes : Bytes → Bytes → Type 0
Becomes query out =
    ((has_placeholder query ≡ false) × (out ≡ query))
    ⊎ ((has_placeholder query ≡ true) × Rewrites 0 query out)

ok-inj : {a b : Bytes} → ok a ≡ ok b → a ≡ b
ok-inj e = cc

ok_ne_out_of_fuel : {a : Bytes} → ok a ≢ out_of_fuel
ok_ne_out_of_fuel e = cc

Rewrites-ok :
    (query out : Bytes) (r : Result Bytes) → Outcome 0 query r → r ≡ ok out → Rewrites 0 query out
Rewrites-ok query out r h e = subst (Outcome 0 query) e h

fuel_for : (query : Bytes) → Outcome 0 query (rebind_from (suc (length query)) 0 query)
fuel_for query = rebind_from-Outcome (suc (length query)) 0 query (omega arith)

rebind-Becomes : (query out : Bytes) → rebind query ≡ ok out → Becomes query out
unfolding rebind
rebind-Becomes query out h = elim (Bool-cases (has_placeholder query)) [
  | inl e ↦ inr (e, Rewrites-ok query out _ (fuel_for query) (rw e at h))
  | inr e ↦ inl (e, ok-inj (sym (rw e at h)))
]

Becomes-rebind : (query out : Bytes) → Becomes query out → rebind query ≡ ok out
unfolding rebind
Becomes-rebind query out (inl (e, p)) = rw e (ap ok (sym p))
Becomes-rebind query out (inr (e, (ps, l, p))) =
    rw e (Lexes-rebind (suc (length query)) 0 l (omega arith) ∙ ap ok (sym p))

rebind_total : (query : Bytes) → rebind query ≢ out_of_fuel
unfolding rebind
rebind_total query h = elim (Bool-cases (has_placeholder query)) [
  | inl e ↦ subst (Outcome 0 query) (rw e at h) (fuel_for query)
  | inr e ↦ ok_ne_out_of_fuel (rw e at h)
]

-- Rewriting always ends within its fuel, and for every query and output it answers this output
-- exactly when the query has no question mark and is the output, or can be cut into strings, quoted
-- identifiers, line comments, nested block comments, dollar quotes, placeholders and single bytes
-- that begin none of these, by the grammar of Lexical, and the output is the pieces with the
-- placeholders numbered from 1 and all else unchanged.
pub rebind_iff :
    (query : Bytes)
    → (rebind query ≢ out_of_fuel) × ((out : Bytes) → (rebind query ≡ ok out) ↔ Becomes query out)
rebind_iff query = (rebind_total query, λ out. (rebind-Becomes query out, Becomes-rebind query out))
