-- ===== src/Db/Rebind/Sound.antt =====
-- What the scanner makes of a query is its pieces with the parameters numbered.
use fund_dashboard.Prelude.{
  ℕ, zero, suc, ◌+◌, ◌<◌, ◌≡◌, ◌≢◌, ◌⊎◌, inl, inr, refl, sym, ap, subst, ◌∙◌, Bool, true, false,
  List, [], ◌∷◌, ◌++◌, Option, none, some, ◌==◌, if◌then◌else◌, Bytes, arith, length, length-append,
  ==_iff,
}
use fund_dashboard.Db.Rebind.{
  RebindError, unterminated_dollar, Result, ok, err, out_of_fuel, Scan, copied, scan_quoted,
  scan_line_comment, scan_block_comment, scan_dollar_quote, dollar_quote_tag_at, delim, starts,
  Next, copy, placeholder, stop, scanned, line, dollar, next, emit, param, turn, rebind_from,
}
use fund_dashboard.Db.Rebind.Lexical.{
  NotPair, Literal, quoted, line_comment, block_comment, dollar_quoted, Ordinary, Piece, literal,
  ordinary, parameter, Lexes, done, a_literal, a_byte, a_parameter, number, IsTag,
}
use fund_dashboard.Db.Rebind.Scans.{
  Holds, Holds-copied, IsQuoted, scan_quoted-IsQuoted, scan_line_comment-IsLine, IsComment,
  scan_block_comment-IsComment, as_pair,
}
use fund_dashboard.Db.Rebind.Dollar.{
  Closes, delim-append, dollar_quote_tag_at-Closes, IsLiteral, scan_dollar_quote-IsLiteral,
}

-- What stands at the beginning of a text.
abbrev pub Explains : ℕ → Bytes → Next → Type 0
Explains c s (copy text rest) =
    IsLiteral (c ∷ s) text rest ⊎ ((text ≡ c ∷ []) × (rest ≡ s) × Ordinary c s)
Explains c s (placeholder rest) = (c ≡ b'?') × (rest ≡ s)
Explains c s (stop e) = Unit

Explains-scanned :
    (c : ℕ) (s : Bytes) (e : RebindError) (o : Scan)
    → Holds (IsLiteral (c ∷ s)) o
    → Explains c s (scanned e o)
Explains-scanned c s e none h = tt
Explains-scanned c s e (some (a, rest)) h = inl h

Explains-quoted :
    (c : ℕ) (s : Bytes) (e : RebindError)
    → (c ≡ b'\'') ⊎ (c ≡ b'"')
    → Explains c s (scanned e (copied (c ∷ []) (scan_quoted c s)))
Explains-quoted c s e q = Explains-scanned c s e (copied (c ∷ []) (scan_quoted c s)) (
    Holds-copied (IsQuoted c s) (IsLiteral (c ∷ s)) (c ∷ []) (scan_quoted c s)
      (λ a rest h. (quoted q h.0 h.1, ap (λ x. c ∷ x) h.2)) (scan_quoted-IsQuoted c s))

Explains-dashes :
    (s : Bytes) → Explains b'-' (b'-' ∷ s) (line (scan_line_comment (b'-' ∷ b'-' ∷ s)))
unfolding scan_line_comment
Explains-dashes s =
    let h = scan_line_comment-IsLine s in inl (line_comment h.0 h.1, ap (λ x. b'-' ∷ b'-' ∷ x) h.2)

Explains-line :
    (c : ℕ) (s : Bytes)
    → starts b'-' b'-' (c ∷ s) ≡ true
    → Explains c s (line (scan_line_comment (c ∷ s)))
unfolding scan_line_comment
Explains-line c [] h = cc
Explains-line c (d ∷ s) h =
    let e : c ≡ b'-' = ground arith in
    let f : d ≡ b'-' = ground arith in
    subst (λ (x : ℕ). Explains x (d ∷ s) (line (scan_line_comment (x ∷ d ∷ s)))) (sym e)
      (subst (λ (y : ℕ). Explains b'-' (y ∷ s) (line (scan_line_comment (b'-' ∷ y ∷ s)))) (sym f)
        (Explains-dashes s))

Explains-block :
    (c : ℕ) (s : Bytes) (e : RebindError)
    → starts b'/' b'*' (c ∷ s) ≡ true
    → Explains c s (scanned e (scan_block_comment 0 (c ∷ s)))
unfolding scan_block_comment
Explains-block c [] e h = cc
Explains-block c (d ∷ s) e h =
    rw (h, scan_block_comment)
      (Explains-scanned c (d ∷ s) e (copied (c ∷ d ∷ []) (scan_block_comment 1 s)) (
        Holds-copied (IsComment 1 s) (IsLiteral (c ∷ d ∷ s)) (c ∷ d ∷ []) (scan_block_comment 1 s)
          (λ a rest p. (
            as_pair (λ t. Literal t rest) b'/' b'*' c d a h (block_comment p.0),
            ap (λ x. c ∷ d ∷ x) p.1,
          ))
          (scan_block_comment-IsComment 1 s (omega arith))))

starts_not : (a b c : ℕ) (s : Bytes) → starts a b (c ∷ s) ≡ false → NotPair a b (c ∷ s)
starts_not a b c [] h = tt
starts_not a b c (d ∷ s) h = λ p q. ground arith

pub not_starts : (a b c : ℕ) (s : Bytes) → c ≢ a → starts a b (c ∷ s) ≡ false
not_starts a b c [] h = refl
not_starts a b c (d ∷ s) h = ground arith

-- A byte that begins nothing, unless a `$` begins a tag.
plain :
    (c : ℕ) (s : Bytes)
    → c ≢ b'\''
    → c ≢ b'"'
    → c ≢ b'?'
    → starts b'-' b'-' (c ∷ s) ≡ false
    → starts b'/' b'*' (c ∷ s) ≡ false
    → (c ≡ b'$' → (tag t : Bytes) → IsTag tag → (c ∷ s) ≢ delim tag ++ t)
    → Ordinary c s
plain c s a b q l k d = record {
  no_quote = a;
  no_identifier = b;
  no_placeholder = q;
  no_line = starts_not b'-' b'-' c s l;
  no_block = starts_not b'/' b'*' c s k;
  no_dollar = d;
}

uncons : {a b : ℕ} {s t : Bytes} → a ∷ s ≡ b ∷ t → s ≡ t
uncons e = cc

-- After a `$`.
Explains-dollar : (s : Bytes) (o : Option Bytes) → Closes IsTag s o → Explains b'$' s (dollar o s)
Explains-dollar s none h = inr (
  refl,
  refl,
  plain b'$' s (λ e. omega arith) (λ e. omega arith) (λ e. omega arith)
      (not_starts b'-' b'-' b'$' s (λ e. omega arith))
      (not_starts b'/' b'*' b'$' s (λ e. omega arith))
      (λ e tag t i p. h tag t i (uncons (p ∙ delim-append tag t))),
)
Explains-dollar s (some tag) h =
    subst (λ x. Explains b'$' x (dollar (some tag) x)) (sym h.1.1)
      (Explains-scanned b'$' (tag ++ (b'$' ∷ h.1.0)) unterminated_dollar _ (
        subst (λ x. Holds (IsLiteral x) (scan_dollar_quote tag x)) (delim-append tag h.1.0)
          (scan_dollar_quote-IsLiteral tag h.1.0 h.0)))

ifs :
    (P : Next → Type 0) (b : Bool) {x y : Next}
    → (b ≡ true → P x)
    → (b ≡ false → P y)
    → P (if b then x else y)
ifs P true f g = f refl
ifs P false f g = g refl

ne_of_test : (c k : ℕ) → (c == k) ≡ false → c ≢ k
ne_of_test c k h p = ground arith

pub next-Explains : (c : ℕ) (s : Bytes) → Explains c s (next c s)
unfolding next
next-Explains c s =
    let P = λ (x : Next). Explains c s x in
    ifs P (c == b'\'') (λ q. Explains-quoted c s _ (inl ((==_iff c b'\'').0 q)))
      λ a.
        ifs P (c == b'"') (λ q. Explains-quoted c s _ (inr ((==_iff c b'"').0 q)))
          λ b.
            ifs P (starts b'-' b'-' (c ∷ s)) (λ l. Explains-line c s l)
              λ l.
                ifs P (starts b'/' b'*' (c ∷ s)) (λ k. Explains-block c s _ k)
                  λ k.
                    ifs P (c == b'$')
                      (λ d.
                        subst (λ (x : ℕ). Explains x s (dollar (dollar_quote_tag_at s) s))
                          (sym ((==_iff c b'$').0 d))
                          (Explains-dollar s (dollar_quote_tag_at s)
                            (dollar_quote_tag_at-Closes s)))
                      λ d.
                        ifs P (c == b'?') (λ q. ((==_iff c b'?').0 q, refl))
                          λ q. inr (
                            refl,
                            refl,
                            plain c s (ne_of_test c b'\'' a) (ne_of_test c b'"' b)
                                (ne_of_test c b'?' q) l k (λ e. absurd (ne_of_test c b'$' d e)),
                          )

-- A text that is lexed into pieces which, numbered, make the output.
abbrev pub Rewrites : ℕ → Bytes → Bytes → Type 0
Rewrites n s out = (ps : List Piece) × Lexes s ps × (out ≡ number n ps)

abbrev pub Outcome : ℕ → Bytes → Result Bytes → Type 0
Outcome n s (ok out) = Rewrites n s out
Outcome n s (err e) = Unit
Outcome n s out_of_fuel = ⊥

Outcome-literal :
    (n : ℕ) {s text rest : Bytes} (r : Result Bytes)
    → IsLiteral s text rest
    → Outcome n rest r
    → Outcome n s (emit text r)
unfolding number
Outcome-literal n {s} {text} {rest} (ok out) (l, e) (ps, h, p) = (
  literal text ∷ ps,
  subst (λ x. Lexes x (literal text ∷ ps)) e (a_literal l h),
  ap (λ x. text ++ x) p,
)
Outcome-literal n (err e) l h = tt
Outcome-literal n out_of_fuel l h = h

Outcome-ordinary :
    (n c : ℕ) (s : Bytes) (r : Result Bytes)
    → Ordinary c s
    → Outcome n s r
    → Outcome n (c ∷ s) (emit (c ∷ []) r)
unfolding number
Outcome-ordinary n c s (ok out) o (ps, h, p) = (ordinary c ∷ ps, a_byte o h, ap (λ x. c ∷ x) p)
Outcome-ordinary n c s (err e) o h = tt
Outcome-ordinary n c s out_of_fuel o h = h

Outcome-parameter :
    (n : ℕ) (s : Bytes) (r : Result Bytes)
    → Outcome (n + 1) s r
    → Outcome n (b'?' ∷ s) (emit (param (n + 1)) r)
unfolding number
Outcome-parameter n s (ok out) (ps, h, p) =
    (parameter ∷ ps, a_parameter h, ap (λ x. param (n + 1) ++ x) p)
Outcome-parameter n s (err e) h = tt
Outcome-parameter n s out_of_fuel h = h

pub Literal-pos : {t rest : Bytes} → Literal t rest → 0 < length t
Literal-pos (quoted q t h) = omega arith
Literal-pos (line_comment a h) = omega arith
Literal-pos (block_comment h) = omega arith
Literal-pos (dollar_quoted tag body i f) = omega arith

length-rest : {s text rest : Bytes} → IsLiteral s text rest → length rest < length s
length-rest {s} {text} {rest} (l, e) =
    omega (arith, ap length e, length-append {0} text rest, Literal-pos l)

Outcome-turn :
    (n c : ℕ) (s : Bytes) (k : ℕ → Bytes → Result Bytes) (x : Next)
    → Explains c s x
    → ((m : ℕ) (rest : Bytes) → length rest < length (c ∷ s) → Outcome m rest (k m rest))
    → Outcome n (c ∷ s) (turn n k x)
Outcome-turn n c s k (copy text rest) (inl l) h =
    Outcome-literal n (k n rest) l (h n rest (length-rest l))
Outcome-turn n c s k (copy text rest) (inr (e, f, o)) h =
    subst (λ t. Outcome n (c ∷ s) (emit t (k n rest))) (sym e)
      (Outcome-ordinary n c s (k n rest) o
        (subst (λ r. Outcome n r (k n rest)) f (h n rest (omega (arith, ap length f)))))
Outcome-turn n c s k (placeholder rest) (e, f) h =
    subst (λ (x : ℕ). Outcome n (x ∷ s) (emit (param (n + 1)) (k (n + 1) rest))) (sym e)
      (Outcome-parameter n s (k (n + 1) rest) (
        subst (λ r. Outcome (n + 1) r (k (n + 1) rest)) f
          (h (n + 1) rest (omega (arith, ap length f)))))
Outcome-turn n c s k (stop e) x h = tt

-- With more fuel than bytes the loop ends.
pub rebind_from-Outcome : (f n : ℕ) (s : Bytes) → length s < f → Outcome n s (rebind_from f n s)
unfolding rebind_from number
rebind_from-Outcome zero n s h = absurd (omega arith)
rebind_from-Outcome (suc f) n [] h = ([], done, refl)
rebind_from-Outcome (suc f) n (c ∷ s) h =
    Outcome-turn n c s (rebind_from f) (next c s) (next-Explains c s)
      (λ m rest l. rebind_from-Outcome f m rest (omega arith))
