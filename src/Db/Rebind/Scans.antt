-- ===== src/Db/Rebind/Scans.antt =====
-- Each scanner copies the literal content at the beginning of a text, and no more.
use fund_dashboard.Prelude.{
  ℕ, ◌+◌, ◌-◌, ◌<◌, ◌≡◌, ◌≢◌, inl, inr, refl, sym, ap, subst, true, false, ◌&&◌, [], ◌∷◌, ◌++◌,
  none, some, ◌==◌, Bytes, All, Bool-cases, arith, ==_iff,
}
use fund_dashboard.Db.Rebind.{Scan, copied, scan_quoted, scan_line_comment, scan_block_comment}
use fund_dashboard.Db.Rebind.Lexical.{
  NotPair, NotNext, AtEndOfLine, Quoted, close, doubled, inside, Comment, leave_last, leave, enter,
  within,
}

-- What holds of a copied text and of what is left, if there is any.
abbrev pub Holds : (Bytes → Bytes → Type 0) → Scan → Type 0
Holds P none = Unit
Holds P (some (a, rest)) = P a rest

pub Holds-copied :
    (P Q : Bytes → Bytes → Type 0) (text : Bytes) (m : Scan)
    → ((a rest : Bytes) → P a rest → Q (text ++ a) rest)
    → Holds P m
    → Holds Q (copied text m)
Holds-copied P Q text none f h = tt
Holds-copied P Q text (some (a, rest)) f h = f a rest h

abbrev pub IsQuoted : ℕ → Bytes → Bytes → Bytes → Type 0
IsQuoted q s a rest = Quoted q a × NotNext q rest × (a ++ rest ≡ s)

pub scan_quoted-IsQuoted : (q : ℕ) (s : Bytes) → Holds (IsQuoted q s) (scan_quoted q s)
unfolding scan_quoted
scan_quoted-IsQuoted q [] = tt
scan_quoted-IsQuoted q (c ∷ []) = elim (Bool-cases (c == q)) [
  | inl e ↦ rw e (subst (λ (x : ℕ). Quoted q (x ∷ [])) (sym ((==_iff c q).0 e)) close, tt, refl)
  | inr e ↦ rw e tt
]
scan_quoted-IsQuoted q (c ∷ d ∷ s) = elim (Bool-cases (c == q)) [
  | inr e ↦
      rw (e, scan_quoted)
        (Holds-copied (IsQuoted q (d ∷ s)) (IsQuoted q (c ∷ d ∷ s)) (c ∷ []) (scan_quoted q (d ∷ s))
          (λ a rest h. (inside (λ p. ground (arith, p, e)) h.0, h.1, ap (λ r. c ∷ r) h.2))
          (scan_quoted-IsQuoted q (d ∷ s)))
  | inl e ↦ elim (Bool-cases (d == q)) [
    | inl f ↦
        rw (e, scan_quoted)
          (rw f (
            Holds-copied (IsQuoted q s) (IsQuoted q (c ∷ d ∷ s)) (c ∷ d ∷ []) (scan_quoted q s)
              (λ a rest h. (
                subst (λ (x : ℕ). Quoted q (x ∷ d ∷ a)) (sym ((==_iff c q).0 e))
                    (subst (λ (x : ℕ). Quoted q (q ∷ x ∷ a)) (sym ((==_iff d q).0 f))
                      (doubled h.0)),
                h.1,
                ap (λ r. c ∷ d ∷ r) h.2,
              ))
              (scan_quoted-IsQuoted q s)))
    | inr f ↦
        rw (e, scan_quoted)
          (rw f (
            subst (λ (x : ℕ). Quoted q (x ∷ [])) (sym ((==_iff c q).0 e)) close,
            λ p. ground (arith, p, f),
            refl,
          ))
  ]
]

pub scan_line_comment-IsLine :
    (s : Bytes)
    → let (a, rest) = scan_line_comment s in
      All (λ c. c ≢ 10) a × AtEndOfLine rest × (a ++ rest ≡ s)
unfolding scan_line_comment
scan_line_comment-IsLine [] = (tt, tt, refl)
scan_line_comment-IsLine (c ∷ s) = elim (Bool-cases (c == 10)) [
  | inl e ↦ rw e (tt, (==_iff c 10).0 e, refl)
  | inr e ↦
      let h = scan_line_comment-IsLine s in
      rw e ((λ p. ground (arith, p, e), h.0), h.1, ap (λ r. c ∷ r) h.2)
]

abbrev pub IsComment : ℕ → Bytes → Bytes → Bytes → Type 0
IsComment d s a rest = Comment d a × (a ++ rest ≡ s)

pair_not : (a b c d : ℕ) → ((c == a) && (d == b)) ≡ false → (c ≡ a) → (d ≡ b) → ⊥
pair_not a b c d h p q = ground arith

not_pair : (a b c : ℕ) (t r s : Bytes) → t ++ r ≡ s → NotPair a b (c ∷ s) → NotPair a b (c ∷ t)
not_pair a b c [] r s e h = tt
not_pair a b c (x ∷ t) r [] e h = ground arith
not_pair a b c (x ∷ t) r (y ∷ s) e h = λ p q. h p (cc)

-- The two bytes of a pair, known.
pub as_pair :
    (P : Bytes → Type 0) (a b c d : ℕ) (t : Bytes)
    → ((c == a) && (d == b)) ≡ true
    → P (a ∷ b ∷ t)
    → P (c ∷ d ∷ t)
as_pair P a b c d t h p =
    let e : c ≡ a = ground arith in
    let f : d ≡ b = ground arith in
    subst (λ (x : ℕ). P (x ∷ d ∷ t)) (sym e) (subst (λ (y : ℕ). P (a ∷ y ∷ t)) (sym f) p)

pub scan_block_comment-IsComment :
    (n : ℕ) (s : Bytes) → 0 < n → Holds (IsComment n s) (scan_block_comment n s)
unfolding scan_block_comment
scan_block_comment-IsComment n [] pos = tt
scan_block_comment-IsComment n (x ∷ []) pos = tt
scan_block_comment-IsComment n (x ∷ y ∷ s) pos = elim (Bool-cases ((x == b'/') && (y == b'*'))) [
  | inl e ↦
      rw (e, scan_block_comment)
        (Holds-copied (IsComment (n + 1) s) (IsComment n (x ∷ y ∷ s)) (x ∷ y ∷ [])
          (scan_block_comment (n + 1) s)
          (λ a rest h.
            (as_pair (λ t. Comment n t) b'/' b'*' x y a e (enter h.0), ap (λ r. x ∷ y ∷ r) h.1))
          (scan_block_comment-IsComment (n + 1) s (omega arith)))
  | inr e ↦ elim (Bool-cases ((x == b'*') && (y == b'/'))) [
    | inl f ↦ elim (Bool-cases (n - 1 == 0)) [
      | inl last ↦
          rw (e, scan_block_comment)
            (rw f (
              rw last
                (as_pair (λ t. Comment n t) b'*' b'/' x y [] f (leave_last (ground arith)), refl)))
      | inr more ↦
          rw (e, scan_block_comment)
            (rw f (
              rw more (
                Holds-copied (IsComment (n - 1) s) (IsComment n (x ∷ y ∷ s)) (x ∷ y ∷ [])
                  (scan_block_comment (n - 1) s)
                  (λ a rest h. (
                    as_pair (λ t. Comment n t) b'*' b'/' x y a f (leave (ground arith) h.0),
                    ap (λ r. x ∷ y ∷ r) h.1,
                  ))
                  (scan_block_comment-IsComment (n - 1) s (ground arith)))))
    ]
    | inr f ↦
        rw (e, scan_block_comment)
          (rw f (
            Holds-copied (IsComment n (y ∷ s)) (IsComment n (x ∷ y ∷ s)) (x ∷ [])
              (scan_block_comment n (y ∷ s))
              (λ a rest h. (
                within (not_pair b'/' b'*' x a rest (y ∷ s) h.1 (pair_not b'/' b'*' x y e))
                    (not_pair b'*' b'/' x a rest (y ∷ s) h.1 (pair_not b'*' b'/' x y f)) h.0,
                ap (λ r. x ∷ r) h.1,
              ))
              (scan_block_comment-IsComment n (y ∷ s) pos)))
  ]
]
