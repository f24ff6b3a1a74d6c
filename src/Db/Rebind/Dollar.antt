-- ===== src/Db/Rebind/Dollar.antt =====
-- Dollar quotes: the tag, and the first occurrence of the delimiter.
use fund_dashboard.Prelude.{
  drop, drop-append, ℕ, suc, ◌≤◌, ◌≡◌, ◌≢◌, refl, sym, ap, subst, ◌∙◌, true, false, [], ◌∷◌, ◌++◌,
  Option, none, some, ◌==◌, Bytes, has_prefix, has_prefix-append, All, Bool-cases, inl, inr, arith,
  length, ==_iff,
}
use mathlib.Core.List.{append_assoc}
use fund_dashboard.Go.Decimal.{before_index}
use fund_dashboard.Db.Rebind.{
  Scan, is_dollar_tag_start, is_dollar_tag_part, dollar_tag_rest, cons_tag, whole_quote,
  dollar_quote_tag_at, delim, scan_dollar_quote,
}
use fund_dashboard.Db.Rebind.Lexical.{IsTag, Literal, dollar_quoted}
use fund_dashboard.Db.Rebind.Scans.{Holds}

abbrev AreParts : Bytes → Type 0
AreParts t = All (λ d. is_dollar_tag_part d ≡ true) t

-- A text that goes on with a tag and its closing `$`, or does not.
abbrev pub Closes : (Bytes → Type 0) → Bytes → Option Bytes → Type 0
Closes P s none = (t r : Bytes) → P t → s ≢ t ++ (b'$' ∷ r)
Closes P s (some t) = P t × ((r : Bytes) × (s ≡ t ++ (b'$' ∷ r)))

dollar_part : is_dollar_tag_part b'$' ≡ false
unfolding is_dollar_tag_part
dollar_part = refl

no_part :
    (c : ℕ) (s : Bytes)
    → ((t r : Bytes) → AreParts t → s ≢ t ++ (b'$' ∷ r))
    → c ≢ b'$'
    → (t r : Bytes) → AreParts t
    → (c ∷ s) ≢ t ++ (b'$' ∷ r)
no_part c s h n [] r q = λ e. n (cc)
no_part c s h n (d ∷ t) r q = λ e. h t r q.1 (cc)

Closes-part :
    (c : ℕ) (s : Bytes) (o : Option Bytes)
    → is_dollar_tag_part c ≡ true
    → Closes AreParts s o
    → Closes AreParts (c ∷ s) (cons_tag c o)
Closes-part c s none p h = no_part c s h (λ e. cc (dollar_part, p))
Closes-part c s (some t) p h = ((p, h.0), (h.1.0, ap (λ x. c ∷ x) h.1.1))

no_part_here :
    (c : ℕ) (s : Bytes)
    → is_dollar_tag_part c ≡ false
    → c ≢ b'$'
    → (t r : Bytes) → AreParts t
    → (c ∷ s) ≢ t ++ (b'$' ∷ r)
no_part_here c s p n [] r q = λ e. n (cc)
no_part_here c s p n (d ∷ t) r q = λ e. cc (q.0, p)

nothing_left : (t r : Bytes) → AreParts t → [] ≢ t ++ (b'$' ∷ r)
nothing_left [] r q = λ e. cc
nothing_left (d ∷ t) r q = λ e. cc

dollar_tag_rest-Closes : (s : Bytes) → Closes AreParts s (dollar_tag_rest s)
unfolding dollar_tag_rest
dollar_tag_rest-Closes [] = nothing_left
dollar_tag_rest-Closes (c ∷ s) = elim (Bool-cases (is_dollar_tag_part c)) [
  | inl p ↦ rw p (Closes-part c s (dollar_tag_rest s) p (dollar_tag_rest-Closes s))
  | inr n ↦ elim (Bool-cases (c == b'$')) [
    | inl e ↦ rw (n, e) (tt, (s, ap (λ (x : ℕ). x ∷ s) ((==_iff c b'$').0 e)))
    | inr e ↦ rw (n, e) (no_part_here c s n (λ p. ground (arith, p, e)))
  ]
]

no_tag :
    (c : ℕ) (s : Bytes)
    → ((t r : Bytes) → AreParts t → s ≢ t ++ (b'$' ∷ r))
    → c ≢ b'$'
    → (t r : Bytes) → IsTag t
    → (c ∷ s) ≢ t ++ (b'$' ∷ r)
no_tag c s h n [] r q = λ e. n (cc)
no_tag c s h n (d ∷ t) r q = λ e. h t r q.1 (cc)

no_tag_here :
    (c : ℕ) (s : Bytes)
    → is_dollar_tag_start c ≡ false
    → c ≢ b'$'
    → (t r : Bytes) → IsTag t
    → (c ∷ s) ≢ t ++ (b'$' ∷ r)
no_tag_here c s p n [] r q = λ e. n (cc)
no_tag_here c s p n (d ∷ t) r q = λ e. cc (q.0, p)

no_tag_left : (t r : Bytes) → IsTag t → [] ≢ t ++ (b'$' ∷ r)
no_tag_left [] r q = λ e. cc
no_tag_left (d ∷ t) r q = λ e. cc

Closes-IsTag :
    (c : ℕ) (s : Bytes) (o : Option Bytes)
    → is_dollar_tag_start c ≡ true
    → c ≢ b'$'
    → Closes AreParts s o
    → Closes IsTag (c ∷ s) (cons_tag c o)
Closes-IsTag c s none p n h = no_tag c s h n
Closes-IsTag c s (some t) p n h = ((p, h.0), (h.1.0, ap (λ x. c ∷ x) h.1.1))

-- A tag is found exactly if there is one.
pub dollar_quote_tag_at-Closes : (s : Bytes) → Closes IsTag s (dollar_quote_tag_at s)
unfolding dollar_quote_tag_at
dollar_quote_tag_at-Closes [] = no_tag_left
dollar_quote_tag_at-Closes (c ∷ s) = elim (Bool-cases (c == b'$')) [
  | inl e ↦ rw e (tt, (s, ap (λ (x : ℕ). x ∷ s) ((==_iff c b'$').0 e)))
  | inr e ↦ elim (Bool-cases (is_dollar_tag_start c)) [
    | inl p ↦ rw e (
        rw p (
          Closes-IsTag c s (dollar_tag_rest s) p (λ q. ground (arith, q, e))
            (dollar_tag_rest-Closes s)))
    | inr p ↦ rw e (rw p (no_tag_here c s p (λ q. ground (arith, q, e))))
  ]
]

prefix_split : (p s : Bytes) → has_prefix p s ≡ true → p ++ drop (length p) s ≡ s
unfolding has_prefix
prefix_split [] s h = refl
prefix_split (c ∷ p) [] h = cc
prefix_split (c ∷ p) (d ∷ s) h = ground (arith, prefix_split p s)

-- The first occurrence of a text.
abbrev First : Bytes → Bytes → Bytes → Bytes → Type 0
First sub s a r =
    (a ++ r ≡ s)
    × (has_prefix sub r ≡ true)
    × ((b t : Bytes) → s ≡ b ++ (sub ++ t) → length a ≤ length b)

abbrev cons_before : ℕ → Scan → Scan
cons_before c none = none
cons_before c (some (a, b)) = some (c ∷ a, b)

first_after :
    (sub : Bytes) (c : ℕ) (s a : Bytes)
    → has_prefix sub (c ∷ s) ≡ false
    → ((b t : Bytes) → s ≡ b ++ (sub ++ t) → length a ≤ length b)
    → (b t : Bytes) → c ∷ s ≡ b ++ (sub ++ t)
    → length (c ∷ a) ≤ length b
first_after sub c s a p h [] t e =
    absurd (ground (arith, ap (has_prefix sub) e, has_prefix-append sub t))
first_after sub c s a p h (d ∷ b) t e = omega (arith, h b t (cc))

First-cons :
    (sub : Bytes) (c : ℕ) (s : Bytes) (o : Scan)
    → has_prefix sub (c ∷ s) ≡ false
    → Holds (First sub s) o
    → Holds (First sub (c ∷ s)) (cons_before c o)
First-cons sub c s none p h = tt
First-cons sub c s (some (a, r)) p h = (ap (λ x. c ∷ x) h.0, h.1, first_after sub c s a p h.2)

before_index-First : (sub s : Bytes) → Holds (First sub s) (before_index sub s)
unfolding before_index
before_index-First sub [] = elim (Bool-cases (has_prefix sub [])) [
  | inl p ↦ rw p (refl, p, λ b t e. omega arith)
  | inr p ↦ rw p tt
]
before_index-First sub (c ∷ s) = elim (Bool-cases (has_prefix sub (c ∷ s))) [
  | inl p ↦ rw (p, before_index) (refl, p, λ b t e. omega arith)
  | inr p ↦
      rw (p, before_index) (First-cons sub c s (before_index sub s) p (before_index-First sub s))
]

pub delim-append : (tag t : Bytes) → delim tag ++ t ≡ b'$' ∷ (tag ++ (b'$' ∷ t))
delim-append tag t = ap (λ x. b'$' ∷ x) (append_assoc tag (b'$' ∷ []) t)

-- A literal was copied from the beginning of a text.
abbrev pub IsLiteral : Bytes → Bytes → Bytes → Type 0
IsLiteral s a rest = Literal a rest × (a ++ rest ≡ s)

whole_quote-IsLiteral :
    (tag s : Bytes) (o : Scan)
    → IsTag tag
    → Holds (First (delim tag) s) o
    → Holds (IsLiteral (delim tag ++ s)) (whole_quote tag o)
whole_quote-IsLiteral tag s none t h = tt
whole_quote-IsLiteral tag s (some (body, r)) t h =
    let rest = drop (length (delim tag)) r in
    let split = prefix_split (delim tag) r h.1 in
    (
      dollar_quoted tag body t (λ a b e. h.2 a b (sym h.0 ∙ ap (λ x. body ++ x) (sym split) ∙ e)),
      append_assoc (delim tag) (body ++ delim tag) rest
          ∙ ap (λ x. delim tag ++ x)
              (append_assoc body (delim tag) rest ∙ ap (λ x. body ++ x) split ∙ h.0),
    )

pub scan_dollar_quote-IsLiteral :
    (tag s : Bytes)
    → IsTag tag
    → Holds (IsLiteral (delim tag ++ s)) (scan_dollar_quote tag (delim tag ++ s))
unfolding scan_dollar_quote
scan_dollar_quote-IsLiteral tag s t =
    subst (λ x. Holds (IsLiteral (delim tag ++ s)) (whole_quote tag (before_index (delim tag) x)))
      (sym (drop-append (delim tag) s))
      (whole_quote-IsLiteral tag s (before_index (delim tag) s) t
        (before_index-First (delim tag) s))

before_here : (sub s : Bytes) → has_prefix sub s ≡ true → before_index sub s ≡ some ([], s)
unfolding before_index
before_here sub [] h = rw h refl
before_here sub (c ∷ s) h = rw (h, before_index) refl

before_later :
    (sub : Bytes) (c : ℕ) (s : Bytes)
    → has_prefix sub (c ∷ s) ≡ false
    → before_index sub (c ∷ s) ≡ cons_before c (before_index sub s)
unfolding before_index
before_later sub c s h = rw (h, before_index) refl

not_sooner : {n : ℕ} → suc n ≤ 0 → ⊥
not_sooner h = omega arith

sooner : {m n : ℕ} → suc m ≤ suc n → m ≤ n
sooner h = omega arith

-- The first occurrence is found.
before_index_first :
    (sub body rest : Bytes)
    → ((a b : Bytes) → body ++ (sub ++ rest) ≡ a ++ (sub ++ b) → length body ≤ length a)
    → before_index sub (body ++ (sub ++ rest)) ≡ some (body, sub ++ rest)
before_index_first sub [] rest h = before_here sub (sub ++ rest) (has_prefix-append sub rest)
before_index_first sub (c ∷ body) rest h =
    let s = body ++ (sub ++ rest) in
    elim (Bool-cases (has_prefix sub (c ∷ s))) [
      | inl p ↦
          absurd (not_sooner (h [] (drop (length sub) (c ∷ s)) (sym (prefix_split sub (c ∷ s) p))))
      | inr p ↦
          before_later sub c s p
          ∙ ap (cons_before c)
              (before_index_first sub body rest (λ a b e. sooner (h (c ∷ a) b (ap (λ x. c ∷ x) e))))
    ]

pub scan_dollar_quote_first :
    (tag body rest : Bytes)
    → ((a b : Bytes) → body ++ (delim tag ++ rest) ≡ a ++ (delim tag ++ b) → length body ≤ length a)
    → scan_dollar_quote tag (delim tag ++ (body ++ (delim tag ++ rest)))
      ≡ some (delim tag ++ (body ++ delim tag), rest)
unfolding scan_dollar_quote
scan_dollar_quote_first tag body rest h =
    ap (λ x. whole_quote tag (before_index (delim tag) x))
      (drop-append (delim tag) (body ++ (delim tag ++ rest)))
    ∙ ap (whole_quote tag) (before_index_first (delim tag) body rest h)
    ∙ ap (λ x. some (delim tag ++ (body ++ delim tag), x)) (drop-append (delim tag) rest)

not_part : (c : ℕ) → is_dollar_tag_part c ≡ true → c ≢ b'$'
not_part c h e = cc (dollar_part, h, ap is_dollar_tag_part e)

-- Two tags with the same continuation are the same.
tag_unique_parts :
    (t u r s : Bytes) → AreParts t → AreParts u → t ++ (b'$' ∷ r) ≡ u ++ (b'$' ∷ s) → t ≡ u
tag_unique_parts [] [] r s p q e = refl
tag_unique_parts [] (d ∷ u) r s p q e = absurd (not_part d q.0 (cc))
tag_unique_parts (c ∷ t) [] r s p q e = absurd (not_part c p.0 (cc))
tag_unique_parts (c ∷ t) (d ∷ u) r s p q e = cc (tag_unique_parts t u r s p.1 q.1 (cc))

pub IsTag-parts : (t : Bytes) → IsTag t → AreParts t
unfolding is_dollar_tag_part
IsTag-parts [] h = tt
IsTag-parts (c ∷ t) h = (rw h.0 refl, h.1)

found :
    (tag r : Bytes)
    → IsTag tag
    → (o : Option Bytes) → Closes IsTag (tag ++ (b'$' ∷ r)) o
    → o ≡ some tag
found tag r i none h = absurd (h tag r i refl)
found tag r i (some t) h =
    ap some (sym (tag_unique_parts tag t r h.1.0 (IsTag-parts tag i) (IsTag-parts t h.0) h.1.1))

pub dollar_quote_tag_at_tag :
    (tag r : Bytes) → IsTag tag → dollar_quote_tag_at (tag ++ (b'$' ∷ r)) ≡ some tag
dollar_quote_tag_at_tag tag r i =
    found tag r i (dollar_quote_tag_at (tag ++ (b'$' ∷ r)))
      (dollar_quote_tag_at-Closes (tag ++ (b'$' ∷ r)))
