-- ===== src/Db/Rebind/Lexical.antt =====
-- The lexical structure of PostgreSQL that the scanner is about, as a grammar.
use fund_dashboard.Prelude.{
  ℕ, ◌+◌, ◌≡◌, ◌≢◌, ◌⊎◌, true, List, [], ◌∷◌, ◌++◌, Bytes, All, length, ◌≤◌, ◌<◌, ◌-◌,
}
use fund_dashboard.Db.Rebind.{delim, param, is_dollar_tag_start, is_dollar_tag_part}

-- A text does not begin with two given bytes.
abbrev pub NotPair : ℕ → ℕ → Bytes → Type 0
NotPair a b (c ∷ d ∷ s) = (c ≡ a) → (d ≡ b) → ⊥
NotPair a b s = Unit

-- What follows the opening quote of a string or a quoted identifier: a doubled quote stands for one.
pub data Quoted (q : ℕ) : Bytes → Type 0 where
  close : Quoted q (q ∷ [])
  doubled : {t : Bytes} → Quoted q t → Quoted q (q ∷ q ∷ t)
  inside : {c : ℕ} {t : Bytes} → c ≢ q → Quoted q t → Quoted q (c ∷ t)

-- What follows in a block comment at a depth; a comment may stand in a comment.
pub data Comment : ℕ → Bytes → Type 0 where
  leave_last : {d : ℕ} → d ≡ 1 → Comment d (b'*' ∷ b'/' ∷ [])
  leave : {d : ℕ} {t : Bytes} → 1 < d → Comment (d - 1) t → Comment d (b'*' ∷ b'/' ∷ t)
  enter : {d : ℕ} {t : Bytes} → Comment (d + 1) t → Comment d (b'/' ∷ b'*' ∷ t)
  within :
      {d c : ℕ} {t : Bytes}
      → NotPair b'/' b'*' (c ∷ t)
      → NotPair b'*' b'/' (c ∷ t)
      → Comment d t
      → Comment d (c ∷ t)

-- A tag is empty or an identifier.
abbrev pub IsTag : Bytes → Type 0
IsTag [] = Unit
IsTag (c ∷ t) = (is_dollar_tag_start c ≡ true) × All (λ d. is_dollar_tag_part d ≡ true) t

-- A text does not begin with a byte, or is at the end of a line.
abbrev pub NotNext : ℕ → Bytes → Type 0
NotNext q [] = Unit
NotNext q (c ∷ s) = c ≢ q

abbrev pub AtEndOfLine : Bytes → Type 0
AtEndOfLine [] = Unit
AtEndOfLine (c ∷ s) = c ≡ 10

-- Literal content, before what is left.
pub data Literal : Bytes → Bytes → Type 0 where
  quoted :
      {q : ℕ} {t rest : Bytes}
      → (q ≡ b'\'') ⊎ (q ≡ b'"')
      → Quoted q t
      → NotNext q rest
      → Literal (q ∷ t) rest
  line_comment :
      {t rest : Bytes} → All (λ c. c ≢ 10) t → AtEndOfLine rest → Literal (b'-' ∷ b'-' ∷ t) rest
  block_comment : {t rest : Bytes} → Comment 1 t → Literal (b'/' ∷ b'*' ∷ t) rest
  dollar_quoted :
      (tag body : Bytes) {rest : Bytes}
      → IsTag tag
      → ((a b : Bytes)
          → body ++ (delim tag ++ rest) ≡ a ++ (delim tag ++ b)
          → length body ≤ length a)
      → Literal (delim tag ++ (body ++ delim tag)) rest

-- A byte of its own: it begins no literal content and is no placeholder.
pub record Ordinary (c : ℕ) (rest : Bytes) : Type 0 where
  pub no_quote : c ≢ b'\''
  pub no_identifier : c ≢ b'"'
  pub no_placeholder : c ≢ b'?'
  pub no_line : NotPair b'-' b'-' (c ∷ rest)
  pub no_block : NotPair b'/' b'*' (c ∷ rest)
  pub no_dollar : c ≡ b'$' → (tag t : Bytes) → IsTag tag → (c ∷ rest) ≢ delim tag ++ t

-- The pieces of a query.
pub data Piece : Type 0 where
  literal : Bytes → Piece
  ordinary : ℕ → Piece
  parameter : Piece

pub data Lexes : Bytes → List Piece → Type 0 where
  done : Lexes [] []
  a_literal :
      {t rest : Bytes} {ps : List Piece}
      → Literal t rest
      → Lexes rest ps
      → Lexes (t ++ rest) (literal t ∷ ps)
  a_byte :
      {c : ℕ} {rest : Bytes} {ps : List Piece}
      → Ordinary c rest
      → Lexes rest ps
      → Lexes (c ∷ rest) (ordinary c ∷ ps)
  a_parameter :
      {rest : Bytes} {ps : List Piece} → Lexes rest ps → Lexes (b'?' ∷ rest) (parameter ∷ ps)

-- The text with its parameters numbered, after a number of them.
unfoldable pub number : ℕ → List Piece → Bytes
number n [] = []
number n (literal t ∷ ps) = t ++ number n ps
number n (ordinary c ∷ ps) = c ∷ number n ps
number n (parameter ∷ ps) = param (n + 1) ++ number (n + 1) ps
