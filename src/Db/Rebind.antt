-- ===== src/Db/Rebind.antt =====
-- `rebind` of internal/repository/db/open.go: `?` placeholders become $1, $2, … and literal content
-- stays. An index into the query is the text that is left from it on.
pub mod Lexical
pub mod Scans
pub mod Dollar
pub mod Sound
pub mod Complete
mod Tests
use fund_dashboard.Prelude.{
  ℕ, zero, suc, ◌+◌, ◌-◌, Bool, true, false, not, ◌&&◌, ◌||◌, List, [], ◌∷◌, ◌++◌, Option, none,
  some, leb, ◌==◌, if◌then◌else◌, Bytes, has_prefix, length, take, drop,
}
use fund_dashboard.Go.Decimal.{decimal, before_index}

pub data RebindError : Type 0 where
  unterminated_string unterminated_identifier unterminated_comment unterminated_dollar : RebindError

-- `out_of_fuel` has no counterpart in the code.
pub data Result (A : Type 0) : Type 0 where
  ok : A → Result A
  err : RebindError → Result A
  out_of_fuel : Result A

-- A text that was copied, and what is left.
abbrev pub Scan : Type 0
Scan = Option (Bytes × Bytes)

abbrev pub copied : Bytes → Scan → Scan
copied text none = none
copied text (some (a, rest)) = some (text ++ a, rest)

-- After the opening quote, up to the closing one: `scanSQLString` and `scanQuotedIdent`.
pub scan_quoted : ℕ → Bytes → Scan
scan_quoted q [] = none
scan_quoted q (c ∷ []) = if c == q then some (c ∷ [], []) else none
scan_quoted q (c ∷ d ∷ s) = elim (c == q) [
  | false ↦ copied (c ∷ []) (scan_quoted q (d ∷ s))
  | true ↦ elim (d == q) [
    | true ↦ copied (c ∷ d ∷ []) (scan_quoted q s)
    | false ↦ some (c ∷ [], d ∷ s)
  ]
]

-- Up to the end of the line.
pub scan_line_comment : Bytes → Bytes × Bytes
scan_line_comment [] = ([], [])
scan_line_comment (c ∷ s) =
    let (a, rest) = scan_line_comment s in if c == 10 then ([], c ∷ s) else (c ∷ a, rest)

-- At a depth that is not 0 once the first `/*` is read.
pub scan_block_comment : ℕ → Bytes → Scan
scan_block_comment depth [] = none
scan_block_comment depth (c ∷ []) = none
scan_block_comment depth (c ∷ d ∷ s) = elim ((c == b'/') && (d == b'*')) [
  | true ↦ copied (c ∷ d ∷ []) (scan_block_comment (depth + 1) s)
  | false ↦ elim ((c == b'*') && (d == b'/')) [
    | true ↦ elim (depth - 1 == 0) [
      | true ↦ some (c ∷ d ∷ [], s)
      | false ↦ copied (c ∷ d ∷ []) (scan_block_comment (depth - 1) s)
    ]
    | false ↦ copied (c ∷ []) (scan_block_comment depth (d ∷ s))
  ]
]

unfoldable pub is_dollar_tag_start : ℕ → Bool
is_dollar_tag_start c = c == b'_' || (leb b'a' c && leb c b'z') || (leb b'A' c && leb c b'Z')

unfoldable pub is_dollar_tag_part : ℕ → Bool
unfolding is_dollar_tag_start
is_dollar_tag_part c = is_dollar_tag_start c || (leb b'0' c && leb c b'9')

abbrev pub cons_tag : ℕ → Option Bytes → Option Bytes
cons_tag c none = none
cons_tag c (some t) = some (c ∷ t)

-- The rest of a tag, if a `$` ends it.
pub dollar_tag_rest : Bytes → Option Bytes
dollar_tag_rest [] = none
dollar_tag_rest (c ∷ s) =
    let rest = dollar_tag_rest s in
    if is_dollar_tag_part c then cons_tag c rest else if c == b'$' then some [] else none

-- After the opening `$`.
unfoldable pub dollar_quote_tag_at : Bytes → Option Bytes
unfolding dollar_tag_rest is_dollar_tag_part is_dollar_tag_start
dollar_quote_tag_at [] = none
dollar_quote_tag_at (c ∷ s) =
    if c == b'$'
    then some []
    else if is_dollar_tag_start c
    then cons_tag c (dollar_tag_rest s)
    else none

abbrev pub delim : Bytes → Bytes
delim tag = b'$' ∷ (tag ++ b'$' ∷ [])

-- The delimiter, the body and the delimiter again.
abbrev pub whole_quote : Bytes → Scan → Scan
whole_quote tag none = none
whole_quote tag (some (body, rest)) =
    some (delim tag ++ (body ++ delim tag), drop (length (delim tag)) rest)

pub scan_dollar_quote : Bytes → Bytes → Scan
scan_dollar_quote tag s = whole_quote tag (before_index (delim tag) (drop (length (delim tag)) s))

abbrev pub emit : Bytes → Result Bytes → Result Bytes
emit text (ok out) = ok (text ++ out)
emit text r = r

abbrev pub starts : ℕ → ℕ → Bytes → Bool
starts a b (c ∷ d ∷ s) = (c == a) && (d == b)
starts a b s = false

-- What stands at the beginning of a text that is not empty: literal content that is copied, a
-- placeholder, or a construct with no end.
pub data Next : Type 0 where
  copy : Bytes → Bytes → Next
  placeholder : Bytes → Next
  stop : RebindError → Next

abbrev pub scanned : RebindError → Scan → Next
scanned e none = stop e
scanned e (some (text, rest)) = copy text rest

abbrev pub line : Bytes × Bytes → Next
line (text, rest) = copy text rest

abbrev pub dollar : Option Bytes → Bytes → Next
dollar none s = copy (b'$' ∷ []) s
dollar (some tag) s = scanned unterminated_dollar (scan_dollar_quote tag (b'$' ∷ s))

-- The cases of the `switch`.
pub next : ℕ → Bytes → Next
next c s =
    if c == b'\''
    then scanned unterminated_string (copied (c ∷ []) (scan_quoted c s))
    else if c == b'"'
    then scanned unterminated_identifier (copied (c ∷ []) (scan_quoted c s))
    else if starts b'-' b'-' (c ∷ s)
    then line (scan_line_comment (c ∷ s))
    else if starts b'/' b'*' (c ∷ s)
    then scanned unterminated_comment (scan_block_comment 0 (c ∷ s))
    else if c == b'$'
    then dollar (dollar_quote_tag_at s) s
    else if c == b'?'
    then placeholder s
    else copy (c ∷ []) s

abbrev pub param : ℕ → Bytes
param n = b'$' ∷ decimal n

-- One turn of the loop, which goes on with what is left.
abbrev pub turn : ℕ → (ℕ → Bytes → Result Bytes) → Next → Result Bytes
turn n k (copy text rest) = emit text (k n rest)
turn n k (placeholder rest) = emit (param (n + 1)) (k (n + 1) rest)
turn n k (stop e) = err e

pub rebind_from : ℕ → ℕ → Bytes → Result Bytes
rebind_from zero n s = out_of_fuel
rebind_from (suc f) n [] = ok []
rebind_from (suc f) n (c ∷ s) = turn n (rebind_from f) (next c s)

pub has_placeholder : Bytes → Bool
has_placeholder [] = false
has_placeholder (c ∷ s) = c == b'?' || has_placeholder s

pub rebind : Bytes → Result Bytes
rebind query =
    if not (has_placeholder query) then ok query else rebind_from (suc (length query)) 0 query
