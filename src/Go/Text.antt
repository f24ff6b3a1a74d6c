-- ===== src/Go/Text.antt =====
-- Functions of packages strings and strconv on bytes.
pub mod Fields
use fund_dashboard.Prelude.{
  ℕ, true, false, not, ◌+◌, ◌-◌, ◌*◌, ◌^◌, ◌/◌, ◌%◌, ◌≡◌, ◌≢◌, Bool, ◌&&◌, ◌||◌, List, [], ◌∷◌,
  ◌++◌, ◌≤◌, Option, none, some, arith, leb, ltb, ◌==◌, if◌then◌else◌, All, Bytes, refl,
}

abbrev cons_head : ℕ → List Bytes → List Bytes
cons_head c [] = (c ∷ []) ∷ []
cons_head c (p ∷ ps) = (c ∷ p) ∷ ps

-- `strings.Split(s, sep)` for a separator of one byte.
unfoldable pub split : ℕ → Bytes → List Bytes
split sep [] = [] ∷ []
split sep (c ∷ s) = let rest = split sep s in if c == sep then [] ∷ rest else cons_head c rest

-- `strings.SplitN(s, sep, 2)`, where `none` is a single part.
unfoldable pub cut : ℕ → Bytes → Option (Bytes × Bytes)
cut sep [] = none
cut sep (c ∷ s) =
    let rest = cut sep s in
    if c == sep then some ([], s) else elim rest [ none ↦ none | some (k, v) ↦ some (c ∷ k, v) ]

-- A piece without the separator is the first part of what it begins.
pub split_piece :
    (sep : ℕ) (p s : Bytes) → All (λ c. c ≢ sep) p → split sep (p ++ sep ∷ s) ≡ p ∷ split sep s
unfolding split
split_piece sep [] s h = ground arith
split_piece sep (c ∷ p) s h = ground (arith, split_piece sep p s h.1)

pub split_last : (sep : ℕ) (p : Bytes) → All (λ c. c ≢ sep) p → split sep p ≡ p ∷ []
unfolding split
split_last sep [] h = refl
split_last sep (c ∷ p) h = ground (arith, split_last sep p h.1)

abbrev pub is_digit : ℕ → Bool
is_digit c = leb b'0' c && leb c b'9'

digits_value : ℕ → Bytes → Option ℕ
digits_value acc [] = some acc
digits_value acc (c ∷ s) =
    let rest = digits_value (acc * 10 + (c - b'0')) s in if is_digit c then rest else none

-- `strconv.ParseUint(s, 10, 32)`.
unfoldable pub parse_uint32 : Bytes → Option ℕ
unfolding digits_value
parse_uint32 [] = none
parse_uint32 (c ∷ s) = elim (digits_value 0 (c ∷ s)) [
  | none ↦ none
  | some n ↦ if ltb n (2 ^ 32) then some n else none
]

-- The value of the longest run of digits at the head, if there is one.
digits_prefix : ℕ → Bytes → ℕ
digits_prefix acc [] = acc
digits_prefix acc (c ∷ s) =
    let rest = digits_prefix (acc * 10 + (c - b'0')) s in if is_digit c then rest else acc

unsigned : Bytes → Option ℕ
unfolding digits_prefix
unsigned [] = none
unsigned (c ∷ s) = if is_digit c then some (digits_prefix 0 (c ∷ s)) else none

-- An optional plus sign; a negative number is `none` here.
signed : Bytes → Option ℕ
unfolding unsigned
signed [] = none
signed (c ∷ s) = if c == b'+' then unsigned s else unsigned (c ∷ s)

-- `fmt.Sscanf(s, "v=%d", &n)` at values that are not negative: blanks before the number are
-- skipped, and what follows it is not read. A number out of range is an error there; here it is a
-- number that the caller's comparison refuses.
skip_blanks : Bytes → Bytes
skip_blanks [] = []
skip_blanks (c ∷ s) =
    let rest = skip_blanks s in
    if c == 32 || c == 9 || c == 11 || c == 12 || c == 13 then rest else c ∷ s

unfoldable pub scan_version : Bytes → Option ℕ
unfolding signed skip_blanks
scan_version (v ∷ e ∷ s) = if (v == b'v') && (e == b'=') then signed (skip_blanks s) else none
scan_version _ = none

-- ASCII white space; `strings.TrimSpace` also cuts the spaces outside ASCII.
abbrev pub is_space : ℕ → Bool
is_space c = c == 32 || (leb 9 c && leb c 13)

trim_left : Bytes → Bytes
trim_left [] = []
trim_left (c ∷ s) = let rest = trim_left s in if is_space c then rest else c ∷ s

-- What is left of the trailing spaces: nothing, if all that follows is space.
trim_right : Bytes → Bytes
trim_right [] = []
trim_right (c ∷ s) = elim (trim_right s) [
  | [] ↦ if is_space c then [] else c ∷ []
  | ◌∷◌ d r ↦ c ∷ d ∷ r
]

unfoldable pub trim_space : Bytes → Bytes
unfolding trim_left trim_right
trim_space s = trim_right (trim_left s)

trim_left_dense : (s : Bytes) → All (λ c. 43 ≤ c) s → trim_left s ≡ s
unfolding trim_left
trim_left_dense [] h = refl
trim_left_dense (c ∷ s) h = ground (arith, h.0)

trim_right_dense : (s : Bytes) → All (λ c. 43 ≤ c) s → trim_right s ≡ s
unfolding trim_right
trim_right_dense [] h = refl
trim_right_dense (c ∷ []) h = ground (arith, h.0)
trim_right_dense (c ∷ d ∷ s) h = rw (trim_right_dense (d ∷ s) h.1) refl

-- Above the spaces, nothing is cut.
pub trim_space_dense : (s : Bytes) → All (λ c. 43 ≤ c) s → trim_space s ≡ s
unfolding trim_space
trim_space_dense s h = rw (trim_left_dense s h) (trim_right_dense s h)

-- `strings.TrimRight` for a cut set of one byte.
unfoldable pub trim_end : ℕ → Bytes → Bytes
trim_end b [] = []
trim_end b (c ∷ s) = elim (trim_end b s) [
  | [] ↦ if c == b then [] else c ∷ []
  | ◌∷◌ d r ↦ c ∷ d ∷ r
]

-- Whether a text begins inside a word.
abbrev in_word : Bytes → Bool
in_word [] = false
in_word (c ∷ s) = not (is_space c)

-- `strings.Fields`.
unfoldable pub fields : Bytes → List Bytes
fields [] = []
fields (c ∷ s) =
    let rest = fields s in
    if is_space c then rest else if in_word s then cons_head c rest else (c ∷ []) ∷ rest

-- `strings.Join` for a separator of one byte.
unfoldable pub join : ℕ → List Bytes → Bytes
join sep [] = []
join sep (p ∷ []) = p
join sep (p ∷ q ∷ ps) = p ++ sep ∷ join sep (q ∷ ps)

-- `hex.EncodeToString`.
hex_digit : ℕ → ℕ
hex_digit v = if ltb v 10 then b'0' + v else b'a' + (v - 10)

unfoldable pub hex : Bytes → Bytes
unfolding hex_digit
hex [] = []
hex (b ∷ s) = hex_digit (b / 16) ∷ hex_digit (b % 16) ∷ hex s
