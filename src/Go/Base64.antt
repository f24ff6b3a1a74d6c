-- ===== src/Go/Base64.antt =====
-- encoding/base64 without padding, over the standard and the URL alphabet.
use fund_dashboard.Prelude.{
  ℕ, ◌+◌, ◌-◌, ◌*◌, ◌/◌, ◌%◌, ◌≤◌, ◌<◌, ◌≡◌, ◌≢◌, ◌&&◌, ◌||◌, List, [], ◌∷◌, Option, none, some,
  arith, leb, ltb, ◌==◌, if◌then◌else◌, All, Bytes, refl,
}

-- The last two symbols of the alphabet.
pub data Alphabet : Type 0 where
  std url : Alphabet

abbrev sym62 : Alphabet → ℕ
sym62 std = b'+'
sym62 url = b'-'

abbrev sym63 : Alphabet → ℕ
sym63 std = b'/'
sym63 url = b'_'

pub symbol : Alphabet → ℕ → ℕ
symbol a v =
    if ltb v 26
    then b'A' + v
    else if ltb v 52
    then b'a' + (v - 26)
    else if ltb v 62
    then b'0' + (v - 52)
    else if v == 62
    then sym62 a
    else sym63 a

pub symbol_value : Alphabet → ℕ → Option ℕ
symbol_value a c =
    if leb b'A' c && leb c b'Z'
    then some (c - b'A')
    else if leb b'a' c && leb c b'z'
    then some (c - b'a' + 26)
    else if leb b'0' c && leb c b'9'
    then some (c - b'0' + 52)
    else if c == sym62 a
    then some 62
    else if c == sym63 a
    then some 63
    else none

-- The six-bit groups of a byte sequence.
pub groups : Bytes → List ℕ
groups [] = []
groups (x ∷ []) = (x / 4) ∷ (x % 4 * 16) ∷ []
groups (x ∷ y ∷ []) = (x / 4) ∷ (x % 4 * 16 + y / 16) ∷ (y % 16 * 4) ∷ []
groups (x ∷ y ∷ z ∷ r) =
    (x / 4) ∷ (x % 4 * 16 + y / 16) ∷ (y % 16 * 4 + z / 64) ∷ (z % 64) ∷ groups r

-- The bytes of six-bit groups; a lone last group is an error.
pub ungroup : List ℕ → Option Bytes
ungroup [] = some []
ungroup (a ∷ []) = none
ungroup (a ∷ b ∷ []) = some ((a * 4 + b / 16) ∷ [])
ungroup (a ∷ b ∷ c ∷ []) = some ((a * 4 + b / 16) ∷ (b % 16 * 16 + c / 4) ∷ [])
ungroup (a ∷ b ∷ c ∷ d ∷ r) = elim (ungroup r) [
  | none ↦ none
  | some s ↦ some ((a * 4 + b / 16) ∷ (b % 16 * 16 + c / 4) ∷ (c % 4 * 64 + d) ∷ s)
]

pub symbols : Alphabet → List ℕ → Bytes
symbols a [] = []
symbols a (v ∷ vs) = symbol a v ∷ symbols a vs

unfoldable pub encode : Alphabet → Bytes → Bytes
unfolding symbols symbol groups
encode a s = symbols a (groups s)

-- The decoder skips carriage returns and line feeds.
pub values : Alphabet → Bytes → Option (List ℕ)
values a [] = some []
values a (c ∷ s) =
    let rest = values a s in
    if c == 10 || c == 13 then rest else elim (symbol_value a c) [
      | none ↦ none
      | some v ↦ elim rest [ none ↦ none | some vs ↦ some (v ∷ vs) ]
    ]

unfoldable pub decode : Alphabet → Bytes → Option Bytes
unfolding values symbol_value ungroup
decode a s = elim (values a s) [ none ↦ none | some vs ↦ ungroup vs ]

abbrev pub IsByte : ℕ → Type 0
IsByte b = b < 256

abbrev IsGroup : ℕ → Type 0
IsGroup v = v < 64

groups-IsGroup : (s : Bytes) → All IsByte s → All IsGroup (groups s)
unfolding groups
groups-IsGroup [] h = tt
groups-IsGroup (x ∷ []) h = omega arith
groups-IsGroup (x ∷ y ∷ []) h = omega arith
groups-IsGroup (x ∷ y ∷ z ∷ r) h =
    (omega arith, (omega arith, (omega arith, (omega arith, groups-IsGroup r h.1.1.1))))

ungroup-groups : (s : Bytes) → All IsByte s → ungroup (groups s) ≡ some s
unfolding ungroup groups
ungroup-groups [] h = refl
ungroup-groups (x ∷ []) h = ground arith
ungroup-groups (x ∷ y ∷ []) h = ground arith
ungroup-groups (x ∷ y ∷ z ∷ r) h = ground (arith, ungroup-groups r h.1.1.1)

symbol_value-symbol : (a : Alphabet) (v : ℕ) → v < 64 → symbol_value a (symbol a v) ≡ some v
unfolding symbol_value symbol
symbol_value-symbol std v h = ground arith
symbol_value-symbol url v h = ground arith

-- No symbol is below 43, so none is a line break, a space or a dollar sign.
pub symbol_above : (a : Alphabet) (v : ℕ) → v < 64 → 43 ≤ symbol a v
unfolding symbol
symbol_above std v h = ground arith
symbol_above url v h = ground arith

values-symbols : (a : Alphabet) (vs : List ℕ) → All IsGroup vs → values a (symbols a vs) ≡ some vs
unfolding values symbols
values-symbols a [] h = refl
values-symbols a (v ∷ vs) h =
    ground (arith, symbol_value-symbol a v h.0, symbol_above a v h.0, values-symbols a vs h.1)

pub decode-encode : (a : Alphabet) (s : Bytes) → All IsByte s → decode a (encode a s) ≡ some s
decode-encode a s h =
    unfold decode encode in
    ground (arith, values-symbols a (groups s) (groups-IsGroup s h), ungroup-groups s h)

symbols_above : (a : Alphabet) (vs : List ℕ) → All IsGroup vs → All (λ c. 43 ≤ c) (symbols a vs)
unfolding symbols
symbols_above a [] h = tt
symbols_above a (v ∷ vs) h = (symbol_above a v h.0, symbols_above a vs h.1)

pub encode_above : (a : Alphabet) (s : Bytes) → All IsByte s → All (λ c. 43 ≤ c) (encode a s)
encode_above a s h = unfold encode in symbols_above a (groups s) (groups-IsGroup s h)

symbol_dotless : (a : Alphabet) (v : ℕ) → v < 64 → symbol a v ≢ b'.'
unfolding symbol
symbol_dotless std v h e = ground (arith, h, e)
symbol_dotless url v h e = ground (arith, h, e)

symbols_dotless : (a : Alphabet) (vs : List ℕ) → All IsGroup vs → All (λ c. c ≢ b'.') (symbols a vs)
unfolding symbols
symbols_dotless a [] h = tt
symbols_dotless a (v ∷ vs) h = (symbol_dotless a v h.0, symbols_dotless a vs h.1)

pub encode_dotless : (a : Alphabet) (s : Bytes) → All IsByte s → All (λ c. c ≢ b'.') (encode a s)
encode_dotless a s h = unfold encode in symbols_dotless a (groups s) (groups-IsGroup s h)
