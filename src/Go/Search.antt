-- ===== src/Go/Search.antt =====
-- `strings.Contains`, `strings.ReplaceAll` and `strings.ToLower`, which here reads ASCII letters.
use fund_dashboard.Prelude.{
  ℕ, Bool, ◌+◌, ◌&&◌, ◌||◌, [], ◌∷◌, ◌++◌, map, leb, ◌==◌, if◌then◌else◌, Bytes, has_prefix,
}

abbrev pub lower : ℕ → ℕ
lower c = if leb b'A' c && leb c b'Z' then c + 32 else c

unfoldable pub to_lower : Bytes → Bytes
to_lower s = map lower s

unfoldable pub contains : Bytes → Bytes → Bool
unfolding has_prefix
contains [] sub = has_prefix sub []
contains (c ∷ s) sub = has_prefix sub (c ∷ s) || contains s sub

-- `strings.ReplaceAll` of one byte.
unfoldable pub replace_all : ℕ → Bytes → Bytes → Bytes
replace_all b new [] = []
replace_all b new (c ∷ s) = (if c == b then new else c ∷ []) ++ replace_all b new s
