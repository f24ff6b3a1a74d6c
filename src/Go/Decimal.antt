-- ===== src/Go/Decimal.antt =====
-- `fmt.Sprintf("%d", n)` and `strings.Index`.
use fund_dashboard.Prelude.{
  ℕ, zero, suc, ◌+◌, ◌/◌, ◌%◌, true, false, [], ◌∷◌, Option, none, some, ltb, if◌then◌else◌, Bytes,
  has_prefix,
}

-- The rounds are those of the digits; `n + 1` of them are enough.
digits_of : ℕ → ℕ → Bytes → Bytes
digits_of zero n acc = acc
digits_of (suc f) n acc = elim (ltb n 10) [
  | true ↦ (b'0' + n) ∷ acc
  | false ↦ digits_of f (n / 10) ((b'0' + n % 10) ∷ acc)
]

unfoldable pub decimal : ℕ → Bytes
unfolding digits_of
decimal n = digits_of (suc n) n []

abbrev cons_before : ℕ → Option (Bytes × Bytes) → Option (Bytes × Bytes)
cons_before c none = none
cons_before c (some (a, b)) = some (c ∷ a, b)

-- What stands before the first occurrence of a text, and from it on.
unfoldable pub before_index : Bytes → Bytes → Option (Bytes × Bytes)
before_index sub [] = if has_prefix sub [] then some ([], []) else none
before_index sub (c ∷ s) = elim (has_prefix sub (c ∷ s)) [
  | true ↦ some ([], c ∷ s)
  | false ↦ cons_before c (before_index sub s)
]
