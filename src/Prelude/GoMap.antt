-- ===== src/Prelude/GoMap.antt =====
-- A Go map with text keys, as the function of its lookups.
use Prim.Native.String.{String}
use mathlib.Core.Path.{◌≡◌}
use mathlib.Core.Option.{Option, none, some}
use text.Mathlib.Text.{◌==◌}
use text.Mathlib.TextPositions.{eq_refl}
use fund_dashboard.Prelude.Tests.{if◌then◌else◌}

abbrev pub Dict {ℓ} : Type ℓ → Type ℓ
Dict V = String → Option V

module _ {ℓ} {V : Type ℓ} where
  -- `make(map[string]V)`
  abbrev pub empty_dict : Dict V
  empty_dict k = none

  -- `m[k] = v`
  abbrev pub insert : String → V → Dict V → Dict V
  insert k v m j = if k == j then some v else m j

  -- `delete(m, k)`
  abbrev pub delete : String → Dict V → Dict V
  delete k m j = if k == j then none else m j

  pub insert_self : (k : String) (v : V) (m : Dict V) → insert k v m k ≡ some v
  insert_self k v m = rw (eq_refl k)

  pub delete_self : (k : String) (m : Dict V) → delete k m k ≡ none
  delete_self k m = rw (eq_refl k)
