-- ===== src/Dialect.antt =====
-- internal/dialect: the names of the drivers, quoted identifiers and the errors that callers tell
-- apart by their text. The queries of the two drivers are SQL text.
use fund_dashboard.Prelude.{
  Bool, false, ◌||◌, [], ◌∷◌, ◌++◌, Option, none, some, if◌then◌else◌, Bytes, bytes, beq,
}
use fund_dashboard.Go.Text.{trim_space}
use fund_dashboard.Go.Search.{to_lower, contains, replace_all}

pub data Dialect : Type 0 where
  sqlite postgres : Dialect

abbrev name_sqlite : Bytes
name_sqlite = bytes "sqlite"

abbrev name_postgres : Bytes
name_postgres = bytes "pg"

-- `none` is the error of an unsupported driver.
unfoldable pub new_checked : Bytes → Option Dialect
unfolding to_lower trim_space beq
new_checked name =
    let n = to_lower (trim_space name) in
    if beq n [] || beq n name_sqlite
    then some sqlite
    else if beq n name_postgres
    then some postgres
    else none

unfoldable pub new : Bytes → Dialect
unfolding new_checked
new name = elim (new_checked name) [ none ↦ sqlite | some d ↦ d ]

unfoldable pub quote_identifier : Bytes → Bytes
unfolding replace_all
quote_identifier identifier = b'"' ∷ (replace_all b'"' (b'"' ∷ b'"' ∷ []) identifier ++ b'"' ∷ [])

-- A nil error is `none`, any other is its text.
unfoldable pub is_missing_table_error : Option Bytes → Bool
unfolding to_lower contains
is_missing_table_error none = false
is_missing_table_error (some err) =
    let msg = to_lower err in
    contains msg (bytes "no such table")
    || contains msg (bytes "does not exist")
    || contains msg (bytes "undefined_table")

unfoldable pub is_duplicate_column_error : Option Bytes → Bool
unfolding to_lower contains
is_duplicate_column_error none = false
is_duplicate_column_error (some err) =
    let msg = to_lower err in
    contains msg (bytes "duplicate column")
    || contains msg (bytes "already exists")
    || contains msg (bytes "duplicate_column")
    || contains msg (bytes "42701")
