-- ===== src/Db/Rebind/Tests.antt =====
-- Queries and what becomes of them.
use fund_dashboard.Prelude.{◌≡◌, ◌≢◌, ◌↔◌, Bytes, refl, bytes, has_prefix}
use fund_dashboard.Db.Rebind.{
  ok, err, out_of_fuel, unterminated_string, scan_quoted, scan_line_comment, scan_block_comment,
  scan_dollar_quote, next, rebind_from, has_placeholder, rebind, dollar_quote_tag_at,
}
use fund_dashboard.Db.Rebind.Complete.{Becomes, rebind_iff}
use fund_dashboard.Go.Decimal.{decimal, before_index}

two_params :
    rebind (bytes "SELECT 'a?''b' FROM t WHERE x = ? AND y = ? -- why?")
    ≡ ok (bytes "SELECT 'a?''b' FROM t WHERE x = $1 AND y = $2 -- why?")
unfolding rebind has_placeholder rebind_from next scan_quoted scan_line_comment decimal
two_params = refl

comments :
    rebind (bytes "/* a /* ? */ ? */ $q$ ? $q$ $1 ?")
    ≡ ok (bytes "/* a /* ? */ ? */ $q$ ? $q$ $1 $1")
unfolding rebind has_placeholder rebind_from next scan_block_comment scan_dollar_quote before_index
    dollar_quote_tag_at decimal has_prefix
comments = refl

unterminated : rebind (bytes "SELECT 'a ?") ≡ err unterminated_string
unfolding rebind has_placeholder rebind_from next scan_quoted
unterminated = refl

rebind_iff_example :
    (rebind (bytes "x = ?") ≢ out_of_fuel)
    × ((out : Bytes) → (rebind (bytes "x = ?") ≡ ok out) ↔ Becomes (bytes "x = ?") out)
rebind_iff_example = rebind_iff (bytes "x = ?")
