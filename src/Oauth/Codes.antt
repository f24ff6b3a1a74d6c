-- ===== src/Oauth/Codes.antt =====
-- Authorization codes: `codeStore` of internal/oauth/pkce.go. The mutex makes each method one step,
-- and the clock is an argument.
pub mod Redeem
use fund_dashboard.Prelude.{
  ℕ, ◌+◌, Bool, true, false, not, List, [], ◌∷◌, Option, none, some, leb, if◌then◌else◌, Bytes, beq,
}
use fund_dashboard.Go.Base64.{url, encode}
use fund_dashboard.Oauth.State.{
  Grant, CodeEntry, Table, Server, Failure, Outcome, success, failed, Flow, ◌>>=◌, pure,
  read_random,
}

unfoldable pub live_code : ℕ → Option CodeEntry → Option CodeEntry
live_code now none = none
live_code now (some e) = if leb e.expires_at now then none else some e

unfoldable pub sweep_expired_codes : ℕ → Table CodeEntry → Table CodeEntry
sweep_expired_codes now entries code = live_code now (entries code)

abbrev pub put_code : Bytes → CodeEntry → Table CodeEntry → Table CodeEntry
put_code code e entries k = if beq k code then some e else entries k

abbrev pub remove_code : Bytes → Table CodeEntry → Table CodeEntry
remove_code code entries k = if beq k code then none else entries k

-- `codeStore.Issue` with the lifetime `ttl`.
unfoldable pub issue_grant : ℕ → ℕ → Grant → Flow Bytes
issue_grant ttl now grant = do
  buf ← read_random
  λ w. (
    success (encode url buf),
    record w {
      codes =
          put_code (encode url buf) (record { grant = grant; expires_at = now + ttl })
            (sweep_expired_codes now w.codes);
    },
  )

abbrev pub grant_of : Option CodeEntry → Option Grant
grant_of none = none
grant_of (some e) = some e.grant

unfoldable pub redeem_entry : ℕ → Bytes → Option CodeEntry → Server → Option Grant × Server
redeem_entry now code none w = (none, w)
redeem_entry now code (some e) w =
    (grant_of (live_code now (some e)), record w { codes = remove_code code w.codes })

-- `codeStore.Redeem`.
unfoldable pub redeem : ℕ → Bytes → Server → Option Grant × Server
redeem now code w = redeem_entry now code (w.codes code) w
